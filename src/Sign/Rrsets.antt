-- ===== src/Sign/Rrsets.antt =====
-- Which RRsets are signed and by which keys (signer/internal/signer/sign.go
-- `signRecordsWithModel`, `sortedRRsetKeys`; signer/internal/signer/zonemodel.go `groupRRsets`). The
-- cryptography is a parameter that says whether a key signs an RRset; a signature is its owner, the
-- type that it covers and the key's tag and algorithm.
pub mod Laws
use Prim.Native.Nat.{compare, Ordering}
use Prim.Native.Nat.Ordering.{lt, eq, gt}
use sigillum_dnssec.Prelude.{
  ℕ, ◌≡◌, Bool, true, false, not, List, [], ◌∷◌, ◌++◌, arith, Result, ok, err, ◌==◌, if◌then◌else◌,
}
use sigillum_dnssec.Names.{Name}
use sigillum_dnssec.Sets.{Order, name_order, sort_set}
use sigillum_dnssec.Zone.{Rr, ZoneModel, signable, type_rrsig}
use sigillum_dnssec.Sign.Keys.{DnsKey, SigningKeys}

pub record RrsetKey : Type 0 where
  pub name : Name
  pub rrtype : ℕ

pub record Rrsig : Type 0 where
  pub owner : Name
  pub type_covered : ℕ
  pub key_tag : ℕ
  pub algorithm_number : ℕ

-- The order of `sortedRRsetKeys`: by name, then by type.
abbrev pub compare_keys : RrsetKey → RrsetKey → Ordering
compare_keys a b = elim (name_order.cmp a.name b.name) [
  | lt ↦ lt
  | eq ↦ compare a.rrtype b.rrtype
  | gt ↦ gt
]

pub keys_refl : (a : RrsetKey) → compare_keys a a ≡ eq
keys_refl a = ground (arith, name_order.cmp_refl a.name)

pub eq_of_keys : (a b : RrsetKey) → compare_keys a b ≡ eq → a ≡ b
eq_of_keys a b h =
    let both : (a.name ≡ b.name) × (a.rrtype ≡ b.rrtype) =
      ground (arith, h, name_order.eq_of_cmp a.name b.name) in
    ground (arith, both)

pub keys_gt : (a b : RrsetKey) → compare_keys a b ≡ gt → compare_keys b a ≡ lt
keys_gt a b h = ground (
  arith,
  h,
  name_order.eq_of_cmp a.name b.name,
  name_order.cmp_refl a.name,
  name_order.cmp_gt a.name b.name,
)

pub keys_lt : (a b : RrsetKey) → compare_keys a b ≡ lt → compare_keys b a ≡ gt
keys_lt a b h = ground (
  arith,
  h,
  name_order.eq_of_cmp a.name b.name,
  name_order.cmp_refl a.name,
  name_order.cmp_lt a.name b.name,
)

pub keys_trans :
    (a b c : RrsetKey) → compare_keys a b ≡ lt → compare_keys b c ≡ lt → compare_keys a c ≡ lt
keys_trans a b c h k = ground (
  arith,
  h,
  k,
  name_order.eq_of_cmp a.name b.name,
  name_order.eq_of_cmp b.name c.name,
  name_order.cmp_refl a.name,
  name_order.cmp_trans a.name b.name c.name,
)

instance unfoldable pub key_order : Order RrsetKey
key_order = record {
  cmp = compare_keys;
  cmp_refl = keys_refl;
  eq_of_cmp = eq_of_keys;
  cmp_gt = keys_gt;
  cmp_lt = keys_lt;
  cmp_trans = keys_trans;
}

-- The keys of `groupRRsets`, which sets signatures apart.
unfoldable pub rrset_keys : List Rr → List RrsetKey
rrset_keys [] = []
rrset_keys (rr ∷ records) =
    let rest = rrset_keys records in
    if rr.rrtype == type_rrsig then rest else record { name = rr.owner; rrtype = rr.rrtype } ∷ rest

unfoldable pub sorted_rrset_keys : List Rr → List RrsetKey
unfolding rrset_keys
sorted_rrset_keys records = sort_set (rrset_keys records)

abbrev pub create_rrsig : RrsetKey → DnsKey → Rrsig
create_rrsig k key = record {
  owner = k.name;
  type_covered = k.rrtype;
  key_tag = key.key_tag;
  algorithm_number = key.algorithm_number;
}

pub data SignError : Type 0 where
  signing_failed : RrsetKey → ℕ → SignError

abbrev pub then_more :
    Result SignError (List Rrsig)
    → (List Rrsig → Result SignError (List Rrsig))
    → Result SignError (List Rrsig)
then_more (err e) next = err e
then_more (ok made) next = next made

module _ (signs : RrsetKey → DnsKey → Bool) where
  unfoldable pub sign_rrset : RrsetKey → List DnsKey → List Rrsig → Result SignError (List Rrsig)
  sign_rrset k [] made = ok made
  sign_rrset k (key ∷ keys) made =
      let rest = sign_rrset k keys (made ++ create_rrsig k key ∷ []) in
      if signs k key then rest else err (signing_failed k key.key_tag)

  -- All KSKs sign the DNSKEY RRset, all ZSKs the others.
  abbrev pub keys_for : SigningKeys → RrsetKey → List DnsKey
  keys_for keys k = if k.rrtype == 48 then keys.signing_ksks else keys.signing_zsks

  unfoldable pub sign_all :
      ZoneModel → SigningKeys → List RrsetKey → List Rrsig → Result SignError (List Rrsig)
  unfolding signable sign_rrset
  sign_all m keys [] made = ok made
  sign_all m keys (k ∷ ks) made =
      if not (signable m k.name k.rrtype)
      then sign_all m keys ks made
      else then_more (sign_rrset k (keys_for keys k) made) (sign_all m keys ks)

  unfoldable pub sign_records_with_model :
      ZoneModel → List Rr → SigningKeys → Result SignError (List Rrsig)
  unfolding sorted_rrset_keys sign_all
  sign_records_with_model m records keys = sign_all m keys (sorted_rrset_keys records) []
