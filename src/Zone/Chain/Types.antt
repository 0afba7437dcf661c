-- ===== src/Zone/Chain/Types.antt =====
-- The bitmaps of the generated chain (signer/internal/signer/sign.go) are the ones that the zone
-- model dictates (signer/internal/signer/zonemodel.go).
use mathlib.Core.Path.{subst}
use sigillum_dnssec.Prelude.{
  ℕ, ◌≡◌, refl, sym, ◌∙◌, ap, Bool, true, false, ◌&&◌, ◌||◌, not, Option, none, some, List, [], ◌∷◌,
  ◌++◌, map, arith, if◌then◌else◌, ◌==◌,
}
use sigillum_dnssec.Names.{Name}
use sigillum_dnssec.Sets.{name_order, number_order, has, sort_set, sort_slice}
use sigillum_dnssec.Sets.Laws.{sort_set_unique, sort_set-IsAscending, has-sort_set, has-append}
use sigillum_dnssec.Sets.Slices.{
  IsDistinct, sort_slice-distinct, ascending-IsDistinct, IsDistinct-append,
}
use sigillum_dnssec.Zone.{
  Rr, OwnerInfo, ZoneModel, is_missing, is_occluded, is_delegation, find_owner, new_zone_model,
  owner_types, denial_types, authoritative_owners, type_ns, type_ds, type_rrsig, type_nsec,
}
use sigillum_dnssec.Zone.Occlusion.{apex-is_occluded}
use sigillum_dnssec.Zone.Owners.{
  apex-new_zone_model, has-keep_if, has_owner, has_type, missing-find_owner, types_at,
}
use sigillum_dnssec.Zone.Chain.{chain_names, types_by_name, chain_types}

pub has-chain_names :
    (m : ZoneModel) (name : Name) (records : List Rr)
    → has name (chain_names m records)
      ≡ (has name (map (λ rr. rr.owner) records) && not (is_occluded m name))
unfolding has chain_names
has-chain_names m name [] = refl
has-chain_names m name (rr ∷ records) =
    ground (arith, name_order.eq_of_cmp name rr.owner, has-chain_names m name records)

-- The names of the chain are the authoritative owners, in canonical order.
pub chain_names-authoritative :
    (apex : Name) (records : List Rr)
    → sort_set (chain_names (new_zone_model apex records) records)
      ≡ authoritative_owners (new_zone_model apex records)
unfolding authoritative_owners
chain_names-authoritative apex records =
    let m = new_zone_model apex records in
    sort_set_unique _ _ (λ name.
      has-chain_names m name records
      ∙ sym (
          has-keep_if (λ a. not (is_occluded m a)) name (map (λ oi. oi.name) m.owners)
          ∙ ap (λ b. b && not (is_occluded m name)) (has_owner apex records name)))

-- No record of the input is a denial record or a signature.
unfoldable pub IsUnsigned : List Rr → Type 0
IsUnsigned [] = Unit
IsUnsigned (rr ∷ records) =
    ((rr.rrtype == type_nsec || rr.rrtype == type_rrsig) ≡ false) × IsUnsigned records

unsigned_types :
    (name : Name) (t : ℕ) (records : List Rr)
    → IsUnsigned records
    → (t == type_nsec || t == type_rrsig) ≡ true
    → has t (types_by_name name records) ≡ false
unfolding IsUnsigned has types_by_name
unsigned_types name t [] h k = refl
unsigned_types name t (rr ∷ records) h k = ground (arith, h.0, unsigned_types name t records h.1 k)

meta_types : (t : ℕ) → has t (type_nsec ∷ type_rrsig ∷ []) ≡ (t == type_nsec || t == type_rrsig)
unfolding has
meta_types t = ground arith

-- What the chain lists at a name, the denial record's own types left out.
abbrev data_types : Bool → List ℕ → List ℕ
data_types cut present =
    if cut then type_ns ∷ (if has type_ds present then type_ds ∷ [] else []) else sort_set present

abbrev model_types : Bool → List ℕ → List ℕ
model_types cut present =
    if cut then type_ns ∷ (if has type_ds present then type_ds ∷ [] else []) else present

delegated-IsDistinct : (ds : Bool) → IsDistinct (type_ns ∷ (if ds then type_ds ∷ [] else []))
unfolding IsDistinct has
delegated-IsDistinct true = (refl, (refl, tt))
delegated-IsDistinct false = (refl, tt)

IsDistinct-data : (cut : Bool) (present : List ℕ) → IsDistinct (data_types cut present)
IsDistinct-data true present = delegated-IsDistinct (has type_ds present)
IsDistinct-data false present =
    ascending-IsDistinct (sort_set present) (sort_set-IsAscending present)

fresh_data :
    (t : ℕ) (cut : Bool) (present : List ℕ)
    → (t == type_nsec || t == type_rrsig) ≡ true
    → has t present ≡ false
    → has t (data_types cut present) ≡ false
fresh_data t false present meta h = has-sort_set t present ∙ h
fresh_data t true present meta h = unfold has in ground arith

same_data :
    (t : ℕ) (cut : Bool) (present indexed : List ℕ)
    → ((s : ℕ) → has s indexed ≡ has s present)
    → has t (data_types cut present) ≡ has t (model_types cut indexed)
same_data t false present indexed h = has-sort_set t present ∙ sym (h t)
same_data t true present indexed h = rw (h type_ds) refl

sorted_data :
    (cut : Bool) (present indexed : List ℕ)
    → ((s : ℕ) → has s indexed ≡ has s present)
    → ((t : ℕ) → (t == type_nsec || t == type_rrsig) ≡ true → has t present ≡ false)
    → sort_slice (data_types cut present ++ type_nsec ∷ type_rrsig ∷ [])
      ≡ sort_set ((type_nsec ∷ type_rrsig ∷ []) ++ model_types cut indexed)
sorted_data cut present indexed h fresh =
    let meta = type_nsec ∷ type_rrsig ∷ [] in
    sort_slice-distinct _ (
      IsDistinct-append (data_types cut present) meta (IsDistinct-data cut present)
        (unfold IsDistinct has in (refl, (refl, tt)))
        (λ t in_meta.
          fresh_data t cut present (sym (meta_types t) ∙ in_meta)
            (fresh t (sym (meta_types t) ∙ in_meta))))
    ∙ sort_set_unique _ _ (λ t. ground (
      arith,
      has-append t (data_types cut present) meta,
      has-append t meta (model_types cut indexed),
      same_data t cut present indexed h,
    ))

module _ (apex : Name) (records : List Rr) (unsigned : IsUnsigned records) where
  owner_types-some :
      (a : Name) (oi : OwnerInfo)
      → owner_types (new_zone_model apex records) a false (some oi)
        ≡ model_types (is_delegation (new_zone_model apex records) a) oi.types
  unfolding owner_types
  owner_types-some a oi = refl

  -- The bitmap that the generator makes for an owner is the one that the zone model dictates.
  pub chain_types-denial_types :
      (a : Name)
      → has a (map (λ rr. rr.owner) records) ≡ true
      → chain_types (new_zone_model apex records) records a
        ≡ denial_types (new_zone_model apex records) a false
  unfolding chain_types denial_types
  chain_types-denial_types a owner = go (find_owner a (new_zone_model apex records).owners) refl
    where
      go :
          (found : Option OwnerInfo)
          → find_owner a (new_zone_model apex records).owners ≡ found
          → sort_slice (
              data_types (is_delegation (new_zone_model apex records) a) (types_by_name a records)
              ++ type_nsec ∷ type_rrsig ∷ [])
            ≡ sort_set (
                (type_nsec ∷ type_rrsig ∷ [])
                ++ owner_types (new_zone_model apex records) a false found)
      go none e = absurd (cc (ap is_missing e, missing-find_owner apex records a, ap not owner))
      go (some oi) e =
          sorted_data (is_delegation (new_zone_model apex records) a) (types_by_name a records)
            oi.types (λ s. ap (λ o. has s (types_at o)) (sym e) ∙ has_type apex records a s)
            (λ t meta. unsigned_types a t records unsigned meta)
          ∙ ap (λ ts. sort_set ((type_nsec ∷ type_rrsig ∷ []) ++ ts)) (sym (owner_types-some a oi))

module _ (apex : Name) (records : List Rr) where
  pub known_name :
      (a : Name)
      → has a (chain_names (new_zone_model apex records) records) ≡ true
      → (has a (map (λ rr. rr.owner) records) ≡ true)
        × (is_occluded (new_zone_model apex records) a ≡ false)
  known_name a h = ground (arith, h, has-chain_names (new_zone_model apex records) a records)

  pub has_apex :
      has apex (map (λ rr. rr.owner) records) ≡ true
      → has apex (sort_set (chain_names (new_zone_model apex records) records)) ≡ true
  has_apex h =
      let m = new_zone_model apex records in
      let plain : is_occluded m apex ≡ false =
        subst (λ a. is_occluded m a ≡ false) (apex-new_zone_model apex records)
          (apex-is_occluded m) in
      ground
        (arith, h, plain, has-sort_set apex (chain_names m records), has-chain_names m apex records)
