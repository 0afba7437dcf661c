-- ===== src/Nsec3/Chains.antt =====
-- The partition of NSEC3 records into chains (validator/internal/validator/nsec.go
-- `groupNSEC3ByParams`, `newNSEC3Chain`, `nsec3Chains`).
pub mod Groups
pub mod Laws
use sigillum_dnssec.Prelude.{
  ℕ, Bool, true, false, ◌&&◌, ◌||◌, not, Option, none, some, List, [], ◌∷◌, ◌++◌, Result, ok, err,
  ◌==◌, keep_if, if◌then◌else◌,
}
use sigillum_dnssec.Names.{Label}
use sigillum_dnssec.Sets.{label_order, same}
use sigillum_dnssec.Nsec3.{
  Nsec3, Nsec3Error, nsec3_hash_sha1, normalize_salt, hex_decode, nsec3_unknown_flags,
  unsupported_algorithm, invalid_salt, mixed_chains, no_usable_records,
}

pub record ParamKey : Type 0 where
  pub algorithm : ℕ
  pub iterations : ℕ
  pub salt : Label

pub record Group : Type 0 where
  pub params : ParamKey
  pub records : List Nsec3

pub record Nsec3Chain : Type 0 where
  pub algorithm : ℕ
  pub iterations : ℕ
  pub salt : List ℕ
  pub salt_hex : Label
  pub records : List Nsec3

unfoldable pub param_key : Nsec3 → ParamKey
unfolding normalize_salt
param_key r = record {
  algorithm = r.algorithm;
  iterations = r.iterations;
  salt = normalize_salt r.salt;
}

unfoldable pub same_params : ParamKey → ParamKey → Bool
same_params k l = k.algorithm == l.algorithm && (k.iterations == l.iterations && same k.salt l.salt)

-- `byKey[k] = append(byKey[k], r)`, with a new key at the end of the order.
unfoldable pub add_to_group : Nsec3 → List Group → List Group
unfolding param_key same_params
add_to_group r [] = record { params = param_key r; records = r ∷ [] } ∷ []
add_to_group r (g ∷ groups) =
    let rest = add_to_group r groups in
    if same_params (param_key r) g.params
    then record g { records = g.records ++ r ∷ [] } ∷ groups
    else g ∷ rest

unfoldable pub group_all : List Group → List Nsec3 → List Group
unfolding add_to_group
group_all groups [] = groups
group_all groups (r ∷ records) = group_all (add_to_group r groups) records

unfoldable pub group_nsec3_by_params : List Nsec3 → List Group
unfolding group_all
group_nsec3_by_params records = group_all [] records

-- The loop over `records[1:]`.
unfoldable pub all_match : Nsec3 → List Nsec3 → Bool
unfolding normalize_salt
all_match first [] = true
all_match first (r ∷ records) =
    let rest = all_match first records in
    if not (r.algorithm == first.algorithm)
      || (not (r.iterations == first.iterations)
          || not (same (normalize_salt r.salt) (normalize_salt first.salt)))
    then false
    else rest

abbrev pub chain_with : Nsec3 → List Nsec3 → Option (List ℕ) → Bool → Result Nsec3Error Nsec3Chain
chain_with first records none matching = err invalid_salt
chain_with first records (some salt) false = err mixed_chains
chain_with first records (some salt) true = ok (record {
  algorithm = first.algorithm;
  iterations = first.iterations;
  salt = salt;
  salt_hex = normalize_salt first.salt;
  records = first ∷ records;
})

unfoldable pub new_nsec3_chain : List Nsec3 → Result Nsec3Error Nsec3Chain
unfolding all_match normalize_salt hex_decode
new_nsec3_chain [] = err no_usable_records
new_nsec3_chain (first ∷ records) =
    if not (first.algorithm == nsec3_hash_sha1)
    then err unsupported_algorithm
    else chain_with first records (hex_decode (normalize_salt first.salt)) (all_match first records)

-- The loop over the groups: the chains, and the last error.
unfoldable pub chains_of : Option Nsec3Error → List Group → List Nsec3Chain × Option Nsec3Error
unfolding new_nsec3_chain
chains_of last [] = ([], last)
chains_of last (g ∷ groups) = elim (new_nsec3_chain g.records) [
  | ok chain ↦ (chain ∷ (chains_of last groups).0, (chains_of last groups).1)
  | err e ↦ chains_of (some e) groups
]

abbrev pub or_unusable : Option Nsec3Error → Nsec3Error
or_unusable none = no_usable_records
or_unusable (some e) = e

unfoldable pub nsec3_chains : List Nsec3 → Result Nsec3Error (List Nsec3Chain)
unfolding nsec3_unknown_flags group_nsec3_by_params chains_of
nsec3_chains records =
    let found =
      chains_of none (group_nsec3_by_params (keep_if (λ r. not (nsec3_unknown_flags r)) records)) in
    elim (found.0) [ [] ↦ err (or_unusable found.1) | chain ∷ chains ↦ ok (chain ∷ chains) ]
