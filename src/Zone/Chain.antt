-- ===== src/Zone/Chain.antt =====
-- The NSEC chain that the signer makes (signer/internal/signer/sign.go).
pub mod Types
use sigillum_dnssec.Prelude.{
  ℕ, Bool, true, false, ◌&&◌, not, List, [], ◌∷◌, ◌++◌, map, keep_if, if◌then◌else◌,
}
use sigillum_dnssec.Names.{Name}
use sigillum_dnssec.Sets.{name_order, number_order, same, has, sort_set, sort_slice}
use sigillum_dnssec.Zone.{
  Rr, ZoneModel, new_zone_model, is_occluded, is_delegation, type_ns, type_ds, type_rrsig,
  type_nsec,
}

pub record Nsec : Type 0 where
  pub owner : Name
  pub next_domain : Name
  pub types : List ℕ

-- The keys of `names`: the owners that are not occluded.
unfoldable pub chain_names : ZoneModel → List Rr → List Name
unfolding is_occluded
chain_names m [] = []
chain_names m (rr ∷ records) =
    let rest = chain_names m records in if is_occluded m rr.owner then rest else rr.owner ∷ rest

-- The keys of `typesByName[name]`.
unfoldable pub types_by_name : Name → List Rr → List ℕ
types_by_name name [] = []
types_by_name name (rr ∷ records) =
    let rest = types_by_name name records in if same name rr.owner then rr.rrtype ∷ rest else rest

-- `types`, as it is filled and sorted for a name of the chain.
unfoldable pub chain_types : ZoneModel → List Rr → Name → List ℕ
unfolding is_delegation types_by_name
chain_types m records name =
    let present = types_by_name name records in
    let types =
      if is_delegation m name
      then type_ns ∷ (if has type_ds present then type_ds ∷ [] else [])
      else sort_set present in
    sort_slice (types ++ type_nsec ∷ type_rrsig ∷ [])

-- `sortedNames[(i+1)%len(sortedNames)]`: the next name, and for the last one the first.
abbrev pub next_name : Name → List Name → Name
next_name first [] = first
next_name first (name ∷ names) = name

module _ (types : Name → List ℕ) where
  unfoldable pub chain_from : Name → List Name → List Nsec
  chain_from first [] = []
  chain_from first (name ∷ names) =
      record { owner = name; next_domain = next_name first names; types = types name }
      ∷ chain_from first names

  unfoldable pub chain_of : List Name → List Nsec
  unfolding chain_from
  chain_of [] = []
  chain_of (name ∷ names) = chain_from name (name ∷ names)

unfoldable pub generate_nsec_chain_with_model : ZoneModel → List Rr → List Nsec
unfolding chain_names chain_types chain_of
generate_nsec_chain_with_model m records =
    chain_of (chain_types m records) (sort_set (chain_names m records))

unfoldable pub generate_nsec_chain : Name → List Rr → List Nsec
unfolding generate_nsec_chain_with_model
generate_nsec_chain domain records =
    generate_nsec_chain_with_model (new_zone_model domain records) records
