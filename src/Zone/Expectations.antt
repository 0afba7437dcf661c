-- ===== src/Zone/Expectations.antt =====
-- The check of an NSEC chain against the input (signer/internal/signer/sign.go).
pub mod Accepts
use sigillum_dnssec.Prelude.{
  ℕ, Bool, true, false, ◌&&◌, ◌||◌, not, Option, none, some, List, [], ◌∷◌, ◌==◌, length,
  if◌then◌else◌,
}
use sigillum_dnssec.Names.{Name}
use sigillum_dnssec.Sets.{name_order, number_order, same, sort_slice}
use sigillum_dnssec.Zone.{
  ZoneModel, is_missing, is_occluded, find_owner, authoritative_owners, denial_types,
}
use sigillum_dnssec.Zone.Chain.{Nsec, next_name}

pub data ChainError : Type 0 where
  chain_missing : ChainError
  duplicate_owner : Name → ChainError
  record_missing : Name → ChainError
  not_authoritative : Name → ChainError
  wrong_next : Name → ChainError
  wrong_types : Name → ChainError

-- byOwner[owner]
unfoldable pub by_owner : Name → List Nsec → Option Nsec
by_owner name [] = none
by_owner name (n ∷ nsecs) =
    let rest = by_owner name nsecs in if same name n.owner then some n else rest

-- The loop that fills `byOwner`, with the owners it has seen.
unfoldable pub find_duplicate : List Nsec → List Nsec → Option ChainError
unfolding by_owner
find_duplicate seen [] = none
find_duplicate seen (n ∷ nsecs) =
    let rest = find_duplicate (n ∷ seen) nsecs in
    if is_missing (by_owner n.owner seen) then rest else some (duplicate_owner n.owner)

unfoldable pub find_missing : List Nsec → List Name → Option ChainError
unfolding by_owner
find_missing nsecs [] = none
find_missing nsecs (owner ∷ owners) =
    let rest = find_missing nsecs owners in
    if is_missing (by_owner owner nsecs) then some (record_missing owner) else rest

unfoldable pub find_stray : ZoneModel → List Nsec → Option ChainError
unfolding find_owner is_occluded
find_stray m [] = none
find_stray m (n ∷ nsecs) =
    let rest = find_stray m nsecs in
    if is_missing (find_owner n.owner m.owners) || is_occluded m n.owner
    then some (not_authoritative n.owner)
    else rest

unfoldable pub equal_types : List ℕ → List ℕ → Bool
equal_types [] want = true
equal_types (g ∷ got) [] = true
equal_types (g ∷ got) (w ∷ want) = g == w && equal_types got want

unfoldable pub compare_type_bitmap : List ℕ → List ℕ → Bool
unfolding equal_types
compare_type_bitmap got want =
    let g = sort_slice got in if not (length g == length want) then false else equal_types g want

-- The loop over the expected owners, of which `first` is the first.
unfoldable pub find_mismatch : ZoneModel → List Nsec → Name → List Name → Option ChainError
unfolding by_owner compare_type_bitmap denial_types
find_mismatch m nsecs first [] = none
find_mismatch m nsecs first (owner ∷ owners) =
    let rest = find_mismatch m nsecs first owners in
    elim (by_owner owner nsecs) [
      | none ↦ some (record_missing owner)
      | some n ↦
          if not (same n.next_domain (next_name first owners))
          then some (wrong_next owner)
          else if not (compare_type_bitmap n.types (denial_types m owner false))
          then some (wrong_types owner)
          else rest
    ]

abbrev pub or_else : Option ChainError → Option ChainError → Option ChainError
or_else none next = next
or_else (some e) next = some e

unfoldable pub check_chain : ZoneModel → List Nsec → List Name → Option ChainError
unfolding find_duplicate find_missing find_stray find_mismatch
check_chain m nsecs [] = or_else (find_duplicate [] nsecs) (find_stray m nsecs)
check_chain m nsecs (first ∷ expected) = or_else (find_duplicate [] nsecs) (
    or_else (find_missing nsecs (first ∷ expected))
      (or_else (find_stray m nsecs) (find_mismatch m nsecs first (first ∷ expected))))

unfoldable pub verify_nsec_expectations : ZoneModel → List Nsec → Option ChainError
unfolding check_chain authoritative_owners
verify_nsec_expectations m [] = some chain_missing
verify_nsec_expectations m (n ∷ nsecs) = check_chain m (n ∷ nsecs) (authoritative_owners m)
