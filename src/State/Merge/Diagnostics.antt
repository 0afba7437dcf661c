-- ===== src/State/Merge/Diagnostics.antt =====
-- `mergeDiagnostics` of signer/internal/state/state.go, the three-way merge of a list of warnings
-- or errors, and what it keeps.
use Prim.Native.String.{slice}
use text.Mathlib.Text.{find?}
use sigillum_dnssec.Prelude.{
  String, ◌≡◌, Bool, true, false, not, ◌&&◌, ◌||◌, Option, none, some, List, [], ◌∷◌, ◌++◌, inl,
  inr, arith, str_eq, eq_iff, ◌==◌, keep_if, contains, contains-append, contains-keep_if, ap,
  Bool-cases, if◌then◌else◌,
}

-- The text before the first ": ", unless there is none or it is empty.
unfoldable pub operation_of : String → Option String
operation_of e = elim (find? e ": ") [
  | none ↦ none
  | some i ↦ if i == 0 then none else some (slice e 0 i)
]

same_operation : String → String → Bool
same_operation op x = elim (operation_of x) [ none ↦ false | some xo ↦ str_eq xo op ]

-- An entry of the same operation gives way to the disk's.
displace : Bool → String → List String → List String
unfolding operation_of same_operation
displace false d out = out
displace true d out = elim (operation_of d) [
  | none ↦ out
  | some op ↦ keep_if (λ x. not (same_operation op x)) out
]

-- The loop over the disk's entries; `out` is what the merge has so far.
add_from_disk : Bool → List String → List String → List String → List String
unfolding displace
add_from_disk op_scoped base [] out = out
add_from_disk op_scoped base (d ∷ disk) out = add_from_disk op_scoped base disk (
    if not (contains base d) && not (contains out d)
    then displace op_scoped d out ++ d ∷ []
    else out)

abbrev survives : List String → List String → String → Bool
survives base disk m = contains disk m || not (contains base m)

unfoldable pub merge_diagnostics : List String → List String → List String → Bool → List String
unfolding add_from_disk
merge_diagnostics base disk mem op_scoped =
    add_from_disk op_scoped base disk (keep_if (survives base disk) mem)

-- The unscoped loop adds exactly the disk's entries that the base lacks.
contains-add_from_disk :
    (base disk out : List String) (s : String)
    → contains (add_from_disk false base disk out) s
      ≡ (contains out s || (contains disk s && not (contains base s)))
unfolding add_from_disk contains
contains-add_from_disk base [] out s = ground arith
contains-add_from_disk base (d ∷ disk) out s = elim (Bool-cases (str_eq d s)) [
  | inl e ↦
      let same : d ≡ s = (eq_iff d s).0 e in
      ground (
        arith,
        ap (contains base) same,
        ap (contains out) same,
        contains-add_from_disk base disk (out ++ d ∷ []) s,
        contains-add_from_disk base disk out s,
        contains-append out (d ∷ []) s,
      )
  | inr e ↦ ground (
    arith,
    contains-add_from_disk base disk (out ++ d ∷ []) s,
    contains-add_from_disk base disk out s,
    contains-append out (d ∷ []) s,
  )
]

-- Merging warnings is a three-way set merge: an entry is there afterwards exactly when both sides
-- hold it, or one side holds it and the base did not.
pub contains-merge_diagnostics :
    (base disk mem : List String) (s : String)
    → contains (merge_diagnostics base disk mem false) s ≡ (
        (contains disk s && contains mem s)
        || (not (contains base s) && (contains disk s || contains mem s)))
unfolding merge_diagnostics
contains-merge_diagnostics base disk mem s = ground (
  arith,
  contains-add_from_disk base disk (keep_if (survives base disk) mem) s,
  contains-keep_if (survives base disk) mem s,
)
