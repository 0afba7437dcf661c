-- ===== src/Names.antt =====
-- Domain names: the canonical order of RFC 4034 (`canonicalLess` of signer/internal/signer/sign.go,
-- `compareCanonicalNames` of validator/internal/validator/nsec.go). A name is the list of its
-- labels from the root down, which the DNS library splits from the text (Names/Text has the texts of
-- the validator, which are cut at every dot); a label is the list of its
-- octets, decoded and in lower case.
pub mod Order
pub mod Labels
pub mod Text
use Prim.Native.Nat.{compare, Ordering}
use Prim.Native.Nat.Ordering.{lt, eq, gt}
use sigillum_dnssec.Prelude.{ℕ, Bool, true, false, List, [], ◌∷◌}

abbrev pub Label : Type 0
Label = List ℕ

abbrev pub Name : Type 0
Name = List Label

-- `bytes.Compare`
unfoldable pub compare_bytes : Label → Label → Ordering
compare_bytes [] [] = eq
compare_bytes [] (y ∷ ys) = lt
compare_bytes (x ∷ xs) [] = gt
compare_bytes (x ∷ xs) (y ∷ ys) =
    let rest = compare_bytes xs ys in elim (compare x y) [ lt ↦ lt | eq ↦ rest | gt ↦ gt ]

-- The loop from the root down; the name with fewer labels comes first.
unfoldable pub compare_canonical_names : Name → Name → Ordering
unfolding compare_bytes
compare_canonical_names [] [] = eq
compare_canonical_names [] (b ∷ ys) = lt
compare_canonical_names (a ∷ xs) [] = gt
compare_canonical_names (a ∷ xs) (b ∷ ys) =
    let rest = compare_canonical_names xs ys in
    elim (compare_bytes a b) [ lt ↦ lt | eq ↦ rest | gt ↦ gt ]

unfoldable pub canonical_less : Name → Name → Bool
unfolding compare_canonical_names
canonical_less a b = elim (compare_canonical_names a b) [ lt ↦ true | eq ↦ false | gt ↦ false ]
