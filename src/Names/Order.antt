-- ===== src/Names/Order.antt =====
-- The canonical order of names (signer/internal/signer/sign.go,
-- validator/internal/validator/nsec.go) is a strict total order.
use Prim.Native.Nat.Ordering.{lt, eq, gt}
use sigillum_dnssec.Prelude.{◌≡◌, refl, [], ◌∷◌, arith}
use sigillum_dnssec.Names.{Label, Name, compare_bytes, compare_canonical_names}

pub compare_bytes_refl : (a : Label) → compare_bytes a a ≡ eq
unfolding compare_bytes
compare_bytes_refl [] = refl
compare_bytes_refl (x ∷ xs) = ground (arith, compare_bytes_refl xs)

pub eq_of_compare_bytes : (a b : Label) → compare_bytes a b ≡ eq → a ≡ b
unfolding compare_bytes
eq_of_compare_bytes [] [] h = refl
eq_of_compare_bytes [] (y ∷ ys) h = ground arith
eq_of_compare_bytes (x ∷ xs) [] h = ground arith
eq_of_compare_bytes (x ∷ xs) (y ∷ ys) h = ground (arith, eq_of_compare_bytes xs ys)

pub compare_bytes-gt : (a b : Label) → compare_bytes a b ≡ gt → compare_bytes b a ≡ lt
unfolding compare_bytes
compare_bytes-gt [] [] h = ground arith
compare_bytes-gt [] (y ∷ ys) h = ground arith
compare_bytes-gt (x ∷ xs) [] h = refl
compare_bytes-gt (x ∷ xs) (y ∷ ys) h = ground (arith, compare_bytes-gt xs ys)

pub compare_bytes-lt : (a b : Label) → compare_bytes a b ≡ lt → compare_bytes b a ≡ gt
unfolding compare_bytes
compare_bytes-lt [] [] h = ground arith
compare_bytes-lt [] (y ∷ ys) h = refl
compare_bytes-lt (x ∷ xs) [] h = ground arith
compare_bytes-lt (x ∷ xs) (y ∷ ys) h = ground (arith, compare_bytes-lt xs ys)

pub compare_bytes_trans :
    (a b c : Label) → compare_bytes a b ≡ lt → compare_bytes b c ≡ lt → compare_bytes a c ≡ lt
unfolding compare_bytes
compare_bytes_trans [] [] c h k = ground arith
compare_bytes_trans [] (y ∷ ys) [] h k = ground arith
compare_bytes_trans [] (y ∷ ys) (z ∷ zs) h k = refl
compare_bytes_trans (x ∷ xs) [] c h k = ground arith
compare_bytes_trans (x ∷ xs) (y ∷ ys) [] h k = ground arith
compare_bytes_trans (x ∷ xs) (y ∷ ys) (z ∷ zs) h k = ground (arith, compare_bytes_trans xs ys zs)

pub compare_refl : (a : Name) → compare_canonical_names a a ≡ eq
unfolding compare_canonical_names
compare_refl [] = refl
compare_refl (x ∷ xs) = ground (arith, compare_bytes_refl x, compare_refl xs)

pub eq_of_compare : (a b : Name) → compare_canonical_names a b ≡ eq → a ≡ b
unfolding compare_canonical_names
eq_of_compare [] [] h = refl
eq_of_compare [] (y ∷ ys) h = ground arith
eq_of_compare (x ∷ xs) [] h = ground arith
eq_of_compare (x ∷ xs) (y ∷ ys) h = ground (arith, eq_of_compare_bytes x y, eq_of_compare xs ys)

pub compare_gt : (a b : Name) → compare_canonical_names a b ≡ gt → compare_canonical_names b a ≡ lt
unfolding compare_canonical_names
compare_gt [] [] h = ground arith
compare_gt [] (y ∷ ys) h = ground arith
compare_gt (x ∷ xs) [] h = refl
compare_gt (x ∷ xs) (y ∷ ys) h =
    ground
      (arith, eq_of_compare_bytes x y, compare_bytes_refl x, compare_bytes-gt x y, compare_gt xs ys)

pub compare_lt : (a b : Name) → compare_canonical_names a b ≡ lt → compare_canonical_names b a ≡ gt
unfolding compare_canonical_names
compare_lt [] [] h = ground arith
compare_lt [] (y ∷ ys) h = refl
compare_lt (x ∷ xs) [] h = ground arith
compare_lt (x ∷ xs) (y ∷ ys) h =
    ground
      (arith, eq_of_compare_bytes x y, compare_bytes_refl x, compare_bytes-lt x y, compare_lt xs ys)

pub compare_trans :
    (a b c : Name)
    → compare_canonical_names a b ≡ lt
    → compare_canonical_names b c ≡ lt
    → compare_canonical_names a c ≡ lt
unfolding compare_canonical_names
compare_trans [] [] c h k = ground arith
compare_trans [] (y ∷ ys) [] h k = ground arith
compare_trans [] (y ∷ ys) (z ∷ zs) h k = refl
compare_trans (x ∷ xs) [] c h k = ground arith
compare_trans (x ∷ xs) (y ∷ ys) [] h k = ground arith
compare_trans (x ∷ xs) (y ∷ ys) (z ∷ zs) h k = ground (
  arith,
  eq_of_compare_bytes x y,
  eq_of_compare_bytes y z,
  compare_bytes_refl x,
  compare_bytes_trans x y z,
  compare_trans xs ys zs,
)
