-- ===== src/Sets.antt =====
-- A Go map that is read through `sort.Slice` (signer/internal/signer/sign.go and zonemodel.go): the
-- ascending list of its keys. The order is an interface, which names and type numbers implement.
pub mod Laws
pub mod Slices
use Prim.Native.Nat.{compare, Ordering}
use Prim.Native.Nat.Ordering.{lt, eq, gt}
use sigillum_dnssec.Prelude.{ℕ, ◌≡◌, Bool, true, false, List, [], ◌∷◌, arith}
use sigillum_dnssec.Names.{Label, Name, compare_bytes, compare_canonical_names}
use sigillum_dnssec.Names.Order.{
  compare_bytes_refl, eq_of_compare_bytes, compare_bytes-gt, compare_bytes-lt, compare_bytes_trans,
  compare_refl, eq_of_compare, compare_gt, compare_lt, compare_trans,
}

pub record Order {ℓ} (A : Type ℓ) : Type ℓ where
  pub cmp : A → A → Ordering
  pub cmp_refl : (a : A) → cmp a a ≡ eq
  pub eq_of_cmp : (a b : A) → cmp a b ≡ eq → a ≡ b
  pub cmp_gt : (a b : A) → cmp a b ≡ gt → cmp b a ≡ lt
  pub cmp_lt : (a b : A) → cmp a b ≡ lt → cmp b a ≡ gt
  pub cmp_trans : (a b c : A) → cmp a b ≡ lt → cmp b c ≡ lt → cmp a c ≡ lt

instance unfoldable pub name_order : Order Name
name_order = record {
  cmp = compare_canonical_names;
  cmp_refl = compare_refl;
  eq_of_cmp = eq_of_compare;
  cmp_gt = compare_gt;
  cmp_lt = compare_lt;
  cmp_trans = compare_trans;
}

instance unfoldable pub label_order : Order Label
label_order = record {
  cmp = compare_bytes;
  cmp_refl = compare_bytes_refl;
  eq_of_cmp = eq_of_compare_bytes;
  cmp_gt = compare_bytes-gt;
  cmp_lt = compare_bytes-lt;
  cmp_trans = compare_bytes_trans;
}

pub number_refl : (a : ℕ) → compare a a ≡ eq
number_refl a = ground arith

pub eq_of_number : (a b : ℕ) → compare a b ≡ eq → a ≡ b
eq_of_number a b h = ground arith

pub number_gt : (a b : ℕ) → compare a b ≡ gt → compare b a ≡ lt
number_gt a b h = ground arith

pub number_lt : (a b : ℕ) → compare a b ≡ lt → compare b a ≡ gt
number_lt a b h = ground arith

pub number_trans : (a b c : ℕ) → compare a b ≡ lt → compare b c ≡ lt → compare a c ≡ lt
number_trans a b c h k = ground arith

instance abbrev pub number_order : Order ℕ
number_order = record {
  cmp = compare;
  cmp_refl = number_refl;
  eq_of_cmp = eq_of_number;
  cmp_gt = number_gt;
  cmp_lt = number_lt;
  cmp_trans = number_trans;
}

module _ {ℓ} {A : Type ℓ} ⦃o : Order A⦄ where
  abbrev pub same : A → A → Bool
  same a b = elim (o.cmp a b) [ lt ↦ false | eq ↦ true | gt ↦ false ]

  -- a key of the map
  unfoldable pub has : A → List A → Bool
  has a [] = false
  has a (x ∷ xs) = let rest = has a xs in elim (o.cmp a x) [ lt ↦ rest | eq ↦ true | gt ↦ rest ]

  unfoldable pub insert : A → List A → List A
  insert a [] = a ∷ []
  insert a (x ∷ xs) =
      let rest = insert a xs in elim (o.cmp a x) [ lt ↦ a ∷ x ∷ xs | eq ↦ x ∷ xs | gt ↦ x ∷ rest ]

  -- The sorted keys.
  unfoldable pub sort_set : List A → List A
  sort_set [] = []
  sort_set (x ∷ xs) = insert x (sort_set xs)

  -- `sort.Slice` of a slice, which keeps repetitions.
  unfoldable pub insert_next : A → List A → List A
  insert_next a [] = a ∷ []
  insert_next a (x ∷ xs) =
      let rest = insert_next a xs in
      elim (o.cmp a x) [ lt ↦ a ∷ x ∷ xs | eq ↦ a ∷ x ∷ xs | gt ↦ x ∷ rest ]

  unfoldable pub sort_slice : List A → List A
  sort_slice [] = []
  sort_slice (x ∷ xs) = insert_next x (sort_slice xs)
