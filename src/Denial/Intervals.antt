-- ===== src/Denial/Intervals.antt =====
-- Intervals of the canonical order (validator/internal/validator/nsec.go `canonicallyBetween`): the
-- names at or below a name are consecutive.
use Prim.Native.Nat.Ordering.{lt}
use mathlib.Core.Path.{subst}
use sigillum_dnssec.Prelude.{◌≡◌, ◌⊎◌, refl, true, false, [], ◌∷◌, arith}
use sigillum_dnssec.Names.{Label, Name, compare_canonical_names}
use sigillum_dnssec.Names.Order.{eq_of_compare_bytes, compare_bytes-lt, compare_bytes_refl}
use sigillum_dnssec.Sets.{name_order}
use sigillum_dnssec.Zone.{same_label, labels_within}
use sigillum_dnssec.Names.Text.{is_plain_label, is_plain, IsSplit, plain-decoded}
use sigillum_dnssec.Denial.{canonically_between, text_between, wildcard_name}

pub same_label_refl : (a : Label) → same_label a a ≡ true
unfolding same_label
same_label_refl [] = refl
same_label_refl (x ∷ xs) = ground (arith, same_label_refl xs)

pub eq_of_same_label : (a b : Label) → same_label a b ≡ true → a ≡ b
unfolding same_label
eq_of_same_label [] [] h = refl
eq_of_same_label [] (y ∷ ys) h = absurd (cc h)
eq_of_same_label (x ∷ xs) [] h = absurd (cc h)
eq_of_same_label (x ∷ xs) (y ∷ ys) h = ground (arith, eq_of_same_label xs ys)

same_label_of_eq : (a b : Label) → a ≡ b → same_label a b ≡ true
same_label_of_eq a b e = subst (λ c. same_label a c ≡ true) e (same_label_refl a)

pub within_refl : (name : Name) → labels_within name name ≡ true
unfolding labels_within
within_refl [] = refl
within_refl (l ∷ name) = ground (arith, same_label_refl l, within_refl name)

-- A name that lies between two names at or below a third is at or below it too.
pub between_within :
    (apex a b c : Name)
    → labels_within a apex ≡ true
    → labels_within c apex ≡ true
    → compare_canonical_names a b ≡ lt
    → compare_canonical_names b c ≡ lt
    → labels_within b apex ≡ true
unfolding labels_within compare_canonical_names
between_within [] a b c in_a in_c h k = refl
between_within (p ∷ apex) [] b c in_a in_c h k = absurd (cc in_a)
between_within (p ∷ apex) (x ∷ a) b [] in_a in_c h k = absurd (cc in_c)
between_within (p ∷ apex) (x ∷ a) [] (z ∷ c) in_a in_c h k = absurd (cc h)
between_within (p ∷ apex) (x ∷ a) (y ∷ b) (z ∷ c) in_a in_c h k = ground (
  arith,
  eq_of_same_label x p,
  eq_of_same_label z p,
  eq_of_compare_bytes x y,
  compare_bytes-lt p y,
  compare_bytes_refl p,
  same_label_refl p,
  between_within apex a b c,
)

-- An endpoint of the interval lies between the covered name and a name that is not covered.
unfoldable pub Separates : Name → Name → Name → Type 0
Separates name other endpoint =
    ((compare_canonical_names name endpoint ≡ lt)
      × ((compare_canonical_names endpoint other ≡ lt) ⊎ (endpoint ≡ other)))
    ⊎ ((compare_canonical_names endpoint name ≡ lt)
        × ((compare_canonical_names other endpoint ≡ lt) ⊎ (endpoint ≡ other)))

pub covered-Separates :
    (name other start end : Name)
    → canonically_between name start end ≡ true
    → canonically_between other start end ≡ false
    → Separates name other start ⊎ Separates name other end
unfolding canonically_between Separates name_order
covered-Separates name other start end h k = ground (
  arith,
  name_order.cmp_refl start,
  name_order.cmp_refl end,
  name_order.eq_of_cmp name start,
  name_order.eq_of_cmp name end,
  name_order.eq_of_cmp other start,
  name_order.eq_of_cmp other end,
  name_order.eq_of_cmp start end,
  name_order.cmp_lt name start,
  name_order.cmp_gt name start,
  name_order.cmp_lt name end,
  name_order.cmp_gt name end,
  name_order.cmp_lt other start,
  name_order.cmp_gt other start,
  name_order.cmp_lt other end,
  name_order.cmp_gt other end,
)

-- An ancestor of a plain name is plain.
pub plain_within :
    (name anc : Name) → labels_within name anc ≡ true → is_plain name ≡ true → is_plain anc ≡ true
unfolding labels_within is_plain
plain_within name [] h plain = refl
plain_within [] (l ∷ anc) h plain = absurd (cc h)
plain_within (x ∷ name) (l ∷ anc) h plain =
    ground (arith, h, plain, eq_of_same_label x l, plain_within name anc)

pub plain_wildcard : (ce : Name) → is_plain ce ≡ true → is_plain (wildcard_name ce) ≡ true
unfolding is_plain is_plain_label
plain_wildcard [] h = refl
plain_wildcard (l ∷ ce) h = ground (arith, h, plain_wildcard ce)

pub text_between-plain :
    (split : Name → Name) (name start end : Name)
    → IsSplit split
    → is_plain name ≡ true
    → is_plain start ≡ true
    → is_plain end ≡ true
    → text_between split name start end ≡ canonically_between name start end
unfolding text_between
text_between-plain split name start end splits p q r =
    rw
      (
        plain-decoded split name splits p,
        plain-decoded split start splits q,
        plain-decoded split end splits r,
      )
      refl
