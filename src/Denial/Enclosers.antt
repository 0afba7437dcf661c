-- ===== src/Denial/Enclosers.antt =====
-- The closest encloser that a covering record proves (validator/internal/validator/nsec.go
-- `commonSuffixLabels`, `closestEncloserFromNSEC`, `nextCloserName`).
use mathlib.Core.Path.{subst}
use sigillum_dnssec.Prelude.{
  ℕ, zero, suc, ◌+◌, ◌≤◌, ◌<◌, ◌≡◌, ◌⊎◌, inl, inr, refl, sym, true, false, [], ◌∷◌, arith, length,
}
use sigillum_dnssec.Names.{Name}
use sigillum_dnssec.Sets.{name_order, same}
use sigillum_dnssec.Zone.{labels_within, take_labels}
use sigillum_dnssec.Denial.{
  common_suffix_labels, closest_encloser_from_nsec, next_closer_name, canonically_between,
}
use sigillum_dnssec.Denial.Intervals.{
  eq_of_same_label, same_label_refl, between_within, Separates, covered-Separates,
}

common_left : (a b : Name) → labels_within a (common_suffix_labels a b) ≡ true
unfolding labels_within common_suffix_labels
common_left [] b = refl
common_left (x ∷ a) [] = refl
common_left (x ∷ a) (y ∷ b) = ground (arith, same_label_refl x, common_left a b)

common_right : (a b : Name) → labels_within b (common_suffix_labels a b) ≡ true
unfolding labels_within common_suffix_labels
common_right [] b = refl
common_right (x ∷ a) [] = refl
common_right (x ∷ a) (y ∷ b) =
    ground (arith, same_label_refl x, eq_of_same_label x y, common_right a b)

-- A common ancestor is not deeper than the deepest one.
common_longest :
    (anc a b : Name)
    → labels_within a anc ≡ true
    → labels_within b anc ≡ true
    → length anc ≤ length (common_suffix_labels a b)
unfolding labels_within common_suffix_labels
common_longest [] a b h k = omega arith
common_longest (l ∷ anc) [] b h k = absurd (cc h)
common_longest (l ∷ anc) (x ∷ a) [] h k = absurd (cc k)
common_longest (l ∷ anc) (x ∷ a) (y ∷ b) h k =
    ground
      (arith, eq_of_same_label x l, eq_of_same_label y l, same_label_refl l, common_longest anc a b)

pub within_length : (name anc : Name) → labels_within name anc ≡ true → length anc ≤ length name
unfolding labels_within
within_length name [] h = omega arith
within_length [] (l ∷ anc) h = absurd (cc h)
within_length (x ∷ name) (l ∷ anc) h = ground (arith, within_length name anc)

pub take_within : (n : ℕ) (name : Name) → labels_within name (take_labels n name) ≡ true
unfolding labels_within take_labels
take_within zero name = refl
take_within (suc n) [] = refl
take_within (suc n) (l ∷ name) = ground (arith, same_label_refl l, take_within n name)

pub take_short : (n : ℕ) (name : Name) → n ≤ length name → length (take_labels n name) ≡ n
unfolding take_labels
take_short zero name h = refl
take_short (suc n) [] h = omega (arith, h)
take_short (suc n) (l ∷ name) h = omega (arith, take_short n name (omega (arith, h)))

-- An ancestor with all the labels is the name itself.
full_within :
    (name anc : Name) → labels_within name anc ≡ true → length name ≤ length anc → anc ≡ name
unfolding labels_within
full_within [] [] h k = refl
full_within [] (l ∷ anc) h k = absurd (cc h)
full_within (x ∷ name) [] h k = absurd (omega (arith, k))
full_within (x ∷ name) (l ∷ anc) h k =
    let rest = full_within name anc (ground (arith, h)) (omega (arith, k)) in
    ground (arith, eq_of_same_label x l, rest)

same_refl : (name : Name) → same name name ≡ true
same_refl name = ground (arith, name_order.cmp_refl name)

module _ (qname owner next : Name) where
  abbrev encloser : Name
  encloser = closest_encloser_from_nsec qname owner next

  pub encloser_within : labels_within qname encloser ≡ true
  unfolding closest_encloser_from_nsec
  encloser_within = ground (arith, common_left qname owner, common_left qname next)

  -- The encloser is an ancestor of one of the two names of the record.
  pub encloser_exists : (labels_within owner encloser ≡ true) ⊎ (labels_within next encloser ≡ true)
  unfolding closest_encloser_from_nsec
  encloser_exists = ground (arith, common_right qname owner, common_right qname next)

  encloser_deepest :
      (anc : Name)
      → labels_within qname anc ≡ true
      → length encloser < length anc
      → (labels_within owner anc ≡ false) × (labels_within next anc ≡ false)
  unfolding closest_encloser_from_nsec
  encloser_deepest anc h k =
      ground (arith, h, k, common_longest anc qname owner, common_longest anc qname next)

  encloser_short : same encloser qname ≡ false → length encloser < length qname
  encloser_short h =
      let cases : (length encloser < length qname) ⊎ (length qname ≤ length encloser) =
        omega arith in
      elim cases [
        | inl short ↦ short
        | inr full ↦
            let e = full_within qname encloser encloser_within full in
            absurd (cc (h, subst (λ a. same a qname ≡ true) (sym e) (same_refl qname)))
      ]

  -- The next closer name has one label more than the encloser.
  pub closer_deeper :
      same encloser qname ≡ false
      → (labels_within qname (next_closer_name qname encloser) ≡ true)
        × (length encloser < length (next_closer_name qname encloser))
  unfolding next_closer_name
  closer_deeper h =
      let short = encloser_short h in
      ground (
        arith,
        h,
        take_within (length encloser + 1) qname,
        take_short (length encloser + 1) qname (omega (arith, short)),
      )

  -- A name that the record does not cover is not at or below the next closer name of a name that it
  -- covers.
  pub closer_fresh :
      (other : Name)
      → canonically_between qname owner next ≡ true
      → canonically_between other owner next ≡ false
      → same encloser qname ≡ false
      → labels_within other (next_closer_name qname encloser) ≡ false
  unfolding Separates
  closer_fresh other covered fresh proper =
      let closer = next_closer_name qname encloser in
      let deeper = closer_deeper proper in
      let apart = encloser_deepest closer deeper.0 deeper.1 in
      let sides = covered-Separates qname other owner next covered fresh in
      ground (
        arith,
        sides,
        apart,
        between_within closer qname owner other deeper.0,
        between_within closer qname next other deeper.0,
        between_within closer other owner qname,
        between_within closer other next qname,
        deeper,
      )
