-- ===== src/Sets/Slices.antt =====
-- Sorting a slice without repetitions gives the sorted keys of the map.
use sigillum_dnssec.Prelude.{◌≡◌, refl, ◌∙◌, ap, false, true, List, [], ◌∷◌, ◌++◌, arith}
use sigillum_dnssec.Sets.{Order, has, insert, sort_set, insert_next, sort_slice}
use sigillum_dnssec.Sets.Laws.{IsAscending, has-sort_set, has-append, after_fresh}

module _ {ℓ} {A : Type ℓ} ⦃o : Order A⦄ where
  unfoldable pub IsDistinct : List A → Type 0
  IsDistinct [] = Unit
  IsDistinct (x ∷ xs) = (has x xs ≡ false) × IsDistinct xs

  insert_fresh : (a : A) (xs : List A) → has a xs ≡ false → insert_next a xs ≡ insert a xs
  unfolding has insert insert_next
  insert_fresh a [] h = refl
  insert_fresh a (x ∷ xs) h = ground (arith, insert_fresh a xs)

  pub sort_slice-distinct : (xs : List A) → IsDistinct xs → sort_slice xs ≡ sort_set xs
  unfolding sort_slice sort_set IsDistinct
  sort_slice-distinct [] h = refl
  sort_slice-distinct (x ∷ xs) h =
      ap (insert_next x) (sort_slice-distinct xs h.1)
      ∙ insert_fresh x (sort_set xs) (has-sort_set x xs ∙ h.0)

  pub ascending-IsDistinct : (xs : List A) → IsAscending xs → IsDistinct xs
  unfolding IsAscending IsDistinct
  ascending-IsDistinct [] h = tt
  ascending-IsDistinct (x ∷ xs) h = (after_fresh x xs h.0, ascending-IsDistinct xs h.1)

  pub IsDistinct-append :
      (xs ys : List A)
      → IsDistinct xs
      → IsDistinct ys
      → ((a : A) → has a ys ≡ true → has a xs ≡ false)
      → IsDistinct (xs ++ ys)
  unfolding IsDistinct has
  IsDistinct-append [] ys h k apart = k
  IsDistinct-append (x ∷ xs) ys h k apart = (
    ground (arith, apart x, o.cmp_refl x, h.0, has-append x xs ys),
    IsDistinct-append xs ys h.1 k (λ a in_ys. ground (arith, apart a in_ys)),
  )
