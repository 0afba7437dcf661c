-- ===== src/Sets/Laws.antt =====
-- The sorted keys of a map are determined by its keys.
use Prim.Native.Nat.{Ordering}
use mathlib.Core.Path.{subst}
use Prim.Native.Nat.Ordering.{lt, eq, gt}
use sigillum_dnssec.Prelude.{◌≡◌, refl, sym, ◌∙◌, true, false, ◌||◌, List, [], ◌∷◌, ◌++◌, arith}
use sigillum_dnssec.Sets.{Order, same, has, insert, sort_set}

module _ {ℓ} {A : Type ℓ} ⦃o : Order A⦄ where
  pub has-insert : (a b : A) (xs : List A) → has a (insert b xs) ≡ (same a b || has a xs)
  unfolding has insert
  has-insert a b [] = ground arith
  has-insert a b (x ∷ xs) = ground (arith, o.eq_of_cmp b x, has-insert a b xs)

  pub has-sort_set : (a : A) (xs : List A) → has a (sort_set xs) ≡ has a xs
  unfolding has sort_set
  has-sort_set a [] = refl
  has-sort_set a (x ∷ xs) = ground (arith, has-insert a x (sort_set xs), has-sort_set a xs)

  pub has-append : (a : A) (xs ys : List A) → has a (xs ++ ys) ≡ (has a xs || has a ys)
  unfolding has
  has-append a [] ys = refl
  has-append a (x ∷ xs) ys = ground (arith, has-append a xs ys)

  -- Every member of the list comes after the bound.
  unfoldable pub IsAfter : A → List A → Type 0
  IsAfter a [] = Unit
  IsAfter a (x ∷ xs) = (o.cmp a x ≡ lt) × IsAfter a xs

  unfoldable pub IsAscending : List A → Type 0
  unfolding IsAfter
  IsAscending [] = Unit
  IsAscending (x ∷ xs) = IsAfter x xs × IsAscending xs

  pub IsAfter-trans : (a b : A) (xs : List A) → o.cmp a b ≡ lt → IsAfter b xs → IsAfter a xs
  unfolding IsAfter
  IsAfter-trans a b [] h k = tt
  IsAfter-trans a b (x ∷ xs) h k = (o.cmp_trans a b x h k.0, IsAfter-trans a b xs h k.1)

  IsAfter-either :
      (t : Ordering) (a : A) (xs ys zs : List A)
      → IsAfter a xs
      → IsAfter a ys
      → IsAfter a zs
      → IsAfter a (elim t [ lt ↦ xs | eq ↦ ys | gt ↦ zs ])
  IsAfter-either lt a xs ys zs h k l = h
  IsAfter-either eq a xs ys zs h k l = k
  IsAfter-either gt a xs ys zs h k l = l

  IsAfter-insert : (a b : A) (xs : List A) → o.cmp a b ≡ lt → IsAfter a xs → IsAfter a (insert b xs)
  unfolding IsAfter insert
  IsAfter-insert a b [] h k = (h, tt)
  IsAfter-insert a b (x ∷ xs) h k =
      IsAfter-either (o.cmp b x) a _ _ _ (h, k) k (k.0, IsAfter-insert a b xs h k.1)

  IsAscending-either :
      (t : Ordering) (a x : A) (xs rest : List A)
      → o.cmp a x ≡ t
      → IsAfter x xs
      → IsAscending xs
      → (IsAfter x xs → o.cmp x a ≡ lt → IsAfter x rest)
      → IsAscending rest
      → IsAscending (elim t [ lt ↦ a ∷ x ∷ xs | eq ↦ x ∷ xs | gt ↦ x ∷ rest ])
  unfolding IsAscending IsAfter
  IsAscending-either lt a x xs rest h after up later up_rest =
      ((h, IsAfter-trans a x xs h after), (after, up))
  IsAscending-either eq a x xs rest h after up later up_rest = (after, up)
  IsAscending-either gt a x xs rest h after up later up_rest =
      (later after (o.cmp_gt a x h), up_rest)

  IsAscending-insert : (a : A) (xs : List A) → IsAscending xs → IsAscending (insert a xs)
  unfolding insert IsAscending IsAfter
  IsAscending-insert a [] h = (tt, tt)
  IsAscending-insert a (x ∷ xs) h =
      IsAscending-either (o.cmp a x) a x xs (insert a xs) refl h.0 h.1
        (λ after less. IsAfter-insert x a xs less after) (IsAscending-insert a xs h.1)

  pub sort_set-IsAscending : (xs : List A) → IsAscending (sort_set xs)
  unfolding IsAscending sort_set
  sort_set-IsAscending [] = tt
  sort_set-IsAscending (x ∷ xs) = IsAscending-insert x (sort_set xs) (sort_set-IsAscending xs)

  -- A member comes after the bound of its list, so the bound is no member.
  pub after_has : (a b : A) (xs : List A) → IsAfter a xs → has b xs ≡ true → o.cmp a b ≡ lt
  unfolding IsAfter has
  after_has a b [] h k = ground arith
  after_has a b (x ∷ xs) h k = ground (arith, h.0, o.eq_of_cmp b x, after_has a b xs h.1)

  pub after_fresh : (a : A) (xs : List A) → IsAfter a xs → has a xs ≡ false
  after_fresh a xs h = ground (arith, after_has a a xs h, o.cmp_refl a)

  pub has_head : (a : A) (xs : List A) → has a (a ∷ xs) ≡ true
  unfolding has
  has_head a xs = ground (arith, o.cmp_refl a)

  pub has_later : (a b : A) (xs : List A) → has a xs ≡ true → has a (b ∷ xs) ≡ true
  unfolding has
  has_later a b xs h = ground (arith, h)

  has_nil : (a : A) → has a [] ≡ false
  unfolding has
  has_nil a = refl

  -- The heads of two ascending lists with the same members are equal.
  same_head :
      (a b : A) (xs ys : List A)
      → IsAfter a xs
      → IsAfter b ys
      → has a (b ∷ ys) ≡ true
      → has b (a ∷ xs) ≡ true
      → a ≡ b
  unfolding has
  same_head a b xs ys h k in_a in_b = ground (
    arith,
    o.eq_of_cmp a b,
    o.eq_of_cmp b a,
    after_has a b xs h,
    after_has b a ys k,
    o.cmp_lt a b,
    o.cmp_gt a b,
  )

  tail_has :
      (a b : A) (xs ys : List A)
      → IsAfter a xs
      → IsAfter a ys
      → has b (a ∷ xs) ≡ has b (a ∷ ys)
      → has b xs ≡ has b ys
  unfolding has
  tail_has a b xs ys h k both =
      ground (arith, after_fresh a xs h, after_fresh a ys k, o.eq_of_cmp b a)

  -- An ascending list is determined by its members.
  pub eq_of_has :
      (xs ys : List A) → IsAscending xs → IsAscending ys → ((a : A) → has a xs ≡ has a ys) → xs ≡ ys
  unfolding IsAscending
  eq_of_has [] [] h k both = refl
  eq_of_has [] (y ∷ ys) h k both = absurd (cc (both y, has_head y ys, has_nil y))
  eq_of_has (x ∷ xs) [] h k both = absurd (cc (both x, has_head x xs, has_nil x))
  eq_of_has (x ∷ xs) (y ∷ ys) h k both =
      let head =
        same_head x y xs ys h.0 k.0 (sym (both x) ∙ has_head x xs) (both y ∙ has_head y ys) in
      let after = subst (λ z. IsAfter z ys) (sym head) k.0 in
      let rest = eq_of_has xs ys h.1 k.1 (λ b.
        tail_has x b xs ys h.0 after
          (subst (λ z. has b (x ∷ xs) ≡ has b (z ∷ ys)) (sym head) (both b))) in
      cc (head, rest)

  pub sort_set_unique :
      (xs ys : List A) → ((a : A) → has a xs ≡ has a ys) → sort_set xs ≡ sort_set ys
  sort_set_unique xs ys both =
      eq_of_has (sort_set xs) (sort_set ys) (sort_set-IsAscending xs) (sort_set-IsAscending ys)
        (λ a. has-sort_set a xs ∙ (both a ∙ sym (has-sort_set a ys)))
