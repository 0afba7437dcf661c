-- ===== src/Denial/Chain.antt =====
-- The chain that the signer generates (signer/internal/signer/sign.go) as the validator reads it
-- (validator/internal/validator/nsec.go).
use mathlib.Core.List.{Memᴰ}
use mathlib.Core.List.Memᴰ
use mathlib.Core.Path.{subst}
use Prim.Native.Nat.Ordering.{lt}
use sigillum_dnssec.Prelude.{
  ℕ, ◌≡◌, ◌⊎◌, inl, inr, refl, sym, ◌∙◌, ap, Bool, true, false, ◌&&◌, ◌||◌, not, List, [], ◌∷◌,
  arith,
}
use sigillum_dnssec.Names.{Name}
use sigillum_dnssec.Sets.{name_order, number_order, has}
use sigillum_dnssec.Sets.Laws.{IsAfter, IsAscending, after_has, has_head, has_later}
use sigillum_dnssec.Zone.Chain.{Nsec, chain_from, chain_of}
use sigillum_dnssec.Denial.{is_lt, is_gt, canonically_between}
use sigillum_dnssec.Denial.Records.{IsTruthful}

-- A record of the list covers the name.
unfoldable pub any_covers : Name → List Nsec → Bool
any_covers name [] = false
any_covers name (n ∷ nsecs) =
    canonically_between name n.owner n.next_domain || any_covers name nsecs

uncovered :
    (name : Name) (n : Nsec) (nsecs : List Nsec)
    → Memᴰ n nsecs
    → any_covers name nsecs ≡ false
    → canonically_between name n.owner n.next_domain ≡ false
unfolding any_covers
uncovered name n [] m h = absurd (Memᴰ.not-nil m)
uncovered name n (x ∷ nsecs) (Memᴰ.head e) h =
    ap (λ r. canonically_between name r.owner r.next_domain) e ∙ ground (arith, h)
uncovered name n (x ∷ nsecs) (Memᴰ.tail m) h = uncovered name n nsecs m (ground (arith, h))

first_before :
    (first a b : Name)
    → (first ≡ a) ⊎ (name_order.cmp first a ≡ lt)
    → name_order.cmp a b ≡ lt
    → name_order.cmp first b ≡ lt
first_before first a b (inl e) less = subst (λ x. name_order.cmp x b ≡ lt) (sym e) less
first_before first a b (inr h) less = name_order.cmp_trans first a b h less

covers_step :
    (first a b : Name) (rest : List Name) (name : Name)
    → name_order.cmp a b ≡ lt
    → name_order.cmp first b ≡ lt
    → IsAfter b rest
    → (canonically_between name a b
        || (is_lt (name_order.cmp name first)
            || (is_gt (name_order.cmp name b) && not (has name rest))))
      ≡ (is_lt (name_order.cmp name first)
          || (is_gt (name_order.cmp name a) && not (has name (b ∷ rest))))
unfolding canonically_between has name_order
covers_step first a b rest name less first_less after = ground (
  arith,
  less,
  first_less,
  name_order.eq_of_cmp name b,
  name_order.cmp_gt name b,
  name_order.cmp_lt name b,
  name_order.cmp_gt name a,
  name_order.cmp_lt a name,
  name_order.cmp_lt first name,
  name_order.cmp_trans a b name,
  name_order.cmp_trans first b name,
  after_has b name rest after,
)

whole :
    (first : Name) (names : List Name) (name : Name)
    → IsAscending (first ∷ names)
    → (is_lt (name_order.cmp name first)
        || (is_gt (name_order.cmp name first) && not (has name names)))
      ≡ not (has name (first ∷ names))
unfolding has IsAscending
whole first names name up = ground (
  arith,
  name_order.cmp_lt name first,
  name_order.cmp_gt first name,
  name_order.cmp_lt first name,
  after_has first name names up.0,
)

module _ (types : Name → List ℕ) where
  covers_from :
      (first a : Name) (rest : List Name) (name : Name)
      → IsAscending (a ∷ rest)
      → (first ≡ a) ⊎ (name_order.cmp first a ≡ lt)
      → any_covers name (chain_from types first (a ∷ rest)) ≡ (
          is_lt (name_order.cmp name first)
          || (is_gt (name_order.cmp name a) && not (has name rest)))
  unfolding any_covers chain_from canonically_between has IsAscending IsAfter name_order
  covers_from first a [] name up h = ground (
    arith,
    h,
    name_order.cmp_refl a,
    name_order.eq_of_cmp name first,
    name_order.eq_of_cmp name a,
    name_order.cmp_lt first a,
    name_order.cmp_lt a name,
  )
  covers_from first a (b ∷ rest) name up h =
      let first_less = first_before first a b h up.0.0 in
      ap (λ later. canonically_between name a b || later)
        (covers_from first b rest name up.1 (inr first_less))
      ∙ covers_step first a b rest name up.0.0 first_less up.1.0

  -- A name is covered by a record of a chain exactly when it owns none: for every chain made of an
  -- ascending list of at least one name.
  pub chain_of_covers :
      (name first : Name) (names : List Name)
      → IsAscending (first ∷ names)
      → any_covers name (chain_of types (first ∷ names)) ≡ not (has name (first ∷ names))
  unfolding chain_of
  chain_of_covers name first names up =
      covers_from first first names name up (inl refl) ∙ whole first names name up

  InChain : Name → List Name → Nsec → Type 0
  InChain first names n =
      (has n.owner names ≡ true)
      × (((n.next_domain ≡ first) ⊎ (has n.next_domain names ≡ true)) × (n.types ≡ types n.owner))

  chain_from-InChain :
      (first : Name) (names : List Name) (n : Nsec)
      → Memᴰ n (chain_from types first names)
      → InChain first names n
  unfolding chain_from InChain
  chain_from-InChain first [] n m = absurd (Memᴰ.not-nil m)
  chain_from-InChain first (a ∷ []) n (Memᴰ.head e) =
      subst (InChain first (a ∷ [])) (sym e) (has_head a [], (inl refl, refl))
  chain_from-InChain first (a ∷ b ∷ names) n (Memᴰ.head e) =
      subst (InChain first (a ∷ b ∷ names)) (sym e)
        (has_head a (b ∷ names), (inr (has_later b a (b ∷ names) (has_head b names)), refl))
  chain_from-InChain first (a ∷ names) n (Memᴰ.tail m) =
      let later = chain_from-InChain first names n m in
      (
        has_later n.owner a names later.0,
        (
          elim later.1.0 [
            | inl last ↦ inl last
            | inr next ↦ inr (has_later n.next_domain a names next)
          ],
          later.1.1,
        ),
      )

  -- Every record of a chain made of an ascending list of names is true to the list: both its names
  -- are in it, and none of the list lies in its interval.
  pub chain_of-IsTruthful :
      (names : List Name) (n : Nsec)
      → IsAscending names
      → Memᴰ n (chain_of types names)
      → IsTruthful names types n
  unfolding chain_of InChain
  chain_of-IsTruthful [] n up m = absurd (Memᴰ.not-nil m)
  chain_of-IsTruthful (first ∷ names) n up m =
      let place = chain_from-InChain first (first ∷ names) n m in
      record {
        owned = place.0;
        next_owned = elim place.1.0 [
          | inl e ↦ ap (λ a. has a (first ∷ names)) e ∙ has_head first names
          | inr next ↦ next
        ];
        bitmap = place.1.1;
        skips = λ a owner.
            uncovered a n (chain_of types (first ∷ names)) m
              (chain_of_covers a first names up ∙ ap not owner);
      }
