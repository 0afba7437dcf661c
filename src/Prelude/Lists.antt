-- ===== src/Prelude/Lists.antt =====
-- Lists measured by native numbers, and the loops over lists of texts that the code repeats.
use Prim.Native.Nat.{ℕ, suc, ◌+◌}
use Prim.Native.String.{String}
use mathlib.Core.Path.{◌≡◌, refl, subst}
use mathlib.Core.Logic.{inl, inr}
use mathlib.Core.Bool.{Bool, true, false, ◌||◌, ◌&&◌, not}
use mathlib.Core.List.{List, [], ◌∷◌, ◌++◌}
use native.Mathlib.Omega.{arith}
use text.Mathlib.Text.{◌==◌ as str_eq}
use text.Mathlib.TextEquality.{eq_iff}
use sigillum_dnssec.Prelude.Tests.{if◌then◌else◌, Bool-cases, ◌==◌, ==_iff}

module _ {ℓ} {A : Type ℓ} where
  abbrev pub length : List A → ℕ
  length [] = 0
  length (x ∷ xs) = suc (length xs)

  pub length-append : (xs ys : List A) → length (xs ++ ys) ≡ length xs + length ys
  length-append [] ys = omega arith
  length-append (x ∷ xs) ys = omega (arith, length-append xs ys)

-- `for … { if keep(x) { kept = append(kept, x) } }`
module _ {ℓ} {A : Type ℓ} (keep : A → Bool) where
  unfoldable pub keep_if : List A → List A
  keep_if [] = []
  keep_if (x ∷ xs) = let rest = keep_if xs in if keep x then x ∷ rest else rest

module _ {ℓ} {A : Type ℓ} where
  -- What survives `keep` and is then put to `keep'`.
  pub keep_if-none :
      (keep keep' : A → Bool) (xs : List A)
      → ((x : A) → keep x ≡ true → keep' x ≡ false)
      → keep_if keep' (keep_if keep xs) ≡ []
  unfolding keep_if
  keep_if-none keep keep' [] h = refl
  keep_if-none keep keep' (x ∷ xs) h = elim (Bool-cases (keep x)) [
    | inl k ↦ rw k (rw (h x k) (keep_if-none keep keep' xs h))
    | inr k ↦ rw k (keep_if-none keep keep' xs h)
  ]

  pub keep_if-all :
      (keep keep' : A → Bool) (xs : List A)
      → ((x : A) → keep' x ≡ true → keep x ≡ true)
      → keep_if keep' (keep_if keep xs) ≡ keep_if keep' xs
  unfolding keep_if
  keep_if-all keep keep' [] h = refl
  keep_if-all keep keep' (x ∷ xs) h = ground (arith, h x, keep_if-all keep keep' xs h)

  -- The early return on an empty list changes nothing.
  pub keep_if-empty :
      (keep : A → Bool) (xs : List A) → (length xs == 0) ≡ true → keep_if keep xs ≡ xs
  unfolding keep_if
  keep_if-empty keep [] h = refl
  keep_if-empty keep (x ∷ xs) h = absurd (omega (arith, (==_iff (suc (length xs)) 0).0 h))

  pub keep_if-append :
      (keep : A → Bool) (xs ys : List A)
      → keep_if keep (xs ++ ys) ≡ keep_if keep xs ++ keep_if keep ys
  unfolding keep_if
  keep_if-append keep [] ys = refl
  keep_if-append keep (x ∷ xs) ys = ground (arith, keep_if-append keep xs ys)

-- `for _, x := range list { if x == s { return true } }; return false`
unfoldable pub contains : List String → String → Bool
contains [] s = false
contains (x ∷ xs) s = str_eq x s || contains xs s

-- `for _, x := range list { if test(x) { return true } }; return false`
unfoldable pub any_of : (String → Bool) → List String → Bool
any_of test [] = false
any_of test (x ∷ xs) = test x || any_of test xs

pub any_of-keep_if :
    (test : String → Bool) (xs : List String) → any_of test (keep_if (λ x. not (test x)) xs) ≡ false
unfolding any_of keep_if
any_of-keep_if test [] = refl
any_of-keep_if test (x ∷ xs) = ground (arith, any_of-keep_if test xs)

pub any_of-append :
    (test : String → Bool) (xs ys : List String)
    → any_of test (xs ++ ys) ≡ (any_of test xs || any_of test ys)
unfolding any_of
any_of-append test [] ys = refl
any_of-append test (x ∷ xs) ys = ground (arith, any_of-append test xs ys)

pub contains-append :
    (xs ys : List String) (s : String) → contains (xs ++ ys) s ≡ (contains xs s || contains ys s)
unfolding contains
contains-append [] ys s = refl
contains-append (x ∷ xs) ys s = ground (arith, contains-append xs ys s)

pub contains-keep_if :
    (keep : String → Bool) (xs : List String) (s : String)
    → contains (keep_if keep xs) s ≡ (keep s && contains xs s)
unfolding contains keep_if
contains-keep_if keep [] s = ground arith
contains-keep_if keep (x ∷ xs) s = elim (Bool-cases (str_eq x s)) [
  | inl e ↦
      subst (λ t. contains (keep_if keep (x ∷ xs)) t ≡ (keep t && contains (x ∷ xs) t))
        ((eq_iff x s).0 e) (ground (arith, eq_iff x x, contains-keep_if keep xs x))
  | inr e ↦ ground (arith, contains-keep_if keep xs s)
]
