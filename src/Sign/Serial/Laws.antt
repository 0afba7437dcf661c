-- ===== src/Sign/Serial/Laws.antt =====
-- What the serials of signer/internal/signer/sign.go guarantee to the secondaries.
use sigillum_dnssec.Prelude.{
  ℕ, ◌+◌, ◌-◌, ◌%◌, ◌<◌, ◌≤◌, ◌≡◌, ◌≢◌, ◌⊎◌, String, true, false, Bool-cases, inl, inr, ltb, ◌==◌,
  ◌&&◌, ◌||◌, List, [], ◌∷◌, arith, Result, ok, err,
}
use sigillum_dnssec.Sign.Serial.{
  word, half, serial_gt, advance, SerialError, next_published_serial, first_not_below, check_served,
  validate_import_serial, Signed, ahead, behind, int32_of_difference, serial_time,
}

serial_gt-succ : (n : ℕ) → n < word → serial_gt ((n + 1) % word) n ≡ true
unfolding serial_gt
serial_gt-succ n bound = ground arith

-- Two serials are in at most one order, and in one of them unless they are equal or half the
-- circle apart.
pub serial_gt_orders :
    (a b : ℕ)
    → a < word
    → b < word
    → (serial_gt a b && serial_gt b a ≡ false)
      × ((serial_gt a b || serial_gt b a ≡ true) ⊎ (a ≡ b) ⊎ ((a + half) % word ≡ b))
unfolding serial_gt
serial_gt_orders a b small_a small_b = (ground arith, ground arith)

advance-gt : (next serial : ℕ) → serial < word → serial_gt (advance next serial) serial ≡ true
advance-gt next serial bound = ground (arith, serial_gt-succ serial bound)

published_after_last :
    (serial previous now next : ℕ)
    → serial < word
    → previous < word
    → next_published_serial "epoch" serial previous now ≡ ok next
    → previous ≢ 0
    → serial_gt next previous ≡ true
unfolding next_published_serial serial_gt
published_after_last serial previous now next small_serial small_previous published some_last =
    grind arith

published_after_source :
    (serial previous now next : ℕ)
    → serial < word
    → previous < word
    → next_published_serial "epoch" serial previous now ≡ ok next
    → (previous ≡ 0) ⊎ ((previous + word - serial) % word + 1 < half)
    → serial_gt next serial ≡ true
unfolding next_published_serial serial_gt
published_after_source serial previous now next small_serial small_previous published near =
    grind arith

published-small :
    (serial previous now next : ℕ)
    → serial < word
    → previous < word
    → next_published_serial "epoch" serial previous now ≡ ok next
    → next < word
unfolding next_published_serial
published-small serial previous now next small_serial small_previous published = grind arith

-- Under the policy `epoch` a serial that is published is after the last published one, whatever
-- the clock says, and after the serial of the unsigned file, unless the last published one is at
-- least half the circle, less one, ahead of that; it is again a number of 32 bits.
pub published_serial_advances :
    (serial previous now next : ℕ)
    → serial < word
    → previous < word
    → next_published_serial "epoch" serial previous now ≡ ok next
    → (next < word)
      × ((previous ≡ 0) ⊎ (serial_gt next previous ≡ true))
      × ((serial_gt next serial ≡ true)
          ⊎ ((previous ≢ 0) × (half ≤ (previous + word - serial) % word + 1)))
published_serial_advances serial previous now next small_serial small_previous published = (
  published-small serial previous now next small_serial small_previous published,
  elim (Bool-cases (previous == 0)) [
    | inl e ↦ inl (ground arith)
    | inr e ↦ inr (
        published_after_last serial previous now next small_serial small_previous published
          (ground arith))
  ],
  elim (Bool-cases (previous == 0 || ltb ((previous + word - serial) % word + 1) half)) [
    | inl e ↦ inl (
        published_after_source serial previous now next small_serial small_previous published
          (ground arith))
    | inr e ↦ inr (ground arith)
  ],
)

-- The clock of 32 bits shows the serial at that distance from the reference, which is at most half
-- the circle.
abbrev pub IsNearest : ℕ → ℕ → Signed → Type 0
IsNearest serial ref (ahead n) = (n < half) × ((ref + n) % word ≡ serial)
IsNearest serial ref (behind n) = (n ≤ half) × ((serial + n) % word ≡ ref % word)

-- `serialTime` returns the instant nearest to the reference at which a clock of 32 bits shows the
-- serial.
pub serial_time-IsNearest :
    (serial ref : ℕ) → serial < word → IsNearest serial ref (serial_time serial ref)
unfolding serial_time int32_of_difference
serial_time-IsNearest serial ref small = ground arith

-- Every serial of the list is passed.
pub Passes : ℕ → List ℕ → Type 0
Passes projected [] = Unit
Passes projected (current ∷ served) = (serial_gt projected current ≡ true) × Passes projected served

first_not_below-Passes :
    (projected p : ℕ) (served : List ℕ)
    → first_not_below projected served ≡ ok p
    → (p ≡ projected) × Passes projected served
unfolding first_not_below Passes
first_not_below-Passes projected p [] e = ground arith
first_not_below-Passes projected p (current ∷ served) e =
    ground (arith, first_not_below-Passes projected p served)

check_served-Passes :
    (r : Result SerialError ℕ) (p : ℕ) (served : List ℕ)
    → check_served r served ≡ ok p
    → (r ≡ ok p) × Passes p served
unfolding check_served
check_served-Passes (err e) p served h = ground arith
check_served-Passes (ok q) p served h = ground (arith, first_not_below-Passes q p served h)

-- An import is accepted only with a serial that is after every serial that is served now, and that
-- the first signing will publish if it runs at the same instant.
pub import_serial_advances :
    (policy : String) (source now p : ℕ) (served : List ℕ)
    → validate_import_serial policy source served now ≡ ok p
    → (next_published_serial policy source 0 now ≡ ok p) × Passes p served
unfolding validate_import_serial
import_serial_advances policy source now p served accepted =
    check_served-Passes (next_published_serial policy source 0 now) p served accepted
