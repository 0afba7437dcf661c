-- ===== src/RateLimit/Laws.antt =====
-- The bound that the rate limiter of signer/internal/registrar/registrar_ratelimit.go keeps.
use Prim.Native.Nat.{zero}
use sigillum_dnssec.Prelude.{
  ℕ, suc, ◌+◌, ◌-◌, ◌<◌, ◌≤◌, ◌≡◌, Bool, List, [], ◌∷◌, ◌++◌, length, ltb, leb, Bool-cases, inl,
  inr, arith, if◌then◌else◌,
}
use sigillum_dnssec.RateLimit.{WindowLimiter, drop_expired, prune, nth, limit_of, admit, gate_turn}

-- How many of the times are in the window that ends now.
pub count_since : ℕ → ℕ → List ℕ → ℕ
count_since window now [] = 0
count_since window now (t ∷ ts) =
    let rest = count_since window now ts in if ltb now (t + window) then suc rest else rest

unfoldable pub IsBelow : ℕ → List ℕ → Type 0
IsBelow t [] = Unit
IsBelow t (u ∷ us) = (t ≤ u) × IsBelow t us

unfoldable pub IsAscending : List ℕ → Type 0
unfolding IsBelow
IsAscending [] = Unit
IsAscending (t ∷ ts) = IsBelow t ts × IsAscending ts

count_since-append :
    (window now t : ℕ) (xs : List ℕ)
    → count_since window now (xs ++ t ∷ []) ≤ count_since window now xs + 1
unfolding count_since
count_since-append window now t [] = ground arith
count_since-append window now t (x ∷ xs) = ground (arith, count_since-append window now t xs)

count_since_small : (window now : ℕ) (xs : List ℕ) → count_since window now xs ≤ length xs
unfolding count_since
count_since_small window now [] = ground arith
count_since_small window now (x ∷ xs) = ground (arith, count_since_small window now xs)

count_since-drop_expired :
    (window now : ℕ) (xs : List ℕ) → count_since window now xs ≤ length (drop_expired window now xs)
unfolding count_since drop_expired
count_since-drop_expired window now [] = ground arith
count_since-drop_expired window now (x ∷ xs) =
    ground (arith, count_since_small window now xs, count_since-drop_expired window now xs)

IsBelow-nth : (t i : ℕ) (xs : List ℕ) → IsBelow t xs → i < length xs → t ≤ nth i xs
unfolding IsBelow nth
IsBelow-nth t i [] below inside = ground arith
IsBelow-nth t zero (x ∷ xs) below inside = ground arith
IsBelow-nth t (suc i) (x ∷ xs) below inside =
    ground (arith, IsBelow-nth t i xs below.1 (ground arith))

unexpired-nth :
    (window now i x : ℕ) (xs : List ℕ)
    → IsBelow x xs
    → now < x + window
    → i < length (x ∷ xs)
    → now < nth i (x ∷ xs) + window
unfolding nth
unexpired-nth window now zero x xs below fresh inside = fresh
unexpired-nth window now (suc i) x xs below fresh inside =
    ground (arith, IsBelow-nth x i xs below (ground arith))

drop_expired-nth :
    (window now i : ℕ) (xs : List ℕ)
    → IsAscending xs
    → i < length (drop_expired window now xs)
    → now < nth i (drop_expired window now xs) + window
unfolding IsAscending drop_expired nth
drop_expired-nth window now i [] asc inside = ground arith
drop_expired-nth window now i (x ∷ xs) asc inside = elim (Bool-cases (leb (x + window) now)) [
  | inl old ↦ ground (arith, drop_expired-nth window now i xs asc.1)
  | inr fresh ↦ ground (arith, unexpired-nth window now i x xs asc.0)
]

admitted-short :
    (priority : Bool) (now : ℕ) (l l' : WindowLimiter)
    → IsAscending l.admitted
    → l.reserve < l.quota
    → gate_turn priority now l ≡ admit l'
    → length (drop_expired l.window now l.admitted) < limit_of priority l
unfolding gate_turn prune
admitted-short priority now l l' asc some_quota admitted =
    let kept = drop_expired l.window now l.admitted in
    elim (Bool-cases (leb (limit_of priority l) (length kept))) [
      | inl full ↦ absurd (
          ground (
            arith,
            drop_expired-nth l.window now (length kept - limit_of priority l) l.admitted asc,
          ))
      | inr short ↦ ground arith
    ]

-- All the admissions are in the past.
unfoldable pub IsPast : ℕ → List ℕ → Type 0
IsPast now [] = Unit
IsPast now (t ∷ ts) = (t ≤ now) × IsPast now ts

IsBelow-append : (t now : ℕ) (xs : List ℕ) → t ≤ now → IsBelow t xs → IsBelow t (xs ++ now ∷ [])
unfolding IsBelow
IsBelow-append t now [] past below = ground arith
IsBelow-append t now (x ∷ xs) past below = (below.0, IsBelow-append t now xs past below.1)

IsAscending-append :
    (now : ℕ) (xs : List ℕ) → IsPast now xs → IsAscending xs → IsAscending (xs ++ now ∷ [])
unfolding IsAscending IsPast IsBelow
IsAscending-append now [] past asc = (tt, tt)
IsAscending-append now (x ∷ xs) past asc =
    (IsBelow-append x now xs past.0 asc.0, IsAscending-append now xs past.1 asc.1)

drop_expired-IsAscending :
    (window now : ℕ) (xs : List ℕ)
    → IsPast now xs
    → IsAscending xs
    → IsPast now (drop_expired window now xs) × IsAscending (drop_expired window now xs)
unfolding IsAscending IsPast drop_expired
drop_expired-IsAscending window now [] past asc = (tt, tt)
drop_expired-IsAscending window now (x ∷ xs) past asc =
    ground (arith, past, asc, drop_expired-IsAscending window now xs past.1 asc.1)

admitted-IsAscending :
    (priority : Bool) (now : ℕ) (l l' : WindowLimiter)
    → IsPast now l.admitted
    → IsAscending l.admitted
    → gate_turn priority now l ≡ admit l'
    → IsAscending l'.admitted
unfolding gate_turn prune
admitted-IsAscending priority now l l' past asc admitted =
    let kept = drop_expired-IsAscending l.window now l.admitted past asc in
    ground (arith, IsAscending-append now (drop_expired l.window now l.admitted) kept.0 kept.1)

-- Where the clock has not gone back and the reserve is less than the quota, a request is admitted
-- only if, with it, at most the quota of admissions lie in the window that ends now; and the
-- admissions stay in order.
pub admission_within_quota :
    (priority : Bool) (now : ℕ) (l l' : WindowLimiter)
    → IsPast now l.admitted
    → IsAscending l.admitted
    → l.reserve < l.quota
    → gate_turn priority now l ≡ admit l'
    → (count_since l.window now (l.admitted ++ now ∷ []) ≤ l.quota) × IsAscending l'.admitted
admission_within_quota priority now l l' past asc some_quota admitted = (
  ground (
    arith,
    admitted-short priority now l l' asc some_quota admitted,
    count_since-append l.window now now l.admitted,
    count_since-drop_expired l.window now l.admitted,
  ),
  admitted-IsAscending priority now l l' past asc admitted,
)
