-- ===== src/Scenarios/RateLimit.antt =====
-- A scenario of signer/internal/registrar/registrar_ratelimit.go.
use sigillum_dnssec.Prelude.{◌≤◌, refl, arith, false, [], ◌∷◌}
use sigillum_dnssec.RateLimit.{WindowLimiter, new_window_limiter, prune, tier_delay, gate_turn}
use sigillum_dnssec.RateLimit.Laws.{count_since, IsPast, IsAscending, admission_within_quota}
use sigillum_dnssec.Scenarios.Data.{at_second}

-- Two admissions, the first of which has left the window at second 70.
abbrev limiter : WindowLimiter
limiter = record new_window_limiter { admitted = at_second 5 ∷ at_second 40 ∷ [] }

abbrev admitted_limiter : WindowLimiter
admitted_limiter = record limiter { admitted = at_second 40 ∷ at_second 70 ∷ [] }

admission_within_quota_example :
    (count_since (at_second 60) (at_second 70) (at_second 5 ∷ at_second 40 ∷ at_second 70 ∷ [])
      ≤ 60)
    × IsAscending (at_second 40 ∷ at_second 70 ∷ [])
unfolding IsAscending IsPast gate_turn prune tier_delay
admission_within_quota_example =
    admission_within_quota false (at_second 70) limiter admitted_limiter
      (omega arith, (omega arith, tt)) ((omega arith, tt), (tt, tt)) (omega arith) refl
