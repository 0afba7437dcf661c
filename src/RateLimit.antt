-- ===== src/RateLimit.antt =====
-- The rate limiter of the registrar's API (signer/internal/registrar/registrar_ratelimit.go):
-- `windowLimiter`. A time is a number of nanoseconds; `admitted` holds the admissions in ascending
-- order, as in the source.
pub mod Laws
use Prim.Native.Nat.{zero}
use sigillum_dnssec.Prelude.{
  ℕ, suc, ◌+◌, ◌-◌, ◌*◌, Bool, true, false, not, ◌&&◌, Option, none, some, List, [], ◌∷◌, ◌++◌,
  length, ltb, leb, ◌==◌, if◌then◌else◌,
}

pub record WindowLimiter : Type 0 where
  pub window : ℕ
  pub quota : ℕ
  pub reserve : ℕ
  pub admitted : List ℕ

abbrev pub millisecond : ℕ
millisecond = 1000000

-- newWindowLimiter
abbrev pub new_window_limiter : WindowLimiter
new_window_limiter = record {
  window = 60000 * millisecond;
  quota = 60;
  reserve = 10;
  admitted = [];
}

unfoldable pub tier_delay : ℕ → ℕ
tier_delay count =
    if ltb count 20
    then 100 * millisecond
    else if ltb count 40
    then 500 * millisecond
    else 2000 * millisecond

-- Admissions at or before the cutoff, `now - window`, are dropped from the front.
pub drop_expired : ℕ → ℕ → List ℕ → List ℕ
drop_expired window now [] = []
drop_expired window now (t ∷ ts) =
    let rest = drop_expired window now ts in if leb (t + window) now then rest else t ∷ ts

unfoldable pub prune : ℕ → WindowLimiter → WindowLimiter
unfolding drop_expired
prune now l = record l { admitted = drop_expired l.window now l.admitted }

-- l.admitted[i], for an index in range
pub nth : ℕ → List ℕ → ℕ
nth i [] = 0
nth zero (t ∷ ts) = t
nth (suc i) (t ∷ ts) = nth i ts

abbrev pub limit_of : Bool → WindowLimiter → ℕ
limit_of priority l = if priority then l.quota else l.quota - l.reserve

-- The wait until the limit-th most recent admission leaves the window.
abbrev pub quota_wait : Bool → ℕ → WindowLimiter → ℕ
quota_wait priority now l =
    let n = length l.admitted in
    let limit = limit_of priority l in
    if leb limit n && ltb 0 limit then nth (n - limit) l.admitted + l.window - now else 0

-- The wait until the gap after the latest admission has passed.
abbrev pub gap_wait : ℕ → WindowLimiter → ℕ
gap_wait now l =
    let n = length l.admitted in if ltb 0 n then tier_delay n + nth (n - 1) l.admitted - now else 0

-- One turn of the loop of `gate` at `now`: the request is admitted, or it waits that long.
pub data Turn : Type 0 where
  admit : WindowLimiter → Turn
  wait : ℕ → WindowLimiter → Turn

unfoldable pub gate_turn : Bool → ℕ → WindowLimiter → Turn
unfolding prune nth
gate_turn priority now l =
    let l' = prune now l in
    let w = quota_wait priority now l' in
    let gap = gap_wait now l' in
    let longer : ℕ = if ltb w gap then gap else w in
    if longer == 0 then admit (record l' { admitted = l'.admitted ++ now ∷ [] }) else wait longer l'
