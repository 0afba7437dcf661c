-- ===== src/Rollover/Keeps.antt =====
-- Properties of the zone's record through the rollover operations
-- (signer/internal/signer/rollover.go): what holds of the record before a call, and of the record
-- that the call leaves, whether it returns or fails.
use sigillum_dnssec.Prelude.{◌≡◌, refl, Option, none, some, Result, ok, err}
use sigillum_dnssec.State.{ZoneState, RolloverState, RolloverType, Phase}
use sigillum_dnssec.Rollover.{World, Exec, Error, continue, ◌>>=◌}

-- From `P` before to `Q` after.
abbrev pub Leads : {A : Type 0} → (ZoneState → Type 0) → (ZoneState → Type 0) → Exec A → Type 0
Leads P Q m = (w : World) → P w.zone → Q (m w).1.zone

module _ {A B : Type 0} (P Q R : ZoneState → Type 0) (weaker : (z : ZoneState) → Q z → R z) where
  Leads-continue :
      (f : A → Exec B)
      → ((a : A) → Leads Q R (f a))
      → (r : Result Error A) (w : World) → Q w.zone
      → R (continue r f w).1.zone
  Leads-continue f next (ok a) w q = next a w q
  Leads-continue f next (err e) w q = weaker w.zone q

  -- A call that may fail, and what comes after it.
  pub Leads-bind :
      (m : Exec A) (f : A → Exec B)
      → Leads P Q m
      → ((a : A) → Leads Q R (f a))
      → Leads P R (m >>= f)
  Leads-bind m f first next w p = let (r, w') = m w in Leads-continue f next r w' (first w p)

module _ {A B : Type 0} (R : ZoneState → Type 0) where
  continue_zone :
      (f : A → Exec B) (r : Result Error A) (w : World)
      → ((e : Error) → r ≡ err e → R w.zone)
      → ((a : A) → r ≡ ok a → R (f a w).1.zone)
      → R (continue r f w).1.zone
  continue_zone f (ok a) w failed next = next a refl
  continue_zone f (err e) w failed next = failed e refl

  -- The same with what the first call returned.
  pub bind_zone :
      (m : Exec A) (f : A → Exec B) (w : World)
      → ((e : Error) → (m w).0 ≡ err e → R (m w).1.zone)
      → ((a : A) → (m w).0 ≡ ok a → R (f a (m w).1).1.zone)
      → R ((m >>= f) w).1.zone
  bind_zone m f w failed next = let (r, w') = m w in continue_zone f r w' failed next

-- A record of this type in this phase.
abbrev pub IsAt : RolloverType → Phase → Option RolloverState → Type 0
IsAt kind phase none = ⊥
IsAt kind phase (some r) = (r.kind ≡ kind) × (r.state ≡ phase)

abbrev pub PhaseIs : Phase → Option RolloverState → Type 0
PhaseIs phase none = ⊥
PhaseIs phase (some r) = r.state ≡ phase
