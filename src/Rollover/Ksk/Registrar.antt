-- ===== src/Rollover/Ksk/Registrar.antt =====
-- How often the automatic checks of a KSK rollover (signer/internal/signer/rollover.go) change the
-- DS set at the registrar.
use sigillum_dnssec.Prelude.{
  ℕ, suc, ◌+◌, ◌≤◌, ◌≡◌, Bool, Option, none, some, List, [], ◌∷◌, arith, Result, ok, err,
  if◌then◌else◌,
}
use sigillum_dnssec.State.{
  is_zero, RolloverState, RolloverType, ksk, Phase, ds_propagation_wait, retiring,
}
use sigillum_dnssec.State.Diagnostics.{clear_transient_warnings}
use sigillum_dnssec.Rollover.{
  Env, World, Exec, Error, continue, ◌>>=◌, save, Effect, backed_up, staged, wrote, activated,
  published, old_ds_removal, new_ds_add,
}
use sigillum_dnssec.Rollover.Saves.{advance_revision_fields}
use sigillum_dnssec.Rollover.Propagation.{stamp_new_key_propagation, push_old_ds_removal}
use sigillum_dnssec.Rollover.Ksk.{
  retire_ksk, finish_ksk, ksk_phase, check_ksk, check_rollover, check_zone_ksk,
}

-- How often the registrar took the new-only DS set.
unfoldable pub installs : List Effect → ℕ
installs [] = 0
installs (published old_ds_removal ∷ es) = suc (installs es)
installs (published new_ds_add ∷ es) = installs es
installs (wrote _ ∷ es) = installs es
installs (backed_up _ _ ∷ es) = installs es
installs (staged _ _ ∷ es) = installs es
installs (activated _ _ ∷ es) = installs es

-- A rollover for which the registrar may still be asked.
unfoldable pub unasked : Option RolloverState → ℕ
unasked none = 0
unasked (some r) = if is_zero r.ds_removal_pushed_at then 1 else 0

-- The installations made and to be made.
unfoldable pub budget : World → ℕ
unfolding installs unasked
budget w = installs w.effects + unasked w.zone.rollover

abbrev Spends : {A : Type 0} → Exec A → Type 0
Spends m = (w : World) → budget (m w).1 ≤ budget w

Spends-continue :
    {A B : Type 0} (f : A → Exec B)
    → ((a : A) → Spends (f a))
    → (r : Result Error A) (w : World) → budget (continue r f w).1 ≤ budget w
Spends-continue f next (ok a) w = next a w
Spends-continue f next (err e) w = ground arith

Spends-bind :
    {A B : Type 0} (m : Exec A) (f : A → Exec B)
    → Spends m
    → ((a : A) → Spends (f a))
    → Spends (m >>= f)
Spends-bind m f first next w = ground (arith, first w, Spends-continue f next (m w).0 (m w).1)

budget-save : (env : Env) (w : World) → budget (save env w).1 ≡ budget w
unfolding save budget
budget-save env w = grind (arith, advance_revision_fields)

module _ (env : Env) where
  stamp-Spends : Spends (stamp_new_key_propagation env)
  unfolding stamp_new_key_propagation budget
  stamp-Spends w = grind (arith, budget-save)

  push-Spends : Spends (push_old_ds_removal env)
  unfolding push_old_ds_removal budget
  push-Spends w = grind (arith, budget-save)

  retire-Spends : (o : Option RolloverState) → Spends (retire_ksk env o)
  unfolding retire_ksk budget
  retire-Spends o w = grind (arith, budget-save)

  finish-Spends : (settled : Bool) (o : Option RolloverState) → Spends (finish_ksk env settled o)
  unfolding finish_ksk budget clear_transient_warnings
  finish-Spends settled o w = grind (arith, budget-save)

  phase-Spends : (phase : Phase) → Spends (ksk_phase env phase)
  unfolding ksk_phase
  phase-Spends ds_propagation_wait =
      Spends-bind (push_old_ds_removal env) (λ settled w. retire_ksk env w.zone.rollover w)
        push-Spends (λ settled w. retire-Spends w.zone.rollover w)
  phase-Spends retiring =
      Spends-bind (push_old_ds_removal env) (λ settled w. finish_ksk env settled w.zone.rollover w)
        push-Spends (λ settled w. finish-Spends settled w.zone.rollover w)
  phase-Spends _ = λ w. ground arith

  check-Spends : (kind : RolloverType) (phase : Phase) → Spends (check_ksk env kind phase)
  unfolding check_ksk
  check-Spends ksk phase =
      Spends-bind (stamp_new_key_propagation env) (λ _. ksk_phase env phase) stamp-Spends
        (λ _. phase-Spends phase)
  check-Spends _ phase = λ w. ground arith

  check_rollover-Spends : (o : Option RolloverState) → Spends (check_rollover env o)
  unfolding check_rollover
  check_rollover-Spends none w = ground arith
  check_rollover-Spends (some r) w = check-Spends r.kind r.state w

-- The checks of one zone, one after the other, each in what it meets.
pub checks : List Env → World → World
checks [] w = w
checks (env ∷ envs) w = checks envs (check_zone_ksk env w).1

checks-Spends : (envs : List Env) (w : World) → budget (checks envs w) ≤ budget w
unfolding checks check_zone_ksk
checks-Spends [] w = ground arith
checks-Spends (env ∷ envs) w = ground (
  arith,
  check_rollover-Spends env w.zone.rollover w,
  checks-Spends envs (check_zone_ksk env w).1,
)

-- However many checks of a KSK rollover one process makes, whatever the registrar answers, and also
-- where a save is lost after the registrar answered, the new-only DS set is installed at most once
-- more, and not at all where it was installed before.
pub ds_removal_installed_once :
    (envs : List Env) (w : World)
    → installs (checks envs w).effects ≤ installs w.effects + unasked w.zone.rollover
unfolding budget
ds_removal_installed_once envs w = ground (arith, checks-Spends envs w)
