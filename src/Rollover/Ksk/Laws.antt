-- ===== src/Rollover/Ksk/Laws.antt =====
-- The record that each step of a KSK rollover (signer/internal/signer/rollover.go) leaves.
use mathlib.Core.Path.{ap₂}
use sigillum_dnssec.Prelude.{◌+◌, ◌≡◌, ap, ◌∙◌, Bool, not, ◌||◌, some, ltb, arith, if◌then◌else◌}
use sigillum_dnssec.State.{RolloverState, Phase, ksk}
use sigillum_dnssec.State.Publication.{published_since}
use sigillum_dnssec.Rollover.{Env, World}
use sigillum_dnssec.Rollover.Saves.{save_fields, SameButRevision}
use sigillum_dnssec.Rollover.Propagation.{effective_parent_ds_ttl}
use sigillum_dnssec.Rollover.Ksk.{
  check_rollover, check_zone_ksk, check_ksk, retire_ksk, finish_ksk, ksk_retired, rollover_ended,
}

pub retire_view :
    (env : Env) (w : World) (r : RolloverState)
    → SameButRevision (retire_ksk env (some r) w).1.zone (
        if ltb env.now (r.ds_observed_at + effective_parent_ds_ttl r.parent_ds_ttl)
        then w.zone
        else ksk_retired env w.zone)
unfolding retire_ksk
retire_view env w r = grind (arith, save_fields)

pub finish_view :
    (env : Env) (w : World) (settled : Bool) (r : RolloverState)
    → SameButRevision (finish_ksk env settled (some r) w).1.zone (
        if not (published_since w.zone r.phase_started) || not settled
        then w.zone
        else rollover_ended w.zone)
unfolding finish_ksk
finish_view env w settled r = grind (arith, save_fields)

-- The check of a zone with a KSK rollover is the check of its phase.
pub check_zone_at :
    (env : Env) (w : World) (r : RolloverState) (phase : Phase)
    → w.zone.rollover ≡ some r
    → r.kind ≡ ksk
    → r.state ≡ phase
    → check_zone_ksk env w ≡ check_ksk env ksk phase w
unfolding check_zone_ksk check_rollover
check_zone_at env w r phase before kind state =
    ap (λ o. check_rollover env o w) before ∙ ap₂ (λ k p. check_ksk env k p w) kind state
