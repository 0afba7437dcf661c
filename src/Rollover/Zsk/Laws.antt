-- ===== src/Rollover/Zsk/Laws.antt =====
-- The record that each step of a ZSK rollover (signer/internal/signer/rollover.go) leaves.
use sigillum_dnssec.Prelude.{ℕ, some, ltb, arith, Result, ok, err, if◌then◌else◌, String}
use sigillum_dnssec.State.{Time, is_zero, ZoneState, RolloverState}
use sigillum_dnssec.Rollover.{Env, World, with_rollover}
use sigillum_dnssec.Rollover.Saves.{save_fields, SameButRevision}
use sigillum_dnssec.Rollover.Zsk.{
  stamp_phase, stamp_phase_publication, switch_after_horizon, zsk_switched, end_after_horizon,
  zsk_ended,
}

pub stamp_phase_view :
    (env : Env) (w : World) (r : RolloverState) (horizon : Time)
    → SameButRevision (stamp_phase_publication env r horizon w).1.zone (
        if is_zero r.phase_first_signed
        then with_rollover (stamp_phase w.zone.published_at horizon) w.zone
        else w.zone)
unfolding stamp_phase_publication
stamp_phase_view env w r horizon = grind (arith, save_fields)

-- The switch to the new key, where the gate is open and the key's files are good.
abbrev pub switched_for : Env → RolloverState → Result String (ℕ × String) → ZoneState → ZoneState
switched_for env r (ok (tag, alg)) z = zsk_switched env r.started tag alg z
switched_for env r (err e) z = z

pub switch_view :
    (env : Env) (w : World) (r : RolloverState)
    → SameButRevision (switch_after_horizon env (some r) w).1.zone (
        if ltb env.now r.phase_horizon
        then w.zone
        else switched_for env r (env.ensure_live_key r.new_key_id) w.zone)
unfolding switch_after_horizon
switch_view env w r = grind (arith, save_fields)

pub end_view :
    (env : Env) (w : World) (r : RolloverState)
    → SameButRevision
        (end_after_horizon env (some r) w).1.zone
        (if ltb env.now r.phase_horizon then w.zone else zsk_ended w.zone)
unfolding end_after_horizon
end_view env w r = grind (arith, save_fields)
