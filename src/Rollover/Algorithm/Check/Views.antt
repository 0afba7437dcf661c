-- ===== src/Rollover/Algorithm/Check/Views.antt =====
-- The record that each automatic step of an algorithm rollover
-- (signer/internal/signer/rollover.go) leaves.
use sigillum_dnssec.Prelude.{not, some, arith, if◌then◌else◌}
use sigillum_dnssec.State.{RolloverState}
use sigillum_dnssec.State.Publication.{published_since}
use sigillum_dnssec.Rollover.{Env, World, with_rollover, Observation}
use sigillum_dnssec.Rollover.Saves.{save_fields, SameButRevision}
use sigillum_dnssec.Rollover.Ksk.{rollover_ended}
use sigillum_dnssec.Rollover.Algorithm.Check.{after_observation, old_ds_seen_gone, finish_algorithm}

pub observation_view :
    (env : Env) (obs : Observation) (w : World) (r : RolloverState)
    → SameButRevision (after_observation env obs (some r) w).1.zone (
        if not (obs.absent_on_all r.old_key_id)
        then w.zone
        else with_rollover (old_ds_seen_gone env obs) w.zone)
unfolding after_observation
observation_view env obs w r = grind (arith, save_fields)

pub finish_view :
    (env : Env) (w : World) (r : RolloverState)
    → SameButRevision
        (finish_algorithm env r w).1.zone
        (if not (published_since w.zone r.phase_started) then w.zone else rollover_ended w.zone)
unfolding finish_algorithm
finish_view env w r = grind (arith, save_fields)
