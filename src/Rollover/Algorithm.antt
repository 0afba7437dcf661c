-- ===== src/Rollover/Algorithm.antt =====
-- The algorithm rollover of signer/internal/signer/rollover.go: its start and its completion by the
-- operator. The automatic phases are in `Check`.
pub mod Check
pub mod Blocked
pub mod Validity
use sigillum_dnssec.Prelude.{
  ℕ, ◌+◌, String, Bool, true, false, Option, none, some, ◌==◌, str_eq, Result, ok, err,
  if◌then◌else◌,
}
use sigillum_dnssec.State.{
  Time, seconds, KeyState, RolloverState, ZoneState, RolloverType, algorithm, Phase,
  algo_ds_add_wait, algo_ds_propagation_wait, algorithm_wait, algorithm_published_until,
}
use sigillum_dnssec.State.Diagnostics.{clear_transient_warnings}
use sigillum_dnssec.Rollover.{
  Env, World, Exec, ◌>>=◌, ◌>>◌, mutate, with_rollover, save, backup_key, stage_key,
  activate_recorded, save_start, ksk_role, zsk_role, on_zone, Error, zone_not_found,
  already_in_progress, no_rollover_in_progress, no_usable_keys, wrong_type, wrong_phase,
  same_algorithm,
}
use sigillum_dnssec.Rollover.Propagation.{stamp_new_key_propagation}
use sigillum_dnssec.Rollover.Ksk.{or_fallback}

abbrev pub algorithm_record : Env → String → KeyState → KeyState → ℕ → ℕ → RolloverState
algorithm_record env target old_ksk old_zsk new_ksk_id new_zsk_id = record {
  kind = algorithm;
  state = algo_ds_add_wait;
  old_key_id = old_ksk.id;
  new_key_id = new_ksk_id;
  old_zsk_id = old_zsk.id;
  new_zsk_id = new_zsk_id;
  old_algorithm = old_ksk.alg;
  new_algorithm = target;
  started = env.now;
  phase_started = 0;
  phase_first_signed = 0;
  phase_horizon = 0;
  ds_observed_at = 0;
  parent_ds_ttl = 0;
  old_ds_removed_at = 0;
  ds_removal_pushed_at = 0;
  ds_add_pushed_at = 0;
  action = algorithm_wait target env.domain;
}

abbrev pub algorithm_started :
    Env → String → KeyState → KeyState → KeyState → KeyState → ZoneState → ZoneState
algorithm_started env target old_ksk old_zsk new_ksk new_zsk z = record z {
  rollover = some (algorithm_record env target old_ksk old_zsk new_ksk.id new_zsk.id);
  live_ksk = some new_ksk;
  live_zsk = some new_zsk;
  force_resign = true;
}

abbrev pub algorithm_undone : KeyState → KeyState → ZoneState → ZoneState
algorithm_undone old_ksk old_zsk z = record z {
  live_ksk = some old_ksk;
  live_zsk = some old_zsk;
  rollover = none;
  force_resign = false;
}

-- From the record on: one save, then both pairs are made live.
unfoldable pub record_algorithm :
    Env → String → KeyState → KeyState → KeyState → KeyState → Exec (Unit {0})
record_algorithm env target old_ksk old_zsk new_ksk new_zsk = do
  mutate (algorithm_started env target old_ksk old_zsk new_ksk new_zsk)
  save_start env (algorithm_undone old_ksk old_zsk)
  activate_recorded env ksk_role new_ksk.id
  activate_recorded env zsk_role new_zsk.id

unfoldable pub start_algorithm_with : Env → String → KeyState → KeyState → Exec (Unit {0})
start_algorithm_with env target old_ksk old_zsk = do
  backup_key env ksk_role old_ksk.id
  backup_key env zsk_role old_zsk.id
  new_ksk ← stage_key env ksk_role target
  new_zsk ← stage_key env zsk_role target
  record_algorithm env target old_ksk old_zsk new_ksk new_zsk

unfoldable pub start_algorithm :
    Env → String → Option RolloverState → Option KeyState → Option KeyState → Exec (Unit {0})
unfolding start_algorithm_with
start_algorithm env target (some r) ksk_key zsk_key w = (err already_in_progress, w)
start_algorithm env target none none zsk_key w = (err no_usable_keys, w)
start_algorithm env target none (some k) none w = (err no_usable_keys, w)
start_algorithm env target none (some k) (some z) w =
    if str_eq k.alg target
    then (err (same_algorithm target), w)
    else start_algorithm_with env target k z w

unfoldable pub start_zone_algorithm : Env → String → Exec (Unit {0})
unfolding start_algorithm
start_zone_algorithm env target w =
    start_algorithm env target w.zone.rollover w.zone.live_ksk w.zone.live_zsk w

unfoldable pub start_algorithm_rollover :
    Env → String → Option World → Result Error (Unit {0}) × Option World
unfolding start_zone_algorithm
start_algorithm_rollover env target = on_zone zone_not_found (start_zone_algorithm env target)

abbrev pub algorithm_observed : Env → Time → ℕ → ZoneState → ZoneState
algorithm_observed env at ttl z = clear_transient_warnings (
    with_rollover
      (λ r. record r {
        state = algo_ds_propagation_wait;
        ds_observed_at = at;
        parent_ds_ttl = ttl;
        phase_started = env.now;
        action = algorithm_published_until (at + seconds ttl) r.old_algorithm;
      })
      z)

pub complete_algorithm : Env → Time → ℕ → RolloverType → Phase → Exec (Unit {0})
complete_algorithm env at ttl algorithm algo_ds_add_wait w =
    (do
      stamp_new_key_propagation env
      mutate (algorithm_observed env at (or_fallback env ttl))
      save env)
      w
complete_algorithm env at ttl algorithm phase w = (err (wrong_phase phase), w)
complete_algorithm env at ttl kind phase w = (err (wrong_type kind), w)

pub complete_rollover : Env → Time → ℕ → Option RolloverState → Exec (Unit {0})
unfolding complete_algorithm
complete_rollover env at ttl none w = (err no_rollover_in_progress, w)
complete_rollover env at ttl (some r) w = complete_algorithm env at ttl r.kind r.state w

unfoldable pub complete_zone_algorithm : Env → Time → ℕ → Exec (Unit {0})
unfolding complete_rollover
complete_zone_algorithm env at ttl w = complete_rollover env at ttl w.zone.rollover w

unfoldable pub complete_algorithm_rollover :
    Env → Time → ℕ → Option World → Result Error (Unit {0}) × Option World
unfolding complete_zone_algorithm
complete_algorithm_rollover env at ttl = on_zone zone_not_found (complete_zone_algorithm env at ttl)
