-- ===== src/Rollover/Ksk.antt =====
-- The KSK rollover of signer/internal/signer/rollover.go: `StartKSKRollover`,
-- `CompleteKSKRollover` and `CheckKSKRollover`.
pub mod Laws
pub mod Validity
pub mod Timing
pub mod Ending
pub mod Registrar
use sigillum_dnssec.Prelude.{
  ℕ, ◌+◌, Bool, true, false, not, Option, none, some, ltb, ◌==◌, Result, ok, err, if◌then◌else◌,
}
use sigillum_dnssec.State.{
  Time, seconds, KeyState, RolloverState, ZoneState, RolloverType, ksk, Phase, ds_add_wait,
  ds_propagation_wait, retiring, publish_new_ds, ksk_published_until, ksk_removed,
}
use sigillum_dnssec.State.Publication.{published_since}
use sigillum_dnssec.State.Diagnostics.{clear_transient_warnings}
use sigillum_dnssec.Rollover.{
  Env, World, Exec, ◌>>=◌, ◌>>◌, pure, raise, done, mutate, with_rollover, save, backup_key,
  stage_key, activate_recorded, save_start, ksk_role, on_zone, on_zone_if_any, already_in_progress,
  no_rollover_in_progress, no_existing_key, wrong_type, wrong_phase, zone_not_found, Error,
}
use sigillum_dnssec.Rollover.Propagation.{
  stamp_new_key_propagation, push_old_ds_removal, old_ds_removal_advice, effective_parent_ds_ttl,
}

-- The record of a KSK rollover that starts at `now`.
abbrev pub ksk_record : Env → ℕ → ℕ → RolloverState
ksk_record env old_id new_id = record {
  kind = ksk;
  state = ds_add_wait;
  old_key_id = old_id;
  new_key_id = new_id;
  old_zsk_id = 0;
  new_zsk_id = 0;
  old_algorithm = "";
  new_algorithm = "";
  started = env.now;
  phase_started = 0;
  phase_first_signed = 0;
  phase_horizon = 0;
  ds_observed_at = 0;
  parent_ds_ttl = 0;
  old_ds_removed_at = 0;
  ds_removal_pushed_at = 0;
  ds_add_pushed_at = 0;
  action = publish_new_ds env.domain;
}

-- The record and the new key, as they are put in the state and taken out again.
abbrev pub ksk_started : Env → KeyState → KeyState → ZoneState → ZoneState
ksk_started env old new z = record z {
  rollover = some (ksk_record env old.id new.id);
  live_ksk = some new;
  force_resign = true;
}

abbrev pub ksk_undone : KeyState → ZoneState → ZoneState
ksk_undone old z = record z { live_ksk = some old; rollover = none; force_resign = false }

unfoldable pub start_ksk_with : Env → KeyState → Exec (Unit {0})
start_ksk_with env old = do
  backup_key env ksk_role old.id
  new ← stage_key env ksk_role old.alg
  mutate (ksk_started env old new)
  save_start env (ksk_undone old)
  activate_recorded env ksk_role new.id

unfoldable pub start_ksk : Env → Option RolloverState → Option KeyState → Exec (Unit {0})
unfolding start_ksk_with
start_ksk env (some r) key w = (err already_in_progress, w)
start_ksk env none none w = (err no_existing_key, w)
start_ksk env none (some old) w = start_ksk_with env old w

unfoldable pub start_zone_ksk : Env → Exec (Unit {0})
unfolding start_ksk
start_zone_ksk env w = start_ksk env w.zone.rollover w.zone.live_ksk w

unfoldable pub start_ksk_rollover : Env → Option World → Result Error (Unit {0}) × Option World
unfolding start_zone_ksk
start_ksk_rollover env = on_zone zone_not_found (start_zone_ksk env)

-- `if parentDSTTL == 0 { parentDSTTL = fallback }`
abbrev pub or_fallback : Env → ℕ → ℕ
or_fallback env ttl = if ttl == 0 then env.parent_ds_ttl_fallback else ttl

abbrev pub ksk_observed : Env → Time → ℕ → ZoneState → ZoneState
ksk_observed env at ttl z = clear_transient_warnings (
    with_rollover
      (λ r. record r {
        state = ds_propagation_wait;
        ds_observed_at = at;
        parent_ds_ttl = ttl;
        phase_started = env.now;
        action = ksk_published_until (at + seconds ttl) (old_ds_removal_advice z env.now);
      })
      z)

-- The guards of `CompleteKSKRollover` on the record, with the phases as patterns.
pub complete_ksk : Env → Time → ℕ → RolloverType → Phase → Exec (Unit {0})
complete_ksk env at ttl ksk ds_add_wait w =
    (do stamp_new_key_propagation env; mutate (ksk_observed env at (or_fallback env ttl)); save env)
      w
complete_ksk env at ttl ksk phase w = (err (wrong_phase phase), w)
complete_ksk env at ttl kind phase w = (err (wrong_type kind), w)

complete_rollover : Env → Time → ℕ → Option RolloverState → Exec (Unit {0})
unfolding complete_ksk
complete_rollover env at ttl none w = (err no_rollover_in_progress, w)
complete_rollover env at ttl (some r) w = complete_ksk env at ttl r.kind r.state w

unfoldable pub complete_zone_ksk : Env → Time → ℕ → Exec (Unit {0})
unfolding complete_rollover
complete_zone_ksk env at ttl w = complete_rollover env at ttl w.zone.rollover w

unfoldable pub complete_ksk_rollover :
    Env → Time → ℕ → Option World → Result Error (Unit {0}) × Option World
unfolding complete_zone_ksk
complete_ksk_rollover env at ttl = on_zone zone_not_found (complete_zone_ksk env at ttl)

abbrev pub ksk_retired : Env → ZoneState → ZoneState
ksk_retired env z =
    let advice = old_ds_removal_advice z env.now in
    let z' =
      with_rollover
        (λ r. record r { state = retiring; phase_started = env.now; action = ksk_removed advice })
        z in
    record z' { force_resign = true }

abbrev pub rollover_ended : ZoneState → ZoneState
rollover_ended z = clear_transient_warnings (record z { rollover = none })

-- The tests of each phase after the registrar update, on the record as it is then.
pub retire_ksk : Env → Option RolloverState → Exec (Unit {0})
retire_ksk env none w = (ok tt, w)
retire_ksk env (some r) w =
    if ltb env.now (r.ds_observed_at + effective_parent_ds_ttl r.parent_ds_ttl)
    then (ok tt, w)
    else (do mutate (ksk_retired env); save env) w

pub finish_ksk : Env → Bool → Option RolloverState → Exec (Unit {0})
finish_ksk env settled none w = (ok tt, w)
finish_ksk env settled (some r) w =
    if not (published_since w.zone r.phase_started)
    then (ok tt, w)
    else if not settled
    then (ok tt, w)
    else (do mutate rollover_ended; save env) w

pub ksk_phase : Env → Phase → Exec (Unit {0})
unfolding retire_ksk finish_ksk
ksk_phase env ds_propagation_wait =
    push_old_ds_removal env >>= λ settled w. retire_ksk env w.zone.rollover w
ksk_phase env retiring =
    push_old_ds_removal env >>= λ settled w. finish_ksk env settled w.zone.rollover w
ksk_phase env _ = done

pub check_ksk : Env → RolloverType → Phase → Exec (Unit {0})
unfolding ksk_phase
check_ksk env ksk phase = do stamp_new_key_propagation env; ksk_phase env phase
check_ksk env _ phase = done

pub check_rollover : Env → Option RolloverState → Exec (Unit {0})
unfolding check_ksk
check_rollover env none w = (ok tt, w)
check_rollover env (some r) w = check_ksk env r.kind r.state w

unfoldable pub check_zone_ksk : Env → Exec (Unit {0})
unfolding check_rollover
check_zone_ksk env w = check_rollover env w.zone.rollover w

unfoldable pub check_ksk_rollover : Env → Option World → Result Error (Unit {0}) × Option World
unfolding check_zone_ksk
check_ksk_rollover env = on_zone_if_any (check_zone_ksk env)
