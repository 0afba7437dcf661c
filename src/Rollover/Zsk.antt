-- ===== src/Rollover/Zsk.antt =====
-- The automatic ZSK rollover of signer/internal/signer/rollover.go: `CheckZSKRollover`,
-- `startZSKRollover` and `handleZSKRolloverState`.
pub mod Laws
pub mod Timing
pub mod Validity
use sigillum_dnssec.Prelude.{
  ℕ, ◌+◌, ◌-◌, ◌*◌, ◌/◌, String, str_append, Bool, true, false, not, Option, none, some, ltb, leb,
  ◌==◌, Result, ok, err, if◌then◌else◌,
}
use sigillum_dnssec.State.{
  Time, Duration, is_zero, KeyState, RolloverState, ZoneState, RolloverType, ksk, zsk, algorithm,
  other, Phase, pre_publish, signing, zsk_pre_published, zsk_signing,
}
use sigillum_dnssec.State.Publication.{published_since, raise_to}
use sigillum_dnssec.State.Diagnostics.{add_warning}
use sigillum_dnssec.Rollover.{
  Env, World, Exec, ◌>>=◌, ◌>>◌, pure, done, mutate, with_rollover, save, backup_key, stage_key,
  activate_recorded, save_start, zsk_role, on_zone_if_any, Error, key_files,
}
use sigillum_dnssec.Rollover.Propagation.{dnskey_ttl_floor, zsk_retire_floor}
use sigillum_dnssec.Rollover.Ksk.{rollover_ended}

abbrev pub zsk_record : Env → ℕ → ℕ → RolloverState
zsk_record env old_id new_id = record {
  kind = zsk;
  state = pre_publish;
  old_key_id = old_id;
  new_key_id = new_id;
  old_zsk_id = 0;
  new_zsk_id = 0;
  old_algorithm = "";
  new_algorithm = "";
  started = env.later;
  phase_started = 0;
  phase_first_signed = 0;
  phase_horizon = 0;
  ds_observed_at = 0;
  parent_ds_ttl = 0;
  old_ds_removed_at = 0;
  ds_removal_pushed_at = 0;
  ds_add_pushed_at = 0;
  action = zsk_pre_published env.rollover_switch;
}

-- The live ZSK of the record stays the old one while the new one is published in advance.
abbrev pub zsk_started : Env → KeyState → KeyState → ZoneState → ZoneState
zsk_started env old new z = record z {
  rollover = some (zsk_record env old.id new.id);
  force_resign = true;
}

abbrev pub zsk_undone : ZoneState → ZoneState
zsk_undone z = record z { rollover = none; force_resign = false }

unfoldable pub start_zsk : Env → KeyState → Exec (Unit {0})
start_zsk env old = do
  backup_key env zsk_role old.id
  new ← stage_key env zsk_role old.alg
  mutate (zsk_started env old new)
  save_start env zsk_undone
  activate_recorded env zsk_role new.id

-- `stampPhasePublication`, once per phase, with the horizon that the phase must wait out.
abbrev pub stamp_phase : Time → Time → RolloverState → RolloverState
stamp_phase published_at horizon r = record r {
  phase_first_signed = published_at;
  phase_horizon = horizon;
}

pub stamp_phase_publication : Env → RolloverState → Time → Exec (Unit {0})
stamp_phase_publication env r horizon w =
    if not (is_zero r.phase_first_signed)
    then (ok tt, w)
    else (do mutate (with_rollover (stamp_phase w.zone.published_at horizon)); save env) w

abbrev pub pre_publish_horizon : Env → ZoneState → Time
pre_publish_horizon env z =
    raise_to z.dnskey_cache_horizon (z.published_at + dnskey_ttl_floor env z)

abbrev pub signing_horizon : Env → ZoneState → Time
signing_horizon env z =
    raise_to z.rrsig_cache_horizon
      (raise_to z.dnskey_cache_horizon (z.published_at + zsk_retire_floor env z))

abbrev new_zsk : Env → Time → ℕ → String → KeyState
new_zsk env started tag alg = record {
  id = tag;
  alg = alg;
  created = started;
  expires = started + env.zsk_lifetime;
  ds_published = false;
  rollover_due = started + env.zsk_lifetime * 3 / 4;
}

abbrev pub zsk_switched : Env → Time → ℕ → String → ZoneState → ZoneState
zsk_switched env started tag alg z =
    let z' =
      with_rollover
        (λ r. record r {
          state = signing;
          phase_started = env.now;
          phase_first_signed = 0;
          phase_horizon = 0;
          action = zsk_signing;
        })
        z in
    record z' { live_zsk = some (new_zsk env started tag alg); force_resign = true }

switch_zsk : Env → RolloverState → Exec (Unit {0})
switch_zsk env r w = elim (env.ensure_live_key r.new_key_id) [
  | ok (tag, alg) ↦ (do mutate (zsk_switched env r.started tag alg); save env) w
  | err e ↦ (err (key_files e), w)
]

-- The last gate of a phase, on the record after the stamp.
pub switch_after_horizon : Env → Option RolloverState → Exec (Unit {0})
unfolding switch_zsk
switch_after_horizon env none w = (ok tt, w)
switch_after_horizon env (some r) w =
    if ltb env.now r.phase_horizon then (ok tt, w) else switch_zsk env r w

pub handle_pre_publish : Env → RolloverState → Exec (Unit {0})
unfolding stamp_phase_publication switch_after_horizon
handle_pre_publish env r w =
    if ltb env.now (r.started + env.rollover_switch)
    then (ok tt, w)
    else if not (published_since w.zone r.started)
    then (ok tt, w)
    else (stamp_phase_publication env r (pre_publish_horizon env w.zone) >>= λ _ w'.
          switch_after_horizon env w'.zone.rollover w')
        w

abbrev pub zsk_ended : ZoneState → ZoneState
zsk_ended z = rollover_ended (record z { force_resign = true })

pub end_after_horizon : Env → Option RolloverState → Exec (Unit {0})
end_after_horizon env none w = (ok tt, w)
end_after_horizon env (some r) w =
    if ltb env.now r.phase_horizon then (ok tt, w) else (do mutate zsk_ended; save env) w

-- Old state files have no start of the phase.
abbrev pub phase_start : RolloverState → Time
phase_start r = if is_zero r.phase_started then r.started else r.phase_started

abbrev pub signing_duration : Env → Duration
signing_duration env =
    if leb env.rollover_prepublish env.rollover_switch
    then env.rollover_switch
    else env.rollover_prepublish - env.rollover_switch

pub handle_signing : Env → RolloverState → Exec (Unit {0})
unfolding stamp_phase_publication end_after_horizon
handle_signing env r w =
    if ltb env.now (phase_start r + signing_duration env)
    then (ok tt, w)
    else if not (published_since w.zone (phase_start r))
    then (ok tt, w)
    else (stamp_phase_publication env r (signing_horizon env w.zone) >>= λ _ w'.
          end_after_horizon env w'.zone.rollover w')
        w

pub handle_zsk : Env → Phase → RolloverState → Exec (Unit {0})
unfolding handle_pre_publish handle_signing
handle_zsk env pre_publish r = handle_pre_publish env r
handle_zsk env signing r = handle_signing env r
handle_zsk env _ r = done

-- `daysUntilExpiry <= prepublishDays`, on the durations themselves.
abbrev pub is_due : Env → KeyState → Bool
is_due env key = leb key.expires (env.now + env.rollover_prepublish)

kind_text : RolloverType → String
kind_text ksk = "ksk"
kind_text zsk = "zsk"
kind_text algorithm = "algorithm"
kind_text (other s) = s

blocked_warning : Env → KeyState → RolloverType → String
unfolding kind_text
blocked_warning env key kind = str_append "ZSK rollover is due (expires in ~" (
    str_append (env.days_until key.expires env.now) (
      str_append " days) but is blocked by the in-progress " (
        str_append (kind_text kind)
          " rollover; complete that rollover to resume automatic ZSK rollover")))

pub warn_blocked : Env → KeyState → RolloverType → Exec (Unit {0})
unfolding blocked_warning
warn_blocked env key kind w =
    if is_due env key
    then (do mutate (add_warning (blocked_warning env key kind)); save env) w
    else (ok tt, w)

pub check_kind : Env → KeyState → RolloverType → RolloverState → Exec (Unit {0})
unfolding handle_zsk warn_blocked
check_kind env key zsk r = handle_zsk env r.state r
check_kind env key kind r = warn_blocked env key kind

pub check_key : Env → Option KeyState → Option RolloverState → Exec (Unit {0})
unfolding check_kind start_zsk
check_key env none r w = (ok tt, w)
check_key env (some key) (some r) w = check_kind env key r.kind r w
check_key env (some key) none w = if is_due env key then start_zsk env key w else (ok tt, w)

unfoldable pub check_zone_zsk : Env → Exec (Unit {0})
unfolding check_key
check_zone_zsk env w = check_key env w.zone.live_zsk w.zone.rollover w

unfoldable pub check_zsk_rollover : Env → Option World → Result Error (Unit {0}) × Option World
unfolding check_zone_zsk
check_zsk_rollover env = on_zone_if_any (check_zone_zsk env)
