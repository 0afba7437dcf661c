-- ===== src/Rollover/Propagation.antt =====
-- When a change may be made at the parent or the old key dropped
-- (signer/internal/signer/rollover.go): the TTL floors, the stamp of a rollover's cache horizon,
-- `newKeysPropagated`, and the registrar update that waits for it.
pub mod Laws
use sigillum_dnssec.Prelude.{
  ℕ, ◌+◌, ◌*◌, String, Bool, true, false, not, ◌&&◌, ◌||◌, Option, none, some, ltb, ◌==◌, Result,
  ok, err, if◌then◌else◌,
}
use sigillum_dnssec.State.{
  Time, Duration, is_zero, seconds, KeyState, RolloverState, ZoneState, RolloverType, algorithm,
  Reason, no_rollover, not_served_yet, cached_until, asked_new_only_algorithm, asked_new_only,
  Action,
}
use sigillum_dnssec.State.Publication.{changes_parent, published_since, raise_to}
use sigillum_dnssec.Rollover.{
  Env, World, Exec, ◌>>=◌, ◌>>◌, pure, done, mutate, with_rollover, note, save, published,
  PublishOp, old_ds_removal,
}

-- 24 * time.Hour, which is also config.DefaultParentDSTTL
abbrev pub day : Duration
day = 86400 * 1000000000

unfoldable pub dnskey_ttl_floor : Env → ZoneState → Duration
unfolding seconds
dnskey_ttl_floor env z =
    let ttl : Duration = seconds z.published_dnskey_ttl in
    let ttl' : Duration = raise_to (seconds env.dnskey_ttl) ttl in if ttl' == 0 then day else ttl'

unfoldable pub zsk_retire_floor : Env → ZoneState → Duration
unfolding dnskey_ttl_floor
zsk_retire_floor env z = raise_to (seconds z.published_max_rrsig_ttl) (dnskey_ttl_floor env z)

unfoldable pub new_key_floor : Env → ZoneState → RolloverType → Duration
unfolding zsk_retire_floor dnskey_ttl_floor
new_key_floor env z algorithm = zsk_retire_floor env z
new_key_floor env z _ = dnskey_ttl_floor env z

rrsig_horizon : RolloverType → ZoneState → Time → Time
rrsig_horizon algorithm z horizon = raise_to z.rrsig_cache_horizon horizon
rrsig_horizon _ z horizon = horizon

-- The horizon that `stampNewKeyPropagation` records.
unfoldable pub new_key_horizon : Env → ZoneState → RolloverType → Time
unfolding rrsig_horizon
new_key_horizon env z kind =
    rrsig_horizon kind z
      (raise_to z.dnskey_cache_horizon (z.published_at + new_key_floor env z kind))

abbrev pub stamp_new_key : Time → Time → RolloverState → RolloverState
stamp_new_key published_at horizon r = record r {
  phase_first_signed = published_at;
  phase_horizon = horizon;
}

stamp_rollover : Env → Option RolloverState → Exec (Unit {0})
stamp_rollover env none w = (ok tt, w)
stamp_rollover env (some r) w =
    if not (changes_parent r.kind) || not (is_zero r.phase_horizon)
    then (ok tt, w)
    else if not (published_since w.zone r.started)
    then (ok tt, w)
    else (do
      mutate (with_rollover (stamp_new_key w.zone.published_at (new_key_horizon env w.zone r.kind)))
      save env)
        w

unfoldable pub stamp_new_key_propagation : Env → Exec (Unit {0})
unfolding stamp_rollover published_since
stamp_new_key_propagation env w = stamp_rollover env w.zone.rollover w

not_propagated : ZoneState → Time → Option RolloverState → Option Reason
not_propagated z now none = some no_rollover
not_propagated z now (some r) =
    if not (published_since z r.started) || is_zero r.phase_horizon
    then some not_served_yet
    else if ltb now r.phase_horizon
    then some (cached_until r.phase_horizon)
    else none

-- The reason why the parent's DS set may not change yet; `none` where it may.
unfoldable pub new_keys_propagated : ZoneState → Time → Option Reason
unfolding not_propagated published_since
new_keys_propagated z now = not_propagated z now z.rollover

-- `oldDSRemovalAdvice`: the text is made from the reason, if there is one.
abbrev pub old_ds_removal_advice : ZoneState → Time → Option Reason
old_ds_removal_advice z now = new_keys_propagated z now

unfoldable pub pushed_action : RolloverType → String → Action
pushed_action algorithm alg = asked_new_only_algorithm alg
pushed_action _ alg = asked_new_only

abbrev pub note_pushed : Time → RolloverState → RolloverState
note_pushed now r = record r {
  ds_removal_pushed_at = now;
  action = pushed_action r.kind r.new_algorithm;
}

-- What the registrar automation answered: an error is left to a retry, and `false` means that the
-- zone has no automation.
after_push : Env → Result String Bool → Exec Bool
unfolding pushed_action
after_push env (err e) w = (ok false, w)
after_push env (ok false) w = (ok true, w)
after_push env (ok true) w =
    (do
      note (published old_ds_removal)
      mutate (with_rollover (note_pushed env.later))
      save env
      pure true)
      w

push_rollover : Env → Option (PublishOp → Result String Bool) → Option RolloverState → Exec Bool
unfolding after_push new_keys_propagated
push_rollover env none r w = (ok true, w)
push_rollover env (some publish) none w = (ok true, w)
push_rollover env (some publish) (some r) w =
    if not (is_zero r.ds_removal_pushed_at)
    then (ok true, w)
    else elim (new_keys_propagated w.zone env.later) [
      | some reason ↦ (ok false, w)
      | none ↦ after_push env (publish old_ds_removal) w
    ]

unfoldable pub push_old_ds_removal : Env → Exec Bool
unfolding push_rollover
push_old_ds_removal env w = push_rollover env env.publisher w.zone.rollover w

-- A recorded parent DS TTL of 0 means the conservative default.
unfoldable pub effective_parent_ds_ttl : ℕ → Duration
effective_parent_ds_ttl ttl = if ttl == 0 then day else seconds ttl
