-- ===== src/Rollover/Algorithm/Check.antt =====
-- The automatic phases of an algorithm rollover (signer/internal/signer/rollover.go):
-- `CheckAlgorithmRollover` and `advanceAlgorithmDSAdd`.
pub mod Views
pub mod Timing
pub mod Validity
use sigillum_dnssec.Prelude.{
  ℕ, ◌+◌, String, str_append, Bool, true, false, not, ◌&&◌, ◌||◌, Option, none, some, ltb, ◌==◌,
  is_yes, ◌∷◌, Result, ok, err, if◌then◌else◌,
}
use sigillum_dnssec.State.{
  Time, Duration, is_zero, KeyState, RolloverState, ZoneState, RolloverType, algorithm, Phase,
  algo_ds_add_wait, algo_ds_propagation_wait, algo_old_ds_removal_wait, algo_retiring, Action,
  Action-discrete, Reason, algorithm_not_yet, algorithm_added, algorithm_manual,
  algorithm_add_failed, remove_old_ds, old_ds_gone, algorithm_removed,
}
use sigillum_dnssec.State.Publication.{published_since}
use sigillum_dnssec.Rollover.{
  Env, World, Exec, ◌>>=◌, ◌>>◌, pure, done, mutate, with_rollover, save, published, PublishOp,
  new_ds_add, Observation, Error, key_files, on_zone_if_any,
}
use sigillum_dnssec.Rollover.Propagation.{
  stamp_new_key_propagation, new_keys_propagated, push_old_ds_removal, old_ds_removal_advice,
  effective_parent_ds_ttl,
}
use sigillum_dnssec.Rollover.Ksk.{rollover_ended}
use sigillum_dnssec.Rollover.Algorithm.Blocked.{note_blocked_phase, clear_blocked_phase}

abbrev pub added_at : Time → RolloverState → RolloverState
added_at now r = record r { ds_add_pushed_at = now }

-- What the registrar automation answered to the new DS, and the text that follows.
add_answered : Env → String → Result String Bool → World → Action × World
add_answered env alg (err e) w = (algorithm_add_failed alg env.domain, w)
add_answered env alg (ok false) w = (algorithm_manual alg env.domain, w)
add_answered env alg (ok true) w = (
  algorithm_added alg env.domain,
  record w {
    zone = with_rollover (added_at env.now) w.zone;
    effects = published new_ds_add ∷ w.effects;
  },
)

ask_to_add : Env → String → Option (PublishOp → Result String Bool) → World → Action × World
unfolding add_answered
ask_to_add env alg none w = (algorithm_manual alg env.domain, w)
ask_to_add env alg (some publish) w = add_answered env alg (publish new_ds_add) w

-- The `switch` that finds the text, and adds the new DS where that is due.
unfoldable pub choose_action : Env → RolloverState → World → Action × World
unfolding ask_to_add new_keys_propagated
choose_action env r w = elim (new_keys_propagated w.zone env.now) [
  | some reason ↦ (algorithm_not_yet reason r.new_algorithm env.domain, w)
  | none ↦
      if not (is_zero r.ds_add_pushed_at)
      then (algorithm_added r.new_algorithm env.domain, w)
      else ask_to_add env r.new_algorithm env.publisher w
]

-- The state is saved where the text changed or the new DS was added just now.
pub save_action : Env → Action → Option RolloverState → Exec (Unit {0})
save_action env action none w = (ok tt, w)
save_action env action (some r) w =
    if is_yes (Action-discrete r.action action)
      && (is_zero r.ds_add_pushed_at || not (r.ds_add_pushed_at == env.now))
    then (ok tt, w)
    else (do mutate (with_rollover (λ r. record r { action = action })); save env) w

unfoldable pub advance_algorithm_ds_add : Env → RolloverState → Exec (Unit {0})
unfolding choose_action save_action
advance_algorithm_ds_add env r w =
    let (action, w') = choose_action env r w in save_action env action w'.zone.rollover w'

abbrev pub removal_begun : Env → ZoneState → ZoneState
removal_begun env z =
    with_rollover
      (λ r. record r {
        state = algo_old_ds_removal_wait;
        phase_started = env.now;
        action = remove_old_ds r.old_algorithm r.old_key_id (old_ds_removal_advice z env.now);
      })
      z

pub wait_ds_propagation : Env → RolloverState → Exec (Unit {0})
wait_ds_propagation env r w =
    if ltb env.now (r.ds_observed_at + effective_parent_ds_ttl r.parent_ds_ttl)
    then (ok tt, w)
    else (do mutate (removal_begun env); save env; push_old_ds_removal env >>= λ settled. done) w

unfoldable pub max_uint32 : ℕ → ℕ → ℕ
max_uint32 a b = if ltb b a then a else b

-- `ttlSeen`: the observed TTL, or the recorded one where the observation has none.
abbrev ttl_seen : Observation → RolloverState → ℕ
ttl_seen obs r = if obs.ttl == 0 then r.parent_ds_ttl else obs.ttl

abbrev pub old_ds_seen_gone : Env → Observation → RolloverState → RolloverState
old_ds_seen_gone env obs r =
    let seen = ttl_seen obs r in
    record r {
      old_ds_removed_at = env.now;
      parent_ds_ttl = if ltb r.parent_ds_ttl seen then seen else r.parent_ds_ttl;
      action = old_ds_gone (env.now + effective_parent_ds_ttl (max_uint32 seen r.parent_ds_ttl));
    }

pub after_observation : Env → Observation → Option RolloverState → Exec (Unit {0})
unfolding max_uint32
after_observation env obs none w = (ok tt, w)
after_observation env obs (some r) w =
    if not (obs.absent_on_all r.old_key_id)
    then (ok tt, w)
    else (do mutate (with_rollover (old_ds_seen_gone env obs)); save env) w

pub after_probe : Env → Result String Observation → Exec (Unit {0})
unfolding after_observation
after_probe env (err e) =
    note_blocked_phase env
      (str_append "the parent DS probe failed (" (str_append e "); it is retried every cycle"))
after_probe env (ok obs) =
    clear_blocked_phase env >>= λ _ w. after_observation env obs w.zone.rollover w

pub probe_parent : Env → Option (Result String Observation) → RolloverState → Exec (Unit {0})
unfolding after_probe
probe_parent env none r w = (ok tt, w)
probe_parent env (some answer) r w = elim (env.load_public_key r.old_key_id) [
  | some e ↦ (err (key_files e), w)
  | none ↦ after_probe env answer w
]

abbrev pub algorithm_retired : Env → ZoneState → ZoneState
algorithm_retired env z =
    let z' =
      with_rollover
        (λ r. record r {
          state = algo_retiring;
          phase_started = env.now;
          action = algorithm_removed;
        })
        z in
    record z' { force_resign = true }

pub wait_old_ds_removal : Env → RolloverState → Exec (Unit {0})
unfolding probe_parent
wait_old_ds_removal env r w =
    if is_zero r.old_ds_removed_at
    then (push_old_ds_removal env >>= λ settled. probe_parent env env.probe r) w
    else if ltb env.now (r.old_ds_removed_at + effective_parent_ds_ttl r.parent_ds_ttl)
    then (ok tt, w)
    else (do mutate (algorithm_retired env); save env) w

pub finish_algorithm : Env → RolloverState → Exec (Unit {0})
finish_algorithm env r w =
    if not (published_since w.zone r.phase_started)
    then (ok tt, w)
    else (do mutate rollover_ended; save env) w

pub algorithm_phase : Env → Phase → RolloverState → Exec (Unit {0})
unfolding wait_ds_propagation wait_old_ds_removal finish_algorithm
algorithm_phase env algo_ds_add_wait r = advance_algorithm_ds_add env r
algorithm_phase env algo_ds_propagation_wait r = wait_ds_propagation env r
algorithm_phase env algo_old_ds_removal_wait r = wait_old_ds_removal env r
algorithm_phase env algo_retiring r = finish_algorithm env r
algorithm_phase env _ r = done

-- The phase's step on the record as the stamp left it.
pub dispatch_algorithm : Env → Option RolloverState → Exec (Unit {0})
unfolding algorithm_phase
dispatch_algorithm env none w = (ok tt, w)
dispatch_algorithm env (some r) w = algorithm_phase env r.state r w

pub check_algorithm : Env → RolloverType → Exec (Unit {0})
unfolding dispatch_algorithm
check_algorithm env algorithm =
    stamp_new_key_propagation env >>= λ _ w. dispatch_algorithm env w.zone.rollover w
check_algorithm env _ = done

pub check_rollover : Env → Option RolloverState → Exec (Unit {0})
unfolding check_algorithm
check_rollover env none w = (ok tt, w)
check_rollover env (some r) w = check_algorithm env r.kind w

unfoldable pub check_zone_algorithm : Env → Exec (Unit {0})
unfolding check_rollover
check_zone_algorithm env w = check_rollover env w.zone.rollover w

unfoldable pub check_algorithm_rollover :
    Env → Option World → Result Error (Unit {0}) × Option World
unfolding check_zone_algorithm
check_algorithm_rollover env = on_zone_if_any (check_zone_algorithm env)
