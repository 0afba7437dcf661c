-- ===== src/Scenarios/Rollover.antt =====
-- Scenarios of signer/internal/signer/rollover.go.
use mathlib.Core.Path.{ap, subst}
use mathlib.Core.Option.{some-injective}
use sigillum_dnssec.Prelude.{ℕ, ◌+◌, ◌≤◌, ◌<◌, ◌≡◌, inl, inr, refl, true, false, none, arith}
use sigillum_dnssec.State.{
  KeyState, RolloverState, Phase, ksk_removed, ksk, algorithm, ds_propagation_wait, retiring,
  algo_old_ds_removal_wait, seconds,
}
use sigillum_dnssec.State.Equality.{
  zone_content_equal, signing_equal, keys_rollover_equal, key_state_equal, rollover_state_equal,
}
use sigillum_dnssec.State.Publication.{published_since}
use sigillum_dnssec.State.Diagnostics.{clear_transient_warnings}
use sigillum_dnssec.State.Store.{advance_revision}
use sigillum_dnssec.State.Validate.{HasValidRollover, validate_rollover}
use sigillum_dnssec.Rollover.{ksk_role, zsk_role, save}
use sigillum_dnssec.Rollover.Propagation.{
  stamp_new_key_propagation, push_old_ds_removal, pushed_action, effective_parent_ds_ttl,
  new_keys_propagated,
}
use sigillum_dnssec.Rollover.Validity.{HasFreshTags}
use sigillum_dnssec.Rollover.Ksk.{start_zone_ksk, check_zone_ksk}
use sigillum_dnssec.Rollover.Ksk.Validity.{start_zone_ksk-valid, check_zone_ksk-valid}
use sigillum_dnssec.Rollover.Ksk.Timing.{ksk_retires_after_ds_ttl}
use sigillum_dnssec.Rollover.Ksk.Ending.{ksk_ends_when_served, settled_at_check}
use sigillum_dnssec.Rollover.Zsk.{check_zone_zsk}
use sigillum_dnssec.Rollover.Zsk.Validity.{HasLiveTags, check_zone_zsk-valid}
use sigillum_dnssec.Rollover.Algorithm.{start_zone_algorithm}
use sigillum_dnssec.Rollover.Algorithm.Validity.{start_zone_algorithm-valid}
use sigillum_dnssec.Rollover.Algorithm.Check.{check_zone_algorithm}
use sigillum_dnssec.Rollover.Algorithm.Check.Validity.{check_zone_algorithm-valid}
use sigillum_dnssec.Scenarios.Data.{
  at_second, quiet_zone, rolling, rolling_zone, env_at, world, tests,
}

fresh : (second : ℕ) → HasFreshTags (env_at second) quiet_zone
fresh second ksk_role alg new live staged (inl e) = ground arith
fresh second ksk_role alg new live staged (inr e) = ground arith
fresh second zsk_role alg new live staged (inl e) = ground arith
fresh second zsk_role alg new live staged (inr e) = ground arith

live_tags : (second : ℕ) → HasLiveTags (env_at second)
live_tags second n tag alg e = ground arith

quiet-valid : HasValidRollover tests quiet_zone
unfolding validate_rollover
quiet-valid = refl

start_zone_ksk-valid_example :
    HasValidRollover tests (start_zone_ksk (env_at 2000) (world quiet_zone)).1.zone
start_zone_ksk-valid_example =
    start_zone_ksk-valid tests (env_at 2000) (world quiet_zone) (fresh 2000) quiet-valid

check_zone_ksk-valid_example :
    HasValidRollover tests
      (check_zone_ksk (env_at 99000) (world (rolling_zone ksk ds_propagation_wait))).1.zone
unfolding validate_rollover
check_zone_ksk-valid_example =
    check_zone_ksk-valid tests (env_at 99000) (world (rolling_zone ksk ds_propagation_wait)) refl

check_zone_zsk-valid_example :
    HasValidRollover tests (check_zone_zsk (env_at 8000000) (world quiet_zone)).1.zone
check_zone_zsk-valid_example =
    check_zone_zsk-valid tests (env_at 8000000) (live_tags 8000000) (world quiet_zone)
      (fresh 8000000) quiet-valid

start_zone_algorithm-valid_example :
    HasValidRollover tests (start_zone_algorithm (env_at 2000) "ED25519" (world quiet_zone)).1.zone
start_zone_algorithm-valid_example =
    start_zone_algorithm-valid tests (env_at 2000) "ED25519" (world quiet_zone)
      (λ k e.
        subst (λ alg. tests.is_blank alg ≡ false)
          (ap (λ (live : KeyState). live.alg) (some-injective _ _ e)) refl)
      refl (fresh 2000) quiet-valid

check_zone_algorithm-valid_example :
    HasValidRollover tests
      (check_zone_algorithm
        (env_at 99000)
        (world (rolling_zone algorithm algo_old_ds_removal_wait))).1.zone
unfolding validate_rollover
check_zone_algorithm-valid_example =
    check_zone_algorithm-valid tests (env_at 99000)
      (world (rolling_zone algorithm algo_old_ds_removal_wait)) (λ obs e. ground arith) refl

-- The record after the check of a zone a day and more after the new DS was seen.
abbrev retired : RolloverState
retired = record (rolling ksk ds_propagation_wait) {
  state = retiring;
  phase_started = at_second 99000;
  ds_removal_pushed_at = at_second 99000;
  action = ksk_removed none;
}

ksk_retires_after_ds_ttl_example : at_second 5000 + seconds 86400 ≤ at_second 99000
unfolding check_zone_ksk push_old_ds_removal pushed_action stamp_new_key_propagation
    new_keys_propagated effective_parent_ds_ttl seconds save advance_revision zone_content_equal
    signing_equal keys_rollover_equal key_state_equal rollover_state_equal
ksk_retires_after_ds_ttl_example =
    ksk_retires_after_ds_ttl (env_at 99000) (world (rolling_zone ksk ds_propagation_wait))
      (rolling ksk ds_propagation_wait) retired refl refl refl refl refl

ksk_ends_when_served_example :
    (◌≡◌ {A = Phase} retiring retiring)
    × (at_second 2000 < at_second 3000)
    × (settled_at_check (env_at 99000) (rolling_zone ksk retiring) (rolling ksk retiring) ≡ true)
unfolding check_zone_ksk push_old_ds_removal pushed_action stamp_new_key_propagation
    new_keys_propagated published_since save advance_revision zone_content_equal signing_equal
    keys_rollover_equal key_state_equal rollover_state_equal clear_transient_warnings
ksk_ends_when_served_example =
    ksk_ends_when_served (env_at 99000) (world (rolling_zone ksk retiring)) (rolling ksk retiring)
      refl refl refl
