-- ===== src/Scenarios/Timing.antt =====
-- Scenarios of the order and the times of signer/internal/signer/rollover.go.
use sigillum_dnssec.Prelude.{◌+◌, ◌≤◌, ◌<◌, ◌≡◌, refl, true, none, some, [], ◌∷◌}
use sigillum_dnssec.State.{
  RolloverState, zsk, ksk, algorithm, pre_publish, signing, retiring, algo_old_ds_removal_wait,
  zsk_signing,
}
use sigillum_dnssec.State.Equality.{
  zone_content_equal, signing_equal, keys_rollover_equal, key_state_equal, rollover_state_equal,
}
use sigillum_dnssec.State.Store.{not_written, advance_revision}
use sigillum_dnssec.State.Publication.{published_since}
use sigillum_dnssec.State.Diagnostics.{clear_transient_warnings}
use sigillum_dnssec.Rollover.{Env, save}
use sigillum_dnssec.Rollover.Ksk.{start_zone_ksk}
use sigillum_dnssec.Rollover.Ksk.Registrar.{checks, installs, unasked, ds_removal_installed_once}
use sigillum_dnssec.Rollover.Zsk.{start_zsk, check_zone_zsk}
use sigillum_dnssec.Rollover.Zsk.Timing.{zsk_switches_after_horizon, zsk_ends_after_horizon}
use sigillum_dnssec.Rollover.Algorithm.{start_zone_algorithm}
use sigillum_dnssec.Rollover.Algorithm.Check.{check_zone_algorithm}
use sigillum_dnssec.Rollover.Algorithm.Check.Timing.{Moves, algorithm_waits_for_old_ds}
use sigillum_dnssec.Rollover.Recorded.{
  recorded, committed, activations, is_error, starts_activate_recorded_keys,
  unsaved_ksk_start_undone,
}
use sigillum_dnssec.Scenarios.Data.{
  at_second, key, quiet_zone, rolling, rolling_zone, env_at, world,
}

-- The record after the check of the ZSK a week and more into the rollover.
abbrev switched : RolloverState
switched = record (rolling zsk pre_publish) {
  state = signing;
  phase_started = at_second 700000;
  phase_first_signed = 0;
  phase_horizon = 0;
  action = zsk_signing;
}

zsk_switches_after_horizon_example :
    (at_second 2000 + at_second 604800 ≤ at_second 700000)
    × (at_second 2000 < at_second 3000)
    × (at_second 6600 ≤ at_second 700000)
unfolding check_zone_zsk published_since save advance_revision zone_content_equal signing_equal
    keys_rollover_equal key_state_equal rollover_state_equal
zsk_switches_after_horizon_example =
    zsk_switches_after_horizon (env_at 700000) (world (rolling_zone zsk pre_publish))
      (key 22 "ED25519") (rolling zsk pre_publish) switched refl refl refl refl refl refl

zsk_ends_after_horizon_example :
    (at_second 2000 + at_second 604800 ≤ at_second 700000)
    × (at_second 2000 < at_second 3000)
    × (at_second 6600 ≤ at_second 700000)
unfolding check_zone_zsk published_since save advance_revision zone_content_equal signing_equal
    keys_rollover_equal key_state_equal rollover_state_equal clear_transient_warnings
zsk_ends_after_horizon_example =
    zsk_ends_after_horizon (env_at 700000) (world (rolling_zone zsk signing)) (key 22 "ED25519")
      (rolling zsk signing) refl refl refl refl refl

algorithm_waits_for_old_ds_example :
    Moves
      (env_at 99000)
      (rolling algorithm algo_old_ds_removal_wait)
      (check_zone_algorithm
        (env_at 99000)
        (world (rolling_zone algorithm algo_old_ds_removal_wait))).1.zone.rollover
algorithm_waits_for_old_ds_example =
    algorithm_waits_for_old_ds (env_at 99000)
      (world (rolling_zone algorithm algo_old_ds_removal_wait))
      (rolling algorithm algo_old_ds_removal_wait) refl refl refl

starts_activate_recorded_keys_example :
    (recorded (start_zone_ksk (env_at 2000) (world quiet_zone)).1.effects ≡ true)
    × (recorded (start_zsk (env_at 2000) (key 12 "ED25519") (world quiet_zone)).1.effects ≡ true)
    × (recorded (start_zone_algorithm (env_at 2000) "ED25519" (world quiet_zone)).1.effects ≡ true)
unfolding recorded
starts_activate_recorded_keys_example =
    starts_activate_recorded_keys (env_at 2000) "ED25519" (key 12 "ED25519") (world quiet_zone) refl

-- An environment whose disk is full.
abbrev full : Env
full = record (env_at 2000) { save_outcome = λ n. not_written }

unsaved_ksk_start_undone_example :
    (is_error (start_zone_ksk full (world quiet_zone)).0 ≡ true)
    × (let w' = (start_zone_ksk full (world quiet_zone)).1 in
        (w'.zone.rollover ≡ none)
        × (w'.zone.live_ksk ≡ some (key 11 "ECDSAP256SHA256"))
        × (w'.zone.live_zsk ≡ some (key 12 "ECDSAP256SHA256"))
        × (w'.base ≡ some quiet_zone)
        × (committed w'.effects ≡ none)
        × (activations w'.effects ≡ []))
unfolding committed activations
unsaved_ksk_start_undone_example = unsaved_ksk_start_undone full (world quiet_zone) refl refl

ds_removal_installed_once_example :
    installs (checks (env_at 99000 ∷ env_at 99100 ∷ []) (world (rolling_zone ksk retiring))).effects
    ≤ 1
unfolding installs unasked
ds_removal_installed_once_example =
    ds_removal_installed_once (env_at 99000 ∷ env_at 99100 ∷ []) (world (rolling_zone ksk retiring))
