-- ===== src/Rollover/Ksk/Validity.antt =====
-- The operations of a KSK rollover (signer/internal/signer/rollover.go) leave a record that
-- `validateRolloverState` (signer/internal/state/state.go) accepts.
use sigillum_dnssec.Prelude.{
  ℕ, ◌≤◌, ◌≡◌, ◌≢◌, inl, String, refl, Bool, Option, none, some, arith, ok,
}
use sigillum_dnssec.State.{
  Time, KeyState, RolloverState, RolloverType, ksk, Phase, ds_add_wait, ds_propagation_wait,
  retiring,
}
use sigillum_dnssec.State.Validate.{
  TextTests, HasValidRollover, validate_rollover, max_dns_ttl_seconds,
}
use sigillum_dnssec.State.Diagnostics.{clear_transient_warnings}
use sigillum_dnssec.Rollover.{
  Env, World, save, ksk_role, backup_key, stage_key, save_start, activate_recorded,
}
use sigillum_dnssec.Rollover.Keeps.{Leads, Leads-bind}
use sigillum_dnssec.Rollover.Saves.{save_fields}
use sigillum_dnssec.Rollover.Propagation.{stamp_new_key_propagation, push_old_ds_removal}
use sigillum_dnssec.Rollover.Propagation.Laws.{stamp_view, push_view}
use sigillum_dnssec.Rollover.Validity.{
  IsValidAt, HasFreshTags, stamp-HasValidRollover, push-HasValidRollover,
}
use sigillum_dnssec.Rollover.Ksk.{
  start_zone_ksk, start_ksk, start_ksk_with, complete_zone_ksk, complete_ksk, complete_rollover,
  ksk_observed, or_fallback, check_zone_ksk, retire_ksk, finish_ksk, ksk_phase, check_ksk,
  check_rollover,
}
use sigillum_dnssec.Rollover.Ksk.Laws.{retire_view, finish_view}

module _ (t : TextTests) (env : Env) where
  stamp-IsAt :
      (phase : Phase)
      → Leads (IsValidAt t ksk phase) (IsValidAt t ksk phase) (stamp_new_key_propagation env)
  stamp-IsAt phase w h = (stamp-HasValidRollover t env w h.0, ground (arith, stamp_view env w))

  push-IsAt :
      (phase : Phase)
      → Leads (IsValidAt t ksk phase) (IsValidAt t ksk phase) (push_old_ds_removal env)
  push-IsAt phase w h = (push-HasValidRollover t env w h.0, ground (arith, push_view env w))

  retire-valid :
      (r : RolloverState) (w : World)
      → w.zone.rollover ≡ some r
      → IsValidAt t ksk ds_propagation_wait w.zone
      → HasValidRollover t (retire_ksk env (some r) w).1.zone
  unfolding validate_rollover
  retire-valid r w e h = ground (arith, retire_view env w r)

  finish-valid :
      (settled : Bool) (r : RolloverState) (w : World)
      → w.zone.rollover ≡ some r
      → IsValidAt t ksk retiring w.zone
      → HasValidRollover t (finish_ksk env settled (some r) w).1.zone
  unfolding validate_rollover clear_transient_warnings
  finish-valid settled r w e h = ground (arith, finish_view env w settled r)

  retire-valid_any :
      (o : Option RolloverState) (w : World)
      → w.zone.rollover ≡ o
      → IsValidAt t ksk ds_propagation_wait w.zone
      → HasValidRollover t (retire_ksk env o w).1.zone
  retire-valid_any none w e h = unfold retire_ksk in h.0
  retire-valid_any (some r) w e h = retire-valid r w e h

  finish-valid_any :
      (settled : Bool) (o : Option RolloverState) (w : World)
      → w.zone.rollover ≡ o
      → IsValidAt t ksk retiring w.zone
      → HasValidRollover t (finish_ksk env settled o w).1.zone
  finish-valid_any settled none w e h = unfold finish_ksk in h.0
  finish-valid_any settled (some r) w e h = finish-valid settled r w e h

  phase-valid :
      (phase : Phase) → Leads (IsValidAt t ksk phase) (HasValidRollover t) (ksk_phase env phase)
  unfolding ksk_phase
  phase-valid ds_propagation_wait =
      Leads-bind (IsValidAt t ksk ds_propagation_wait) (IsValidAt t ksk ds_propagation_wait)
        (HasValidRollover t) (λ z h. h.0) (push_old_ds_removal env) _
        (push-IsAt ds_propagation_wait) (λ settled w h. retire-valid_any w.zone.rollover w refl h)
  phase-valid retiring =
      Leads-bind (IsValidAt t ksk retiring) (IsValidAt t ksk retiring) (HasValidRollover t)
        (λ z h. h.0) (push_old_ds_removal env) _ (push-IsAt retiring)
        (λ settled w h. finish-valid_any settled w.zone.rollover w refl h)
  phase-valid _ = λ w h. h.0

  check-valid :
      (kind : RolloverType) (phase : Phase)
      → Leads (IsValidAt t kind phase) (HasValidRollover t) (check_ksk env kind phase)
  unfolding check_ksk
  check-valid ksk phase =
      Leads-bind (IsValidAt t ksk phase) (IsValidAt t ksk phase) (HasValidRollover t) (λ z h. h.0)
        (stamp_new_key_propagation env) _ (stamp-IsAt phase) (λ _. phase-valid phase)
  check-valid _ phase = λ w h. h.0

  check_valid_any :
      (o : Option RolloverState) (w : World)
      → w.zone.rollover ≡ o
      → HasValidRollover t w.zone
      → HasValidRollover t (check_rollover env o w).1.zone
  unfolding check_rollover
  check_valid_any none w e h = h
  check_valid_any (some r) w e h = check-valid r.kind r.state w (h, ground arith)

  -- From a zone whose rollover record is valid, the automatic check of a KSK rollover leaves a
  -- zone whose rollover record is valid, also where a save or the registrar fails.
  pub check_zone_ksk-valid : Leads (HasValidRollover t) (HasValidRollover t) (check_zone_ksk env)
  unfolding check_zone_ksk
  check_zone_ksk-valid w h = check_valid_any w.zone.rollover w refl h

  start_with-valid :
      (old : KeyState) (w : World)
      → w.zone.rollover ≡ none
      → ((alg : String) (new : KeyState) → env.stage ksk_role alg ≡ ok new → new.id ≢ old.id)
      → HasValidRollover t (start_ksk_with env old w).1.zone
  unfolding validate_rollover start_ksk_with backup_key stage_key save_start activate_recorded
  start_with-valid old w none_yet fresh = grind (arith, save_fields, fresh)

  observed-valid :
      (at : Time) (ttl : ℕ) (w : World)
      → or_fallback env ttl ≤ max_dns_ttl_seconds
      → IsValidAt t ksk ds_add_wait w.zone
      → HasValidRollover t
          (save env (record w { zone = ksk_observed env at (or_fallback env ttl) w.zone })).1.zone
  unfolding validate_rollover clear_transient_warnings
  observed-valid at ttl w bound h = ground (
    arith,
    save_fields env (record w { zone = ksk_observed env at (or_fallback env ttl) w.zone }),
  )

  complete-valid :
      (at : Time) (ttl : ℕ) (kind : RolloverType) (phase : Phase)
      → ttl ≤ max_dns_ttl_seconds
      → env.parent_ds_ttl_fallback ≤ max_dns_ttl_seconds
      → Leads (IsValidAt t kind phase) (HasValidRollover t) (complete_ksk env at ttl kind phase)
  unfolding complete_ksk
  complete-valid at ttl ksk ds_add_wait bound fallback_bound =
      Leads-bind (IsValidAt t ksk ds_add_wait) (IsValidAt t ksk ds_add_wait) (HasValidRollover t)
        (λ z h. h.0) (stamp_new_key_propagation env) _ (stamp-IsAt ds_add_wait)
        (λ _ w h. observed-valid at ttl w (ground arith) h)
  complete-valid at ttl _ phase bound fallback_bound = λ w h. h.0

  start-valid_any :
      (r : Option RolloverState) (key : Option KeyState) (w : World)
      → w.zone.rollover ≡ r
      → w.zone.live_ksk ≡ key
      → HasFreshTags env w.zone
      → HasValidRollover t w.zone
      → HasValidRollover t (start_ksk env r key w).1.zone
  unfolding start_ksk
  start-valid_any (some r) key w er ek fresh h = h
  start-valid_any none none w er ek fresh h = h
  start-valid_any none (some old) w er ek fresh h =
      start_with-valid old w er (λ alg new e. fresh ksk_role alg new old e (inl ek))

  -- Starting a KSK rollover leaves a valid record, whether it succeeds or fails, at whatever
  -- step: where new tags differ from the live ones and the record before was valid.
  pub start_zone_ksk-valid :
      (w : World)
      → HasFreshTags env w.zone
      → HasValidRollover t w.zone
      → HasValidRollover t (start_zone_ksk env w).1.zone
  unfolding start_zone_ksk
  start_zone_ksk-valid w fresh h =
      start-valid_any w.zone.rollover w.zone.live_ksk w refl refl fresh h

  complete-valid_any :
      (at : Time) (ttl : ℕ) (o : Option RolloverState) (w : World)
      → w.zone.rollover ≡ o
      → ttl ≤ max_dns_ttl_seconds
      → env.parent_ds_ttl_fallback ≤ max_dns_ttl_seconds
      → HasValidRollover t w.zone
      → HasValidRollover t (complete_rollover env at ttl o w).1.zone
  unfolding complete_rollover
  complete-valid_any at ttl none w e bound fallback_bound h = h
  complete-valid_any at ttl (some r) w e bound fallback_bound h =
      complete-valid at ttl r.kind r.state bound fallback_bound w (h, ground arith)

  -- Confirming the new DS leaves a valid record, where the record before was valid
  -- and the TTLs are TTLs of DNS.
  pub complete_zone_ksk-valid :
      (at : Time) (ttl : ℕ) (w : World)
      → ttl ≤ max_dns_ttl_seconds
      → env.parent_ds_ttl_fallback ≤ max_dns_ttl_seconds
      → HasValidRollover t w.zone
      → HasValidRollover t (complete_zone_ksk env at ttl w).1.zone
  unfolding complete_zone_ksk
  complete_zone_ksk-valid at ttl w bound fallback_bound h =
      complete-valid_any at ttl w.zone.rollover w refl bound fallback_bound h
