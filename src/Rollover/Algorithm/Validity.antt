-- ===== src/Rollover/Algorithm/Validity.antt =====
-- Starting an algorithm rollover and confirming its new DS (signer/internal/signer/rollover.go)
-- leave a record that `validateRolloverState` (signer/internal/state/state.go) accepts.
use sigillum_dnssec.Prelude.{
  ℕ, ◌≤◌, ◌≡◌, ◌≢◌, inl, inr, String, str_eq, refl, false, Option, none, some, arith, ok,
  Bool-cases,
}
use sigillum_dnssec.State.{
  Time, KeyState, RolloverState, RolloverType, algorithm, Phase, algo_ds_add_wait,
}
use sigillum_dnssec.State.Validate.{
  TextTests, HasValidRollover, validate_rollover, max_dns_ttl_seconds,
}
use sigillum_dnssec.State.Diagnostics.{clear_transient_warnings}
use sigillum_dnssec.Rollover.{
  Env, World, save, ksk_role, zsk_role, backup_key, stage_key, save_start, activate_recorded,
}
use sigillum_dnssec.Rollover.Keeps.{Leads, Leads-bind}
use sigillum_dnssec.Rollover.Saves.{save_fields}
use sigillum_dnssec.Rollover.Propagation.{stamp_new_key_propagation}
use sigillum_dnssec.Rollover.Propagation.Laws.{stamp_view}
use sigillum_dnssec.Rollover.Validity.{IsValidAt, HasFreshTags, stamp-HasValidRollover}
use sigillum_dnssec.Rollover.Ksk.{or_fallback}
use sigillum_dnssec.Rollover.Algorithm.{
  start_zone_algorithm, start_algorithm, start_algorithm_with, record_algorithm, algorithm_started,
  complete_zone_algorithm, complete_algorithm, complete_rollover, algorithm_observed,
}

module _ (t : TextTests) (env : Env) where
  pub stamp-IsAt :
      (phase : Phase)
      → Leads
          (IsValidAt t algorithm phase)
          (IsValidAt t algorithm phase)
          (stamp_new_key_propagation env)
  stamp-IsAt phase w h = (stamp-HasValidRollover t env w h.0, ground (arith, stamp_view env w))

  record-valid :
      (target : String) (k z new_ksk new_zsk : KeyState) (w : World)
      → str_eq k.alg target ≡ false
      → t.is_blank k.alg ≡ false
      → t.is_blank target ≡ false
      → new_ksk.id ≢ k.id
      → new_zsk.id ≢ z.id
      → HasValidRollover t (record_algorithm env target k z new_ksk new_zsk w).1.zone
  unfolding validate_rollover record_algorithm save_start activate_recorded
  record-valid target k z new_ksk new_zsk w differs named named' fresh fresh' = ground (
    arith,
    save_fields env (record w { zone = algorithm_started env target k z new_ksk new_zsk w.zone }),
  )

  start_with-valid :
      (target : String) (k z : KeyState) (w : World)
      → str_eq k.alg target ≡ false
      → t.is_blank k.alg ≡ false
      → t.is_blank target ≡ false
      → HasValidRollover t w.zone
      → ((new : KeyState) → env.stage ksk_role target ≡ ok new → new.id ≢ k.id)
      → ((new : KeyState) → env.stage zsk_role target ≡ ok new → new.id ≢ z.id)
      → HasValidRollover t (start_algorithm_with env target k z w).1.zone
  unfolding start_algorithm_with backup_key stage_key
  start_with-valid target k z w differs named named' h fresh_ksk fresh_zsk =
      grind (arith, record-valid target k z, fresh_ksk, fresh_zsk)

  start-valid_any :
      (target : String) (o : Option RolloverState) (k z : Option KeyState) (w : World)
      → w.zone.rollover ≡ o
      → w.zone.live_ksk ≡ k
      → w.zone.live_zsk ≡ z
      → ((key : KeyState) → w.zone.live_ksk ≡ some key → t.is_blank key.alg ≡ false)
      → t.is_blank target ≡ false
      → HasFreshTags env w.zone
      → HasValidRollover t w.zone
      → HasValidRollover t (start_algorithm env target o k z w).1.zone
  unfolding start_algorithm
  start-valid_any target (some r) k z w eo ek ez named named' fresh h = h
  start-valid_any target none none z w eo ek ez named named' fresh h = h
  start-valid_any target none (some k) none w eo ek ez named named' fresh h = h
  start-valid_any target none (some k) (some z) w eo ek ez named named' fresh h =
      elim (Bool-cases (str_eq k.alg target)) [
        | inl same ↦ rw same h
        | inr differs ↦ rw differs (
            start_with-valid target k z w differs (named k ek) named' h
              (λ new e. fresh ksk_role target new k e (inl ek))
              (λ new e. fresh zsk_role target new z e (inr ez)))
      ]

  -- Starting an algorithm rollover leaves a valid record at whatever step it stops, where the
  -- algorithms have names, new tags differ from the live ones and the record before was valid.
  pub start_zone_algorithm-valid :
      (target : String) (w : World)
      → ((key : KeyState) → w.zone.live_ksk ≡ some key → t.is_blank key.alg ≡ false)
      → t.is_blank target ≡ false
      → HasFreshTags env w.zone
      → HasValidRollover t w.zone
      → HasValidRollover t (start_zone_algorithm env target w).1.zone
  unfolding start_zone_algorithm
  start_zone_algorithm-valid target w =
      start-valid_any target w.zone.rollover w.zone.live_ksk w.zone.live_zsk w refl refl refl

  observed-valid :
      (at : Time) (ttl : ℕ) (w : World)
      → or_fallback env ttl ≤ max_dns_ttl_seconds
      → IsValidAt t algorithm algo_ds_add_wait w.zone
      → HasValidRollover t
          (save env
            (record w { zone = algorithm_observed env at (or_fallback env ttl) w.zone })).1.zone
  unfolding validate_rollover clear_transient_warnings
  observed-valid at ttl w bound h = ground (
    arith,
    save_fields env (record w { zone = algorithm_observed env at (or_fallback env ttl) w.zone }),
  )

  complete-valid :
      (at : Time) (ttl : ℕ) (kind : RolloverType) (phase : Phase)
      → ttl ≤ max_dns_ttl_seconds
      → env.parent_ds_ttl_fallback ≤ max_dns_ttl_seconds
      → Leads
          (IsValidAt t kind phase)
          (HasValidRollover t)
          (complete_algorithm env at ttl kind phase)
  unfolding complete_algorithm
  complete-valid at ttl algorithm algo_ds_add_wait bound fallback_bound =
      Leads-bind (IsValidAt t algorithm algo_ds_add_wait) (IsValidAt t algorithm algo_ds_add_wait)
        (HasValidRollover t) (λ z h. h.0) (stamp_new_key_propagation env) _
        (stamp-IsAt algo_ds_add_wait) (λ _ w h. observed-valid at ttl w (ground arith) h)
  complete-valid at ttl _ phase bound fallback_bound = λ w h. h.0

  complete-valid_any :
      (at : Time) (ttl : ℕ) (o : Option RolloverState) (w : World)
      → w.zone.rollover ≡ o
      → ttl ≤ max_dns_ttl_seconds
      → env.parent_ds_ttl_fallback ≤ max_dns_ttl_seconds
      → HasValidRollover t w.zone
      → HasValidRollover t (complete_rollover env at ttl o w).1.zone
  unfolding complete_rollover
  complete-valid_any at ttl none w e bound fallback_bound h = h
  complete-valid_any at ttl (some r) w e bound fallback_bound h =
      complete-valid at ttl r.kind r.state bound fallback_bound w (h, ground arith)

  -- Confirming the new-algorithm DS leaves a valid record, where the record before was valid
  -- and the TTLs are TTLs of DNS.
  pub complete_zone_algorithm-valid :
      (at : Time) (ttl : ℕ) (w : World)
      → ttl ≤ max_dns_ttl_seconds
      → env.parent_ds_ttl_fallback ≤ max_dns_ttl_seconds
      → HasValidRollover t w.zone
      → HasValidRollover t (complete_zone_algorithm env at ttl w).1.zone
  unfolding complete_zone_algorithm
  complete_zone_algorithm-valid at ttl w = complete-valid_any at ttl w.zone.rollover w refl
