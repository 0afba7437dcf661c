-- ===== src/Rollover/Algorithm/Check/Validity.antt =====
-- The automatic phases of an algorithm rollover (signer/internal/signer/rollover.go) leave a
-- record that `validateRolloverState` (signer/internal/state/state.go) accepts.
use sigillum_dnssec.Prelude.{◌≤◌, ◌≡◌, String, refl, Option, none, some, arith, Result, ok, err}
use sigillum_dnssec.State.{
  ZoneState, RolloverState, RolloverType, algorithm, Phase, Action, algo_ds_add_wait,
  algo_ds_propagation_wait, algo_old_ds_removal_wait, algo_retiring,
}
use sigillum_dnssec.State.Validate.{
  TextTests, HasValidRollover, validate_rollover, max_dns_ttl_seconds,
}
use sigillum_dnssec.State.Diagnostics.{clear_transient_warnings}
use sigillum_dnssec.Rollover.{Env, World, save, ◌>>=◌, done, Observation}
use sigillum_dnssec.Rollover.Keeps.{Leads, Leads-bind}
use sigillum_dnssec.Rollover.Saves.{save_fields}
use sigillum_dnssec.Rollover.Propagation.{stamp_new_key_propagation, push_old_ds_removal}
use sigillum_dnssec.Rollover.Propagation.Laws.{push_view}
use sigillum_dnssec.Rollover.Validity.{IsValidAt, save-HasValidRollover, push-HasValidRollover}
use sigillum_dnssec.Rollover.Algorithm.Validity.{stamp-IsAt}
use sigillum_dnssec.Rollover.Algorithm.Blocked.{note_blocked_phase, clear_blocked_phase}
use sigillum_dnssec.Rollover.Algorithm.Check.{
  choose_action, save_action, advance_algorithm_ds_add, removal_begun, wait_ds_propagation,
  after_observation, after_probe, probe_parent, algorithm_retired, wait_old_ds_removal,
  finish_algorithm, algorithm_phase, dispatch_algorithm, check_algorithm, check_rollover,
  check_zone_algorithm,
}
use sigillum_dnssec.Rollover.Algorithm.Check.Views.{observation_view, finish_view}

-- The parent's servers report a TTL of DNS.
abbrev pub HasDnsTtl : Env → Type 0
HasDnsTtl env = (obs : Observation) → env.probe ≡ some (ok obs) → obs.ttl ≤ max_dns_ttl_seconds

module _ (t : TextTests) (env : Env) where
  abbrev At : Phase → ZoneState → Type 0
  At = IsValidAt t algorithm

  save-IsAt : (phase : Phase) → Leads (At phase) (At phase) (save env)
  save-IsAt phase w h = (save-HasValidRollover t env w h.0, ground (arith, save_fields env w))

  push-IsAt : (phase : Phase) → Leads (At phase) (At phase) (push_old_ds_removal env)
  push-IsAt phase w h = (push-HasValidRollover t env w h.0, ground (arith, push_view env w))

  choose-IsAt :
      (r : RolloverState) (w : World)
      → At algo_ds_add_wait w.zone
      → At algo_ds_add_wait (choose_action env r w).1.zone
  unfolding validate_rollover choose_action
  choose-IsAt r w h = (ground arith, ground arith)

  save_action-valid :
      (action : Action) (o : Option RolloverState) (w : World)
      → w.zone.rollover ≡ o
      → At algo_ds_add_wait w.zone
      → HasValidRollover t (save_action env action o w).1.zone
  unfolding validate_rollover save_action
  save_action-valid action none w e h = h.0
  save_action-valid action (some r) w e h = grind (arith, save_fields)

  begun-IsAt :
      (z : ZoneState)
      → At algo_ds_propagation_wait z
      → At algo_old_ds_removal_wait (removal_begun env z)
  unfolding validate_rollover
  begun-IsAt z h = (ground arith, ground arith)

  wait_ds-valid :
      (r : RolloverState) (w : World)
      → At algo_ds_propagation_wait w.zone
      → HasValidRollover t (wait_ds_propagation env r w).1.zone
  unfolding wait_ds_propagation
  wait_ds-valid r w h = ground (arith, h.0, moved)
    where
      begun : World
      begun = record w { zone = removal_begun env w.zone }

      moved :
          HasValidRollover t
            ((save env >>= λ _. push_old_ds_removal env >>= λ settled. done) begun).1.zone
      moved =
          Leads-bind (At algo_old_ds_removal_wait) (At algo_old_ds_removal_wait)
            (HasValidRollover t) (λ z v. v.0) (save env)
            (λ _. push_old_ds_removal env >>= λ settled. done) (save-IsAt algo_old_ds_removal_wait)
            (λ _.
              Leads-bind (At algo_old_ds_removal_wait) (At algo_old_ds_removal_wait)
                (HasValidRollover t) (λ z v. v.0) (push_old_ds_removal env) (λ settled. done)
                (push-IsAt algo_old_ds_removal_wait) (λ settled w' v. v.0))
            begun (begun-IsAt w.zone h)

  observation-valid :
      (obs : Observation) (o : Option RolloverState) (w : World)
      → obs.ttl ≤ max_dns_ttl_seconds
      → w.zone.rollover ≡ o
      → At algo_old_ds_removal_wait w.zone
      → HasValidRollover t (after_observation env obs o w).1.zone
  observation-valid obs none w bound e h = unfold after_observation in h.0
  observation-valid obs (some r) w bound e h =
      unfold validate_rollover in ground (arith, observation_view env obs w r)

  clear-IsAt : (phase : Phase) → Leads (At phase) (At phase) (clear_blocked_phase env)
  unfolding validate_rollover clear_blocked_phase
  clear-IsAt phase w h = (grind (arith, save_fields), grind (arith, save_fields))

  probe_answer-valid :
      (answer : Result String Observation)
      → HasDnsTtl env
      → env.probe ≡ some answer
      → Leads (At algo_old_ds_removal_wait) (HasValidRollover t) (after_probe env answer)
  unfolding after_probe
  probe_answer-valid (err e) bound asked =
      λ w h. unfold validate_rollover note_blocked_phase in grind (arith, save_fields)
  probe_answer-valid (ok obs) bound asked =
      Leads-bind (At algo_old_ds_removal_wait) (At algo_old_ds_removal_wait) (HasValidRollover t)
        (λ z v. v.0) (clear_blocked_phase env) (λ _ w. after_observation env obs w.zone.rollover w)
        (clear-IsAt algo_old_ds_removal_wait)
        (λ _ w v. observation-valid obs w.zone.rollover w (bound obs asked) refl v)

  probe-valid :
      (o : Option (Result String Observation)) (r : RolloverState)
      → HasDnsTtl env
      → env.probe ≡ o
      → Leads (At algo_old_ds_removal_wait) (HasValidRollover t) (probe_parent env o r)
  unfolding probe_parent
  probe-valid none r bound asked w h = h.0
  probe-valid (some answer) r bound asked w h =
      ground (arith, h.0, probe_answer-valid answer bound asked w h)

  retired-valid :
      (w : World)
      → At algo_old_ds_removal_wait w.zone
      → HasValidRollover t (save env (record w { zone = algorithm_retired env w.zone })).1.zone
  unfolding validate_rollover
  retired-valid w h =
      ground (arith, save_fields env (record w { zone = algorithm_retired env w.zone }))

  wait_old-valid :
      (r : RolloverState) (w : World)
      → HasDnsTtl env
      → At algo_old_ds_removal_wait w.zone
      → HasValidRollover t (wait_old_ds_removal env r w).1.zone
  unfolding wait_old_ds_removal
  wait_old-valid r w bound h = ground (arith, h.0, retired-valid w h, probed)
    where
      probed :
          HasValidRollover t
            ((push_old_ds_removal env >>= λ settled. probe_parent env env.probe r) w).1.zone
      probed =
          Leads-bind (At algo_old_ds_removal_wait) (At algo_old_ds_removal_wait)
            (HasValidRollover t) (λ z v. v.0) (push_old_ds_removal env)
            (λ settled. probe_parent env env.probe r) (push-IsAt algo_old_ds_removal_wait)
            (λ settled. probe-valid env.probe r bound refl) w h

  finish-valid :
      (r : RolloverState) → Leads (At algo_retiring) (HasValidRollover t) (finish_algorithm env r)
  unfolding validate_rollover clear_transient_warnings
  finish-valid r w h = ground (arith, finish_view env w r)

  phase-valid :
      (phase : Phase) (r : RolloverState)
      → HasDnsTtl env
      → Leads (At phase) (HasValidRollover t) (algorithm_phase env phase r)
  unfolding algorithm_phase
  phase-valid algo_ds_add_wait r bound w h =
      unfold advance_algorithm_ds_add in
      let (action, w') = choose_action env r w in
      save_action-valid action w'.zone.rollover w' refl (choose-IsAt r w h)
  phase-valid algo_ds_propagation_wait r bound w h = wait_ds-valid r w h
  phase-valid algo_old_ds_removal_wait r bound w h = wait_old-valid r w bound h
  phase-valid algo_retiring r bound w h = finish-valid r w h
  phase-valid _ r bound w h = h.0

  dispatch-valid :
      (phase : Phase) (o : Option RolloverState) (w : World)
      → w.zone.rollover ≡ o
      → HasDnsTtl env
      → At phase w.zone
      → HasValidRollover t (dispatch_algorithm env o w).1.zone
  unfolding dispatch_algorithm
  dispatch-valid phase none w e bound h = h.0
  dispatch-valid phase (some r) w e bound h = phase-valid r.state r bound w (ground arith)

  check-valid :
      (kind : RolloverType) (phase : Phase)
      → HasDnsTtl env
      → Leads (IsValidAt t kind phase) (HasValidRollover t) (check_algorithm env kind)
  unfolding check_algorithm
  check-valid algorithm phase bound =
      Leads-bind (At phase) (At phase) (HasValidRollover t) (λ z v. v.0)
        (stamp_new_key_propagation env) (λ _ w. dispatch_algorithm env w.zone.rollover w)
        (stamp-IsAt t env phase) (λ _ w v. dispatch-valid phase w.zone.rollover w refl bound v)
  check-valid _ phase bound = λ w h. h.0

  check-valid_any :
      (o : Option RolloverState) (w : World)
      → w.zone.rollover ≡ o
      → HasDnsTtl env
      → HasValidRollover t w.zone
      → HasValidRollover t (check_rollover env o w).1.zone
  unfolding check_rollover
  check-valid_any none w e bound h = h
  check-valid_any (some r) w e bound h = check-valid r.kind r.state bound w (h, ground arith)

  -- Where the record was valid and the parent's servers report TTLs of DNS, the automatic check of
  -- an algorithm rollover leaves a valid record in every phase, also where a save, the registrar
  -- or the probe of the parent fails.
  pub check_zone_algorithm-valid :
      (w : World)
      → HasDnsTtl env
      → HasValidRollover t w.zone
      → HasValidRollover t (check_zone_algorithm env w).1.zone
  unfolding check_zone_algorithm
  check_zone_algorithm-valid w = check-valid_any w.zone.rollover w refl
