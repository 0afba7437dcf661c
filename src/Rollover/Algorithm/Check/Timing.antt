-- ===== src/Rollover/Algorithm/Check/Timing.antt =====
-- When the automatic check of an algorithm rollover (signer/internal/signer/rollover.go) notes that
-- the old DS is gone, and when it takes the old algorithm out of the zone.
use sigillum_dnssec.Prelude.{
  ◌+◌, ◌≤◌, ◌≡◌, ◌⊎◌, refl, ℕ, String, str_append, Bool, true, false, inl, inr, Bool-cases, Option,
  none, some, arith, Result, ok, err, ap, ◌∙◌,
}
use mathlib.Core.Path.{subst, sym}
use sigillum_dnssec.State.{
  is_zero, ZoneState, RolloverState, algorithm, algo_old_ds_removal_wait, algo_retiring,
}
use sigillum_dnssec.Rollover.{Env, World, Observation, ◌>>=◌, Exec}
use sigillum_dnssec.Rollover.Saves.{save_fields}
use sigillum_dnssec.Rollover.Keeps.{Leads, Leads-bind}
use sigillum_dnssec.Rollover.Propagation.{
  stamp_new_key_propagation, push_old_ds_removal, effective_parent_ds_ttl,
}
use sigillum_dnssec.Rollover.Propagation.Laws.{stamp_view, push_view}
use sigillum_dnssec.Rollover.Algorithm.Blocked.{note_blocked_phase, clear_blocked_phase}
use sigillum_dnssec.Rollover.Algorithm.Check.{
  after_observation, after_probe, probe_parent, wait_old_ds_removal, algorithm_phase,
  dispatch_algorithm, check_algorithm, check_rollover, check_zone_algorithm,
}
use sigillum_dnssec.Rollover.Algorithm.Check.Views.{observation_view}

-- The parent's servers answered the probe, and none of them holds the DS of the key.
abbrev answer_gone : Result String Observation → ℕ → Bool
answer_gone (err e) id = false
answer_gone (ok obs) id = obs.absent_on_all id

abbrev pub saw_gone : Option (Result String Observation) → ℕ → Bool
saw_gone none id = false
saw_gone (some answer) id = answer_gone answer id

abbrev blocked_why : String → String
blocked_why e =
    str_append "the parent DS probe failed (" (str_append e "); it is retried every cycle")

module _ (env : Env) (r : RolloverState) where
  -- The phase that waits for the old DS to go, with what the record says of it.
  abbrev Waits : Option RolloverState → Type 0
  Waits none = ⊥
  Waits (some r') =
      (r'.state ≡ algo_old_ds_removal_wait)
      × (r'.old_key_id ≡ r.old_key_id)
      × (r'.parent_ds_ttl ≡ r.parent_ds_ttl)
      × (r'.old_ds_removed_at ≡ r.old_ds_removed_at)

  abbrev WaitsIn : ZoneState → Type 0
  WaitsIn z = Waits z.rollover

  -- The record after a check: still waiting, the old DS noted as gone if it was seen gone just
  -- now; or retiring, a TTL after it was seen gone.
  abbrev pub Moves : Option RolloverState → Type 0
  Moves none = ⊥
  Moves (some r') =
      ((r'.state ≡ algo_old_ds_removal_wait) × (r'.old_ds_removed_at ≡ r.old_ds_removed_at))
      ⊎ ((r'.state ≡ algo_old_ds_removal_wait)
          × (is_zero r.old_ds_removed_at ≡ true)
          × (r'.old_ds_removed_at ≡ env.now)
          × (r.parent_ds_ttl ≤ r'.parent_ds_ttl)
          × (saw_gone env.probe r.old_key_id ≡ true))
      ⊎ ((r'.state ≡ algo_retiring)
          × (is_zero r.old_ds_removed_at ≡ false)
          × (r.old_ds_removed_at + effective_parent_ds_ttl r.parent_ds_ttl ≤ env.now))

  abbrev MovesIn : ZoneState → Type 0
  MovesIn z = Moves z.rollover

  waits-moves : (z : ZoneState) → WaitsIn z → MovesIn z
  waits-moves z h = ground arith

  stamp-WaitsIn : Leads WaitsIn WaitsIn (stamp_new_key_propagation env)
  stamp-WaitsIn w h = ground (arith, stamp_view env w)

  push-WaitsIn : Leads WaitsIn WaitsIn (push_old_ds_removal env)
  push-WaitsIn w h = ground (arith, push_view env w)

  clear-WaitsIn : Leads WaitsIn WaitsIn (clear_blocked_phase env)
  unfolding clear_blocked_phase
  clear-WaitsIn w h = grind (arith, save_fields)

  note-WaitsIn : (why : String) → Leads WaitsIn WaitsIn (note_blocked_phase env why)
  unfolding note_blocked_phase
  note-WaitsIn why w h = grind (arith, save_fields)

  observation-moves :
      (obs : Observation) (o : Option RolloverState) (w : World)
      → is_zero r.old_ds_removed_at ≡ true
      → env.probe ≡ some (ok obs)
      → w.zone.rollover ≡ o
      → WaitsIn w.zone
      → MovesIn (after_observation env obs o w).1.zone
  observation-moves obs none w unseen asked e h = absurd (ground arith)
  observation-moves obs (some r') w unseen asked e h =
      ground
        (arith, observation_view env obs w r', ap (λ answer. saw_gone answer r.old_key_id) asked)

  weaken-moves : (m : Exec (Unit {0})) → Leads WaitsIn WaitsIn m → Leads WaitsIn MovesIn m
  weaken-moves m keeps w h = waits-moves (m w).1.zone (keeps w h)

  answer-moves :
      (answer : Result String Observation)
      → is_zero r.old_ds_removed_at ≡ true
      → env.probe ≡ some answer
      → Leads WaitsIn MovesIn (after_probe env answer)
  unfolding after_probe
  answer-moves (err e) unseen asked =
      weaken-moves (note_blocked_phase env (blocked_why e)) (note-WaitsIn (blocked_why e))
  answer-moves (ok obs) unseen asked =
      Leads-bind WaitsIn WaitsIn MovesIn waits-moves (clear_blocked_phase env)
        (λ _ w. after_observation env obs w.zone.rollover w) clear-WaitsIn
        (λ _ w h. observation-moves obs w.zone.rollover w unseen asked refl h)

  probe-moves :
      (o : Option (Result String Observation)) (r' : RolloverState)
      → is_zero r.old_ds_removed_at ≡ true
      → env.probe ≡ o
      → Leads WaitsIn MovesIn (probe_parent env o r')
  unfolding probe_parent
  probe-moves none r' unseen asked w h = waits-moves w.zone h
  probe-moves (some answer) r' unseen asked w h =
      ground (arith, waits-moves w.zone h, answer-moves answer unseen asked w h)

  probe_later-moves :
      (r' : RolloverState)
      → is_zero r.old_ds_removed_at ≡ true
      → Leads WaitsIn MovesIn (push_old_ds_removal env >>= λ settled. probe_parent env env.probe r')
  probe_later-moves r' unseen =
      Leads-bind WaitsIn WaitsIn MovesIn waits-moves (push_old_ds_removal env)
        (λ settled. probe_parent env env.probe r') push-WaitsIn
        (λ settled. probe-moves env.probe r' unseen refl)

  wait-moves :
      (r' : RolloverState) (w : World)
      → w.zone.rollover ≡ some r'
      → WaitsIn w.zone
      → MovesIn (wait_old_ds_removal env r' w).1.zone
  unfolding wait_old_ds_removal
  wait-moves r' w e h = elim (Bool-cases (is_zero r.old_ds_removed_at)) [
    | inl unseen ↦ ground (arith, probe_later-moves r' unseen w h)
    | inr seen ↦ grind (arith, save_fields)
  ]

  dispatch-moves :
      (o : Option RolloverState) (w : World)
      → w.zone.rollover ≡ o
      → WaitsIn w.zone
      → MovesIn (dispatch_algorithm env o w).1.zone
  unfolding dispatch_algorithm
  dispatch-moves none w e h = absurd (ground arith)
  dispatch-moves (some r') w e h =
      subst (λ phase. MovesIn (algorithm_phase env phase r' w).1.zone) (sym (kept h))
        (unfold algorithm_phase in wait-moves r' w e h)
    where
      kept : WaitsIn w.zone → r'.state ≡ algo_old_ds_removal_wait
      kept h = ground arith

  check-moves : Leads WaitsIn MovesIn (check_algorithm env algorithm)
  unfolding check_algorithm
  check-moves =
      Leads-bind WaitsIn WaitsIn MovesIn waits-moves (stamp_new_key_propagation env)
        (λ _ w. dispatch_algorithm env w.zone.rollover w) stamp-WaitsIn
        (λ _ w h. dispatch-moves w.zone.rollover w refl h)

-- The check of a zone with an algorithm rollover is the check of its phase.
check_zone_at :
    (env : Env) (w : World) (r : RolloverState)
    → w.zone.rollover ≡ some r
    → r.kind ≡ algorithm
    → check_zone_algorithm env w ≡ check_algorithm env algorithm w
unfolding check_zone_algorithm check_rollover
check_zone_at env w r before kind =
    ap (λ o. check_rollover env o w) before ∙ ap (λ k. check_algorithm env k w) kind

-- While an algorithm rollover waits for the old DS to go, a check leaves the record waiting, and
-- notes that the old DS is gone only where the parent's servers answer just then that none of them
-- holds it, with a TTL that is not shortened; or it takes the old algorithm out of the zone, a TTL
-- of the parent's DS set after the old DS was seen gone.
pub algorithm_waits_for_old_ds :
    (env : Env) (w : World) (r : RolloverState)
    → w.zone.rollover ≡ some r
    → r.kind ≡ algorithm
    → r.state ≡ algo_old_ds_removal_wait
    → Moves env r (check_zone_algorithm env w).1.zone.rollover
algorithm_waits_for_old_ds env w r before kind phase =
    rw (check_zone_at env w r before kind) (check-moves env r w (ground arith))
