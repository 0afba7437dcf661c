-- ===== src/Rollover/Ksk/Ending.antt =====
-- When the automatic check of signer/internal/signer/rollover.go ends a KSK rollover.
use sigillum_dnssec.Prelude.{◌<◌, ◌≡◌, refl, Bool, true, Option, none, some, arith, ok}
use sigillum_dnssec.State.{
  Time, ZoneState, RolloverState, ksk, Phase, ds_propagation_wait, retiring,
}
use sigillum_dnssec.State.Publication.{published_since}
use sigillum_dnssec.Rollover.{Env, World}
use sigillum_dnssec.Rollover.Keeps.{bind_zone}
use sigillum_dnssec.Rollover.Propagation.{
  stamp_new_key_propagation, push_old_ds_removal, new_keys_propagated,
}
use sigillum_dnssec.Rollover.Propagation.Laws.{
  stamped_for, stamp_view, push_view, push_settled, settled_by,
}
use sigillum_dnssec.Rollover.Ksk.{retire_ksk, finish_ksk, ksk_phase, check_ksk, check_zone_ksk}
use sigillum_dnssec.Rollover.Ksk.Laws.{check_zone_at, retire_view, finish_view}

module _ (env : Env) (phase : Phase) (started generation : Time) (settled : Bool) where
  -- What the end of the rollover asks for.
  abbrev pub EndsServed : ZoneState → Type 0
  EndsServed z = z.rollover ≡ none → (phase ≡ retiring) × (started < generation) × (settled ≡ true)

  -- The rollover before the registrar update of this check.
  abbrev Owes : ZoneState → Option RolloverState → Type 0
  Owes z none = ⊥
  Owes z (some r) =
      (r.state ≡ phase)
      × (r.phase_started ≡ started)
      × (z.published_generation_signed_at ≡ generation)
      × (settled_by env z r ≡ settled)

  -- The same after it.
  abbrev Ongoing : ZoneState → Option RolloverState → Type 0
  Ongoing z none = ⊥
  Ongoing z (some r) =
      (r.state ≡ phase)
      × (r.phase_started ≡ started)
      × (z.published_generation_signed_at ≡ generation)

  Ongoing-EndsServed : (z : ZoneState) → Ongoing z z.rollover → EndsServed z
  Ongoing-EndsServed z h e = ground arith

  push-Ongoing :
      (w : World)
      → Owes w.zone w.zone.rollover
      → Ongoing (push_old_ds_removal env w).1.zone (push_old_ds_removal env w).1.zone.rollover
  push-Ongoing w h = ground (arith, push_view env w)

  retire-EndsServed :
      (o : Option RolloverState) (w : World)
      → w.zone.rollover ≡ o
      → Ongoing w.zone w.zone.rollover
      → EndsServed (retire_ksk env o w).1.zone
  retire-EndsServed none w e h ended = absurd (ground arith)
  retire-EndsServed (some r) w e h ended = ground (arith, retire_view env w r)

  finish-EndsServed :
      (said : Bool) (o : Option RolloverState) (w : World)
      → said ≡ settled
      → phase ≡ retiring
      → w.zone.rollover ≡ o
      → Ongoing w.zone w.zone.rollover
      → EndsServed (finish_ksk env said o w).1.zone
  unfolding published_since
  finish-EndsServed said none w es ep e h ended = absurd (ground arith)
  finish-EndsServed said (some r) w es ep e h ended = ground (arith, finish_view env w said r)

  said-settled :
      (w : World) (said : Bool)
      → Owes w.zone w.zone.rollover
      → (push_old_ds_removal env w).0 ≡ ok said
      → said ≡ settled
  said-settled w said h result = from w.zone.rollover refl h
    where
      from : (o : Option RolloverState) → w.zone.rollover ≡ o → Owes w.zone o → said ≡ settled
      from none e owes = absurd owes
      from (some r) e owes = ground (arith, push_settled env w r said e result)

  Owes-EndsServed : (z : ZoneState) → Owes z z.rollover → EndsServed z
  Owes-EndsServed z h e = ground arith

  phase-EndsServed :
      (p : Phase) (w : World)
      → phase ≡ p
      → Owes w.zone w.zone.rollover
      → EndsServed (ksk_phase env p w).1.zone
  unfolding ksk_phase
  phase-EndsServed ds_propagation_wait w ep h =
      bind_zone EndsServed (push_old_ds_removal env) (λ said w'. retire_ksk env w'.zone.rollover w')
        w (λ e _. Ongoing-EndsServed (push_old_ds_removal env w).1.zone (push-Ongoing w h))
        (λ said _. retire-EndsServed _ (push_old_ds_removal env w).1 refl (push-Ongoing w h))
  phase-EndsServed retiring w ep h =
      bind_zone EndsServed (push_old_ds_removal env)
        (λ said w'. finish_ksk env said w'.zone.rollover w') w
        (λ e _. Ongoing-EndsServed (push_old_ds_removal env w).1.zone (push-Ongoing w h))
        (λ said result.
          finish-EndsServed said _ (push_old_ds_removal env w).1 (said-settled w said h result) ep
            refl (push-Ongoing w h))
  phase-EndsServed _ w ep h = Owes-EndsServed w.zone h

  check-EndsServed :
      (w : World)
      → Owes
          (stamp_new_key_propagation env w).1.zone
          (stamp_new_key_propagation env w).1.zone.rollover
      → EndsServed (check_ksk env ksk phase w).1.zone
  unfolding check_ksk
  check-EndsServed w h =
      bind_zone EndsServed (stamp_new_key_propagation env) (λ _. ksk_phase env phase) w
        (λ e _. Owes-EndsServed (stamp_new_key_propagation env w).1.zone h)
        (λ _ _. phase-EndsServed phase (stamp_new_key_propagation env w).1 refl h)

-- Whether nothing is owed to the parent, as the check finds it once it has recorded the horizon.
abbrev pub settled_at_check : Env → ZoneState → RolloverState → Bool
settled_at_check env z r = settled_by env (stamped_for env z z.rollover) r

stamp-Owes :
    (env : Env) (w : World) (r : RolloverState)
    → w.zone.rollover ≡ some r
    → Owes env r.state r.phase_started w.zone.published_generation_signed_at
        (settled_at_check env w.zone r)
        (stamp_new_key_propagation env w).1.zone
        (stamp_new_key_propagation env w).1.zone.rollover
unfolding new_keys_propagated
stamp-Owes env w r before = ground (arith, stamp_view env w)

-- A check ends a KSK rollover only in its last phase, once a generation signed after the old KSK
-- was dropped is confirmed served, and only where nothing is owed to the parent: there is no
-- automation, or the new-only DS set is installed.
pub ksk_ends_when_served :
    (env : Env) (w : World) (r : RolloverState)
    → w.zone.rollover ≡ some r
    → r.kind ≡ ksk
    → (check_zone_ksk env w).1.zone.rollover ≡ none
    → (r.state ≡ retiring)
      × (r.phase_started < w.zone.published_generation_signed_at)
      × (settled_at_check env w.zone r ≡ true)
ksk_ends_when_served env w r before kind ended =
    check-EndsServed env r.state r.phase_started w.zone.published_generation_signed_at
      (settled_at_check env w.zone r) w (stamp-Owes env w r before)
      (rw (← check_zone_at env w r r.state before kind refl) ended)
