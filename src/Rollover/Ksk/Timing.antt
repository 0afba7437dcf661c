-- ===== src/Rollover/Ksk/Timing.antt =====
-- When the automatic check of a KSK rollover (signer/internal/signer/rollover.go) drops the old
-- key and when it ends the rollover.
use sigillum_dnssec.Prelude.{◌+◌, ◌≤◌, ◌≡◌, refl, Option, none, some, arith}
use sigillum_dnssec.State.{
  Time, ZoneState, RolloverState, ksk, Phase, ds_propagation_wait, retiring,
}
use sigillum_dnssec.Rollover.{Env, World}
use sigillum_dnssec.Rollover.Keeps.{Leads, Leads-bind, PhaseIs}
use sigillum_dnssec.Rollover.Propagation.{
  stamp_new_key_propagation, push_old_ds_removal, effective_parent_ds_ttl,
}
use sigillum_dnssec.Rollover.Propagation.Laws.{stamp_view, push_view}
use sigillum_dnssec.Rollover.Ksk.{retire_ksk, ksk_phase, check_ksk, check_zone_ksk}
use sigillum_dnssec.Rollover.Ksk.Laws.{check_zone_at, retire_view}

-- The instant from which no cache holds a DS set without the new DS.
abbrev pub ds_expired_at : RolloverState → Time
ds_expired_at r = r.ds_observed_at + effective_parent_ds_ttl r.parent_ds_ttl

module _ (env : Env) (deadline : Time) where
  -- A KSK rollover in a phase, whose DS set is in caches until the deadline.
  abbrev Waits : Phase → Option RolloverState → Type 0
  Waits phase none = ⊥
  Waits phase (some r) = (r.kind ≡ ksk) × (r.state ≡ phase) × (ds_expired_at r ≡ deadline)

  abbrev WaitsIn : Phase → ZoneState → Type 0
  WaitsIn phase z = Waits phase z.rollover

  abbrev RetiresLate : ZoneState → Type 0
  RetiresLate z = PhaseIs retiring z.rollover → deadline ≤ env.now

  stamp-WaitsIn :
      (phase : Phase) → Leads (WaitsIn phase) (WaitsIn phase) (stamp_new_key_propagation env)
  stamp-WaitsIn phase w h = ground (arith, stamp_view env w)

  push-WaitsIn : (phase : Phase) → Leads (WaitsIn phase) (WaitsIn phase) (push_old_ds_removal env)
  push-WaitsIn phase w h = ground (arith, push_view env w)

  retire-late :
      (o : Option RolloverState) (w : World)
      → w.zone.rollover ≡ o
      → WaitsIn ds_propagation_wait w.zone
      → RetiresLate (retire_ksk env o w).1.zone
  retire-late none w e h moved = absurd (ground arith)
  retire-late (some r) w e h moved = ground (arith, retire_view env w r)

  waits-late : (z : ZoneState) → WaitsIn ds_propagation_wait z → RetiresLate z
  waits-late z h moved = ground arith

  check-late :
      Leads (WaitsIn ds_propagation_wait) RetiresLate (check_ksk env ksk ds_propagation_wait)
  unfolding check_ksk
  check-late =
      Leads-bind (WaitsIn ds_propagation_wait) (WaitsIn ds_propagation_wait) RetiresLate waits-late
        (stamp_new_key_propagation env) (λ _. ksk_phase env ds_propagation_wait)
        (stamp-WaitsIn ds_propagation_wait)
        (λ _.
          unfold ksk_phase in
          Leads-bind (WaitsIn ds_propagation_wait) (WaitsIn ds_propagation_wait) RetiresLate
            waits-late (push_old_ds_removal env) (λ settled w. retire_ksk env w.zone.rollover w)
            (push-WaitsIn ds_propagation_wait)
            (λ settled w h. retire-late w.zone.rollover w refl h))

-- The check takes the old KSK out of the zone only once the parent's DS TTL has passed since the
-- new DS was seen at every parent server; a recorded TTL of 0 counts as a day.
pub ksk_retires_after_ds_ttl :
    (env : Env) (w : World) (r r' : RolloverState)
    → w.zone.rollover ≡ some r
    → r.kind ≡ ksk
    → r.state ≡ ds_propagation_wait
    → (check_zone_ksk env w).1.zone.rollover ≡ some r'
    → r'.state ≡ retiring
    → r.ds_observed_at + effective_parent_ds_ttl r.parent_ds_ttl ≤ env.now
ksk_retires_after_ds_ttl env w r r' before kind phase after moved =
    check-late env (ds_expired_at r) w (ground arith)
      (rw (← check_zone_at env w r ds_propagation_wait before kind phase) (ground arith))
