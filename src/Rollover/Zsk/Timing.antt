-- ===== src/Rollover/Zsk/Timing.antt =====
-- When the automatic check of the ZSK (signer/internal/signer/rollover.go) switches to the new key
-- and when it drops the old one.
use sigillum_dnssec.Prelude.{
  ◌+◌, ◌≤◌, ◌<◌, ◌≡◌, refl, ap, ◌∙◌, Option, none, some, arith, if◌then◌else◌,
}
use mathlib.Core.Path.{ap₂}
use sigillum_dnssec.State.{
  Time, is_zero, KeyState, ZoneState, RolloverState, zsk, Phase, pre_publish, signing,
}
use sigillum_dnssec.State.Publication.{published_since}
use sigillum_dnssec.Rollover.{Env, World, ◌>>=◌}
use sigillum_dnssec.Rollover.Keeps.{Leads, Leads-bind, PhaseIs}
use sigillum_dnssec.Rollover.Zsk.{
  stamp_phase_publication, pre_publish_horizon, signing_horizon, switch_after_horizon,
  handle_pre_publish, end_after_horizon, phase_start, signing_duration, handle_signing, handle_zsk,
  check_kind, check_key, check_zone_zsk,
}
use sigillum_dnssec.Rollover.Zsk.Laws.{stamp_phase_view, switch_view, end_view}

-- The horizon of the phase: the recorded one, or the one that this check records.
abbrev pub gate : Time → RolloverState → Time
gate horizon r = if is_zero r.phase_first_signed then horizon else r.phase_horizon

module _ (env : Env) (phase : Phase) (deadline : Time) where
  -- A rollover in the phase whose recorded horizon is the deadline.
  abbrev Waits : Option RolloverState → Type 0
  Waits none = ⊥
  Waits (some r) = (r.state ≡ phase) × (r.phase_horizon ≡ deadline)

  abbrev WaitsIn : ZoneState → Type 0
  WaitsIn z = Waits z.rollover

  abbrev Enters : RolloverState → Time → ZoneState → Type 0
  Enters r horizon z = (z.rollover ≡ some r) × (r.state ≡ phase) × (gate horizon r ≡ deadline)

  stamp-WaitsIn :
      (r : RolloverState) (horizon : Time)
      → Leads (Enters r horizon) WaitsIn (stamp_phase_publication env r horizon)
  stamp-WaitsIn r horizon w h = ground (arith, stamp_phase_view env w r horizon)

module _ (env : Env) (deadline : Time) where
  abbrev SwitchesLate : ZoneState → Type 0
  SwitchesLate z = PhaseIs signing z.rollover → deadline ≤ env.now

  abbrev EndsLate : ZoneState → Type 0
  EndsLate z = z.rollover ≡ none → deadline ≤ env.now

  pre_publish-late : (z : ZoneState) → WaitsIn env pre_publish deadline z → SwitchesLate z
  pre_publish-late z h moved = ground arith

  signing-late : (z : ZoneState) → WaitsIn env signing deadline z → EndsLate z
  signing-late z h ended = ground arith

  switch-late :
      (o : Option RolloverState) (w : World)
      → w.zone.rollover ≡ o
      → WaitsIn env pre_publish deadline w.zone
      → SwitchesLate (switch_after_horizon env o w).1.zone
  switch-late none w e h moved = absurd (ground arith)
  switch-late (some r) w e h moved = ground (arith, switch_view env w r)

  end-late :
      (o : Option RolloverState) (w : World)
      → w.zone.rollover ≡ o
      → WaitsIn env signing deadline w.zone
      → EndsLate (end_after_horizon env o w).1.zone
  end-late none w e h ended = absurd (ground arith)
  end-late (some r) w e h ended = ground (arith, end_view env w r)

  gated_switch-late :
      (r : RolloverState) (horizon : Time)
      → Leads (Enters env pre_publish deadline r horizon) SwitchesLate (
          stamp_phase_publication env r horizon >>= λ _ w'.
          switch_after_horizon env w'.zone.rollover w')
  gated_switch-late r horizon =
      Leads-bind (Enters env pre_publish deadline r horizon) (WaitsIn env pre_publish deadline)
        SwitchesLate pre_publish-late (stamp_phase_publication env r horizon)
        (λ _ w'. switch_after_horizon env w'.zone.rollover w')
        (stamp-WaitsIn env pre_publish deadline r horizon)
        (λ _ w' h. switch-late w'.zone.rollover w' refl h)

  gated_end-late :
      (r : RolloverState) (horizon : Time)
      → Leads (Enters env signing deadline r horizon) EndsLate (
          stamp_phase_publication env r horizon >>= λ _ w'.
          end_after_horizon env w'.zone.rollover w')
  gated_end-late r horizon =
      Leads-bind (Enters env signing deadline r horizon) (WaitsIn env signing deadline) EndsLate
        signing-late (stamp_phase_publication env r horizon)
        (λ _ w'. end_after_horizon env w'.zone.rollover w')
        (stamp-WaitsIn env signing deadline r horizon)
        (λ _ w' h. end-late w'.zone.rollover w' refl h)

-- The check of a zone with a ZSK rollover is the check of its phase.
check_zone_at :
    (env : Env) (w : World) (key : KeyState) (r : RolloverState) (phase : Phase)
    → w.zone.live_zsk ≡ some key
    → w.zone.rollover ≡ some r
    → r.kind ≡ zsk
    → r.state ≡ phase
    → check_zone_zsk env w ≡ handle_zsk env phase r w
unfolding check_zone_zsk check_key check_kind
check_zone_at env w key r phase live before kind state =
    ap₂ (λ k o. check_key env k o w) live before
    ∙ ap (λ k. check_kind env key k r w) kind
    ∙ ap (λ p. handle_zsk env p r w) state

pre_publish_late :
    (env : Env) (w : World) (r : RolloverState)
    → w.zone.rollover ≡ some r
    → r.state ≡ pre_publish
    → PhaseIs signing (handle_zsk env pre_publish r w).1.zone.rollover
    → (r.started + env.rollover_switch ≤ env.now)
      × (r.started < w.zone.published_generation_signed_at)
      × (gate (pre_publish_horizon env w.zone) r ≤ env.now)
unfolding handle_zsk handle_pre_publish published_since
pre_publish_late env w r before state moved = ground (
  arith,
  gated_switch-late env (gate (pre_publish_horizon env w.zone) r) r (pre_publish_horizon env w.zone)
      w (before, state, refl),
)

signing_late :
    (env : Env) (w : World) (r : RolloverState)
    → w.zone.rollover ≡ some r
    → r.state ≡ signing
    → (handle_zsk env signing r w).1.zone.rollover ≡ none
    → (phase_start r + signing_duration env ≤ env.now)
      × (phase_start r < w.zone.published_generation_signed_at)
      × (gate (signing_horizon env w.zone) r ≤ env.now)
unfolding handle_zsk handle_signing published_since
signing_late env w r before state ended = ground (
  arith,
  gated_end-late env (gate (signing_horizon env w.zone) r) r (signing_horizon env w.zone) w
      (before, state, refl),
)

-- In the phase `pre_publish` the check makes the new ZSK sign only once the configured time has
-- passed since the rollover started, a generation signed after that start is confirmed served, and
-- the horizon of the phase has passed: the recorded one, or, where none is recorded yet, the later
-- of the zone's DNSKEY horizon and its publication with the TTL floor of the DNSKEY set.
pub zsk_switches_after_horizon :
    (env : Env) (w : World) (key : KeyState) (r r' : RolloverState)
    → w.zone.live_zsk ≡ some key
    → w.zone.rollover ≡ some r
    → r.kind ≡ zsk
    → r.state ≡ pre_publish
    → (check_zone_zsk env w).1.zone.rollover ≡ some r'
    → r'.state ≡ signing
    → (r.started + env.rollover_switch ≤ env.now)
      × (r.started < w.zone.published_generation_signed_at)
      × (gate (pre_publish_horizon env w.zone) r ≤ env.now)
zsk_switches_after_horizon env w key r r' live before kind state after moved =
    pre_publish_late env w r before state
      (rw (← check_zone_at env w key r pre_publish live before kind state) (ground arith))

-- In the phase `signing` the check drops the old ZSK and ends the rollover only once the phase has
-- lasted as configured, a generation signed in the phase is confirmed served, and the horizon of
-- the phase has passed: the recorded one, or, where none is recorded yet, the latest of the zone's
-- two cache horizons and its publication with the larger of the two TTL floors.
pub zsk_ends_after_horizon :
    (env : Env) (w : World) (key : KeyState) (r : RolloverState)
    → w.zone.live_zsk ≡ some key
    → w.zone.rollover ≡ some r
    → r.kind ≡ zsk
    → r.state ≡ signing
    → (check_zone_zsk env w).1.zone.rollover ≡ none
    → (phase_start r + signing_duration env ≤ env.now)
      × (phase_start r < w.zone.published_generation_signed_at)
      × (gate (signing_horizon env w.zone) r ≤ env.now)
zsk_ends_after_horizon env w key r live before kind state ended =
    signing_late env w r before state
      (rw (← check_zone_at env w key r signing live before kind state) ended)
