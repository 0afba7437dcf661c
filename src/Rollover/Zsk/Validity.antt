-- ===== src/Rollover/Zsk/Validity.antt =====
-- The operations of a ZSK rollover (signer/internal/signer/rollover.go) leave a record that
-- `validateRolloverState` (signer/internal/state/state.go) accepts.
use sigillum_dnssec.Prelude.{
  ℕ, ◌≡◌, ◌≢◌, inr, String, refl, Option, none, some, arith, Result, ok, err,
}
use sigillum_dnssec.State.{
  Time, KeyState, ZoneState, RolloverState, RolloverType, zsk, Phase, pre_publish, signing,
}
use sigillum_dnssec.State.Validate.{TextTests, HasValidRollover, validate_rollover}
use sigillum_dnssec.State.Diagnostics.{clear_transient_warnings, add_warning}
use sigillum_dnssec.Rollover.{
  Env, World, ◌>>=◌, zsk_role, backup_key, stage_key, save_start, activate_recorded,
}
use sigillum_dnssec.Rollover.Keeps.{Leads, Leads-bind}
use sigillum_dnssec.Rollover.Saves.{save_fields}
use sigillum_dnssec.Rollover.Validity.{IsValidAt, HasFreshTags}
use sigillum_dnssec.Rollover.Zsk.{
  stamp_phase_publication, switch_after_horizon, handle_pre_publish, pre_publish_horizon,
  end_after_horizon, handle_signing, signing_horizon, handle_zsk, start_zsk, warn_blocked,
  check_kind, check_key, check_zone_zsk,
}
use sigillum_dnssec.Rollover.Zsk.Laws.{stamp_phase_view, switched_for, switch_view, end_view}

-- `EnsureLiveKey` returns the key of the tag that it is asked for.
abbrev pub HasLiveTags : Env → Type 0
HasLiveTags env = (n tag : ℕ) (alg : String) → env.ensure_live_key n ≡ ok (tag, alg) → tag ≡ n

module _ (t : TextTests) (env : Env) (live_tags : HasLiveTags env) where
  stamp-IsAt :
      (phase : Phase) (r : RolloverState) (horizon : Time)
      → Leads
          (IsValidAt t zsk phase)
          (IsValidAt t zsk phase)
          (stamp_phase_publication env r horizon)
  unfolding validate_rollover
  stamp-IsAt phase r horizon w h = (
    ground (arith, stamp_phase_view env w r horizon),
    ground (arith, stamp_phase_view env w r horizon),
  )

  switched-valid :
      (r : RolloverState) (z : ZoneState) (answer : Result String (ℕ × String))
      → env.ensure_live_key r.new_key_id ≡ answer
      → z.rollover ≡ some r
      → IsValidAt t zsk pre_publish z
      → HasValidRollover t (switched_for env r answer z)
  unfolding validate_rollover
  switched-valid r z (err e) eq er h = h.0
  switched-valid r z (ok (tag, alg)) eq er h = ground (arith, live_tags r.new_key_id tag alg eq)

  switch-valid :
      (o : Option RolloverState) (w : World)
      → w.zone.rollover ≡ o
      → IsValidAt t zsk pre_publish w.zone
      → HasValidRollover t (switch_after_horizon env o w).1.zone
  switch-valid none w e h = unfold switch_after_horizon in h.0
  switch-valid (some r) w e h =
      unfold validate_rollover in
      ground (
        arith,
        switch_view env w r,
        switched-valid r w.zone (env.ensure_live_key r.new_key_id) refl e h,
      )

  end-valid :
      (o : Option RolloverState) (w : World)
      → w.zone.rollover ≡ o
      → IsValidAt t zsk signing w.zone
      → HasValidRollover t (end_after_horizon env o w).1.zone
  end-valid none w e h = unfold end_after_horizon in h.0
  end-valid (some r) w e h =
      unfold validate_rollover clear_transient_warnings in ground (arith, end_view env w r)

  pre_publish-valid :
      (r : RolloverState)
      → Leads (IsValidAt t zsk pre_publish) (HasValidRollover t) (handle_pre_publish env r)
  unfolding handle_pre_publish
  pre_publish-valid r w h = ground (arith, gated)
    where
      gated :
          HasValidRollover t
            ((stamp_phase_publication env r (pre_publish_horizon env w.zone) >>= λ _ w'.
                switch_after_horizon env w'.zone.rollover w')
              w).1.zone
      gated =
          Leads-bind (IsValidAt t zsk pre_publish) (IsValidAt t zsk pre_publish)
            (HasValidRollover t) (λ z v. v.0)
            (stamp_phase_publication env r (pre_publish_horizon env w.zone))
            (λ _ w'. switch_after_horizon env w'.zone.rollover w')
            (stamp-IsAt pre_publish r (pre_publish_horizon env w.zone))
            (λ _ w' v. switch-valid w'.zone.rollover w' refl v) w h

  signing-valid :
      (r : RolloverState)
      → Leads (IsValidAt t zsk signing) (HasValidRollover t) (handle_signing env r)
  unfolding handle_signing
  signing-valid r w h = ground (arith, gated)
    where
      gated :
          HasValidRollover t
            ((stamp_phase_publication env r (signing_horizon env w.zone) >>= λ _ w'.
                end_after_horizon env w'.zone.rollover w')
              w).1.zone
      gated =
          Leads-bind (IsValidAt t zsk signing) (IsValidAt t zsk signing) (HasValidRollover t)
            (λ z v. v.0) (stamp_phase_publication env r (signing_horizon env w.zone))
            (λ _ w'. end_after_horizon env w'.zone.rollover w')
            (stamp-IsAt signing r (signing_horizon env w.zone))
            (λ _ w' v. end-valid w'.zone.rollover w' refl v) w h

  handle-valid :
      (phase : Phase) (r : RolloverState)
      → Leads (IsValidAt t zsk phase) (HasValidRollover t) (handle_zsk env phase r)
  unfolding handle_zsk
  handle-valid pre_publish r = pre_publish-valid r
  handle-valid signing r = signing-valid r
  handle-valid _ r = λ w h. h.0

  start-valid :
      (old : KeyState) (w : World)
      → w.zone.rollover ≡ none
      → w.zone.live_zsk ≡ some old
      → ((alg : String) (new : KeyState) → env.stage zsk_role alg ≡ ok new → new.id ≢ old.id)
      → HasValidRollover t (start_zsk env old w).1.zone
  unfolding validate_rollover start_zsk backup_key stage_key save_start activate_recorded
  start-valid old w er ek fresh = grind (arith, save_fields, fresh)

  warn-valid :
      (key : KeyState) (kind : RolloverType)
      → Leads (HasValidRollover t) (HasValidRollover t) (warn_blocked env key kind)
  unfolding validate_rollover warn_blocked add_warning
  warn-valid key kind w h = grind (arith, save_fields)

  kind-valid :
      (key : KeyState) (kind : RolloverType) (r : RolloverState)
      → Leads (IsValidAt t kind r.state) (HasValidRollover t) (check_kind env key kind r)
  unfolding check_kind
  kind-valid key zsk r w h = handle-valid r.state r w h
  kind-valid key kind r w h = warn-valid key kind w h.0

  key-valid :
      (key : Option KeyState) (o : Option RolloverState) (w : World)
      → w.zone.live_zsk ≡ key
      → w.zone.rollover ≡ o
      → HasFreshTags env w.zone
      → HasValidRollover t w.zone
      → HasValidRollover t (check_key env key o w).1.zone
  unfolding check_key
  key-valid none o w ek er fresh h = h
  key-valid (some key) (some r) w ek er fresh h = kind-valid key r.kind r w (h, ground arith)
  key-valid (some key) none w ek er fresh h =
      ground (arith, start-valid key w er ek (λ alg new e. fresh zsk_role alg new key e (inr ek)))

  -- The automatic check of the ZSK leaves a valid rollover record, whatever it does: start a
  -- rollover, move one on, end it, or warn that another one blocks it. The record before was
  -- valid, and the key files hand out fresh tags and return the key that they are asked for.
  pub check_zone_zsk-valid :
      (w : World)
      → HasFreshTags env w.zone
      → HasValidRollover t w.zone
      → HasValidRollover t (check_zone_zsk env w).1.zone
  unfolding check_zone_zsk
  check_zone_zsk-valid w fresh h = key-valid w.zone.live_zsk w.zone.rollover w refl refl fresh h
