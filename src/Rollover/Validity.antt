-- ===== src/Rollover/Validity.antt =====
-- Every rollover operation (signer/internal/signer/rollover.go) leaves a record that
-- `validateRolloverState` (signer/internal/state/state.go) accepts: what the proofs of the three
-- kinds of rollover share.
use sigillum_dnssec.Prelude.{String, ◌≡◌, ◌≢◌, ◌⊎◌, some, arith, ok}
use sigillum_dnssec.State.{KeyState, ZoneState, RolloverType, Phase}
use sigillum_dnssec.State.Validate.{TextTests, HasValidRollover, validate_rollover}
use sigillum_dnssec.Rollover.{Env, Role, save}
use sigillum_dnssec.Rollover.Keeps.{Leads, IsAt}
use sigillum_dnssec.Rollover.Saves.{save_fields}
use sigillum_dnssec.Rollover.Propagation.{stamp_new_key_propagation, push_old_ds_removal}
use sigillum_dnssec.Rollover.Propagation.Laws.{stamp_view, push_view}

-- A valid record of this type, in this phase.
abbrev pub IsValidAt : TextTests → RolloverType → Phase → ZoneState → Type 0
IsValidAt t kind phase z = HasValidRollover t z × IsAt kind phase z.rollover

module _ (t : TextTests) (env : Env) where
  pub save-HasValidRollover : Leads (HasValidRollover t) (HasValidRollover t) (save env)
  unfolding validate_rollover
  save-HasValidRollover w h = ground (arith, save_fields env w)

  pub stamp-HasValidRollover :
      Leads (HasValidRollover t) (HasValidRollover t) (stamp_new_key_propagation env)
  unfolding validate_rollover
  stamp-HasValidRollover w h = ground (arith, stamp_view env w)

  pub push-HasValidRollover :
      Leads (HasValidRollover t) (HasValidRollover t) (push_old_ds_removal env)
  unfolding validate_rollover
  push-HasValidRollover w h = ground (arith, push_view env w)

-- The key files never hand out a tag that one of the zone's live keys has: `existingKeyTags`
-- excludes the tags in use from generation.
abbrev pub HasFreshTags : Env → ZoneState → Type 0
HasFreshTags env z =
    (role : Role) (alg : String) (new live : KeyState)
    → env.stage role alg ≡ ok new
    → (z.live_ksk ≡ some live) ⊎ (z.live_zsk ≡ some live)
    → new.id ≢ live.id
