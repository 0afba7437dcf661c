-- ===== src/Rollover/Recorded.antt =====
-- The order of what a starting rollover does (signer/internal/signer/rollover.go): a key becomes
-- live only after a committed save names it, and a start whose save fails is undone.
use sigillum_dnssec.Prelude.{
  ℕ, ◌≡◌, Bool, true, false, ◌&&◌, Option, none, some, List, [], ◌∷◌, arith, ◌==◌, ok, err, Result,
  String,
}
use sigillum_dnssec.State.{KeyState, ZoneState, RolloverState, RolloverType, ksk, zsk, algorithm}
use sigillum_dnssec.Rollover.{
  Env, World, Role, ksk_role, zsk_role, Effect, backed_up, staged, wrote, activated, published,
  ◌>>◌, save, save_start, backup_key, stage_key, activate_recorded,
}
use sigillum_dnssec.State.Store.{not_written}
use sigillum_dnssec.Rollover.Saves.{save_fields, advance_revision_fields}
use sigillum_dnssec.Rollover.Ksk.{start_ksk_with, start_ksk, start_zone_ksk}
use sigillum_dnssec.Rollover.Zsk.{start_zsk}
use sigillum_dnssec.Rollover.Algorithm.{
  start_algorithm_with, record_algorithm, start_algorithm, start_zone_algorithm,
}

-- The record of the last committed save of a trace, latest first.
unfoldable pub committed : List Effect → Option ZoneState
committed [] = none
committed (wrote z ∷ es) = some z
committed (backed_up _ _ ∷ es) = committed es
committed (staged _ _ ∷ es) = committed es
committed (activated _ _ ∷ es) = committed es
committed (published _ ∷ es) = committed es

-- Whether a rollover record names the key as the new one of the role.
pub names_new : Role → ℕ → RolloverType → RolloverState → Bool
names_new ksk_role tag ksk r = r.new_key_id == tag
names_new zsk_role tag zsk r = r.new_key_id == tag
names_new ksk_role tag algorithm r = r.new_key_id == tag
names_new zsk_role tag algorithm r = r.new_zsk_id == tag
names_new _ _ _ r = false

pub names_in_rollover : Role → ℕ → Option RolloverState → Bool
unfolding names_new
names_in_rollover role tag none = false
names_in_rollover role tag (some r) = names_new role tag r.kind r

pub names_in : Role → ℕ → Option ZoneState → Bool
unfolding names_in_rollover
names_in role tag none = false
names_in role tag (some z) = names_in_rollover role tag z.rollover

-- Every key that was made live is named by the save that was the last one committed before.
unfoldable pub recorded : List Effect → Bool
unfolding names_in committed
recorded [] = true
recorded (activated role tag ∷ es) = names_in role tag (committed es) && recorded es
recorded (backed_up _ _ ∷ es) = recorded es
recorded (staged _ _ ∷ es) = recorded es
recorded (wrote _ ∷ es) = recorded es
recorded (published _ ∷ es) = recorded es

-- After a start's save that goes on, the last committed record holds the rollover.
save_start-committed :
    (env : Env) (undo : ZoneState → ZoneState) (w : World)
    → (save_start env undo w).0 ≡ ok tt
    → (role : Role) (tag : ℕ)
    → names_in role tag (committed (save_start env undo w).1.effects)
      ≡ names_in_rollover role tag w.zone.rollover
unfolding save_start save names_in committed
save_start-committed env undo w went_on role tag =
    grind (arith, save_fields env w, advance_revision_fields)

save_start-recorded :
    (env : Env) (undo : ZoneState → ZoneState) (w : World)
    → recorded (save_start env undo w).1.effects ≡ recorded w.effects
unfolding save_start save recorded
save_start-recorded env undo w = grind arith

activate-recorded :
    (env : Env) (role : Role) (tag : ℕ) (w : World)
    → names_in role tag (committed w.effects) ≡ true
    → recorded w.effects ≡ true
    → recorded (activate_recorded env role tag w).1.effects ≡ true
unfolding activate_recorded recorded
activate-recorded env role tag w named h = grind arith

start_ksk_with-recorded :
    (env : Env) (old : KeyState) (w : World)
    → recorded w.effects ≡ true
    → recorded (start_ksk_with env old w).1.effects ≡ true
unfolding recorded start_ksk_with backup_key stage_key
start_ksk_with-recorded env old w h =
    grind (arith, save_start-committed, save_start-recorded, activate-recorded)

start_ksk-recorded :
    (env : Env) (r : Option RolloverState) (key : Option KeyState) (w : World)
    → recorded w.effects ≡ true
    → recorded (start_ksk env r key w).1.effects ≡ true
unfolding start_ksk
start_ksk-recorded env (some r) key w h = h
start_ksk-recorded env none none w h = h
start_ksk-recorded env none (some old) w h = start_ksk_with-recorded env old w h

start_zsk-recorded :
    (env : Env) (old : KeyState) (w : World)
    → recorded w.effects ≡ true
    → recorded (start_zsk env old w).1.effects ≡ true
unfolding recorded start_zsk backup_key stage_key
start_zsk-recorded env old w h =
    grind (arith, save_start-committed, save_start-recorded, activate-recorded)

activate_both-recorded :
    (env : Env) (ksk_tag zsk_tag : ℕ) (w : World)
    → names_in ksk_role ksk_tag (committed w.effects) ≡ true
    → names_in zsk_role zsk_tag (committed w.effects) ≡ true
    → recorded w.effects ≡ true
    → recorded
        ((do activate_recorded env ksk_role ksk_tag; activate_recorded env zsk_role zsk_tag)
          w).1.effects
      ≡ true
unfolding activate_recorded recorded committed
activate_both-recorded env ksk_tag zsk_tag w named_ksk named_zsk h = grind arith

record_algorithm-recorded :
    (env : Env) (target : String) (old_ksk old_zsk new_ksk new_zsk : KeyState) (w : World)
    → recorded w.effects ≡ true
    → recorded (record_algorithm env target old_ksk old_zsk new_ksk new_zsk w).1.effects ≡ true
unfolding record_algorithm names_in_rollover
record_algorithm-recorded env target old_ksk old_zsk new_ksk new_zsk w h =
    grind (arith, save_start-committed, save_start-recorded, activate_both-recorded)

start_algorithm_with-recorded :
    (env : Env) (target : String) (old_ksk old_zsk : KeyState) (w : World)
    → recorded w.effects ≡ true
    → recorded (start_algorithm_with env target old_ksk old_zsk w).1.effects ≡ true
unfolding recorded start_algorithm_with backup_key stage_key
start_algorithm_with-recorded env target old_ksk old_zsk w h =
    grind (arith, record_algorithm-recorded)

start_algorithm-recorded :
    (env : Env) (target : String) (r : Option RolloverState) (k z : Option KeyState) (w : World)
    → recorded w.effects ≡ true
    → recorded (start_algorithm env target r k z w).1.effects ≡ true
unfolding start_algorithm
start_algorithm-recorded env target (some r) k z w h = h
start_algorithm-recorded env target none none z w h = h
start_algorithm-recorded env target none (some k) none w h = h
start_algorithm-recorded env target none (some k) (some z) w h =
    ground (arith, h, start_algorithm_with-recorded env target k z w h)

-- Whichever rollover starts, and wherever the start fails, every key that it makes live is the new
-- key of the rollover in the last record that was committed to the state file before, where that
-- holds of the keys that were made live earlier in the trace.
pub starts_activate_recorded_keys :
    (env : Env) (target : String) (old : KeyState) (w : World)
    → recorded w.effects ≡ true
    → (recorded (start_zone_ksk env w).1.effects ≡ true)
      × (recorded (start_zsk env old w).1.effects ≡ true)
      × (recorded (start_zone_algorithm env target w).1.effects ≡ true)
unfolding start_zone_ksk start_zone_algorithm
starts_activate_recorded_keys env target old w h = (
  start_ksk-recorded env w.zone.rollover w.zone.live_ksk w h,
  start_zsk-recorded env old w h,
  start_algorithm-recorded env target w.zone.rollover w.zone.live_ksk w.zone.live_zsk w h,
)

-- The keys that a trace has made live.
unfoldable pub activations : List Effect → List (Role × ℕ)
activations [] = []
activations (activated role tag ∷ es) = (role, tag) ∷ activations es
activations (backed_up _ _ ∷ es) = activations es
activations (staged _ _ ∷ es) = activations es
activations (wrote _ ∷ es) = activations es
activations (published _ ∷ es) = activations es

abbrev pub is_error {ℓ κ} : {E : Type ℓ} {A : Type κ} → Result E A → Bool
is_error (ok a) = false
is_error (err e) = true

-- The start of a KSK rollover fails if the next save is not committed, and leaves the zone without
-- a rollover, with the keys that it had, and nothing of it in the state file; no key is made live on
-- the way. It may fail before that save, which leaves the same.
pub unsaved_ksk_start_undone :
    (env : Env) (w : World)
    → w.zone.rollover ≡ none
    → env.save_outcome w.saves ≡ not_written
    → (is_error (start_zone_ksk env w).0 ≡ true)
      × (let w' = (start_zone_ksk env w).1 in
          (w'.zone.rollover ≡ none)
          × (w'.zone.live_ksk ≡ w.zone.live_ksk)
          × (w'.zone.live_zsk ≡ w.zone.live_zsk)
          × (w'.base ≡ w.base)
          × (committed w'.effects ≡ committed w.effects)
          × (activations w'.effects ≡ activations w.effects))
unfolding start_zone_ksk start_ksk start_ksk_with backup_key stage_key save_start save
    activate_recorded committed activations
unsaved_ksk_start_undone env w idle full = grind (arith, advance_revision_fields)
