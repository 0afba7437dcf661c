-- ===== src/Rollover/Propagation/Laws.antt =====
-- When the new keys of a rollover count as propagated, and what the stamp and the registrar
-- update of signer/internal/signer/rollover.go do with that.
use sigillum_dnssec.Prelude.{
  ◌≡◌, Bool, true, false, not, ◌&&◌, ◌||◌, Option, none, some, arith, String, Result, ok, err,
  if◌then◌else◌,
}
use sigillum_dnssec.State.{ZoneState, RolloverState, is_zero}
use sigillum_dnssec.State.Publication.{changes_parent, published_since}
use sigillum_dnssec.Rollover.{Env, World, PublishOp, old_ds_removal, with_rollover}
use sigillum_dnssec.Rollover.Saves.{save_fields, SameButRevision}
use sigillum_dnssec.Rollover.Propagation.{
  stamp_new_key_propagation, stamp_new_key, new_key_horizon, new_keys_propagated,
  push_old_ds_removal, note_pushed,
}

-- The record after the stamp, without the save.
abbrev pub stamp_due : ZoneState → RolloverState → Bool
stamp_due z r = changes_parent r.kind && (is_zero r.phase_horizon && published_since z r.started)

abbrev pub stamped_for : Env → ZoneState → Option RolloverState → ZoneState
stamped_for env z none = z
stamped_for env z (some r) =
    if stamp_due z r
    then with_rollover (stamp_new_key z.published_at (new_key_horizon env z r.kind)) z
    else z

pub stamp_view :
    (env : Env) (w : World)
    → SameButRevision
        (stamp_new_key_propagation env w).1.zone
        (stamped_for env w.zone w.zone.rollover)
unfolding stamp_new_key_propagation
stamp_view env w = grind (arith, save_fields)

abbrev is_none : {A : Type 0} → Option A → Bool
is_none none = true
is_none (some a) = false

abbrev answer_is_yes : Result String Bool → Bool
answer_is_yes (ok b) = b
answer_is_yes (err e) = false

abbrev says_yes : Option (PublishOp → Result String Bool) → Bool
says_yes none = false
says_yes (some publish) = answer_is_yes (publish old_ds_removal)

-- What the registrar automation is asked, and answers, in this state: whether the new-only set
-- was installed just now.
abbrev pub push_due : Env → ZoneState → RolloverState → Bool
push_due env z r = is_zero r.ds_removal_pushed_at && is_none (new_keys_propagated z env.later)

abbrev pub answers_yes : Env → Bool
answers_yes env = says_yes env.publisher

abbrev pub pushed_for : Env → ZoneState → Option RolloverState → ZoneState
pushed_for env z none = z
pushed_for env z (some r) =
    if answers_yes env && push_due env z r then with_rollover (note_pushed env.later) z else z

pub push_view :
    (env : Env) (w : World)
    → SameButRevision (push_old_ds_removal env w).1.zone (pushed_for env w.zone w.zone.rollover)
unfolding push_old_ds_removal
push_view env w = grind (arith, save_fields)

-- Whether nothing more is owed to the parent: no automation, the new-only set installed before,
-- or the automation asked now, with the new keys propagated, and not failing.
abbrev answered : Result String Bool → Bool
answered (ok b) = true
answered (err e) = false

abbrev settled_with :
    Option (PublishOp → Result String Bool) → Env → ZoneState → RolloverState → Bool
settled_with none env z r = true
settled_with (some publish) env z r =
    not (is_zero r.ds_removal_pushed_at)
    || (is_none (new_keys_propagated z env.later) && answered (publish old_ds_removal))

abbrev pub settled_by : Env → ZoneState → RolloverState → Bool
settled_by env z r = settled_with env.publisher env z r

pub push_settled :
    (env : Env) (w : World) (r : RolloverState) (settled : Bool)
    → w.zone.rollover ≡ some r
    → (push_old_ds_removal env w).0 ≡ ok settled
    → settled ≡ settled_by env w.zone r
unfolding push_old_ds_removal
push_settled env w r settled before result = grind (arith, save_fields)
