-- ===== src/Rollover/Algorithm/Blocked.antt =====
-- The warning that says why an automatic phase is not advancing
-- (signer/internal/signer/rollover.go): `noteBlockedPhase` and `clearBlockedPhase`.
use sigillum_dnssec.Prelude.{
  String, str_append, starts_with, str_eq, Bool, not, ◌||◌, List, [], ◌∷◌, ◌++◌, keep_if, any_of,
  contains, ok, if◌then◌else◌,
}
use sigillum_dnssec.Rollover.{Env, World, Exec, save}

abbrev pub blocked_phase_prefix : String
blocked_phase_prefix = "rollover is waiting: "

abbrev pub is_blocked_note : String → Bool
is_blocked_note w = starts_with w blocked_phase_prefix

-- An earlier reason goes; the same reason and every other warning stay.
abbrev keeps_note : String → String → Bool
keeps_note msg w = not (is_blocked_note w) || str_eq w msg

unfoldable pub noted : String → List String → List String
noted msg warnings =
    let kept = keep_if (keeps_note msg) warnings in
    if contains kept msg then kept else kept ++ msg ∷ []

-- `changed`: an earlier reason was dropped, or the message was not there.
unfoldable pub note_changes : String → List String → Bool
note_changes msg warnings =
    any_of (λ w. not (keeps_note msg w)) warnings
    || not (contains (keep_if (keeps_note msg) warnings) msg)

unfoldable pub note_blocked_phase : Env → String → Exec (Unit {0})
unfolding noted note_changes
note_blocked_phase env reason w =
    let msg = str_append blocked_phase_prefix reason in
    let w' : World = record w { zone = record w.zone { warnings = noted msg w.zone.warnings } } in
    if note_changes msg w.zone.warnings then save env w' else (ok tt, w')

unfoldable pub clear_blocked_phase : Env → Exec (Unit {0})
clear_blocked_phase env w =
    if any_of is_blocked_note w.zone.warnings
    then save env (record w {
      zone = record w.zone { warnings = keep_if (λ v. not (is_blocked_note v)) w.zone.warnings };
    })
    else (ok tt, w)
