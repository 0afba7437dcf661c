-- ===== src/State/Diagnostics.antt =====
-- The warnings and errors of a zone (signer/internal/state/state.go): `AddWarning` to
-- `ClearErrors`, and `Status` with `NeedsOperator`.
use sigillum_dnssec.Prelude.{
  ℕ, String, str_append, starts_with, str_eq, Bool, true, false, not, ◌&&◌, Option, none, some,
  List, [], ◌∷◌, ◌++◌, keep_if, contains, any_of, length, ltb, ◌==◌, if◌then◌else◌,
}
use sigillum_dnssec.State.{
  Time, ZoneState, RolloverState, RolloverType, zsk, Phase, ds_add_wait, algo_old_ds_removal_wait,
  algo_ds_add_wait, other_phase,
}
use sigillum_dnssec.State.Publication.{new_keys_propagated_by}
pub mod Laws

unfoldable pub add_warning : String → ZoneState → ZoneState
add_warning msg z =
    if contains z.warnings msg then z else record z { warnings = z.warnings ++ msg ∷ [] }

unfoldable pub clear_warnings : ZoneState → ZoneState
clear_warnings z = record z { warnings = [] }

abbrev pub sticky_warning_prefix : String
sticky_warning_prefix = "URGENT:"

abbrev pub is_sticky : String → Bool
is_sticky w = starts_with w sticky_warning_prefix

abbrev pub is_transient : String → Bool
is_transient w = not (is_sticky w)

unfoldable pub clear_transient_warnings : ZoneState → ZoneState
clear_transient_warnings z =
    if length z.warnings == 0 then z else record z { warnings = keep_if is_sticky z.warnings }

unfoldable pub clear_sticky_warnings : ZoneState → ZoneState
clear_sticky_warnings z =
    if length z.warnings == 0 then z else record z { warnings = keep_if is_transient z.warnings }

-- `strings.HasPrefix(e, op+": ")`
abbrev pub is_of : String → String → Bool
is_of op e = starts_with e (str_append op ": ")

abbrev pub is_of_other : String → String → Bool
is_of_other op e = not (is_of op e)

unfoldable pub clear_operation_error : String → ZoneState → ZoneState
clear_operation_error op z =
    if length z.errors == 0 then z else record z { errors = keep_if (is_of_other op) z.errors }

unfoldable pub set_operation_error : String → String → ZoneState → ZoneState
set_operation_error op msg z =
    let z' = clear_operation_error op z in
    record z' { errors = z'.errors ++ str_append (str_append op ": ") msg ∷ [] }

unfoldable pub has_operation_error : String → ZoneState → Bool
has_operation_error op z = any_of (is_of op) z.errors

unfoldable pub add_error : String → ZoneState → ZoneState
add_error msg z = if contains z.errors msg then z else record z { errors = z.errors ++ msg ∷ [] }

unfoldable pub clear_errors : ZoneState → ZoneState
clear_errors z = record z { errors = [] }

phase_needs_operator : Phase → RolloverState → Time → Bool
phase_needs_operator ds_add_wait r now = true
phase_needs_operator algo_old_ds_removal_wait r now = true
phase_needs_operator algo_ds_add_wait r now = new_keys_propagated_by (some r) now
phase_needs_operator _ r now = false

unfoldable pub needs_operator : RolloverState → Time → Bool
unfolding phase_needs_operator
needs_operator r now = phase_needs_operator r.state r now

pub data Status : Type 0 where
  error action_required warning healthy : Status

-- `z.Rollover.State != "" && z.Rollover.Type != "zsk"`
shows_rollover : RolloverType → Phase → Bool
shows_rollover zsk p = false
shows_rollover _ (other_phase s) = not (str_eq s "")
shows_rollover _ _ = true

warnings_status : ZoneState → Status
warnings_status z = if not (length z.warnings == 0) then warning else healthy

rollover_status : Option RolloverState → ZoneState → Time → Status
rollover_status none z now = warnings_status z
rollover_status (some r) z now =
    if shows_rollover r.kind r.state
    then (if needs_operator r now then action_required else warning)
    else warnings_status z

unfoldable pub status : ZoneState → Time → Status
unfolding shows_rollover warnings_status rollover_status
status z now = if not (length z.errors == 0) then error else rollover_status z.rollover z now
