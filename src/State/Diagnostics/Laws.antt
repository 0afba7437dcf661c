-- ===== src/State/Diagnostics/Laws.antt =====
-- What the operations on warnings and errors of signer/internal/state/state.go change and keep.
use mathlib.Core.Path.{ap₂}
use mathlib.Core.List.{append-nil}
use sigillum_dnssec.Prelude.{
  String, str_append, starts_with-append, ◌≡◌, refl, ap, ◌∙◌, Bool, true, false, not, [], ◌∷◌, ◌++◌,
  arith, keep_if, keep_if-none, keep_if-all, keep_if-append, keep_if-empty, any_of-keep_if,
  any_of-append, any_of,
}
use sigillum_dnssec.State.{ZoneState}
use sigillum_dnssec.State.Diagnostics.{
  is_sticky, is_transient, is_of, is_of_other, clear_transient_warnings, clear_sticky_warnings,
  clear_operation_error, set_operation_error, has_operation_error,
}

clear_transient_warnings_lem :
    (z : ZoneState)
    → clear_transient_warnings z ≡ record z { warnings = keep_if is_sticky z.warnings }
unfolding clear_transient_warnings
clear_transient_warnings_lem z = ground (arith, keep_if-empty is_sticky z.warnings)

clear_sticky_warnings_lem :
    (z : ZoneState)
    → clear_sticky_warnings z ≡ record z { warnings = keep_if is_transient z.warnings }
unfolding clear_sticky_warnings
clear_sticky_warnings_lem z = ground (arith, keep_if-empty is_transient z.warnings)

clear_operation_error_lem :
    (op : String) (z : ZoneState)
    → clear_operation_error op z ≡ record z { errors = keep_if (is_of_other op) z.errors }
unfolding clear_operation_error
clear_operation_error_lem op z = ground (arith, keep_if-empty (is_of_other op) z.errors)

-- Clearing the transient warnings keeps exactly the sticky ones in their order; clearing the
-- sticky ones afterwards leaves none; and neither touches the errors.
pub clear_transient_warnings_keeps_sticky :
    (z : ZoneState)
    → (keep_if is_sticky (clear_transient_warnings z).warnings ≡ keep_if is_sticky z.warnings)
      × (keep_if is_transient (clear_transient_warnings z).warnings ≡ [])
      × ((clear_sticky_warnings (clear_transient_warnings z)).warnings ≡ [])
      × ((clear_transient_warnings z).errors ≡ z.errors)
clear_transient_warnings_keeps_sticky z =
    simp (clear_transient_warnings_lem, clear_sticky_warnings_lem)
      (keep_if-all is_sticky is_sticky z.warnings (λ w e. e), sticky_only, sticky_only, refl)
  where
    sticky_only : keep_if is_transient (keep_if is_sticky z.warnings) ≡ []
    sticky_only = keep_if-none is_sticky is_transient z.warnings (λ w e. ap not e)

abbrev entry : String → String → String
entry op msg = str_append (str_append op ": ") msg

is_of-entry : (op msg : String) → is_of op (entry op msg) ≡ true
is_of-entry op msg = starts_with-append (str_append op ": ") msg

not-true : {b : Bool} → not b ≡ true → b ≡ false
not-true {b} h = ground arith

-- Recording an operation's error leaves exactly one error of that operation, the new one, and
-- every error of another operation in its place; the warnings are not touched.
pub set_operation_error_replaces :
    (op msg : String) (z : ZoneState)
    → (keep_if (is_of op) (set_operation_error op msg z).errors
        ≡ str_append (str_append op ": ") msg ∷ [])
      × (keep_if (is_of_other op) (set_operation_error op msg z).errors
          ≡ keep_if (is_of_other op) z.errors)
      × ((set_operation_error op msg z).warnings ≡ z.warnings)
unfolding set_operation_error
set_operation_error_replaces op msg z =
    simp (clear_operation_error_lem, keep_if-append)
      (ap₂ ◌++◌ none_left one_added, ap₂ ◌++◌ others_kept none_added ∙ append-nil _, refl)
  where
    none_left : keep_if (is_of op) (keep_if (is_of_other op) z.errors) ≡ []
    none_left = keep_if-none (is_of_other op) (is_of op) z.errors (λ e p. not-true p)

    others_kept :
        keep_if (is_of_other op) (keep_if (is_of_other op) z.errors)
        ≡ keep_if (is_of_other op) z.errors
    others_kept = keep_if-all (is_of_other op) (is_of_other op) z.errors (λ e p. p)

    one_added : keep_if (is_of op) (entry op msg ∷ []) ≡ entry op msg ∷ []
    one_added = unfold keep_if in rw (is_of-entry op msg)

    none_added : keep_if (is_of_other op) (entry op msg ∷ []) ≡ []
    none_added = unfold keep_if in rw (is_of-entry op msg)

-- Once an operation's error is cleared none is recorded for it; right after one is set, one is.
pub clear_operation_error-has :
    (op msg : String) (z : ZoneState)
    → (has_operation_error op (clear_operation_error op z) ≡ false)
      × (has_operation_error op (set_operation_error op msg z) ≡ true)
unfolding has_operation_error set_operation_error
clear_operation_error-has op msg z =
    simp (clear_operation_error_lem, any_of-append)
      (any_of-keep_if (is_of op) z.errors, unfold any_of in rw (is_of-entry op msg) (ground arith))
