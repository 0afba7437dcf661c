-- ===== src/Sign/Needs.antt =====
-- When a zone is signed again (signer/internal/signer/sign.go): `NeedsSign`.
pub mod Laws
pub mod Settles
use sigillum_dnssec.Prelude.{
  ℕ, ◌+◌, ◌-◌, String, str_append, str_eq, Bool, true, false, not, ◌&&◌, ◌||◌, Option, none, some,
  ltb, ◌==◌, Result, ok, err, if◌then◌else◌,
}
use sigillum_dnssec.State.{Time, Duration, is_zero, ZoneState, RolloverState}
use sigillum_dnssec.State.Diagnostics.{set_operation_error}

-- The reasons for a signing.
pub data Cause : Type 0 where
  new_zone signatures_expired signatures_expiring rollover_changed rollover_in_progress : Cause
  source_path_changed source_too_large identity_not_recorded file_modified content_changed : Cause
  output_unusable : String → Cause

pub record FileInfo : Type 0 where
  pub mod_time : Time
  pub size : ℕ

-- What reading the source gives in place of its digest.
pub data DigestError : Type 0 where
  too_large inconsistent : DigestError

-- What the check meets: the clock, at the start and after the first look at the file, the
-- configuration, the files, and `filepath.Clean`. `stat` is the text of the error, or the file.
pub record CheckEnv : Type 0 where
  pub now : Time
  pub later : Time
  pub signature_refresh : Duration
  pub zone_path : String
  pub clean : String → String
  pub output_problem : Option String
  pub stat : Result String FileInfo
  pub stat_again : Result String FileInfo
  pub source_digest : Result DigestError String

abbrev pub zone_write_quiescence_window : Duration
zone_write_quiescence_window = 3000000000

-- The checks that come before the source file is looked at; `none` where none of them asks for a
-- signing.
abbrev pub expiry_cause : CheckEnv → ZoneState → Option Cause
expiry_cause env z =
    if is_zero z.signatures_exp
    then none
    else if ltb z.signatures_exp env.now
    then some signatures_expired
    else if ltb (z.signatures_exp - env.signature_refresh) env.now
    then some signatures_expiring
    else none

pub is_unsigned_rollover : ZoneState → Option RolloverState → Bool
is_unsigned_rollover z none = false
is_unsigned_rollover z (some r) = ltb z.last_signed r.started

abbrev pub or_else : Option Cause → Option Cause → Option Cause
or_else none next = next
or_else (some c) next = some c

abbrev pub state_cause : CheckEnv → ZoneState → Option Cause
state_cause env z =
    if z.force_resign
    then some rollover_changed
    else if is_unsigned_rollover z z.rollover
    then some rollover_in_progress
    else if not (str_eq z.path "") && not (str_eq (env.clean env.zone_path) (env.clean z.path))
    then some source_path_changed
    else if not (is_zero z.last_signed)
    then (elim env.output_problem [ none ↦ none | some why ↦ some (output_unusable why) ])
    else none

abbrev pub metadata_changed : ZoneState → FileInfo → Bool
metadata_changed z info =
    ltb (if is_zero z.source_mod_time then z.last_signed else z.source_mod_time) info.mod_time
    || not (z.source_size == 0) && not (info.size == z.source_size)

-- A second look at a file that was changed just now finds it changed again.
abbrev pub differs : FileInfo → Result String FileInfo → Bool
differs info (err e) = false
differs info (ok again) = not (again.mod_time == info.mod_time) || not (again.size == info.size)

abbrev pub is_settling : CheckEnv → ZoneState → FileInfo → Bool
is_settling env z info =
    metadata_changed z info
    && (ltb env.later (info.mod_time + zone_write_quiescence_window) && differs info env.stat_again)

-- The digest of the source against the recorded one.
pub compare_digest : ZoneState → FileInfo → Result DigestError String → Option Cause × ZoneState
compare_digest z info (err too_large) = (some source_too_large, z)
compare_digest z info (err inconsistent) = (none, z)
compare_digest z info (ok digest) =
    if str_eq z.source_digest ""
    then (some identity_not_recorded, z)
    else if str_eq digest z.source_digest
    then (if metadata_changed z info
        then (none, record z { source_mod_time = info.mod_time; source_size = info.size })
        else (none, z))
    else if metadata_changed z info
    then (some file_modified, z)
    else (some content_changed, z)

pub check_source : CheckEnv → ZoneState → Result String FileInfo → Option Cause × ZoneState
unfolding compare_digest
check_source env z (err e) =
    (none, set_operation_error "signing" (str_append "zone file missing or inaccessible: " e) z)
check_source env z (ok info) =
    if is_settling env z info then (none, z) else compare_digest z info env.source_digest

pub check_unless : CheckEnv → ZoneState → Option Cause → Option Cause × ZoneState
unfolding check_source
check_unless env z (some c) = (some c, z)
check_unless env z none = check_source env z env.stat

pub needs_sign_zone : CheckEnv → ZoneState → Option Cause × ZoneState
unfolding check_unless is_unsigned_rollover
needs_sign_zone env z = check_unless env z (or_else (expiry_cause env z) (state_cause env z))

-- A cause to sign, with the zone's state as the check leaves it; `none` where no signing is needed
-- now.
unfoldable pub needs_sign : CheckEnv → Option ZoneState → Option Cause × Option ZoneState
unfolding needs_sign_zone
needs_sign env none = (some new_zone, none)
needs_sign env (some z) = let (c, z') = needs_sign_zone env z in (c, some z')
