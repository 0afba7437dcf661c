-- ===== src/Sign/Record.antt =====
-- What a signing records in the zone's state (signer/internal/signer/sign.go): `recordSignedZone`
-- and `checkRolloverWarnings`.
pub mod Laws
use sigillum_dnssec.Prelude.{
  ℕ, ◌+◌, ◌*◌, String, str_append, str_eq, Bool, true, false, not, ◌&&◌, Option, none, some, ltb,
  if◌then◌else◌,
}
use sigillum_dnssec.State.{Time, Duration, is_zero, KeyState, ZoneState}
use sigillum_dnssec.State.Publication.{confirm_publication}
use sigillum_dnssec.State.Diagnostics.{add_warning, clear_transient_warnings, clear_operation_error}

pub record SignedZone : Type 0 where
  pub serial : ℕ
  pub published : ℕ
  pub source_path : String
  pub src_mod_time : Time
  pub src_size : ℕ
  pub src_digest : String
  pub dnskey_ttl : ℕ
  pub max_rrsig_ttl : ℕ
  pub sig_expiration : Time

-- What a signing meets: the clock, at the start and for the warnings, and whether the publication
-- mode is `immediate`. `days_text` renders the days to an expiry as `%.0f` does.
pub record SignEnv : Type 0 where
  pub domain : String
  pub now : Time
  pub later : Time
  pub is_immediate : Bool
  pub days_text : Time → Time → String

abbrev pub two_weeks : Duration
two_weeks = 1209600 * 1000000000

pub warn_ksk : SignEnv → Option KeyState → ZoneState → ZoneState
warn_ksk env none z = z
warn_ksk env (some key) z =
    if ltb key.rollover_due env.later
    then add_warning
        (str_append "KSK rollover due - run 'sigillum-signer rollover start "
          (str_append env.domain "'"))
        z
    else z

-- `daysUntilExpiry < 14 && daysUntilExpiry > 0`, on the times themselves.
pub warn_zsk : SignEnv → Option KeyState → ZoneState → ZoneState
warn_zsk env none z = z
warn_zsk env (some key) z =
    if ltb key.expires (env.later + two_weeks) && ltb env.later key.expires
    then add_warning
        (str_append "ZSK expires in "
          (str_append (env.days_text key.expires env.later) " days (will auto-rollover)"))
        z
    else z

unfoldable pub check_rollover_warnings : SignEnv → ZoneState → ZoneState
unfolding warn_ksk warn_zsk
check_rollover_warnings env z = let z' = warn_ksk env z.live_ksk z in warn_zsk env z'.live_zsk z'

abbrev pub source_recorded : SignedZone → ZoneState → ZoneState
source_recorded res z =
    if not (is_zero res.src_mod_time)
    then record z { source_mod_time = res.src_mod_time; source_size = res.src_size }
    else z

abbrev pub generation_recorded : SignEnv → SignedZone → ZoneState → ZoneState
generation_recorded env res z =
    let z' = source_recorded res (record z {
      path = if not (str_eq res.source_path "") then res.source_path else z.path;
      serial = res.serial;
      published_serial = res.published;
      last_signed = env.now;
    }) in
    record z' {
      source_digest = res.src_digest;
      signatures_exp = res.sig_expiration;
      force_resign = false;
      published_dnskey_ttl = res.dnskey_ttl;
      published_max_rrsig_ttl = res.max_rrsig_ttl;
    }

abbrev pub publication_recorded : SignEnv → ZoneState → ZoneState
publication_recorded env z =
    if env.is_immediate
    then confirm_publication env.now env.now z
    else record z { pending_publication = true }

abbrev pub warned_uncertain : String → ZoneState → ZoneState
warned_uncertain why z = if not (str_eq why "") then add_warning why z else z

unfoldable pub record_signed_zone : SignEnv → SignedZone → String → ZoneState → ZoneState
unfolding check_rollover_warnings
record_signed_zone env res durability_uncertain z = check_rollover_warnings env (
    warned_uncertain durability_uncertain (
      clear_operation_error "init" (
        clear_operation_error "signing"
          (clear_transient_warnings (publication_recorded env (generation_recorded env res z))))))
