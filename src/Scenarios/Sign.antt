-- ===== src/Scenarios/Sign.antt =====
-- Scenarios of signer/internal/signer/sign.go.
use sigillum_dnssec.Prelude.{
  ℕ, ◌+◌, ◌*◌, ◌<◌, ◌≤◌, ◌≡◌, ◌≢◌, ◌⊎◌, refl, true, false, none, some, [], ◌∷◌, ◌-◌, ◌%◌, arith, ok,
}
use sigillum_dnssec.Sign.Serial.{
  word, half, serial_gt, next_published_serial, validate_import_serial, serial_time,
}
use sigillum_dnssec.Sign.Serial.Laws.{published_serial_advances, Passes, import_serial_advances}
use sigillum_dnssec.Sign.Window.{second, unix, check_rrsig_window}
use sigillum_dnssec.Sign.Window.Laws.{ExpiresAsConfigured, accepted_window_expires}
use sigillum_dnssec.Sign.Record.{SignEnv, SignedZone, record_signed_zone}
use sigillum_dnssec.Sign.Needs.{CheckEnv, needs_sign}
use sigillum_dnssec.Sign.Needs.Laws.{IsSigned, source_differs, unsigned_zone_is_current}
use sigillum_dnssec.Sign.Needs.Settles.{signed_zone_settles}
use sigillum_dnssec.Scenarios.Data.{at_second, quiet_zone}

published_serial_advances_example :
    (1700000501 < word)
    × ((◌≡◌ {A = ℕ} 1700000500 0) ⊎ (serial_gt 1700000501 1700000500 ≡ true))
    × ((serial_gt 1700000501 1700000000 ≡ true)
        ⊎ ((◌≢◌ {A = ℕ} 1700000500 0) × (half ≤ (1700000500 + word - 1700000000) % word + 1)))
unfolding next_published_serial serial_gt
published_serial_advances_example =
    published_serial_advances 1700000000 1700000500 1700000400 1700000501 (omega arith)
      (omega arith) refl

import_serial_advances_example :
    (next_published_serial "epoch" 1700000000 0 1700000400 ≡ ok 1700000400)
    × Passes 1700000400 (1700000100 ∷ [])
unfolding validate_import_serial next_published_serial serial_gt
import_serial_advances_example =
    import_serial_advances "epoch" 1700000000 1700000400 1700000400 (1700000100 ∷ []) refl

accepted_window_expires_example :
    ExpiresAsConfigured 1209600 (serial_time 1701209600 (unix (1700000000 * second)))
unfolding check_rrsig_window
accepted_window_expires_example =
    accepted_window_expires (λ inception expiration now. true) 1209600 1699996400 1701209600
      (1700000000 * second) (omega arith) (omega arith) (omega arith) refl

-- A signing at second 2000.
abbrev sign_env : SignEnv
sign_env = record {
  domain = "example.com";
  now = at_second 2000;
  later = at_second 2001;
  is_immediate = true;
  days_text = λ expires now. "9";
}

abbrev signed : SignedZone
signed = record {
  serial = 8;
  published = 8;
  source_path = "/zones/example.com";
  src_mod_time = at_second 1900;
  src_size = 640;
  src_digest = "cd";
  dnskey_ttl = 7200;
  max_rrsig_ttl = 3600;
  sig_expiration = at_second 900000;
}

-- The check at second 3000, with the file as it was signed.
abbrev check_env : CheckEnv
check_env = record {
  now = at_second 3000;
  later = at_second 3000;
  signature_refresh = at_second 300000;
  zone_path = "/zones/example.com";
  clean = λ path. path;
  output_problem = none;
  stat = ok (record { mod_time = at_second 1900; size = 640 });
  stat_again = ok (record { mod_time = at_second 1900; size = 640 });
  source_digest = ok "cd";
}

signed_zone_settles_example :
    needs_sign check_env (some (record_signed_zone sign_env signed "" quiet_zone))
    ≡ (none, some (record_signed_zone sign_env signed "" quiet_zone))
signed_zone_settles_example =
    signed_zone_settles sign_env signed "" quiet_zone check_env
      (record { mod_time = at_second 1900; size = 640 }) refl refl refl tt (omega arith) refl refl
      refl refl refl refl

unsigned_zone_is_current_example :
    let z = record_signed_zone sign_env signed "" quiet_zone in
    ((z.signatures_exp ≡ 0)
      ⊎ ((check_env.now ≤ z.signatures_exp)
          × (check_env.now ≤ z.signatures_exp - check_env.signature_refresh)))
    × (z.force_resign ≡ false)
    × IsSigned z.last_signed z.rollover
    × ((z.last_signed ≡ 0) ⊎ (check_env.output_problem ≡ none))
    × (source_differs check_env z check_env.stat ≡ false)
unsigned_zone_is_current_example =
    unsigned_zone_is_current check_env (record_signed_zone sign_env signed "" quiet_zone)
      (record_signed_zone sign_env signed "" quiet_zone)
      (signed_zone_settles sign_env signed "" quiet_zone check_env
        (record { mod_time = at_second 1900; size = 640 }) refl refl refl tt (omega arith) refl refl
        refl refl refl refl)
