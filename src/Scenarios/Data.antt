-- ===== src/Scenarios/Data.antt =====
-- A zone, an environment and the records that the scenarios start from.
use sigillum_dnssec.Prelude.{ℕ, ◌*◌, String, str_eq, true, false, none, some, [], Result, ok}
use sigillum_dnssec.State.{
  Time, KeyState, RolloverState, ZoneState, RolloverType, Phase, asked_new_only,
}
use sigillum_dnssec.State.Store.{written}
use sigillum_dnssec.State.Validate.{TextTests}
use sigillum_dnssec.Rollover.{Env, World, Role, ksk_role, zsk_role}

-- n seconds after Go's zero time
abbrev pub at_second : ℕ → Time
at_second n = n * 1000000000

abbrev pub key : ℕ → String → KeyState
key tag alg = record {
  id = tag;
  alg = alg;
  created = at_second 1;
  expires = at_second 9000000;
  ds_published = true;
  rollover_due = 0;
}

-- A zone signed and confirmed at second 1000, with a TTL of an hour.
abbrev pub quiet_zone : ZoneState
quiet_zone = record {
  revision = 4;
  path = "/zones/example.com";
  serial = 7;
  published_serial = 7;
  last_signed = at_second 1000;
  source_mod_time = at_second 900;
  source_size = 512;
  source_digest = "ab";
  signatures_exp = at_second 800000;
  published_dnskey_ttl = 3600;
  published_max_rrsig_ttl = 3600;
  pending_publication = false;
  published_at = at_second 1000;
  published_generation_signed_at = at_second 1000;
  served_dnskey_ttl = 3600;
  served_max_rrsig_ttl = 3600;
  dnskey_cache_horizon = at_second 4600;
  rrsig_cache_horizon = at_second 4600;
  live_ksk = some (key 11 "ECDSAP256SHA256");
  live_zsk = some (key 12 "ECDSAP256SHA256");
  rollover = none;
  warnings = [];
  errors = [];
  force_resign = false;
}

-- A rollover from key 11 to key 21 that started at second 2000.
abbrev pub rolling : RolloverType → Phase → RolloverState
rolling kind phase = record {
  kind = kind;
  state = phase;
  old_key_id = 11;
  new_key_id = 21;
  old_zsk_id = 12;
  new_zsk_id = 22;
  old_algorithm = "ECDSAP256SHA256";
  new_algorithm = "ED25519";
  started = at_second 2000;
  phase_started = at_second 2000;
  phase_first_signed = at_second 3000;
  phase_horizon = at_second 6600;
  ds_observed_at = at_second 5000;
  parent_ds_ttl = 86400;
  old_ds_removed_at = 0;
  ds_removal_pushed_at = 0;
  ds_add_pushed_at = 0;
  action = asked_new_only;
}

-- The zone during that rollover, confirmed served with the new key at second 3000.
abbrev pub rolling_zone : RolloverType → Phase → ZoneState
rolling_zone kind phase = record quiet_zone {
  last_signed = at_second 3000;
  published_at = at_second 3000;
  published_generation_signed_at = at_second 3000;
  live_ksk = some (key 21 "ED25519");
  live_zsk = some (key 22 "ED25519");
  rollover = some (rolling kind phase);
}

abbrev stage_new : Role → String → Result String KeyState
stage_new ksk_role alg = ok (key 21 alg)
stage_new zsk_role alg = ok (key 22 alg)

abbrev live_tag : Role → ℕ
live_tag ksk_role = 11
live_tag zsk_role = 12

-- An environment at the given second in which every call succeeds.
abbrev pub env_at : ℕ → Env
env_at second = record {
  domain = "example.com";
  now = at_second second;
  later = at_second second;
  dnskey_ttl = 3600;
  rollover_prepublish = at_second 1209600;
  rollover_switch = at_second 604800;
  zsk_lifetime = at_second 7776000;
  parent_ds_ttl_fallback = 86400;
  save_outcome = λ n. written;
  ensure_verified_backup = λ role. ok (live_tag role);
  stage = stage_new;
  activate_key_pair = λ role tag. none;
  ensure_live_key = λ tag. ok (tag, "ED25519");
  load_public_key = λ tag. none;
  publisher = some (λ op. ok true);
  probe = some (ok (record { absent_on_all = λ tag. true; ttl = 3600 }));
  days_until = λ expires now. "14";
}

abbrev pub world : ZoneState → World
world z = record { zone = z; base = some z; saves = 0; effects = [] }

-- Tests on texts that are good enough for the names above.
abbrev pub tests : TextTests
tests = record { is_blank = λ s. str_eq s ""; is_domain_name = λ s. true; has_nul = λ s. false }
