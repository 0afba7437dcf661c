-- ===== src/Sign/Record/Laws.antt =====
-- What `recordSignedZone` of signer/internal/signer/sign.go guarantees.
use sigillum_dnssec.Prelude.{
  ◌≤◌, ◌≡◌, refl, ap, ◌∙◌, String, Bool, true, false, not, if◌then◌else◌, Option, none, some, arith,
}
use sigillum_dnssec.State.{KeyState, ZoneState}
use sigillum_dnssec.State.Publication.{confirm_publication}
use sigillum_dnssec.State.Diagnostics.{add_warning, clear_transient_warnings, clear_operation_error}
use sigillum_dnssec.Sign.Record.{
  SignEnv, SignedZone, warn_ksk, warn_zsk, generation_recorded, publication_recorded,
  warned_uncertain, record_signed_zone,
}

-- All fields but the warnings and the errors.
abbrev pub SameButDiagnostics : ZoneState → ZoneState → Type 0
SameButDiagnostics a b = record a { warnings = b.warnings; errors = b.errors } ≡ b

then_same :
    (a b c : ZoneState) → SameButDiagnostics a b → SameButDiagnostics b c → SameButDiagnostics a c
then_same a b c h k =
    ap {B = ZoneState} (λ (z : ZoneState). record z { warnings = c.warnings; errors = c.errors }) h
    ∙ k

if_same :
    (b : Bool) (x z : ZoneState)
    → SameButDiagnostics x z
    → SameButDiagnostics (if b then x else z) z
if_same true x z h = h
if_same false x z h = refl

add_warning_same : (msg : String) (z : ZoneState) → SameButDiagnostics (add_warning msg z) z
unfolding add_warning
add_warning_same msg z = ground arith

warn_ksk_same :
    (env : SignEnv) (o : Option KeyState) (z : ZoneState) → SameButDiagnostics (warn_ksk env o z) z
unfolding warn_ksk
warn_ksk_same env none z = refl
warn_ksk_same env (some key) z = if_same _ (add_warning _ z) z (add_warning_same _ z)

warn_zsk_same :
    (env : SignEnv) (o : Option KeyState) (z : ZoneState) → SameButDiagnostics (warn_zsk env o z) z
unfolding warn_zsk
warn_zsk_same env none z = refl
warn_zsk_same env (some key) z = if_same _ (add_warning _ z) z (add_warning_same _ z)

cleared_same : (z : ZoneState) → SameButDiagnostics (clear_transient_warnings z) z
unfolding clear_transient_warnings
cleared_same z = ground arith

resolved_same : (op : String) (z : ZoneState) → SameButDiagnostics (clear_operation_error op z) z
unfolding clear_operation_error
resolved_same op z = ground arith

uncertain_same : (why : String) (z : ZoneState) → SameButDiagnostics (warned_uncertain why z) z
uncertain_same why z = if_same _ (add_warning why z) z (add_warning_same why z)

-- A signing differs from the publication of its generation in the diagnostics only.
pub record_signed_zone-fields :
    (env : SignEnv) (res : SignedZone) (why : String) (z : ZoneState)
    → SameButDiagnostics
        (record_signed_zone env res why z)
        (publication_recorded env (generation_recorded env res z))
unfolding record_signed_zone
record_signed_zone-fields env res why z =
    let z1 = publication_recorded env (generation_recorded env res z) in
    let z2 = clear_transient_warnings z1 in
    let z3 = clear_operation_error "signing" z2 in
    let z4 = clear_operation_error "init" z3 in
    let z5 = warned_uncertain why z4 in
    let z6 = warn_ksk env z5.live_ksk z5 in
    then_same (warn_zsk env z6.live_zsk z6) z6 z1 (warn_zsk_same env z6.live_zsk z6) (
      then_same z6 z5 z1 (warn_ksk_same env z5.live_ksk z5) (
        then_same z5 z4 z1 (uncertain_same why z4) (
          then_same z4 z3 z1 (resolved_same "init" z3)
            (then_same z3 z2 z1 (resolved_same "signing" z2) (cleared_same z1)))))

publication-fields :
    (env : SignEnv) (res : SignedZone) (z : ZoneState)
    → z.published_generation_signed_at ≤ env.now
    → let z' = publication_recorded env (generation_recorded env res z) in
      (z.published_generation_signed_at ≤ z'.published_generation_signed_at)
      × (z.dnskey_cache_horizon ≤ z'.dnskey_cache_horizon)
      × (z.rrsig_cache_horizon ≤ z'.rrsig_cache_horizon)
      × (z'.published_dnskey_ttl ≡ res.dnskey_ttl)
      × (z'.published_max_rrsig_ttl ≡ res.max_rrsig_ttl)
      × (z'.pending_publication ≡ not env.is_immediate)
      × (z'.live_ksk ≡ z.live_ksk)
      × (z'.live_zsk ≡ z.live_zsk)
      × (z'.rollover ≡ z.rollover)
unfolding confirm_publication
publication-fields env res z in_order = ground arith

-- Where the clock has not gone back, a signing never shortens what caches may hold and never takes back a confirmation; the new
-- generation counts as waiting for publication unless the publication mode is `immediate`, its
-- TTLs are recorded, and the keys and the rollover stay as they are.
pub signing_keeps_horizons :
    (env : SignEnv) (res : SignedZone) (why : String) (z : ZoneState)
    → z.published_generation_signed_at ≤ env.now
    → let z' = record_signed_zone env res why z in
      (z.published_generation_signed_at ≤ z'.published_generation_signed_at)
      × (z.dnskey_cache_horizon ≤ z'.dnskey_cache_horizon)
      × (z.rrsig_cache_horizon ≤ z'.rrsig_cache_horizon)
      × (z'.published_dnskey_ttl ≡ res.dnskey_ttl)
      × (z'.published_max_rrsig_ttl ≡ res.max_rrsig_ttl)
      × (z'.pending_publication ≡ not env.is_immediate)
      × (z'.live_ksk ≡ z.live_ksk)
      × (z'.live_zsk ≡ z.live_zsk)
      × (z'.rollover ≡ z.rollover)
signing_keeps_horizons env res why z in_order =
    ground (arith, record_signed_zone-fields env res why z, publication-fields env res z in_order)
