-- ===== src/Sign/Needs/Settles.antt =====
-- A signing settles the check that asked for it (signer/internal/signer/sign.go):
-- `recordSignedZone` and then `NeedsSign`.
use mathlib.Core.Path.{subst}
use sigillum_dnssec.Prelude.{
  ◌+◌, ◌≤◌, ◌≡◌, refl, sym, ap, ◌∙◌, eq_iff, String, str_eq, true, false, Option, none, some, arith,
  ok,
}
use sigillum_dnssec.State.{ZoneState, is_zero}
use sigillum_dnssec.State.Publication.{confirm_publication}
use sigillum_dnssec.Sign.Record.{
  SignEnv, SignedZone, generation_recorded, publication_recorded, record_signed_zone,
}
use sigillum_dnssec.Sign.Record.Laws.{record_signed_zone-fields}
use sigillum_dnssec.Sign.Needs.{
  Cause, check_unless, CheckEnv, FileInfo, needs_sign_zone, is_unsigned_rollover, check_source,
  compare_digest, needs_sign, metadata_changed, or_else, expiry_cause, state_cause,
}
use sigillum_dnssec.Sign.Needs.Laws.{IsSigned}

-- What the check reads of a zone that was signed from this source.
abbrev RecordsSource : SignEnv → SignedZone → ZoneState → Type 0
RecordsSource env res z =
    (z.path ≡ res.source_path)
    × (z.last_signed ≡ env.now)
    × (z.source_mod_time ≡ res.src_mod_time)
    × (z.source_size ≡ res.src_size)
    × (z.source_digest ≡ res.src_digest)
    × (z.signatures_exp ≡ res.sig_expiration)
    × (z.force_resign ≡ false)

publication_source :
    (env : SignEnv) (res : SignedZone) (z : ZoneState)
    → str_eq res.source_path "" ≡ false
    → is_zero res.src_mod_time ≡ false
    → let z' = publication_recorded env (generation_recorded env res z) in
      RecordsSource env res z' × (z'.rollover ≡ z.rollover)
unfolding confirm_publication
publication_source env res z has_path has_time = ground arith

signing_source :
    (env : SignEnv) (res : SignedZone) (why : String) (z : ZoneState)
    → str_eq res.source_path "" ≡ false
    → is_zero res.src_mod_time ≡ false
    → let z' = record_signed_zone env res why z in
      RecordsSource env res z' × (z'.rollover ≡ z.rollover)
signing_source env res why z has_path has_time =
    ground (
      arith,
      record_signed_zone-fields env res why z,
      publication_source env res z has_path has_time,
    )

str_eq_refl : (s : String) → str_eq s s ≡ true
str_eq_refl s = (eq_iff s s).1 refl

compare-quiet :
    (z : ZoneState) (found : FileInfo)
    → metadata_changed z found ≡ false
    → str_eq z.source_digest "" ≡ false
    → compare_digest z found (ok z.source_digest) ≡ (none, z)
unfolding compare_digest
compare-quiet z found same_file recorded = ground (arith, str_eq_refl z.source_digest)

source-quiet :
    (env : CheckEnv) (z : ZoneState) (found : FileInfo)
    → metadata_changed z found ≡ false
    → env.source_digest ≡ ok z.source_digest
    → str_eq z.source_digest "" ≡ false
    → check_source env z (ok found) ≡ (none, z)
unfolding check_source
source-quiet env z found same_file same_content recorded =
    rw same_content (ground (arith, compare-quiet z found same_file recorded))

causeless :
    (env : CheckEnv) (z : ZoneState)
    → env.now + env.signature_refresh ≤ z.signatures_exp
    → z.force_resign ≡ false
    → IsSigned z.last_signed z.rollover
    → z.path ≡ env.zone_path
    → env.output_problem ≡ none
    → or_else (expiry_cause env z) (state_cause env z) ≡ none
unfolding is_unsigned_rollover
causeless env z fresh settled signed same_path usable = ground (
  arith,
  subst (λ p. str_eq (env.clean env.zone_path) (env.clean p) ≡ true) (sym same_path)
      (str_eq_refl (env.clean env.zone_path)),
)

needs_sign-quiet :
    (env : CheckEnv) (z : ZoneState) (found : FileInfo)
    → or_else (expiry_cause env z) (state_cause env z) ≡ none
    → env.stat ≡ ok found
    → check_source env z (ok found) ≡ (none, z)
    → needs_sign env (some z) ≡ (none, some z)
unfolding needs_sign needs_sign_zone check_unless
needs_sign-quiet env z found no_cause same_file quiet =
    ap as_answer (ap (check_unless env z) no_cause ∙ (ap (check_source env z) same_file ∙ quiet))
  where
    as_answer : Option Cause × ZoneState → Option Cause × Option ZoneState
    as_answer (c, z') = (c, some z')

-- A zone that was just signed is not signed again, and its state is left as it is, as long as the
-- source is the one that was signed and has an identity, the output can be served, the earliest
-- signature is not due for its refresh, and no rollover started after the signing: the check does
-- not ask for a signing at every poll.
pub signed_zone_settles :
    (sign : SignEnv) (res : SignedZone) (why : String) (z : ZoneState) (env : CheckEnv)
    (found : FileInfo)
    → str_eq res.source_path "" ≡ false
    → is_zero res.src_mod_time ≡ false
    → str_eq res.src_digest "" ≡ false
    → IsSigned sign.now z.rollover
    → env.now + env.signature_refresh ≤ res.sig_expiration
    → env.zone_path ≡ res.source_path
    → env.output_problem ≡ none
    → env.stat ≡ ok found
    → found.mod_time ≡ res.src_mod_time
    → found.size ≡ res.src_size
    → env.source_digest ≡ ok res.src_digest
    → needs_sign env (some (record_signed_zone sign res why z))
      ≡ (none, some (record_signed_zone sign res why z))
signed_zone_settles sign res why z env found has_path has_time has_digest signed fresh same_path
      usable same_file same_time same_size same_content =
    let z' = record_signed_zone sign res why z in
    let view = signing_source sign res why z has_path has_time in
    needs_sign-quiet env z' found
      (causeless env z' (ground arith) (ground arith) (ground arith) (ground arith) usable)
      same_file (source-quiet env z' found (ground arith) (ground arith) (ground arith))
