-- ===== src/Sign/Needs/Laws.antt =====
-- What `NeedsSign` of signer/internal/signer/sign.go guarantees.
use sigillum_dnssec.Prelude.{
  ◌-◌, ◌≤◌, ◌≡◌, ◌⊎◌, refl, String, str_eq, Bool, false, not, Option, none, some, arith, Result, ok,
  err, if◌then◌else◌,
}
use sigillum_dnssec.State.{Time, ZoneState, RolloverState}
use sigillum_dnssec.Sign.Needs.{
  CheckEnv, FileInfo, DigestError, needs_sign_zone, check_unless, is_unsigned_rollover,
  check_source, compare_digest, is_settling, needs_sign,
}

-- The rollover that is in the record started before the last signing.
abbrev pub IsSigned : Time → Option RolloverState → Type 0
IsSigned last_signed none = Unit
IsSigned last_signed (some r) = r.started ≤ last_signed

-- The source that was read is the recorded one, or it cannot be judged now: it is not there, it is
-- still being written, or it cannot be read as one piece.
abbrev pub digest_differs : ZoneState → Result DigestError String → Bool
digest_differs z (err e) = false
digest_differs z (ok digest) = not (str_eq digest z.source_digest)

abbrev pub source_differs : CheckEnv → ZoneState → Result String FileInfo → Bool
source_differs env z (err e) = false
source_differs env z (ok info) =
    if is_settling env z info then false else digest_differs z env.source_digest

compare-same :
    (z : ZoneState) (info : FileInfo) (digest : Result DigestError String)
    → (compare_digest z info digest).0 ≡ none
    → digest_differs z digest ≡ false
unfolding compare_digest
compare-same z info digest quiet = ground arith

source-same :
    (env : CheckEnv) (z : ZoneState) (found : Result String FileInfo)
    → (check_source env z found).0 ≡ none
    → source_differs env z found ≡ false
unfolding check_source
source-same env z (err e) quiet = refl
source-same env z (ok info) quiet = ground (arith, compare-same z info env.source_digest)

-- A zone is left unsigned only where its signatures are not near their expiry, no change of keys
-- waits to be signed, the rollover in progress has been signed with, the last output is usable,
-- and the source, where it could be read and is not being written just now, is byte for byte the
-- recorded one.
pub unsigned_zone_is_current :
    (env : CheckEnv) (z z' : ZoneState)
    → needs_sign env (some z) ≡ (none, some z')
    → ((z.signatures_exp ≡ 0)
        ⊎ ((env.now ≤ z.signatures_exp) × (env.now ≤ z.signatures_exp - env.signature_refresh)))
      × (z.force_resign ≡ false)
      × IsSigned z.last_signed z.rollover
      × ((z.last_signed ≡ 0) ⊎ (env.output_problem ≡ none))
      × (source_differs env z env.stat ≡ false)
unfolding needs_sign needs_sign_zone check_unless is_unsigned_rollover
unsigned_zone_is_current env z z' quiet = ground (arith, source-same env z env.stat)
