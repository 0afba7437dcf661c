-- ===== src/Sign/Window.antt =====
-- The validity window of a signature (signer/internal/signer/sign.go): `checkRRSIGWindow` and the
-- window that `signRRset` gives. Times are nanoseconds since 1970 and durations nanoseconds; a
-- time of the DNS is a number below 2 ^ 32.
pub mod Laws
use sigillum_dnssec.Prelude.{
  ℕ, ◌+◌, ◌-◌, ◌*◌, ◌/◌, ◌%◌, Bool, not, ◌||◌, ltb, leb, ◌==◌, Result, ok, err, if◌then◌else◌,
}
use sigillum_dnssec.Sign.Serial.{word, half, Signed, ahead, behind, int32_of_difference}

abbrev pub second : ℕ
second = 1000000000

-- time.Time.Unix
abbrev pub unix : ℕ → ℕ
unix t = t / second

-- config.SignatureInceptionBackdate, one hour
abbrev pub signature_inception_backdate : ℕ
signature_inception_backdate = 3600 * second

-- signingWindowTolerance in seconds, ten minutes
abbrev pub tolerance : ℕ
tolerance = 600

pub data WindowError : Type 0 where
  not_currently_valid wrapped unexpected_span inception_away expiration_away : WindowError

-- `d > tol || -d > tol`
abbrev pub is_far : Signed → Bool
is_far (ahead n) = ltb tolerance n
is_far (behind n) = ltb tolerance n

abbrev pub want_inception : ℕ → ℕ
want_inception now = unix (now - signature_inception_backdate) % word

abbrev pub want_expiration : ℕ → ℕ → ℕ
want_expiration validity now = unix (now + validity) % word

-- `currently_valid` is the DNS library's `ValidityPeriod`: inception, expiration, now.
unfoldable pub check_rrsig_window :
    (ℕ → ℕ → ℕ → Bool) → ℕ → ℕ → ℕ → ℕ → Result WindowError (Unit {0})
unfolding int32_of_difference
check_rrsig_window currently_valid validity inception expiration now =
    let span : ℕ = (expiration + word - inception) % word in
    let want_span : ℕ = (signature_inception_backdate + validity) / second in
    if not (currently_valid inception expiration now)
    then err not_currently_valid
    else if span == 0 || leb half span
    then err wrapped
    else if ltb (want_span + tolerance) span || ltb (span + tolerance) want_span
    then err unexpected_span
    else if is_far (int32_of_difference inception (want_inception now))
    then err inception_away
    else if is_far (int32_of_difference expiration (want_expiration validity now))
    then err expiration_away
    else ok tt
