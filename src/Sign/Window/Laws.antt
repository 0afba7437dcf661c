-- ===== src/Sign/Window/Laws.antt =====
-- Which windows `checkRRSIGWindow` of signer/internal/signer/sign.go accepts.
use sigillum_dnssec.Prelude.{ℕ, ◌+◌, ◌*◌, ◌%◌, ◌<◌, ◌≤◌, ◌≡◌, Bool, true, false, arith, ok}
use sigillum_dnssec.Sign.Serial.{
  word, half, Signed, ahead, behind, int32_of_difference, serial_time,
}
use sigillum_dnssec.Sign.Window.{
  second, unix, signature_inception_backdate, tolerance, want_inception, want_expiration, is_far,
  check_rrsig_window,
}

-- The expiration lies ahead of now by the validity, give or take the tolerance.
abbrev pub ExpiresAsConfigured : ℕ → Signed → Type 0
ExpiresAsConfigured v (ahead n) = (v ≤ n + tolerance) × (n ≤ v + tolerance)
ExpiresAsConfigured v (behind n) = ⊥

expires_lem :
    (v now expiration : ℕ)
    → expiration < word
    → tolerance < v
    → v + tolerance < half
    → is_far (int32_of_difference expiration ((now + v) % word)) ≡ false
    → ExpiresAsConfigured v (serial_time expiration now)
unfolding int32_of_difference serial_time
expires_lem v now expiration small long short near = ground arith

unix-add : (t v : ℕ) → unix (t + v * second) ≡ unix t + v
unix-add t v = omega arith

accepted-expires :
    (currently_valid : ℕ → ℕ → ℕ → Bool) (v inception expiration now : ℕ)
    → check_rrsig_window currently_valid (v * second) inception expiration now ≡ ok tt
    → is_far (int32_of_difference expiration ((unix now + v) % word)) ≡ false
unfolding check_rrsig_window
accepted-expires currently_valid v inception expiration now accepted =
    ground (arith, unix-add now v)

-- A signature that is accepted expires, on the timeline around now, when the configured validity
-- says, give or take ten minutes, where the validity is more than ten minutes and
-- ends within half the circle: it is not expired, not wrapped around and neither shorter nor
-- longer than intended.
pub accepted_window_expires :
    (currently_valid : ℕ → ℕ → ℕ → Bool) (v inception expiration now : ℕ)
    → expiration < word
    → tolerance < v
    → v + tolerance < half
    → check_rrsig_window currently_valid (v * second) inception expiration now ≡ ok tt
    → ExpiresAsConfigured v (serial_time expiration (unix now))
accepted_window_expires currently_valid v inception expiration now small long short accepted =
    expires_lem v (unix now) expiration small long short
      (accepted-expires currently_valid v inception expiration now accepted)

-- A signature that the signer makes is accepted for ten minutes, where the DNS library finds it
-- valid and the whole window fits in half the circle.
pub made_window_accepted :
    (currently_valid : ℕ → ℕ → ℕ → Bool) (v made now : ℕ)
    → signature_inception_backdate ≤ made
    → made ≤ now
    → now ≤ made + tolerance * second
    → v + 3600 < half
    → currently_valid (want_inception made) (want_expiration (v * second) made) now ≡ true
    → check_rrsig_window currently_valid
        (v * second)
        (want_inception made)
        (want_expiration (v * second) made)
        now
      ≡ ok tt
unfolding check_rrsig_window int32_of_difference
made_window_accepted currently_valid v made now old order soon short valid = ground arith
