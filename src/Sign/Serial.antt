-- ===== src/Sign/Serial.antt =====
-- Serial numbers of 32 bits (signer/internal/signer/sign.go): `serialGt`, `serialTime`,
-- `nextPublishedSerial` and `ValidateImportSerial`. A serial is a number below 2 ^ 32, and the
-- clock is given as `now.Unix()`, in seconds since 1970.
pub mod Laws
use sigillum_dnssec.Prelude.{
  ℕ, ◌+◌, ◌-◌, ◌*◌, ◌%◌, ◌^◌, String, str_eq, Bool, not, ◌&&◌, ◌||◌, List, [], ◌∷◌, ltb, ◌==◌,
  Result, ok, err, if◌then◌else◌,
}

abbrev pub word : ℕ
word = 4294967296

abbrev pub half : ℕ
half = 2147483648

unfoldable pub serial_gt : ℕ → ℕ → Bool
serial_gt a b = ltb b a && ltb (a - b) half || ltb a b && ltb half (b - a)

abbrev pub epoch_serial_floor : ℕ
epoch_serial_floor = 946684800

pub data SerialError : Type 0 where
  not_epoch : ℕ → SerialError
  not_advancing : ℕ → SerialError

abbrev pub advance : ℕ → ℕ → ℕ
advance next serial = if not (serial_gt next serial) then (serial + 1) % word else next

unfoldable pub next_published_serial : String → ℕ → ℕ → ℕ → Result SerialError ℕ
unfolding serial_gt
next_published_serial policy serial previous now =
    if not (str_eq policy "epoch")
    then ok serial
    else (let now_serial : ℕ = now % word in
        if ltb serial epoch_serial_floor || ltb ((now_serial + 86400) % word) serial
        then err (not_epoch serial)
        else (let next : ℕ = advance now_serial serial in
            ok (if not (previous == 0) then advance next previous else next)))

-- The loop over the serials that are served now.
pub first_not_below : ℕ → List ℕ → Result SerialError ℕ
unfolding serial_gt
first_not_below projected [] = ok projected
first_not_below projected (current ∷ served) =
    let rest = first_not_below projected served in
    if serial_gt projected current then rest else err (not_advancing current)

pub check_served : Result SerialError ℕ → List ℕ → Result SerialError ℕ
unfolding first_not_below
check_served (err e) served = err e
check_served (ok projected) served = first_not_below projected served

unfoldable pub validate_import_serial : String → ℕ → List ℕ → ℕ → Result SerialError ℕ
unfolding check_served
validate_import_serial policy source served now =
    check_served (next_published_serial policy source 0 now) served

-- A difference of 32 bits read as a signed number: `int32(a - b)`.
pub data Signed : Type 0 where
  ahead behind : ℕ → Signed

unfoldable pub int32_of_difference : ℕ → ℕ → Signed
int32_of_difference a b =
    let d : ℕ = (a + word - b) % word in if ltb d half then ahead d else behind (word - d)

-- `serialTime`, as its distance from the reference: the instant is `ref.Unix() + distance`.
unfoldable pub serial_time : ℕ → ℕ → Signed
unfolding int32_of_difference
serial_time serial ref = int32_of_difference serial (ref % word)
