-- ===== src/Names/Labels.antt =====
-- The text of a label and its octets (signer/internal/signer/sign.go `canonicalLabelBytes`, which
-- validator/internal/validator/nsec.go repeats; signer/internal/signer/zonemodel.go
-- `canonicalLabel`). A text is the list of its bytes.
pub mod Laws
use sigillum_dnssec.Prelude.{
  ℕ, ◌+◌, ◌-◌, ◌*◌, ◌/◌, ◌%◌, Bool, true, false, ◌&&◌, ◌||◌, List, [], ◌∷◌, ◌++◌, ltb, leb, ◌==◌,
  if◌then◌else◌,
}

abbrev pub dot : ℕ
dot = 46

abbrev pub backslash : ℕ
backslash = 92

abbrev pub asterisk : ℕ
asterisk = 42

abbrev pub is_digit : ℕ → Bool
is_digit b = leb 48 b && leb b 57

abbrev pub lower : ℕ → ℕ
lower b = if leb 65 b && leb b 90 then b + 32 else b

-- byte(…) of the three decimal digits
abbrev pub decimal : ℕ → ℕ → ℕ → ℕ
decimal c d e = ((c - 48) * 100 + (d - 48) * 10 + (e - 48)) % 256

-- The loop over the text: an escape of three digits, an escape of one character, or a plain byte.
unfoldable pub canonical_label_bytes : List ℕ → List ℕ
canonical_label_bytes [] = []
canonical_label_bytes (b ∷ []) = lower b ∷ []
canonical_label_bytes (b ∷ c ∷ []) = elim (b == backslash) [
  | true ↦ lower c ∷ []
  | false ↦ lower b ∷ canonical_label_bytes (c ∷ [])
]
canonical_label_bytes (b ∷ c ∷ d ∷ []) = elim (b == backslash) [
  | true ↦ lower c ∷ canonical_label_bytes (d ∷ [])
  | false ↦ lower b ∷ canonical_label_bytes (c ∷ d ∷ [])
]
canonical_label_bytes (b ∷ c ∷ d ∷ e ∷ text) = elim (b == backslash) [
  | true ↦ elim (is_digit c && (is_digit d && is_digit e)) [
    | true ↦ lower (decimal c d e) ∷ canonical_label_bytes text
    | false ↦ lower c ∷ canonical_label_bytes (d ∷ e ∷ text)
  ]
  | false ↦ lower b ∷ canonical_label_bytes (c ∷ d ∷ e ∷ text)
]

-- One octet as it is written.
unfoldable pub escape : ℕ → List ℕ
escape c =
    if c == dot
    then backslash ∷ dot ∷ []
    else if c == backslash
    then backslash ∷ backslash ∷ []
    else if c == asterisk
    then backslash ∷ asterisk ∷ []
    else if ltb c 33 || ltb 126 c
    then backslash ∷ (48 + c / 100) ∷ (48 + c / 10 % 10) ∷ (48 + c % 10) ∷ []
    else c ∷ []

pub escape_all : List ℕ → List ℕ
unfolding escape
escape_all [] = []
escape_all (c ∷ raw) = escape c ++ escape_all raw

-- A label that is exactly an asterisk is the wildcard, and is written bare.
unfoldable pub write_label : List ℕ → List ℕ
unfolding escape_all
write_label [] = []
write_label (c ∷ []) = if c == asterisk then asterisk ∷ [] else escape_all (c ∷ [])
write_label (c ∷ d ∷ raw) = escape_all (c ∷ d ∷ raw)

unfoldable pub canonical_label : List ℕ → List ℕ
unfolding canonical_label_bytes write_label
canonical_label label = write_label (canonical_label_bytes label)
