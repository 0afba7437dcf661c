-- ===== src/Names/Text.antt =====
-- Names as texts (validator/internal/validator/nsec.go). A text is given by the pieces between its
-- dots, escaped ones included, from the root down, and "." by no piece. The DNS library, a
-- parameter, splits a text into the texts of its labels.
use sigillum_dnssec.Prelude.{
  ◌≡◌, refl, ap, ◌∙◌, ℕ, Bool, true, false, ◌&&◌, ◌||◌, [], ◌∷◌, map, arith, leb, ◌==◌,
}
use sigillum_dnssec.Names.{Label, Name}
use sigillum_dnssec.Names.Labels.{canonical_label_bytes}
use sigillum_dnssec.Names.Labels.Laws.{read_plain}

-- A lower-case letter, a digit, "-", "_" or "*": an octet that every text writes as it is.
abbrev pub is_plain_byte : ℕ → Bool
is_plain_byte b =
    leb 97 b && leb b 122 || (leb 48 b && leb b 57 || (b == 45 || (b == 95 || b == 42)))

unfoldable pub is_plain_label : Label → Bool
is_plain_label [] = true
is_plain_label (b ∷ label) = is_plain_byte b && is_plain_label label

abbrev pub is_filled : Label → Bool
is_filled [] = false
is_filled (b ∷ label) = true

-- A name of which every label is a non-empty run of such octets.
unfoldable pub is_plain : Name → Bool
unfolding is_plain_label
is_plain [] = true
is_plain (label ∷ name) = is_filled label && (is_plain_label label && is_plain name)

-- `dns.SplitDomainName` of a text without an escape or an empty label: its pieces.
unfoldable pub IsSplit : (Name → Name) → Type 0
IsSplit split = (text : Name) → is_plain text ≡ true → split text ≡ text

-- The labels of a text, with `canonicalLabelBytes` of each.
unfoldable pub decoded : (Name → Name) → Name → Name
unfolding canonical_label_bytes
decoded split text = map canonical_label_bytes (split text)

pub plain_label-decoded :
    (label : Label) → is_plain_label label ≡ true → canonical_label_bytes label ≡ label
unfolding is_plain_label canonical_label_bytes
plain_label-decoded [] h = refl
plain_label-decoded (b ∷ label) h =
    read_plain b label (ground (arith, h)) (ground (arith, h))
    ∙ ap (λ rest. b ∷ rest) (plain_label-decoded label (ground (arith, h)))

plain-map : (name : Name) → is_plain name ≡ true → map canonical_label_bytes name ≡ name
unfolding is_plain
plain-map [] h = refl
plain-map (label ∷ name) h = ground (arith, h, plain_label-decoded label, plain-map name)

pub plain-decoded :
    (split : Name → Name) (name : Name)
    → IsSplit split
    → is_plain name ≡ true
    → decoded split name ≡ name
unfolding decoded IsSplit
plain-decoded split name splits h =
    ap (map canonical_label_bytes) (splits name h) ∙ plain-map name h
