-- ===== src/Names/Labels/Laws.antt =====
-- The canonical text of a label stands for its octets (signer/internal/signer/zonemodel.go).
use mathlib.Core.Path.{subst}
use sigillum_dnssec.Prelude.{
  ℕ, ◌<◌, ◌≡◌, ◌↔◌, refl, sym, ap, ◌∙◌, Bool, true, false, not, ◌&&◌, ◌||◌, inl, inr, ◌+◌, ◌/◌, ◌%◌,
  Bool-cases, List, [], ◌∷◌, ◌++◌, arith, ltb, leb, ◌==◌, if◌then◌else◌,
}
use sigillum_dnssec.Names.Labels.{
  lower, dot, backslash, asterisk, is_digit, decimal, canonical_label_bytes, escape, escape_all,
  write_label, canonical_label,
}

-- An octet that is not an upper-case letter.
abbrev pub is_canonical : ℕ → Bool
is_canonical c = ltb c 256 && not (leb 65 c && leb c 90)

pub AllCanonical : List ℕ → Type 0
AllCanonical [] = Unit
AllCanonical (c ∷ raw) = (is_canonical c ≡ true) × AllCanonical raw

unfoldable pub AllBytes : List ℕ → Type 0
AllBytes [] = Unit
AllBytes (b ∷ text) = (b < 256) × AllBytes text

pub read_plain :
    (c : ℕ) (text : List ℕ)
    → (c == backslash) ≡ false
    → is_canonical c ≡ true
    → canonical_label_bytes (c ∷ text) ≡ c ∷ canonical_label_bytes text
unfolding canonical_label_bytes
read_plain c [] plain h = ground arith
read_plain c (b ∷ []) plain h = ground arith
read_plain c (b ∷ d ∷ []) plain h = ground arith
read_plain c (b ∷ d ∷ e ∷ text) plain h = ground arith

read_escaped :
    (c : ℕ) (text : List ℕ)
    → is_digit c ≡ false
    → is_canonical c ≡ true
    → canonical_label_bytes (backslash ∷ c ∷ text) ≡ c ∷ canonical_label_bytes text
unfolding canonical_label_bytes
read_escaped c [] mark h = ground arith
read_escaped c (b ∷ []) mark h = ground arith
read_escaped c (b ∷ d ∷ text) mark h = ground arith

read_decimal :
    (c : ℕ) (text : List ℕ)
    → is_canonical c ≡ true
    → canonical_label_bytes (backslash ∷ (48 + c / 100) ∷ (48 + c / 10 % 10) ∷ (48 + c % 10) ∷ text)
      ≡ c ∷ canonical_label_bytes text
unfolding canonical_label_bytes
read_decimal c text h = ground arith

read_escape :
    (c : ℕ) (text : List ℕ)
    → is_canonical c ≡ true
    → canonical_label_bytes (escape c ++ text) ≡ c ∷ canonical_label_bytes text
unfolding escape
read_escape c text h = elim (Bool-cases (c == dot || (c == backslash || c == asterisk))) [
  | inl mark ↦ ground (arith, read_escaped c text (ground arith) h)
  | inr plain ↦ ground (arith, read_decimal c text h, read_plain c text (ground arith) h)
]

read_escape_all : (raw : List ℕ) → AllCanonical raw → canonical_label_bytes (escape_all raw) ≡ raw
unfolding escape_all AllCanonical
read_escape_all [] h = unfold canonical_label_bytes in refl
read_escape_all (c ∷ raw) h =
    read_escape c (escape_all raw) h.0 ∙ ap (λ l. c ∷ l) (read_escape_all raw h.1)

read-write_label : (raw : List ℕ) → AllCanonical raw → canonical_label_bytes (write_label raw) ≡ raw
unfolding write_label
read-write_label [] h = unfold canonical_label_bytes in refl
read-write_label (c ∷ []) h = elim (Bool-cases (c == asterisk)) [
  | inl star ↦ unfold canonical_label_bytes in ground arith
  | inr other ↦
      subst
        (λ test.
          canonical_label_bytes (if test then asterisk ∷ [] else escape_all (c ∷ [])) ≡ c ∷ [])
        (sym other) (read_escape_all (c ∷ []) h)
]
read-write_label (c ∷ d ∷ raw) h = read_escape_all (c ∷ d ∷ raw) h

lower-canonical : (b : ℕ) → b < 256 → is_canonical (lower b) ≡ true
lower-canonical b h = ground arith

either-canonical :
    (test : Bool) (xs ys : List ℕ)
    → AllCanonical xs
    → AllCanonical ys
    → AllCanonical (elim test [ true ↦ xs | false ↦ ys ])
either-canonical true xs ys h k = h
either-canonical false xs ys h k = k

cons-canonical : (b : ℕ) (raw : List ℕ) → b < 256 → AllCanonical raw → AllCanonical (lower b ∷ raw)
unfolding AllCanonical
cons-canonical b raw small h = (lower-canonical b small, h)

read-canonical : (text : List ℕ) → AllBytes text → AllCanonical (canonical_label_bytes text)
unfolding AllBytes canonical_label_bytes
read-canonical [] h = unfold AllCanonical in tt
read-canonical (b ∷ []) h = cons-canonical b [] h.0 (unfold AllCanonical in tt)
read-canonical (b ∷ c ∷ []) h =
    let rest = read-canonical (c ∷ []) h.1 in
    either-canonical (b == backslash) _ _ (cons-canonical c [] h.1.0 (unfold AllCanonical in tt))
      (cons-canonical b _ h.0 rest)
read-canonical (b ∷ c ∷ d ∷ []) h =
    either-canonical (b == backslash) _ _ (cons-canonical c _ h.1.0 (read-canonical (d ∷ []) h.1.1))
      (cons-canonical b _ h.0 (read-canonical (c ∷ d ∷ []) h.1))
read-canonical (b ∷ c ∷ d ∷ e ∷ text) h =
    either-canonical (b == backslash) _ _
      (either-canonical (is_digit c && (is_digit d && is_digit e)) _ _
        (cons-canonical (decimal c d e) _ (omega arith) (read-canonical text h.1.1.1.1))
        (cons-canonical c _ h.1.0 (read-canonical (d ∷ e ∷ text) h.1.1)))
      (cons-canonical b _ h.0 (read-canonical (c ∷ d ∷ e ∷ text) h.1))

-- The canonical text of a label is read back as the octets of the label, so that two texts have
-- the same canonical text exactly when they are spellings of the same octets: an owner that is
-- spelt in two ways is one owner, and two owners never become one.
pub canonical_label_injective :
    (a b : List ℕ)
    → AllBytes a
    → AllBytes b
    → (canonical_label_bytes (canonical_label a) ≡ canonical_label_bytes a)
      × ((canonical_label a ≡ canonical_label b)
          ↔ (canonical_label_bytes a ≡ canonical_label_bytes b))
unfolding canonical_label
canonical_label_injective a b bytes_a bytes_b =
    let back_a = read-write_label (canonical_label_bytes a) (read-canonical a bytes_a) in
    let back_b = read-write_label (canonical_label_bytes b) (read-canonical b bytes_b) in
    (
      back_a,
      (λ same. sym back_a ∙ (ap canonical_label_bytes same ∙ back_b), λ same. ap write_label same),
    )
