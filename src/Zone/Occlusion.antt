-- ===== src/Zone/Occlusion.antt =====
-- Which names a zone cut or a DNAME hides (signer/internal/signer/zonemodel.go `isOccluded`,
-- `occludingDNAME`).
use mathlib.Core.Path.{subst}
use sigillum_dnssec.Prelude.{
  ℕ, zero, suc, ◌≡◌, ◌<◌, ◌≤◌, ◌+◌, ◌-◌, ◌↔◌, ◌⊎◌, inl, inr, refl, sym, ◌∙◌, ap, Bool, true, false,
  ◌&&◌, ◌||◌, List, [], ◌∷◌, ◌++◌, arith, length, if◌then◌else◌, Bool-cases,
}
use sigillum_dnssec.Names.{Label, Name}
use sigillum_dnssec.Sets.{name_order, has}
use sigillum_dnssec.Zone.{
  ZoneModel, take_labels, ancestors, ancestors_below, any_cut, is_occluded, is_empty,
}

pub apex-is_occluded : (m : ZoneModel) → is_occluded m m.apex ≡ false
unfolding is_occluded ancestors_below ancestors any_cut
apex-is_occluded m =
    let none_between : 0 ≡ length m.apex - length m.apex - 1 = omega arith in
    subst
      (λ n.
        (if is_empty m.delegations && is_empty m.dnames
          then false
          else any_cut m (ancestors m.apex 1 n))
        ≡ false)
      none_between (ground arith)

abbrev pub is_cut : ZoneModel → Name → Bool
is_cut m name = has name m.delegations || has name m.dnames

pub IsProperAncestor : Name → Name → Type 0
IsProperAncestor anc name = (label : Label) × ((rest : Name) × (name ≡ anc ++ label ∷ rest))

take_append : (anc rest : Name) → take_labels (length anc) (anc ++ rest) ≡ anc
unfolding take_labels
take_append [] rest = refl
take_append (label ∷ anc) rest = ap (λ a. label ∷ a) (take_append anc rest)

take_length : (n : ℕ) (name : Name) → n ≤ length name → length (take_labels n name) ≡ n
unfolding take_labels
take_length zero name h = refl
take_length (suc n) [] h = omega (arith, h)
take_length (suc n) (label ∷ name) h = omega (arith, take_length n name (omega (arith, h)))

take_proper : (n : ℕ) (name : Name) → n < length name → IsProperAncestor (take_labels n name) name
unfolding take_labels IsProperAncestor
take_proper n [] h = absurd (omega (arith, h))
take_proper zero (label ∷ name) h = (label, (name, refl))
take_proper (suc n) (label ∷ name) h =
    let below = take_proper n name (omega (arith, h)) in
    (below.0, (below.1.0, ap (λ a. label ∷ a) below.1.1))

find_cut :
    (m : ZoneModel) (name : Name) (i remain : ℕ)
    → any_cut m (ancestors name i remain) ≡ true
    → (j : ℕ) × ((i ≤ j)
        × ((j < i + remain) × (is_cut m (take_labels (length name - j) name) ≡ true)))
unfolding any_cut ancestors
find_cut m name i zero h = absurd (cc h)
find_cut m name i (suc remain) h =
    elim (Bool-cases (is_cut m (take_labels (length name - i) name))) [
      | inl cut ↦ (i, (omega arith, (omega arith, cut)))
      | inr plain ↦
          let later = find_cut m name (suc i) remain (ground (arith, h, plain)) in
          (later.0, (omega (arith, later.1.0), (omega (arith, later.1.1.0), later.1.1.1)))
    ]

meets_cut :
    (m : ZoneModel) (name : Name) (i j remain : ℕ)
    → i ≤ j
    → j < i + remain
    → is_cut m (take_labels (length name - j) name) ≡ true
    → any_cut m (ancestors name i remain) ≡ true
unfolding any_cut ancestors
meets_cut m name i j zero h k cut = absurd (omega (arith, h, k))
meets_cut m name i j (suc remain) h k cut =
    let here : (i ≡ j) ⊎ (i < j) = omega (arith, h) in
    elim here [
      | inl e ↦
          let now = subst (λ n. is_cut m (take_labels (length name - n) name) ≡ true) (sym e) cut in
          ground (arith, now)
      | inr less ↦
          let later =
            meets_cut m name (suc i) j remain (omega (arith, less)) (omega (arith, k)) cut in
          ground (arith, later)
    ]

empty_has : (name : Name) (names : List Name) → is_empty names ≡ true → has name names ≡ false
unfolding has
empty_has name [] h = refl
empty_has name (x ∷ names) h = absurd (cc h)

no_cut :
    (m : ZoneModel) (ancs : List Name)
    → (is_empty m.delegations && is_empty m.dnames) ≡ true
    → any_cut m ancs ≡ false
unfolding any_cut
no_cut m [] h = refl
no_cut m (anc ∷ ancs) h =
    ground (arith, h, empty_has anc m.delegations, empty_has anc m.dnames, no_cut m ancs h)

-- The early return on a zone without cuts changes nothing.
is_occluded-any_cut :
    (m : ZoneModel) (name : Name) → is_occluded m name ≡ any_cut m (ancestors_below m.apex name)
unfolding is_occluded
is_occluded-any_cut m name = ground (arith, no_cut m (ancestors_below m.apex name))

length-suffix :
    (anc : Name) (label : Label) (rest : Name) → length anc < length (anc ++ label ∷ rest)
length-suffix [] label rest = omega arith
length-suffix (x ∷ anc) label rest = omega (arith, length-suffix anc label rest)

ancestor_cut :
    (m : ZoneModel) (name cut : Name)
    → is_cut m cut ≡ true
    → length m.apex < length cut
    → IsProperAncestor cut name
    → any_cut m (ancestors_below m.apex name) ≡ true
unfolding ancestors_below IsProperAncestor
ancestor_cut m name cut test deep (label, (rest, e)) =
    let longer : length cut < length name =
      subst (λ n. length cut < length n) (sym e) (length-suffix cut label rest) in
    let index : length cut ≡ length name - (length name - length cut) = omega (arith, longer) in
    let here : take_labels (length cut) name ≡ cut =
      ap (take_labels (length cut)) e ∙ take_append cut (label ∷ rest) in
    meets_cut m name 1 (length name - length cut) _ (omega (arith, longer))
      (omega (arith, longer, deep))
      (subst (λ n. is_cut m (take_labels n name) ≡ true) index (ap (is_cut m) here ∙ test))

-- A name is occluded exactly when one of its proper ancestors, which has more labels than the apex,
-- is a delegation point or owns a DNAME.
pub is_occluded_iff :
    (m : ZoneModel) (name : Name)
    → (is_occluded m name ≡ true) ↔ (
        (cut : Name) × ((is_cut m cut ≡ true)
          × ((length m.apex < length cut) × IsProperAncestor cut name)))
unfolding ancestors_below
is_occluded_iff m name = (
  λ h.
      let found = find_cut m name 1 _ (sym (is_occluded-any_cut m name) ∙ h) in
      let n = length name - found.0 in
      let short : n < length name = omega (arith, found.1.0, found.1.1.0) in
      (
        take_labels n name,
        (
          found.1.1.1,
          (
            omega (arith, take_length n name (omega (arith, short)), found.1.0, found.1.1.0),
            take_proper n name short,
          ),
        ),
      ),
  λ (cut, (test, (deep, below))).
      is_occluded-any_cut m name ∙ ancestor_cut m name cut test deep below,
)
