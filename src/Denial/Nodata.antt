-- ===== src/Denial/Nodata.antt =====
-- An accepted NODATA proof is true (validator/internal/validator/nsec.go `verifyNSECNODATA`).
use mathlib.Core.List.{Memᴰ}
use mathlib.Core.Path.{subst}
use sigillum_dnssec.Prelude.{
  ℕ, ◌≡◌, ◌⊎◌, inl, inr, refl, sym, ◌∙◌, ap, Bool, true, false, ◌&&◌, Option, none, some, List,
  arith, Result, ok, err, if◌then◌else◌,
}
use sigillum_dnssec.Names.{Name}
use sigillum_dnssec.Names.Text.{is_plain, IsSplit}
use sigillum_dnssec.Sets.{name_order, number_order, same, has}
use sigillum_dnssec.Zone.{labels_within, type_cname}
use sigillum_dnssec.Zone.Chain.{Nsec}
use sigillum_dnssec.Denial.{
  DenialError, NsecProof, canonically_between, compare_texts, closest_encloser_from_nsec,
  next_closer_name, wildcard_name, nsec_endpoint_below, nsec_ancestor_boundary, find_owned,
  find_between, bitmap_error, unless_error, is_parent_side, is_lt, nodata, nodata_covered,
  verify_nsec_nodata, not_covered,
}
use sigillum_dnssec.Denial.Records.{
  IsTruthful, AllTruthful, plain_records, IsNotAbove, IsSubDomainTest, boundary-IsNotAbove,
  unless_error-ok, find_owned-some, find_between-some, covered_absent,
}
use sigillum_dnssec.Denial.Enclosers.{encloser_within}

-- A bitmap that denies the type: no alias, no parent side of a cut, and no bit for the type.
pub Lacks : ℕ → List ℕ → Type 0
Lacks qtype bitmap =
    (has type_cname bitmap ≡ false) × ((is_parent_side bitmap ≡ false) × (has qtype bitmap ≡ false))

bitmap_error-Lacks :
    (qtype : ℕ) (bitmap : List ℕ) → bitmap_error qtype bitmap ≡ none → Lacks qtype bitmap
unfolding bitmap_error Lacks
bitmap_error-Lacks qtype bitmap h = ground (arith, h)

abbrev nodata_proof : Option Name → Option Name → NsecProof
nodata_proof ce closer = record {
  proof_type = nodata;
  closest_encloser = ce;
  next_closer = closer;
  opt_out = false;
}

either_ok :
    (test : Bool) (answer : NsecProof) (other : Result DenialError NsecProof) (proof : NsecProof)
    → (if test then ok answer else other) ≡ ok proof
    → (test ≡ true) ⊎ (other ≡ ok proof)
either_ok true answer other proof h = inl refl
either_ok false answer other proof h = inr h

after_boundary :
    (boundary : Option DenialError) (r : Result DenialError NsecProof) (proof : NsecProof)
    → elim boundary [ some e ↦ err e | none ↦ r ] ≡ ok proof
    → (boundary ≡ none) × (r ≡ ok proof)
after_boundary none r proof h = (refl, h)
after_boundary (some e) r proof h = absurd (cc h)

module _ (names : List Name) (types : Name → List ℕ) (qname : Name) (qtype : ℕ) where
  -- The name owns records, none of them of the type.
  pub LacksType : Type 0
  LacksType = (has qname names ≡ true) × Lacks qtype (types qname)

  -- The name owns no record and an owner is below it.
  pub IsEmptyNonTerminal : Type 0
  IsEmptyNonTerminal =
      (has qname names ≡ false)
      × ((below : Name) × ((has below names ≡ true)
            × ((labels_within below qname ≡ true) × (same below qname ≡ false))))

  -- The name owns no record, and the wildcard at one of its ancestors owns none of the type.
  pub WildcardLacks : Type 0
  WildcardLacks =
      (has qname names ≡ false)
      × ((ce : Name) × ((labels_within qname ce ≡ true)
            × ((has (wildcard_name ce) names ≡ true) × Lacks qtype (types (wildcard_name ce)))))

  answer_at :
      (name : Name) (nsecs : List Nsec) (n : Nsec) (answer proof : NsecProof)
      → AllTruthful names types nsecs
      → find_owned name nsecs ≡ some n
      → unless_error (bitmap_error qtype n.types) answer ≡ ok proof
      → (has name names ≡ true) × Lacks qtype (types name)
  answer_at name nsecs n answer proof truthful found h =
      let place = find_owned-some names types name nsecs n truthful found in
      let lacks =
        bitmap_error-Lacks qtype n.types
          (unless_error-ok (bitmap_error qtype n.types) answer proof h).0 in
      (
        ap (λ a. has a names) (sym place.1) ∙ place.0.owned,
        subst (Lacks qtype) (place.0.bitmap ∙ ap types place.1) lacks,
      )

  module _ (split : Name → Name) (splits : IsSplit split) (is_sub_domain : Name → Name → Bool)
      (tests : IsSubDomainTest is_sub_domain) (plain : is_plain qname ≡ true) where
    wildcard_answer :
        (nsecs : List Nsec) (ce : Name) (found : Option Nsec) (answer proof : NsecProof)
        → AllTruthful names types nsecs
        → find_owned (wildcard_name ce) nsecs ≡ found
        → elim found [
          | none ↦ err not_covered
          | some n ↦ unless_error (bitmap_error qtype n.types) answer
        ]
          ≡ ok proof
        → (has (wildcard_name ce) names ≡ true) × Lacks qtype (types (wildcard_name ce))
    wildcard_answer nsecs ce none answer proof truthful e h = absurd (cc h)
    wildcard_answer nsecs ce (some n) answer proof truthful e h =
        answer_at (wildcard_name ce) nsecs n answer proof truthful e h

    nodata_covered-ok :
        (nsecs : List Nsec) (n : Nsec) (proof : NsecProof)
        → AllTruthful names types nsecs
        → IsTruthful names types n
        → (canonically_between qname n.owner n.next_domain ≡ true) × (is_plain n.next_domain ≡ true)
        → nodata_covered split is_sub_domain qname qtype nsecs n ≡ ok proof
        → IsEmptyNonTerminal ⊎ WildcardLacks
    unfolding nodata_covered nsec_endpoint_below IsSubDomainTest IsEmptyNonTerminal WildcardLacks
    nodata_covered-ok nsecs n proof truthful place between h =
        let ce = closest_encloser_from_nsec qname n.owner n.next_domain in
        let absent = covered_absent names types qname n place between.0 in
        let test =
          nsec_endpoint_below is_sub_domain qname n.next_domain
          && is_lt (compare_texts split n.owner n.next_domain) in
        let wildcard_proof = nodata_proof (some ce) (some (next_closer_name qname ce)) in
        let other : Result DenialError NsecProof = elim (find_owned (wildcard_name ce) nsecs) [
          | none ↦ err not_covered
          | some w ↦ unless_error (bitmap_error qtype w.types) wildcard_proof
        ] in
        elim (either_ok test (nodata_proof (some qname) none) other proof h) [
          | inl below ↦ inl (
            absent,
            (
              n.next_domain,
              (place.next_owned, ground (arith, below, tests qname n.next_domain plain between.1)),
            ),
          )
          | inr wild ↦
              let answer =
                wildcard_answer nsecs ce (find_owned (wildcard_name ce) nsecs) wildcard_proof proof
                  truthful refl wild in
              inr (absent, (ce, (encloser_within qname n.owner n.next_domain, answer)))
        ]

    covered_answer :
        (nsecs : List Nsec) (found : Option Nsec) (proof : NsecProof)
        → plain_records nsecs ≡ true
        → AllTruthful names types nsecs
        → find_between split qname nsecs ≡ found
        → elim found [
          | none ↦ err not_covered
          | some n ↦ nodata_covered split is_sub_domain qname qtype nsecs n
        ]
          ≡ ok proof
        → IsEmptyNonTerminal ⊎ WildcardLacks
    covered_answer nsecs none proof ps truthful e h = absurd (cc h)
    covered_answer nsecs (some n) proof ps truthful e h =
        let place = find_between-some names types split splits qname nsecs n plain ps truthful e in
        nodata_covered-ok nsecs n proof truthful place.0 place.1 h

    exact_answer :
        (nsecs : List Nsec) (found : Option Nsec) (answer proof : NsecProof)
        → plain_records nsecs ≡ true
        → AllTruthful names types nsecs
        → find_owned qname nsecs ≡ found
        → elim found [
          | some n ↦ unless_error (bitmap_error qtype n.types) answer
          | none ↦ elim (find_between split qname nsecs) [
            | none ↦ err not_covered
            | some n ↦ nodata_covered split is_sub_domain qname qtype nsecs n
          ]
        ]
          ≡ ok proof
        → LacksType ⊎ (IsEmptyNonTerminal ⊎ WildcardLacks)
    unfolding LacksType
    exact_answer nsecs (some n) answer proof ps truthful e h =
        inl (answer_at qname nsecs n answer proof truthful e h)
    exact_answer nsecs none answer proof ps truthful e h =
        inr (covered_answer nsecs (find_between split qname nsecs) proof ps truthful refl h)

    -- What an accepted NODATA proof says when its records are records of a zone and the names of
    -- the query and of the records are plain (each label is a non-empty run of lower-case letters,
    -- digits, hyphens, underscores and asterisks): the name owns records, and its bitmap has
    -- neither the type nor an alias nor a cut; or it owns none and is an empty non-terminal; or it
    -- owns none, and the wildcard at one of its ancestors owns records of which the same holds. In
    -- each case no record of the response stands above the name as a DNAME or as the parent side of
    -- a zone cut.
    pub verify_nsec_nodata_sound :
        (nsecs : List Nsec) (proof : NsecProof) (r : Nsec)
        → plain_records nsecs ≡ true
        → AllTruthful names types nsecs
        → verify_nsec_nodata split is_sub_domain qname qtype nsecs ≡ ok proof
        → Memᴰ r nsecs
        → (LacksType ⊎ (IsEmptyNonTerminal ⊎ WildcardLacks)) × IsNotAbove qname r
    unfolding verify_nsec_nodata
    verify_nsec_nodata_sound nsecs proof r ps truthful h member =
        let stages = after_boundary (nsec_ancestor_boundary is_sub_domain qname nsecs) _ proof h in
        (
          exact_answer nsecs (find_owned qname nsecs) _ proof ps truthful refl stages.1,
          boundary-IsNotAbove is_sub_domain tests qname nsecs r plain ps stages.0 member,
        )
