-- ===== src/Denial/Wildcard.antt =====
-- The denial half of a wildcard answer, with NSEC records (validator/internal/validator/nsec.go
-- `VerifyWildcardDenial`).
use mathlib.Core.List.{Memᴰ}
use mathlib.Core.Path.{subst}
use sigillum_dnssec.Prelude.{
  ℕ, ◌+◌, ◌<◌, ◌≡◌, ◌⊎◌, inl, inr, refl, sym, ◌∙◌, ap, Bool, true, false, not, Option, none, some,
  List, [], ◌∷◌, arith, Result, ok, err, Bool-cases, if◌then◌else◌, leb, length,
}
use sigillum_dnssec.Names.{Name}
use sigillum_dnssec.Names.Text.{is_plain, IsSplit}
use sigillum_dnssec.Sets.{name_order, number_order, same, has}
use sigillum_dnssec.Zone.{labels_within, take_labels}
use sigillum_dnssec.Zone.Chain.{Nsec}
use sigillum_dnssec.Denial.{
  DenialError, NsecProof, canonically_between, text_between, closest_encloser_from_nsec,
  next_closer_name, get_zone_labels, last_n_labels, nsec_endpoint_below, nsec_ancestor_boundary,
  wildcard, name_exists, next_closer_exists, empty_non_terminal, encloser_differs, not_an_expansion,
  no_records, not_covered,
}
use sigillum_dnssec.Denial.Records.{
  IsTruthful, AllTruthful, plain_records, IsNotAbove, IsSubDomainTest, boundary-IsNotAbove,
  covered_absent,
}
use sigillum_dnssec.Denial.Intervals.{text_between-plain}
use sigillum_dnssec.Denial.Enclosers.{closer_fresh, encloser_exists, take_short}

abbrev pub wildcard_proof : Name → Name → NsecProof
wildcard_proof claimed closer = record {
  proof_type = wildcard;
  closest_encloser = some claimed;
  next_closer = some closer;
  opt_out = false;
}

module _ (split : Name → Name) (is_sub_domain : Name → Name → Bool) where
  -- The loop over the records, with the claimed closest encloser and the next closer name.
  unfoldable pub wildcard_loop : Name → Name → Name → List Nsec → Result DenialError NsecProof
  unfolding text_between nsec_endpoint_below closest_encloser_from_nsec
  wildcard_loop qname claimed closer [] = err not_covered
  wildcard_loop qname claimed closer (n ∷ nsecs) =
      let rest = wildcard_loop qname claimed closer nsecs in
      if same n.owner qname
      then err name_exists
      else if same n.owner closer
      then err next_closer_exists
      else if not (text_between split qname n.owner n.next_domain)
      then rest
      else if nsec_endpoint_below is_sub_domain qname n.next_domain
      then err empty_non_terminal
      else if not (same (closest_encloser_from_nsec qname n.owner n.next_domain) claimed)
      then err encloser_differs
      else ok (wildcard_proof claimed closer)

  unfoldable pub verify_wildcard_denial : Name → ℕ → List Nsec → Result DenialError NsecProof
  unfolding nsec_ancestor_boundary wildcard_loop
  verify_wildcard_denial qname wildcard_labels nsecs =
      let claimed = last_n_labels qname wildcard_labels in
      let closer = last_n_labels qname (wildcard_labels + 1) in
      let answer : Result DenialError NsecProof =
        elim (nsec_ancestor_boundary is_sub_domain qname nsecs) [
          | some e ↦ err e
          | none ↦ wildcard_loop qname claimed closer nsecs
        ] in
      if leb (get_zone_labels qname) wildcard_labels
      then err not_an_expansion
      else elim nsecs [ [] ↦ err no_records | _ ∷ _ ↦ answer ]

  -- The outcome of a record, by its tests.
  loop_either :
      (owner closer_owned covered below agrees : Bool) (rest : Result DenialError NsecProof)
      (answer proof : NsecProof)
      → (if owner
          then err name_exists
          else if closer_owned
          then err next_closer_exists
          else if not covered
          then rest
          else if below
          then err empty_non_terminal
          else if not agrees
          then err encloser_differs
          else ok answer)
        ≡ ok proof
      → ((covered ≡ true) × ((agrees ≡ true) × (answer ≡ proof))) ⊎ (rest ≡ ok proof)
  loop_either true closer_owned covered below agrees rest answer proof h = absurd (cc h)
  loop_either false true covered below agrees rest answer proof h = absurd (cc h)
  loop_either false false false below agrees rest answer proof h = inr h
  loop_either false false true true agrees rest answer proof h = absurd (cc h)
  loop_either false false true false false rest answer proof h = absurd (cc h)
  loop_either false false true false true rest answer proof h =
      inl (refl, (refl, ground (arith, h)))

  module _ (splits : IsSplit split) (names : List Name) (types : Name → List ℕ) where
    wildcard_loop-ok :
        (qname claimed closer : Name) (nsecs : List Nsec) (proof : NsecProof)
        → is_plain qname ≡ true
        → plain_records nsecs ≡ true
        → AllTruthful names types nsecs
        → wildcard_loop qname claimed closer nsecs ≡ ok proof
        → (n : Nsec) × (IsTruthful names types n
            × ((canonically_between qname n.owner n.next_domain ≡ true)
                × ((closest_encloser_from_nsec qname n.owner n.next_domain ≡ claimed)
                    × (wildcard_proof claimed closer ≡ proof))))
    unfolding wildcard_loop AllTruthful plain_records
    wildcard_loop-ok qname claimed closer [] proof p ps truthful h = absurd (cc h)
    wildcard_loop-ok qname claimed closer (n ∷ nsecs) proof p ps truthful h =
        let ce = closest_encloser_from_nsec qname n.owner n.next_domain in
        elim (loop_either (same n.owner qname) (same n.owner closer)
          (text_between split qname n.owner n.next_domain)
          (nsec_endpoint_below is_sub_domain qname n.next_domain) (same ce claimed)
          (wildcard_loop qname claimed closer nsecs) (wildcard_proof claimed closer) proof h) [
            | inl here ↦ (
              n,
              (
                truthful.0,
                (
                  sym (
                        text_between-plain split qname n.owner n.next_domain splits p
                          (ground (arith, ps)) (ground (arith, ps)))
                      ∙ here.0,
                  (ground (arith, here.1.0, name_order.eq_of_cmp ce claimed), here.1.1),
                ),
              ),
            )
            | inr later ↦
                wildcard_loop-ok qname claimed closer nsecs proof p (ground (arith, ps)) truthful.1
                  later
          ]

    wildcard_stages :
        (too_many : Bool) (boundary : Option DenialError) (r : Result DenialError NsecProof)
        (proof : NsecProof)
        → (if too_many then err not_an_expansion else elim boundary [ some e ↦ err e | none ↦ r ])
          ≡ ok proof
        → (too_many ≡ false) × ((boundary ≡ none) × (r ≡ ok proof))
    wildcard_stages true boundary r proof h = absurd (cc h)
    wildcard_stages false (some e) r proof h = absurd (cc h)
    wildcard_stages false none r proof h = (refl, (refl, h))

    verify_wildcard_denial-loop :
        (qname : Name) (labels : ℕ) (nsecs : List Nsec) (proof : NsecProof)
        → verify_wildcard_denial qname labels nsecs ≡ ok proof
        → (labels < length qname)
          × ((nsec_ancestor_boundary is_sub_domain qname nsecs ≡ none)
              × (wildcard_loop qname
                    (last_n_labels qname labels)
                    (last_n_labels qname (labels + 1))
                    nsecs
                  ≡ ok proof))
    unfolding verify_wildcard_denial
    verify_wildcard_denial-loop qname labels [] proof h = absurd (ground (arith, h))
    verify_wildcard_denial-loop qname labels (n ∷ nsecs) proof h =
        let stages =
          wildcard_stages (leb (length qname) labels)
            (nsec_ancestor_boundary is_sub_domain qname (n ∷ nsecs))
            (wildcard_loop qname (last_n_labels qname labels) (last_n_labels qname (labels + 1))
              (n ∷ nsecs))
            proof h in
        (ground (arith, stages.0), stages.1)

    closer_of_claimed :
        (qname ce : Name) (labels : ℕ)
        → labels < length qname
        → ce ≡ last_n_labels qname labels
        → (same ce qname ≡ false) × (next_closer_name qname ce ≡ last_n_labels qname (labels + 1))
    unfolding next_closer_name
    closer_of_claimed qname ce labels short e =
        let size : length ce ≡ labels =
          ap length e ∙ take_short labels qname (omega (arith, short)) in
        let proper : same ce qname ≡ false = elim (Bool-cases (same ce qname)) [
          | inl is ↦
              let equal : ce ≡ qname = ground (arith, is, name_order.eq_of_cmp ce qname) in
              absurd (omega (arith, size, short, ap length equal))
          | inr is_not ↦ is_not
        ] in
        (proper, rw proper (ap (λ n. take_labels (n + 1) qname) size))

    -- What an accepted wildcard denial says when its records are records of a zone and the names of
    -- the query and of the records are plain (each label is a non-empty run of lower-case letters,
    -- digits, hyphens, underscores and asterisks): the name owns nothing, the signature's label
    -- count is below the name's, the zone has an owner at or below the claimed closest encloser and
    -- no owner at or below the next closer name, and no record of the response stands above the
    -- name as a DNAME or as the parent side of a zone cut.
    pub verify_wildcard_denial_sound :
        (qname : Name) (labels : ℕ) (nsecs : List Nsec) (proof : NsecProof) (other : Name)
        (r : Nsec)
        → IsSubDomainTest is_sub_domain
        → is_plain qname ≡ true
        → plain_records nsecs ≡ true
        → AllTruthful names types nsecs
        → verify_wildcard_denial qname labels nsecs ≡ ok proof
        → has other names ≡ true
        → Memᴰ r nsecs
        → (labels < length qname)
          × ((has qname names ≡ false)
              × ((labels_within other (last_n_labels qname (labels + 1)) ≡ false)
                  × (((e : Name) × ((has e names ≡ true)
                          × (labels_within e (last_n_labels qname labels) ≡ true)))
                      × IsNotAbove qname r)))
    verify_wildcard_denial_sound qname labels nsecs proof other r tests p ps truthful h owner m =
        let entry = verify_wildcard_denial-loop qname labels nsecs proof h in
        let claimed = last_n_labels qname labels in
        let found =
          wildcard_loop-ok qname claimed (last_n_labels qname (labels + 1)) nsecs proof p ps
            truthful entry.1.1 in
        let n = found.0 in
        let ce = closest_encloser_from_nsec qname n.owner n.next_domain in
        let agrees : ce ≡ claimed = found.1.1.1.0 in
        let closer = closer_of_claimed qname ce labels entry.0 agrees in
        (
          entry.0,
          (
            covered_absent names types qname n found.1.0 found.1.1.0,
            (
              subst (λ c. labels_within other c ≡ false) closer.1
                  (closer_fresh qname n.owner n.next_domain other found.1.1.0
                    (found.1.0.skips other owner) closer.0),
              (
                elim (encloser_exists qname n.owner n.next_domain) [
                  | inl left ↦ (
                    n.owner,
                    (found.1.0.owned, subst (λ c. labels_within n.owner c ≡ true) agrees left),
                  )
                  | inr right ↦ (
                    n.next_domain,
                    (
                      found.1.0.next_owned,
                      subst (λ c. labels_within n.next_domain c ≡ true) agrees right,
                    ),
                  )
                ],
                boundary-IsNotAbove is_sub_domain tests qname nsecs r p ps entry.1.0 m,
              ),
            ),
          ),
        )
