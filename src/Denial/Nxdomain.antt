-- ===== src/Denial/Nxdomain.antt =====
-- An accepted NXDOMAIN proof is true (validator/internal/validator/nsec.go `verifyNSECNXDOMAIN`).
use mathlib.Core.List.{Memᴰ}
use sigillum_dnssec.Prelude.{
  ℕ, ◌≡◌, inl, inr, refl, Bool, true, false, Option, none, some, List, arith, Result, ok, err,
  if◌then◌else◌,
}
use sigillum_dnssec.Names.{Name}
use sigillum_dnssec.Names.Text.{is_plain, IsSplit}
use sigillum_dnssec.Sets.{name_order, number_order, same, has}
use sigillum_dnssec.Zone.{labels_within}
use sigillum_dnssec.Zone.Chain.{Nsec}
use sigillum_dnssec.Denial.{
  DenialError, NsecProof, then_ok, closest_encloser_from_nsec, next_closer_name, wildcard_name,
  nsec_endpoint_below, nsec_ancestor_boundary, find_cover, nxdomain_covered, verify_nsec_nxdomain,
  nxdomain, wildcard_exists, wildcard_not_covered, name_exists, not_covered, empty_non_terminal,
  encloser_is_name,
}
use sigillum_dnssec.Denial.Records.{
  AllTruthful, plain_records, IsNotAbove, IsSubDomainTest, boundary-IsNotAbove, then_ok-ok,
  find_cover-ok, covered_absent,
}
use sigillum_dnssec.Denial.Enclosers.{closer_fresh, encloser_exists, encloser_within}
use sigillum_dnssec.Denial.Intervals.{plain_within, plain_wildcard}

abbrev encloser_of : Name → Nsec → Name
encloser_of qname n = closest_encloser_from_nsec qname n.owner n.next_domain

abbrev pub nxdomain_proof : Name → Name → NsecProof
nxdomain_proof qname ce = record {
  proof_type = nxdomain;
  closest_encloser = some ce;
  next_closer = some (next_closer_name qname ce);
  opt_out = false;
}

-- What an accepted proof says of a zone with the given owners, `other` being one of them.
unfoldable pub IsDenied : List Name → Name → Name → NsecProof → Type 0
IsDenied names qname other proof =
    (ce : Name) × ((nxdomain_proof qname ce ≡ proof)
      × ((has qname names ≡ false)
          × ((labels_within other (next_closer_name qname ce) ≡ false)
              × ((has (wildcard_name ce) names ≡ false)
                  × ((e : Name) × ((has e names ≡ true) × (labels_within e ce ≡ true)))))))

covered_stages :
    (below at_name : Bool) (search : Result DenialError Nsec) (answer proof : NsecProof)
    → (if below
        then err empty_non_terminal
        else if at_name
        then err encloser_is_name
        else then_ok search (λ cover. ok answer))
      ≡ ok proof
    → (at_name ≡ false) × ((answer ≡ proof) × ((n : Nsec) × (search ≡ ok n)))
covered_stages true at_name search answer proof h = absurd (cc h)
covered_stages false true search answer proof h = absurd (cc h)
covered_stages false false search answer proof h =
    let found = then_ok-ok search (λ cover. ok answer) proof h in
    (refl, (ground (arith, found.1.1), (found.0, found.1.0)))

nxdomain_stages :
    (boundary : Option DenialError) (search : Result DenialError Nsec)
    (next : Nsec → Result DenialError NsecProof) (proof : NsecProof)
    → elim boundary [ some e ↦ err e | none ↦ then_ok search next ] ≡ ok proof
    → (boundary ≡ none) × ((n : Nsec) × ((search ≡ ok n) × (next n ≡ ok proof)))
nxdomain_stages none search next proof h = (refl, then_ok-ok search next proof h)
nxdomain_stages (some e) search next proof h = absurd (cc h)

module _ (split : Name → Name) (splits : IsSplit split) (is_sub_domain : Name → Name → Bool)
    (tests : IsSubDomainTest is_sub_domain) (names : List Name) (types : Name → List ℕ)
    (qname : Name) (nsecs : List Nsec) (plain : is_plain qname ≡ true)
    (plain_nsecs : plain_records nsecs ≡ true) (truthful : AllTruthful names types nsecs) where
  nxdomain_covered-ok :
      (n : Nsec) (proof : NsecProof)
      → nxdomain_covered split is_sub_domain qname nsecs n ≡ ok proof
      → (same (encloser_of qname n) qname ≡ false)
        × ((nxdomain_proof qname (encloser_of qname n) ≡ proof)
            × (has (wildcard_name (encloser_of qname n)) names ≡ false))
  unfolding nxdomain_covered
  nxdomain_covered-ok n proof h =
      let ce = encloser_of qname n in
      let stages =
        covered_stages (nsec_endpoint_below is_sub_domain qname n.next_domain) (same ce qname)
          (find_cover split wildcard_exists wildcard_not_covered (wildcard_name ce) nsecs)
          (nxdomain_proof qname ce) proof h in
      let cover =
        find_cover-ok names types split splits wildcard_exists wildcard_not_covered
          (wildcard_name ce) nsecs stages.1.1.0
          (plain_wildcard ce
            (plain_within qname ce (encloser_within qname n.owner n.next_domain) plain))
          plain_nsecs truthful stages.1.1.1 in
      (
        stages.0,
        (stages.1.0, covered_absent names types (wildcard_name ce) stages.1.1.0 cover.0 cover.1),
      )

  -- What an accepted proof says when its records are records of a zone: the name owns nothing; the
  -- proof names a closest encloser, at or below which the zone has an owner; no owner of the zone is
  -- at or below the next closer name, so that the name is no empty non-terminal either; the wildcard
  -- at the closest encloser owns nothing; and no record of the response stands above the name as a
  -- DNAME or as the parent side of a zone cut.
  pub verify_nsec_nxdomain_sound :
      (proof : NsecProof) (other : Name) (r : Nsec)
      → verify_nsec_nxdomain split is_sub_domain qname nsecs ≡ ok proof
      → has other names ≡ true
      → Memᴰ r nsecs
      → IsDenied names qname other proof × IsNotAbove qname r
  unfolding verify_nsec_nxdomain IsDenied
  verify_nsec_nxdomain_sound proof other r h owner member =
      let stages =
        nxdomain_stages (nsec_ancestor_boundary is_sub_domain qname nsecs)
          (find_cover split name_exists not_covered qname nsecs)
          (nxdomain_covered split is_sub_domain qname nsecs) proof h in
      let n = stages.1.0 in
      let cover =
        find_cover-ok names types split splits name_exists not_covered qname nsecs n plain
          plain_nsecs truthful stages.1.1.0 in
      let accepted = nxdomain_covered-ok n proof stages.1.1.1 in
      let ce = encloser_of qname n in
      (
        (
          ce,
          (
            accepted.1.0,
            (
              covered_absent names types qname n cover.0 cover.1,
              (
                closer_fresh qname n.owner n.next_domain other cover.1 (cover.0.skips other owner)
                    accepted.0,
                (
                  accepted.1.1,
                  elim (encloser_exists qname n.owner n.next_domain) [
                    | inl left ↦ (n.owner, (cover.0.owned, left))
                    | inr right ↦ (n.next_domain, (cover.0.next_owned, right))
                  ],
                ),
              ),
            ),
          ),
        ),
        boundary-IsNotAbove is_sub_domain tests qname nsecs r plain plain_nsecs stages.0 member,
      )
