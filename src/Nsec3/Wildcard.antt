-- ===== src/Nsec3/Wildcard.antt =====
-- The denial half of a wildcard answer, with NSEC3 records (validator/internal/validator/nsec.go
-- `VerifyWildcardDenial`).
use mathlib.Core.List.{Memᴰ}
use sigillum_dnssec.Prelude.{
  ℕ, ◌+◌, ◌<◌, ◌≡◌, refl, Bool, true, false, ◌||◌, not, Option, none, some, List, arith, Result, ok,
  err, leb, length, if◌then◌else◌,
}
use sigillum_dnssec.Names.{Label, Name}
use sigillum_dnssec.Names.Text.{is_plain, IsSplit}
use sigillum_dnssec.Sets.{name_order, has}
use sigillum_dnssec.Zone.{is_missing, take_labels}
use sigillum_dnssec.Denial.{NsecProof, wildcard}
use sigillum_dnssec.Denial.Enclosers.{take_within}
use sigillum_dnssec.Denial.Intervals.{plain_within}
use sigillum_dnssec.Nsec3.{
  Nsec3, Nsec3Error, is_opt_out, nsec3_iterations_over_cap, too_many_iterations, name_matched,
  closer_not_covered, no_encloser,
}
use sigillum_dnssec.Nsec3.Chains.{Nsec3Chain, nsec3_chains}
use sigillum_dnssec.Nsec3.Chains.Laws.{IsUsable, nsec3_chains-IsUsable, nsec3_chains_consistent}
use sigillum_dnssec.Nsec3.Hashes.{IsTruthful, IsInside, boundary-IsInside, covered_absent}
use sigillum_dnssec.Nsec3.Proofs.{
  then_proof, match_hash, cover_hash, nsec3_record_boundary, chain_hash, first_proof,
}
use sigillum_dnssec.Nsec3.Sound.{then_proof-ok, proof_of_chain}

abbrev pub boundary_of : Option Nsec3 → Option Nsec3Error
boundary_of none = none
boundary_of (some r) = nsec3_record_boundary r

unfoldable pub IsInsideIfAny : Option Nsec3 → Type 0
IsInsideIfAny none = Unit
IsInsideIfAny (some r) = IsInside r

boundary_of-IsInsideIfAny : (r : Option Nsec3) → boundary_of r ≡ none → IsInsideIfAny r
unfolding IsInsideIfAny
boundary_of-IsInsideIfAny none h = tt
boundary_of-IsInsideIfAny (some r) h = boundary-IsInside r h

missing-none : (r : Option Nsec3) → is_missing r ≡ true → r ≡ none
missing-none none h = refl
missing-none (some r) h = absurd (cc h)

abbrev pub expansion_proof : Name → ℕ → Nsec3 → NsecProof
expansion_proof qname labels r = record {
  proof_type = wildcard;
  closest_encloser = some (take_labels labels qname);
  next_closer = some (take_labels (labels + 1) qname);
  opt_out = is_opt_out r;
}

-- The outcome of one chain, by what it matches and covers.
abbrev pub expansion_with :
    Name → ℕ → Bool → Option Nsec3Error → Option Nsec3 → Result Nsec3Error NsecProof
expansion_with qname labels true boundary cover = err name_matched
expansion_with qname labels false (some e) cover = err e
expansion_with qname labels false none none = err closer_not_covered
expansion_with qname labels false none (some r) = ok (expansion_proof qname labels r)

module _ (split : Name → Name) (sha1 : List ℕ → List ℕ) (encode : List ℕ → Label) where
  unfoldable pub chain_expansion : Name → ℕ → Nsec3Chain → Result Nsec3Error NsecProof
  unfolding chain_hash match_hash cover_hash
  chain_expansion qname labels c =
      let closer = chain_hash split sha1 encode c (take_labels (labels + 1) qname) in
      let claimed = chain_hash split sha1 encode c (take_labels labels qname) in
      expansion_with qname labels
        (not (is_missing (match_hash (chain_hash split sha1 encode c qname) c.records))
          || not (is_missing (match_hash closer c.records)))
        (boundary_of (match_hash claimed c.records)) (cover_hash closer c.records)

  unfoldable pub verify_wildcard_nsec3 : Name → ℕ → List Nsec3 → Result Nsec3Error NsecProof
  unfolding nsec3_iterations_over_cap nsec3_chains first_proof chain_expansion
  verify_wildcard_nsec3 qname labels records =
      let answer : Result Nsec3Error NsecProof = elim (nsec3_iterations_over_cap records) [
        | some n ↦ err (too_many_iterations n)
        | none ↦
            then_proof (nsec3_chains records)
              (first_proof split sha1 encode (chain_expansion qname labels) closer_not_covered)
      ] in
      if leb (length qname) labels then err no_encloser else answer

  expansion-ok :
      (qname : Name) (labels : ℕ) (matched : Bool) (boundary : Option Nsec3Error)
      (cover : Option Nsec3) (proof : NsecProof)
      → expansion_with qname labels matched boundary cover ≡ ok proof
      → (matched ≡ false)
        × ((boundary ≡ none)
            × ((r : Nsec3) × ((cover ≡ some r) × (expansion_proof qname labels r ≡ proof))))
  expansion-ok qname labels true boundary cover proof h = absurd (cc h)
  expansion-ok qname labels false (some e) cover proof h = absurd (cc h)
  expansion-ok qname labels false none none proof h = absurd (cc h)
  expansion-ok qname labels false none (some r) proof h =
      (refl, (refl, (r, (refl, ground (arith, h)))))

  expansion_stages :
      (too_many : Bool) (cap : Option ℕ) (r : Result Nsec3Error NsecProof) (proof : NsecProof)
      → (if too_many
          then err no_encloser
          else elim cap [ some n ↦ err (too_many_iterations n) | none ↦ r ])
        ≡ ok proof
      → (too_many ≡ false) × (r ≡ ok proof)
  expansion_stages true cap r proof h = absurd (cc h)
  expansion_stages false none r proof h = (refl, h)
  expansion_stages false (some n) r proof h = absurd (cc h)

  -- What the chain shows of an expansion: it has no record of the name or of the next closer name,
  -- one that it has of the claimed encloser is neither a DNAME's nor the parent side of a zone cut,
  -- and a record covers the next closer name, which decides on the opt-out of the proof.
  unfoldable pub IsExpansion : Name → ℕ → NsecProof → Nsec3Chain → Type 0
  IsExpansion qname labels proof c =
      (match_hash (chain_hash split sha1 encode c qname) c.records ≡ none)
      × ((match_hash (chain_hash split sha1 encode c (take_labels (labels + 1) qname)) c.records
            ≡ none)
          × (IsInsideIfAny
                (match_hash (chain_hash split sha1 encode c (take_labels labels qname)) c.records)
              × ((r : Nsec3) × ((cover_hash
                        (chain_hash split sha1 encode c (take_labels (labels + 1) qname)) c.records
                      ≡ some r)
                    × (expansion_proof qname labels r ≡ proof)))))

  chain_expansion-IsExpansion :
      (qname : Name) (labels : ℕ) (proof : NsecProof) (c : Nsec3Chain)
      → chain_expansion qname labels c ≡ ok proof
      → IsExpansion qname labels proof c
  unfolding chain_expansion IsExpansion
  chain_expansion-IsExpansion qname labels proof c h =
      let name = match_hash (chain_hash split sha1 encode c qname) c.records in
      let hash = chain_hash split sha1 encode c (take_labels (labels + 1) qname) in
      let closer = match_hash hash c.records in
      let claimed =
        match_hash (chain_hash split sha1 encode c (take_labels labels qname)) c.records in
      let (unmatched, (inside, covered)) =
        expansion-ok qname labels (not (is_missing name) || not (is_missing closer))
          (boundary_of claimed) (cover_hash hash c.records) proof h in
      (
        missing-none name (ground (arith, unmatched)),
        (
          missing-none closer (ground (arith, unmatched)),
          (boundary_of-IsInsideIfAny claimed inside, covered),
        ),
      )

  -- What an accepted wildcard denial says when the records of the response are records of a zone
  -- and the name of the query is plain (each label is a non-empty run of lower-case letters,
  -- digits, hyphens, underscores and asterisks): the signature's label count is below the name's,
  -- the next closer name is no name of the zone, and one consistent chain shows the expansion. That
  -- chain has no record of the name or of the next closer name, and one that it has of the claimed
  -- encloser is neither a DNAME's nor the parent side of a zone cut; the proof is marked as opt-out
  -- exactly when the record that covers the next closer name is.
  pub verify_wildcard_nsec3_sound :
      (names : List Name) (qname : Name) (labels : ℕ) (records : List Nsec3) (proof : NsecProof)
      → IsSplit split
      → is_plain qname ≡ true
      → ((r : Nsec3) → Memᴰ r records → IsTruthful sha1 encode names r)
      → verify_wildcard_nsec3 qname labels records ≡ ok proof
      → (labels < length qname)
        × ((has (take_labels (labels + 1) qname) names ≡ false)
            × ((c : Nsec3Chain) × (IsUsable c × IsExpansion qname labels proof c)))
  unfolding verify_wildcard_nsec3 IsExpansion
  verify_wildcard_nsec3_sound names qname labels records proof splits plain truthful h =
      let entry =
        expansion_stages (leb (length qname) labels) (nsec3_iterations_over_cap records)
          (then_proof (nsec3_chains records)
            (first_proof split sha1 encode (chain_expansion qname labels) closer_not_covered))
          proof h in
      let chains =
        then_proof-ok split sha1 encode (nsec3_chains records)
          (first_proof split sha1 encode (chain_expansion qname labels) closer_not_covered) proof
          entry.1 in
      let found =
        proof_of_chain split sha1 encode (chain_expansion qname labels) closer_not_covered chains.0
          proof chains.1.1 in
      let c = found.0 in
      let usable = nsec3_chains-IsUsable records chains.0 c chains.1.0 found.1.0 in
      let closer = take_labels (labels + 1) qname in
      let shown = chain_expansion-IsExpansion qname labels proof c found.1.1 in
      (
        ground (arith, entry.0),
        (
          covered_absent sha1 encode split splits names c usable
              (λ r m.
                let member = nsec3_chains_consistent records chains.0 c r chains.1.0 found.1.0 m in
                (truthful r member.1.1.0, member.1.0))
              closer shown.1.1.1.0
              (plain_within qname closer (take_within (labels + 1) qname) plain) shown.1.1.1.1.0,
          (c, (usable, shown)),
        ),
      )
