-- ===== src/Nsec3/Proofs.antt =====
-- Authenticated denial with NSEC3 records (validator/internal/validator/nsec.go).
use sigillum_dnssec.Prelude.{
  ℕ, zero, suc, ◌+◌, false, Option, none, some, List, [], ◌∷◌, Result, ok, err, length, ◌==◌,
  if◌then◌else◌,
}
use sigillum_dnssec.Names.{Label, Name}
use sigillum_dnssec.Sets.{label_order, number_order, same, has}
use sigillum_dnssec.Zone.{take_labels, type_dname}
use sigillum_dnssec.Denial.{
  NsecProof, nxdomain, nodata, wildcard_name, is_parent_side, bitmap_error,
}
use sigillum_dnssec.Nsec3.{
  Nsec3, Nsec3Error, compute_nsec3_hash, is_opt_out, nsec3_iterations_over_cap, hash_between,
  too_many_iterations, name_matched, no_encloser, dname_encloser, delegation_encloser,
  closer_not_covered, wildcard_matched, wildcard_not_covered, wildcard_not_matched, bitmap_refused,
  nothing_proven,
}
use sigillum_dnssec.Nsec3.Chains.{Nsec3Chain, nsec3_chains}

abbrev pub then_proof {ℓ} :
    {A B : Type ℓ} → Result Nsec3Error A → (A → Result Nsec3Error B) → Result Nsec3Error B
then_proof (ok a) next = next a
then_proof (err e) next = err e

unfoldable pub match_hash : Label → List Nsec3 → Option Nsec3
match_hash hash [] = none
match_hash hash (r ∷ records) =
    let rest = match_hash hash records in if same r.hashed_owner hash then some r else rest

unfoldable pub cover_hash : Label → List Nsec3 → Option Nsec3
unfolding hash_between
cover_hash hash [] = none
cover_hash hash (r ∷ records) =
    let rest = cover_hash hash records in
    if hash_between hash r.hashed_owner r.next_hashed then some r else rest

unfoldable pub nsec3_record_boundary : Nsec3 → Option Nsec3Error
nsec3_record_boundary r =
    if has type_dname r.types
    then some dname_encloser
    else if is_parent_side r.types
    then some delegation_encloser
    else none

-- The names and the covering record of a closest-encloser proof.
pub record Encloser : Type 0 where
  pub ce : Name
  pub next_closer : Name
  pub covering : Nsec3

module _ (split : Name → Name) (sha1 : List ℕ → List ℕ) (encode : List ℕ → Label) where
  unfoldable pub chain_hash : Nsec3Chain → Name → Label
  unfolding compute_nsec3_hash
  chain_hash c name = compute_nsec3_hash sha1 encode split name c.salt c.iterations

  -- `for drop := 1; drop <= len(labels); drop++`, by the number of pieces that remain.
  unfoldable pub longest_match : Nsec3Chain → Name → ℕ → Option (ℕ × Nsec3)
  unfolding chain_hash match_hash
  longest_match c qname zero = none
  longest_match c qname (suc n) =
      let shorter = longest_match c qname n in
      elim (match_hash (chain_hash c (take_labels n qname)) c.records) [
        | some r ↦ some (n, r)
        | none ↦ shorter
      ]

  abbrev pub encloser_with :
      Name → ℕ → Option Nsec3Error → Option Nsec3 → Result Nsec3Error Encloser
  encloser_with qname n (some e) cover = err e
  encloser_with qname n none none = err closer_not_covered
  encloser_with qname n none (some r) =
      ok
        (record { ce = take_labels n qname; next_closer = take_labels (n + 1) qname; covering = r })

  unfoldable pub closest_encloser : Nsec3Chain → Name → Result Nsec3Error Encloser
  unfolding longest_match nsec3_record_boundary chain_hash cover_hash
  closest_encloser c qname = elim (longest_match c qname (length qname)) [
    | none ↦ err no_encloser
    | some (n, r) ↦
        encloser_with qname n (nsec3_record_boundary r)
          (cover_hash (chain_hash c (take_labels (n + 1) qname)) c.records)
  ]

  abbrev pub wildcard_denied : Encloser → Option Nsec3 → Option Nsec3 → Result Nsec3Error NsecProof
  wildcard_denied e (some r) cover = err wildcard_matched
  wildcard_denied e none none = err wildcard_not_covered
  wildcard_denied e none (some r) = ok (record {
    proof_type = nxdomain;
    closest_encloser = some e.ce;
    next_closer = some e.next_closer;
    opt_out = is_opt_out e.covering;
  })

  unfoldable pub chain_nxdomain : Nsec3Chain → Name → Result Nsec3Error NsecProof
  unfolding match_hash cover_hash chain_hash closest_encloser is_opt_out
  chain_nxdomain c qname = elim (match_hash (chain_hash c qname) c.records) [
    | some r ↦ err name_matched
    | none ↦ then_proof (closest_encloser c qname) (λ e.
        let wildcard = chain_hash c (wildcard_name e.ce) in
        wildcard_denied e (match_hash wildcard c.records) (cover_hash wildcard c.records))
  ]

  abbrev pub lacking : ℕ → Nsec3 → NsecProof → Result Nsec3Error NsecProof
  lacking qtype r proof = elim (bitmap_error qtype r.types) [
    | some e ↦ err bitmap_refused
    | none ↦ ok proof
  ]

  abbrev pub wildcard_lacking : ℕ → Encloser → Option Nsec3 → Result Nsec3Error NsecProof
  wildcard_lacking qtype e none = err wildcard_not_matched
  wildcard_lacking qtype e (some r) = lacking qtype r (record {
    proof_type = nodata;
    closest_encloser = some e.ce;
    next_closer = some e.next_closer;
    opt_out = is_opt_out e.covering;
  })

  unfoldable pub chain_nodata : Nsec3Chain → Name → ℕ → Result Nsec3Error NsecProof
  unfolding match_hash chain_hash bitmap_error closest_encloser is_opt_out
  chain_nodata c qname qtype = elim (match_hash (chain_hash c qname) c.records) [
    | some r ↦ lacking qtype r (record {
      proof_type = nodata;
      closest_encloser = some qname;
      next_closer = none;
      opt_out = false;
    })
    | none ↦
        then_proof (closest_encloser c qname)
          (λ e. wildcard_lacking qtype e (match_hash (chain_hash c (wildcard_name e.ce)) c.records))
  ]

  -- The loop over the chains, with the last error.
  unfoldable pub first_proof :
      (Nsec3Chain → Result Nsec3Error NsecProof)
      → Nsec3Error
      → List Nsec3Chain
      → Result Nsec3Error NsecProof
  first_proof prove last [] = err last
  first_proof prove last (c ∷ chains) = elim (prove c) [
    | ok proof ↦ ok proof
    | err e ↦ first_proof prove e chains
  ]

  unfoldable pub verify_nsec3_denial :
      Name → ℕ → List Nsec3 → ℕ → Result Nsec3Error (Option NsecProof)
  unfolding nsec3_iterations_over_cap nsec3_chains first_proof chain_nxdomain chain_nodata
  verify_nsec3_denial qname qtype [] rcode = ok none
  verify_nsec3_denial qname qtype (r ∷ records) rcode =
      elim (nsec3_iterations_over_cap (r ∷ records)) [
        | some n ↦ err (too_many_iterations n)
        | none ↦ then_proof (nsec3_chains (r ∷ records)) (λ chains.
            then_proof
              (if rcode == 3
                then first_proof (λ c. chain_nxdomain c qname) nothing_proven chains
                else first_proof (λ c. chain_nodata c qname qtype) nothing_proven chains)
              (λ proof. ok (some proof)))
      ]
