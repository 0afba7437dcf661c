-- ===== src/Nsec3/Sound.antt =====
-- An accepted NSEC3 proof of NXDOMAIN is true (validator/internal/validator/nsec.go `nxdomain`,
-- `VerifyNSEC3Denial`).
use mathlib.Core.List.{Memᴰ}
use sigillum_dnssec.Prelude.{ℕ, ◌≡◌, refl, ◌∙◌, Option, none, some, List, [], ◌∷◌, Result, ok, err}
use sigillum_dnssec.Names.{Label, Name}
use sigillum_dnssec.Sets.{label_order, name_order}
use sigillum_dnssec.Denial.{NsecProof, nxdomain}
use sigillum_dnssec.Nsec3.{Nsec3, Nsec3Error, is_opt_out, too_many_iterations}
use sigillum_dnssec.Nsec3.Chains.{Nsec3Chain}
use sigillum_dnssec.Nsec3.Proofs.{then_proof, Encloser, closest_encloser, first_proof}

module _ (split : Name → Name) (sha1 : List ℕ → List ℕ) (encode : List ℕ → Label) where
  abbrev denial_by : Encloser → NsecProof
  denial_by e = record {
    proof_type = nxdomain;
    closest_encloser = some e.ce;
    next_closer = some e.next_closer;
    opt_out = is_opt_out e.covering;
  }

  pub then_proof-ok {ℓ} :
      {A B : Type ℓ} (r : Result Nsec3Error A) (next : A → Result Nsec3Error B) (b : B)
      → then_proof r next ≡ ok b
      → (a : A) × ((r ≡ ok a) × (next a ≡ ok b))
  then_proof-ok (ok a) next b h = (a, (refl, h))
  then_proof-ok (err e) next b h = absurd (cc h)

  proof_either :
      (prove : Nsec3Chain → Result Nsec3Error NsecProof) (c : Nsec3Chain) (chains : List Nsec3Chain)
      (proof : NsecProof) (answer : Result Nsec3Error NsecProof)
      → prove c ≡ answer
      → elim answer as (λ _. Result Nsec3Error NsecProof) [
        | ok p ↦ ok p
        | err e ↦ first_proof split sha1 encode prove e chains
      ]
        ≡ ok proof
      → ((e : Nsec3Error)
          → (first_proof split sha1 encode prove e chains ≡ ok proof)
          → (d : Nsec3Chain) × (Memᴰ d chains × (prove d ≡ ok proof)))
      → (d : Nsec3Chain) × (Memᴰ d (c ∷ chains) × (prove d ≡ ok proof))
  proof_either prove c chains proof (ok p) e h later = (c, (Memᴰ.head refl, e ∙ h))
  proof_either prove c chains proof (err x) e h later =
      let found = later x h in (found.0, (Memᴰ.tail found.1.0, found.1.1))

  pub capped :
      (cap : Option ℕ) (answer : Result Nsec3Error (Option NsecProof)) (proof : Option NsecProof)
      → elim cap [ some n ↦ err (too_many_iterations n) | none ↦ answer ] ≡ ok proof
      → answer ≡ ok proof
  capped none answer proof h = h
  capped (some n) answer proof h = absurd (cc h)

  pub proof_of_chain :
      (prove : Nsec3Chain → Result Nsec3Error NsecProof) (last : Nsec3Error)
      (chains : List Nsec3Chain) (proof : NsecProof)
      → first_proof split sha1 encode prove last chains ≡ ok proof
      → (c : Nsec3Chain) × (Memᴰ c chains × (prove c ≡ ok proof))
  unfolding first_proof
  proof_of_chain prove last [] proof h = absurd (cc h)
  proof_of_chain prove last (c ∷ chains) proof h =
      proof_either prove c chains proof (prove c) refl h
        (λ e later. proof_of_chain prove e chains proof later)
