-- ===== src/Nsec3/Bounds.antt =====
-- The work that an NSEC3 proof may ask for (validator/internal/validator/nsec.go
-- `nsec3IterationsOverCap`).
use mathlib.Core.List.{Memᴰ}
use mathlib.Core.List.Memᴰ
use mathlib.Core.Path.{subst}
use sigillum_dnssec.Prelude.{
  ℕ, ◌≤◌, ◌≡◌, refl, sym, ap, Option, none, some, List, [], ◌∷◌, arith, Result, ok, err,
}
use sigillum_dnssec.Names.{Label, Name}
use sigillum_dnssec.Denial.{NsecProof}
use sigillum_dnssec.Nsec3.{
  Nsec3, Nsec3Error, nsec3_iterations_over_cap, nsec3_max_iterations, too_many_iterations,
}
use sigillum_dnssec.Nsec3.Proofs.{verify_nsec3_denial}

within_cap :
    (records : List Nsec3) (r : Nsec3)
    → nsec3_iterations_over_cap records ≡ none
    → Memᴰ r records
    → r.iterations ≤ nsec3_max_iterations
unfolding nsec3_iterations_over_cap
within_cap [] r h m = absurd (Memᴰ.not-nil m)
within_cap (x ∷ records) r h (Memᴰ.head e) =
    subst (λ n. n ≤ nsec3_max_iterations) (sym (ap (λ y. y.iterations) e)) (ground (arith, h))
within_cap (x ∷ records) r h (Memᴰ.tail m) = within_cap records r (ground (arith, h)) m

refused_over_cap :
    (cap : Option ℕ) (answer : Result Nsec3Error (Option NsecProof)) (proof : Option NsecProof)
    → elim cap [ some n ↦ err (too_many_iterations n) | none ↦ answer ] ≡ ok proof
    → cap ≡ none
refused_over_cap none answer proof h = refl
refused_over_cap (some n) answer proof h = absurd (cc h)

-- A response is answered, with a proof or without, only if none of its records asks for more than
-- 100 iterations of the hash: a response that has such a record is refused as a whole.
pub verify_nsec3_denial_capped :
    (split : Name → Name) (sha1 : List ℕ → List ℕ) (encode : List ℕ → Label) (qname : Name)
    (qtype rcode : ℕ) (records : List Nsec3) (proof : Option NsecProof) (r : Nsec3)
    → verify_nsec3_denial split sha1 encode qname qtype records rcode ≡ ok proof
    → Memᴰ r records
    → r.iterations ≤ 100
unfolding verify_nsec3_denial
verify_nsec3_denial_capped split sha1 encode qname qtype rcode [] proof r h m =
    absurd (Memᴰ.not-nil m)
verify_nsec3_denial_capped split sha1 encode qname qtype rcode (x ∷ records) proof r h m =
    within_cap (x ∷ records) r
      (refused_over_cap (nsec3_iterations_over_cap (x ∷ records)) _ proof h) m
