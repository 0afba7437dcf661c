-- ===== src/Denial/Records.antt =====
-- What the records of a zone promise to the validator (validator/internal/validator/nsec.go), and
-- what the loops over them find.
use mathlib.Core.List.{Memᴰ}
use mathlib.Core.List.Memᴰ
use mathlib.Core.Path.{subst}
use sigillum_dnssec.Prelude.{
  ℕ, ◌≡◌, ◌⊎◌, ◌&&◌, sym, ◌∙◌, inl, inr, refl, Bool, true, false, Option, none, some, List, [], ◌∷◌,
  arith, Result, ok, err, Bool-cases, if◌then◌else◌,
}
use sigillum_dnssec.Names.{Name}
use sigillum_dnssec.Sets.{name_order, number_order, same, has}
use sigillum_dnssec.Names.Text.{is_plain, IsSplit}
use sigillum_dnssec.Zone.{labels_within, type_ns, type_soa, type_dname}
use sigillum_dnssec.Zone.Chain.{Nsec}
use sigillum_dnssec.Denial.Intervals.{text_between-plain}
use sigillum_dnssec.Denial.{
  DenialError, NsecProof, then_ok, canonically_between, text_between, nsec_ancestor_boundary,
  find_cover, find_owned, find_between, unless_error,
}

-- A record of the zone with the given owners and bitmaps: no owner lies in its interval.
pub record IsTruthful (names : List Name) (types : Name → List ℕ) (n : Nsec) : Type 0 where
  pub owned : has n.owner names ≡ true
  pub next_owned : has n.next_domain names ≡ true
  pub bitmap : n.types ≡ types n.owner
  pub skips : (a : Name) → has a names ≡ true → canonically_between a n.owner n.next_domain ≡ false

unfoldable pub AllTruthful : List Name → (Name → List ℕ) → List Nsec → Type 0
AllTruthful names types [] = Unit
AllTruthful names types (n ∷ nsecs) = IsTruthful names types n × AllTruthful names types nsecs

-- Every name of the records is plain.
unfoldable pub plain_records : List Nsec → Bool
plain_records [] = true
plain_records (n ∷ nsecs) = is_plain n.owner && (is_plain n.next_domain && plain_records nsecs)

pub then_ok-ok {ℓ} :
    {A B : Type ℓ} (r : Result DenialError A) (next : A → Result DenialError B) (b : B)
    → then_ok r next ≡ ok b
    → (a : A) × ((r ≡ ok a) × (next a ≡ ok b))
then_ok-ok (ok a) next b h = (a, (refl, h))
then_ok-ok (err e) next b h = absurd (cc h)

pub unless_error-ok :
    (e : Option DenialError) (proof answer : NsecProof)
    → unless_error e proof ≡ ok answer
    → (e ≡ none) × (proof ≡ answer)
unless_error-ok none proof answer h = (refl, ground (arith, h))
unless_error-ok (some e) proof answer h = absurd (cc h)

module _ (names : List Name) (types : Name → List ℕ) where
  Covers : Name → Result DenialError Nsec → Type 0
  Covers name (err e) = Unit
  Covers name (ok n) =
      IsTruthful names types n × (canonically_between name n.owner n.next_domain ≡ true)

  Covers-either :
      (exact : DenialError) (name : Name) (x : Nsec) (rest : Result DenialError Nsec)
      (owner covered : Bool)
      → IsTruthful names types x
      → canonically_between name x.owner x.next_domain ≡ covered
      → Covers name rest
      → Covers name (if owner then err exact else if covered then ok x else rest)
  unfolding Covers
  Covers-either exact name x rest true covered truthful e later = tt
  Covers-either exact name x rest false true truthful e later = (truthful, e)
  Covers-either exact name x rest false false truthful e later = later

  Holds : (Nsec → Type 0) → Option Nsec → Type 0
  Holds p none = Unit
  Holds p (some n) = IsTruthful names types n × p n

  Holds-either :
      (p : Nsec → Type 0) (x : Nsec) (rest : Option Nsec) (test : Bool)
      → IsTruthful names types x
      → ((test ≡ true) → p x)
      → Holds p rest
      → Holds p (if test then some x else rest)
  unfolding Holds
  Holds-either p x rest true truthful now later = (truthful, now refl)
  Holds-either p x rest false truthful now later = later

  find_owned-Holds :
      (name : Name) (nsecs : List Nsec)
      → AllTruthful names types nsecs
      → Holds (λ n. n.owner ≡ name) (find_owned name nsecs)
  unfolding find_owned AllTruthful
  find_owned-Holds name [] truthful = unfold Holds in tt
  find_owned-Holds name (x ∷ nsecs) truthful =
      Holds-either (λ n. n.owner ≡ name) x _ (same x.owner name) truthful.0
        (λ e. ground (arith, name_order.eq_of_cmp x.owner name, e))
        (find_owned-Holds name nsecs truthful.1)

  pub find_owned-some :
      (name : Name) (nsecs : List Nsec) (n : Nsec)
      → AllTruthful names types nsecs
      → find_owned name nsecs ≡ some n
      → IsTruthful names types n × (n.owner ≡ name)
  unfolding Holds
  find_owned-some name nsecs n truthful h =
      subst (Holds (λ n. n.owner ≡ name)) h (find_owned-Holds name nsecs truthful)

  abbrev Between : Name → Nsec → Type 0
  Between name n =
      (canonically_between name n.owner n.next_domain ≡ true) × (is_plain n.next_domain ≡ true)

  -- A covered name is no owner.
  pub covered_absent :
      (name : Name) (n : Nsec)
      → IsTruthful names types n
      → canonically_between name n.owner n.next_domain ≡ true
      → has name names ≡ false
  covered_absent name n truthful h = elim (Bool-cases (has name names)) [
    | inl owner ↦ absurd (cc (h, truthful.skips name owner))
    | inr absent ↦ absent
  ]

  module _ (split : Name → Name) (splits : IsSplit split) where
    find_cover-Covers :
        (exact missing : DenialError) (name : Name) (nsecs : List Nsec)
        → is_plain name ≡ true
        → plain_records nsecs ≡ true
        → AllTruthful names types nsecs
        → Covers name (find_cover split exact missing name nsecs)
    unfolding find_cover AllTruthful plain_records
    find_cover-Covers exact missing name [] p ps truthful = unfold Covers in tt
    find_cover-Covers exact missing name (x ∷ nsecs) p ps truthful =
        Covers-either exact name x _ (same x.owner name)
          (text_between split name x.owner x.next_domain) truthful.0
          (sym (
            text_between-plain split name x.owner x.next_domain splits p (ground (arith, ps))
              (ground (arith, ps))))
          (find_cover-Covers exact missing name nsecs p (ground (arith, ps)) truthful.1)

    -- The record that a search finds is one of the zone and covers the name.
    pub find_cover-ok :
        (exact missing : DenialError) (name : Name) (nsecs : List Nsec) (n : Nsec)
        → is_plain name ≡ true
        → plain_records nsecs ≡ true
        → AllTruthful names types nsecs
        → find_cover split exact missing name nsecs ≡ ok n
        → IsTruthful names types n × (canonically_between name n.owner n.next_domain ≡ true)
    unfolding Covers
    find_cover-ok exact missing name nsecs n p ps truthful h =
        subst (Covers name) h (find_cover-Covers exact missing name nsecs p ps truthful)

    find_between-Holds :
        (name : Name) (nsecs : List Nsec)
        → is_plain name ≡ true
        → plain_records nsecs ≡ true
        → AllTruthful names types nsecs
        → Holds (Between name) (find_between split name nsecs)
    unfolding find_between AllTruthful plain_records
    find_between-Holds name [] p ps truthful = unfold Holds in tt
    find_between-Holds name (x ∷ nsecs) p ps truthful =
        let next_plain : is_plain x.next_domain ≡ true = ground (arith, ps) in
        Holds-either (Between name) x _ _ truthful.0
          (λ e. (
            sym (
                  text_between-plain split name x.owner x.next_domain splits p (ground (arith, ps))
                    next_plain)
                ∙ e,
            next_plain,
          ))
          (find_between-Holds name nsecs p (ground (arith, ps)) truthful.1)

    pub find_between-some :
        (name : Name) (nsecs : List Nsec) (n : Nsec)
        → is_plain name ≡ true
        → plain_records nsecs ≡ true
        → AllTruthful names types nsecs
        → find_between split name nsecs ≡ some n
        → IsTruthful names types n
          × ((canonically_between name n.owner n.next_domain ≡ true)
              × (is_plain n.next_domain ≡ true))
    unfolding Holds
    find_between-some name nsecs n p ps truthful h =
        subst (Holds (Between name)) h (find_between-Holds name nsecs p ps truthful)

-- The record does not stand above the name as a DNAME or as the parent side of a zone cut, which
-- would take the name out of the zone's hands.
unfoldable pub IsNotAbove : Name → Nsec → Type 0
IsNotAbove qname n =
    (n.owner ≡ qname)
    ⊎ ((labels_within qname n.owner ≡ false)
        ⊎ ((has type_dname n.types ≡ false)
            × ((has type_ns n.types ≡ false) ⊎ (has type_soa n.types ≡ true))))

-- What the DNS library documents of `dns.IsSubDomain`, for names that have no escape.
unfoldable pub IsSubDomainTest : (Name → Name → Bool) → Type 0
IsSubDomainTest is_sub_domain =
    (parent child : Name)
    → is_plain parent ≡ true
    → is_plain child ≡ true
    → is_sub_domain parent child ≡ labels_within child parent

module _ (is_sub_domain : Name → Name → Bool) (tests : IsSubDomainTest is_sub_domain) where
  boundary_here :
      (qname : Name) (x : Nsec) (nsecs : List Nsec)
      → is_plain qname ≡ true
      → is_plain x.owner ≡ true
      → nsec_ancestor_boundary is_sub_domain qname (x ∷ nsecs) ≡ none
      → IsNotAbove qname x × (nsec_ancestor_boundary is_sub_domain qname nsecs ≡ none)
  unfolding nsec_ancestor_boundary IsNotAbove IsSubDomainTest
  boundary_here qname x nsecs p q h =
      ground (arith, h, tests x.owner qname q p, name_order.eq_of_cmp x.owner qname)

  pub boundary-IsNotAbove :
      (qname : Name) (nsecs : List Nsec) (n : Nsec)
      → is_plain qname ≡ true
      → plain_records nsecs ≡ true
      → nsec_ancestor_boundary is_sub_domain qname nsecs ≡ none
      → Memᴰ n nsecs
      → IsNotAbove qname n
  unfolding plain_records
  boundary-IsNotAbove qname [] n p ps h m = absurd (Memᴰ.not-nil m)
  boundary-IsNotAbove qname (x ∷ nsecs) n p ps h (Memᴰ.head e) =
      subst (IsNotAbove qname) (sym e) (boundary_here qname x nsecs p (ground (arith, ps)) h).0
  boundary-IsNotAbove qname (x ∷ nsecs) n p ps h (Memᴰ.tail m) =
      boundary-IsNotAbove qname nsecs n p (ground (arith, ps))
        (boundary_here qname x nsecs p (ground (arith, ps)) h).1 m
