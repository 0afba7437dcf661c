-- ===== src/Nsec3/Chains/Laws.antt =====
-- A chain never mixes parameters (validator/internal/validator/nsec.go `newNSEC3Chain`,
-- `nsec3Chains`).
use mathlib.Core.List.{Memᴰ}
use mathlib.Core.List.Memᴰ
use mathlib.Core.Path.{subst}
use sigillum_dnssec.Prelude.{
  ℕ, ◌≡◌, inl, inr, refl, sym, ◌∙◌, ap, Bool, true, false, not, Option, none, some, List, [], ◌∷◌,
  arith, Result, ok, err, ◌==◌, keep_if, if◌then◌else◌,
}
use sigillum_dnssec.Sets.{label_order}
use sigillum_dnssec.Nsec3.{
  Nsec3, Nsec3Error, nsec3_hash_sha1, normalize_salt, hex_decode, nsec3_unknown_flags,
  unsupported_algorithm,
}
use sigillum_dnssec.Nsec3.Chains.Groups.{all_grouped, kept_member}
use sigillum_dnssec.Nsec3.Chains.{
  Group, Nsec3Chain, group_nsec3_by_params, all_match, chain_with, new_nsec3_chain, chains_of,
  or_unusable, nsec3_chains,
}

-- A record that belongs to a chain.
unfoldable pub IsOfChain : Nsec3Chain → Nsec3 → Type 0
IsOfChain c r =
    (r.algorithm ≡ c.algorithm)
    × ((r.iterations ≡ c.iterations) × (normalize_salt r.salt ≡ c.salt_hex))

-- A chain that can be hashed with: SHA-1, and a salt that is the decoded text.
unfoldable pub IsUsable : Nsec3Chain → Type 0
IsUsable c = (c.algorithm ≡ nsec3_hash_sha1) × (hex_decode c.salt_hex ≡ some c.salt)

matching :
    (first r : Nsec3) (records : List Nsec3)
    → all_match first records ≡ true
    → Memᴰ r records
    → (r.algorithm ≡ first.algorithm)
      × ((r.iterations ≡ first.iterations) × (normalize_salt r.salt ≡ normalize_salt first.salt))
unfolding all_match
matching first r [] h m = absurd (Memᴰ.not-nil m)
matching first r (x ∷ records) h (Memᴰ.head e) =
    subst
      (λ y.
        (y.algorithm ≡ first.algorithm)
        × ((y.iterations ≡ first.iterations) × (normalize_salt y.salt ≡ normalize_salt first.salt)))
      (sym e)
      (ground (arith, h, label_order.eq_of_cmp (normalize_salt x.salt) (normalize_salt first.salt)))
matching first r (x ∷ records) h (Memᴰ.tail m) = matching first r records (ground (arith, h)) m

chain_with-ok :
    (first : Nsec3) (records : List Nsec3) (salt : Option (List ℕ)) (all : Bool) (c : Nsec3Chain)
    → chain_with first records salt all ≡ ok c
    → (all ≡ true)
      × ((s : List ℕ) × ((salt ≡ some s)
            × (record {
              algorithm = first.algorithm;
              iterations = first.iterations;
              salt = s;
              salt_hex = normalize_salt first.salt;
              records = first ∷ records;
            }
                ≡ c)))
chain_with-ok first records none all c h = absurd (cc h)
chain_with-ok first records (some s) false c h = absurd (cc h)
chain_with-ok first records (some s) true c h = (refl, (s, (refl, ground (arith, h))))

unless_ok :
    (refused : Bool) (r : Result Nsec3Error Nsec3Chain) (c : Nsec3Chain)
    → (if refused then err unsupported_algorithm else r) ≡ ok c
    → (refused ≡ false) × (r ≡ ok c)
unless_ok true r c h = absurd (cc h)
unless_ok false r c h = (refl, h)

new_chain_ok :
    (records : List Nsec3) (c : Nsec3Chain)
    → new_nsec3_chain records ≡ ok c
    → IsUsable c × ((c.records ≡ records) × ((r : Nsec3) → Memᴰ r records → IsOfChain c r))
unfolding new_nsec3_chain IsUsable IsOfChain
new_chain_ok [] c h = absurd (cc h)
new_chain_ok (first ∷ records) c h =
    let entry =
      unless_ok (not (first.algorithm == nsec3_hash_sha1))
        (chain_with first records (hex_decode (normalize_salt first.salt))
          (all_match first records))
        c h in
    let made =
      chain_with-ok first records (hex_decode (normalize_salt first.salt)) (all_match first records)
        c entry.1 in
    subst
      (λ d.
        IsUsable d
        × ((d.records ≡ (first ∷ records))
            × ((r : Nsec3) → Memᴰ r (first ∷ records) → IsOfChain d r)))
      made.1.1.1
      (
        (ground (arith, entry.0), made.1.1.0),
        (
          refl,
          λ r m. elim (Memᴰ.cases_cons m) [
            | inl e ↦ (
              ap (λ x. x.algorithm) e,
              (ap (λ x. x.iterations) e, ap (λ x. normalize_salt x.salt) e),
            )
            | inr later ↦ matching first r records made.0 later
          ],
        ),
      )

made_either :
    (c : Nsec3Chain) (g : Group) (groups : List Group) (last : Option Nsec3Error)
    (made : Result Nsec3Error Nsec3Chain)
    → new_nsec3_chain g.records ≡ made
    → Memᴰ c
        (elim made as (λ _. List Nsec3Chain × Option Nsec3Error) [
          | ok chain ↦ (chain ∷ (chains_of last groups).0, (chains_of last groups).1)
          | err e ↦ chains_of (some e) groups
        ]).0
    → ((l : Option Nsec3Error)
        → Memᴰ c (chains_of l groups).0
        → (h : Group) × (Memᴰ h groups × (new_nsec3_chain h.records ≡ ok c)))
    → (h : Group) × (Memᴰ h (g ∷ groups) × (new_nsec3_chain h.records ≡ ok c))
made_either c g groups last (ok chain) e m later = elim (Memᴰ.cases_cons m) [
  | inl here ↦ (g, (Memᴰ.head refl, e ∙ ap ok (sym here)))
  | inr rest ↦ let found = later last rest in (found.0, (Memᴰ.tail found.1.0, found.1.1))
]
made_either c g groups last (err error) e m later =
    let found = later (some error) m in (found.0, (Memᴰ.tail found.1.0, found.1.1))

-- Each chain is made of one of the groups.
chain_of_group :
    (c : Nsec3Chain) (last : Option Nsec3Error) (groups : List Group)
    → Memᴰ c (chains_of last groups).0
    → (g : Group) × (Memᴰ g groups × (new_nsec3_chain g.records ≡ ok c))
unfolding chains_of
chain_of_group c last [] m = absurd (Memᴰ.not-nil m)
chain_of_group c last (g ∷ groups) m =
    made_either c g groups last (new_nsec3_chain g.records) refl m
      (λ e later. chain_of_group c e groups later)

chains_ok :
    (found chains : List Nsec3Chain) (last : Option Nsec3Error)
    → elim found [ [] ↦ err (or_unusable last) | c ∷ cs ↦ ok (c ∷ cs) ] ≡ ok chains
    → found ≡ chains
chains_ok [] chains last h = absurd (cc h)
chains_ok (c ∷ found) chains last h = ground (arith, h)

made_chain :
    (records : List Nsec3) (chains : List Nsec3Chain) (c : Nsec3Chain)
    → nsec3_chains records ≡ ok chains
    → Memᴰ c chains
    → (g : Group) × (Memᴰ g
          (group_nsec3_by_params (keep_if (λ x. not (nsec3_unknown_flags x)) records))
        × (new_nsec3_chain g.records ≡ ok c))
unfolding nsec3_chains
made_chain records chains c h member =
    let known = keep_if (λ x. not (nsec3_unknown_flags x)) records in
    let found = chains_of none (group_nsec3_by_params known) in
    chain_of_group c none (group_nsec3_by_params known)
      (subst (λ cs. Memᴰ c cs) (sym (chains_ok found.0 chains found.1 h)) member)

pub nsec3_chains-IsUsable :
    (records : List Nsec3) (chains : List Nsec3Chain) (c : Nsec3Chain)
    → nsec3_chains records ≡ ok chains
    → Memᴰ c chains
    → IsUsable c
nsec3_chains-IsUsable records chains c h member =
    let group = made_chain records chains c h member in (new_chain_ok group.0.records c group.1.1).0

-- Every chain that proofs are looked for in is consistent: it uses SHA-1 and the decoded salt, and
-- each of its records is one of the response, has no unknown flag, and has the algorithm, the
-- iterations and the salt of the chain, so that no proof combines records of different chains.
pub nsec3_chains_consistent :
    (records : List Nsec3) (chains : List Nsec3Chain) (c : Nsec3Chain) (r : Nsec3)
    → nsec3_chains records ≡ ok chains
    → Memᴰ c chains
    → Memᴰ r c.records
    → IsUsable c × (IsOfChain c r × (Memᴰ r records × (nsec3_unknown_flags r ≡ false)))
unfolding group_nsec3_by_params
nsec3_chains_consistent records chains c r h in_chains in_c =
    let known = keep_if (λ x. not (nsec3_unknown_flags x)) records in
    let group = made_chain records chains c h in_chains in
    let made = new_chain_ok group.0.records c group.1.1 in
    let in_group = subst (λ rs. Memᴰ r rs) made.1.0 in_c in
    let from : (not (nsec3_unknown_flags r) ≡ true) × Memᴰ r records =
      elim (all_grouped group.0 [] known r group.1.0 in_group) [
        | inl member ↦ kept_member (λ x. not (nsec3_unknown_flags x)) r records member
        | inr (g, (nowhere, _)) ↦ absurd (Memᴰ.not-nil nowhere)
      ] in
    (made.0, (made.1.1 r in_group, (from.1, ground (arith, from.0))))
