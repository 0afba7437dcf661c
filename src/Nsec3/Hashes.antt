-- ===== src/Nsec3/Hashes.antt =====
-- What the hashes of a chain say of the names of a zone (validator/internal/validator/nsec.go
-- `match`, `cover`, `hash`).
use mathlib.Core.List.{Memᴰ}
use mathlib.Core.Path.{subst}
use sigillum_dnssec.Prelude.{
  ℕ, zero, suc, ◌+◌, ◌<◌, ◌≡◌, ◌⊎◌, inl, inr, refl, sym, ◌∙◌, ap, Bool, true, false, Option, none,
  some, List, [], ◌∷◌, arith, if◌then◌else◌, Bool-cases, length,
}
use sigillum_dnssec.Names.{Label, Name}
use sigillum_dnssec.Names.Text.{is_plain, IsSplit, plain-decoded}
use sigillum_dnssec.Sets.{label_order, name_order, number_order, same, has}
use sigillum_dnssec.Zone.{take_labels, type_ns, type_soa, type_dname}
use sigillum_dnssec.Denial.{NsecProof, nxdomain, wildcard_name}
use sigillum_dnssec.Nsec3.{
  Nsec3, wire_name, hash_wire, compute_nsec3_hash, to_wire_format, hash_between, is_opt_out,
  hex_decode, normalize_salt,
}
use sigillum_dnssec.Nsec3.Chains.{Nsec3Chain}
use sigillum_dnssec.Nsec3.Chains.Laws.{IsUsable, IsOfChain}
use sigillum_dnssec.Nsec3.Proofs.{
  nsec3_record_boundary, match_hash, cover_hash, chain_hash, longest_match,
}

search_either :
    (test : Bool) (x r : Nsec3) (records : List Nsec3) (rest : Option Nsec3) (p : Nsec3 → Type 0)
    → (if test then some x else rest) ≡ some r
    → ((test ≡ true) → p x)
    → ((rest ≡ some r) → Memᴰ r records × p r)
    → Memᴰ r (x ∷ records) × p r
search_either true x r records rest p h here later =
    let e : x ≡ r = ground (arith, h) in (Memᴰ.head (sym e), subst p e (here refl))
search_either false x r records rest p h here later = (Memᴰ.tail (later h).0, (later h).1)

match_hash-some :
    (hash : Label) (records : List Nsec3) (r : Nsec3)
    → match_hash hash records ≡ some r
    → Memᴰ r records × (r.hashed_owner ≡ hash)
unfolding match_hash
match_hash-some hash [] r h = absurd (cc h)
match_hash-some hash (x ∷ records) r h =
    search_either (same x.hashed_owner hash) x r records (match_hash hash records)
      (λ y. y.hashed_owner ≡ hash) h
      (λ e. ground (arith, e, label_order.eq_of_cmp x.hashed_owner hash))
      (λ later. match_hash-some hash records r later)

cover_hash-some :
    (hash : Label) (records : List Nsec3) (r : Nsec3)
    → cover_hash hash records ≡ some r
    → Memᴰ r records × (hash_between hash r.hashed_owner r.next_hashed ≡ true)
unfolding cover_hash
cover_hash-some hash [] r h = absurd (cc h)
cover_hash-some hash (x ∷ records) r h =
    search_either (hash_between hash x.hashed_owner x.next_hashed) x r records
      (cover_hash hash records) (λ y. hash_between hash y.hashed_owner y.next_hashed ≡ true) h
      (λ e. e) (λ later. cover_hash-some hash records r later)

-- Neither a DNAME nor the parent side of a zone cut.
abbrev pub IsInside : Nsec3 → Type 0
IsInside r =
    (has type_dname r.types ≡ false)
    × ((has type_ns r.types ≡ false) ⊎ (has type_soa r.types ≡ true))

pub boundary-IsInside : (r : Nsec3) → nsec3_record_boundary r ≡ none → IsInside r
unfolding nsec3_record_boundary
boundary-IsInside r h = ground (arith, h)

module _ (sha1 : List ℕ → List ℕ) (encode : List ℕ → Label) where
  abbrev hash_with : Option (List ℕ) → ℕ → Name → Label
  hash_with none iterations name = []
  hash_with (some salt) iterations name = hash_wire sha1 encode (wire_name name) salt iterations

  -- The hash of a name, given by its labels, by the parameters of a record.
  unfoldable pub record_hash : Nsec3 → Name → Label
  record_hash r name = hash_with (hex_decode (normalize_salt r.salt)) r.iterations name

  -- A record of a zone whose chain has the given names: its owner is the hash of one of them, and
  -- the hash of none of them lies in its interval.
  pub record IsTruthful (names : List Name) (r : Nsec3) : Type 0 where
    pub owned : (e : Name) × ((has e names ≡ true) × (record_hash r e ≡ r.hashed_owner))
    pub skips :
        (a : Name)
        → has a names ≡ true
        → hash_between (record_hash r a) r.hashed_owner r.next_hashed ≡ false

  module _ (split : Name → Name) where
    pub chain_hash-record_hash :
        (c : Nsec3Chain) (r : Nsec3) (name : Name)
        → IsSplit split
        → is_plain name ≡ true
        → IsUsable c
        → IsOfChain c r
        → record_hash r name ≡ chain_hash split sha1 encode c name
    unfolding record_hash chain_hash compute_nsec3_hash to_wire_format IsUsable IsOfChain
    chain_hash-record_hash c r name splits plain usable member =
        ap (λ s. hash_with (hex_decode s) r.iterations name) member.1.1
        ∙ (ap (λ s. hash_with s r.iterations name) usable.1
            ∙ (ap (λ n. hash_with (some c.salt) n name) member.1.0
                ∙ ap (λ n. hash_with (some c.salt) c.iterations n)
                    (sym (plain-decoded split name splits plain))))

    longest_either :
        (c : Nsec3Chain) (qname : Name) (k n : ℕ) (r : Nsec3) (found : Option Nsec3)
        → match_hash (chain_hash split sha1 encode c (take_labels k qname)) c.records ≡ found
        → elim found as (λ _. Option (ℕ × Nsec3)) [
          | some x ↦ some (k, x)
          | none ↦ longest_match split sha1 encode c qname k
        ]
          ≡ some (n, r)
        → ((longest_match split sha1 encode c qname k ≡ some (n, r))
            → (n < k)
              × (match_hash (chain_hash split sha1 encode c (take_labels n qname)) c.records
                  ≡ some r))
        → (n < suc k)
          × (match_hash (chain_hash split sha1 encode c (take_labels n qname)) c.records ≡ some r)
    longest_either c qname k n r (some x) e h later =
        let both : (k ≡ n) × (x ≡ r) = ground (arith, h) in
        (
          omega (arith, both.0),
          subst
              (λ i.
                match_hash (chain_hash split sha1 encode c (take_labels i qname)) c.records
                ≡ some r)
              both.0 (e ∙ ap some both.1),
        )
    longest_either c qname k n r none e h later = (omega (arith, (later h).0), (later h).1)

    -- A record of the chain carries the hash of the name, which is the hash of a name of the zone, and
    -- is neither a DNAME's nor the parent side of a zone cut.
    unfoldable pub HasEncloser : List Name → Nsec3Chain → Name → Type 0
    HasEncloser names c ce =
        (m : Nsec3) × (Memᴰ m c.records
          × (((e : Name) × ((has e names ≡ true)
                  × (record_hash m e ≡ chain_hash split sha1 encode c ce)))
              × IsInside m))

    -- What an accepted proof says of the names of a zone, by the chain it was found in.
    unfoldable pub IsDenied : List Name → Name → NsecProof → Nsec3Chain → Type 0
    IsDenied names qname proof c =
        (match_hash (chain_hash split sha1 encode c qname) c.records ≡ none)
        × ((n : ℕ) × ((r : Nsec3) × ((record {
          proof_type = nxdomain;
          closest_encloser = some (take_labels n qname);
          next_closer = some (take_labels (n + 1) qname);
          opt_out = is_opt_out r;
        }
                  ≡ proof)
                × ((n < length qname)
                    × ((has (take_labels (n + 1) qname) names ≡ false)
                        × ((has (wildcard_name (take_labels n qname)) names ≡ false)
                            × HasEncloser names c (take_labels n qname)))))))

    pub longest_match-some :
        (c : Nsec3Chain) (qname : Name) (k n : ℕ) (r : Nsec3)
        → longest_match split sha1 encode c qname k ≡ some (n, r)
        → (n < k)
          × (match_hash (chain_hash split sha1 encode c (take_labels n qname)) c.records ≡ some r)
    unfolding longest_match
    longest_match-some c qname zero n r h = absurd (cc h)
    longest_match-some c qname (suc k) n r h =
        longest_either c qname k n r
          (match_hash (chain_hash split sha1 encode c (take_labels k qname)) c.records) refl h
          (λ shorter. longest_match-some c qname k n r shorter)

    module _ (splits : IsSplit split) (names : List Name) (c : Nsec3Chain) (usable : IsUsable c)
        (truthful : (r : Nsec3) → Memᴰ r c.records → IsTruthful names r × IsOfChain c r) where
      pub matched_exists :
          (name : Name) (r : Nsec3)
          → match_hash (chain_hash split sha1 encode c name) c.records ≡ some r
          → nsec3_record_boundary r ≡ none
          → HasEncloser names c name
      unfolding HasEncloser
      matched_exists name r h inside =
          let place = match_hash-some _ c.records r h in
          let owned = (truthful r place.0).0.owned in
          (r, (place.0, ((owned.0, (owned.1.0, owned.1.1 ∙ place.1)), boundary-IsInside r inside)))

      pub covered_absent :
          (name : Name) (r : Nsec3)
          → is_plain name ≡ true
          → cover_hash (chain_hash split sha1 encode c name) c.records ≡ some r
          → has name names ≡ false
      covered_absent name r plain h =
          let place = cover_hash-some _ c.records r h in
          let true_record = truthful r place.0 in
          elim (Bool-cases (has name names)) [
            | inl owner ↦
                let skipped =
                  subst (λ a. hash_between a r.hashed_owner r.next_hashed ≡ false)
                    (chain_hash-record_hash c r name splits plain usable true_record.1)
                    (true_record.0.skips name owner) in
                absurd (cc (skipped, place.1))
            | inr absent ↦ absent
          ]
