-- ===== src/Scenarios/Nsec3.antt =====
-- An NSEC3 response of two records put to validator/internal/validator/nsec.go. The hash of the
-- scenario is the wire form of a name in upper case.
use mathlib.Core.List.{Memᴰ}
use mathlib.Core.List.Memᴰ
use mathlib.Core.Path.{subst}
use sigillum_dnssec.Prelude.{
  ◌<◌, ◌≤◌, length, ℕ, ◌≡◌, ◌⊎◌, inl, inr, refl, sym, true, false, some, List, [], ◌∷◌, arith,
  keep_if,
}
use sigillum_dnssec.Names.{Label, Name, compare_bytes, compare_canonical_names}
use sigillum_dnssec.Names.Labels.{canonical_label_bytes}
use sigillum_dnssec.Names.Text.{is_plain_label, is_plain, decoded}
use sigillum_dnssec.Scenarios.Text.{is_open, join_pieces, split_text, split_text-IsSplit}
use sigillum_dnssec.Sets.{name_order, label_order, number_order, has}
use sigillum_dnssec.Zone.{take_labels}
use sigillum_dnssec.Denial.{NsecProof, nxdomain}
use sigillum_dnssec.Nsec3.{
  Nsec3, upper, trim_left, trim_right, normalize_salt, hex_decode, wire_labels, to_wire_format,
  wire_name, hash_wire, iterate_hash, compute_nsec3_hash, nsec3_unknown_flags, is_opt_out,
  nsec3_iterations_over_cap, hash_between,
}
use sigillum_dnssec.Nsec3.Chains.{
  Nsec3Chain, param_key, same_params, add_to_group, group_all, group_nsec3_by_params, all_match,
  new_nsec3_chain, chains_of, nsec3_chains,
}
use sigillum_dnssec.Nsec3.Chains.Laws.{IsUsable, IsOfChain, nsec3_chains_consistent}
use sigillum_dnssec.Nsec3.Proofs.{
  match_hash, cover_hash, nsec3_record_boundary, chain_hash, longest_match, closest_encloser,
  chain_nxdomain, first_proof, verify_nsec3_denial,
}
use sigillum_dnssec.Nsec3.Wildcard.{
  expansion_proof, IsExpansion, chain_expansion, verify_wildcard_nsec3, verify_wildcard_nsec3_sound,
}
use sigillum_dnssec.Nsec3.Hashes.{IsTruthful, record_hash}
use sigillum_dnssec.Nsec3.Bounds.{verify_nsec3_denial_capped}

abbrev same_bytes : List ℕ → List ℕ
same_bytes bytes = bytes

-- "e.", "a.e." and "c.e."
abbrev root_owner : Name
root_owner = (101 ∷ []) ∷ []

abbrev leaf_owner : Name
leaf_owner = (101 ∷ []) ∷ (97 ∷ []) ∷ []

abbrev unknown_name : Name
unknown_name = (101 ∷ []) ∷ (99 ∷ []) ∷ []

abbrev zone_names : List Name
zone_names = root_owner ∷ leaf_owner ∷ []

abbrev root_hash : Label
root_hash = 1 ∷ 69 ∷ 0 ∷ []

abbrev leaf_hash : Label
leaf_hash = 1 ∷ 65 ∷ 1 ∷ 69 ∷ 0 ∷ []

abbrev leaf_record : Nsec3
leaf_record = record {
  hashed_owner = leaf_hash;
  algorithm = 1;
  flags = 0;
  iterations = 0;
  salt = 45 ∷ [];
  next_hashed = root_hash;
  types = 1 ∷ 46 ∷ [];
}

abbrev root_record : Nsec3
root_record = record {
  hashed_owner = root_hash;
  algorithm = 1;
  flags = 0;
  iterations = 0;
  salt = [];
  next_hashed = leaf_hash;
  types = 2 ∷ 6 ∷ 46 ∷ [];
}

abbrev response : List Nsec3
response = leaf_record ∷ root_record ∷ []

abbrev only_chain : Nsec3Chain
only_chain = record { algorithm = 1; iterations = 0; salt = []; salt_hex = []; records = response }

abbrev denial : NsecProof
denial = record {
  proof_type = nxdomain;
  closest_encloser = some root_owner;
  next_closer = some unknown_name;
  opt_out = false;
}

zone_name : (a : Name) → has a zone_names ≡ true → (a ≡ root_owner) ⊎ (a ≡ leaf_owner)
unfolding has
zone_name a h =
    ground (arith, h, name_order.eq_of_cmp a root_owner, name_order.eq_of_cmp a leaf_owner)

leaf-IsTruthful : IsTruthful same_bytes same_bytes zone_names leaf_record
unfolding has name_order compare_canonical_names compare_bytes label_order record_hash hash_between
    compute_nsec3_hash hash_wire wire_name iterate_hash to_wire_format wire_labels upper
    normalize_salt trim_left trim_right hex_decode
leaf-IsTruthful = record {
  owned = (leaf_owner, (refl, refl));
  skips = λ a h. elim (zone_name a h) [
    | inl e ↦
        subst
          (λ n.
            hash_between (record_hash same_bytes same_bytes leaf_record n) leaf_hash root_hash
            ≡ false)
          (sym e) refl
    | inr e ↦
        subst
          (λ n.
            hash_between (record_hash same_bytes same_bytes leaf_record n) leaf_hash root_hash
            ≡ false)
          (sym e) refl
  ];
}

root-IsTruthful : IsTruthful same_bytes same_bytes zone_names root_record
unfolding has name_order compare_canonical_names compare_bytes label_order record_hash hash_between
    compute_nsec3_hash hash_wire wire_name iterate_hash to_wire_format wire_labels upper
    normalize_salt trim_left trim_right hex_decode
root-IsTruthful = record {
  owned = (root_owner, (refl, refl));
  skips = λ a h. elim (zone_name a h) [
    | inl e ↦
        subst
          (λ n.
            hash_between (record_hash same_bytes same_bytes root_record n) root_hash leaf_hash
            ≡ false)
          (sym e) refl
    | inr e ↦
        subst
          (λ n.
            hash_between (record_hash same_bytes same_bytes root_record n) root_hash leaf_hash
            ≡ false)
          (sym e) refl
  ];
}

response-IsTruthful : (r : Nsec3) → Memᴰ r response → IsTruthful same_bytes same_bytes zone_names r
response-IsTruthful r (Memᴰ.head e) =
    subst (IsTruthful same_bytes same_bytes zone_names) (sym e) leaf-IsTruthful
response-IsTruthful r (Memᴰ.tail m) =
    subst (IsTruthful same_bytes same_bytes zone_names) (sym (Memᴰ.eq_of_singleton m))
      root-IsTruthful

nsec3_chains_consistent_example :
    IsUsable only_chain
    × (IsOfChain only_chain root_record
        × (Memᴰ root_record response × (nsec3_unknown_flags root_record ≡ false)))
unfolding nsec3_chains group_nsec3_by_params group_all add_to_group param_key same_params chains_of
    new_nsec3_chain all_match nsec3_unknown_flags keep_if label_order compare_bytes upper
    normalize_salt trim_left trim_right hex_decode
nsec3_chains_consistent_example =
    nsec3_chains_consistent response (only_chain ∷ []) only_chain root_record refl (Memᴰ.head refl)
      (Memᴰ.tail (Memᴰ.head refl))

verify_wildcard_nsec3_sound_example :
    (1 < length unknown_name)
    × ((has unknown_name zone_names ≡ false)
        × ((c : Nsec3Chain) × (IsUsable c
              × IsExpansion split_text same_bytes same_bytes unknown_name 1
                  (expansion_proof unknown_name 1 leaf_record)
                  c)))
unfolding decoded split_text join_pieces is_open canonical_label_bytes is_plain is_plain_label
    verify_wildcard_nsec3 chain_expansion nsec3_iterations_over_cap nsec3_chains
    group_nsec3_by_params group_all add_to_group param_key same_params chains_of new_nsec3_chain
    all_match nsec3_unknown_flags first_proof match_hash cover_hash chain_hash nsec3_record_boundary
    is_opt_out take_labels keep_if has label_order compare_bytes hash_between compute_nsec3_hash
    hash_wire wire_name iterate_hash to_wire_format wire_labels upper normalize_salt trim_left
    trim_right hex_decode
verify_wildcard_nsec3_sound_example =
    verify_wildcard_nsec3_sound split_text same_bytes same_bytes zone_names unknown_name 1 response
      (expansion_proof unknown_name 1 leaf_record) split_text-IsSplit refl response-IsTruthful refl

verify_nsec3_denial_capped_example : leaf_record.iterations ≤ 100
unfolding decoded split_text join_pieces is_open canonical_label_bytes is_plain is_plain_label
    verify_nsec3_denial nsec3_iterations_over_cap nsec3_chains group_nsec3_by_params group_all
    add_to_group param_key same_params chains_of new_nsec3_chain all_match nsec3_unknown_flags
    first_proof chain_nxdomain closest_encloser longest_match match_hash cover_hash chain_hash
    nsec3_record_boundary is_opt_out take_labels keep_if has label_order compare_bytes hash_between
    compute_nsec3_hash hash_wire wire_name iterate_hash to_wire_format wire_labels upper
    normalize_salt trim_left trim_right hex_decode
verify_nsec3_denial_capped_example =
    verify_nsec3_denial_capped split_text same_bytes same_bytes unknown_name 1 3 response
      (some denial) leaf_record refl (Memᴰ.head refl)
