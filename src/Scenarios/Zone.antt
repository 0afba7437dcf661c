-- ===== src/Scenarios/Zone.antt =====
-- A zone of signer/internal/signer/zonemodel.go with a delegation, its chain
-- (signer/internal/signer/sign.go) and the validator's answers on it
-- (validator/internal/validator/nsec.go).
use mathlib.Core.List.{Memᴰ}
use sigillum_dnssec.Prelude.{
  ℕ, ◌≡◌, ◌<◌, ◌↔◌, ◌⊎◌, refl, true, false, not, none, List, [], ◌∷◌, arith, length, keep_if,
}
use sigillum_dnssec.Names.{Label, Name, compare_bytes, compare_canonical_names}
use sigillum_dnssec.Names.Text.{is_plain_label, is_plain, decoded}
use sigillum_dnssec.Names.Labels.{canonical_label_bytes, canonical_label}
use sigillum_dnssec.Names.Labels.Laws.{AllBytes, canonical_label_injective}
use sigillum_dnssec.Sets.{name_order, number_order, has, insert, sort_set, insert_next, sort_slice}
use sigillum_dnssec.Zone.{
  Rr, same_label, labels_within, find_owner, count_type, add, add_all, new_zone_model,
  is_delegation, take_labels, ancestors, ancestors_below, any_cut, is_occluded,
  authoritative_owners, denial_types,
}
use sigillum_dnssec.Zone.Occlusion.{is_cut, IsProperAncestor, is_occluded_iff}
use sigillum_dnssec.Zone.Chain.{
  Nsec, chain_names, types_by_name, chain_types, chain_from, chain_of,
  generate_nsec_chain_with_model, generate_nsec_chain,
}
use sigillum_dnssec.Zone.Chain.Types.{IsUnsigned}
use sigillum_dnssec.Zone.Expectations.{verify_nsec_expectations}
use sigillum_dnssec.Zone.Expectations.Accepts.{generate_nsec_chain_accepted}
use sigillum_dnssec.Sign.Rrsets.{key_order}
use sigillum_dnssec.Denial.{
  nodata, last_n_labels, compare_texts, text_between, canonically_between, common_suffix_labels,
  closest_encloser_from_nsec, next_closer_name, find_cover, find_owned, find_between, bitmap_error,
  nsec_ancestor_boundary, nsec_endpoint_below, nxdomain_covered, verify_nsec_nxdomain,
  nodata_covered, verify_nsec_nodata,
}
use sigillum_dnssec.Denial.Chain.{any_covers}
use sigillum_dnssec.Denial.Records.{plain_records, IsNotAbove}
use sigillum_dnssec.Scenarios.Text.{
  is_open, join_pieces, split_text, split_text-IsSplit, below, below-IsSubDomainTest,
}
use sigillum_dnssec.Denial.Nxdomain.{IsDenied, nxdomain_proof}
use sigillum_dnssec.Denial.Nodata.{
  LacksType, IsEmptyNonTerminal, WildcardLacks, verify_nsec_nodata_sound,
}
use sigillum_dnssec.Denial.Wildcard.{
  wildcard_proof, wildcard_loop, verify_wildcard_denial, verify_wildcard_denial_sound,
}
use sigillum_dnssec.Denial.Signed.{
  generate_nsec_chain_covers, generated-AllTruthful, signed_nxdomain_sound,
}

-- A label of one octet.
abbrev pub letter : ℕ → Label
letter c = c ∷ []

-- "e.", "a.e.", "c.e.", "d.e." and "x.d.e."
abbrev pub apex : Name
apex = letter 101 ∷ []

abbrev pub host : Name
host = letter 101 ∷ letter 97 ∷ []

abbrev absent : Name
absent = letter 101 ∷ letter 99 ∷ []

abbrev pub child : Name
child = letter 101 ∷ letter 100 ∷ []

abbrev glue : Name
glue = letter 101 ∷ letter 100 ∷ letter 120 ∷ []

abbrev pub records : List Rr
records =
    record { owner = glue; rrtype = 1 }
    ∷ record { owner = apex; rrtype = 6 }
    ∷ record { owner = child; rrtype = 2 }
    ∷ record { owner = apex; rrtype = 2 }
    ∷ record { owner = child; rrtype = 43 }
    ∷ record { owner = host; rrtype = 1 }
    ∷ []

records-IsUnsigned : IsUnsigned records
unfolding IsUnsigned
records-IsUnsigned = (refl, (refl, (refl, (refl, (refl, (refl, tt))))))

canonical_label_injective_example :
    (canonical_label_bytes (canonical_label (87 ∷ 92 ∷ 49 ∷ 49 ∷ 57 ∷ []))
      ≡ canonical_label_bytes (87 ∷ 92 ∷ 49 ∷ 49 ∷ 57 ∷ []))
    × ((canonical_label (87 ∷ 92 ∷ 49 ∷ 49 ∷ 57 ∷ []) ≡ canonical_label (119 ∷ 119 ∷ [])) ↔ (
        canonical_label_bytes (87 ∷ 92 ∷ 49 ∷ 49 ∷ 57 ∷ [])
        ≡ canonical_label_bytes (119 ∷ 119 ∷ [])))
unfolding AllBytes
canonical_label_injective_example =
    canonical_label_injective (87 ∷ 92 ∷ 49 ∷ 49 ∷ 57 ∷ []) (119 ∷ 119 ∷ [])
      (omega arith, (omega arith, (omega arith, (omega arith, (omega arith, tt)))))
      (omega arith, (omega arith, tt))

is_occluded_iff_example : (is_occluded (new_zone_model apex records) glue ≡ true) ↔ (
    (cut : Name) × ((is_cut (new_zone_model apex records) cut ≡ true)
      × ((length (new_zone_model apex records).apex < length cut) × IsProperAncestor cut glue)))
is_occluded_iff_example = is_occluded_iff (new_zone_model apex records) glue

generate_nsec_chain_accepted_example :
    verify_nsec_expectations (new_zone_model apex records) (generate_nsec_chain apex records) ≡ none
unfolding has name_order compare_canonical_names compare_bytes
generate_nsec_chain_accepted_example =
    generate_nsec_chain_accepted apex records records-IsUnsigned refl

generate_nsec_chain_covers_example :
    any_covers absent (generate_nsec_chain apex records)
    ≡ not (has absent (authoritative_owners (new_zone_model apex records)))
unfolding has name_order compare_canonical_names compare_bytes
generate_nsec_chain_covers_example = generate_nsec_chain_covers apex records absent refl

-- The record of "e.", which is the first of the chain.
abbrev apex_record : Nsec
apex_record = record { owner = apex; next_domain = host; types = 2 ∷ 6 ∷ 46 ∷ 47 ∷ [] }

signed_nxdomain_sound_example :
    IsDenied
      (authoritative_owners (new_zone_model apex records))
      absent
      host
      (nxdomain_proof absent apex)
    × IsNotAbove absent apex_record
unfolding has name_order compare_canonical_names compare_bytes verify_nsec_nxdomain nxdomain_covered
    nsec_ancestor_boundary find_cover text_between canonically_between decoded split_text
    join_pieces is_open canonical_label_bytes is_plain is_plain_label plain_records
    nsec_endpoint_below closest_encloser_from_nsec next_closer_name common_suffix_labels
    generate_nsec_chain generate_nsec_chain_with_model chain_of chain_from chain_types chain_names
    types_by_name is_delegation is_occluded any_cut ancestors_below ancestors take_labels
    labels_within same_label new_zone_model add_all add count_type find_owner authoritative_owners
    sort_set insert sort_slice insert_next keep_if
signed_nxdomain_sound_example =
    signed_nxdomain_sound apex records split_text below absent (generate_nsec_chain apex records)
      (nxdomain_proof absent apex) host apex_record split_text-IsSplit below-IsSubDomainTest refl
      refl records-IsUnsigned (λ n member. member) refl refl (Memᴰ.head refl)

abbrev owners : List Name
owners = authoritative_owners (new_zone_model apex records)

abbrev bitmaps : Name → List ℕ
bitmaps name = denial_types (new_zone_model apex records) name false

verify_nsec_nodata_sound_example :
    (LacksType owners bitmaps host 28
      ⊎ (IsEmptyNonTerminal owners bitmaps host 28 ⊎ WildcardLacks owners bitmaps host 28))
    × IsNotAbove host apex_record
unfolding has name_order compare_canonical_names compare_bytes verify_nsec_nodata nodata_covered
    find_owned find_between bitmap_error compare_texts nsec_ancestor_boundary find_cover
    text_between canonically_between decoded split_text join_pieces is_open canonical_label_bytes
    is_plain is_plain_label plain_records nsec_endpoint_below closest_encloser_from_nsec
    next_closer_name common_suffix_labels generate_nsec_chain generate_nsec_chain_with_model
    chain_of chain_from chain_types chain_names types_by_name is_delegation is_occluded any_cut
    ancestors_below ancestors take_labels labels_within same_label new_zone_model add_all add
    count_type find_owner authoritative_owners sort_set insert sort_slice insert_next keep_if
verify_nsec_nodata_sound_example =
    verify_nsec_nodata_sound owners bitmaps host 28 split_text split_text-IsSplit below
      below-IsSubDomainTest refl (generate_nsec_chain apex records)
      (record { proof_type = nodata; closest_encloser = none; next_closer = none; opt_out = false })
      apex_record refl
      (generated-AllTruthful apex records (generate_nsec_chain apex records) records-IsUnsigned
        (λ n member. member))
      refl (Memᴰ.head refl)

verify_wildcard_denial_sound_example :
    (1 < length absent)
    × ((has absent owners ≡ false)
        × ((labels_within host (last_n_labels absent 2) ≡ false)
            × (((e : Name) × ((has e owners ≡ true)
                    × (labels_within e (last_n_labels absent 1) ≡ true)))
                × IsNotAbove absent apex_record)))
unfolding has name_order compare_canonical_names compare_bytes verify_wildcard_denial wildcard_loop
    nsec_ancestor_boundary find_cover text_between canonically_between decoded split_text
    join_pieces is_open canonical_label_bytes is_plain is_plain_label plain_records
    nsec_endpoint_below closest_encloser_from_nsec next_closer_name common_suffix_labels
    generate_nsec_chain generate_nsec_chain_with_model chain_of chain_from chain_types chain_names
    types_by_name is_delegation is_occluded any_cut ancestors_below ancestors take_labels
    labels_within same_label new_zone_model add_all add count_type find_owner authoritative_owners
    sort_set insert sort_slice insert_next keep_if
verify_wildcard_denial_sound_example =
    verify_wildcard_denial_sound split_text below split_text-IsSplit owners bitmaps absent 1
      (generate_nsec_chain apex records) (wildcard_proof apex absent) host apex_record
      below-IsSubDomainTest refl refl
      (generated-AllTruthful apex records (generate_nsec_chain apex records) records-IsUnsigned
        (λ n member. member))
      refl refl (Memᴰ.head refl)
