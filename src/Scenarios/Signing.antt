-- ===== src/Scenarios/Signing.antt =====
-- The check and the signing of the zone of Scenarios/Zone (signer/internal/signer/sign.go).
use mathlib.Core.List.{Memᴰ}
use sigillum_dnssec.Prelude.{ℕ, ◌≡◌, ◌↔◌, refl, Bool, true, none, List, [], ◌∷◌}
use sigillum_dnssec.Names.{Name, compare_bytes, compare_canonical_names}
use sigillum_dnssec.Sets.{name_order, number_order, has, insert, sort_set}
use sigillum_dnssec.Zone.{
  OwnerInfo, occluding_dname, first_in, signable, Rr, same_label, labels_within, find_owner,
  count_type, add, add_all, new_zone_model, is_delegation, take_labels, ancestors, ancestors_below,
  any_cut, is_occluded,
}
use sigillum_dnssec.Zone.Input.{
  validate_zone_records, check_records, check_model, check_owners, check_owner, check_cname,
  check_dname, check_beneath, check_cut, has_apex_ns, count_of, all_types, is_cut_type,
  is_dnssec_metadata_type,
}
use sigillum_dnssec.Zone.Input.Laws.{soa_count, IsAllowed, validate_zone_records_sound}
use sigillum_dnssec.Sign.Keys.{DnsKey, SigningKeys}
use sigillum_dnssec.Sign.Rrsets.{
  RrsetKey, Rrsig, key_order, rrset_keys, sorted_rrset_keys, sign_rrset, sign_all,
  sign_records_with_model,
}
use sigillum_dnssec.Sign.Rrsets.Laws.{IsDue, sign_records_complete}
use sigillum_dnssec.Scenarios.Zone.{apex, host, child, records}

abbrev child_info : OwnerInfo
child_info = record { name = child; types = 43 ∷ 2 ∷ [] }

validate_zone_records_sound_example :
    (soa_count records ≡ 1)
    × ((has_apex_ns
            (find_owner (new_zone_model apex records).apex (new_zone_model apex records).owners)
          ≡ true)
        × ((labels_within child apex ≡ true)
            × IsAllowed (new_zone_model apex records) child (43 ∷ 2 ∷ [])))
unfolding validate_zone_records check_records check_model check_owners check_owner check_cname
    check_dname check_beneath check_cut has_apex_ns count_of all_types is_cut_type
    is_dnssec_metadata_type occluding_dname first_in ancestors_below ancestors take_labels
    labels_within same_label new_zone_model add_all add count_type find_owner is_delegation sort_set
    insert has name_order compare_canonical_names compare_bytes
validate_zone_records_sound_example =
    validate_zone_records_sound apex child records child_info refl refl

-- A zone with a DNAME at its apex and a record beneath it.
abbrev redirected_records : List Rr
redirected_records =
    record { owner = apex; rrtype = 6 }
    ∷ record { owner = apex; rrtype = 2 }
    ∷ record { owner = apex; rrtype = 39 }
    ∷ record { owner = host; rrtype = 1 }
    ∷ []

-- The input check lets it through.
apex_dname_accepted : validate_zone_records apex redirected_records ≡ none
unfolding validate_zone_records check_records check_model check_owners check_owner check_cname
    check_dname check_beneath check_cut has_apex_ns count_of all_types is_cut_type
    is_dnssec_metadata_type occluding_dname first_in ancestors_below ancestors take_labels
    labels_within same_label new_zone_model add_all add count_type find_owner is_delegation sort_set
    insert has name_order compare_canonical_names compare_bytes
apex_dname_accepted = refl

abbrev zone_keys : SigningKeys
zone_keys = record {
  dnskeys =
      record { key_tag = 1; algorithm_number = 13 }
      ∷ record { key_tag = 2; algorithm_number = 13 }
      ∷ [];
  signing_ksks = record { key_tag = 1; algorithm_number = 13 } ∷ [];
  signing_zsks = record { key_tag = 2; algorithm_number = 13 } ∷ [];
}

abbrev always : RrsetKey → DnsKey → Bool
always k key = true

abbrev signature_of : Name → ℕ → Rrsig
signature_of name t = record { owner = name; type_covered = t; key_tag = 2; algorithm_number = 13 }

sign_records_complete_example :
    Memᴰ
      (signature_of host 1)
      (signature_of apex 2 ∷ signature_of apex 6 ∷ signature_of host 1 ∷ signature_of child 43 ∷ [])
    ↔ IsDue always (new_zone_model apex records) records zone_keys (signature_of host 1)
unfolding sign_records_with_model sorted_rrset_keys sign_all sign_rrset rrset_keys key_order
    signable is_occluded any_cut ancestors_below ancestors take_labels new_zone_model add_all add
    count_type is_delegation sort_set insert has name_order compare_canonical_names compare_bytes
sign_records_complete_example =
    sign_records_complete always (new_zone_model apex records) records zone_keys
      (signature_of apex 2 ∷ signature_of apex 6 ∷ signature_of host 1 ∷ signature_of child 43 ∷ [])
      (signature_of host 1) refl
