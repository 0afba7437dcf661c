-- ===== src/Zone/Expectations/Accepts.antt =====
-- The signer's own check (signer/internal/signer/sign.go `verifyNSECExpectations`) accepts the chain
-- that the signer generates.
use mathlib.Core.Path.{subst}
use sigillum_dnssec.Prelude.{
  ℕ, ◌≡◌, refl, sym, ◌∙◌, ap, true, false, ◌||◌, not, none, List, [], ◌∷◌, map, arith,
}
use sigillum_dnssec.Names.{Name}
use sigillum_dnssec.Sets.{name_order, number_order, has, sort_set, sort_slice}
use sigillum_dnssec.Sets.Laws.{sort_set-IsAscending, sort_set_unique, has-sort_set}
use sigillum_dnssec.Sets.Slices.{IsDistinct, sort_slice-distinct, ascending-IsDistinct}
use sigillum_dnssec.Zone.{
  Rr, ZoneModel, is_missing, is_occluded, find_owner, new_zone_model, denial_types,
  authoritative_owners,
}
use sigillum_dnssec.Zone.Owners.{missing-find_owner}
use sigillum_dnssec.Zone.Chain.{
  Nsec, next_name, chain_from, chain_of, chain_names, chain_types, generate_nsec_chain_with_model,
  generate_nsec_chain,
}
use sigillum_dnssec.Zone.Chain.Types.{
  IsUnsigned, known_name, has_apex, chain_names-authoritative, chain_types-denial_types,
}
use sigillum_dnssec.Zone.Expectations.{
  by_owner, find_duplicate, find_missing, find_stray, find_mismatch, equal_types,
  compare_type_bitmap, check_chain, verify_nsec_expectations,
}

module _ (types : Name → List ℕ) (first : Name) where
  missing-by_owner :
      (a : Name) (names : List Name)
      → is_missing (by_owner a (chain_from types first names)) ≡ not (has a names)
  unfolding by_owner chain_from has
  missing-by_owner a [] = refl
  missing-by_owner a (n ∷ names) = ground (arith, missing-by_owner a names)

  no_duplicate :
      (seen : List Nsec) (names : List Name)
      → IsDistinct names
      → ((a : Name) → has a names ≡ true → is_missing (by_owner a seen) ≡ true)
      → find_duplicate seen (chain_from types first names) ≡ none
  unfolding find_duplicate chain_from IsDistinct has by_owner
  no_duplicate seen [] h new = refl
  no_duplicate seen (n ∷ names) h new =
      let rest =
        no_duplicate
          (record { owner = n; next_domain = next_name first names; types = types n } ∷ seen) names
          h.1 (λ a in_names. ground (arith, h.0, new a, in_names, name_order.eq_of_cmp a n)) in
      ground (arith, rest, new n, name_order.cmp_refl n)

  no_stray :
      (m : ZoneModel) (names : List Name)
      → ((a : Name)
          → has a names ≡ true
          → (is_missing (find_owner a m.owners) || is_occluded m a) ≡ false)
      → find_stray m (chain_from types first names) ≡ none
  unfolding find_stray chain_from has
  no_stray m [] known = refl
  no_stray m (n ∷ names) known = ground (
    arith,
    known n,
    name_order.cmp_refl n,
    no_stray m names (λ a in_names. ground (arith, known a, in_names)),
  )

  no_mismatch :
      (m : ZoneModel) (whole : List Nsec) (names : List Name)
      → IsDistinct names
      → ((a : Name)
          → has a names ≡ true
          → (by_owner a whole ≡ by_owner a (chain_from types first names))
            × (compare_type_bitmap (types a) (denial_types m a false) ≡ true))
      → find_mismatch m whole first names ≡ none
  unfolding find_mismatch chain_from has by_owner IsDistinct
  no_mismatch m whole [] h same_record = refl
  no_mismatch m whole (n ∷ names) h same_record =
      let rest =
        no_mismatch m whole names h.1
          (λ a in_names. ground (arith, h.0, same_record a, in_names, name_order.eq_of_cmp a n)) in
      ground (
        arith,
        rest,
        same_record n,
        name_order.cmp_refl n,
        name_order.cmp_refl (next_name first names),
      )

none_missing :
    (nsecs : List Nsec) (owners : List Name)
    → ((a : Name) → has a owners ≡ true → is_missing (by_owner a nsecs) ≡ false)
    → find_missing nsecs owners ≡ none
unfolding find_missing has
none_missing nsecs [] h = refl
none_missing nsecs (n ∷ owners) h = ground (
  arith,
  h n,
  name_order.cmp_refl n,
  none_missing nsecs owners (λ a in_owners. ground (arith, h a, in_owners)),
)

equal_types_refl : (types : List ℕ) → equal_types types types ≡ true
unfolding equal_types
equal_types_refl [] = refl
equal_types_refl (t ∷ types) = ground (arith, equal_types_refl types)

sort_again : (types : List ℕ) → sort_slice (sort_set types) ≡ sort_set types
sort_again types =
    let up = sort_set-IsAscending types in
    sort_slice-distinct (sort_set types) (ascending-IsDistinct (sort_set types) up)
    ∙ sort_set_unique _ _ (λ t. has-sort_set t types)

sorted_bitmap : (types : List ℕ) → compare_type_bitmap (sort_set types) (sort_set types) ≡ true
unfolding compare_type_bitmap
sorted_bitmap types = ground (arith, sort_again types, equal_types_refl (sort_set types))

denial_bitmap :
    (m : ZoneModel) (a : Name)
    → compare_type_bitmap (denial_types m a false) (denial_types m a false) ≡ true
unfolding denial_types
denial_bitmap m a = sorted_bitmap _

module _ (apex : Name) (records : List Rr) (unsigned : IsUnsigned records) where
  accepted_chain :
      (n : Name) (names : List Name)
      → IsDistinct (n ∷ names)
      → ((a : Name)
          → has a (n ∷ names) ≡ true
          → has a (chain_names (new_zone_model apex records) records) ≡ true)
      → check_chain
          (new_zone_model apex records)
          (chain_of (chain_types (new_zone_model apex records) records) (n ∷ names))
          (n ∷ names)
        ≡ none
  unfolding check_chain chain_of
  accepted_chain n names distinct known =
      let m = new_zone_model apex records in
      let types = chain_types m records in
      let whole = chain_from types n (n ∷ names) in
      let unique : find_duplicate [] whole ≡ none =
        no_duplicate types n [] (n ∷ names) distinct (λ a h. unfold by_owner in refl) in
      let complete : find_missing whole (n ∷ names) ≡ none =
        none_missing whole (n ∷ names)
          (λ a h. ground (arith, h, missing-by_owner types n a (n ∷ names))) in
      let local : find_stray m whole ≡ none = no_stray types n m (n ∷ names) (λ a h.
        ground (arith, known_name apex records a (known a h), missing-find_owner apex records a)) in
      let ordered : find_mismatch m whole n (n ∷ names) ≡ none =
        no_mismatch types n m whole (n ∷ names) distinct (λ a h. (
          refl,
          subst (λ ts. compare_type_bitmap ts (denial_types m a false) ≡ true)
              (sym (
                chain_types-denial_types apex records unsigned a
                  (known_name apex records a (known a h)).0))
              (denial_bitmap m a),
        )) in
      ground (arith, unique, complete, local, ordered)

  accepted_names :
      (names : List Name)
      → authoritative_owners (new_zone_model apex records) ≡ names
      → has apex names ≡ true
      → IsDistinct names
      → ((a : Name)
          → has a names ≡ true
          → has a (chain_names (new_zone_model apex records) records) ≡ true)
      → verify_nsec_expectations
          (new_zone_model apex records)
          (chain_of (chain_types (new_zone_model apex records) records) names)
        ≡ none
  unfolding verify_nsec_expectations chain_of chain_from has
  accepted_names [] owners h distinct known = absurd (cc h)
  accepted_names (n ∷ names) owners h distinct known =
      ap
        (check_chain (new_zone_model apex records)
          (chain_of (chain_types (new_zone_model apex records) records) (n ∷ names)))
        owners
      ∙ accepted_chain n names distinct known

  -- The check that the signer makes of its own denial chain accepts the chain that it generates:
  -- for every zone that has a record at its apex and that holds no denial record and no signature,
  -- no owner is missing, duplicated or out of place, every record points at the next owner in
  -- canonical order, and every bitmap is the expected one.
  pub generate_nsec_chain_accepted :
      has apex (map (λ rr. rr.owner) records) ≡ true
      → verify_nsec_expectations (new_zone_model apex records) (generate_nsec_chain apex records)
        ≡ none
  unfolding generate_nsec_chain generate_nsec_chain_with_model
  generate_nsec_chain_accepted at_apex =
      let m = new_zone_model apex records in
      accepted_names (sort_set (chain_names m records))
        (sym (chain_names-authoritative apex records)) (has_apex apex records at_apex)
        (ascending-IsDistinct _ (sort_set-IsAscending (chain_names m records)))
        (λ a h. sym (has-sort_set a (chain_names m records)) ∙ h)
