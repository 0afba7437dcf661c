-- ===== src/Zone/Input/Laws.antt =====
-- What an accepted zone looks like (signer/internal/signer/sign.go `validateZoneRecords`).
use sigillum_dnssec.Prelude.{
  ℕ, ◌≡◌, ◌+◌, ◌⊎◌, inl, inr, refl, sym, ◌∙◌, ap, Bool, true, false, ◌||◌, Option, none, some, List,
  [], ◌∷◌, map, arith, Result, ok, err, ltb, ◌==◌, if◌then◌else◌, Bool-cases,
}
use sigillum_dnssec.Names.{Name}
use sigillum_dnssec.Sets.{name_order, number_order, same, has, sort_set}
use sigillum_dnssec.Sets.Laws.{has-sort_set}
use sigillum_dnssec.Zone.{
  Rr, OwnerInfo, ZoneModel, is_missing, labels_within, find_owner, new_zone_model, is_delegation,
  occluding_dname, type_cname, type_soa, type_dname, type_ds,
}
use sigillum_dnssec.Zone.Owners.{has_owner, missing-find_owner}
use sigillum_dnssec.Zone.Input.{
  InputError, count_of, is_dnssec_metadata_type, is_cut_type, all_types, check_records, or_next,
  check_cname, check_dname, check_beneath, check_cut, check_owner, check_owners, has_apex_ns,
  check_model, validate_zone_records, no_soa, many_soas, no_apex_ns,
}

-- The SOA records of a zone.
unfoldable pub soa_count : List Rr → ℕ
soa_count [] = 0
soa_count (rr ∷ records) =
    let rest = soa_count records in if rr.rrtype == type_soa then 1 + rest else rest

counted :
    (apex : Name) (n m : ℕ) (records : List Rr)
    → check_records apex n records ≡ ok m
    → m ≡ n + soa_count records
unfolding check_records soa_count
counted apex n m [] h = ground (arith, h)
counted apex n m (rr ∷ records) h =
    ground (arith, h, counted apex (n + 1) m records, counted apex n m records)

within_zone :
    (apex name : Name) (n m : ℕ) (records : List Rr)
    → check_records apex n records ≡ ok m
    → has name (map (λ rr. rr.owner) records) ≡ true
    → labels_within name apex ≡ true
unfolding check_records has
within_zone apex name n m [] h k = absurd (cc k)
within_zone apex name n m (rr ∷ records) h k = ground (
  arith,
  h,
  k,
  name_order.eq_of_cmp name rr.owner,
  within_zone apex name (n + 1) m records,
  within_zone apex name n m records,
)

-- The rules for the types at an owner of a zone.
unfoldable pub IsAllowed : ZoneModel → Name → List ℕ → Type 0
IsAllowed m name types =
    ((count_of type_cname types ≡ 0)
      ⊎ ((count_of type_cname types ≡ 1)
          × ((same name m.apex ≡ false)
              × (all_types (λ t. t == type_cname || is_dnssec_metadata_type t) types ≡ true))))
    × (((count_of type_dname types ≡ 0)
          ⊎ ((count_of type_dname types ≡ 1) × (count_of type_cname types ≡ 0)))
        × ((occluding_dname m name ≡ none)
            × (((is_delegation m name ≡ true) × (all_types is_cut_type types ≡ true))
                ⊎ ((is_delegation m name ≡ false) × (count_of type_ds types ≡ 0)))))

checked_owner :
    (m : ZoneModel) (name : Name) (oi : OwnerInfo)
    → check_owner m name (some oi) ≡ none
    → IsAllowed m name oi.types
unfolding check_owner check_cname check_dname check_beneath check_cut IsAllowed
checked_owner m name oi h = ground (arith, h)

or_next-none :
    (first next : Option InputError) → or_next first next ≡ none → (first ≡ none) × (next ≡ none)
or_next-none none next h = (refl, h)
or_next-none (some e) next h = absurd (cc h)

checked_owners :
    (m : ZoneModel) (name : Name) (oi : OwnerInfo) (names : List Name)
    → check_owners m names ≡ none
    → has name names ≡ true
    → find_owner name m.owners ≡ some oi
    → check_owner m name (some oi) ≡ none
unfolding check_owners has
checked_owners m name oi [] h k found = absurd (cc k)
checked_owners m name oi (x ∷ names) h k found =
    let both = or_next-none (check_owner m x (find_owner x m.owners)) (check_owners m names) h in
    elim (Bool-cases (same name x)) [
      | inl e ↦
          let is : x ≡ name = ground (arith, e, name_order.eq_of_cmp name x) in
          ap (check_owner m name) (sym found)
          ∙ (ap (λ y. check_owner m y (find_owner y m.owners)) (sym is) ∙ both.0)
      | inr e ↦ checked_owners m name oi names both.1 (ground (arith, k, e)) found
    ]

accepted_stages :
    (counting : Result InputError ℕ) (rest : Option InputError)
    → elim counting [
      | err e ↦ some e
      | ok soas ↦
          if soas == 0 then some no_soa else if ltb 1 soas then some (many_soas soas) else rest
    ]
      ≡ none
    → (counting ≡ ok 1) × (rest ≡ none)
accepted_stages (err e) rest h = absurd (cc h)
accepted_stages (ok soas) rest h = ground (arith, h)

apex_stages :
    (test : Bool) (rest : Option InputError)
    → (if test then rest else some no_apex_ns) ≡ none
    → (test ≡ true) × (rest ≡ none)
apex_stages true rest h = (refl, h)
apex_stages false rest h = absurd (cc h)

-- A zone that is accepted for signing has exactly one SOA record and an NS record at its apex, and
-- each of its owners is at or below the apex and obeys the rules for its types: a CNAME is alone but
-- for the signer's own types and not at the apex, there is one DNAME at most and no CNAME beside it,
-- the owner is not beneath a DNAME that the zone model finds, a delegation holds only the types of a
-- cut, and DS stands only at a delegation.
pub validate_zone_records_sound :
    (apex name : Name) (records : List Rr) (oi : OwnerInfo)
    → validate_zone_records apex records ≡ none
    → find_owner name (new_zone_model apex records).owners ≡ some oi
    → (soa_count records ≡ 1)
      × ((has_apex_ns
              (find_owner (new_zone_model apex records).apex (new_zone_model apex records).owners)
            ≡ true)
          × ((labels_within name apex ≡ true)
              × IsAllowed (new_zone_model apex records) name oi.types))
unfolding validate_zone_records check_model
validate_zone_records_sound apex name records oi h found =
    let m = new_zone_model apex records in
    let stages = accepted_stages (check_records apex 0 records) (check_model m) h in
    let names = map (λ o. o.name) m.owners in
    let model =
      apex_stages (has_apex_ns (find_owner m.apex m.owners)) (check_owners m (sort_set names))
        stages.1 in
    let owner : has name (map (λ rr. rr.owner) records) ≡ true =
      ground (arith, ap is_missing found, missing-find_owner apex records name) in
    let listed = has-sort_set name names ∙ (has_owner apex records name ∙ owner) in
    (
      ground (arith, counted apex 0 1 records stages.0),
      (
        model.0,
        (
          within_zone apex name 0 1 records stages.0 owner,
          checked_owner m name oi (checked_owners m name oi (sort_set names) model.1 listed found),
        ),
      ),
    )
