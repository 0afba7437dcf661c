-- ===== src/Zone/Input.antt =====
-- The rules that a zone must satisfy before it is signed (signer/internal/signer/sign.go
-- `validateZoneRecords`).
pub mod Laws
use sigillum_dnssec.Prelude.{
  ℕ, ◌+◌, Bool, true, false, ◌&&◌, ◌||◌, not, Option, none, some, List, [], ◌∷◌, map, Result, ok,
  err, ltb, ◌==◌, if◌then◌else◌,
}
use sigillum_dnssec.Names.{Name}
use sigillum_dnssec.Sets.{name_order, number_order, same, has, sort_set}
use sigillum_dnssec.Zone.{
  Rr, OwnerInfo, ZoneModel, is_missing, labels_within, find_owner, new_zone_model, is_delegation,
  occluding_dname, type_ns, type_cname, type_soa, type_dname, type_ds, type_rrsig, type_nsec,
}

pub data InputError : Type 0 where
  not_within_zone : Name → InputError
  soa_below_apex : Name → InputError
  no_soa : InputError
  many_soas : ℕ → InputError
  no_apex_ns : InputError
  cname_at_apex : InputError
  many_cnames : Name → InputError
  cname_and_data : Name → InputError
  many_dnames : Name → InputError
  dname_and_cname : Name → InputError
  beneath_dname : Name → Name → InputError
  data_at_cut : Name → InputError
  ds_without_cut : Name → InputError

-- oi.types[t]
unfoldable pub count_of : ℕ → List ℕ → ℕ
count_of rrtype [] = 0
count_of rrtype (t ∷ types) =
    let rest = count_of rrtype types in if t == rrtype then 1 + rest else rest

unfoldable pub is_dnssec_metadata_type : ℕ → Bool
is_dnssec_metadata_type t = t == type_rrsig || (t == type_nsec || t == 50)

-- The types that may stand at a zone cut: NS, DS, A, AAAA and the signer's own.
unfoldable pub is_cut_type : ℕ → Bool
unfolding is_dnssec_metadata_type
is_cut_type t = t == type_ns || (t == type_ds || (t == 1 || (t == 28 || is_dnssec_metadata_type t)))

unfoldable pub all_types : (ℕ → Bool) → List ℕ → Bool
all_types allowed [] = true
all_types allowed (t ∷ types) = let rest = all_types allowed types in allowed t && rest

-- The loop over the records, with the number of SOA records so far.
unfoldable pub check_records : Name → ℕ → List Rr → Result InputError ℕ
unfolding labels_within
check_records apex soas [] = ok soas
check_records apex soas (rr ∷ records) =
    let counted = check_records apex (soas + 1) records in
    let rest = check_records apex soas records in
    if not (labels_within rr.owner apex)
    then err (not_within_zone rr.owner)
    else if rr.rrtype == type_soa
    then (if not (same rr.owner apex) then err (soa_below_apex rr.owner) else counted)
    else rest

abbrev pub or_next : Option InputError → Option InputError → Option InputError
or_next none next = next
or_next (some e) next = some e

unfoldable pub check_cname : ZoneModel → Name → List ℕ → Option InputError
unfolding count_of all_types is_dnssec_metadata_type
check_cname m name types =
    let cnames = count_of type_cname types in
    if cnames == 0
    then none
    else if same name m.apex
    then some cname_at_apex
    else if ltb 1 cnames
    then some (many_cnames name)
    else if all_types (λ t. t == type_cname || is_dnssec_metadata_type t) types
    then none
    else some (cname_and_data name)

unfoldable pub check_dname : Name → List ℕ → Option InputError
unfolding count_of
check_dname name types =
    let dnames = count_of type_dname types in
    if dnames == 0
    then none
    else if ltb 1 dnames
    then some (many_dnames name)
    else if count_of type_cname types == 0
    then none
    else some (dname_and_cname name)

unfoldable pub check_beneath : ZoneModel → Name → Option InputError
unfolding occluding_dname
check_beneath m name = elim (occluding_dname m name) [
  | none ↦ none
  | some dname ↦ some (beneath_dname name dname)
]

unfoldable pub check_cut : ZoneModel → Name → List ℕ → Option InputError
unfolding is_delegation all_types is_cut_type count_of
check_cut m name types =
    if is_delegation m name
    then (if all_types is_cut_type types then none else some (data_at_cut name))
    else if count_of type_ds types == 0
    then none
    else some (ds_without_cut name)

unfoldable pub check_owner : ZoneModel → Name → Option OwnerInfo → Option InputError
unfolding check_cname check_dname check_beneath check_cut
check_owner m name none = none
check_owner m name (some oi) = or_next (check_cname m name oi.types) (
    or_next (check_dname name oi.types)
      (or_next (check_beneath m name) (check_cut m name oi.types)))

unfoldable pub check_owners : ZoneModel → List Name → Option InputError
unfolding check_owner find_owner
check_owners m [] = none
check_owners m (name ∷ names) =
    or_next (check_owner m name (find_owner name m.owners)) (check_owners m names)

unfoldable pub has_apex_ns : Option OwnerInfo → Bool
unfolding count_of
has_apex_ns none = false
has_apex_ns (some oi) = not (count_of type_ns oi.types == 0)

unfoldable pub check_model : ZoneModel → Option InputError
unfolding has_apex_ns check_owners find_owner
check_model m =
    let rest = check_owners m (sort_set (map (λ oi. oi.name) m.owners)) in
    if has_apex_ns (find_owner m.apex m.owners) then rest else some no_apex_ns

unfoldable pub validate_zone_records : Name → List Rr → Option InputError
unfolding check_records check_model new_zone_model
validate_zone_records apex records =
    let rest = check_model (new_zone_model apex records) in
    elim (check_records apex 0 records) [
      | err e ↦ some e
      | ok soas ↦
          if soas == 0 then some no_soa else if ltb 1 soas then some (many_soas soas) else rest
    ]
