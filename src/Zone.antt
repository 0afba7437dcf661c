-- ===== src/Zone.antt =====
-- The zone model (signer/internal/signer/zonemodel.go): the index of the records of one input by
-- owner. A record is its canonical owner and its type number; a map from owners is an association
-- list, a set of owners is a list that is only asked for membership, and the memo of `isOccluded` is
-- left out, since it holds what the function computes. Names are given from the root down, so the
-- suffix `labels[i:]` of the source is the first `length - i` labels.
pub mod Occlusion
pub mod Owners
pub mod Chain
pub mod Expectations
pub mod Input
use sigillum_dnssec.Prelude.{
  ℕ, zero, suc, ◌-◌, Bool, true, false, ◌&&◌, ◌||◌, not, Option, none, some, List, [], ◌∷◌, map,
  ltb, ◌==◌, length, ◌++◌, keep_if, if◌then◌else◌,
}
use sigillum_dnssec.Names.{Label, Name}
use sigillum_dnssec.Sets.{name_order, number_order, same, has, sort_set}

-- dns.TypeNS and the other type numbers
abbrev pub type_ns : ℕ
type_ns = 2

abbrev pub type_cname : ℕ
type_cname = 5

abbrev pub type_soa : ℕ
type_soa = 6

abbrev pub type_dname : ℕ
type_dname = 39

abbrev pub type_ds : ℕ
type_ds = 43

abbrev pub type_rrsig : ℕ
type_rrsig = 46

abbrev pub type_nsec : ℕ
type_nsec = 47

abbrev pub type_nsec3param : ℕ
type_nsec3param = 51

pub record Rr : Type 0 where
  pub owner : Name
  pub rrtype : ℕ

-- `types` has one entry for each record, so that a count is a number of entries.
pub record OwnerInfo : Type 0 where
  pub name : Name
  pub types : List ℕ

pub record ZoneModel : Type 0 where
  pub apex : Name
  pub owners : List OwnerInfo
  pub delegations : List Name
  pub dnames : List Name

unfoldable pub same_label : Label → Label → Bool
same_label [] [] = true
same_label [] (y ∷ ys) = false
same_label (x ∷ xs) [] = false
same_label (x ∷ xs) (y ∷ ys) = x == y && same_label xs ys

-- `labelsWithin`: the name is at or below the apex.
unfoldable pub labels_within : Name → Name → Bool
unfolding same_label
labels_within name [] = true
labels_within [] (b ∷ apex) = false
labels_within (a ∷ name) (b ∷ apex) = same_label a b && labels_within name apex

unfoldable pub find_owner : Name → List OwnerInfo → Option OwnerInfo
find_owner name [] = none
find_owner name (oi ∷ owners) =
    let rest = find_owner name owners in if same name oi.name then some oi else rest

-- `owners[name].types[rrtype]++`, for a new owner or a known one.
unfoldable pub count_type : Name → ℕ → List OwnerInfo → List OwnerInfo
count_type name rrtype [] = record { name = name; types = rrtype ∷ [] } ∷ []
count_type name rrtype (oi ∷ owners) =
    let rest = count_type name rrtype owners in
    if same name oi.name then record oi { types = rrtype ∷ oi.types } ∷ owners else oi ∷ rest

unfoldable pub add : ZoneModel → Rr → ZoneModel
unfolding count_type
add m rr = record m {
  owners = count_type rr.owner rr.rrtype m.owners;
  delegations =
      if rr.rrtype == type_ns && not (same rr.owner m.apex)
      then rr.owner ∷ m.delegations
      else m.delegations;
  dnames = if rr.rrtype == type_dname then rr.owner ∷ m.dnames else m.dnames;
}

unfoldable pub add_all : ZoneModel → List Rr → ZoneModel
unfolding add
add_all m [] = m
add_all m (rr ∷ records) = add_all (add m rr) records

unfoldable pub new_zone_model : Name → List Rr → ZoneModel
unfolding add_all
new_zone_model apex records =
    add_all (record { apex = apex; owners = []; delegations = []; dnames = [] }) records

unfoldable pub is_delegation : ZoneModel → Name → Bool
is_delegation m name = has name m.delegations

unfoldable pub take_labels : ℕ → Name → Name
take_labels zero name = []
take_labels (suc n) [] = []
take_labels (suc n) (label ∷ name) = label ∷ take_labels n name

-- `joinLabels(labels[i:])` for i from the given one, as many as remain
unfoldable pub ancestors : Name → ℕ → ℕ → List Name
unfolding take_labels
ancestors name i zero = []
ancestors name i (suc remain) = take_labels (length name - i) name ∷ ancestors name (suc i) remain

-- `for i := 1; i < len(labels)-len(apexLabels); i++`
unfoldable pub ancestors_below : Name → Name → List Name
unfolding ancestors
ancestors_below apex name = ancestors name 1 (length name - length apex - 1)

unfoldable pub first_in : List Name → List Name → Option Name
first_in set [] = none
first_in set (anc ∷ ancs) = let rest = first_in set ancs in if has anc set then some anc else rest

unfoldable pub any_cut : ZoneModel → List Name → Bool
any_cut m [] = false
any_cut m (anc ∷ ancs) = (has anc m.delegations || has anc m.dnames) || any_cut m ancs

abbrev pub is_empty {ℓ} : {A : Type ℓ} → List A → Bool
is_empty [] = true
is_empty (x ∷ xs) = false

unfoldable pub is_occluded : ZoneModel → Name → Bool
unfolding ancestors_below any_cut
is_occluded m name =
    if is_empty m.delegations && is_empty m.dnames
    then false
    else any_cut m (ancestors_below m.apex name)

unfoldable pub occluding_dname : ZoneModel → Name → Option Name
unfolding ancestors_below first_in
occluding_dname m name =
    if is_empty m.dnames then none else first_in m.dnames (ancestors_below m.apex name)

unfoldable pub signable : ZoneModel → Name → ℕ → Bool
unfolding is_occluded is_delegation
signable m name rrtype =
    if is_occluded m name
    then false
    else not (is_delegation m name && (not (rrtype == type_ds) && not (rrtype == type_nsec)))

unfoldable pub authoritative_owners : ZoneModel → List Name
unfolding is_occluded
authoritative_owners m =
    sort_set (keep_if (λ name. not (is_occluded m name)) (map (λ oi. oi.name) m.owners))

abbrev pub is_missing {ℓ} : {A : Type ℓ} → Option A → Bool
is_missing none = true
is_missing (some a) = false

unfoldable pub missing_ancestors : ZoneModel → List Name → List Name
unfolding ancestors_below find_owner
missing_ancestors m [] = []
missing_ancestors m (name ∷ names) =
    keep_if (λ anc. is_missing (find_owner anc m.owners)) (ancestors_below m.apex name)
    ++ missing_ancestors m names

unfoldable pub empty_non_terminals : ZoneModel → List Name
unfolding authoritative_owners missing_ancestors
empty_non_terminals m = sort_set (missing_ancestors m (authoritative_owners m))

-- The keys that `denialTypes` collects for an owner.
unfoldable pub owner_types : ZoneModel → Name → Bool → Option OwnerInfo → List ℕ
unfolding is_delegation
owner_types m name nsec3 none = []
owner_types m name nsec3 (some oi) =
    let signed = if nsec3 then type_rrsig ∷ [] else [] in
    if is_delegation m name
    then type_ns ∷ (if has type_ds oi.types then type_ds ∷ signed else [])
    else signed ++ oi.types

unfoldable pub denial_types : ZoneModel → Name → Bool → List ℕ
unfolding owner_types find_owner
denial_types m name nsec3 =
    let oi = find_owner name m.owners in
    let apex_types = if same name m.apex && not (is_missing oi) then type_nsec3param ∷ [] else [] in
    sort_set
      ((if nsec3 then apex_types else type_nsec ∷ type_rrsig ∷ []) ++ owner_types m name nsec3 oi)
