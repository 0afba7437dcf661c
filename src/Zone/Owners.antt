-- ===== src/Zone/Owners.antt =====
-- What the index of a zone holds (signer/internal/signer/zonemodel.go): every owner of a record and
-- the types of its records.
use sigillum_dnssec.Prelude.{
  ap, ℕ, ◌≡◌, refl, ◌∙◌, Bool, ◌&&◌, ◌||◌, not, Option, none, some, List, [], ◌∷◌, map, arith,
  keep_if,
}
use sigillum_dnssec.Names.{Name}
use sigillum_dnssec.Sets.{name_order, number_order, same, has}
use sigillum_dnssec.Zone.{
  Rr, OwnerInfo, ZoneModel, is_missing, find_owner, count_type, add, add_all, new_zone_model,
}
use sigillum_dnssec.Zone.Chain.{types_by_name}

abbrev pub types_at : Option OwnerInfo → List ℕ
types_at none = []
types_at (some oi) = oi.types

pub has-keep_if :
    (keep : Name → Bool) (name : Name) (names : List Name)
    → has name (keep_if keep names) ≡ (has name names && keep name)
unfolding has keep_if
has-keep_if keep name [] = refl
has-keep_if keep name (x ∷ names) =
    ground (arith, name_order.eq_of_cmp name x, has-keep_if keep name names)

missing_owner :
    (name : Name) (owners : List OwnerInfo)
    → is_missing (find_owner name owners) ≡ not (has name (map (λ oi. oi.name) owners))
unfolding find_owner has
missing_owner name [] = refl
missing_owner name (oi ∷ owners) = ground (arith, missing_owner name owners)

counted_name :
    (a name : Name) (t : ℕ) (owners : List OwnerInfo)
    → has a (map (λ oi. oi.name) (count_type name t owners))
      ≡ (same a name || has a (map (λ oi. oi.name) owners))
unfolding has count_type
counted_name a name t [] = ground arith
counted_name a name t (oi ∷ owners) =
    ground (arith, name_order.eq_of_cmp name oi.name, counted_name a name t owners)

counted_type :
    (a name : Name) (s t : ℕ) (owners : List OwnerInfo)
    → has s (types_at (find_owner a (count_type name t owners)))
      ≡ ((same a name && same s t) || has s (types_at (find_owner a owners)))
unfolding has count_type find_owner
counted_type a name s t [] = ground arith
counted_type a name s t (oi ∷ owners) = ground (
  arith,
  name_order.eq_of_cmp name oi.name,
  name_order.eq_of_cmp a oi.name,
  name_order.eq_of_cmp a name,
  name_order.cmp_refl a,
  counted_type a name s t owners,
)

indexed_name :
    (a : Name) (m : ZoneModel) (records : List Rr)
    → has a (map (λ oi. oi.name) (add_all m records).owners)
      ≡ (has a (map (λ oi. oi.name) m.owners) || has a (map (λ rr. rr.owner) records))
unfolding add_all add has
indexed_name a m [] = ground arith
indexed_name a m (rr ∷ records) =
    ground (arith, indexed_name a (add m rr) records, counted_name a rr.owner rr.rrtype m.owners)

indexed_type :
    (a : Name) (s : ℕ) (m : ZoneModel) (records : List Rr)
    → has s (types_at (find_owner a (add_all m records).owners))
      ≡ (has s (types_at (find_owner a m.owners)) || has s (types_by_name a records))
unfolding add_all add has types_by_name
indexed_type a s m [] = ground arith
indexed_type a s m (rr ∷ records) =
    ground
      (arith, indexed_type a s (add m rr) records, counted_type a rr.owner s rr.rrtype m.owners)

kept_apex : (m : ZoneModel) (records : List Rr) → (add_all m records).apex ≡ m.apex
unfolding add_all add
kept_apex m [] = refl
kept_apex m (rr ∷ records) = kept_apex (add m rr) records

module _ (apex : Name) (records : List Rr) where
  pub has_owner :
      (a : Name)
      → has a (map (λ oi. oi.name) (new_zone_model apex records).owners)
        ≡ has a (map (λ rr. rr.owner) records)
  unfolding new_zone_model has
  has_owner a = indexed_name a _ records

  pub missing-find_owner :
      (a : Name)
      → is_missing (find_owner a (new_zone_model apex records).owners)
        ≡ not (has a (map (λ rr. rr.owner) records))
  missing-find_owner a = missing_owner a (new_zone_model apex records).owners ∙ ap not (has_owner a)

  pub has_type :
      (a : Name) (s : ℕ)
      → has s (types_at (find_owner a (new_zone_model apex records).owners))
        ≡ has s (types_by_name a records)
  unfolding new_zone_model has find_owner
  has_type a s = indexed_type a s _ records

  pub apex-new_zone_model : (new_zone_model apex records).apex ≡ apex
  unfolding new_zone_model
  apex-new_zone_model = kept_apex _ records
