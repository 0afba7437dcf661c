-- ===== src/Denial.antt =====
-- Authenticated denial with NSEC records (validator/internal/validator/nsec.go). The records are the
-- ones whose signatures the caller has verified. A name of a query or a record is its text, as
-- `canonicalizeName` gives it, by the pieces between its dots (Names.Text), as `splitLabels`,
-- `lastNLabels` and `GetZoneLabels` cut it, which do not tell an escaped dot from another. The pieces
-- are given from the root down, so "." is the empty list, `lastNLabels` takes the first pieces and
-- `commonSuffixLabels` is a common prefix. Only the canonical order looks at labels.
-- `dns.SplitDomainName` and `dns.IsSubDomain` are parameters. The texts of a proof and of an error
-- are left out, and a type's text is its number.
pub mod Records
pub mod Intervals
pub mod Enclosers
pub mod Nxdomain
pub mod Nodata
pub mod Wildcard
pub mod Chain
pub mod Signed
use Prim.Native.Nat.{Ordering}
use Prim.Native.Nat.Ordering.{lt, eq, gt}
use sigillum_dnssec.Prelude.{
  ℕ, ◌+◌, Bool, true, false, ◌&&◌, ◌||◌, not, Option, none, some, List, [], ◌∷◌, ◌++◌, Result, ok,
  err, length, leb, ltb, ◌==◌, if◌then◌else◌,
}
use sigillum_dnssec.Names.{Name, compare_canonical_names}
use sigillum_dnssec.Names.Text.{decoded}
use sigillum_dnssec.Sets.{name_order, number_order, same, has}
use sigillum_dnssec.Zone.{same_label, take_labels, type_ns, type_soa, type_cname, type_dname}
use sigillum_dnssec.Zone.Chain.{Nsec}

pub data DenialError : Type 0 where
  dname_above : Name → DenialError
  delegation_above : Name → DenialError
  name_exists : DenialError
  not_covered : DenialError
  empty_non_terminal : DenialError
  encloser_is_name : DenialError
  wildcard_exists : DenialError
  wildcard_not_covered : DenialError
  cname_present : DenialError
  delegation_point : DenialError
  type_listed : DenialError
  next_closer_exists : DenialError
  encloser_differs : DenialError
  not_an_expansion : DenialError
  no_records : DenialError

pub data ProofType : Type 0 where
  nxdomain nodata wildcard : ProofType

pub record NsecProof : Type 0 where
  pub proof_type : ProofType
  pub closest_encloser : Option Name
  pub next_closer : Option Name
  pub opt_out : Bool

abbrev pub is_lt : Ordering → Bool
is_lt lt = true
is_lt eq = false
is_lt gt = false

abbrev pub is_gt : Ordering → Bool
is_gt lt = false
is_gt eq = false
is_gt gt = true

abbrev pub then_ok {ℓ} :
    {A B : Type ℓ} → Result DenialError A → (A → Result DenialError B) → Result DenialError B
then_ok (ok a) next = next a
then_ok (err e) next = err e

-- `canonicallyBetween` of three names given by their labels.
unfoldable pub canonically_between : Name → Name → Name → Bool
canonically_between name start end =
    let after = is_gt (compare_canonical_names name start) in
    let before = is_lt (compare_canonical_names name end) in
    elim (compare_canonical_names start end) [
      | lt ↦ after && before
      | gt ↦ after || before
      | eq ↦ not (same name start)
    ]

abbrev pub has_type_in_bitmap : ℕ → List ℕ → Bool
has_type_in_bitmap rrtype bitmap = has rrtype bitmap

-- NS set, SOA clear
abbrev pub is_parent_side : List ℕ → Bool
is_parent_side bitmap =
    has_type_in_bitmap type_ns bitmap && not (has_type_in_bitmap type_soa bitmap)

unfoldable pub common_suffix_labels : Name → Name → Name
common_suffix_labels [] bs = []
common_suffix_labels (a ∷ as_) [] = []
common_suffix_labels (a ∷ as_) (b ∷ bs) =
    let rest = common_suffix_labels as_ bs in if same_label a b then a ∷ rest else []

abbrev pub get_zone_labels : Name → ℕ
get_zone_labels zone = length zone

abbrev pub last_n_labels : Name → ℕ → Name
last_n_labels name n = take_labels n name

unfoldable pub closest_encloser_from_nsec : Name → Name → Name → Name
unfolding common_suffix_labels
closest_encloser_from_nsec qname owner next =
    let ce_owner = common_suffix_labels qname owner in
    let ce_next = common_suffix_labels qname next in
    if ltb (get_zone_labels ce_owner) (get_zone_labels ce_next) then ce_next else ce_owner

abbrev pub wildcard_name : Name → Name
wildcard_name encloser = encloser ++ (42 ∷ []) ∷ []

unfoldable pub next_closer_name : Name → Name → Name
next_closer_name qname ce =
    if same ce qname then qname else last_n_labels qname (get_zone_labels ce + 1)

unfoldable pub find_owned : Name → List Nsec → Option Nsec
find_owned name [] = none
find_owned name (n ∷ nsecs) =
    let rest = find_owned name nsecs in if same n.owner name then some n else rest

module _ (split : Name → Name) where
  -- `compareCanonicalNames`, of texts.
  unfoldable pub compare_texts : Name → Name → Ordering
  unfolding decoded compare_canonical_names
  compare_texts a b = compare_canonical_names (decoded split a) (decoded split b)

  -- `canonicallyBetween`, of texts.
  unfoldable pub text_between : Name → Name → Name → Bool
  unfolding decoded canonically_between
  text_between name start end =
      canonically_between (decoded split name) (decoded split start) (decoded split end)

  -- The loop that looks for a covering record and refuses an exact owner.
  unfoldable pub find_cover : DenialError → DenialError → Name → List Nsec → Result DenialError Nsec
  unfolding text_between
  find_cover exact missing name [] = err missing
  find_cover exact missing name (n ∷ nsecs) =
      let rest = find_cover exact missing name nsecs in
      if same n.owner name
      then err exact
      else if text_between name n.owner n.next_domain
      then ok n
      else rest

  unfoldable pub find_between : Name → List Nsec → Option Nsec
  unfolding text_between
  find_between name [] = none
  find_between name (n ∷ nsecs) =
      let rest = find_between name nsecs in
      if text_between name n.owner n.next_domain then some n else rest

-- The three tests that a bitmap must pass before it denies a type.
unfoldable pub bitmap_error : ℕ → List ℕ → Option DenialError
bitmap_error qtype bitmap =
    if has_type_in_bitmap type_cname bitmap
    then some cname_present
    else if is_parent_side bitmap
    then some delegation_point
    else if has_type_in_bitmap qtype bitmap
    then some type_listed
    else none

abbrev pub unless_error : Option DenialError → NsecProof → Result DenialError NsecProof
unless_error none proof = ok proof
unless_error (some e) proof = err e

module _ (is_sub_domain : Name → Name → Bool) where
  unfoldable pub nsec_ancestor_boundary : Name → List Nsec → Option DenialError
  nsec_ancestor_boundary qname [] = none
  nsec_ancestor_boundary qname (n ∷ nsecs) =
      let rest = nsec_ancestor_boundary qname nsecs in
      if same n.owner qname || not (is_sub_domain n.owner qname)
      then rest
      else if has_type_in_bitmap type_dname n.types
      then some (dname_above n.owner)
      else if is_parent_side n.types
      then some (delegation_above n.owner)
      else rest

  unfoldable pub nsec_endpoint_below : Name → Name → Bool
  nsec_endpoint_below name endpoint = not (same endpoint name) && is_sub_domain name endpoint

module _ (split : Name → Name) (is_sub_domain : Name → Name → Bool) where
  -- The part of `verifyNSECNXDOMAIN` after the covering record is found.
  unfoldable pub nxdomain_covered : Name → List Nsec → Nsec → Result DenialError NsecProof
  unfolding find_cover nsec_endpoint_below closest_encloser_from_nsec next_closer_name
  nxdomain_covered qname nsecs covering =
      let ce = closest_encloser_from_nsec qname covering.owner covering.next_domain in
      if nsec_endpoint_below is_sub_domain qname covering.next_domain
      then err empty_non_terminal
      else if same ce qname
      then err encloser_is_name
      else then_ok (find_cover split wildcard_exists wildcard_not_covered (wildcard_name ce) nsecs)
          (λ cover. ok (record {
            proof_type = nxdomain;
            closest_encloser = some ce;
            next_closer = some (next_closer_name qname ce);
            opt_out = false;
          }))

  unfoldable pub verify_nsec_nxdomain : Name → List Nsec → Result DenialError NsecProof
  unfolding nsec_ancestor_boundary find_cover nxdomain_covered
  verify_nsec_nxdomain qname nsecs = elim (nsec_ancestor_boundary is_sub_domain qname nsecs) [
    | some e ↦ err e
    | none ↦
        then_ok (find_cover split name_exists not_covered qname nsecs)
          (nxdomain_covered qname nsecs)
  ]

  -- The part of `verifyNSECNODATA` for a name that no record owns.
  unfoldable pub nodata_covered : Name → ℕ → List Nsec → Nsec → Result DenialError NsecProof
  unfolding find_owned bitmap_error compare_texts nsec_endpoint_below closest_encloser_from_nsec
      next_closer_name
  nodata_covered qname qtype nsecs covering =
      let ce = closest_encloser_from_nsec qname covering.owner covering.next_domain in
      if nsec_endpoint_below is_sub_domain qname covering.next_domain
        && is_lt (compare_texts split covering.owner covering.next_domain)
      then ok (record {
        proof_type = nodata;
        closest_encloser = some qname;
        next_closer = none;
        opt_out = false;
      })
      else elim (find_owned (wildcard_name ce) nsecs) [
        | none ↦ err not_covered
        | some n ↦ unless_error (bitmap_error qtype n.types) (record {
          proof_type = nodata;
          closest_encloser = some ce;
          next_closer = some (next_closer_name qname ce);
          opt_out = false;
        })
      ]

  unfoldable pub verify_nsec_nodata : Name → ℕ → List Nsec → Result DenialError NsecProof
  unfolding nsec_ancestor_boundary find_owned find_between bitmap_error nodata_covered
  verify_nsec_nodata qname qtype nsecs = elim (nsec_ancestor_boundary is_sub_domain qname nsecs) [
    | some e ↦ err e
    | none ↦ elim (find_owned qname nsecs) [
      | some n ↦ unless_error (bitmap_error qtype n.types) (record {
        proof_type = nodata;
        closest_encloser = none;
        next_closer = none;
        opt_out = false;
      })
      | none ↦ elim (find_between split qname nsecs) [
        | none ↦ err not_covered
        | some covering ↦ nodata_covered qname qtype nsecs covering
      ]
    ]
  ]

  -- No proof and no error when there is no record.
  unfoldable pub verify_nsec_denial :
      Name → ℕ → List Nsec → ℕ → Result DenialError (Option NsecProof)
  unfolding verify_nsec_nxdomain verify_nsec_nodata
  verify_nsec_denial qname qtype [] rcode = ok none
  verify_nsec_denial qname qtype (n ∷ nsecs) rcode =
      if rcode == 3
      then then_ok (verify_nsec_nxdomain qname (n ∷ nsecs)) (λ proof. ok (some proof))
      else then_ok (verify_nsec_nodata qname qtype (n ∷ nsecs)) (λ proof. ok (some proof))
