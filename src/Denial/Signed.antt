-- ===== src/Denial/Signed.antt =====
-- The denial records of signer/internal/signer/sign.go put to the validator of
-- validator/internal/validator/nsec.go.
use mathlib.Core.List.{Memᴰ}
use mathlib.Core.Path.{subst}
use sigillum_dnssec.Prelude.{
  ℕ, ◌≡◌, refl, sym, ◌∙◌, ap, Bool, true, false, not, List, [], ◌∷◌, map, ok,
}
use sigillum_dnssec.Names.{Name}
use sigillum_dnssec.Sets.{name_order, number_order, has, sort_set}
use sigillum_dnssec.Sets.Laws.{IsAscending, sort_set-IsAscending, has-sort_set}
use sigillum_dnssec.Zone.{Rr, new_zone_model, authoritative_owners, denial_types}
use sigillum_dnssec.Zone.Chain.{
  Nsec, chain_of, chain_names, chain_types, generate_nsec_chain_with_model, generate_nsec_chain,
}
use sigillum_dnssec.Zone.Chain.Types.{
  IsUnsigned, known_name, has_apex, chain_names-authoritative, chain_types-denial_types,
}
use sigillum_dnssec.Denial.{NsecProof, verify_nsec_nxdomain}
use sigillum_dnssec.Names.Text.{is_plain, IsSplit}
use sigillum_dnssec.Denial.Records.{
  IsTruthful, AllTruthful, plain_records, IsNotAbove, IsSubDomainTest,
}
use sigillum_dnssec.Denial.Chain.{any_covers, chain_of_covers, chain_of-IsTruthful}
use sigillum_dnssec.Denial.Nxdomain.{IsDenied, verify_nsec_nxdomain_sound}

all_of-AllTruthful :
    (names : List Name) (types : Name → List ℕ) (nsecs : List Nsec)
    → ((n : Nsec) → Memᴰ n nsecs → IsTruthful names types n)
    → AllTruthful names types nsecs
unfolding AllTruthful
all_of-AllTruthful names types [] h = tt
all_of-AllTruthful names types (n ∷ nsecs) h =
    (h n (Memᴰ.head refl), all_of-AllTruthful names types nsecs (λ a m. h a (Memᴰ.tail m)))

nonempty_covers :
    (types : Name → List ℕ) (names : List Name) (name apex : Name)
    → IsAscending names
    → has apex names ≡ true
    → any_covers name (chain_of types names) ≡ not (has name names)
nonempty_covers types [] name apex up h = absurd (unfold has in cc h)
nonempty_covers types (first ∷ names) name apex up h = chain_of_covers types name first names up

module _ (apex : Name) (records : List Rr) where
  -- The chain of a zone with a record at its apex covers exactly the names that are not
  -- authoritative owners of the zone: every other name can be denied, and none of the owners can.
  pub generate_nsec_chain_covers :
      (name : Name)
      → has apex (map (λ rr. rr.owner) records) ≡ true
      → any_covers name (generate_nsec_chain apex records)
        ≡ not (has name (authoritative_owners (new_zone_model apex records)))
  unfolding generate_nsec_chain generate_nsec_chain_with_model
  generate_nsec_chain_covers name at_apex =
      let m = new_zone_model apex records in
      let names = sort_set (chain_names m records) in
      nonempty_covers (chain_types m records) names name apex
        (sort_set-IsAscending (chain_names m records)) (has_apex apex records at_apex)
      ∙ ap (λ owners. not (has name owners)) (chain_names-authoritative apex records)

  generated-IsTruthful :
      (n : Nsec)
      → IsUnsigned records
      → Memᴰ n (generate_nsec_chain apex records)
      → IsTruthful
          (authoritative_owners (new_zone_model apex records))
          (λ name. denial_types (new_zone_model apex records) name false)
          n
  unfolding generate_nsec_chain generate_nsec_chain_with_model
  generated-IsTruthful n unsigned member =
      let m = new_zone_model apex records in
      let names = sort_set (chain_names m records) in
      let same_names = chain_names-authoritative apex records in
      let place =
        chain_of-IsTruthful (chain_types m records) names n
          (sort_set-IsAscending (chain_names m records)) member in
      record {
        owned = subst (λ owners. has n.owner owners ≡ true) same_names place.owned;
        next_owned = subst (λ owners. has n.next_domain owners ≡ true) same_names place.next_owned;
        bitmap =
            place.bitmap
            ∙ chain_types-denial_types apex records unsigned n.owner
                (known_name apex records n.owner
                  (sym (has-sort_set n.owner (chain_names m records)) ∙ place.owned)).0;
        skips = λ a owner. place.skips a (ap (has a) same_names ∙ owner);
      }

  pub generated-AllTruthful :
      (nsecs : List Nsec)
      → IsUnsigned records
      → ((n : Nsec) → Memᴰ n nsecs → Memᴰ n (generate_nsec_chain apex records))
      → AllTruthful
          (authoritative_owners (new_zone_model apex records))
          (λ name. denial_types (new_zone_model apex records) name false)
          nsecs
  generated-AllTruthful nsecs unsigned from =
      all_of-AllTruthful _ _ nsecs (λ n member. generated-IsTruthful n unsigned (from n member))

  -- The validator's answer on the signer's records is true of the zone, where the names of the
  -- query and of the records are plain: each label is a non-empty run of lower-case letters,
  -- digits, hyphens, underscores and asterisks. When an NXDOMAIN proof is accepted for records of
  -- the generated chain, in any selection and order, the name is no authoritative owner of the
  -- zone, no authoritative owner is at or below the next closer name, the closest encloser is an
  -- ancestor of one, the wildcard at it is none, and no record stands above the name as a DNAME or
  -- as the parent side of a zone cut.
  pub signed_nxdomain_sound :
      (split : Name → Name) (is_sub_domain : Name → Name → Bool) (qname : Name) (nsecs : List Nsec)
      (proof : NsecProof) (other : Name) (r : Nsec)
      → IsSplit split
      → IsSubDomainTest is_sub_domain
      → is_plain qname ≡ true
      → plain_records nsecs ≡ true
      → IsUnsigned records
      → ((n : Nsec) → Memᴰ n nsecs → Memᴰ n (generate_nsec_chain apex records))
      → verify_nsec_nxdomain split is_sub_domain qname nsecs ≡ ok proof
      → has other (authoritative_owners (new_zone_model apex records)) ≡ true
      → Memᴰ r nsecs
      → IsDenied (authoritative_owners (new_zone_model apex records)) qname other proof
        × IsNotAbove qname r
  signed_nxdomain_sound split is_sub_domain qname nsecs proof other r splits tests p ps unsigned
        from h owner member =
      let m = new_zone_model apex records in
      verify_nsec_nxdomain_sound split splits is_sub_domain tests (authoritative_owners m)
        (λ name. denial_types m name false) qname nsecs p ps
        (generated-AllTruthful nsecs unsigned from) proof other r h owner member
