-- ===== src/Sign/Rrsets/Laws.antt =====
-- The signatures that a signing makes (signer/internal/signer/sign.go `signRecordsWithModel`).
use mathlib.Core.List.{Memᴰ}
use mathlib.Core.List.Memᴰ
use mathlib.Core.Path.{subst}
use sigillum_dnssec.Prelude.{
  ℕ, ◌≡◌, ◌<◌, ◌==◌, length, ◌⊎◌, ◌↔◌, inl, inr, refl, sym, ap, ◌∙◌, Bool, true, false, not, List,
  [], ◌∷◌, ◌++◌, arith, Result, ok, err, if◌then◌else◌, Bool-cases,
}
use sigillum_dnssec.Sets.{name_order, same, has, sort_set}
use sigillum_dnssec.Sets.Laws.{has-sort_set, has_head, has_later}
use sigillum_dnssec.Names.{Name}
use sigillum_dnssec.Zone.{Rr, ZoneModel, is_occluded, is_delegation, signable}
use sigillum_dnssec.Zone.Occlusion.{is_cut, IsProperAncestor, is_occluded_iff}
use sigillum_dnssec.Sign.Keys.{DnsKey, SigningKeys}
use sigillum_dnssec.Sign.Rrsets.{
  RrsetKey, Rrsig, key_order, rrset_keys, sorted_rrset_keys, create_rrsig, SignError,
  signing_failed, then_more, sign_rrset, keys_for, sign_all, sign_records_with_model,
}

has_member : (k : RrsetKey) (ks : List RrsetKey) → Memᴰ k ks → has k ks ≡ true
has_member k [] m = absurd (Memᴰ.not-nil m)
has_member k (x ∷ ks) (Memᴰ.head e) = subst (λ y. has k (y ∷ ks) ≡ true) e (has_head k ks)
has_member k (x ∷ ks) (Memᴰ.tail m) = has_later k x ks (has_member k ks m)

member_has : (k : RrsetKey) (ks : List RrsetKey) → has k ks ≡ true → Memᴰ k ks
unfolding has
member_has k [] h = absurd (cc h)
member_has k (x ∷ ks) h = elim (Bool-cases (same k x)) [
  | inl e ↦ Memᴰ.head (ground (arith, e, key_order.eq_of_cmp k x))
  | inr e ↦ Memᴰ.tail (member_has k ks (ground (arith, h, e)))
]

module _ (signs : RrsetKey → DnsKey → Bool) where
  -- The signature is one that the signing of the RRset adds.
  abbrev AddedFor : RrsetKey → List DnsKey → Rrsig → Type 0
  AddedFor k keys s = (key : DnsKey) × (Memᴰ key keys × (s ≡ create_rrsig k key))

  rrset_either :
      (test : Bool) (tag : ℕ) (k : RrsetKey) (r : Result SignError (List Rrsig)) (out : List Rrsig)
      → (if test then r else err (signing_failed k tag)) ≡ ok out
      → r ≡ ok out
  rrset_either true tag k r out h = h
  rrset_either false tag k r out h = absurd (cc h)

  sign_rrset_adds :
      (k : RrsetKey) (keys : List DnsKey) (made out : List Rrsig) (s : Rrsig)
      → sign_rrset signs k keys made ≡ ok out
      → (Memᴰ s out → Memᴰ s made ⊎ AddedFor k keys s)
        × ((Memᴰ s made ⊎ AddedFor k keys s) → Memᴰ s out)
  unfolding sign_rrset
  sign_rrset_adds k [] made out s h =
      let e : made ≡ out = ground (arith, h) in
      (
        λ m. inl (subst (Memᴰ s) (sym e) m),
        λ x. elim x [
          | inl old ↦ subst (Memᴰ s) e old
          | inr (key, (m, _)) ↦ absurd (Memᴰ.not-nil m)
        ],
      )
  sign_rrset_adds k (key ∷ keys) made out s h =
      let rest =
        sign_rrset_adds k keys (made ++ create_rrsig k key ∷ []) out s
          (rrset_either (signs k key) key.key_tag k _ out h) in
      (
        λ m. elim (rest.0 m) [
          | inl old ↦ elim (Memᴰ.append_cases made old) [
            | inl before ↦ inl before
            | inr now ↦ inr (key, (Memᴰ.head refl, Memᴰ.eq_of_singleton now))
          ]
          | inr (later, (member, is)) ↦ inr (later, (Memᴰ.tail member, is))
        ],
        λ x. elim x [
          | inl old ↦ rest.1 (inl (Memᴰ.append_left _ old))
          | inr (k', (member, is)) ↦ elim (Memᴰ.cases_cons member) [
            | inl e ↦ rest.1 (inl (Memᴰ.append_right made (Memᴰ.head (is ∙ ap (create_rrsig k) e))))
            | inr later ↦ rest.1 (inr (k', (later, is)))
          ]
        ],
      )

  -- The signature belongs to a signable RRset of the list and to a key of its role.
  abbrev Belongs : ZoneModel → SigningKeys → List RrsetKey → Rrsig → Type 0
  Belongs m keys ks s =
      (k : RrsetKey) × (Memᴰ k ks
        × ((signable m k.name k.rrtype ≡ true) × AddedFor k (keys_for signs keys k) s))

  Made : ZoneModel → SigningKeys → List RrsetKey → List Rrsig → List Rrsig → Rrsig → Type 0
  Made m keys ks made out s =
      (Memᴰ s out → Memᴰ s made ⊎ Belongs m keys ks s)
      × ((Memᴰ s made ⊎ Belongs m keys ks s) → Memᴰ s out)

  all_either :
      (m : ZoneModel) (keys : SigningKeys) (k : RrsetKey) (ks : List RrsetKey)
      (made out : List Rrsig) (s : Rrsig) (test : Bool)
      → signable m k.name k.rrtype ≡ test
      → (now : Result SignError (List Rrsig))
      → sign_rrset signs k (keys_for signs keys k) made ≡ now
      → (if not test
          then sign_all signs m keys ks made
          else then_more now (sign_all signs m keys ks))
        ≡ ok out
      → ((between : List Rrsig)
          → (sign_all signs m keys ks between ≡ ok out)
          → Made m keys ks between out s)
      → Made m keys (k ∷ ks) made out s
  unfolding Made
  all_either m keys k ks made out s false e now is h later =
      let rest = later made h in
      (
        λ x. elim (rest.0 x) [
          | inl old ↦ inl old
          | inr (l, (member, more)) ↦ inr (l, (Memᴰ.tail member, more))
        ],
        λ x. elim x [
          | inl old ↦ rest.1 (inl old)
          | inr (l, (member, (yes_, more))) ↦ elim (Memᴰ.cases_cons member) [
            | inl here ↦ absurd (cc (yes_, e, ap (λ y. signable m y.name y.rrtype) here))
            | inr there ↦ rest.1 (inr (l, (there, (yes_, more))))
          ]
        ],
      )
  all_either m keys k ks made out s true e (err x) is h later = absurd (cc h)
  all_either m keys k ks made out s true e (ok between) is h later =
      let rest = later between h in
      let one = sign_rrset_adds k (keys_for signs keys k) made between s is in
      (
        λ x. elim (rest.0 x) [
          | inl old ↦ elim (one.0 old) [
            | inl before ↦ inl before
            | inr added ↦ inr (k, (Memᴰ.head refl, (e, added)))
          ]
          | inr (l, (member, more)) ↦ inr (l, (Memᴰ.tail member, more))
        ],
        λ x. elim x [
          | inl old ↦ rest.1 (inl (one.1 (inl old)))
          | inr (l, (member, (yes_, more))) ↦ elim (Memᴰ.cases_cons member) [
            | inl here ↦
                rest.1
                  (inl (one.1 (inr (subst (λ y. AddedFor y (keys_for signs keys y) s) here more))))
            | inr there ↦ rest.1 (inr (l, (there, (yes_, more))))
          ]
        ],
      )

  sign_all-Made :
      (m : ZoneModel) (keys : SigningKeys) (ks : List RrsetKey) (made out : List Rrsig) (s : Rrsig)
      → sign_all signs m keys ks made ≡ ok out
      → Made m keys ks made out s
  unfolding sign_all Made
  sign_all-Made m keys [] made out s h =
      let e : made ≡ out = ground (arith, h) in
      (
        λ x. inl (subst (Memᴰ s) (sym e) x),
        λ x. elim x [
          | inl old ↦ subst (Memᴰ s) e old
          | inr (k, (member, _)) ↦ absurd (Memᴰ.not-nil member)
        ],
      )
  sign_all-Made m keys (k ∷ ks) made out s h =
      all_either m keys k ks made out s (signable m k.name k.rrtype) refl
        (sign_rrset signs k (keys_for signs keys k) made) refl h
        (λ between later. sign_all-Made m keys ks between out s later)

  -- What a zone signs: nothing beneath a cut or a DNAME, and at a delegation the DS and the NSEC
  -- record only.
  abbrev pub IsAuthoritative : ZoneModel → RrsetKey → Type 0
  IsAuthoritative m k =
      (¬ (
        (cut : Name) × ((is_cut m cut ≡ true)
          × ((length m.apex < length cut) × IsProperAncestor cut k.name))))
      × ((has k.name m.delegations ≡ false) ⊎ ((k.rrtype ≡ 43) ⊎ (k.rrtype ≡ 47)))

  -- A key of the role that signs the type: a KSK for DNSKEY, a ZSK for the rest.
  abbrev pub IsOfRole : SigningKeys → RrsetKey → DnsKey → Type 0
  IsOfRole keys k key =
      ((k.rrtype ≡ 48) × Memᴰ key keys.signing_ksks)
      ⊎ ((¬ (k.rrtype ≡ 48)) × Memᴰ key keys.signing_zsks)

  -- An RRset of the input that the zone signs, and a key of its role.
  unfoldable pub IsDue : ZoneModel → List Rr → SigningKeys → Rrsig → Type 0
  IsDue m records keys s =
      (k : RrsetKey) × ((has k (rrset_keys records) ≡ true)
        × (IsAuthoritative m k
            × ((key : DnsKey) × (IsOfRole keys k key × (s ≡ create_rrsig k key)))))

  signable-IsAuthoritative :
      (m : ZoneModel) (k : RrsetKey) → signable m k.name k.rrtype ≡ true → IsAuthoritative m k
  unfolding signable is_delegation
  signable-IsAuthoritative m k h =
      let open_ : is_occluded m k.name ≡ false = ground (arith, h) in
      (λ cut. absurd (cc ((is_occluded_iff m k.name).1 cut, open_)), ground (arith, h))

  authoritative-signable :
      (m : ZoneModel) (k : RrsetKey) → IsAuthoritative m k → signable m k.name k.rrtype ≡ true
  unfolding signable is_delegation
  authoritative-signable m k (uncut, rest) = elim (Bool-cases (is_occluded m k.name)) [
    | inl e ↦ absurd (uncut ((is_occluded_iff m k.name).0 e))
    | inr e ↦ ground (arith, e, rest)
  ]

  role_either :
      (keys : SigningKeys) (k : RrsetKey) (key : DnsKey) (test : Bool)
      → (k.rrtype == 48) ≡ test
      → (Memᴰ key (if test then keys.signing_ksks else keys.signing_zsks) → IsOfRole keys k key)
        × (IsOfRole keys k key → Memᴰ key (if test then keys.signing_ksks else keys.signing_zsks))
  role_either keys k key true e =
      let dnskey : k.rrtype ≡ 48 = ground (arith, e) in
      (
        λ m. inl (dnskey, m),
        λ r. elim r [ inl (is, m) ↦ m | inr (is_not, m) ↦ absurd (is_not dnskey) ],
      )
  role_either keys k key false e = (
    λ m. inr ((λ is. absurd (ground (arith, e, is))), m),
    λ r. elim r [ inl (is, m) ↦ absurd (ground (arith, e, is)) | inr (is_not, m) ↦ m ],
  )

  role-keys_for :
      (keys : SigningKeys) (k : RrsetKey) (key : DnsKey)
      → (Memᴰ key (keys_for signs keys k) → IsOfRole keys k key)
        × (IsOfRole keys k key → Memᴰ key (keys_for signs keys k))
  role-keys_for keys k key = role_either keys k key (k.rrtype == 48) refl

  -- A signing that succeeds makes exactly the signatures that are due: one for every RRset
  -- of the input that the zone signs and every key of the role that signs its type, and none for
  -- what is beneath a cut or a DNAME, for a delegation's records other than DS and NSEC, or by
  -- another key.
  pub sign_records_complete :
      (m : ZoneModel) (records : List Rr) (keys : SigningKeys) (out : List Rrsig) (s : Rrsig)
      → sign_records_with_model signs m records keys ≡ ok out
      → Memᴰ s out ↔ IsDue m records keys s
  unfolding sign_records_with_model sorted_rrset_keys IsDue Made
  sign_records_complete m records keys out s h =
      let ks = rrset_keys records in
      let made = sign_all-Made m keys (sort_set ks) [] out s h in
      (
        λ x. elim (made.0 x) [
          | inl nowhere ↦ absurd (Memᴰ.not-nil nowhere)
          | inr (k, (member, more)) ↦ (
            k,
            (
              sym (has-sort_set k ks) ∙ has_member k (sort_set ks) member,
              (
                signable-IsAuthoritative m k more.0,
                (more.1.0, ((role-keys_for keys k more.1.0).0 more.1.1.0, more.1.1.1)),
              ),
            ),
          )
        ],
        λ (k, (listed, (owned, (key, (role, is))))). made.1 (
            inr (
              k,
              (
                member_has k (sort_set ks) (has-sort_set k ks ∙ listed),
                (authoritative-signable m k owned, (key, ((role-keys_for keys k key).1 role, is))),
              ),
            )),
      )
