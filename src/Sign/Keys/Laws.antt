-- ===== src/Sign/Keys/Laws.antt =====
-- The keys that sign are published (signer/internal/signer/sign.go `validateConsistency`,
-- `validateAlgorithms`).
use mathlib.Core.Path.{subst}
use sigillum_dnssec.Prelude.{
  sym, ap, ℕ, ◌≡◌, ◌⊎◌, inl, inr, refl, Bool, true, false, not, Option, none, some, List, [], ◌∷◌,
  ◌++◌, map, arith, Result, ok, err,
}
use sigillum_dnssec.Sets.{number_order, has}
use sigillum_dnssec.State.{ZoneState, RolloverState}
use sigillum_dnssec.Rollover.{ksk_role, zsk_role}
use sigillum_dnssec.Sign.Keys.{
  DnsKey, SigningKeys, KeyFiles, KeysError, expected_live_key_tags, find_unpublished,
  validate_consistency, validate_algorithms, loaded, add_old_ksk, sign_with_old_zsk,
  publish_old_zsk, add_old_algorithm, add_old_keys, checked, live_keys, then_keys,
  load_keys_for_signing, no_keys_recorded, key_not_loaded, signer_not_published, mixed_algorithms,
}

abbrev pub is_unpublished : KeysError → Bool
is_unpublished no_keys_recorded = false
is_unpublished (key_not_loaded role tag) = false
is_unpublished (signer_not_published tag) = true
is_unpublished mixed_algorithms = false

-- The signing keys are published.
abbrev pub all_published : SigningKeys → Bool
all_published keys =
    elim (find_unpublished (map (λ k. k.key_tag) keys.dnskeys)
      (keys.signing_ksks ++ keys.signing_zsks)) [ none ↦ true | some tag ↦ false ]

abbrev sound : Result KeysError SigningKeys → Bool
sound (ok keys) = all_published keys
sound (err e) = not (is_unpublished e)

abbrev live : DnsKey → DnsKey → SigningKeys
live ksk zsk = record { dnskeys = ksk ∷ zsk ∷ []; signing_ksks = ksk ∷ []; signing_zsks = zsk ∷ [] }

sound-live : (ksk zsk : DnsKey) → sound (ok (live ksk zsk)) ≡ true
unfolding find_unpublished has
sound-live ksk zsk = ground arith

module _ (files : KeyFiles) (r : RolloverState) (ksk zsk : DnsKey) where
  sound_ksk : sound (add_old_ksk files r (live ksk zsk)) ≡ true
  unfolding add_old_ksk find_unpublished has
  sound_ksk = ground arith

  sound_zsk : sound (sign_with_old_zsk files r (live ksk zsk)) ≡ true
  unfolding sign_with_old_zsk find_unpublished has
  sound_zsk = ground arith

  sound_published : sound (publish_old_zsk files r (live ksk zsk)) ≡ true
  unfolding publish_old_zsk find_unpublished has
  sound_published = ground arith

  sound_algorithm : sound (add_old_algorithm files r (live ksk zsk)) ≡ true
  unfolding add_old_algorithm find_unpublished has
  sound_algorithm = ground arith

  sound_old_keys : sound (add_old_keys files (some r) (live ksk zsk)) ≡ true
  unfolding add_old_keys
  sound_old_keys =
      ground (arith, sound_ksk, sound_zsk, sound_published, sound_algorithm, sound-live ksk zsk)

module _ (files : KeyFiles) where
  Begins : Result KeysError SigningKeys → Type 0
  Begins result =
      ((e : KeysError) × ((result ≡ err e) × (is_unpublished e ≡ false)))
      ⊎ ((a : DnsKey) × ((b : DnsKey) × (result ≡ ok (live a b))))

  live_either :
      (k z : ℕ) (ksk zsk : Option DnsKey)
      → Begins (loaded ksk_role k ksk (λ a. loaded zsk_role z zsk (λ b. ok (live a b))))
  unfolding Begins
  live_either k z none zsk = inl (key_not_loaded ksk_role k, (refl, refl))
  live_either k z (some a) none = inl (key_not_loaded zsk_role z, (refl, refl))
  live_either k z (some a) (some b) = inr (a, (b, refl))

  begin_live :
      (tags : Result KeysError (ℕ × ℕ))
      → ((e : KeysError) → (tags ≡ err e) → is_unpublished e ≡ false)
      → Begins (then_keys files tags (live_keys files))
  unfolding live_keys
  begin_live (ok (k, z)) h =
      live_either k z (files.ensure_live_key ksk_role k) (files.ensure_live_key zsk_role z)
  begin_live (err e) h = unfold Begins in inl (e, (refl, h e refl))

  tags_error :
      (z : ZoneState) (e : KeysError) → expected_live_key_tags z ≡ err e → is_unpublished e ≡ false
  unfolding expected_live_key_tags
  tags_error z e h = ground (arith, h)

  sound_from :
      (rollover : Option RolloverState) (begun : Result KeysError SigningKeys)
      → Begins begun
      → sound (then_keys files begun (add_old_keys files rollover)) ≡ true
  unfolding Begins
  sound_from rollover begun (inl (e, (is, known))) =
      subst (λ b. sound (then_keys files b (add_old_keys files rollover)) ≡ true) (sym is)
        (ap not known)
  sound_from none begun (inr (a, (b, is))) =
      subst (λ x. sound (then_keys files x (add_old_keys files none)) ≡ true) (sym is)
        (unfold add_old_keys in sound-live a b)
  sound_from (some r) begun (inr (a, (b, is))) =
      subst (λ x. sound (then_keys files x (add_old_keys files (some r))) ≡ true) (sym is)
        (sound_old_keys files r a b)

  -- What a load gives: keys of which every signing one is published, and which have one algorithm
  -- unless an algorithm rollover is in progress, or an error other than that of an unpublished
  -- signing key.
  unfoldable pub IsOutcome : ZoneState → Result KeysError SigningKeys → Type 0
  IsOutcome z (err e) = is_unpublished e ≡ false
  IsOutcome z (ok keys) = (all_published keys ≡ true) × (validate_algorithms z keys.dnskeys ≡ none)

  consistent : (keys : SigningKeys) → all_published keys ≡ true → validate_consistency keys ≡ none
  unfolding validate_consistency
  consistent keys h = ground (arith, h)

  algorithms_error :
      (z : ZoneState) (keys : List DnsKey) (e : KeysError)
      → validate_algorithms z keys ≡ some e
      → is_unpublished e ≡ false
  unfolding validate_algorithms
  algorithms_error z [] e h = ground (arith, h)
  algorithms_error z (k ∷ keys) e h = ground (arith, h)

  algorithms-IsOutcome :
      (z : ZoneState) (keys : SigningKeys) (refused : Option KeysError)
      → validate_algorithms z keys.dnskeys ≡ refused
      → all_published keys ≡ true
      → IsOutcome z (elim refused [ some e ↦ err e | none ↦ ok keys ])
  unfolding IsOutcome
  algorithms-IsOutcome z keys none e h = (h, e)
  algorithms-IsOutcome z keys (some error) e h = algorithms_error z keys.dnskeys error e

  checked-IsOutcome :
      (z : ZoneState) (result : Result KeysError SigningKeys)
      → sound result ≡ true
      → IsOutcome z (checked files z result)
  checked-IsOutcome z (err e) h = unfold IsOutcome in ground (arith, h)
  checked-IsOutcome z (ok keys) h =
      subst
        (λ c. IsOutcome z (elim c as (λ _. Result KeysError SigningKeys) [
          | some e ↦ err e
          | none ↦ elim (validate_algorithms z keys.dnskeys) [ some e ↦ err e | none ↦ ok keys ]
        ]))
        (sym (consistent keys h))
        (algorithms-IsOutcome z keys (validate_algorithms z keys.dnskeys) refl h)

  -- Whatever the recorded state and the key files are, loading the keys of a signing either gives
  -- keys of which every signing one is in the published set, and which use one algorithm unless an
  -- algorithm rollover is in progress, or fails with another error than that of an unpublished
  -- signing key: the final check of the set never fires.
  pub load_keys_for_signing-IsOutcome :
      (z : ZoneState) → IsOutcome z (load_keys_for_signing files z)
  unfolding load_keys_for_signing
  load_keys_for_signing-IsOutcome z =
      checked-IsOutcome z
        (then_keys files (then_keys files (expected_live_key_tags z) (live_keys files))
          (add_old_keys files z.rollover))
        (sound_from z.rollover (then_keys files (expected_live_key_tags z) (live_keys files))
          (begin_live (expected_live_key_tags z) (tags_error z)))
