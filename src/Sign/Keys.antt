-- ===== src/Sign/Keys.antt =====
-- The keys that a signing uses (signer/internal/signer/sign.go `loadKeysForSigning`): which live and
-- old keys are published and which of them sign, by the phase of the rollover. A key is its tag and
-- its algorithm; the key files (signer/internal/signer/keys.go) are the fields of `KeyFiles`, and the
-- private halves, which are read together with the public ones, are left out.
pub mod Laws
use sigillum_dnssec.Prelude.{
  ℕ, String, Bool, true, false, ◌&&◌, ◌||◌, not, Option, none, some, List, [], ◌∷◌, ◌++◌, map,
  Result, ok, err, ◌==◌, if◌then◌else◌,
}
use sigillum_dnssec.Sets.{number_order, has}
use sigillum_dnssec.State.{
  ZoneState, KeyState, RolloverState, Phase, RolloverType, ksk, zsk, algorithm, other, ds_add_wait,
  ds_propagation_wait, pre_publish, signing, algo_retiring,
}
use sigillum_dnssec.Rollover.{Role, ksk_role, zsk_role}

pub record DnsKey : Type 0 where
  pub key_tag : ℕ
  pub algorithm_number : ℕ

pub record SigningKeys : Type 0 where
  pub dnskeys : List DnsKey
  pub signing_ksks : List DnsKey
  pub signing_zsks : List DnsKey

-- `EnsureLiveKey`, `LoadKeyPairByID` and `LoadPublicKeyByID` for one zone; `none` is an error.
pub record KeyFiles : Type 0 where
  pub ensure_live_key : Role → ℕ → Option DnsKey
  pub load_key_pair : Role → ℕ → Option DnsKey
  pub load_public_key : Role → ℕ → Option DnsKey

pub data KeysError : Type 0 where
  no_keys_recorded : KeysError
  key_not_loaded : Role → ℕ → KeysError
  signer_not_published : ℕ → KeysError
  mixed_algorithms : KeysError

unfoldable pub expected_live_key_tags : ZoneState → Result KeysError (ℕ × ℕ)
expected_live_key_tags z = live_tags z.live_ksk z.live_zsk z.rollover
  where
    live_tags : Option KeyState → Option KeyState → Option RolloverState → Result KeysError (ℕ × ℕ)
    live_tags none live_zsk rollover = err no_keys_recorded
    live_tags (some k) none rollover = err no_keys_recorded
    live_tags (some k) (some l) none = ok (k.id, l.id)
    live_tags (some k) (some l) (some r) = elim r.kind [
      | zsk ↦ elim r.state [ pre_publish ↦ ok (k.id, r.new_key_id) | _ ↦ ok (k.id, l.id) ]
      | _ ↦ ok (k.id, l.id)
    ]

unfoldable pub find_unpublished : List ℕ → List DnsKey → Option ℕ
find_unpublished published [] = none
find_unpublished published (k ∷ keys) =
    let rest = find_unpublished published keys in
    if has k.key_tag published then rest else some k.key_tag

unfoldable pub validate_consistency : SigningKeys → Option KeysError
unfolding find_unpublished
validate_consistency keys =
    let published = map (λ k. k.key_tag) keys.dnskeys in
    elim (find_unpublished published (keys.signing_ksks ++ keys.signing_zsks)) [
      | none ↦ none
      | some tag ↦ some (signer_not_published tag)
    ]

unfoldable pub all_use : ℕ → List DnsKey → Bool
all_use alg [] = true
all_use alg (k ∷ keys) =
    let rest = all_use alg keys in if k.algorithm_number == alg then rest else false

unfoldable pub is_algorithm_rollover : Option RolloverState → Bool
is_algorithm_rollover none = false
is_algorithm_rollover (some r) = elim r.kind [ algorithm ↦ true | _ ↦ false ]

unfoldable pub validate_algorithms : ZoneState → List DnsKey → Option KeysError
unfolding all_use is_algorithm_rollover
validate_algorithms z [] = none
validate_algorithms z (k ∷ keys) =
    let same_algorithm = all_use k.algorithm_number keys in
    if is_algorithm_rollover z.rollover
    then none
    else if same_algorithm
    then none
    else some mixed_algorithms

abbrev pub loaded :
    Role
    → ℕ
    → Option DnsKey
    → (DnsKey → Result KeysError SigningKeys)
    → Result KeysError SigningKeys
loaded role tag none next = err (key_not_loaded role tag)
loaded role tag (some key) next = next key

module _ (files : KeyFiles) where
  -- The old keys that a rollover keeps in the zone, added to the live ones.
  unfoldable pub add_old_ksk : RolloverState → SigningKeys → Result KeysError SigningKeys
  add_old_ksk r keys =
      loaded ksk_role r.old_key_id (files.load_key_pair ksk_role r.old_key_id) (λ old.
        ok (record keys {
          dnskeys = keys.dnskeys ++ old ∷ [];
          signing_ksks = keys.signing_ksks ++ old ∷ [];
        }))

  unfoldable pub sign_with_old_zsk : RolloverState → SigningKeys → Result KeysError SigningKeys
  sign_with_old_zsk r keys =
      loaded zsk_role r.old_key_id (files.load_key_pair zsk_role r.old_key_id)
        (λ old. ok (record keys { dnskeys = keys.dnskeys ++ old ∷ []; signing_zsks = old ∷ [] }))

  unfoldable pub publish_old_zsk : RolloverState → SigningKeys → Result KeysError SigningKeys
  publish_old_zsk r keys =
      loaded zsk_role r.old_key_id (files.load_public_key zsk_role r.old_key_id)
        (λ old. ok (record keys { dnskeys = keys.dnskeys ++ old ∷ [] }))

  unfoldable pub add_old_algorithm : RolloverState → SigningKeys → Result KeysError SigningKeys
  add_old_algorithm r keys =
      loaded ksk_role r.old_key_id (files.load_key_pair ksk_role r.old_key_id) (λ old.
        loaded zsk_role r.old_zsk_id (files.load_key_pair zsk_role r.old_zsk_id) (λ old_zsk.
          ok (record {
            dnskeys = (keys.dnskeys ++ old ∷ []) ++ old_zsk ∷ [];
            signing_ksks = keys.signing_ksks ++ old ∷ [];
            signing_zsks = keys.signing_zsks ++ old_zsk ∷ [];
          })))

  unfoldable pub add_old_keys : Option RolloverState → SigningKeys → Result KeysError SigningKeys
  unfolding add_old_ksk sign_with_old_zsk publish_old_zsk add_old_algorithm
  add_old_keys none keys = ok keys
  add_old_keys (some r) keys = elim r.kind [
    | ksk ↦ elim r.state [
      | ds_add_wait ↦ add_old_ksk r keys
      | ds_propagation_wait ↦ add_old_ksk r keys
      | _ ↦ ok keys
    ]
    | zsk ↦ elim r.state [
      | pre_publish ↦ sign_with_old_zsk r keys
      | signing ↦ publish_old_zsk r keys
      | _ ↦ ok keys
    ]
    | algorithm ↦ elim r.state [ algo_retiring ↦ ok keys | _ ↦ add_old_algorithm r keys ]
    | other text ↦ ok keys
  ]

  abbrev pub checked : ZoneState → Result KeysError SigningKeys → Result KeysError SigningKeys
  checked z (err e) = err e
  checked z (ok keys) = elim (validate_consistency keys) [
    | some e ↦ err e
    | none ↦ elim (validate_algorithms z keys.dnskeys) [ some e ↦ err e | none ↦ ok keys ]
  ]

  -- The live keys, with the tags that the state names.
  unfoldable pub live_keys : ℕ × ℕ → Result KeysError SigningKeys
  live_keys (ksk_tag, zsk_tag) =
      loaded ksk_role ksk_tag (files.ensure_live_key ksk_role ksk_tag) (λ live_ksk.
        loaded zsk_role zsk_tag (files.ensure_live_key zsk_role zsk_tag) (λ live_zsk. ok (record {
          dnskeys = live_ksk ∷ live_zsk ∷ [];
          signing_ksks = live_ksk ∷ [];
          signing_zsks = live_zsk ∷ [];
        })))

  abbrev pub then_keys {ℓ} :
      {A : Type ℓ}
      → Result KeysError A
      → (A → Result KeysError SigningKeys)
      → Result KeysError SigningKeys
  then_keys (ok a) next = next a
  then_keys (err e) next = err e

  unfoldable pub load_keys_for_signing : ZoneState → Result KeysError SigningKeys
  unfolding expected_live_key_tags live_keys add_old_keys validate_consistency validate_algorithms
  load_keys_for_signing z =
      checked z
        (then_keys (then_keys (expected_live_key_tags z) live_keys) (add_old_keys z.rollover))
