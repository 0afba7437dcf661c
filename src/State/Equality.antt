-- ===== src/State/Equality.antt =====
-- The field classes of a zone record (signer/internal/state/state.go): what each class compares,
-- and the comparison of whole records, which leaves the revision out.
use mathlib.Core.Path.{subst}
use mathlib.Core.Option.{some-injective}
use sigillum_dnssec.Prelude.{
  String, ◌≡◌, ◌↔◌, refl, ap, Bool, true, false, ◌&&◌, Option, none, some, List, [], ◌∷◌, arith,
  ◌==◌, str_eq, eq_iff, bool_eq, is_yes, is_yes_iff,
}
use sigillum_dnssec.State.{
  KeyState, RolloverState, ZoneState, Action-discrete, RolloverType-discrete, Phase-discrete,
}

unfoldable pub strings_equal : List String → List String → Bool
strings_equal [] [] = true
strings_equal [] (y ∷ ys) = false
strings_equal (x ∷ xs) [] = false
strings_equal (x ∷ xs) (y ∷ ys) = str_eq x y && strings_equal xs ys

unfoldable pub key_equal : KeyState → KeyState → Bool
key_equal a b =
    a.id == b.id
    && str_eq a.alg b.alg
    && a.created == b.created
    && a.expires == b.expires
    && bool_eq a.ds_published b.ds_published
    && a.rollover_due == b.rollover_due

-- The comparison of two pointers: two nils are equal, a nil and a record are not.
pointers_equal {ℓ} : {A : Type ℓ} → (A → A → Bool) → Option A → Option A → Bool
pointers_equal eq none none = true
pointers_equal eq none (some b) = false
pointers_equal eq (some a) none = false
pointers_equal eq (some a) (some b) = eq a b

unfoldable pub key_state_equal : Option KeyState → Option KeyState → Bool
unfolding pointers_equal key_equal
key_state_equal = pointers_equal key_equal

rollover_equal : RolloverState → RolloverState → Bool
unfolding RolloverType-discrete Phase-discrete Action-discrete
rollover_equal a b =
    is_yes (RolloverType-discrete a.kind b.kind)
    && is_yes (Phase-discrete a.state b.state)
    && a.old_key_id == b.old_key_id
    && a.new_key_id == b.new_key_id
    && a.old_zsk_id == b.old_zsk_id
    && a.new_zsk_id == b.new_zsk_id
    && str_eq a.old_algorithm b.old_algorithm
    && str_eq a.new_algorithm b.new_algorithm
    && a.started == b.started
    && a.phase_started == b.phase_started
    && a.phase_first_signed == b.phase_first_signed
    && a.phase_horizon == b.phase_horizon
    && a.ds_observed_at == b.ds_observed_at
    && a.parent_ds_ttl == b.parent_ds_ttl
    && a.old_ds_removed_at == b.old_ds_removed_at
    && a.ds_removal_pushed_at == b.ds_removal_pushed_at
    && a.ds_add_pushed_at == b.ds_add_pushed_at
    && is_yes (Action-discrete a.action b.action)

unfoldable pub rollover_state_equal : Option RolloverState → Option RolloverState → Bool
unfolding pointers_equal rollover_equal
rollover_state_equal = pointers_equal rollover_equal

unfoldable pub signing_equal : ZoneState → ZoneState → Bool
signing_equal a b =
    str_eq a.path b.path
    && a.serial == b.serial
    && a.published_serial == b.published_serial
    && a.last_signed == b.last_signed
    && a.source_mod_time == b.source_mod_time
    && a.source_size == b.source_size
    && str_eq a.source_digest b.source_digest
    && a.signatures_exp == b.signatures_exp
    && a.published_dnskey_ttl == b.published_dnskey_ttl
    && a.published_max_rrsig_ttl == b.published_max_rrsig_ttl

unfoldable pub keys_rollover_equal : ZoneState → ZoneState → Bool
keys_rollover_equal a b =
    key_state_equal a.live_ksk b.live_ksk
    && key_state_equal a.live_zsk b.live_zsk
    && rollover_state_equal a.rollover b.rollover

unfoldable pub publication_equal : ZoneState → ZoneState → Bool
publication_equal a b =
    bool_eq a.pending_publication b.pending_publication
    && a.published_at == b.published_at
    && a.published_generation_signed_at == b.published_generation_signed_at
    && a.served_dnskey_ttl == b.served_dnskey_ttl
    && a.served_max_rrsig_ttl == b.served_max_rrsig_ttl
    && a.dnskey_cache_horizon == b.dnskey_cache_horizon
    && a.rrsig_cache_horizon == b.rrsig_cache_horizon

unfoldable pub diagnostics_equal : ZoneState → ZoneState → Bool
diagnostics_equal a b = strings_equal a.warnings b.warnings && strings_equal a.errors b.errors

unfoldable pub zone_content_equal : ZoneState → ZoneState → Bool
zone_content_equal a b =
    signing_equal a b
    && keys_rollover_equal a b
    && publication_equal a b
    && diagnostics_equal a b
    && bool_eq a.force_resign b.force_resign

pub strings_equal_sound : (xs ys : List String) → strings_equal xs ys ≡ true → xs ≡ ys
unfolding strings_equal
strings_equal_sound [] [] h = refl
strings_equal_sound [] (y ∷ ys) h = cc
strings_equal_sound (x ∷ xs) [] h = cc
strings_equal_sound (x ∷ xs) (y ∷ ys) h = ground (arith, eq_iff x y, strings_equal_sound xs ys)

pub strings_equal_refl : (xs : List String) → strings_equal xs xs ≡ true
unfolding strings_equal
strings_equal_refl [] = refl
strings_equal_refl (x ∷ xs) = ground (arith, eq_iff x x, strings_equal_refl xs)

pub strings_equal_iff : (xs ys : List String) → (strings_equal xs ys ≡ true) ↔ (xs ≡ ys)
strings_equal_iff xs ys = (
  strings_equal_sound xs ys,
  λ e. subst (λ l. strings_equal xs l ≡ true) e (strings_equal_refl xs),
)

key_equal_iff : (a b : KeyState) → (key_equal a b ≡ true) ↔ (a ≡ b)
unfolding key_equal
key_equal_iff a b = ground (arith, eq_iff a.alg b.alg)

rollover_equal_iff : (a b : RolloverState) → (rollover_equal a b ≡ true) ↔ (a ≡ b)
unfolding rollover_equal
rollover_equal_iff a b = ground (
  arith,
  is_yes_iff (RolloverType-discrete a.kind b.kind),
  is_yes_iff (Phase-discrete a.state b.state),
  eq_iff a.old_algorithm b.old_algorithm,
  eq_iff a.new_algorithm b.new_algorithm,
  is_yes_iff (Action-discrete a.action b.action),
)

pointers_equal_iff {ℓ} :
    {A : Type ℓ} (eq : A → A → Bool)
    → ((a b : A) → (eq a b ≡ true) ↔ (a ≡ b))
    → (x y : Option A) → (pointers_equal eq x y ≡ true) ↔ (x ≡ y)
unfolding pointers_equal
pointers_equal_iff eq h none none = (λ _. refl, λ _. refl)
pointers_equal_iff eq h none (some b) = (λ e. cc, λ e. cc)
pointers_equal_iff eq h (some a) none = (λ e. cc, λ e. cc)
pointers_equal_iff eq h (some a) (some b) =
    (λ e. ap some ((h a b).0 e), λ e. (h a b).1 (some-injective _ _ e))

pub key_state_equal_iff : (x y : Option KeyState) → (key_state_equal x y ≡ true) ↔ (x ≡ y)
unfolding key_state_equal
key_state_equal_iff = pointers_equal_iff key_equal key_equal_iff

pub rollover_state_equal_iff :
    (x y : Option RolloverState) → (rollover_state_equal x y ≡ true) ↔ (x ≡ y)
unfolding rollover_state_equal
rollover_state_equal_iff = pointers_equal_iff rollover_equal rollover_equal_iff

-- The fields of each class, as equations.
abbrev pub SameSigning : ZoneState → ZoneState → Type 0
SameSigning a b =
    (a.path ≡ b.path)
    × (a.serial ≡ b.serial)
    × (a.published_serial ≡ b.published_serial)
    × (a.last_signed ≡ b.last_signed)
    × (a.source_mod_time ≡ b.source_mod_time)
    × (a.source_size ≡ b.source_size)
    × (a.source_digest ≡ b.source_digest)
    × (a.signatures_exp ≡ b.signatures_exp)
    × (a.published_dnskey_ttl ≡ b.published_dnskey_ttl)
    × (a.published_max_rrsig_ttl ≡ b.published_max_rrsig_ttl)

abbrev pub SamePublication : ZoneState → ZoneState → Type 0
SamePublication a b =
    (a.pending_publication ≡ b.pending_publication)
    × (a.published_at ≡ b.published_at)
    × (a.published_generation_signed_at ≡ b.published_generation_signed_at)
    × (a.served_dnskey_ttl ≡ b.served_dnskey_ttl)
    × (a.served_max_rrsig_ttl ≡ b.served_max_rrsig_ttl)
    × (a.dnskey_cache_horizon ≡ b.dnskey_cache_horizon)
    × (a.rrsig_cache_horizon ≡ b.rrsig_cache_horizon)

abbrev pub SameKeysRollover : ZoneState → ZoneState → Type 0
SameKeysRollover a b =
    (a.live_ksk ≡ b.live_ksk) × (a.live_zsk ≡ b.live_zsk) × (a.rollover ≡ b.rollover)

pub signing_equal_iff : (a b : ZoneState) → (signing_equal a b ≡ true) ↔ SameSigning a b
unfolding signing_equal
signing_equal_iff a b = ground (arith, eq_iff a.path b.path, eq_iff a.source_digest b.source_digest)

pub publication_equal_iff : (a b : ZoneState) → (publication_equal a b ≡ true) ↔ SamePublication a b
unfolding publication_equal
publication_equal_iff a b = ground arith

pub keys_rollover_equal_iff :
    (a b : ZoneState) → (keys_rollover_equal a b ≡ true) ↔ SameKeysRollover a b
unfolding keys_rollover_equal
keys_rollover_equal_iff a b = ground (
  arith,
  key_state_equal_iff a.live_ksk b.live_ksk,
  key_state_equal_iff a.live_zsk b.live_zsk,
  rollover_state_equal_iff a.rollover b.rollover,
)

pub diagnostics_equal_iff :
    (a b : ZoneState)
    → (diagnostics_equal a b ≡ true) ↔ ((a.warnings ≡ b.warnings) × (a.errors ≡ b.errors))
unfolding diagnostics_equal
diagnostics_equal_iff a b =
    ground (arith, strings_equal_iff a.warnings b.warnings, strings_equal_iff a.errors b.errors)

-- What an equal content says, class by class.
pub zone_content_equal_classes :
    (a b : ZoneState)
    → zone_content_equal a b ≡ true
    → SameSigning a b × SameKeysRollover a b × SamePublication a b
unfolding zone_content_equal
zone_content_equal_classes a b h =
    ground (arith, signing_equal_iff a b, keys_rollover_equal_iff a b, publication_equal_iff a b)

-- Two records compare equal exactly when they differ at most in the revision: no field falls
-- outside the comparison.
pub zone_content_equal_iff :
    (a b : ZoneState) → (zone_content_equal a b ≡ true) ↔ (record a { revision = b.revision } ≡ b)
unfolding zone_content_equal
zone_content_equal_iff a b = ground (
  arith,
  signing_equal_iff a b,
  keys_rollover_equal_iff a b,
  publication_equal_iff a b,
  diagnostics_equal_iff a b,
)

pub zone_content_equal_refl : (a : ZoneState) → zone_content_equal a a ≡ true
zone_content_equal_refl a = (zone_content_equal_iff a a).1 refl
