-- ===== src/State/Validate.antt =====
-- What a persisted zone entry must satisfy (signer/internal/state/state.go): `validateZoneEntry`,
-- `validateKeyState` and `validateRolloverState`. The tests on texts that the standard library and
-- the DNS library make are parameters.
use sigillum_dnssec.Prelude.{
  ℕ, ◌-◌, ◌^◌, String, ◌≡◌, Bool, not, ◌&&◌, ◌||◌, Option, none, some, ltb, ◌==◌, str_eq,
  if◌then◌else◌,
}
use sigillum_dnssec.State.{
  is_zero, KeyState, RolloverState, ZoneState, RolloverType, ksk, zsk, algorithm, Phase,
  pre_publish, signing, ds_add_wait, ds_propagation_wait, retiring, algo_ds_add_wait,
  algo_ds_propagation_wait, algo_old_ds_removal_wait, algo_retiring,
}

-- The library's tests: `strings.TrimSpace(s) == ""`, `dns.IsDomainName` and
-- `strings.ContainsRune(s, 0)`.
pub record TextTests : Type 0 where
  pub is_blank : String → Bool
  pub is_domain_name : String → Bool
  pub has_nul : String → Bool

pub data Invalid : Type 0 where
  empty_name : Invalid
  not_a_domain : String → Invalid
  null_entry : String → Invalid
  path_has_nul : String → Invalid
  signed_without_path : String → Invalid
  key_without_algorithm : String → ℕ → Invalid
  ttl_out_of_range : ℕ → Invalid
  same_keys : ℕ → Invalid
  no_live_key : Invalid
  wrong_live_key : ℕ → ℕ → Invalid
  same_algorithm_keys : Invalid
  bad_algorithms : String → String → Invalid
  unsupported : RolloverType → Phase → Invalid

-- The largest TTL that DNS can express, 1<<31 - 1.
abbrev pub max_dns_ttl_seconds : ℕ
max_dns_ttl_seconds = 2 ^ 31 - 1

-- One live key against the one that the rollover expects.
live_key_is : Option KeyState → ℕ → Option Invalid
live_key_is none want = some no_live_key
live_key_is (some k) want = if k.id == want then none else some (wrong_live_key k.id want)

validate_pair : RolloverState → Option KeyState → ℕ → Option Invalid
unfolding live_key_is
validate_pair r key want =
    if r.old_key_id == r.new_key_id then some (same_keys r.old_key_id) else live_key_is key want

validate_live_pairs : RolloverState → Option KeyState → Option KeyState → Option Invalid
validate_live_pairs r none zsk_key = some no_live_key
validate_live_pairs r (some k) none = some no_live_key
validate_live_pairs r (some k) (some z) =
    if not (k.id == r.new_key_id) || not (z.id == r.new_zsk_id)
    then some (wrong_live_key k.id z.id)
    else none

validate_key_state : TextTests → String → Option KeyState → Option Invalid
validate_key_state t role none = none
validate_key_state t role (some k) =
    if t.is_blank k.alg then some (key_without_algorithm role k.id) else none

validate_algorithm : TextTests → ZoneState → RolloverState → Option Invalid
unfolding validate_live_pairs
validate_algorithm t z r =
    if r.old_key_id == r.new_key_id || r.old_zsk_id == r.new_zsk_id
    then some same_algorithm_keys
    else if t.is_blank r.old_algorithm
        || (t.is_blank r.new_algorithm || str_eq r.old_algorithm r.new_algorithm)
    then some (bad_algorithms r.old_algorithm r.new_algorithm)
    else validate_live_pairs r z.live_ksk z.live_zsk

-- The `switch` on the type and the phase; the last clause is `default`.
validate_phase : TextTests → RolloverType → Phase → ZoneState → RolloverState → Option Invalid
unfolding validate_pair validate_algorithm
validate_phase t ksk ds_add_wait z r = validate_pair r z.live_ksk r.new_key_id
validate_phase t ksk ds_propagation_wait z r = validate_pair r z.live_ksk r.new_key_id
validate_phase t ksk retiring z r = validate_pair r z.live_ksk r.new_key_id
validate_phase t zsk pre_publish z r = validate_pair r z.live_zsk r.old_key_id
validate_phase t zsk signing z r = validate_pair r z.live_zsk r.new_key_id
validate_phase t algorithm algo_ds_add_wait z r = validate_algorithm t z r
validate_phase t algorithm algo_ds_propagation_wait z r = validate_algorithm t z r
validate_phase t algorithm algo_old_ds_removal_wait z r = validate_algorithm t z r
validate_phase t algorithm algo_retiring z r = validate_algorithm t z r
validate_phase t kind phase z r = some (unsupported kind phase)

unfoldable pub validate_rollover_state : TextTests → ZoneState → RolloverState → Option Invalid
unfolding validate_phase
validate_rollover_state t z r =
    if ltb max_dns_ttl_seconds r.parent_ds_ttl
    then some (ttl_out_of_range r.parent_ds_ttl)
    else validate_phase t r.kind r.state z r

-- `if err := first; err != nil { return err }`
abbrev or_else : Option Invalid → Option Invalid → Option Invalid
or_else (some e) rest = some e
or_else none rest = rest

unfoldable pub validate_rollover : TextTests → ZoneState → Option RolloverState → Option Invalid
unfolding validate_rollover_state
validate_rollover t z none = none
validate_rollover t z (some r) = validate_rollover_state t z r

validate_zone : TextTests → String → ZoneState → Option Invalid
unfolding validate_key_state validate_rollover
validate_zone t name z =
    if t.has_nul z.path
    then some (path_has_nul name)
    else if not (is_zero z.last_signed) && t.is_blank z.path
    then some (signed_without_path name)
    else or_else (validate_key_state t "ksk" z.live_ksk)
        (or_else (validate_key_state t "zsk" z.live_zsk) (validate_rollover t z z.rollover))

validate_entry : TextTests → String → Option ZoneState → Option Invalid
unfolding validate_zone
validate_entry t name none = some (null_entry name)
validate_entry t name (some z) = validate_zone t name z

unfoldable pub validate_zone_entry : TextTests → String → Option ZoneState → Option Invalid
unfolding validate_entry
validate_zone_entry t name z =
    if t.is_blank name
    then some empty_name
    else if not (t.is_domain_name name)
    then some (not_a_domain name)
    else validate_entry t name z

-- The rollover record of a zone is one that the signer has an interpretation for.
abbrev pub HasValidRollover : TextTests → ZoneState → Type 0
HasValidRollover t z = validate_rollover t z z.rollover ≡ none
