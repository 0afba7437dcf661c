-- ===== src/State.antt =====
-- The data of signer/internal/state/state.go: the persisted record of a zone, of a key and of a
-- rollover. A `time.Time` is the number of nanoseconds since Go's zero time, so `IsZero` is `== 0`;
-- an integer of w bits is a number below 2 ^ w; a `nil` pointer is `none`.
pub mod Equality
pub mod Publication
pub mod Diagnostics
pub mod Merge
pub mod Validate
pub mod Store
use sigillum_dnssec.Prelude.{ℕ, ◌*◌, String, Bool, Option, List, ◌==◌, String-discrete}
use native.Mathlib.Decide.{ℕ_discrete}

abbrev pub Time : Type 0
Time = ℕ

abbrev pub Duration : Type 0
Duration = ℕ

abbrev pub is_zero : Time → Bool
is_zero t = t == 0

-- time.Duration(n) * time.Second
unfoldable pub seconds : ℕ → Duration
seconds n = n * 1000000000

-- The texts of `Type`; `other` is any text that the code has no name for.
pub data RolloverType : Type 0 where
  ksk zsk algorithm : RolloverType
  other : String → RolloverType

-- The texts of `State`, one constructor for each constant of the file.
pub data Phase : Type 0 where
  active pre_publish signing retired : Phase
  ds_add_wait ds_propagation_wait retiring complete : Phase
  algo_ds_add_wait algo_ds_propagation_wait algo_old_ds_removal_wait algo_retiring : Phase
  other_phase : String → Phase

-- Why the parent's DS set may not change yet (`newKeysPropagated`).
pub data Reason : Type 0 where
  no_rollover : Reason
  not_served_yet : Reason
  cached_until : Time → Reason

-- `Action`, the text for the operator: one constructor for each text that the rollover manager
-- composes, with the values that it is composed from. The advice in such a text is the reason
-- against removing the old DS, if there is one.
pub data Action : Type 0 where
  publish_new_ds : String → Action
  ksk_published_until : Time → Option Reason → Action
  ksk_removed : Option Reason → Action
  zsk_pre_published : Duration → Action
  zsk_signing : Action
  algorithm_wait : String → String → Action
  algorithm_published_until : Time → String → Action
  algorithm_not_yet : Reason → String → String → Action
  algorithm_added : String → String → Action
  algorithm_manual : String → String → Action
  algorithm_add_failed : String → String → Action
  remove_old_ds : String → ℕ → Option Reason → Action
  asked_new_only_algorithm : String → Action
  asked_new_only : Action
  old_ds_gone : Time → Action
  algorithm_removed : Action

pub record KeyState : Type 0 where
  pub id : ℕ
  pub alg : String
  pub created : Time
  pub expires : Time
  pub ds_published : Bool
  pub rollover_due : Time

pub record RolloverState : Type 0 where
  pub kind : RolloverType
  pub state : Phase
  pub old_key_id : ℕ
  pub new_key_id : ℕ
  pub old_zsk_id : ℕ
  pub new_zsk_id : ℕ
  pub old_algorithm : String
  pub new_algorithm : String
  pub started : Time
  pub phase_started : Time
  pub phase_first_signed : Time
  pub phase_horizon : Time
  pub ds_observed_at : Time
  pub parent_ds_ttl : ℕ
  pub old_ds_removed_at : Time
  pub ds_removal_pushed_at : Time
  pub ds_add_pushed_at : Time
  pub action : Action

pub record ZoneState : Type 0 where
  pub revision : ℕ
  pub path : String
  pub serial : ℕ
  pub published_serial : ℕ
  pub last_signed : Time
  pub source_mod_time : Time
  pub source_size : ℕ
  pub source_digest : String
  pub signatures_exp : Time
  pub published_dnskey_ttl : ℕ
  pub published_max_rrsig_ttl : ℕ
  pub pending_publication : Bool
  pub published_at : Time
  pub published_generation_signed_at : Time
  pub served_dnskey_ttl : ℕ
  pub served_max_rrsig_ttl : ℕ
  pub dnskey_cache_horizon : Time
  pub rrsig_cache_horizon : Time
  pub live_ksk : Option KeyState
  pub live_zsk : Option KeyState
  pub rollover : Option RolloverState
  pub warnings : List String
  pub errors : List String
  pub force_resign : Bool

unfoldable pub Action-discrete : Discrete Action
Action-discrete = hlevel (ℕ_discrete, String-discrete)

unfoldable pub RolloverType-discrete : Discrete RolloverType
RolloverType-discrete = hlevel String-discrete

unfoldable pub Phase-discrete : Discrete Phase
Phase-discrete = hlevel String-discrete
