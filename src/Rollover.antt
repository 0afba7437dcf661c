-- ===== src/Rollover.antt =====
-- The rollover manager (signer/internal/signer/rollover.go), seen through the one zone that an
-- operation is about: what it reads of its environment, the state that it changes, and the calls
-- that all operations share. The operations are in the modules below.
--
-- `World` is the zone's entry of the state: the record in memory, the same zone in the document
-- last read or written, and the trace of what was done outside memory, latest first. An operation
-- returns its error, or a value, with the world that it leaves.
pub mod Keeps
pub mod Saves
pub mod Propagation
pub mod Ksk
pub mod Zsk
pub mod Algorithm
pub mod Validity
pub mod Recorded
use sigillum_dnssec.Prelude.{
  ℕ, suc, ◌+◌, String, Bool, true, false, Option, none, some, List, [], ◌∷◌, ◌==◌, Result, ok, err,
  if◌then◌else◌,
}
use sigillum_dnssec.State.{Time, Duration, KeyState, RolloverState, ZoneState, Phase, RolloverType}
use sigillum_dnssec.State.Store.{advance_revision, Written, written, uncertain, not_written}

pub data Role : Type 0 where
  ksk_role zsk_role : Role

-- The operations that a `DSPublisher` is asked for.
pub data PublishOp : Type 0 where
  old_ds_removal new_ds_add : PublishOp

pub record Observation : Type 0 where
  pub absent_on_all : ℕ → Bool
  pub ttl : ℕ

-- What one run of an operation meets: the clock (an operation reads it at its start, and again
-- where it asks the registrar or makes the record of a ZSK rollover), the configuration, how each
-- save of the run goes, and what the key files, the registrar automation and the parent's servers
-- answer.
pub record Env : Type 0 where
  pub domain : String
  pub now : Time
  pub later : Time
  pub dnskey_ttl : ℕ
  pub rollover_prepublish : Duration
  pub rollover_switch : Duration
  pub zsk_lifetime : Duration
  pub parent_ds_ttl_fallback : ℕ
  pub save_outcome : ℕ → Written
  pub ensure_verified_backup : Role → Result String ℕ
  pub stage : Role → String → Result String KeyState
  pub activate_key_pair : Role → ℕ → Option String
  pub ensure_live_key : ℕ → Result String (ℕ × String)
  pub load_public_key : ℕ → Option String
  pub publisher : Option (PublishOp → Result String Bool)
  pub probe : Option (Result String Observation)
  pub days_until : Time → Time → String

pub data Error : Type 0 where
  zone_not_found already_in_progress no_rollover_in_progress no_existing_key no_usable_keys : Error
  wrong_type : RolloverType → Error
  wrong_phase : Phase → Error
  same_algorithm : String → Error
  unrecorded_key : Role → ℕ → ℕ → Error
  key_files : String → Error
  save_failed save_uncertain : Error

-- What happened outside memory: `wrote` is a committed save of this record.
pub data Effect : Type 0 where
  backed_up : Role → ℕ → Effect
  staged : Role → ℕ → Effect
  wrote : ZoneState → Effect
  activated : Role → ℕ → Effect
  published : PublishOp → Effect

pub record World : Type 0 where
  pub zone : ZoneState
  pub base : Option ZoneState
  pub saves : ℕ
  pub effects : List Effect

abbrev pub Exec : Type 0 → Type 0
Exec A = World → Result Error A × World

abbrev pub continue : {A B : Type 0} → Result Error A → (A → Exec B) → Exec B
continue (ok a) f w = f a w
continue (err e) f w = (err e, w)

infixl 5 ◌>>=◌ ◌>>◌
abbrev pub ◌>>=◌ : {A B : Type 0} → Exec A → (A → Exec B) → Exec B
◌>>=◌ m f w = let (r, w') = m w in continue r f w'

abbrev pub ◌>>◌ : {B : Type 0} → Exec (Unit {0}) → Exec B → Exec B
m >> k = m >>= λ _. k

abbrev pub pure : {A : Type 0} → A → Exec A
pure a w = (ok a, w)

abbrev pub raise : {A : Type 0} → Error → Exec A
raise e w = (err e, w)

abbrev pub done : Exec (Unit {0})
done = pure tt

-- rm.state.Mutate
abbrev pub mutate : (ZoneState → ZoneState) → Exec (Unit {0})
mutate f w = (ok tt, record w { zone = f w.zone })

abbrev pub with_rollover : (RolloverState → RolloverState) → ZoneState → ZoneState
with_rollover f z = record z { rollover = elim z.rollover [ none ↦ none | some r ↦ some (f r) ] }

abbrev pub note : Effect → Exec (Unit {0})
note e w = (ok tt, record w { effects = e ∷ w.effects })

commit_save : Written → World → Result Error (Unit {0}) × World
commit_save written w = (ok tt, record w { base = some w.zone; effects = wrote w.zone ∷ w.effects })
commit_save uncertain w =
    (err save_uncertain, record w { base = some w.zone; effects = wrote w.zone ∷ w.effects })
commit_save not_written w = (err save_failed, w)

-- rm.state.Save, for this zone.
unfoldable pub save : Env → Exec (Unit {0})
unfolding commit_save
save env w =
    commit_save (env.save_outcome w.saves)
      (record w { zone = advance_revision w.base w.zone; saves = w.saves + 1 })

-- BackupKey: the verified backup, and the check that the live key is the recorded one.
unfoldable pub backup_key : Env → Role → ℕ → Exec (Unit {0})
backup_key env role key_id w = elim (env.ensure_verified_backup role) [
  | ok live ↦
      if live == key_id
      then (ok tt, record w { effects = backed_up role live ∷ w.effects })
      else (err (unrecorded_key role live key_id), w)
  | err e ↦ (err (key_files e), w)
]

-- StageKSK and StageZSK
unfoldable pub stage_key : Env → Role → String → Exec KeyState
stage_key env role alg w = elim (env.stage role alg) [
  | ok key ↦ (ok key, record w { effects = staged role key.id ∷ w.effects })
  | err e ↦ (err (key_files e), w)
]

-- activateRecorded
unfoldable pub activate_recorded : Env → Role → ℕ → Exec (Unit {0})
activate_recorded env role tag w = elim (env.activate_key_pair role tag) [
  | none ↦ (ok tt, record w { effects = activated role tag ∷ w.effects })
  | some e ↦ (err (key_files e), w)
]

-- The save of a rollover that starts: an uncommitted one undoes the record, a committed one whose
-- durability is uncertain goes on.
unfoldable pub save_start : Env → (ZoneState → ZoneState) → Exec (Unit {0})
save_start env undo w = elim (env.save_outcome w.saves) [
  | not_written ↦ let w' = (save env w).1 in (err save_failed, record w' { zone = undo w'.zone })
  | other ↦ (ok tt, (save env w).1)
]

-- An operation on a zone that may not be in the state (`rm.state.GetZone(domain) == nil`).
abbrev pub on_zone : Error → Exec (Unit {0}) → Option World → Result Error (Unit {0}) × Option World
on_zone missing op none = (err missing, none)
on_zone missing op (some w) = let (r, w') = op w in (r, some w')

abbrev pub on_zone_if_any : Exec (Unit {0}) → Option World → Result Error (Unit {0}) × Option World
on_zone_if_any op none = (ok tt, none)
on_zone_if_any op (some w) = let (r, w') = op w in (r, some w')
