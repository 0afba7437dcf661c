-- ===== src/Rollover/Saves.antt =====
-- What a save and the other calls that the rollover operations share
-- (signer/internal/signer/rollover.go) change of the world.
use sigillum_dnssec.Prelude.{◌+◌, ◌≡◌, Option, arith}
use sigillum_dnssec.State.{ZoneState}
use sigillum_dnssec.State.Store.{advance_revision, Written, written, uncertain, not_written}
use sigillum_dnssec.State.Store.Laws.{advance_revision_lem}
use sigillum_dnssec.Rollover.{Env, World, save, commit_save}

-- Two records that differ at most in the revision.
pub record Same (a b : ZoneState) : Type 0 where
  pub same : record a { revision = b.revision } ≡ b

pub save-Same : (env : Env) (w : World) → Same (save env w).1.zone w.zone
unfolding save
save-Same env w = record { same = go (env.save_outcome w.saves) }
  where
    go :
        (o : Written)
        → record (commit_save o
            (record w { zone = advance_revision w.base w.zone; saves = w.saves + 1 })).1.zone {
              revision = w.zone.revision;
            }
          ≡ w.zone
    go written = advance_revision_lem w.base w.zone
    go uncertain = advance_revision_lem w.base w.zone
    go not_written = advance_revision_lem w.base w.zone

abbrev pub SameButRevision : ZoneState → ZoneState → Type 0
SameButRevision a b =
    (a.rollover ≡ b.rollover)
    × (a.live_ksk ≡ b.live_ksk)
    × (a.live_zsk ≡ b.live_zsk)
    × (a.force_resign ≡ b.force_resign)
    × (a.published_generation_signed_at ≡ b.published_generation_signed_at)
    × (a.published_at ≡ b.published_at)
    × (a.dnskey_cache_horizon ≡ b.dnskey_cache_horizon)
    × (a.rrsig_cache_horizon ≡ b.rrsig_cache_horizon)
    × (a.published_dnskey_ttl ≡ b.published_dnskey_ttl)
    × (a.published_max_rrsig_ttl ≡ b.published_max_rrsig_ttl)
    × (a.warnings ≡ b.warnings)
    × (a.errors ≡ b.errors)

Same→SameButRevision : (a b : ZoneState) → Same a b → SameButRevision a b
Same→SameButRevision a b h = ground (arith, h.same)

pub save_fields : (env : Env) (w : World) → SameButRevision (save env w).1.zone w.zone
save_fields env w = Same→SameButRevision _ _ (save-Same env w)

pub advance_revision_fields :
    (b : Option ZoneState) (z : ZoneState)
    → ((advance_revision b z).rollover ≡ z.rollover)
      × ((advance_revision b z).live_ksk ≡ z.live_ksk)
      × ((advance_revision b z).live_zsk ≡ z.live_zsk)
unfolding advance_revision
advance_revision_fields b z = grind arith
