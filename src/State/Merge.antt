-- ===== src/State/Merge.antt =====
-- The three-way merge of a zone record (signer/internal/state/state.go): `mergeZone`, its field
-- classes and `mergeDiagnostics`. `Clone` copies what a pointer names, and records are values here,
-- so a clone is the record itself.
pub mod Diagnostics
pub mod Fields
pub mod Laws
use sigillum_dnssec.Prelude.{
  ℕ, String, Bool, true, false, not, ◌&&◌, ◌||◌, Option, List, ltb, ◌==◌, bool_eq, if◌then◌else◌,
}
use sigillum_dnssec.State.{Time, ZoneState}
use sigillum_dnssec.State.Equality.{
  signing_equal, keys_rollover_equal, publication_equal, diagnostics_equal, zone_content_equal,
}
use sigillum_dnssec.State.Merge.Diagnostics.{merge_diagnostics}
use sigillum_dnssec.State.Merge.Fields.{
  copy_signing, copy_keys_rollover, copy_publication, merge_publication, recompute_pending,
}

-- What each side changed since the base image.
pub record Changes : Type 0 where
  pub disk_sign : Bool
  pub mem_sign : Bool
  pub disk_keys : Bool
  pub mem_keys : Bool
  pub disk_pub : Bool
  pub mem_pub : Bool
  pub disk_diag : Bool
  pub disk_force : Bool
  pub mem_force : Bool

unfoldable pub changes : ZoneState → ZoneState → ZoneState → Changes
changes base disk mem = record {
  disk_sign = not (signing_equal disk base);
  mem_sign = not (signing_equal mem base);
  disk_keys = not (keys_rollover_equal disk base);
  mem_keys = not (keys_rollover_equal mem base);
  disk_pub = not (publication_equal disk base);
  mem_pub = not (publication_equal mem base);
  disk_diag = not (diagnostics_equal disk base);
  disk_force = not (bool_eq disk.force_resign base.force_resign);
  mem_force = not (bool_eq mem.force_resign base.force_resign);
}

unfoldable pub merge_revision : ZoneState → ZoneState → ZoneState
merge_revision disk out = record out {
  revision = if ltb out.revision disk.revision then disk.revision else out.revision;
}

-- `dSign && (!mSign || !disk.LastSigned.Before(mem.LastSigned))`
unfoldable pub sign_from_disk : Changes → ZoneState → ZoneState → Bool
sign_from_disk c disk mem =
    c.disk_sign && (not c.mem_sign || not (ltb disk.last_signed mem.last_signed))

unfoldable pub merge_signing : Changes → ZoneState → ZoneState → ZoneState → ZoneState
merge_signing c disk mem out = if sign_from_disk c disk mem then copy_signing out disk else out

unfoldable pub merge_keys : Changes → ZoneState → ZoneState → ZoneState
merge_keys c disk out = if c.disk_keys then copy_keys_rollover out disk else out

unfoldable pub merge_publications : Changes → ZoneState → ZoneState → ZoneState → ZoneState
merge_publications c disk mem out =
    let from_disk = sign_from_disk c disk mem in
    if c.disk_pub && not c.mem_pub
    then (let out' = copy_publication out disk in
        if not from_disk then recompute_pending out' else out')
    else if c.disk_pub && c.mem_pub
    then merge_publication out disk mem
    else if not c.disk_pub && (c.mem_pub && from_disk)
    then recompute_pending out
    else out

unfoldable pub merge_diags : Changes → ZoneState → ZoneState → ZoneState → ZoneState → ZoneState
merge_diags c base disk mem out =
    if c.disk_diag
    then record out {
      warnings = merge_diagnostics base.warnings disk.warnings mem.warnings false;
      errors = merge_diagnostics base.errors disk.errors mem.errors true;
    }
    else out

unfoldable pub merge_force : Changes → ZoneState → ZoneState → ZoneState → ZoneState
merge_force c disk mem out =
    if c.disk_keys && c.mem_keys
    then record out { force_resign = true }
    else if c.disk_force && c.mem_force
    then record out { force_resign = disk.force_resign || mem.force_resign }
    else if c.disk_force
    then record out { force_resign = disk.force_resign }
    else out

-- Both sides changed: the steps of the source, one after the other.
unfoldable pub merge_changed : Changes → ZoneState → ZoneState → ZoneState → ZoneState
merge_changed c base disk mem = merge_force c disk mem (
    merge_diags c base disk mem (
      merge_publications c disk mem
        (merge_keys c disk (merge_signing c disk mem (merge_revision disk mem)))))

unfoldable pub merge_zone : ZoneState → ZoneState → ZoneState → ZoneState
merge_zone base disk mem =
    if disk.revision == base.revision && zone_content_equal disk base
    then mem
    else if zone_content_equal mem base
    then disk
    else merge_changed (changes base disk mem) base disk mem
