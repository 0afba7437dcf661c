-- ===== src/State/Store.antt =====
-- The state of all zones (signer/internal/state/state.go): `Save`, `readDiskLocked`,
-- `ReloadFromDisk` and the removal markers. What the state file holds is an argument: its JSON and
-- the errors of reading, parsing and validating it are taken as they come. A Go map is a function from the zone's name; every loop over a map in these
-- functions treats each zone by itself, so the order of iteration does not show.
pub mod Laws
use sigillum_dnssec.Prelude.{
  ℕ, ◌+◌, ◌%◌, ◌^◌, String, Bool, true, false, not, ◌&&◌, Option, none, some, Result, ok, err, ltb,
  str_eq, if◌then◌else◌,
}
use sigillum_dnssec.State.{Time, ZoneState}
use sigillum_dnssec.State.Equality.{zone_content_equal}
use sigillum_dnssec.State.Merge.{merge_zone}

pub record State : Type 0 where
  pub zones : String → Option ZoneState
  pub removed : String → Option Time
  pub base : String → Option ZoneState
  pub file_seen : Bool

-- The document that is read back.
pub record Disk : Type 0 where
  pub disk_zones : String → Option ZoneState
  pub disk_removed : String → Option Time

next_revision : ZoneState → ZoneState → ℕ
next_revision b z = if ltb z.revision b.revision then b.revision else z.revision

-- The loop of `Save`: a zone whose content is not the base image's gets a later revision.
unfoldable pub advance_revision : Option ZoneState → ZoneState → ZoneState
unfolding next_revision
advance_revision none z = record z { revision = (z.revision + 1) % 2 ^ 64 }
advance_revision (some b) z =
    if zone_content_equal z b then z else record z { revision = (next_revision b z + 1) % 2 ^ 64 }

advance_slot : Option ZoneState → Option ZoneState → Option ZoneState
advance_slot b none = none
advance_slot b (some z) = some (advance_revision b z)

-- How the write of the state file went: written, written with its durability across a power loss
-- uncertain, or not written.
pub data Written : Type 0 where
  written uncertain not_written : Written

synchronize : Written → State → State
synchronize not_written s = s
synchronize _ s = record s { base = s.zones; file_seen = true }

-- `Save`: the document that is written holds `(save outcome s).zones` and its markers.
unfoldable pub save : Written → State → State
unfolding advance_slot synchronize
save outcome s =
    synchronize outcome (record s { zones = λ name. advance_slot (s.base name) (s.zones name) })

-- A disk marker for a zone that the disk does not hold: the zone that memory holds is dropped,
-- unless it was signed after the removal, which makes the marker stale.
marked_zone : Time → Option ZoneState → Option ZoneState
marked_zone at none = none
marked_zone at (some m) = if ltb at m.last_signed then some m else none

marked_removal : Time → Option ZoneState → Option Time
marked_removal at none = some at
marked_removal at (some m) = if ltb at m.last_signed then none else some at

-- A zone that only memory holds stays if it has unsaved content.
drop_unchanged : Option ZoneState → Option ZoneState → Option ZoneState
drop_unchanged base none = none
drop_unchanged none (some m) = some m
drop_unchanged (some b) (some m) = if zone_content_equal m b then none else some m

-- One zone and its marker after the reload, from the disk's marker, disk zone, base and memory.
reload_zone :
    Option Time → Option ZoneState → Option ZoneState → Option ZoneState → Option ZoneState
unfolding marked_zone drop_unchanged
reload_zone marker (some d) base none = some d
reload_zone marker (some d) none (some m) = some d
reload_zone marker (some d) (some b) (some m) = some (merge_zone b d m)
reload_zone (some at) none base mem = drop_unchanged base (marked_zone at mem)
reload_zone none none base mem = drop_unchanged base mem

reload_removal : Option Time → Option ZoneState → Option ZoneState → Option Time → Option Time
unfolding marked_removal
reload_removal marker (some d) mem old = none
reload_removal (some at) none mem old = marked_removal at mem
reload_removal none none mem old = old

-- The part of `ReloadFromDisk` after the document is read.
unfoldable pub merge_document : Disk → State → State
unfolding reload_zone reload_removal
merge_document disk s = record {
  zones = λ name.
      reload_zone (disk.disk_removed name) (disk.disk_zones name) (s.base name) (s.zones name);
  removed = λ name.
      reload_removal (disk.disk_removed name) (disk.disk_zones name) (s.zones name)
        (s.removed name);
  base = disk.disk_zones;
  file_seen = true;
}

-- What the state file holds: no file, a file that `os.ReadFile` cannot read, that `json.Unmarshal`
-- cannot parse or that `validateAndNormalize` refuses, or a document, as these three give it.
pub data StateFile : Type 0 where
  absent unreadable unparsed invalid : StateFile
  document : Disk → StateFile

pub data ReloadError : Type 0 where
  state_file_missing read_failed parse_failed validation_failed : ReloadError

-- No document and no error for a file that has never existed.
unfoldable pub read_disk : Bool → StateFile → Result ReloadError (Option Disk)
read_disk seen absent = if seen then err state_file_missing else ok none
read_disk seen unreadable = err read_failed
read_disk seen unparsed = err parse_failed
read_disk seen invalid = err validation_failed
read_disk seen (document disk) = ok (some disk)

abbrev pub merge_read :
    State → Result ReloadError (Option Disk) → Result ReloadError (Unit {0}) × State
merge_read s (err e) = (err e, s)
merge_read s (ok none) = (ok tt, s)
merge_read s (ok (some disk)) = (ok tt, merge_document disk s)

unfoldable pub reload_from_disk : StateFile → State → Result ReloadError (Unit {0}) × State
unfolding read_disk merge_document
reload_from_disk file s = merge_read s (read_disk s.file_seen file)

-- m[key] = v, and delete(m, key)
abbrev pub put {ℓ} : {A : Type ℓ} → String → Option A → (String → Option A) → String → Option A
put key v m name = if str_eq key name then v else m name

unfoldable pub mark_removed : String → Time → State → State
mark_removed domain now s = record s {
  zones = put domain none s.zones;
  removed = put domain (some now) s.removed;
}

unfoldable pub restore_removed : String → Time → State → State
restore_removed domain at s = record s { removed = put domain (some at) s.removed }

unfoldable pub clear_removed : String → State → State
clear_removed domain s = record s { removed = put domain none s.removed }

unfoldable pub set_zone : String → ZoneState → State → State
set_zone domain zone s = record s { zones = put domain (some zone) s.zones }

unfoldable pub remove_zone : String → State → State
remove_zone domain s = record s { zones = put domain none s.zones }

update_slot : (ZoneState → ZoneState) → Option ZoneState → Option ZoneState
update_slot f none = none
update_slot f (some z) = some (f z)

unfoldable pub update_zone : String → (ZoneState → ZoneState) → State → State
unfolding update_slot
update_zone domain f s = record s { zones = put domain (update_slot f (s.zones domain)) s.zones }
