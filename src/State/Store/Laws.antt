-- ===== src/State/Store/Laws.antt =====
-- What saving and reloading the state file (signer/internal/state/state.go) keep.
use sigillum_dnssec.Prelude.{
  ◌+◌, ◌^◌, ◌<◌, ◌∙◌, sym, String, ◌≡◌, refl, ap, false, Option, none, some, arith,
}
use sigillum_dnssec.State.{Time, ZoneState}
use sigillum_dnssec.State.Equality.{zone_content_equal}
use sigillum_dnssec.State.Merge.{merge_zone}
use sigillum_dnssec.State.Merge.Laws.{merge_zone-unchanged_disk}
use sigillum_dnssec.State.Store.{
  State, Disk, StateFile, absent, unreadable, unparsed, invalid, document, advance_revision,
  reload_zone, merge_document, read_disk, reload_from_disk,
}

-- A save changes no more of a record than its revision.
pub advance_revision_lem :
    (b : Option ZoneState) (z : ZoneState)
    → record (advance_revision b z) { revision = z.revision } ≡ z
unfolding advance_revision
advance_revision_lem none z = refl
advance_revision_lem (some b) z = ground arith

-- The revision of a zone whose content is not the base image's passes both the zone's own and
-- the base image's, as long as the counter of 64 bits does not wrap.
pub advance_revision_grows :
    (b z : ZoneState)
    → zone_content_equal z b ≡ false
    → z.revision + 1 < 2 ^ 64
    → b.revision + 1 < 2 ^ 64
    → (z.revision < (advance_revision (some b) z).revision)
      × (b.revision < (advance_revision (some b) z).revision)
unfolding advance_revision
advance_revision_grows b z e hz hb = ground arith

reload_zone_again :
    (marker : Option Time) (disk base mem : Option ZoneState)
    → reload_zone marker disk disk (reload_zone marker disk base mem)
      ≡ reload_zone marker disk base mem
unfolding reload_zone
reload_zone_again marker (some d) base none = ap some (merge_zone-unchanged_disk d d)
reload_zone_again marker (some d) none (some m) = ap some (merge_zone-unchanged_disk d d)
reload_zone_again marker (some d) (some b) (some m) =
    ap some (merge_zone-unchanged_disk d (merge_zone b d m))
reload_zone_again (some at) none none none = refl
reload_zone_again (some at) none (some b) none = refl
reload_zone_again (some at) none none (some m) = ground arith
reload_zone_again (some at) none (some b) (some m) = ground arith
reload_zone_again none none none none = refl
reload_zone_again none none (some b) none = refl
reload_zone_again none none none (some m) = refl
reload_zone_again none none (some b) (some m) = ground arith

-- Reloading the same document again changes no zone: the merge is done after the first time,
-- also where both sides had changed a zone.
pub reload_idempotent :
    (disk : Disk) (s : State) (name : String)
    → (reload_from_disk (document disk) (reload_from_disk (document disk) s).1).1.zones name
      ≡ (reload_from_disk (document disk) s).1.zones name
unfolding reload_from_disk read_disk merge_document
reload_idempotent disk s name =
    reload_zone_again (disk.disk_removed name) (disk.disk_zones name) (s.base name) (s.zones name)

-- A removal marker of the disk does not apply: there is none, or the zone was signed after it.
abbrev pub IsNotRemoved : Option Time → ZoneState → Type 0
IsNotRemoved none m = Unit
IsNotRemoved (some at) m = at < m.last_signed

-- Memory alone changed the zone since the last synchronization, by the disk's marker and zone and
-- the base image: the disk still holds the base image; or it holds no zone, the marker does not
-- apply, and the zone is new or its content is not the base image's.
abbrev pub IsUnsaved : Option Time → Option ZoneState → Option ZoneState → ZoneState → Type 0
IsUnsaved marker (some d) base m = base ≡ some d
IsUnsaved marker none none m = IsNotRemoved marker m
IsUnsaved marker none (some b) m = (zone_content_equal m b ≡ false) × IsNotRemoved marker m

reload_zone-unsaved :
    (marker : Option Time) (disk base : Option ZoneState) (m : ZoneState)
    → IsUnsaved marker disk base m
    → reload_zone marker disk base (some m) ≡ some m
unfolding reload_zone
reload_zone-unsaved marker (some d) none m h = absurd (cc h)
reload_zone-unsaved marker (some d) (some b) m h =
    let e : b ≡ d = ground (arith, h) in
    ap some (ap (λ x. merge_zone b x m) (sym e) ∙ merge_zone-unchanged_disk b m)
reload_zone-unsaved none none none m h = refl
reload_zone-unsaved (some at) none none m h = ground (arith, h)
reload_zone-unsaved none none (some b) m h = ground (arith, h)
reload_zone-unsaved (some at) none (some b) m h = ground (arith, h)

-- The same, for what the state file holds: without a document nothing is asked.
abbrev pub IsUnsavedIn : StateFile → State → String → ZoneState → Type 0
IsUnsavedIn absent s name m = Unit
IsUnsavedIn unreadable s name m = Unit
IsUnsavedIn unparsed s name m = Unit
IsUnsavedIn invalid s name m = Unit
IsUnsavedIn (document disk) s name m =
    IsUnsaved (disk.disk_removed name) (disk.disk_zones name) (s.base name) m

-- Unsaved work is not lost: a zone of memory comes out of a reload as it went in where the file
-- gives no document, and where its document leaves the zone to memory. Such a document holds the
-- zone as it was last synchronized; or it does not hold the zone, has no removal marker for it that
-- is as late as its last signing, and the zone is new in memory or its content is not what was last
-- synchronized.
pub reload_keeps_unsaved :
    (file : StateFile) (s : State) (name : String) {m : ZoneState}
    → s.zones name ≡ some m
    → IsUnsavedIn file s name m
    → (reload_from_disk file s).1.zones name ≡ some m
unfolding reload_from_disk read_disk merge_document
reload_keeps_unsaved absent s name h unsaved = ground (arith, h)
reload_keeps_unsaved unreadable s name h unsaved = h
reload_keeps_unsaved unparsed s name h unsaved = h
reload_keeps_unsaved invalid s name h unsaved = h
reload_keeps_unsaved (document disk) s name {m} h unsaved =
    ap (reload_zone (disk.disk_removed name) (disk.disk_zones name) (s.base name)) h
    ∙ reload_zone-unsaved (disk.disk_removed name) (disk.disk_zones name) (s.base name) m unsaved
