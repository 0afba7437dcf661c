-- ===== src/Scenarios/State.antt =====
-- Scenarios of signer/internal/state/state.go.
use sigillum_dnssec.Prelude.{
  ◌+◌, ◌≤◌, ◌≡◌, ◌↔◌, refl, true, none, some, [], ◌∷◌, arith, if◌then◌else◌,
}
use sigillum_dnssec.State.{ZoneState, seconds, ksk, ds_add_wait}
use sigillum_dnssec.State.Equality.{
  signing_equal, zone_content_equal, zone_content_equal_iff, keys_rollover_equal, SameSigning,
  SameKeysRollover,
}
use sigillum_dnssec.State.Publication.{confirm_publication, confirm_publication_covers}
use sigillum_dnssec.State.Merge.{merge_zone}
use sigillum_dnssec.State.Merge.Laws.{
  Settled, HorizonsBelow, merge_zone-Settled, merge_zone-HorizonsBelow, merge_zone_classes,
  later_signed,
}
use sigillum_dnssec.State.Store.{State, Disk, document, reload_from_disk}
use sigillum_dnssec.State.Store.Laws.{reload_keeps_unsaved}
use sigillum_dnssec.Scenarios.Data.{at_second, quiet_zone, rolling_zone}

confirm_publication_covers_example :
    let z = confirm_publication (at_second 1000) (at_second 9000) quiet_zone in
    (at_second 9000 + seconds 3600 ≤ z.dnskey_cache_horizon)
    × (at_second 9000 + seconds 3600 ≤ z.rrsig_cache_horizon)
    × (z.served_dnskey_ttl ≡ 3600)
    × (z.served_max_rrsig_ttl ≡ 3600)
confirm_publication_covers_example =
    confirm_publication_covers (at_second 1000) (at_second 9000) quiet_zone (omega arith)

abbrev warned : ZoneState
warned = record quiet_zone {
  warnings = "URGENT: no DS" ∷ "ZSK expires soon" ∷ [];
  errors = "signing: no key" ∷ "rollover: no probe" ∷ [];
}

-- The disk's process confirmed a generation and started a rollover; memory signed again and
-- changed the live key too.
abbrev disk_zone : ZoneState
disk_zone = record (rolling_zone ksk ds_add_wait) {
  revision = 5;
  dnskey_cache_horizon = at_second 6600;
}

abbrev mem_zone : ZoneState
mem_zone = record quiet_zone {
  last_signed = at_second 5000;
  pending_publication = true;
  live_ksk = none;
}

merge_zone-Settled_example : Settled (merge_zone quiet_zone disk_zone mem_zone)
merge_zone-Settled_example =
    merge_zone-Settled quiet_zone disk_zone mem_zone (λ e. omega arith) (λ e. absurd (ground arith))

merge_zone-HorizonsBelow_example :
    HorizonsBelow disk_zone (merge_zone quiet_zone disk_zone mem_zone)
    × HorizonsBelow mem_zone (merge_zone quiet_zone disk_zone mem_zone)
merge_zone-HorizonsBelow_example =
    merge_zone-HorizonsBelow quiet_zone disk_zone mem_zone (omega arith) (omega arith)

merge_zone_classes_example :
    SameSigning
      (merge_zone quiet_zone disk_zone mem_zone)
      (later_signed quiet_zone disk_zone mem_zone)
    × SameKeysRollover
        (merge_zone quiet_zone disk_zone mem_zone)
        (if keys_rollover_equal disk_zone quiet_zone then mem_zone else disk_zone)
merge_zone_classes_example = merge_zone_classes quiet_zone disk_zone mem_zone

zone_content_equal_iff_example :
    (zone_content_equal quiet_zone (record quiet_zone { revision = 9 }) ≡ true)
    ↔ (record quiet_zone { revision = 9 } ≡ record quiet_zone { revision = 9 })
zone_content_equal_iff_example =
    zone_content_equal_iff quiet_zone (record quiet_zone { revision = 9 })

-- A process that holds one zone with unsaved content, and the document on disk.
abbrev loaded : State
loaded = record {
  zones = λ name. some mem_zone;
  removed = λ name. none;
  base = λ name. some quiet_zone;
  file_seen = true;
}

-- A document that has lost the zone.
abbrev emptied : Disk
emptied = record { disk_zones = λ name. none; disk_removed = λ name. none }

reload_keeps_unsaved_example :
    (reload_from_disk (document emptied) loaded).1.zones "example.com" ≡ some mem_zone
unfolding zone_content_equal signing_equal
reload_keeps_unsaved_example =
    reload_keeps_unsaved (document emptied) loaded "example.com" refl (refl, tt)
