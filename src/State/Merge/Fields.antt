-- ===== src/State/Merge/Fields.antt =====
-- The copies of a field class from one zone record to another, and the merge of two confirmations
-- (signer/internal/state/state.go).
use sigillum_dnssec.Prelude.{ltb, if◌then◌else◌}
use sigillum_dnssec.State.{Time, ZoneState}

-- The destination comes first, as in the source.
unfoldable pub copy_signing : ZoneState → ZoneState → ZoneState
copy_signing dst src = record dst {
  path = src.path;
  serial = src.serial;
  published_serial = src.published_serial;
  last_signed = src.last_signed;
  source_mod_time = src.source_mod_time;
  source_size = src.source_size;
  source_digest = src.source_digest;
  signatures_exp = src.signatures_exp;
  published_dnskey_ttl = src.published_dnskey_ttl;
  published_max_rrsig_ttl = src.published_max_rrsig_ttl;
}

unfoldable pub copy_keys_rollover : ZoneState → ZoneState → ZoneState
copy_keys_rollover dst src = record dst {
  live_ksk = src.live_ksk;
  live_zsk = src.live_zsk;
  rollover = src.rollover;
}

unfoldable pub copy_publication : ZoneState → ZoneState → ZoneState
copy_publication dst src = record dst {
  pending_publication = src.pending_publication;
  published_at = src.published_at;
  published_generation_signed_at = src.published_generation_signed_at;
  served_dnskey_ttl = src.served_dnskey_ttl;
  served_max_rrsig_ttl = src.served_max_rrsig_ttl;
  dnskey_cache_horizon = src.dnskey_cache_horizon;
  rrsig_cache_horizon = src.rrsig_cache_horizon;
}

abbrev pub later_time : Time → Time → Time
later_time a b = if ltb a b then b else a

-- `out.PendingPublication = out.LastSigned.After(out.PublishedGenerationSignedAt)`
unfoldable pub recompute_pending : ZoneState → ZoneState
recompute_pending out = record out {
  pending_publication = ltb out.published_generation_signed_at out.last_signed;
}

unfoldable pub merge_publication : ZoneState → ZoneState → ZoneState → ZoneState
unfolding recompute_pending
merge_publication out disk mem =
    let win : ZoneState =
      if ltb disk.published_generation_signed_at mem.published_generation_signed_at
      then mem
      else disk in
    recompute_pending (record out {
      published_at = win.published_at;
      published_generation_signed_at = win.published_generation_signed_at;
      served_dnskey_ttl = win.served_dnskey_ttl;
      served_max_rrsig_ttl = win.served_max_rrsig_ttl;
      dnskey_cache_horizon = later_time disk.dnskey_cache_horizon mem.dnskey_cache_horizon;
      rrsig_cache_horizon = later_time disk.rrsig_cache_horizon mem.rrsig_cache_horizon;
    })
