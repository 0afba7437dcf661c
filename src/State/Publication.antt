-- ===== src/State/Publication.antt =====
-- Publication tracking of a zone (signer/internal/state/state.go): `ConfirmPublication`,
-- `PublishedSince` and `NewKeysPropagatedBy`.
use sigillum_dnssec.Prelude.{
  ℕ, ◌+◌, ◌≤◌, ◌≡◌, Bool, true, false, ◌&&◌, not, Option, none, some, arith, ltb, ◌==◌,
  if◌then◌else◌,
}
use sigillum_dnssec.State.{
  Time, is_zero, seconds, ZoneState, RolloverState, RolloverType, ksk, algorithm,
}

-- `r.Type == "ksk" || r.Type == "algorithm"`
abbrev pub changes_parent : RolloverType → Bool
changes_parent ksk = true
changes_parent algorithm = true
changes_parent _ = false

unfoldable pub new_keys_propagated_by : Option RolloverState → Time → Bool
new_keys_propagated_by none now = false
new_keys_propagated_by (some r) now =
    changes_parent r.kind && (not (is_zero r.phase_horizon) && not (ltb now r.phase_horizon))

-- `if h := …; h.After(t) { t = h }`
abbrev pub raise_to : Time → Time → Time
raise_to h t = if ltb t h then h else t

-- `if served == 0 { served = published }`
abbrev or_published : ℕ → ℕ → ℕ
or_published served published = if served == 0 then published else served

unfoldable pub confirm_publication : Time → Time → ZoneState → ZoneState
confirm_publication signed_at now z =
    if ltb signed_at z.published_generation_signed_at then z else record z {
      dnskey_cache_horizon =
          raise_to (now + seconds (or_published z.served_dnskey_ttl z.published_dnskey_ttl))
            z.dnskey_cache_horizon;
      rrsig_cache_horizon =
          raise_to (now + seconds (or_published z.served_max_rrsig_ttl z.published_max_rrsig_ttl))
            z.rrsig_cache_horizon;
      served_dnskey_ttl = z.published_dnskey_ttl;
      served_max_rrsig_ttl = z.published_max_rrsig_ttl;
      published_at = now;
      published_generation_signed_at = signed_at;
      pending_publication = z.pending_publication && ltb signed_at z.last_signed;
    }

unfoldable pub published_since : ZoneState → Time → Bool
published_since z t = ltb t z.published_generation_signed_at

-- Whatever generation is confirmed, and whether the confirmation is stale or not, the confirmed
-- generation and both cache horizons never move back.
pub confirm_publication_monotone :
    (signed_at now : Time) (z : ZoneState)
    → (z.published_generation_signed_at
        ≤ (confirm_publication signed_at now z).published_generation_signed_at)
      × (z.dnskey_cache_horizon ≤ (confirm_publication signed_at now z).dnskey_cache_horizon)
      × (z.rrsig_cache_horizon ≤ (confirm_publication signed_at now z).rrsig_cache_horizon)
unfolding confirm_publication
confirm_publication_monotone signed_at now z = ground arith

-- A confirmation that is not stale makes both horizons outlive what caches may hold of the
-- generation that was served until now, and the new generation's TTLs are the served ones.
pub confirm_publication_covers :
    (signed_at now : Time) (z : ZoneState)
    → z.published_generation_signed_at ≤ signed_at
    → let z' = confirm_publication signed_at now z in
      (now + seconds z.served_dnskey_ttl ≤ z'.dnskey_cache_horizon)
      × (now + seconds z.served_max_rrsig_ttl ≤ z'.rrsig_cache_horizon)
      × (z'.served_dnskey_ttl ≡ z.published_dnskey_ttl)
      × (z'.served_max_rrsig_ttl ≡ z.published_max_rrsig_ttl)
unfolding confirm_publication seconds
confirm_publication_covers signed_at now z h = ground arith
