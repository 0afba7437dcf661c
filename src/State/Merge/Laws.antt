-- ===== src/State/Merge/Laws.antt =====
-- What the merge of a zone record (signer/internal/state/state.go) keeps of each side.
use mathlib.Core.Path.{subst}
use sigillum_dnssec.Prelude.{
  sym, ltb, ◌≤◌, ◌≡◌, inl, inr, true, false, arith, Bool-cases, if◌then◌else◌,
}
use sigillum_dnssec.State.{ZoneState}
use sigillum_dnssec.State.Equality.{
  signing_equal, keys_rollover_equal, signing_equal_iff, keys_rollover_equal_iff,
  publication_equal_iff, zone_content_equal_classes, zone_content_equal_refl, SameSigning,
  SameKeysRollover, SamePublication,
}
use sigillum_dnssec.State.Merge.{
  Changes, changes, sign_from_disk, merge_revision, merge_signing, merge_keys, merge_publications,
  merge_diags, merge_force, merge_changed, merge_zone,
}
use sigillum_dnssec.State.Merge.Fields.{
  copy_signing, copy_keys_rollover, copy_publication, merge_publication, recompute_pending,
}

-- A record that counts as published when the generation it signed last is confirmed.
abbrev pub Settled : ZoneState → Type 0
Settled z = z.pending_publication ≡ false → z.last_signed ≤ z.published_generation_signed_at

-- A disk that nobody wrote since the last synchronization leaves memory as it is.
pub merge_zone-unchanged_disk : (base mem : ZoneState) → merge_zone base base mem ≡ mem
unfolding merge_zone
merge_zone-unchanged_disk base mem = ground (arith, zone_content_equal_refl base)

abbrev pub HorizonsBelow : ZoneState → ZoneState → Type 0
HorizonsBelow a b =
    (a.dnskey_cache_horizon ≤ b.dnskey_cache_horizon)
    × (a.rrsig_cache_horizon ≤ b.rrsig_cache_horizon)

module _ (base disk mem : ZoneState) where
  abbrev delta : Changes
  delta = changes base disk mem

  -- The record that the publication step starts from.
  abbrev signed_and_keyed : ZoneState
  signed_and_keyed = merge_keys delta disk (merge_signing delta disk mem (merge_revision disk mem))

  abbrev published : ZoneState
  published = merge_publications delta disk mem signed_and_keyed

  signed_and_keyed_view :
      SamePublication signed_and_keyed mem
      × (signed_and_keyed.last_signed
          ≡ (if sign_from_disk delta disk mem then disk.last_signed else mem.last_signed))
  unfolding merge_keys merge_signing merge_revision copy_signing copy_keys_rollover
  signed_and_keyed_view = ground arith

  changed_view :
      SamePublication (merge_changed delta base disk mem) published
      × ((merge_changed delta base disk mem).last_signed ≡ published.last_signed)
  unfolding merge_changed merge_force merge_diags
  changed_view = ground arith

  published-Settled : Settled disk → Settled mem → Settled published
  unfolding merge_publications changes sign_from_disk copy_publication merge_publication
      recompute_pending
  published-Settled hd hm = ground (
    arith,
    signed_and_keyed_view,
    signing_equal_iff disk base,
    publication_equal_iff disk base,
    publication_equal_iff mem base,
  )

  -- No merge marks a newer signing as served on the strength of an older confirmation: where
  -- memory and disk each count as published only what they signed last, so does the result.
  pub merge_zone-Settled : Settled disk → Settled mem → Settled (merge_zone base disk mem)
  unfolding merge_zone
  merge_zone-Settled hd hm = ground (arith, changed_view, published-Settled hd hm)

  published-HorizonsBelow :
      HorizonsBelow base disk
      → HorizonsBelow base mem
      → HorizonsBelow disk published × HorizonsBelow mem published
  unfolding merge_publications changes sign_from_disk copy_publication merge_publication
      recompute_pending
  published-HorizonsBelow hd hm = ground (
    arith,
    signed_and_keyed_view,
    publication_equal_iff disk base,
    publication_equal_iff mem base,
  )

  -- A merge lowers no cache horizon below either side's, where each side's horizons have only
  -- been raised since the base image.
  pub merge_zone-HorizonsBelow :
      HorizonsBelow base disk
      → HorizonsBelow base mem
      → HorizonsBelow disk (merge_zone base disk mem) × HorizonsBelow mem (merge_zone base disk mem)
  unfolding merge_zone
  merge_zone-HorizonsBelow hd hm = ground (
    arith,
    changed_view,
    published-HorizonsBelow hd hm,
    zone_content_equal_classes disk base,
    zone_content_equal_classes mem base,
  )

  published_classes :
      SameSigning published (if sign_from_disk delta disk mem then disk else mem)
      × SameKeysRollover published (if keys_rollover_equal disk base then mem else disk)
  unfolding merge_publications changes merge_keys merge_signing merge_revision copy_signing
      copy_keys_rollover copy_publication merge_publication recompute_pending
  published_classes = ground arith

  changed_classes :
      SameSigning (merge_changed delta base disk mem) published
      × SameKeysRollover (merge_changed delta base disk mem) published
  unfolding merge_changed merge_force merge_diags
  changed_classes = ground arith

  keys_of_merge :
      SameKeysRollover
        (merge_zone base disk mem)
        (if keys_rollover_equal disk base then mem else disk)
  unfolding merge_zone
  keys_of_merge = ground (
    arith,
    changed_classes,
    published_classes,
    keys_rollover_equal_iff disk base,
    zone_content_equal_classes disk base,
    zone_content_equal_classes mem base,
  )

  signing_of_merge :
      SameSigning (merge_zone base disk mem) (if sign_from_disk delta disk mem then disk else mem)
  unfolding merge_zone changes sign_from_disk
  signing_of_merge = elim (Bool-cases (signing_equal disk base)) [
    | inl e ↦ ground (
      arith,
      changed_classes.0,
      published_classes.0,
      signing_equal_iff disk base,
      signing_equal_iff mem base,
      zone_content_equal_classes disk base,
      zone_content_equal_classes mem base,
    )
    | inr e ↦ ground (
      arith,
      changed_classes.0,
      published_classes.0,
      signing_equal_iff disk base,
      signing_equal_iff mem base,
      zone_content_equal_classes disk base,
      zone_content_equal_classes mem base,
    )
  ]

  -- The side whose signing stands: the only one that signed since the base image, or else the one
  -- that signed later, which is the disk on a tie.
  abbrev pub later_signed : ZoneState
  later_signed =
      if signing_equal disk base
      then mem
      else if signing_equal mem base
      then disk
      else if ltb disk.last_signed mem.last_signed
      then mem
      else disk

  later_signed-sign_from_disk : later_signed ≡ (if sign_from_disk delta disk mem then disk else mem)
  unfolding sign_from_disk changes
  later_signed-sign_from_disk = ground arith

  -- The signing fields come whole from one side: from memory if the disk did not sign since the
  -- base image, from the disk if only the disk did, and from the side that signed later if both did,
  -- the disk on a tie. The keys and the rollover record come whole from one side, the disk's exactly
  -- when the disk changed them.
  pub merge_zone_classes :
      SameSigning (merge_zone base disk mem) later_signed
      × SameKeysRollover
          (merge_zone base disk mem)
          (if keys_rollover_equal disk base then mem else disk)
  merge_zone_classes = (
    subst (SameSigning (merge_zone base disk mem)) (sym later_signed-sign_from_disk)
        signing_of_merge,
    keys_of_merge,
  )

  -- Where both sides changed the keys or the rollover record, the zone is signed again.
  pub merge_zone_conflict :
      keys_rollover_equal disk base ≡ false
      → keys_rollover_equal mem base ≡ false
      → (merge_zone base disk mem).force_resign ≡ true
  unfolding merge_zone merge_changed merge_force changes
  merge_zone_conflict hd hm = ground (
    arith,
    keys_rollover_equal_iff disk base,
    keys_rollover_equal_iff mem base,
    zone_content_equal_classes disk base,
    zone_content_equal_classes mem base,
  )
