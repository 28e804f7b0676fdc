-- ===== src/Media/Exact.antt =====
-- When each transition of a media object happens, by the columns of the object.
use swim_flow_api.Prelude.{
  ℕ, String, ◌≡◌, ◌∙◌, refl, sym, ap, Bool, true, false, not, ◌&&◌, arith, eq_iff, ◌≤◌, uuid_of,
}
use swim_flow_api.Database.{Table, Transactions}
use swim_flow_api.Media.Store.{
  Status, Provider, MediaObject, Binding, MediaDb, MediaError, same_object, same_binding,
  is_strong_etag,
}
use swim_flow_api.Media.Objects.{
  claim_where, claimed, complete_where, completed, settle_where, settled_verified, settled_rejected,
  delete_where, deleted_object, claim_unbound_verified_blob_for_cleanup,
  complete_claimed_blob_cleanup, mark_verified_if_pending, reject_if_pending,
  mark_deleted_if_rejected, is_uuid,
}
use swim_flow_api.Media.Sound.{Sound}
use swim_flow_api.Media.Columns.{
  Claimable, Completable, Settleable, Deletable, status_eq_sound, provider_eq_sound, none_sound,
  read-IsBy, is_sound, text_sound, read-IsUnbound, written_unbound,
}
use swim_flow_api.Media.Cleanup.{
  is_bound, claim_unbound_verified_blob_for_cleanup_lem, complete_claimed_blob_cleanup_lem,
  mark_verified_if_pending_lem, reject_if_pending_lem, mark_deleted_if_rejected_lem,
}
use swim_flow_api.Media.Decided.{Decides, decided, both_tests}

module _ (objects : Table MediaObject same_object) where
  -- In sound tables a completion with well-formed arguments never throws: it answers true exactly
  -- when the listed object is a blob that was claimed at that time with that ETag, is not completed
  -- and has no ticket, and no binding shows it; that object alone is then marked as deleted.
  -- Otherwise nothing changes. It is not before the claim.
  pub complete_exact :
      (id etag : String) (claimed_at completed_at : ℕ) (db : MediaDb)
      → Sound db
      → is_uuid id ≡ true
      → is_strong_etag etag ≡ true
      → claimed_at ≤ completed_at
      → Decides
          (uuid_of id)
          (Completable (uuid_of id) etag claimed_at db)
          (completed completed_at)
          db
          (complete_claimed_blob_cleanup objects id etag claimed_at completed_at db)
  complete_exact id etag claimed_at completed_at db sound uuid strong le =
      decided (uuid_of id) (complete_where (uuid_of id) etag claimed_at db.bindings)
        (completed completed_at) (Completable (uuid_of id) etag claimed_at db) db
        (complete_claimed_blob_cleanup objects id etag claimed_at completed_at db) sound into back
        (λ o c. c.named)
        (complete_claimed_blob_cleanup_lem objects id etag claimed_at completed_at db sound uuid
          strong le)
    where
      into :
          (o : MediaObject)
          → complete_where (uuid_of id) etag claimed_at db.bindings o ≡ true
          → Completable (uuid_of id) etag claimed_at db o
      into o w =
          let named : o.id ≡ uuid_of id = (eq_iff _ _).0 (ground (arith, w)) in
          let free : is_bound o.id db ≡ false = ground (arith, w) in
          record {
            named = named;
            provider = provider_eq_sound o.storage_provider Provider.blob (ground (arith, w));
            status = status_eq_sound o.status Status.gc_claimed (ground (arith, w));
            claimed = is_sound o.cleanup_claimed_at claimed_at (ground (arith, w));
            unfinished = none_sound o.cleanup_completed_at (ground (arith, w));
            no_ticket = none_sound o.ticket_expires_at (ground (arith, w));
            tag = text_sound o.verified_etag etag (ground (arith, w));
            unbound = read-IsUnbound (uuid_of id) db (rw named at free);
          }

      back :
          (o : MediaObject)
          → Completable (uuid_of id) etag claimed_at db o
          → complete_where (uuid_of id) etag claimed_at db.bindings o ≡ true
      back o c =
          let free : is_bound o.id db ≡ false =
            ap (λ x. is_bound x db) c.named ∙ written_unbound (uuid_of id) db c.unbound in
          ground (
            arith,
            (eq_iff o.id (uuid_of id)).1 c.named,
            c.provider,
            c.status,
            c.claimed,
            c.unfinished,
            c.no_ticket,
            c.tag,
            (eq_iff etag etag).1 refl,
            free,
          )

  settle_into :
      (id : String) (cutoff : ℕ) (o : MediaObject)
      → settle_where id cutoff o ≡ true
      → Settleable id cutoff o
  settle_into id cutoff o w = record {
    named = (eq_iff _ _).0 (ground (arith, w));
    provider = provider_eq_sound o.storage_provider Provider.r2 (ground (arith, w));
    status = status_eq_sound o.status Status.pending (ground (arith, w));
    expired = read-IsBy o.ticket_expires_at cutoff (ground (arith, w));
  }

  settle_back :
      (id : String) (cutoff : ℕ) (o : MediaObject)
      → Settleable id cutoff o
      → settle_where id cutoff o ≡ true
  settle_back id cutoff o c =
      let (s, there, le) = c.expired in
      ground (arith, (eq_iff o.id id).1 c.named, c.provider, c.status, there, le)

  -- In sound tables the settlement of an upload never throws, for a strong ETag. Verifying and
  -- rejecting answer true exactly when the listed object is a pending signed upload whose ticket
  -- has expired by the cutoff, deleting exactly when it is a rejected one; each then changes that
  -- object alone. Otherwise nothing changes.
  pub settlement_exact :
      (id etag : String) (cutoff verified_at : ℕ) (db : MediaDb)
      → Sound db
      → is_strong_etag etag ≡ true
      → Decides id
          (Settleable id cutoff)
          (settled_verified verified_at etag)
          db
          (mark_verified_if_pending objects id cutoff verified_at etag db)
        × Decides id
            (Settleable id cutoff)
            settled_rejected
            db
            (reject_if_pending objects id cutoff db)
        × Decides id (Deletable id) deleted_object db (mark_deleted_if_rejected objects id db)
  settlement_exact id etag cutoff verified_at db sound strong = (
    decided id (settle_where id cutoff) (settled_verified verified_at etag) (Settleable id cutoff)
        db (mark_verified_if_pending objects id cutoff verified_at etag db) sound
        (settle_into id cutoff) (settle_back id cutoff) (λ o c. c.named)
        (mark_verified_if_pending_lem objects id etag cutoff verified_at db sound strong),
    decided id (settle_where id cutoff) settled_rejected (Settleable id cutoff) db
        (reject_if_pending objects id cutoff db) sound (settle_into id cutoff)
        (settle_back id cutoff) (λ o c. c.named) (reject_if_pending_lem objects id cutoff db sound),
    decided id (delete_where id) deleted_object (Deletable id) db
        (mark_deleted_if_rejected objects id db) sound
        (λ o w. record {
          named = (eq_iff _ _).0 (ground (arith, w));
          provider = provider_eq_sound o.storage_provider Provider.r2 (ground (arith, w));
          status = status_eq_sound o.status Status.rejected (ground (arith, w));
        })
        (λ o c. ground (arith, (eq_iff o.id id).1 c.named, c.provider, c.status)) (λ o c. c.named)
        (mark_deleted_if_rejected_lem objects id db sound),
  )

  -- In sound tables a claim of a well-formed id never throws: it answers true exactly when the
  -- listed object is an unclaimed verified blob without a ticket, created and verified by the
  -- cutoff, and no binding shows it; that object alone is then marked as claimed. Otherwise nothing
  -- changes. The cutoff is not after the claim.
  pub claim_exact :
      (bindings : Table Binding same_binding) (claiming : Transactions MediaError Bool MediaDb)
      (id : String) (cutoff claimed_at : ℕ) (db : MediaDb)
      → Sound db
      → is_uuid id ≡ true
      → cutoff ≤ claimed_at
      → Decides (uuid_of id) (Claimable (uuid_of id) cutoff db) (claimed claimed_at) db (
          claim_unbound_verified_blob_for_cleanup objects bindings claiming id cutoff claimed_at db)
  claim_exact bindings claiming id cutoff claimed_at db sound uuid le =
      decided (uuid_of id) possible (claimed claimed_at) (Claimable (uuid_of id) cutoff db) db
        (claim_unbound_verified_blob_for_cleanup objects bindings claiming id cutoff claimed_at db)
        sound into back (λ o c. c.named)
        (claim_unbound_verified_blob_for_cleanup_lem objects bindings claiming id cutoff claimed_at
            db sound uuid le
          ∙ sym (
              both_tests (claim_where (uuid_of id) cutoff) (claimed claimed_at) db
                (is_bound (uuid_of id) db)))
    where
      possible : MediaObject → Bool
      possible o = claim_where (uuid_of id) cutoff o && not (is_bound (uuid_of id) db)

      into : (o : MediaObject) → possible o ≡ true → Claimable (uuid_of id) cutoff db o
      into o w = record {
        named = (eq_iff _ _).0 (ground (arith, w));
        provider = provider_eq_sound o.storage_provider Provider.blob (ground (arith, w));
        status = status_eq_sound o.status Status.verified (ground (arith, w));
        no_ticket = none_sound o.ticket_expires_at (ground (arith, w));
        unclaimed = none_sound o.cleanup_claimed_at (ground (arith, w));
        created = ground (arith, w);
        verified = read-IsBy o.verified_at cutoff (ground (arith, w));
        unbound = read-IsUnbound (uuid_of id) db (ground (arith, w));
      }

      back : (o : MediaObject) → Claimable (uuid_of id) cutoff db o → possible o ≡ true
      back o c =
          let (s, there, early) = c.verified in
          ground (
            arith,
            (eq_iff o.id (uuid_of id)).1 c.named,
            c.provider,
            c.status,
            c.no_ticket,
            c.unclaimed,
            c.created,
            there,
            early,
            written_unbound (uuid_of id) db c.unbound,
          )
