-- ===== src/Media/Trace.antt =====
-- Every history of PrismaPrivateMediaObjectsRepository is made of the changes that the lifecycle
-- allows.
use swim_flow_api.Prelude.{
  ℕ, String, refl, Bool, not, ◌||◌, Option, none, some, arith, Bool-cases, Option-cases, inl, inr,
  ltb, ◌==◌, count, str_eq, uuid_of,
}
use swim_flow_api.Database.{Table, Transactions}
use swim_flow_api.Media.Store.{
  Target, Status, MediaObject, Binding, Resource, MediaDb, MediaError, same_object, same_binding,
  same_resource, is_strong_etag,
}
use swim_flow_api.Media.Objects.{
  PendingInput, VerifiedInput, pending_object, verified_object, lock_where, complete_where,
  completed, settle_where, settled_verified, settled_rejected, delete_where, deleted_object,
  create_pending, create_verified_blob, claim_body, claim_unbound_verified_blob_for_cleanup,
  complete_claimed_blob_cleanup, mark_verified_if_pending, reject_if_pending,
  mark_deleted_if_rejected, is_uuid,
}
use swim_flow_api.Media.Bindings.{
  CommitInput, bound_where, rebound, bind, commit_body, assign_active_verified_blob,
  commit_private_blob_binding,
}
use swim_flow_api.Media.Effects.{changed_one_state}
use swim_flow_api.Media.Changes.{Changes, unchanged, Changes-append}
use swim_flow_api.Media.Progress.{
  settle_state, expect_one_state, as_race_state, catch_conflict_state, leaves,
  insert_object-Changes, update_objects-Changes, claimed-Changes, insert_binding-Changes,
  update_bindings-Changes, commit_body-Changes,
}

module _ (objects : Table MediaObject same_object) (bindings : Table Binding same_binding)
    (resources : Table Resource same_resource) (claiming : Transactions MediaError Bool MediaDb)
    (committing : Transactions MediaError Unit MediaDb) where
  -- One call of the repository that writes.
  pub data MediaStep : MediaDb → MediaDb → Type 0 where
    pending_created :
        (now : ℕ) (input : PendingInput) (db : MediaDb)
        → MediaStep db (create_pending objects now input db).1
    verified_created :
        (now : ℕ) (input : VerifiedInput) (db : MediaDb)
        → MediaStep db (create_verified_blob objects now input db).1
    assigned :
        (target : Target) (resource_id media_id : String) (expected : Option String) (db : MediaDb)
        → MediaStep db
            (assign_active_verified_blob bindings target resource_id media_id expected db).1
    committed :
        (i : CommitInput) (db : MediaDb)
        → MediaStep db (commit_private_blob_binding bindings resources committing i db).1
    claim_tried :
        (media_id : String) (cutoff claimed_at : ℕ) (db : MediaDb)
        → MediaStep db
            (claim_unbound_verified_blob_for_cleanup objects bindings claiming media_id cutoff
              claimed_at db).1
    completion_tried :
        (media_id etag : String) (claimed_at completed_at : ℕ) (db : MediaDb)
        → MediaStep db
            (complete_claimed_blob_cleanup objects media_id etag claimed_at completed_at db).1
    marked_verified :
        (id : String) (cutoff verified_at : ℕ) (etag : String) (db : MediaDb)
        → MediaStep db (mark_verified_if_pending objects id cutoff verified_at etag db).1
    rejected_pending :
        (id : String) (cutoff : ℕ) (db : MediaDb)
        → MediaStep db (reject_if_pending objects id cutoff db).1
    marked_deleted :
        (id : String) (db : MediaDb) → MediaStep db (mark_deleted_if_rejected objects id db).1

  pub data MediaReach : MediaDb → MediaDb → Type 0 where
    at_start : (db : MediaDb) → MediaReach db db
    then_step : (u v w : MediaDb) → MediaReach u v → MediaStep v w → MediaReach u w

  claim_body-Changes :
      (media_id : String) (cutoff claimed_at : ℕ) (db : MediaDb)
      → Changes db (claim_body objects bindings media_id cutoff claimed_at db).1
  unfolding claim_body
  claim_body-Changes media_id cutoff claimed_at db =
      elim (Bool-cases (count (lock_where media_id cutoff) db.objects == 1)) [
        | inr none_locked ↦ rw none_locked (unchanged db)
        | inl one ↦
            rw one
              (elim (Option-cases
                (bindings.find_first (λ b. str_eq b.media_id media_id) db.bindings)) [
                  | inr (b, active) ↦ rw active (unchanged db)
                  | inl free ↦ rw free (
                      rw (expect_one_state _)
                        (claimed-Changes objects media_id cutoff claimed_at db))
                ])
      ]

  MediaStep-Changes : {u v : MediaDb} → MediaStep u v → Changes u v
  unfolding create_pending create_verified_blob assign_active_verified_blob
      commit_private_blob_binding claim_unbound_verified_blob_for_cleanup
      complete_claimed_blob_cleanup mark_verified_if_pending reject_if_pending
      mark_deleted_if_rejected
  MediaStep-Changes (pending_created now input db) =
      insert_object-Changes objects (pending_object now input) db
  MediaStep-Changes (verified_created now input db) =
      insert_object-Changes objects (verified_object now input) db
  MediaStep-Changes (assigned target resource_id media_id none db) =
      rw (as_race_state _) (insert_binding-Changes bindings (bind target resource_id media_id) db)
  MediaStep-Changes (assigned target resource_id media_id (some expected) db) =
      rw (changed_one_state _) (
        update_bindings-Changes bindings (bound_where target resource_id expected)
          (rebound media_id) db)
  MediaStep-Changes (committed i db) = rw (catch_conflict_state i _) (
      rw (committing.run_lem (commit_body bindings resources i) db)
        (settle_state db _ (commit_body-Changes bindings resources i db)))
  MediaStep-Changes (claim_tried media_id cutoff claimed_at db) =
      elim (Bool-cases (not (is_uuid media_id) || ltb claimed_at cutoff)) [
        | inl bad ↦ rw bad (unchanged db)
        | inr good ↦ rw good (
            rw
              (claiming.run_lem (claim_body objects bindings (uuid_of media_id) cutoff claimed_at)
                db)
              (settle_state db _ (claim_body-Changes (uuid_of media_id) cutoff claimed_at db)))
      ]
  MediaStep-Changes (completion_tried media_id etag claimed_at completed_at db) =
      elim (Bool-cases
        (not (is_uuid media_id) || not (is_strong_etag etag) || ltb completed_at claimed_at)) [
          | inl bad ↦ rw bad (unchanged db)
          | inr good ↦ rw good (
              rw (changed_one_state _) (
                update_objects-Changes objects
                  (complete_where (uuid_of media_id) etag claimed_at db.bindings)
                  (completed completed_at) db (λ o q. refl) (λ o. refl)
                  (λ o hit.
                    omega (arith, leaves o.status Status.gc_claimed (ground (arith, hit))))))
        ]
  MediaStep-Changes (marked_verified id cutoff verified_at etag db) = rw (changed_one_state _) (
      update_objects-Changes objects (settle_where id cutoff) (settled_verified verified_at etag) db
        (λ o q. refl) (λ o. refl)
        (λ o hit. omega (arith, leaves o.status Status.pending (ground (arith, hit)))))
  MediaStep-Changes (rejected_pending id cutoff db) = rw (changed_one_state _) (
      update_objects-Changes objects (settle_where id cutoff) settled_rejected db (λ o q. refl)
        (λ o. refl) (λ o hit. omega (arith, leaves o.status Status.pending (ground (arith, hit)))))
  MediaStep-Changes (marked_deleted id db) = rw (changed_one_state _) (
      update_objects-Changes objects (delete_where id) deleted_object db (λ o q. refl) (λ o. refl)
        (λ o hit. omega (arith, leaves o.status Status.rejected (ground (arith, hit)))))

  pub MediaReach-Changes : {u v : MediaDb} → MediaReach u v → Changes u v
  MediaReach-Changes (at_start db) = unchanged db
  MediaReach-Changes (then_step u v w r s) =
      Changes-append (MediaReach-Changes r) (MediaStep-Changes s)
