-- ===== src/Uploads/Reconcile.antt =====
-- ReconcileClaimedPrivateBlobImageUseCase
-- (src/domain/uploads/application/use-cases/reconcile-claimed-private-blob-image.ts). `now` is a
-- finite date.
use swim_flow_api.Prelude.{
  ℕ, String, Bool, true, false, not, ◌&&◌, ◌||◌, Option, none, some, Outcome, ok, err, str_eq,
  opt_eq, is_none, is_some, ltb, if◌then◌else◌,
}
use swim_flow_api.Database.{Table}
use swim_flow_api.Media.Store.{
  Status, Provider, status_eq, provider_eq, opt_is, MediaObject, MediaDb, MediaError, same_object,
  is_strong_etag,
}
use swim_flow_api.Media.Objects.{is_uuid, find_by_id, complete_claimed_blob_cleanup}
use swim_flow_api.Uploads.Storage.{StoredBlob, StorageError, BlobStorage}

pub data ReconcileStatus : Type 0 where
  not_eligible already_completed finished : ReconcileStatus

pub data ReconcileError : Type 0 where
  invalid_reconciliation invalid_state etag_conflict not_confirmed finalization_race :
      ReconcileError
  no_answer : StorageError → ReconcileError
  repository : MediaError → ReconcileError

abbrev pub Reconciled : Type 0 → Type 0
Reconciled S = Outcome ReconcileError ReconcileStatus × MediaDb × S

module _ {S : Type 0} (storage : BlobStorage S) where
  -- The second stat, which must find nothing.
  abbrev pub confirm :
      Outcome StorageError (Option StoredBlob) × S → Outcome ReconcileError Unit × S
  confirm (err e, s) = (err (no_answer e), s)
  confirm (ok none, s) = (ok tt, s)
  confirm (ok (some b), s) = (err not_confirmed, s)

  abbrev pub after_delete : String → Outcome StorageError Unit × S → Outcome ReconcileError Unit × S
  after_delete path (err e, s) = (err (no_answer e), s)
  after_delete path (ok _, s) = confirm (storage.stat path s)

  abbrev pub after_stat :
      String
      → String
      → Outcome StorageError (Option StoredBlob) × S
      → Outcome ReconcileError Unit × S
  after_stat path etag (err e, s) = (err (no_answer e), s)
  after_stat path etag (ok none, s) = confirm (storage.stat path s)
  after_stat path etag (ok (some b), s) =
      if not (str_eq b.etag etag)
      then (err etag_conflict, s)
      else after_delete path (storage.delete path etag s)

  -- The bytes of a claimed image are removed, and their absence is confirmed.
  unfoldable pub remove_bytes : String → String → S → Outcome ReconcileError Unit × S
  remove_bytes path etag s = after_stat path etag (storage.stat path s)

-- Whether a racing run has completed the same claim.
abbrev pub is_completed : String → ℕ → Option MediaObject → Bool
is_completed etag claimed_at none = false
is_completed etag claimed_at (some o) =
    provider_eq o.storage_provider Provider.blob
    && status_eq o.status Status.deleted
    && opt_eq o.verified_etag (some etag)
    && opt_is o.cleanup_claimed_at claimed_at
    && is_some o.cleanup_completed_at

module _ (objects : Table MediaObject same_object) where
  -- The record is read again by the same id.
  abbrev pub finalized :
      String
      → String
      → ℕ
      → Outcome MediaError Bool × MediaDb
      → Outcome ReconcileError ReconcileStatus × MediaDb
  finalized id etag claimed_at (err e, db) = (err (repository e), db)
  finalized id etag claimed_at (ok true, db) = (ok finished, db)
  finalized id etag claimed_at (ok false, db) =
      if is_completed etag claimed_at (find_by_id objects id db)
      then (ok already_completed, db)
      else (err finalization_race, db)

  unfoldable pub finalize :
      String → String → ℕ → ℕ → MediaDb → Outcome ReconcileError ReconcileStatus × MediaDb
  finalize id etag claimed_at now db =
      finalized id etag claimed_at (complete_claimed_blob_cleanup objects id etag claimed_at now db)

module _ {S : Type 0} (objects : Table MediaObject same_object) (storage : BlobStorage S) where
  abbrev pub after_removal :
      String → String → ℕ → ℕ → MediaDb → Outcome ReconcileError Unit × S → Reconciled S
  after_removal id etag claimed_at now db (err e, s) = (err e, db, s)
  after_removal id etag claimed_at now db (ok _, s) =
      let (answer, db') = finalize objects id etag claimed_at now db in (answer, db', s)

  -- A record whose image is a blob with a strong ETag.
  abbrev pub reconcile_claim : MediaObject → String → Option ℕ → ℕ → MediaDb → S → Reconciled S
  reconcile_claim r etag none now db s = (ok not_eligible, db, s)
  reconcile_claim r etag (some claimed_at) now db s =
      if not (status_eq r.status Status.gc_claimed)
        || is_some r.cleanup_completed_at
        || ltb now claimed_at
      then (ok not_eligible, db, s)
      else after_removal r.id etag claimed_at now db (remove_bytes storage r.object_key etag s)

  abbrev pub reconcile_blob : MediaObject → Option String → ℕ → MediaDb → S → Reconciled S
  reconcile_blob r none now db s = (ok not_eligible, db, s)
  reconcile_blob r (some etag) now db s =
      if not (provider_eq r.storage_provider Provider.blob) || not (is_strong_etag etag)
      then (ok not_eligible, db, s)
      else if status_eq r.status Status.deleted
      then (if is_none r.cleanup_completed_at
          then (err invalid_state, db, s)
          else (ok already_completed, db, s))
      else reconcile_claim r etag r.cleanup_claimed_at now db s

  -- execute
  unfoldable pub reconcile : String → ℕ → MediaDb → S → Reconciled S
  reconcile media_id now db s =
      if not (is_uuid media_id)
      then (err invalid_reconciliation, db, s)
      else elim (find_by_id objects media_id db) [
        | none ↦ (ok not_eligible, db, s)
        | some r ↦ reconcile_blob r r.verified_etag now db s
      ]
