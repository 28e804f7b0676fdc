-- ===== src/Uploads/Cleanup.antt =====
-- CleanupPrivateMediaUploadsUseCase
-- (src/domain/uploads/application/use-cases/cleanup-private-media-uploads.ts), settledBefore
-- (services/private-media-settlement-policy.ts) and listCleanupCandidates of
-- PrismaPrivateMediaObjectsRepository. `now` is two minutes after the epoch or later.
use swim_flow_api.Prelude.{
  ℕ, suc, ◌-◌, Bool, not, ◌&&◌, ◌||◌, true, false, List, [], ◌∷◌, length, Outcome, ok, err,
  then_run, ltb, ◌==◌, if◌then◌else◌,
}
use swim_flow_api.Database.{Table, Listing}
use swim_flow_api.Media.Store.{
  Status, Provider, status_eq, provider_eq, opt_le, MediaObject, MediaDb, MediaError, same_object,
}
use swim_flow_api.Media.Objects.{reject_if_pending, mark_deleted_if_rejected}
use swim_flow_api.Uploads.Storage.{StorageError, UploadStorage}

pub record Tally : Type 0 where
  pub deleted : ℕ
  pub failed : ℕ

pub record CleanupSummary : Type 0 where
  pub inspected : ℕ
  pub tally : Tally

pub data CleanupError : Type 0 where
  invalid_limit : CleanupError
  repository : MediaError → CleanupError

abbrev pub settled_before : ℕ → ℕ
settled_before now = now - 120000

abbrev pub cleanup_where : ℕ → MediaObject → Bool
cleanup_where cutoff o =
    (status_eq o.status Status.pending || status_eq o.status Status.rejected)
    && provider_eq o.storage_provider Provider.r2
    && opt_le o.ticket_expires_at cutoff

-- listCleanupCandidates
abbrev pub list_cleanup_candidates :
    Listing MediaObject → ℕ → ℕ → MediaDb → Outcome CleanupError (List MediaObject)
list_cleanup_candidates listing cutoff limit db =
    if limit == 0 || ltb 50 limit
    then err invalid_limit
    else ok (listing.find_many (cleanup_where cutoff) limit db.objects)

abbrev pub one_failed : Tally → Tally
one_failed n = record n { failed = suc n.failed }

abbrev pub one_deleted : Tally → Tally
one_deleted n = record n { deleted = suc n.deleted }

module _ {S : Type 0} (objects : Table MediaObject same_object) (storage : UploadStorage S) where
  -- The end of the `try` block: an error of the database counts as a failure.
  abbrev pub marked : Tally → S → Outcome MediaError Bool × MediaDb → Tally × MediaDb × S
  marked n s (err e, db) = (one_failed n, db, s)
  marked n s (ok true, db) = (one_deleted n, db, s)
  marked n s (ok false, db) = (n, db, s)

  abbrev pub after_request :
      MediaObject → Tally → MediaDb → Outcome StorageError Unit × S → Tally × MediaDb × S
  after_request o n db (err e, s) = (one_failed n, db, s)
  after_request o n db (ok _, s) = marked n s (mark_deleted_if_rejected objects o.id db)

  abbrev pub remove_upload : MediaObject → Tally → MediaDb → S → Tally × MediaDb × S
  remove_upload o n db s = after_request o n db (storage.delete_object o.object_key s)

  -- A pending upload is removed only if it could be rejected.
  abbrev pub after_reject :
      MediaObject
      → Tally
      → S
      → Outcome MediaError Bool × MediaDb
      → Outcome CleanupError Tally × (MediaDb × S)
  after_reject o n s (err e, db) = (err (repository e), (db, s))
  after_reject o n s (ok false, db) = (ok n, (db, s))
  after_reject o n s (ok true, db) =
      let (n', db', s') = remove_upload o n db s in (ok n', (db', s'))

  unfoldable pub cleanup_one :
      ℕ → MediaObject → Tally → MediaDb → S → Outcome CleanupError Tally × (MediaDb × S)
  cleanup_one cutoff o n db s =
      if not (provider_eq o.storage_provider Provider.r2)
      then (ok n, (db, s))
      else if status_eq o.status Status.pending
      then after_reject o n s (reject_if_pending objects o.id cutoff db)
      else if not (status_eq o.status Status.rejected)
      then (ok n, (db, s))
      else (let (n', db', s') = remove_upload o n db s in (ok n', (db', s')))

  unfoldable pub cleanup_all :
      ℕ → List MediaObject → Tally → MediaDb → S → Outcome CleanupError Tally × (MediaDb × S)
  cleanup_all cutoff [] n db s = (ok n, (db, s))
  cleanup_all cutoff (o ∷ os) n db s =
      then_run (cleanup_one cutoff o n db s) (λ n state. cleanup_all cutoff os n state.0 state.1)

  -- The loop on the candidates, and the summary.
  abbrev pub clean_listed :
      ℕ
      → MediaDb
      → S
      → Outcome CleanupError (List MediaObject)
      → Outcome CleanupError CleanupSummary × (MediaDb × S)
  clean_listed cutoff db s (err e) = (err e, (db, s))
  clean_listed cutoff db s (ok candidates) =
      then_run (cleanup_all cutoff candidates (record { deleted = 0; failed = 0 }) db s)
        (λ n state. (ok (record { inspected = length candidates; tally = n }), state))

  -- execute
  unfoldable pub cleanup_uploads :
      Listing MediaObject
      → (now limit : ℕ) → MediaDb
      → S
      → Outcome CleanupError CleanupSummary × (MediaDb × S)
  cleanup_uploads listing now limit db s =
      clean_listed (settled_before now) db s
        (list_cleanup_candidates listing (settled_before now) limit db)
