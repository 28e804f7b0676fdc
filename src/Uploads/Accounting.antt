-- ===== src/Uploads/Accounting.antt =====
-- What a cleanup of uploads counts, and what it leaves alone.
use swim_flow_api.Prelude.{
  ℕ, suc, ◌≡◌, ◌∙◌, refl, ap, false, ◌||◌, List, [], ◌∷◌, any, count, length, update_rows, IsIn,
  Outcome, ok, err, then_run, arith, Bool-cases, inl, inr, ◌≤◌, ◌<◌, ◌+◌, ltb, ◌==◌,
}
use swim_flow_api.Database.{Table, Listing}
use swim_flow_api.Media.Store.{
  Status, Provider, status_eq, provider_eq, MediaObject, MediaDb, same_object,
}
use swim_flow_api.Media.Objects.{
  reject_if_pending, mark_deleted_if_rejected, settle_where, settled_rejected, delete_where,
}
use swim_flow_api.Media.Effects.{with_objects}
use swim_flow_api.Media.Sound.{Sound}
use swim_flow_api.Media.Cleanup.{reject_if_pending_lem, mark_deleted_if_rejected_lem}
use swim_flow_api.Uploads.Storage.{StorageError, UploadStorage}
use swim_flow_api.Uploads.Cleanup.{
  Tally, CleanupSummary, CleanupError, settled_before, cleanup_where, list_cleanup_candidates,
  one_failed, marked, after_request, remove_upload, cleanup_one, cleanup_all, clean_listed,
  cleanup_uploads,
}
use swim_flow_api.Uploads.Progress.{
  is_deleted, is_unsettled, Progress, rest, follow, taken, reject-Progress, delete-Progress,
}

module _ {S : Type 0} (objects : Table MediaObject same_object) (storage : UploadStorage S) where
  marked-Progress :
      (o : MediaObject) (n : Tally) (db : MediaDb) (s : S)
      → Sound db
      → Progress 1 n
          (marked objects storage n s (mark_deleted_if_rejected objects o.id db)).0
          db
          (marked objects storage n s (mark_deleted_if_rejected objects o.id db)).1
  marked-Progress o n db s sound = elim (Bool-cases (any (delete_where o.id) db.objects)) [
    | inl hit ↦
        let done = mark_deleted_if_rejected_lem objects o.id db sound ∙ taken _ _ hit in
        rw done (delete-Progress objects o.id n db sound hit)
    | inr miss ↦
        let done : mark_deleted_if_rejected objects o.id db ≡ (ok false, db) =
          mark_deleted_if_rejected_lem objects o.id db sound ∙ rw miss refl in
        rw done (rest 1 n db sound)
  ]

  failed-Progress : (n : Tally) (db : MediaDb) → Sound db → Progress 1 n (one_failed n) db db
  failed-Progress n db sound = record {
    sound = sound;
    counted = refl;
    bounded = omega arith;
    kept = λ o m done. m;
  }

  remove-Progress :
      (o : MediaObject) (n : Tally) (db : MediaDb) (s : S)
      → Sound db
      → Progress 1 n
          (remove_upload objects storage o n db s).0
          db
          (remove_upload objects storage o n db s).1
  remove-Progress o n db s sound = go (storage.delete_object o.object_key s)
    where
      go :
          (x : Outcome StorageError Unit × S)
          → Progress 1 n
              (after_request objects storage o n db x).0
              db
              (after_request objects storage o n db x).1
      go (err e, r) = failed-Progress n db sound
      go (ok _, r) = marked-Progress o n db r sound

  -- A run of the loop over `k` candidates that has returned.
  abbrev Returned : ℕ → Tally → MediaDb → Outcome CleanupError Tally × (MediaDb × S) → Type 0
  Returned k n db x =
      (n' : Tally) × (state : MediaDb × S) × (x ≡ (ok n', state)) × Progress k n n' db state.0

  cleanup_one-Returned :
      (cutoff : ℕ) (o : MediaObject) (n : Tally) (db : MediaDb) (s : S)
      → Sound db
      → Returned 1 n db (cleanup_one objects storage cutoff o n db s)
  unfolding cleanup_one
  cleanup_one-Returned cutoff o n db s sound =
      elim (Bool-cases (provider_eq o.storage_provider Provider.r2)) [
        | inr other ↦ rw other (n, (db, s), refl, rest 1 n db sound)
        | inl upload ↦ elim (Bool-cases (status_eq o.status Status.pending)) [
          | inl waiting ↦ elim (Bool-cases (any (settle_where o.id cutoff) db.objects)) [
            | inl hit ↦
                let rejected = reject_if_pending_lem objects o.id cutoff db sound ∙ taken _ _ hit in
                let db' =
                  with_objects db
                    (update_rows (settle_where o.id cutoff) settled_rejected db.objects) in
                let first = reject-Progress objects o.id cutoff n db sound hit in
                let second = remove-Progress o n db' s first.sound in
                let n' = (remove_upload objects storage o n db' s).0 in
                let end = (remove_upload objects storage o n db' s).1 in
                (
                  n',
                  (end, (remove_upload objects storage o n db' s).2),
                  ground (arith, upload, waiting, rejected),
                  follow 0 1 1 n n n' db db' end (omega arith) first second,
                )
            | inr miss ↦
                let kept : reject_if_pending objects o.id cutoff db ≡ (ok false, db) =
                  reject_if_pending_lem objects o.id cutoff db sound ∙ rw miss refl in
                (n, (db, s), ground (arith, upload, waiting, kept), rest 1 n db sound)
          ]
          | inr settled ↦ elim (Bool-cases (status_eq o.status Status.rejected)) [
            | inl rejected ↦ (
              (remove_upload objects storage o n db s).0,
              (
                (remove_upload objects storage o n db s).1,
                (remove_upload objects storage o n db s).2,
              ),
              ground (arith, upload, settled, rejected),
              remove-Progress o n db s sound,
            )
            | inr done ↦ (n, (db, s), ground (arith, upload, settled, done), rest 1 n db sound)
          ]
        ]
      ]

  cleanup_all-Returned :
      (cutoff : ℕ) (os : List MediaObject) (n : Tally) (db : MediaDb) (s : S)
      → Sound db
      → Returned (length os) n db (cleanup_all objects storage cutoff os n db s)
  unfolding cleanup_all
  cleanup_all-Returned cutoff [] n db s sound = (n, (db, s), refl, rest 0 n db sound)
  cleanup_all-Returned cutoff (o ∷ os) n db s sound =
      let (n1, state1, e1, first) = cleanup_one-Returned cutoff o n db s sound in
      let (n2, state2, e2, later) =
        cleanup_all-Returned cutoff os n1 state1.0 state1.1 first.sound in
      (
        n2,
        state2,
        rw e1 e2,
        follow 1 (length os) (suc (length os)) n n1 n2 db state1.0 state2.0 (omega arith) first
            later,
      )

  -- A cleanup of sound tables with a limit from 1 to 50 returns; it has inspected no more uploads
  -- than the limit, and deleted and failed together are no more than inspected. As many objects
  -- have become deleted as it counts, the tables are sound, and every object that was verified,
  -- claimed or deleted is kept.
  pub cleanup_uploads_accounts :
      (listing : Listing MediaObject) (now limit : ℕ) (db : MediaDb) (s : S)
      → Sound db
      → 0 < limit
      → limit ≤ 50
      → (summary : CleanupSummary) × (db' : MediaDb) × (s' : S) × (cleanup_uploads objects storage
            listing now limit db s
          ≡ (ok summary, (db', s')))
        × (summary.inspected ≤ limit)
        × (summary.tally.deleted + summary.tally.failed ≤ summary.inspected)
        × (count is_deleted db'.objects ≡ count is_deleted db.objects + summary.tally.deleted)
        × Sound db'
        × ((o : MediaObject) → IsIn o db.objects → is_unsettled o ≡ false → IsIn o db'.objects)
  unfolding cleanup_uploads
  cleanup_uploads_accounts listing now limit db s sound some_limit few =
      let cutoff = settled_before now in
      let candidates = listing.find_many (cleanup_where cutoff) limit db.objects in
      let none_yet : Tally = record { deleted = 0; failed = 0 } in
      let (n, state, returned, progress) =
        cleanup_all-Returned cutoff candidates none_yet db s sound in
      let admitted : (limit == 0 || ltb 50 limit) ≡ false = ground (arith, some_limit, few) in
      let listed : list_cleanup_candidates listing cutoff limit db ≡ ok candidates =
        ground (arith, admitted) in
      let run =
        ap (clean_listed objects storage cutoff db s) listed ∙ ap (finish candidates) returned in
      (
        record { inspected = length candidates; tally = n },
        state.0,
        state.1,
        run,
        listing.find_many_few (cleanup_where cutoff) limit db.objects,
        omega (arith, progress.bounded),
        omega (arith, progress.counted),
        progress.sound,
        progress.kept,
      )
    where
      finish :
          List MediaObject
          → Outcome CleanupError Tally × (MediaDb × S)
          → Outcome CleanupError CleanupSummary × (MediaDb × S)
      finish candidates x =
          then_run x (λ n state. (ok (record { inspected = length candidates; tally = n }), state))
