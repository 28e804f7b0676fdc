-- ===== src/Uploads/Absence.antt =====
-- What the removal of the bytes of a claimed image leaves in the storage.
use swim_flow_api.Prelude.{
  String, ◌≡◌, ◌≢◌, ◌∙◌, refl, sym, ap, true, Option, none, some, Outcome, ok, err, str_eq, eq_iff,
  arith, Bool-cases, inl, inr,
}
use swim_flow_api.Uploads.Storage.{StoredBlob, StorageError, BlobStorage}
use swim_flow_api.Uploads.Reconcile.{confirm, after_delete, after_stat, remove_bytes}

module _ {S : Type 0} (storage : BlobStorage S) where
  confirm_absent :
      (path : String) (s s' : S) (x : Outcome StorageError (Option StoredBlob) × S)
      → storage.stat path s ≡ x
      → confirm storage x ≡ (ok tt, s')
      → storage.held path s' ≡ none
  confirm_absent path s s' (err e, r) look h = absurd (ground arith)
  confirm_absent path s s' (ok (some b), r) look h = absurd (ground arith)
  confirm_absent path s s' (ok none, r) look h =
      let final : r ≡ s' = ground arith in
      let kept : storage.held path r ≡ storage.held path s =
        rw look at (storage.stat_keeps path path s) in
      rw (← final) (kept ∙ sym (storage.stat_answer path s r none look))

  pub removed :
      (path etag : String) (s s' : S)
      → remove_bytes storage path etag s ≡ (ok tt, s')
      → storage.held path s' ≡ none
  unfolding remove_bytes
  removed path etag s s' h = stage (storage.stat path s) h
    where
      deleted :
          (x : Outcome StorageError Unit × S)
          → after_delete storage path x ≡ (ok tt, s')
          → storage.held path s' ≡ none
      deleted (err e, r) k = absurd (ground arith)
      deleted (ok _, r) k = confirm_absent path r s' (storage.stat path r) refl k

      stage :
          (x : Outcome StorageError (Option StoredBlob) × S)
          → after_stat storage path etag x ≡ (ok tt, s')
          → storage.held path s' ≡ none
      stage (err e, r) k = absurd (ground arith)
      stage (ok none, r) k = confirm_absent path r s' (storage.stat path r) refl k
      stage (ok (some b), r) k = elim (Bool-cases (str_eq b.etag etag)) [
        | inl same ↦ deleted (storage.delete path etag r) (ground (arith, same, k))
        | inr other ↦ absurd (ground (arith, other, k))
      ]

  confirm_state : (x : Outcome StorageError (Option StoredBlob) × S) → (confirm storage x).1 ≡ x.1
  confirm_state (err e, s) = refl
  confirm_state (ok none, s) = refl
  confirm_state (ok (some b), s) = refl

  -- Only the bytes of the path change.
  pub removed_only :
      (path etag p : String) (s : S)
      → p ≢ path
      → storage.held p (remove_bytes storage path etag s).1 ≡ storage.held p s
  unfolding remove_bytes
  removed_only path etag p s other = stage (storage.stat path s) ∙ storage.stat_keeps path p s
    where
      looked : (r : S) → storage.held p (confirm storage (storage.stat path r)).1 ≡ storage.held p r
      looked r =
          ap (storage.held p) (confirm_state (storage.stat path r)) ∙ storage.stat_keeps path p r

      deleted :
          (x : Outcome StorageError Unit × S)
          → storage.held p (after_delete storage path x).1 ≡ storage.held p x.1
      deleted (err e, r) = refl
      deleted (ok _, r) = looked r

      stage :
          (x : Outcome StorageError (Option StoredBlob) × S)
          → storage.held p (after_stat storage path etag x).1 ≡ storage.held p x.1
      stage (err e, r) = refl
      stage (ok none, r) = looked r
      stage (ok (some b), r) = elim (Bool-cases (str_eq b.etag etag)) [
        | inl same ↦
            rw same (deleted (storage.delete path etag r) ∙ storage.delete_only path etag p r other)
        | inr differs ↦ rw differs refl
      ]

  -- Where every call is answered, bytes of the claimed ETag are removed.
  pub removes :
      (path etag : String) (s : S)
      → ((p : String) (r : S) → (storage.stat p r).0 ≡ ok (storage.held p r))
      → ((p e : String) (r : S)
          → ((b : StoredBlob) → storage.held p r ≡ some b → b.etag ≡ e)
          → (storage.delete p e r).0 ≡ ok tt)
      → ((b : StoredBlob) → storage.held path s ≡ some b → b.etag ≡ etag)
      → (remove_bytes storage path etag s).0 ≡ ok tt
  unfolding remove_bytes
  removes path etag s stats deletes recorded = stage (storage.stat path s) refl (stats path s)
    where
      absent :
          (r : S) (x : Outcome StorageError (Option StoredBlob) × S)
          → storage.held path r ≡ none
          → x.0 ≡ ok (storage.held path r)
          → (confirm storage x).0 ≡ ok tt
      absent r (err e, q) gone answered = absurd (ground arith)
      absent r (ok none, q) gone answered = refl
      absent r (ok (some b), q) gone answered = absurd (ground (arith, gone, answered))

      after :
          (r : S) → storage.held path r ≡ none → (confirm storage (storage.stat path r)).0 ≡ ok tt
      after r gone = absent r (storage.stat path r) gone (stats path r)

      deleted :
          (r : S) (x : Outcome StorageError Unit × S)
          → storage.delete path etag r ≡ x
          → x.0 ≡ ok tt
          → (after_delete storage path x).0 ≡ ok tt
      deleted r (err e, q) call answered = absurd (ground arith)
      deleted r (ok _, q) call answered = after q (storage.delete_done path etag r q call)

      stage :
          (x : Outcome StorageError (Option StoredBlob) × S)
          → storage.stat path s ≡ x
          → x.0 ≡ ok (storage.held path s)
          → (after_stat storage path etag x).0 ≡ ok tt
      stage (err e, r) look answered = absurd (ground arith)
      stage (ok none, r) look answered =
          let kept : storage.held path r ≡ storage.held path s =
            rw look at (storage.stat_keeps path path s) in
          let empty : none ≡ storage.held path s = ground (arith, answered) in
          after r (kept ∙ sym empty)
      stage (ok (some b), r) look answered =
          let there : storage.held path s ≡ some b = ground (arith, answered) in
          let same : str_eq b.etag etag ≡ true = (eq_iff b.etag etag).1 (recorded b there) in
          let kept : storage.held path r ≡ storage.held path s =
            rw look at (storage.stat_keeps path path s) in
          let answer = deletes path etag r (λ c held. recorded c (sym kept ∙ held)) in
          rw same (deleted r (storage.delete path etag r) refl answer)
