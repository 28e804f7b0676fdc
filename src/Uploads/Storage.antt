-- ===== src/Uploads/Storage.antt =====
-- PrivateBlobStorageRepository
-- (src/domain/uploads/application/repositories/private-blob-storage-repository.ts), and
-- deleteObject of PrivateMediaStorageRepository, the ports of third parties' object storages. Its state includes what the network will do.
use swim_flow_api.Prelude.{String, ◌≡◌, ◌≢◌, Option, none, Outcome, ok}

-- The fields that the use cases read.
pub record StoredBlob : Type 0 where
  pub pathname : String
  pub etag : String

-- A call that the storage did not answer.
pub data StorageError : Type 0 where
  unreachable : StorageError

-- `held` is what is stored; it is not an operation. A `delete` whose answer is lost may have removed
-- the bytes of its path.
pub record BlobStorage (S : Type 0) : Type 0 where
  pub stat : String → S → Outcome StorageError (Option StoredBlob) × S
  pub delete : String → String → S → Outcome StorageError Unit × S
  pub held : String → S → Option StoredBlob
  pub stat_answer :
      (path : String) (s s' : S) (b : Option StoredBlob)
      → stat path s ≡ (ok b, s')
      → b ≡ held path s
  pub stat_keeps : (path p : String) (s : S) → held p (stat path s).1 ≡ held p s
  pub delete_done :
      (path etag : String) (s s' : S) → delete path etag s ≡ (ok tt, s') → held path s' ≡ none
  pub delete_only :
      (path etag p : String) (s : S) → p ≢ path → held p (delete path etag s).1 ≡ held p s

-- The storage of signed uploads, as far as the cleanup calls it.
pub record UploadStorage (S : Type 0) : Type 0 where
  pub delete_object : String → S → Outcome StorageError Unit × S
