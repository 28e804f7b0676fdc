-- ===== src/Media/Objects.antt =====
-- The lifecycle of an object: PrismaPrivateMediaObjectsRepository, the operations on
-- private_media_objects. Dates are finite, so the tests for that always pass. An id that a caller may
-- write in upper case is compared as the UUID that PostgreSQL reads (uuid_of).
use swim_flow_api.Prelude.{
  ℕ, zero, suc, String, Bool, true, false, not, ◌&&◌, ◌||◌, Option, none, some, List, [], ◌∷◌,
  Outcome, ok, err, leb, ltb, ◌==◌, is_none, is_some, opt_eq, str_eq, codes, any, count, uuid_of,
  if◌then◌else◌,
}
use swim_flow_api.Database.{Table, Transactions}
use swim_flow_api.Media.Keys.{matches_classes}
use swim_flow_api.Media.Store.{
  Target, Status, Provider, status_eq, provider_eq, MediaObject, Binding, MediaDb, MediaError,
  invalid_cleanup_claim, cleanup_claim_concurrency, invalid_cleanup_completion, same_object,
  same_binding, is_strong_etag, opt_le, opt_is,
}
use swim_flow_api.Media.Statements.{insert_object, update_objects, changed_one}

pub record PendingInput : Type 0 where
  pub id : String
  pub object_key : String
  pub target : Target
  pub resource_id : String
  pub uploaded_by_id : String
  pub declared_content_type : String
  pub declared_size_bytes : ℕ
  pub ticket_expires_at : ℕ

pub record VerifiedInput : Type 0 where
  pub id : String
  pub object_key : String
  pub target : Target
  pub resource_id : String
  pub uploaded_by_id : String
  pub declared_content_type : String
  pub declared_size_bytes : ℕ
  pub verified_at : ℕ
  pub verified_etag : String

abbrev pub pending_object : ℕ → PendingInput → MediaObject
pending_object now i = record {
  id = i.id;
  object_key = i.object_key;
  target = i.target;
  resource_id = i.resource_id;
  uploaded_by_id = i.uploaded_by_id;
  declared_content_type = i.declared_content_type;
  declared_size_bytes = i.declared_size_bytes;
  status = Status.pending;
  storage_provider = Provider.r2;
  ticket_expires_at = some i.ticket_expires_at;
  verified_at = none;
  verified_etag = none;
  cleanup_claimed_at = none;
  cleanup_completed_at = none;
  created_at = now;
}

abbrev pub verified_object : ℕ → VerifiedInput → MediaObject
verified_object now i = record {
  id = i.id;
  object_key = i.object_key;
  target = i.target;
  resource_id = i.resource_id;
  uploaded_by_id = i.uploaded_by_id;
  declared_content_type = i.declared_content_type;
  declared_size_bytes = i.declared_size_bytes;
  status = Status.verified;
  storage_provider = Provider.blob;
  ticket_expires_at = none;
  verified_at = some i.verified_at;
  verified_etag = some i.verified_etag;
  cleanup_claimed_at = none;
  cleanup_completed_at = none;
  created_at = now;
}

abbrev pub is_hex : ℕ → Bool
is_hex c = (leb b'0' c && leb c b'9') || (leb b'A' c && leb c b'F') || (leb b'a' c && leb c b'f')

abbrev pub is_dash : ℕ → Bool
is_dash c = c == b'-'

abbrev pub is_version : ℕ → Bool
is_version c = leb b'1' c && leb c b'8'

abbrev pub is_variant : ℕ → Bool
is_variant c = c == b'8' || c == b'9' || c == b'A' || c == b'B' || c == b'a' || c == b'b'

abbrev pub hex_times : ℕ → List (ℕ → Bool) → List (ℕ → Bool)
hex_times zero rest = rest
hex_times (suc n) rest = is_hex ∷ hex_times n rest

-- /^[0-9a-f]{8}-[0-9a-f]{4}-[1-8][0-9a-f]{3}-[89ab][0-9a-f]{3}-[0-9a-f]{12}$/i
abbrev pub uuid_classes : List (ℕ → Bool)
uuid_classes = hex_times 8 (
    is_dash
    ∷ hex_times 4 (
        is_dash
        ∷ is_version
        ∷ hex_times 3 (is_dash ∷ is_variant ∷ hex_times 3 (is_dash ∷ hex_times 12 []))))

unfoldable pub is_uuid : String → Bool
is_uuid s = matches_classes uuid_classes (codes s)

-- The condition of the update that claims an object.
abbrev pub claim_where : String → ℕ → MediaObject → Bool
claim_where media_id cutoff o =
    str_eq o.id media_id
    && provider_eq o.storage_provider Provider.blob
    && status_eq o.status Status.verified
    && is_none o.ticket_expires_at
    && is_none o.cleanup_claimed_at
    && leb o.created_at cutoff
    && opt_le o.verified_at cutoff

-- The condition of the query that locks it.
abbrev pub lock_where : String → ℕ → MediaObject → Bool
lock_where media_id cutoff o = claim_where media_id cutoff o && is_some o.verified_etag

abbrev pub claimed : ℕ → MediaObject → MediaObject
claimed claimed_at o = record o { status = Status.gc_claimed; cleanup_claimed_at = some claimed_at }

abbrev pub complete_where : String → String → ℕ → List Binding → MediaObject → Bool
complete_where media_id etag claimed_at bindings o =
    str_eq o.id media_id
    && provider_eq o.storage_provider Provider.blob
    && status_eq o.status Status.gc_claimed
    && opt_is o.cleanup_claimed_at claimed_at
    && is_none o.cleanup_completed_at
    && is_none o.ticket_expires_at
    && opt_eq o.verified_etag (some etag)
    && not (any (λ b. str_eq b.media_id o.id) bindings)

abbrev pub completed : ℕ → MediaObject → MediaObject
completed completed_at o = record o {
  status = Status.deleted;
  cleanup_completed_at = some completed_at;
}

-- A pending upload whose ticket has expired.
abbrev pub settle_where : String → ℕ → MediaObject → Bool
settle_where id cutoff o =
    str_eq o.id id
    && status_eq o.status Status.pending
    && provider_eq o.storage_provider Provider.r2
    && opt_le o.ticket_expires_at cutoff

abbrev pub settled_verified : ℕ → String → MediaObject → MediaObject
settled_verified verified_at etag o = record o {
  status = Status.verified;
  verified_at = some verified_at;
  verified_etag = some etag;
}

abbrev pub settled_rejected : MediaObject → MediaObject
settled_rejected o = record o { status = Status.rejected }

abbrev pub delete_where : String → MediaObject → Bool
delete_where id o =
    str_eq o.id id
    && status_eq o.status Status.rejected
    && provider_eq o.storage_provider Provider.r2

abbrev pub deleted_object : MediaObject → MediaObject
deleted_object o = record o { status = Status.deleted }

-- The end of a claim: any count but one throws.
abbrev pub expect_one : Outcome MediaError ℕ × MediaDb → Outcome MediaError Bool × MediaDb
expect_one (ok n, db) = if n == 1 then (ok true, db) else (err cleanup_claim_concurrency, db)
expect_one (err e, db) = (err e, db)

module _ (objects : Table MediaObject same_object) where
  -- createPending at the time `now`
  unfoldable pub create_pending : ℕ → PendingInput → MediaDb → Outcome MediaError Unit × MediaDb
  create_pending now input = insert_object objects (pending_object now input)

  -- createVerifiedBlob
  unfoldable pub create_verified_blob :
      ℕ → VerifiedInput → MediaDb → Outcome MediaError Unit × MediaDb
  create_verified_blob now input = insert_object objects (verified_object now input)

  -- findById
  unfoldable pub find_by_id : String → MediaDb → Option MediaObject
  find_by_id id db = objects.find_first (λ o. str_eq o.id (uuid_of id)) db.objects

  unfoldable pub claim_body :
      Table Binding same_binding → String → ℕ → ℕ → MediaDb → Outcome MediaError Bool × MediaDb
  claim_body bindings media_id cutoff claimed_at db =
      if count (lock_where media_id cutoff) db.objects == 1
      then elim (bindings.find_first (λ b. str_eq b.media_id media_id) db.bindings) [
        | some active ↦ (ok false, db)
        | none ↦
            expect_one
              (update_objects objects (claim_where media_id cutoff) (claimed claimed_at) db)
      ]
      else (ok false, db)

  -- claimUnboundVerifiedBlobForCleanup
  unfoldable pub claim_unbound_verified_blob_for_cleanup :
      Table Binding same_binding
      → Transactions MediaError Bool MediaDb
      → String
      → ℕ
      → ℕ
      → MediaDb
      → Outcome MediaError Bool × MediaDb
  claim_unbound_verified_blob_for_cleanup bindings tx media_id cutoff claimed_at db =
      if not (is_uuid media_id) || ltb claimed_at cutoff
      then (err invalid_cleanup_claim, db)
      else tx.run (claim_body bindings (uuid_of media_id) cutoff claimed_at) db

  -- completeClaimedBlobCleanup
  unfoldable pub complete_claimed_blob_cleanup :
      String → String → ℕ → ℕ → MediaDb → Outcome MediaError Bool × MediaDb
  complete_claimed_blob_cleanup media_id etag claimed_at completed_at db =
      if not (is_uuid media_id) || not (is_strong_etag etag) || ltb completed_at claimed_at
      then (err invalid_cleanup_completion, db)
      else changed_one (
          update_objects objects (complete_where (uuid_of media_id) etag claimed_at db.bindings)
            (completed completed_at) db)

  -- markVerifiedIfPending
  unfoldable pub mark_verified_if_pending :
      String → ℕ → ℕ → String → MediaDb → Outcome MediaError Bool × MediaDb
  mark_verified_if_pending id cutoff verified_at verified_etag db = changed_one (
      update_objects objects (settle_where id cutoff) (settled_verified verified_at verified_etag)
        db)

  -- rejectIfPending
  unfoldable pub reject_if_pending : String → ℕ → MediaDb → Outcome MediaError Bool × MediaDb
  reject_if_pending id cutoff db =
      changed_one (update_objects objects (settle_where id cutoff) settled_rejected db)

  -- markDeletedIfRejected
  unfoldable pub mark_deleted_if_rejected : String → MediaDb → Outcome MediaError Bool × MediaDb
  mark_deleted_if_rejected id db =
      changed_one (update_objects objects (delete_where id) deleted_object db)
