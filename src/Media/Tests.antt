-- ===== src/Media/Tests.antt =====
-- The private media at concrete tables.
use Prim.Native.String
use swim_flow_api.Prelude.{
  uuid_of, lower_digit, String, ◌≡◌, ◌≢◌, refl, Bool, true, false, none, some, [], ◌∷◌, ok, arith,
  eq_iff, HasUnique,
}
use swim_flow_api.Database.{Table, Transactions, list_table, plain_transactions}
use swim_flow_api.Media.Store.{
  Target, Status, Provider, MediaObject, Binding, Resource, MediaDb, MediaError, same_object,
  same_binding, same_resource, passes_checks, lifecycle_chk, verified_etag_chk, is_strong_etag,
}
use swim_flow_api.Media.Keys.{upload_chk, key_chk}
use swim_flow_api.Media.Statements.{update_objects, update_bindings}
use swim_flow_api.Media.Objects.{
  claimed, completed, deleted_object, settled_verified, settled_rejected,
  claim_unbound_verified_blob_for_cleanup, complete_claimed_blob_cleanup, claim_body, is_uuid,
  mark_verified_if_pending, reject_if_pending, mark_deleted_if_rejected,
}
use swim_flow_api.Media.Bindings.{
  CommitInput, assign_active_verified_blob, commit_private_blob_binding, commit_body, swap_binding,
  find_active_media_id,
}
use swim_flow_api.Media.Cleanup.{is_bound}
use swim_flow_api.Media.Columns.{Claimable, Completable, Settleable, Deletable}
use swim_flow_api.Media.Decided.{Decides}
use swim_flow_api.Media.Exact.{claim_exact, complete_exact, settlement_exact}
use swim_flow_api.Media.Reclaim.{MediaReach-Reached, claimed_never_active}
use swim_flow_api.Media.Slots.{Swapped}
use swim_flow_api.Media.Commit.{assign_swaps, Committed, commit_swaps}
use swim_flow_api.Media.Sound.{Sound}
use swim_flow_api.Media.Changes.{Reached}
use swim_flow_api.Media.Trace.{MediaReach, then_step, at_start, completion_tried}

abbrev objects : Table MediaObject same_object
objects = list_table same_object

abbrev bindings : Table Binding same_binding
bindings = list_table same_binding

abbrev resources : Table Resource same_resource
resources = list_table same_resource

abbrev claiming : Transactions MediaError Bool MediaDb
claiming = plain_transactions

abbrev committing : Transactions MediaError Unit MediaDb
committing = plain_transactions

abbrev old_id : String
old_id = "0a1b2c3d-0000-4000-8000-00000000000a"

abbrev new_id : String
new_id = "0a1b2c3d-0000-4000-8000-00000000000b"

abbrev private_key : String → String
private_key file =
    String.◌++◌ "private/students/0a1b2c3d-0000-4000-8000-0000000000aa/" (String.◌++◌ file ".jpg")

abbrev blob_of : String → String → MediaObject
blob_of id key = record {
  id = id;
  object_key = private_key key;
  target = Target.student_photo;
  resource_id = "s1";
  uploaded_by_id = "p1";
  declared_content_type = "image/jpeg";
  declared_size_bytes = 100;
  status = Status.verified;
  storage_provider = Provider.blob;
  ticket_expires_at = none;
  verified_at = some 5;
  verified_etag = some "\"a1\"";
  cleanup_claimed_at = none;
  cleanup_completed_at = none;
  created_at = 5;
}

abbrev shown : Binding
shown = record { target = Target.student_photo; resource_id = "s1"; media_id = old_id }

abbrev ana : Resource
ana = record { id = "s1"; photo = some "http://old" }

abbrev upload_id : String
upload_id = "0a1b2c3d-0000-4000-8000-00000000000c"

-- An upload that waits for its settlement.
abbrev upload : MediaObject
upload = record (blob_of upload_id upload_id) {
  status = Status.pending;
  storage_provider = Provider.r2;
  ticket_expires_at = some 7;
  verified_at = none;
  verified_etag = none;
}

-- Two verified images of one student, the first of them active, and an upload.
abbrev start : MediaDb
start = record {
  objects = blob_of old_id old_id ∷ blob_of new_id new_id ∷ upload ∷ [];
  bindings = shown ∷ [];
  students = ana ∷ [];
  teachers = [];
  parents = [];
  profiles = record { id = "p1"; photo = none } ∷ [];
}

abbrev after_claim : MediaDb
after_claim = record start {
  objects = blob_of old_id old_id ∷ claimed 9 (blob_of new_id new_id) ∷ upload ∷ [];
}

distinct : HasUnique (λ id. id) (old_id ∷ new_id ∷ upload_id ∷ [])
distinct = (
  (
    (λ e. absurd (ground (arith, eq_iff new_id old_id))),
    ((λ e. absurd (ground (arith, eq_iff upload_id old_id))), tt),
  ),
  (((λ e. absurd (ground (arith, eq_iff upload_id new_id))), tt), (tt, tt)),
)

start-Sound : Sound start
unfolding passes_checks lifecycle_chk verified_etag_chk is_strong_etag upload_chk key_chk
start-Sound = record {
  ids = distinct;
  checked = (refl, (refl, (refl, tt)));
  referred = (refl, tt);
  one_binding = refl;
}

after_claim-Sound : Sound after_claim
unfolding passes_checks lifecycle_chk verified_etag_chk is_strong_etag upload_chk key_chk
after_claim-Sound = record {
  ids = distinct;
  checked = (refl, (refl, (refl, tt)));
  referred = (refl, tt);
  one_binding = refl;
}

granted :
    claim_unbound_verified_blob_for_cleanup objects bindings claiming new_id 8 9 start
    ≡ (ok true, after_claim)
unfolding claim_unbound_verified_blob_for_cleanup is_uuid claim_body update_objects passes_checks
    lifecycle_chk verified_etag_chk is_strong_etag lower_digit upload_chk key_chk
granted = refl

-- An active image is not claimed.
claim_bound :
    claim_unbound_verified_blob_for_cleanup objects bindings claiming old_id 8 9 start
    ≡ (ok false, start)
unfolding claim_unbound_verified_blob_for_cleanup is_uuid claim_body lower_digit
claim_bound = refl

old_id_uuid : is_uuid old_id ≡ true
unfolding is_uuid
old_id_uuid = refl

new_id_uuid : is_uuid new_id ≡ true
unfolding is_uuid
new_id_uuid = refl

etag_strong : is_strong_etag "\"a1\"" ≡ true
unfolding is_strong_etag
etag_strong = refl

claim_exact_example :
    Decides
      (uuid_of new_id)
      (Claimable (uuid_of new_id) 8 start)
      (claimed 9)
      start
      (claim_unbound_verified_blob_for_cleanup objects bindings claiming new_id 8 9 start)
claim_exact_example =
    claim_exact objects bindings claiming new_id 8 9 start start-Sound new_id_uuid (omega arith)

complete_exact_example :
    Decides
      (uuid_of new_id)
      (Completable (uuid_of new_id) "\"a1\"" 9 after_claim)
      (completed 12)
      after_claim
      (complete_claimed_blob_cleanup objects new_id "\"a1\"" 9 12 after_claim)
complete_exact_example =
    complete_exact objects new_id "\"a1\"" 9 12 after_claim after_claim-Sound new_id_uuid
      etag_strong (omega arith)

settlement_exact_example :
    Decides upload_id
      (Settleable upload_id 7)
      (settled_verified 8 "\"a1\"")
      start
      (mark_verified_if_pending objects upload_id 7 8 "\"a1\"" start)
    × Decides upload_id
        (Settleable upload_id 7)
        settled_rejected
        start
        (reject_if_pending objects upload_id 7 start)
    × Decides upload_id
        (Deletable upload_id)
        deleted_object
        start
        (mark_deleted_if_rejected objects upload_id start)
settlement_exact_example =
    settlement_exact objects upload_id "\"a1\"" 7 8 start start-Sound etag_strong

history :
    MediaReach objects bindings resources claiming committing after_claim
      (complete_claimed_blob_cleanup objects new_id "\"a1\"" 9 12 after_claim).1
history =
    then_step after_claim after_claim _ (at_start after_claim)
      (completion_tried new_id "\"a1\"" 9 12 after_claim)

claimed_there : Reached new_id 2 after_claim.objects
claimed_there = record {
  listed = refl;
  far = (
    (λ e. absurd (ground (arith, eq_iff old_id new_id))),
    ((λ _. omega arith), ((λ e. absurd (ground (arith, eq_iff upload_id new_id))), tt)),
  );
}

MediaReach-Reached_example :
    Reached new_id 2
      (complete_claimed_blob_cleanup objects new_id "\"a1\"" 9 12 after_claim).1.objects
MediaReach-Reached_example =
    MediaReach-Reached objects bindings resources claiming committing new_id 2 history claimed_there

claimed_never_active_example :
    (is_bound
        (uuid_of new_id)
        (complete_claimed_blob_cleanup objects new_id "\"a1\"" 9 12 after_claim).1
      ≡ false)
    × ((target : Target) (resource_id : String)
        → find_active_media_id bindings target resource_id
            (complete_claimed_blob_cleanup objects new_id "\"a1\"" 9 12 after_claim).1
          ≢ some (uuid_of new_id))
    × Reached
        (uuid_of new_id)
        2
        (complete_claimed_blob_cleanup objects new_id "\"a1\"" 9 12 after_claim).1.objects
claimed_never_active_example =
    claimed_never_active objects bindings resources claiming committing new_id 8 9 start after_claim
      _ start-Sound granted history

abbrev swapped : MediaDb
swapped = record start {
  bindings = record { target = Target.student_photo; resource_id = "s1"; media_id = new_id } ∷ [];
}

assigned_new :
    assign_active_verified_blob bindings Target.student_photo "s1" new_id (some old_id) start
    ≡ (ok true, swapped)
unfolding assign_active_verified_blob update_bindings
assigned_new = refl

assign_swaps_example :
    Swapped Target.student_photo "s1" bindings (some new_id) (some old_id) start swapped
assign_swaps_example =
    assign_swaps bindings Target.student_photo "s1" new_id (some old_id) start swapped start-Sound
      assigned_new

abbrev change : CommitInput
change = record {
  target = Target.student_photo;
  resource_id = "s1";
  new_media_id = some new_id;
  expected_media_id = some old_id;
  expected_legacy_url = some "http://old";
}

abbrev migrated : MediaDb
migrated = record swapped { students = record { id = "s1"; photo = none } ∷ [] }

committed_change :
    commit_private_blob_binding bindings resources committing change start ≡ (ok true, migrated)
unfolding commit_private_blob_binding commit_body swap_binding update_bindings
committed_change = refl

commit_swaps_example : Committed bindings change start migrated
commit_swaps_example =
    commit_swaps bindings resources committing change start migrated start-Sound (tt, tt)
      committed_change
