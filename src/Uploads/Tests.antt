-- ===== src/Uploads/Tests.antt =====
-- The use cases of the private images on a storage that is a list of blobs.
use Prim.Native.String
use swim_flow_api.Prelude.{
  any, uuid_of, lower_digit, String, ◌≡◌, ◌≢◌, refl, Bool, true, false, not, Option, none, some,
  List, [], ◌∷◌, find, filter, IsIn, inl, inr, Outcome, ok, err, str_eq, eq_iff, arith,
  if◌then◌else◌, Bool-cases, Option-cases, ap,
}
use swim_flow_api.Database.{list_table}
use swim_flow_api.Media.Keys.{upload_chk, key_chk}
use swim_flow_api.Media.Store.{
  Target, Status, Provider, MediaObject, MediaDb, same_object, status_eq, passes_checks,
  lifecycle_chk, verified_etag_chk, is_strong_etag,
}
use swim_flow_api.Media.Objects.{is_uuid, completed, find_by_id, complete_claimed_blob_cleanup}
use swim_flow_api.Media.Statements.{update_objects}
use swim_flow_api.Media.Sound.{Sound}
use swim_flow_api.Uploads.Storage.{StoredBlob, StorageError, unreachable, BlobStorage}
use swim_flow_api.Uploads.Reconcile.{finished, reconcile, remove_bytes, finalize}
use swim_flow_api.Uploads.Completion.{reconcile_finished}
use swim_flow_api.Uploads.Answering.{is_claimed, reconcile_finishes}

abbrev at_path : String → StoredBlob → Bool
at_path path b = str_eq b.pathname path

abbrev blob_at : String → List StoredBlob → Option StoredBlob
blob_at path s = find (at_path path) s

abbrev differs : String → Option StoredBlob → Bool
differs etag none = false
differs etag (some b) = not (str_eq b.etag etag)

abbrev delete_blob : String → String → List StoredBlob → Outcome StorageError Unit × List StoredBlob
delete_blob path etag s =
    if differs etag (blob_at path s)
    then (err unreachable, s)
    else (ok tt, filter (λ b. not (at_path path b)) s)

blob_at-filter_same :
    (path : String) (s : List StoredBlob)
    → blob_at path (filter (λ b. not (at_path path b)) s) ≡ none
blob_at-filter_same path [] = refl
blob_at-filter_same path (b ∷ s) = ground (arith, blob_at-filter_same path s)

blob_at-filter_other :
    (path p : String) (s : List StoredBlob)
    → p ≢ path
    → blob_at p (filter (λ b. not (at_path path b)) s) ≡ blob_at p s
blob_at-filter_other path p [] other = refl
blob_at-filter_other path p (b ∷ s) other =
    ground (
      arith,
      blob_at-filter_other path p s other,
      eq_iff b.pathname path,
      eq_iff b.pathname p,
      other,
    )

abbrev stat_blob :
    String → List StoredBlob → Outcome StorageError (Option StoredBlob) × List StoredBlob
stat_blob path s = (ok (blob_at path s), s)

stat_blob_answer :
    (path : String) (s s' : List StoredBlob) (b : Option StoredBlob)
    → stat_blob path s ≡ (ok b, s')
    → b ≡ blob_at path s
stat_blob_answer path s s' b h = ground arith

delete_blob_done :
    (path etag : String) (s s' : List StoredBlob)
    → delete_blob path etag s ≡ (ok tt, s')
    → blob_at path s' ≡ none
delete_blob_done path etag s s' h = elim (Bool-cases (differs etag (blob_at path s))) [
  | inl other_tag ↦ absurd (ground (arith, other_tag, h))
  | inr same ↦
      let after : filter (λ b. not (at_path path b)) s ≡ s' = ground (arith, same, h) in
      rw (← after) (blob_at-filter_same path s)
]

delete_blob_only :
    (path etag p : String) (s : List StoredBlob)
    → p ≢ path
    → blob_at p (delete_blob path etag s).1 ≡ blob_at p s
delete_blob_only path etag p s other = elim (Bool-cases (differs etag (blob_at path s))) [
  | inl other_tag ↦ rw other_tag refl
  | inr same ↦ rw same (blob_at-filter_other path p s other)
]

abbrev listed_storage : BlobStorage (List StoredBlob)
listed_storage = record {
  stat = stat_blob;
  delete = delete_blob;
  held = blob_at;
  stat_answer = stat_blob_answer;
  stat_keeps = λ path p s. refl;
  delete_done = delete_blob_done;
  delete_only = delete_blob_only;
}

abbrev media_id : String
media_id = "0a1b2c3d-0000-4000-8000-00000000000b"

abbrev private_key : String → String
private_key file =
    String.◌++◌ "private/students/0a1b2c3d-0000-4000-8000-0000000000aa/" (String.◌++◌ file ".jpg")

abbrev image : MediaObject
image = record {
  id = media_id;
  object_key = private_key media_id;
  target = Target.student_photo;
  resource_id = "s1";
  uploaded_by_id = "p1";
  declared_content_type = "image/jpeg";
  declared_size_bytes = 100;
  status = Status.gc_claimed;
  storage_provider = Provider.blob;
  ticket_expires_at = none;
  verified_at = some 5;
  verified_etag = some "\"a1\"";
  cleanup_claimed_at = some 9;
  cleanup_completed_at = none;
  created_at = 5;
}

abbrev tables : MediaDb
tables = record {
  objects = image ∷ [];
  bindings = [];
  students = [];
  teachers = [];
  parents = [];
  profiles = [];
}

abbrev stored : List StoredBlob
stored =
    record { pathname = "k1"; etag = "\"z9\"" }
    ∷ record { pathname = private_key media_id; etag = "\"a1\"" }
    ∷ []

tables-Sound : Sound tables
unfolding passes_checks lifecycle_chk verified_etag_chk is_strong_etag upload_chk key_chk
tables-Sound = record { ids = (tt, tt); checked = (refl, tt); referred = tt; one_binding = refl }

abbrev reconciled : MediaDb
reconciled = record tables { objects = completed 12 image ∷ [] }

ran :
    reconcile (list_table same_object) listed_storage media_id 12 tables stored
    ≡ (ok finished, reconciled, record { pathname = "k1"; etag = "\"z9\"" } ∷ [])
unfolding reconcile remove_bytes finalize find_by_id is_uuid is_strong_etag lower_digit
    complete_claimed_blob_cleanup update_objects passes_checks lifecycle_chk verified_etag_chk
    upload_chk key_chk
ran = refl

reconcile_finished_example :
    (r : MediaObject) × IsIn r tables.objects
    × (r.id ≡ uuid_of media_id)
    × (status_eq r.status Status.gc_claimed ≡ true)
    × IsIn (completed 12 r) reconciled.objects
    × (blob_at r.object_key (record { pathname = "k1"; etag = "\"z9\"" } ∷ []) ≡ none)
    × ((p : String)
        → p ≢ r.object_key
        → blob_at p (record { pathname = "k1"; etag = "\"z9\"" } ∷ []) ≡ blob_at p stored)
reconcile_finished_example =
    reconcile_finished (list_table same_object) listed_storage media_id 12 tables reconciled stored
      (record { pathname = "k1"; etag = "\"z9\"" } ∷ []) tables-Sound ran

media_id_uuid : is_uuid media_id ≡ true
unfolding is_uuid
media_id_uuid = refl

deletes :
    (p e : String) (r : List StoredBlob)
    → ((b : StoredBlob) → blob_at p r ≡ some b → b.etag ≡ e)
    → (delete_blob p e r).0 ≡ ok tt
deletes p e r same = elim (Option-cases (blob_at p r)) [
  | inl empty ↦ rw empty refl
  | inr (b, there) ↦
      let tag : str_eq b.etag e ≡ true = (eq_iff b.etag e).1 (same b there) in
      ground (arith, there, tag)
]

abbrev tag_of : Option StoredBlob → Option String
tag_of none = none
tag_of (some b) = some b.etag

recorded :
    (o : MediaObject)
    → IsIn o tables.objects
    → o.id ≡ uuid_of media_id
    → (b : StoredBlob) → blob_at o.object_key stored ≡ some b
    → o.verified_etag ≡ some b.etag
recorded o (inl e) named b held =
    let at_key : blob_at (private_key media_id) stored ≡ some b = rw e at held in
    rw e (ap tag_of at_key)
recorded o (inr m) named b held = elim m [ ]

claimed_there : any (is_claimed (uuid_of media_id) 12) tables.objects ≡ true
unfolding lower_digit
claimed_there = refl

reconcile_finishes_example :
    (reconcile (list_table same_object) listed_storage media_id 12 tables stored).0 ≡ ok finished
reconcile_finishes_example =
    reconcile_finishes (list_table same_object) listed_storage media_id 12 tables stored
      tables-Sound media_id_uuid claimed_there (λ p r. refl) deletes recorded
