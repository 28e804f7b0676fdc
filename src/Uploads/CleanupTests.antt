-- ===== src/Uploads/CleanupTests.antt =====
-- A cleanup of a rejected upload beside a verified one.
use Prim.Native.String
use swim_flow_api.Prelude.{
  ℕ, suc, zero, String, ◌≡◌, refl, Bool, true, false, none, some, List, [], ◌∷◌, count, filter,
  length, All, IsIn, ok, arith, eq_iff, Bool-cases, inl, inr, ◌≤◌, ◌+◌,
}
use swim_flow_api.Database.{Listing, list_table}
use swim_flow_api.Media.Keys.{upload_chk, key_chk}
use swim_flow_api.Media.Store.{
  Target, Status, Provider, MediaObject, MediaDb, same_object, passes_checks, lifecycle_chk,
  verified_etag_chk, is_strong_etag,
}
use swim_flow_api.Media.Sound.{Sound}
use swim_flow_api.Uploads.Storage.{UploadStorage}
use swim_flow_api.Uploads.Cleanup.{CleanupSummary, cleanup_uploads}
use swim_flow_api.Uploads.Progress.{is_deleted, is_unsettled}
use swim_flow_api.Uploads.Accounting.{cleanup_uploads_accounts}

abbrev take : {A : Type 0} → ℕ → List A → List A
take zero t = []
take (suc n) [] = []
take (suc n) (r ∷ t) = r ∷ take n t

-- The first rows that satisfy the predicate.
abbrev first_rows : {A : Type 0} → (A → Bool) → ℕ → List A → List A
first_rows p n t = take n (filter p t)

take-All : {A : Type 0} (P : A → Type 0) (n : ℕ) (t : List A) → All P t → All P (take n t)
take-All P zero t h = tt
take-All P (suc n) [] h = tt
take-All P (suc n) (r ∷ t) h = (h.0, take-All P n t h.1)

filter-hits : {A : Type 0} (p : A → Bool) (t : List A) → All (λ r. p r ≡ true) (filter p t)
filter-hits p [] = tt
filter-hits p (r ∷ t) = elim (Bool-cases (p r)) [
  | inl hit ↦ rw hit (hit, filter-hits p t)
  | inr miss ↦ rw miss (filter-hits p t)
]

length-take : {A : Type 0} (n : ℕ) (t : List A) → length (take n t) ≤ n
length-take zero t = omega arith
length-take (suc n) [] = omega arith
length-take (suc n) (r ∷ t) = omega (arith, length-take n t)

abbrev listing : Listing MediaObject
listing = record {
  find_many = first_rows;
  find_many_found = λ p n t. take-All _ n (filter p t) (filter-hits p t);
  find_many_few = λ p n t. length-take n (filter p t);
}

abbrev answering : UploadStorage Unit
answering = record { delete_object = λ key s. (ok tt, s) }

abbrev private_key : String → String
private_key file =
    String.◌++◌ "private/students/0a1b2c3d-0000-4000-8000-0000000000aa/"
      (String.◌++◌ "0a1b2c3d-0000-4000-8000-0000000000" (String.◌++◌ file ".jpg"))

abbrev upload : String → Status → MediaObject
upload id status = record {
  id = id;
  object_key = private_key id;
  target = Target.student_photo;
  resource_id = "s1";
  uploaded_by_id = "p1";
  declared_content_type = "image/jpeg";
  declared_size_bytes = 100;
  status = status;
  storage_provider = Provider.r2;
  ticket_expires_at = some 7;
  verified_at = none;
  verified_etag = none;
  cleanup_claimed_at = none;
  cleanup_completed_at = none;
  created_at = 5;
}

abbrev uploads : MediaDb
uploads = record {
  objects = upload "e1" Status.rejected ∷ upload "e2" Status.pending ∷ [];
  bindings = [];
  students = [];
  teachers = [];
  parents = [];
  profiles = [];
}

uploads-Sound : Sound uploads
unfolding passes_checks lifecycle_chk verified_etag_chk is_strong_etag upload_chk key_chk
uploads-Sound = record {
  ids = (((λ e. absurd (ground (arith, eq_iff "e2" "e1"))), tt), (tt, tt));
  checked = (refl, (refl, tt));
  referred = tt;
  one_binding = refl;
}

cleanup_uploads_accounts_example :
    (summary : CleanupSummary) × (db' : MediaDb) × (s' : Unit) × (cleanup_uploads
        (list_table same_object)
        answering
        listing
        120010
        25
        uploads
        tt
      ≡ (ok summary, (db', s')))
    × (summary.inspected ≤ 25)
    × (summary.tally.deleted + summary.tally.failed ≤ summary.inspected)
    × (count is_deleted db'.objects ≡ count is_deleted uploads.objects + summary.tally.deleted)
    × Sound db'
    × ((o : MediaObject) → IsIn o uploads.objects → is_unsettled o ≡ false → IsIn o db'.objects)
cleanup_uploads_accounts_example =
    cleanup_uploads_accounts (list_table same_object) answering listing 120010 25 uploads tt
      uploads-Sound (omega arith) (omega arith)
