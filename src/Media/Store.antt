-- ===== src/Media/Store.antt =====
-- The rows of private_media_objects and private_media_active_bindings, with the constraints of
-- prisma/migrations: the CHECKs of an object and the foreign key of a binding.
use swim_flow_api.Prelude.{
  ℕ, String, Bool, true, false, not, ◌&&◌, ◌||◌, Option, none, some, List, [], ◌∷◌, any, leb, ltb,
  is_none, is_some, str_eq, codes, length, ◌==◌, if◌then◌else◌,
}
use swim_flow_api.Database.{DbError}
use swim_flow_api.Media.Keys.{upload_chk, key_chk}

pub data Target : Type 0 where
  student_photo teacher_photo parent_photo profile_avatar : Target

pub data Status : Type 0 where
  pending verified gc_claimed rejected deleted : Status

pub data Provider : Type 0 where
  r2 blob : Provider

abbrev pub target_eq : Target → Target → Bool
target_eq Target.student_photo Target.student_photo = true
target_eq Target.teacher_photo Target.teacher_photo = true
target_eq Target.parent_photo Target.parent_photo = true
target_eq Target.profile_avatar Target.profile_avatar = true
target_eq _ _ = false

abbrev pub status_eq : Status → Status → Bool
status_eq Status.pending Status.pending = true
status_eq Status.verified Status.verified = true
status_eq Status.gc_claimed Status.gc_claimed = true
status_eq Status.rejected Status.rejected = true
status_eq Status.deleted Status.deleted = true
status_eq _ _ = false

abbrev pub provider_eq : Provider → Provider → Bool
provider_eq Provider.r2 Provider.r2 = true
provider_eq Provider.blob Provider.blob = true
provider_eq _ _ = false

pub record MediaObject : Type 0 where
  pub id : String
  pub object_key : String
  pub target : Target
  pub resource_id : String
  pub uploaded_by_id : String
  pub declared_content_type : String
  pub declared_size_bytes : ℕ
  pub status : Status
  pub storage_provider : Provider
  pub ticket_expires_at : Option ℕ
  pub verified_at : Option ℕ
  pub verified_etag : Option String
  pub cleanup_claimed_at : Option ℕ
  pub cleanup_completed_at : Option ℕ
  pub created_at : ℕ

-- An active binding; its provider and status are the constants BLOB and VERIFIED.
pub record Binding : Type 0 where
  pub target : Target
  pub resource_id : String
  pub media_id : String

-- A row with the legacy public image: of a student, a teacher, a parent or a profile.
pub record Resource : Type 0 where
  pub id : String
  pub photo : Option String

pub record MediaDb : Type 0 where
  pub objects : List MediaObject
  pub bindings : List Binding
  pub students : List Resource
  pub teachers : List Resource
  pub parents : List Resource
  pub profiles : List Resource

pub data MediaError : Type 0 where
  database : DbError → MediaError
  binding_conflict : MediaError
  invalid_query : MediaError
  invalid_cleanup_claim : MediaError
  cleanup_claim_concurrency : MediaError
  invalid_cleanup_completion : MediaError

-- The unique indexes of the three kinds of tables.
abbrev pub same_object : MediaObject → MediaObject → Bool
same_object o q = str_eq q.id o.id || str_eq q.object_key o.object_key

abbrev pub same_binding : Binding → Binding → Bool
same_binding b c =
    str_eq c.media_id b.media_id
    || target_eq c.target b.target && str_eq c.resource_id b.resource_id

abbrev pub same_resource : Resource → Resource → Bool
same_resource r s = str_eq s.id r.id

abbrev is_digit_or_letter : ℕ → Bool
is_digit_or_letter c =
    (leb b'0' c && leb c b'9') || (leb b'A' c && leb c b'Z') || (leb b'a' c && leb c b'z')

-- The inside and the end of /^"[A-Za-z0-9-]{1,120}"$/.
etag_tail : List ℕ → Bool
etag_tail [] = false
etag_tail (c ∷ []) = c == b'"'
etag_tail (c ∷ cs) = (is_digit_or_letter c || c == b'-') && etag_tail cs

etag_codes : List ℕ → Bool
unfolding etag_tail
etag_codes [] = false
etag_codes (c ∷ cs) = c == b'"' && leb 2 (length cs) && leb (length cs) 121 && etag_tail cs

unfoldable pub is_strong_etag : String → Bool
unfolding etag_codes
is_strong_etag s = etag_codes (codes s)

abbrev pub opt_le : Option ℕ → ℕ → Bool
opt_le none t = false
opt_le (some s) t = leb s t

abbrev pub opt_is : Option ℕ → ℕ → Bool
opt_is none t = false
opt_is (some s) t = s == t

abbrev pub opt_ge : Option ℕ → Option ℕ → Bool
opt_ge (some s) (some t) = leb t s
opt_ge _ _ = false

abbrev pub opt_gt : Option ℕ → ℕ → Bool
opt_gt none t = false
opt_gt (some s) t = ltb t s

-- private_media_lifecycle_chk
unfoldable pub lifecycle_chk : MediaObject → Bool
lifecycle_chk o =
    (provider_eq o.storage_provider Provider.r2
      && not (status_eq o.status Status.gc_claimed)
      && opt_gt o.ticket_expires_at o.created_at
      && (is_none o.verified_at || status_eq o.status Status.verified)
      && (not (status_eq o.status Status.verified) || is_some o.verified_at)
      && is_none o.cleanup_claimed_at
      && is_none o.cleanup_completed_at)
    || (provider_eq o.storage_provider Provider.blob
        && is_none o.ticket_expires_at
        && is_some o.verified_at
        && ((status_eq o.status Status.verified
              && is_none o.cleanup_claimed_at
              && is_none o.cleanup_completed_at)
            || (status_eq o.status Status.gc_claimed
                && opt_ge o.cleanup_claimed_at o.verified_at
                && is_none o.cleanup_completed_at)
            || (status_eq o.status Status.deleted
                && opt_ge o.cleanup_claimed_at o.verified_at
                && opt_ge o.cleanup_completed_at o.cleanup_claimed_at)))

-- The states whose rows keep the ETag of the verified bytes.
abbrev pub keeps_etag : MediaObject → Bool
keeps_etag o =
    status_eq o.status Status.verified
    || status_eq o.status Status.gc_claimed
    || provider_eq o.storage_provider Provider.blob && status_eq o.status Status.deleted

abbrev pub is_valid_etag : Option String → Bool
is_valid_etag none = false
is_valid_etag (some e) = is_strong_etag e

-- private_media_verified_etag_chk
unfoldable pub verified_etag_chk : MediaObject → Bool
verified_etag_chk o =
    if keeps_etag o
    then is_some o.verified_at && is_valid_etag o.verified_etag
    else is_none o.verified_etag

abbrev folder_of : Target → String
folder_of Target.profile_avatar = "profiles"
folder_of Target.student_photo = "students"
folder_of Target.teacher_photo = "teachers"
folder_of Target.parent_photo = "parents"

-- The constraints on one object. The uploader's profile (private_media_uploader_snapshot_chk) is no
-- column here.
unfoldable pub passes_checks : MediaObject → Bool
passes_checks o =
    lifecycle_chk o
    && verified_etag_chk o
    && upload_chk o.declared_content_type o.declared_size_bytes
    && key_chk (folder_of o.target) o.object_key

-- The foreign key: the binding's object has its target and resource, and is a verified blob.
abbrev pub is_referenced : Binding → MediaObject → Bool
is_referenced b o =
    str_eq o.id b.media_id
    && target_eq o.target b.target
    && str_eq o.resource_id b.resource_id
    && provider_eq o.storage_provider Provider.blob
    && status_eq o.status Status.verified

abbrev pub refers : List MediaObject → Binding → Bool
refers objects b = any (is_referenced b) objects
