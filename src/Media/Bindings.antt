-- ===== src/Media/Bindings.antt =====
-- The active bindings: PrismaPrivateMediaObjectsRepository, the operations on
-- private_media_active_bindings and the commit that also clears the legacy image.
use swim_flow_api.Prelude.{
  ℕ, String, Bool, true, false, ◌&&◌, Option, none, some, List, Outcome, ok, err, ◌==◌, opt_eq,
  str_eq, is_none, is_some, if◌then◌else◌,
}
use swim_flow_api.Database.{Table, Transactions, unique_violation}
use swim_flow_api.Media.Store.{
  Target, target_eq, Binding, Resource, MediaDb, MediaError, database, binding_conflict,
  invalid_query, same_binding, same_resource,
}
use swim_flow_api.Media.Statements.{insert_binding, update_bindings, changed_one}

pub record CommitInput : Type 0 where
  pub target : Target
  pub resource_id : String
  pub new_media_id : Option String
  pub expected_media_id : Option String
  pub expected_legacy_url : Option String

-- The table with the legacy image of a target.
abbrev pub legacy : Target → MediaDb → List Resource
legacy Target.student_photo db = db.students
legacy Target.teacher_photo db = db.teachers
legacy Target.parent_photo db = db.parents
legacy Target.profile_avatar db = db.profiles

abbrev pub with_legacy : Target → List Resource → MediaDb → MediaDb
with_legacy Target.student_photo rows db = record db { students = rows }
with_legacy Target.teacher_photo rows db = record db { teachers = rows }
with_legacy Target.parent_photo rows db = record db { parents = rows }
with_legacy Target.profile_avatar rows db = record db { profiles = rows }

abbrev pub legacy_where : String → Option String → Resource → Bool
legacy_where resource_id url r = str_eq r.id resource_id && opt_eq r.photo url

abbrev pub cleared : Resource → Resource
cleared r = record r { photo = none }

abbrev pub slot_where : Target → String → Binding → Bool
slot_where target resource_id b = target_eq b.target target && str_eq b.resource_id resource_id

abbrev pub bound_where : Target → String → String → Binding → Bool
bound_where target resource_id media_id b =
    slot_where target resource_id b && str_eq b.media_id media_id

abbrev pub rebound : String → Binding → Binding
rebound media_id b = record b { media_id = media_id }

abbrev pub bind : Target → String → String → Binding
bind target resource_id media_id = record {
  target = target;
  resource_id = resource_id;
  media_id = media_id;
}

-- A lost race is an answer, other errors propagate.
abbrev pub as_race : Outcome MediaError Unit × MediaDb → Outcome MediaError Bool × MediaDb
as_race (ok _, db) = (ok true, db)
as_race (err (database unique_violation), db) = (ok false, db)
as_race (err e, db) = (err e, db)

-- A swap or a removal that has not changed one row is a conflict.
abbrev pub or_conflict : Outcome MediaError ℕ × MediaDb → Outcome MediaError Unit × MediaDb
or_conflict (ok n, db) = if n == 1 then (ok tt, db) else (err binding_conflict, db)
or_conflict (err e, db) = (err e, db)

-- The catch of commitPrivateBlobBinding.
abbrev pub catch_conflict :
    CommitInput → Outcome MediaError Unit × MediaDb → Outcome MediaError Bool × MediaDb
catch_conflict i (ok _, db) = (ok true, db)
catch_conflict i (err binding_conflict, db) = (ok false, db)
catch_conflict i (err (database unique_violation), db) =
    if is_some i.new_media_id && is_none i.expected_media_id
    then (ok false, db)
    else (err (database unique_violation), db)
catch_conflict i (err e, db) = (err e, db)

module _ (bindings : Table Binding same_binding) where
  -- findActiveMediaId
  unfoldable pub find_active_media_id : Target → String → MediaDb → Option String
  find_active_media_id target resource_id db =
      elim (bindings.find_first (slot_where target resource_id) db.bindings) [
        | none ↦ none
        | some b ↦ some b.media_id
      ]

  -- assignActiveVerifiedBlob
  unfoldable pub assign_active_verified_blob :
      Target → String → String → Option String → MediaDb → Outcome MediaError Bool × MediaDb
  assign_active_verified_blob target resource_id media_id (some expected) db =
      changed_one
        (update_bindings bindings (bound_where target resource_id expected) (rebound media_id) db)
  assign_active_verified_blob target resource_id media_id none db =
      as_race (insert_binding bindings (bind target resource_id media_id) db)

  -- The binding's part of the transaction; Prisma refuses a null for the required media_id.
  unfoldable pub swap_binding :
      Target → String → Option String → Option String → MediaDb → Outcome MediaError Unit × MediaDb
  swap_binding target resource_id none none db = (err invalid_query, db)
  swap_binding target resource_id none (some expected) db =
      let (rows, removed) =
        bindings.delete_many (bound_where target resource_id expected) db.bindings in
      or_conflict (ok removed, record db { bindings = rows })
  swap_binding target resource_id (some media_id) none db =
      insert_binding bindings (bind target resource_id media_id) db
  swap_binding target resource_id (some media_id) (some expected) db =
      or_conflict
        (update_bindings bindings (bound_where target resource_id expected) (rebound media_id) db)

  unfoldable pub commit_body :
      Table Resource same_resource → CommitInput → MediaDb → Outcome MediaError Unit × MediaDb
  commit_body resources i db =
      let (rows, updated) =
        resources.update_many (legacy_where i.resource_id i.expected_legacy_url) cleared
          (legacy i.target db) in
      if updated == 1
      then swap_binding i.target i.resource_id i.new_media_id i.expected_media_id
          (with_legacy i.target rows db)
      else (err binding_conflict, with_legacy i.target rows db)

  -- commitPrivateBlobBinding
  unfoldable pub commit_private_blob_binding :
      Table Resource same_resource
      → Transactions MediaError Unit MediaDb
      → CommitInput
      → MediaDb
      → Outcome MediaError Bool × MediaDb
  commit_private_blob_binding resources tx i db =
      catch_conflict i (tx.run (commit_body resources i) db)
