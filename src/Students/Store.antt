-- ===== src/Students/Store.antt =====
-- The rows that the students repository writes (models Student, StudentGuardian,
-- StudentSeasonCategory and StudentClass of prisma/schema.prisma), with the unique indexes of
-- prisma/migrations/20261020000000_init_neon. The other foreign keys are not part of the model.
use swim_flow_api.Prelude.{ℕ, String, Bool, ◌&&◌, ◌||◌, Option, List, str_eq, is_none}
use swim_flow_api.Database.{DbError}
use swim_flow_api.Media.Store.{Binding}

pub record Student : Type 0 where
  pub id : String
  pub name : String
  pub gender : String
  pub birth_date : String
  pub category_id : String
  pub level_id : String
  pub phone : String
  pub photo : Option String
  pub status : String
  pub achievements : ℕ

pub record Guardian : Type 0 where
  pub student_id : String
  pub parent_id : String
  pub is_primary : Bool

pub record SeasonCategory : Type 0 where
  pub student_id : String
  pub season_id : String
  pub category_id : String

-- A link of a student and a class; it is open while it has no end.
pub record ClassLink : Type 0 where
  pub id : String
  pub student_id : String
  pub class_id : String
  pub is_primary : Bool
  pub to_date : Option ℕ

-- A result of a student, with its season and the season of its event.
pub record ResultRow : Type 0 where
  pub student_id : String
  pub season_id : Option String
  pub event_season_id : Option String

pub record StudentsDb : Type 0 where
  pub students : List Student
  pub guardians : List Guardian
  pub seasons : List SeasonCategory
  pub links : List ClassLink
  pub pool_results : List ResultRow
  pub open_water_results : List ResultRow
  pub bindings : List Binding

pub data StudentError : Type 0 where
  database : DbError → StudentError
  student_not_found : StudentError
  season_category_locked : StudentError
  private_photo_active : StudentError

abbrev pub same_student : Student → Student → Bool
same_student a b = str_eq b.id a.id

-- student_guardians_student_id_parent_id_key and student_guardians_one_primary_idx
abbrev pub same_guardian : Guardian → Guardian → Bool
same_guardian a b =
    str_eq b.student_id a.student_id
    && (str_eq b.parent_id a.parent_id || a.is_primary && b.is_primary)

abbrev pub same_season : SeasonCategory → SeasonCategory → Bool
same_season a b = str_eq b.student_id a.student_id && str_eq b.season_id a.season_id

-- The primary key, student_classes_one_active_primary_idx and student_classes_one_active_pair_idx
abbrev pub same_link : ClassLink → ClassLink → Bool
same_link a b =
    str_eq b.id a.id
    || is_none a.to_date
      && is_none b.to_date
      && str_eq b.student_id a.student_id
      && (str_eq b.class_id a.class_id || a.is_primary && b.is_primary)
