-- ===== src/Students/Repository.antt =====
-- PrismaStudentsRepository.create and update, and assertLegacyPhotoWriteAllowed
-- (src/infra/database/prisma/repositories/legacy-photo-write-guard.ts). `trim` is JavaScript's.
use swim_flow_api.Prelude.{
  ℕ, String, Bool, true, false, not, ◌&&◌, ◌||◌, Option, none, some, List, [], ◌∷◌, any, count,
  filter, map, Outcome, ok, err, then_run, str_eq, opt_eq, truthy, is_none, is_some, ltb,
  if◌then◌else◌,
}
use swim_flow_api.Database.{DbError, Table, Transactions}
use swim_flow_api.Media.Store.{Target, Binding, same_binding}
use swim_flow_api.Media.Bindings.{slot_where}
use swim_flow_api.Policies.Sets.{includes}
use swim_flow_api.Policies.StudentClass.{AssignmentPlan, plan_assignment}
use swim_flow_api.Students.Store.{
  Student, Guardian, SeasonCategory, ClassLink, ResultRow, StudentsDb, StudentError, database,
  student_not_found, season_category_locked, private_photo_active, same_student, same_guardian,
  same_season, same_link,
}

pub record StudentInput : Type 0 where
  pub name : String
  pub gender : String
  pub birth_date : String
  pub category_id : String
  pub level_id : String
  pub phone : String
  pub photo : Option String
  pub status : String
  pub parent_id : Option String
  pub class_id : Option String
  pub season_id : Option String

-- The ids that a call draws, its clock, and the date that `new Date` makes of a text, printed.
pub record StudentGenerated : Type 0 where
  pub student_id : String
  pub link_id : String
  pub now : ℕ
  pub read_date : String → String

-- The interfaces of the tables.
pub record StudentTables : Type 0 where
  pub students : Table Student same_student
  pub guardians : Table Guardian same_guardian
  pub seasons : Table SeasonCategory same_season
  pub links : Table ClassLink same_link
  pub bindings : Table Binding same_binding

-- `value || null`
abbrev pub text_or_null : Option String → Option String
text_or_null none = none
text_or_null (some s) = if str_eq s "" then none else some s

-- The end of a statement on one of the tables.
abbrev pub stored :
    {Row A : Type 0}
    → (Row → A)
    → (Row → StudentsDb)
    → StudentsDb
    → Outcome DbError Row
    → Outcome StudentError A × StudentsDb
stored answer write db (ok rows) = (ok (answer rows), write rows)
stored answer write db (err e) = (err (database e), db)

-- A nullable text as an argument: null and the empty text do nothing.
abbrev pub when_given :
    Option String
    → (String → StudentsDb → Outcome StudentError Unit × StudentsDb)
    → StudentsDb
    → Outcome StudentError Unit × StudentsDb
when_given none act db = (ok tt, db)
when_given (some s) act db = if str_eq s "" then (ok tt, db) else act s db

abbrev pub is_open_link : String → ClassLink → Bool
is_open_link student_id l = str_eq l.student_id student_id && is_none l.to_date

abbrev pub is_open_in : String → String → ClassLink → Bool
is_open_in student_id class_id l = is_open_link student_id l && str_eq l.class_id class_id

abbrev pub open_class_ids : String → List ClassLink → List String
open_class_ids student_id links = map (λ l. l.class_id) (filter (is_open_link student_id) links)

-- The condition of the count of linked results.
abbrev pub is_linked_result : String → String → ResultRow → Bool
is_linked_result student_id season_id r =
    str_eq r.student_id student_id
    && (opt_eq r.season_id (some season_id) || opt_eq r.event_season_id (some season_id))

abbrev pub season_where : String → String → SeasonCategory → Bool
season_where student_id season_id s = str_eq s.student_id student_id && str_eq s.season_id season_id

abbrev pub guardian_where : String → String → Guardian → Bool
guardian_where student_id parent_id g =
    str_eq g.student_id student_id && str_eq g.parent_id parent_id

abbrev pub primary_where : String → Guardian → Bool
primary_where student_id g = str_eq g.student_id student_id && g.is_primary

abbrev pub with_primary : Bool → Guardian → Guardian
with_primary b g = record g { is_primary = b }

abbrev pub closed : ℕ → ClassLink → ClassLink
closed now l = record l { to_date = some now; is_primary = false }

abbrev pub made_primary : ClassLink → ClassLink
made_primary l = record l { is_primary = true }

abbrev pub close_where : String → List String → ClassLink → Bool
close_where student_id class_ids l = is_open_link student_id l && includes l.class_id class_ids

abbrev pub open_link : String → String → String → ClassLink
open_link id student_id class_id = record {
  id = id;
  student_id = student_id;
  class_id = class_id;
  is_primary = true;
  to_date = none;
}

module _ (t : StudentTables) where
  -- assertLegacyPhotoWriteAllowed for a student; the row lock has no effect on one transaction.
  unfoldable pub assert_photo_allowed :
      String → Option String → StudentsDb → Outcome StudentError Unit × StudentsDb
  assert_photo_allowed id photo db =
      if truthy photo
        && any (λ s. str_eq s.id id) db.students
        && is_some (t.bindings.find_first (slot_where Target.student_photo id) db.bindings)
      then (err private_photo_active, db)
      else (ok tt, db)

  -- A recorded season category is fixed once a result is linked to the season.
  unfoldable pub assert_season_free :
      String → String → String → StudentsDb → Outcome StudentError Unit × StudentsDb
  assert_season_free id category_id season_id db =
      elim (t.seasons.find_first (season_where id season_id) db.seasons) [
        | none ↦ (ok tt, db)
        | some recorded ↦
            if not (str_eq recorded.category_id category_id)
              && (ltb 0 (count (is_linked_result id season_id) db.pool_results)
                  || ltb 0 (count (is_linked_result id season_id) db.open_water_results))
            then (err season_category_locked, db)
            else (ok tt, db)
      ]

  unfoldable pub write_student :
      (String → String)
      → String
      → StudentInput
      → StudentsDb
      → Outcome StudentError Unit × StudentsDb
  write_student read_date id i db =
      stored (λ _. tt) (λ rows. record db { students = rows }) db
        (t.students.update (λ s. str_eq s.id id)
          (λ s. record s {
            name = i.name;
            gender = i.gender;
            birth_date = read_date i.birth_date;
            category_id = i.category_id;
            level_id = i.level_id;
            phone = i.phone;
            photo = text_or_null i.photo;
            status = i.status;
          })
          db.students)

  unfoldable pub update_guardians :
      (Guardian → Bool) → Bool → StudentsDb → Outcome StudentError Unit × StudentsDb
  update_guardians p primary db =
      stored (λ _. tt) (λ r. record db { guardians = r.0 }) db
        (t.guardians.update_keys p (with_primary primary) db.guardians)

  unfoldable pub create_guardian :
      String → String → StudentsDb → Outcome StudentError Unit × StudentsDb
  create_guardian student_id parent_id db =
      stored (λ _. tt) (λ rows. record db { guardians = rows }) db
        (t.guardians.create
          (record { student_id = student_id; parent_id = parent_id; is_primary = true })
          db.guardians)

  -- An upsert changes the row of its key, or creates it.
  unfoldable pub upsert_guardian :
      String → String → StudentsDb → Outcome StudentError Unit × StudentsDb
  upsert_guardian id parent_id db =
      elim (t.guardians.find_first (guardian_where id parent_id) db.guardians) [
        | some _ ↦ update_guardians (guardian_where id parent_id) true db
        | none ↦ create_guardian id parent_id db
      ]

  unfoldable pub create_season :
      String → String → String → StudentsDb → Outcome StudentError Unit × StudentsDb
  create_season id category_id season_id db =
      stored (λ _. tt) (λ rows. record db { seasons = rows }) db
        (t.seasons.create
          (record { student_id = id; season_id = season_id; category_id = category_id }) db.seasons)

  unfoldable pub upsert_season :
      String → String → String → StudentsDb → Outcome StudentError Unit × StudentsDb
  upsert_season id category_id season_id db =
      elim (t.seasons.find_first (season_where id season_id) db.seasons) [
        | some _ ↦
            stored (λ _. tt) (λ rows. record db { seasons = rows }) db
              (t.seasons.update (season_where id season_id)
                (λ s. record s { category_id = category_id }) db.seasons)
        | none ↦ create_season id category_id season_id db
      ]

  unfoldable pub update_links :
      (ClassLink → Bool)
      → (ClassLink → ClassLink)
      → StudentsDb
      → Outcome StudentError Unit × StudentsDb
  update_links p f db =
      stored (λ _. tt) (λ r. record db { links = r.0 }) db (t.links.update_keys p f db.links)

  unfoldable pub create_link : ClassLink → StudentsDb → Outcome StudentError Unit × StudentsDb
  create_link l db =
      stored (λ _. tt) (λ rows. record db { links = rows }) db (t.links.create l db.links)

  abbrev pub close_links :
      ℕ → String → List String → StudentsDb → Outcome StudentError Unit × StudentsDb
  close_links now id [] db = (ok tt, db)
  close_links now id (c ∷ cs) db = update_links (close_where id (c ∷ cs)) (closed now) db

  -- The two branches on the next class of a plan, whose id is not empty.
  abbrev pub attach :
      StudentGenerated
      → String
      → AssignmentPlan
      → Option String
      → StudentsDb
      → Outcome StudentError Unit × StudentsDb
  attach g id plan none db = (ok tt, db)
  attach g id plan (some next) db =
      then_run
        (if plan.should_promote_existing_link
          then update_links (is_open_in id next) made_primary db
          else (ok tt, db))
        (λ _ db.
          if plan.should_create_next_class_link
          then create_link (open_link g.link_id id next) db
          else (ok tt, db))

  -- The class links of an update.
  unfoldable pub relink :
      StudentGenerated
      → String
      → AssignmentPlan
      → StudentsDb
      → Outcome StudentError Unit × StudentsDb
  relink g id plan db =
      then_run (close_links g.now id plan.class_ids_to_close db)
        (λ _ db. attach g id plan plan.next_class_id db)

  -- The guardians of an update: the principal is changed, the others are kept.
  unfoldable pub reguard :
      String → Option String → StudentsDb → Outcome StudentError Unit × StudentsDb
  reguard id parent_id db =
      then_run (update_guardians (primary_where id) false db)
        (λ _ db. when_given parent_id (upsert_guardian id) db)

  unfoldable pub update_body :
      StudentGenerated
      → String
      → StudentInput
      → AssignmentPlan
      → StudentsDb
      → Outcome StudentError Unit × StudentsDb
  update_body g id i plan db =
      then_run (when_given i.season_id (assert_season_free id i.category_id) db) (λ _ db.
        then_run (assert_photo_allowed id i.photo db) (λ _ db.
          then_run (write_student g.read_date id i db) (λ _ db.
            then_run (reguard id i.parent_id db) (λ _ db.
              then_run (when_given i.season_id (upsert_season id i.category_id) db)
                (λ _ db. relink g id plan db)))))

  -- update; the answer is the student's row again, which is read and not written.
  unfoldable pub update_student :
      Transactions StudentError Unit StudentsDb
      → (trim : String → String) → StudentGenerated
      → String
      → StudentInput
      → StudentsDb
      → Outcome StudentError Unit × StudentsDb
  update_student tx trim g id i db =
      if is_some (t.students.find_first (λ s. str_eq s.id id) db.students)
      then tx.run
          (update_body g id i (plan_assignment trim (open_class_ids id db.links) i.class_id)) db
      else (err student_not_found, db)

  abbrev pub new_student : (String → String) → String → StudentInput → Student
  new_student read_date id i = record {
    id = id;
    name = i.name;
    gender = i.gender;
    birth_date = read_date i.birth_date;
    category_id = i.category_id;
    level_id = i.level_id;
    phone = i.phone;
    photo = text_or_null i.photo;
    status = i.status;
    achievements = 0;
  }

  unfoldable pub create_body :
      StudentGenerated → StudentInput → StudentsDb → Outcome StudentError Unit × StudentsDb
  create_body g i db =
      then_run
        (stored (λ _. tt) (λ rows. record db { students = rows }) db
          (t.students.create (new_student g.read_date g.student_id i) db.students))
        (λ _ db. then_run (when_given i.parent_id (create_guardian g.student_id) db) (λ _ db.
          then_run (when_given i.season_id (create_season g.student_id i.category_id) db) (λ _ db.
            when_given i.class_id (λ c db. create_link (open_link g.link_id g.student_id c) db)
              db)))

  -- create
  unfoldable pub create_student :
      Transactions StudentError Unit StudentsDb
      → StudentGenerated
      → StudentInput
      → StudentsDb
      → Outcome StudentError Unit × StudentsDb
  create_student tx g i = tx.run (create_body g i)
