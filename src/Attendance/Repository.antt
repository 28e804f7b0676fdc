-- ===== src/Attendance/Repository.antt =====
-- PrismaAttendanceRepository.getBatchContext and saveBatch, and SaveAttendanceBatchUseCase
-- (src/domain/attendance/application/use-cases/save-attendance-batch.ts). `day` is the calendar day
-- of a date's text, which the column keeps.
use swim_flow_api.Prelude.{
  ℕ, suc, String, Bool, ◌&&◌, ◌||◌, Option, none, some, List, [], ◌∷◌, any, filter, map, Outcome,
  ok, err, then_run, str_eq, or_else,
}
use swim_flow_api.Database.{DbError, Table, Transactions}
use swim_flow_api.Policies.Sets.{includes}
use swim_flow_api.Policies.Attendance.{
  AttendanceRecord, BatchContext, BatchError, assert_valid_batch,
}
use swim_flow_api.Students.Store.{ClassLink}
use swim_flow_api.Students.Repository.{is_open_in}

pub data AttendanceStatus : Type 0 where
  present absent late justified : AttendanceStatus

pub record SaveRecord : Type 0 where
  pub student_id : String
  pub class_id : String
  pub date : String
  pub status : AttendanceStatus
  pub observations : Option String
  pub saved_at : Option ℕ

pub record AttendanceRow : Type 0 where
  pub id : String
  pub student_id : String
  pub class_id : String
  pub date : String
  pub status : AttendanceStatus
  pub observations : String
  pub saved_at : ℕ

pub data SaveError : Type 0 where
  refused : BatchError → SaveError
  database : DbError → SaveError

-- The primary key and the unique index of student, class and date.
abbrev pub same_attendance : AttendanceRow → AttendanceRow → Bool
same_attendance a b =
    str_eq b.id a.id
    || str_eq b.student_id a.student_id && str_eq b.class_id a.class_id && str_eq b.date a.date

-- The rows that the context is read from.
pub record SchoolRows : Type 0 where
  pub student_ids : List String
  pub class_ids : List String
  pub links : List ClassLink

abbrev pub policy_record : SaveRecord → AttendanceRecord
policy_record r = record { student_id = r.student_id; class_id = r.class_id; date = r.date }

-- The condition of the query for active links.
abbrev pub is_wanted_link : List SaveRecord → ClassLink → Bool
is_wanted_link records l = any (λ r. is_open_in r.student_id r.class_id l) records

-- getBatchContext
unfoldable pub get_batch_context : List SaveRecord → SchoolRows → BatchContext
get_batch_context [] school = record {
  existing_student_ids = [];
  existing_class_ids = [];
  active_links = [];
}
get_batch_context (r ∷ rs) school = record {
  existing_student_ids =
      filter (λ i. includes i (map (λ q. q.student_id) (r ∷ rs))) school.student_ids;
  existing_class_ids = filter (λ i. includes i (map (λ q. q.class_id) (r ∷ rs))) school.class_ids;
  active_links =
      map (λ l. record { student_id = l.student_id; class_id = l.class_id })
        (filter (is_wanted_link (r ∷ rs)) school.links);
}

module _ (t : Table AttendanceRow same_attendance) (day : String → String) where
  -- The `where` of an upsert.
  abbrev pub slot : SaveRecord → AttendanceRow → Bool
  slot r a =
      str_eq a.student_id r.student_id && str_eq a.class_id r.class_id && str_eq a.date (day r.date)

  -- The `update` of an upsert.
  abbrev pub recorded : ℕ → SaveRecord → AttendanceRow → AttendanceRow
  recorded now r a = record a {
    status = r.status;
    observations = or_else r.observations "";
    saved_at = or_else r.saved_at now;
  }

  -- The `create` of an upsert.
  abbrev pub new_row : String → ℕ → SaveRecord → AttendanceRow
  new_row id now r = record {
    id = id;
    student_id = r.student_id;
    class_id = r.class_id;
    date = day r.date;
    status = r.status;
    observations = or_else r.observations "";
    saved_at = or_else r.saved_at now;
  }

  abbrev pub saved :
      List AttendanceRow
      → Outcome DbError (List AttendanceRow)
      → Outcome SaveError Unit × List AttendanceRow
  saved rows (ok rows') = (ok tt, rows')
  saved rows (err e) = (err (database e), rows)

  unfoldable pub upsert_record :
      String → ℕ → SaveRecord → List AttendanceRow → Outcome SaveError Unit × List AttendanceRow
  upsert_record id now r rows = elim (t.find_first (slot r) rows) [
    | some a ↦ saved rows (t.update (slot r) (recorded now r) rows)
    | none ↦ saved rows (t.create (new_row id now r) rows)
  ]

  -- The upserts of a batch in their order; `draw` gives each new row its id.
  unfoldable pub upsert_records :
      (ℕ → String)
      → ℕ
      → ℕ
      → List SaveRecord
      → List AttendanceRow
      → Outcome SaveError Unit × List AttendanceRow
  upsert_records draw n now [] rows = (ok tt, rows)
  upsert_records draw n now (r ∷ rs) rows =
      then_run (upsert_record (draw n) now r rows)
        (λ _ rows. upsert_records draw (suc n) now rs rows)

  -- saveBatch
  unfoldable pub save_batch :
      Transactions SaveError Unit (List AttendanceRow)
      → (ℕ → String)
      → ℕ
      → List SaveRecord
      → List AttendanceRow
      → Outcome SaveError Unit × List AttendanceRow
  save_batch tx draw now [] rows = (ok tt, rows)
  save_batch tx draw now (r ∷ rs) rows = tx.run (upsert_records draw 0 now (r ∷ rs)) rows

  abbrev pub when_valid :
      Outcome BatchError Unit
      → (List AttendanceRow → Outcome SaveError Unit × List AttendanceRow)
      → List AttendanceRow
      → Outcome SaveError Unit × List AttendanceRow
  when_valid (ok _) save rows = save rows
  when_valid (err e) save rows = (err (refused e), rows)

  -- SaveAttendanceBatchUseCase.execute
  unfoldable pub save_attendance_batch :
      Transactions SaveError Unit (List AttendanceRow)
      → (ℕ → String)
      → ℕ
      → List SaveRecord
      → SchoolRows
      → List AttendanceRow
      → Outcome SaveError Unit × List AttendanceRow
  save_attendance_batch tx draw now [] school rows = (ok tt, rows)
  save_attendance_batch tx draw now (r ∷ rs) school rows =
      when_valid
        (assert_valid_batch (map policy_record (r ∷ rs)) (get_batch_context (r ∷ rs) school))
        (save_batch tx draw now (r ∷ rs)) rows
