-- ===== src/Attendance/Tests.antt =====
-- A batch of two records for one class.
use swim_flow_api.Prelude.{
  String, ◌≡◌, refl, true, false, none, some, List, [], ◌∷◌, any, All, IsIn, ok,
}
use swim_flow_api.Database.{Table, Transactions, list_table, plain_transactions}
use swim_flow_api.Policies.Attendance.{assert_valid_batch, find_duplicated_keys}
use swim_flow_api.Students.Store.{ClassLink}
use swim_flow_api.Attendance.Repository.{
  AttendanceStatus, SaveRecord, AttendanceRow, SaveError, SchoolRows, same_attendance, slot,
  get_batch_context, upsert_record, upsert_records, save_batch, save_attendance_batch,
}
use swim_flow_api.Attendance.Batch.{holds, save_attendance_batch_reads_back}

abbrev attendance : Table AttendanceRow same_attendance
attendance = list_table same_attendance

abbrev saving : Transactions SaveError Unit (List AttendanceRow)
saving = plain_transactions

abbrev came : String → AttendanceStatus → SaveRecord
came student status = record {
  student_id = student;
  class_id = "c1";
  date = "2026-01-05";
  status = status;
  observations = none;
  saved_at = some 7;
}

abbrev row : String → String → String → AttendanceStatus → AttendanceRow
row id student date status = record {
  id = id;
  student_id = student;
  class_id = "c1";
  date = date;
  status = status;
  observations = "";
  saved_at = 7;
}

abbrev member : String → ClassLink
member student = record {
  id = student;
  student_id = student;
  class_id = "c1";
  is_primary = true;
  to_date = none;
}

abbrev school : SchoolRows
school = record {
  student_ids = "s1" ∷ "s2" ∷ [];
  class_ids = "c1" ∷ [];
  links = member "s1" ∷ member "s2" ∷ [];
}

abbrev batch : List SaveRecord
batch = came "s1" AttendanceStatus.late ∷ came "s2" AttendanceStatus.present ∷ []

abbrev listed : List AttendanceRow
listed =
    row "r0" "s1" "2026-01-04" AttendanceStatus.present
    ∷ row "r1" "s1" "2026-01-05" AttendanceStatus.absent
    ∷ []

abbrev after : List AttendanceRow
after =
    row "r0" "s1" "2026-01-04" AttendanceStatus.present
    ∷ row "r1" "s1" "2026-01-05" AttendanceStatus.late
    ∷ row "n" "s2" "2026-01-05" AttendanceStatus.present
    ∷ []

stored :
    save_attendance_batch attendance (λ d. d) saving (λ n. "n") 9 batch school listed
    ≡ (ok tt, after)
unfolding save_attendance_batch save_batch upsert_records upsert_record get_batch_context
    assert_valid_batch find_duplicated_keys
stored = refl

save_attendance_batch_reads_back_example :
    All (λ r. any (holds attendance (λ d. d) r) after ≡ true) batch
    × ((a : AttendanceRow)
        → IsIn a listed
        → any (λ r. slot attendance (λ d. d) r a) batch ≡ false
        → IsIn a after)
save_attendance_batch_reads_back_example =
    save_attendance_batch_reads_back attendance (λ d. d) saving (λ n. "n") 9 school listed after
      batch (λ a b ma mb e. e) stored
