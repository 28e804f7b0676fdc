-- ===== src/Policies/Attendance.antt =====
-- AttendanceBatchPolicy (src/domain/attendance/application/services/attendance-batch-policy.ts).
use Prim.Native.String
use swim_flow_api.Prelude.{
  String, Bool, not, List, [], ◌∷◌, filter, map, Outcome, ok, err, if◌then◌else◌,
}
use swim_flow_api.Policies.Sets.{includes, add, set_of}

-- The fields of a record that the policy reads.
pub record AttendanceRecord : Type 0 where
  pub student_id : String
  pub class_id : String
  pub date : String

pub record StudentClassLink : Type 0 where
  pub student_id : String
  pub class_id : String

pub record BatchContext : Type 0 where
  pub existing_student_ids : List String
  pub existing_class_ids : List String
  pub active_links : List StudentClassLink

-- The three errors that carry ids carry the ids here, not the message.
pub data BatchError : Type 0 where
  duplicated_records : BatchError
  missing_students : List String → BatchError
  missing_classes : List String → BatchError
  no_active_link : List AttendanceRecord → BatchError

abbrev pub joined : String → String → String
joined a b = String.◌++◌ a (String.◌++◌ ":" b)

abbrev pub link_key : String → String → String
link_key student_id class_id = joined student_id class_id

abbrev pub record_key : AttendanceRecord → String
record_key r = joined r.student_id (joined r.class_id r.date)

-- The loop of findDuplicatedKeys: the keys seen and those found twice.
abbrev pub duplicated_from : List String → List String → List AttendanceRecord → List String
duplicated_from seen duplicated [] = duplicated
duplicated_from seen duplicated (r ∷ rs) =
    duplicated_from (add (record_key r) seen)
      (if includes (record_key r) seen then add (record_key r) duplicated else duplicated) rs

-- findDuplicatedKeys
unfoldable pub find_duplicated_keys : List AttendanceRecord → List String
find_duplicated_keys rs = duplicated_from [] [] rs

abbrev pub missing : List String → List String → List String
missing existing ids = filter (λ i. not (includes i existing)) (set_of ids)

abbrev pub is_linked : BatchContext → AttendanceRecord → Bool
is_linked context r =
    includes (link_key r.student_id r.class_id)
      (map (λ l. link_key l.student_id l.class_id) context.active_links)

abbrev pub unless_any :
    {A : Type 0} → List A → BatchError → Outcome BatchError Unit → Outcome BatchError Unit
unless_any [] e next = next
unless_any (x ∷ xs) e next = err e

-- assertValid
unfoldable pub assert_valid_batch : List AttendanceRecord → BatchContext → Outcome BatchError Unit
assert_valid_batch rs context =
    let no_students = missing context.existing_student_ids (map (λ r. r.student_id) rs) in
    let no_classes = missing context.existing_class_ids (map (λ r. r.class_id) rs) in
    let unlinked = filter (λ r. not (is_linked context r)) rs in
    unless_any (find_duplicated_keys rs) duplicated_records (
      unless_any no_students (missing_students no_students) (
        unless_any no_classes (missing_classes no_classes)
          (unless_any unlinked (no_active_link unlinked) (ok tt))))
