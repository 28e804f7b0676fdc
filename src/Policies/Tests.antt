-- ===== src/Policies/Tests.antt =====
-- The policies at a concrete class.
use swim_flow_api.Prelude.{
  IsIn, String, ◌≡◌, ◌≢◌, ◌↔◌, ok, err, refl, true, false, some, List, [], ◌∷◌, ◌++◌, any, count,
  map, arith, eq_iff, ◌<◌, All, HasUnique,
}
use swim_flow_api.Policies.ClassTeacher.{
  TeacherRole, TeacherAssignment, is_head, normalize_assignments, update_teacher_role,
  plan_role_update, apply_role_update, remove_teacher, plan_removal,
}
use swim_flow_api.Policies.HeadCoach.{normalize_one_head, role_update_one_head}
use swim_flow_api.Policies.Attendance.{
  AttendanceRecord, BatchContext, duplicated_records, assert_valid_batch, find_duplicated_keys,
}
use swim_flow_api.Policies.BatchKeys.{AreApart, ActiveLink, assert_valid_batch_accepts}
use swim_flow_api.Policies.StudentClass.{plan_assignment, is_open_after, plan_assignment_opens}
use swim_flow_api.Policies.Removal.{removal_keeps_head}

abbrev link : String → String → TeacherRole → TeacherAssignment
link id teacher_id role = record { id = id; teacher_id = teacher_id; role = role }

abbrev two : List TeacherAssignment
two = link "l1" "t1" TeacherRole.head_coach ∷ link "l2" "t2" TeacherRole.assistant_coach ∷ []

abbrev swapped : List TeacherAssignment
swapped = link "l1" "t1" TeacherRole.assistant_coach ∷ link "l2" "t2" TeacherRole.head_coach ∷ []

distinct : HasUnique (λ s. s) ("l1" ∷ "l2" ∷ [])
distinct = (((λ e. absurd (ground (arith, eq_iff "l2" "l1"))), tt), (tt, tt))

teachers : HasUnique (λ s. s) ("t1" ∷ "t2" ∷ [])
teachers = (((λ e. absurd (ground (arith, eq_iff "t2" "t1"))), tt), (tt, tt))

updated : update_teacher_role two "t2" TeacherRole.head_coach ≡ some swapped
unfolding update_teacher_role plan_role_update apply_role_update
updated = refl

removed : remove_teacher two "t1" ≡ some (link "l2" "t2" TeacherRole.head_coach ∷ [])
unfolding remove_teacher plan_removal
removed = refl

normalize_one_head_example :
    (count is_head (normalize_assignments (two ++ two)) ≡ 1)
    × (map (λ a. a.teacher_id) (normalize_assignments (two ++ two))
        ≡ "t1" ∷ "t2" ∷ "t1" ∷ "t2" ∷ [])
normalize_one_head_example = normalize_one_head (two ++ two)

role_update_one_head_example :
    (count is_head swapped < 2)
    × All (λ a. a.teacher_id ≡ "t2" → a.role ≡ TeacherRole.head_coach) swapped
role_update_one_head_example =
    role_update_one_head two swapped "t2" TeacherRole.head_coach distinct teachers (omega arith)
      updated

removal_keeps_head_example :
    (count is_head (link "l2" "t2" TeacherRole.head_coach ∷ []) < 2)
    × (any is_head two ≡ true
        → link "l2" "t2" TeacherRole.head_coach ∷ [] ≢ []
        → any is_head (link "l2" "t2" TeacherRole.head_coach ∷ []) ≡ true)
removal_keeps_head_example =
    removal_keeps_head two (link "l2" "t2" TeacherRole.head_coach ∷ []) "t1" distinct teachers
      (omega arith) removed

abbrev batch : List AttendanceRecord
batch =
    record { student_id = "s1"; class_id = "c1"; date = "2026-01-05" }
    ∷ record { student_id = "s2"; class_id = "c1"; date = "2026-01-05" }
    ∷ []

abbrev context : BatchContext
context = record {
  existing_student_ids = "s1" ∷ "s2" ∷ [];
  existing_class_ids = "c1" ∷ [];
  active_links =
      record { student_id = "s1"; class_id = "c1" }
      ∷ record { student_id = "s2"; class_id = "c1" }
      ∷ [];
}

accepted : assert_valid_batch batch context ≡ ok tt
unfolding assert_valid_batch find_duplicated_keys
accepted = refl

twice :
    assert_valid_batch
      (record { student_id = "s1"; class_id = "c1"; date = "2026-01-05" } ∷ batch)
      context
    ≡ err duplicated_records
unfolding assert_valid_batch find_duplicated_keys
twice = refl

assert_valid_batch_accepts_example : (assert_valid_batch batch context ≡ ok tt) ↔ (
    AreApart batch
    × All (λ r. IsIn r.student_id context.existing_student_ids) batch
    × All (λ r. IsIn r.class_id context.existing_class_ids) batch
    × All (ActiveLink context) batch)
assert_valid_batch_accepts_example =
    assert_valid_batch_accepts batch context
      (((refl, (refl, tt)), (refl, (refl, tt))), (((refl, (refl, tt)), (refl, (refl, tt))), tt))
      ((refl, (refl, tt)), ((refl, (refl, tt)), tt))

plan_assignment_opens_example :
    is_open_after
      (plan_assignment (λ s. s) ("c1" ∷ "c2" ∷ "c1" ∷ []) (some "c2"))
      ("c1" ∷ "c2" ∷ "c1" ∷ [])
      "c1"
    ≡ false
plan_assignment_opens_example =
    plan_assignment_opens (λ s. s) ("c1" ∷ "c2" ∷ "c1" ∷ []) (some "c2") "c1" refl
