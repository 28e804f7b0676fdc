-- ===== src/Classes/Teachers.antt =====
-- addTeacher and transferTeacher, on the teachers of the classes that they read. A class is its
-- list of links, none where it does not exist.
use swim_flow_api.Prelude.{
  String, Bool, not, Option, none, some, List, [], ◌∷◌, ◌++◌, any, find, Outcome, ok, err, str_eq,
  if◌then◌else◌,
}
use swim_flow_api.Policies.ClassTeacher.{
  TeacherRole, TeacherAssignment, resolve_added_role, plan_transfer, promote, remaining,
}

pub data ClassError : Type 0 where
  class_not_found teacher_not_found teacher_already_assigned : ClassError
  source_not_found target_not_found not_in_source already_in_target : ClassError

abbrev pub Class : Type 0
Class = Option (List TeacherAssignment)

abbrev pub teaches : String → TeacherAssignment → Bool
teaches teacher_id a = str_eq a.teacher_id teacher_id

abbrev pub assignment : String → String → TeacherRole → TeacherAssignment
assignment id teacher_id role = record { id = id; teacher_id = teacher_id; role = role }

-- addTeacher; the new link has the id `id`.
unfoldable pub add_teacher :
    Class → Bool → String → String → TeacherRole → Outcome ClassError (List TeacherAssignment)
add_teacher none teacher_exists id teacher_id role = err class_not_found
add_teacher (some rows) teacher_exists id teacher_id role =
    if not teacher_exists
    then err teacher_not_found
    else if any (teaches teacher_id) rows
    then err teacher_already_assigned
    else ok (rows ++ assignment id teacher_id (resolve_added_role rows role) ∷ [])

-- The transaction of transferTeacher: the teacher leaves the source, where another one may be
-- promoted, and joins the target.
abbrev pub moved :
    String
    → TeacherAssignment
    → List TeacherAssignment
    → List TeacherAssignment
    → List TeacherAssignment × List TeacherAssignment
moved id a source target =
    let plan = plan_transfer source target a.teacher_id a.role in
    (
      promote plan.source_promoted (remaining a.teacher_id source),
      target ++ assignment id a.teacher_id plan.target_role ∷ [],
    )

-- transferTeacher; the new link has the id `id`.
unfoldable pub transfer_teacher :
    Class
    → Class
    → String
    → String
    → Outcome ClassError (List TeacherAssignment × List TeacherAssignment)
transfer_teacher none target id teacher_id = err source_not_found
transfer_teacher (some source) none id teacher_id = err target_not_found
transfer_teacher (some source) (some target) id teacher_id =
    elim (find (teaches teacher_id) source) [
      | none ↦ err not_in_source
      | some a ↦
          if any (teaches teacher_id) target
          then err already_in_target
          else ok (moved id a source target)
    ]
