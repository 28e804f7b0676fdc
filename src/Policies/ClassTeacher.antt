-- ===== src/Policies/ClassTeacher.antt =====
-- ClassTeacherPolicy (src/domain/classes/application/services/class-teacher-policy.ts): a class has
-- one head coach at most. A plan names the link to demote or promote; update_teacher_role and
-- remove_teacher write it as the transactions of
-- src/infra/database/prisma/repositories/prisma-classes-repository.ts do.
use swim_flow_api.Prelude.{
  String, Bool, true, false, not, ◌&&◌, Option, none, some, List, [], ◌∷◌, any, filter, find,
  update_rows, str_eq, if◌then◌else◌,
}

pub data TeacherRole : Type 0 where
  head_coach assistant_coach : TeacherRole

pub record TeacherAssignment : Type 0 where
  pub id : String
  pub teacher_id : String
  pub role : TeacherRole

abbrev pub is_head_role : TeacherRole → Bool
is_head_role TeacherRole.head_coach = true
is_head_role TeacherRole.assistant_coach = false

abbrev pub is_head : TeacherAssignment → Bool
is_head a = is_head_role a.role

abbrev pub with_role : TeacherRole → TeacherAssignment → TeacherAssignment
with_role role a = record a { role = role }

-- The loop of normalizeAssignments, from the flag on.
unfoldable pub normalize_from : Bool → List TeacherAssignment → List TeacherAssignment
normalize_from assigned [] = []
normalize_from assigned (a ∷ rest_rows) =
    let rest = normalize_from assigned rest_rows in
    let rest_assigned = normalize_from true rest_rows in
    if is_head a && not assigned
    then with_role TeacherRole.head_coach a ∷ rest_assigned
    else with_role TeacherRole.assistant_coach a ∷ rest

-- normalizeAssignments
unfoldable pub normalize_assignments : List TeacherAssignment → List TeacherAssignment
normalize_assignments = normalize_from false

-- resolveAddedRole
unfoldable pub resolve_added_role : List TeacherAssignment → TeacherRole → TeacherRole
resolve_added_role existing requested =
    if is_head_role requested && any is_head existing
    then TeacherRole.assistant_coach
    else requested

abbrev pub id_of : Option TeacherAssignment → Option String
id_of none = none
id_of (some a) = some a.id

pub record RoleUpdatePlan : Type 0 where
  pub demoted : Option String
  pub next_role : TeacherRole

-- planRoleUpdate
unfoldable pub plan_role_update : List TeacherAssignment → String → TeacherRole → RoleUpdatePlan
plan_role_update existing teacher_id requested = record {
  demoted =
      if is_head_role requested
      then id_of (find (λ a. is_head a && not (str_eq a.teacher_id teacher_id)) existing)
      else none;
  next_role = requested;
}

abbrev pub first_id : List TeacherAssignment → Option String
first_id [] = none
first_id (a ∷ rest_rows) = some a.id

abbrev pub is_head_option : Option TeacherAssignment → Bool
is_head_option none = false
is_head_option (some a) = is_head a

abbrev pub remaining : String → List TeacherAssignment → List TeacherAssignment
remaining teacher_id = filter (λ a. not (str_eq a.teacher_id teacher_id))

-- planRemoval: the link to promote
unfoldable pub plan_removal : List TeacherAssignment → String → Option String
plan_removal existing teacher_id =
    if not (is_head_option (find (λ a. str_eq a.teacher_id teacher_id) existing))
    then none
    else if any is_head (remaining teacher_id existing)
    then none
    else first_id (remaining teacher_id existing)

pub record TransferPlan : Type 0 where
  pub source_promoted : Option String
  pub target_role : TeacherRole

-- planTransfer
unfoldable pub plan_transfer :
    List TeacherAssignment → List TeacherAssignment → String → TeacherRole → TransferPlan
plan_transfer source target teacher_id role = record {
  source_promoted =
      if is_head_role role
      then id_of (find (λ a. not (str_eq a.teacher_id teacher_id)) source)
      else none;
  target_role =
      if is_head_role role && any is_head target then TeacherRole.assistant_coach else role;
}

abbrev pub demote : Option String → List TeacherAssignment → List TeacherAssignment
demote none rows = rows
demote (some id) rows =
    update_rows (λ a. str_eq a.id id) (with_role TeacherRole.assistant_coach) rows

-- The transaction of updateTeacherRole on the rows of one class.
unfoldable pub apply_role_update :
    RoleUpdatePlan → String → List TeacherAssignment → List TeacherAssignment
apply_role_update plan assigned_id rows =
    update_rows (λ a. str_eq a.id assigned_id) (with_role plan.next_role) (demote plan.demoted rows)

-- updateTeacherRole: none is the error that the teacher is not found in the class.
unfoldable pub update_teacher_role :
    List TeacherAssignment → String → TeacherRole → Option (List TeacherAssignment)
update_teacher_role rows teacher_id requested =
    elim (find (λ a. str_eq a.teacher_id teacher_id) rows) [
      | none ↦ none
      | some assigned ↦
          some (apply_role_update (plan_role_update rows teacher_id requested) assigned.id rows)
    ]

abbrev pub promote : Option String → List TeacherAssignment → List TeacherAssignment
promote none rows = rows
promote (some id) rows = update_rows (λ a. str_eq a.id id) (with_role TeacherRole.head_coach) rows

-- removeTeacher: none is the error that the teacher is not found in the class.
unfoldable pub remove_teacher : List TeacherAssignment → String → Option (List TeacherAssignment)
remove_teacher rows teacher_id = elim (find (λ a. str_eq a.teacher_id teacher_id) rows) [
  | none ↦ none
  | some assigned ↦ some (promote (plan_removal rows teacher_id) (remaining teacher_id rows))
]
