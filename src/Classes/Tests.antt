-- ===== src/Classes/Tests.antt =====
-- The teachers and the students of two concrete classes.
use swim_flow_api.Prelude.{
  String, ◌≡◌, ◌≢◌, refl, Bool, true, false, not, ◌&&◌, ◌||◌, none, some, List, [], ◌∷◌, ◌++◌, any,
  count, HasUnique, eq_iff, IsIn, inl, err, str_eq, arith, ◌<◌,
}
use swim_flow_api.Database.{Transactions, list_table, plain_transactions, unique_violation}
use swim_flow_api.Policies.ClassTeacher.{
  TeacherRole, TeacherAssignment, head_coach, assistant_coach, is_head, resolve_added_role,
  plan_transfer,
}
use swim_flow_api.Students.Store.{ClassLink, same_link}
use swim_flow_api.Students.Repository.{is_open_in}
use swim_flow_api.Classes.Teachers.{teaches, add_teacher, transfer_teacher}
use swim_flow_api.Classes.Coaches.{add_teacher_one_head, transfer_teacher_one_head}
use swim_flow_api.Classes.Enrolments.{
  TransferError, database, end_link, start_link, transfer_body, transfer_student,
}
use swim_flow_api.Classes.Moves.{transfer_student_moves}
use swim_flow_api.Classes.Secondary.{transfer_student_secondary}

abbrev coach : String → String → TeacherRole → TeacherAssignment
coach id teacher_id role = record { id = id; teacher_id = teacher_id; role = role }

abbrev morning : List TeacherAssignment
morning = coach "a1" "t1" head_coach ∷ coach "a2" "t2" assistant_coach ∷ []

abbrev evening : List TeacherAssignment
evening = coach "a3" "t3" head_coach ∷ []

add_teacher_one_head_example :
    (count is_head (evening ++ coach "a9" "t2" assistant_coach ∷ []) < 2)
    × ((t : String)
        → any (teaches t) (evening ++ coach "a9" "t2" assistant_coach ∷ [])
          ≡ (any (teaches t) evening || str_eq "t2" t))
unfolding add_teacher resolve_added_role
add_teacher_one_head_example =
    add_teacher_one_head evening (evening ++ coach "a9" "t2" assistant_coach ∷ []) true "a9" "t2"
      head_coach (omega arith) refl

abbrev OtherIds : String → String → Type 0
OtherIds a b = str_eq a b ≡ false

distinct :
    (k : TeacherAssignment → String)
    → OtherIds (k (coach "a2" "t2" assistant_coach)) (k (coach "a1" "t1" head_coach))
    → HasUnique k morning
distinct k d = (((λ e. absurd (ground (arith, d, (eq_iff _ _).1 e))), tt), (tt, tt))

transfer_teacher_one_head_example :
    (count is_head (coach "a2" "t2" head_coach ∷ []) < 2)
    × (any is_head morning ≡ true
        → coach "a2" "t2" head_coach ∷ [] ≢ []
        → any is_head (coach "a2" "t2" head_coach ∷ []) ≡ true)
    × (count is_head (evening ++ coach "a9" "t1" assistant_coach ∷ []) < 2)
    × ((t : String)
        → any (teaches t) (coach "a2" "t2" head_coach ∷ [])
          ≡ (any (teaches t) morning && not (str_eq "t1" t)))
    × ((t : String)
        → any (teaches t) (evening ++ coach "a9" "t1" assistant_coach ∷ [])
          ≡ (any (teaches t) evening || str_eq "t1" t))
unfolding transfer_teacher plan_transfer resolve_added_role
transfer_teacher_one_head_example =
    transfer_teacher_one_head morning evening (coach "a2" "t2" head_coach ∷ [])
      (evening ++ coach "a9" "t1" assistant_coach ∷ []) "a9" "t1" (distinct (λ a. a.id) refl)
      (distinct (λ a. a.teacher_id) refl) (omega arith) (omega arith) refl

abbrev links : Transactions TransferError Unit (List ClassLink)
links = plain_transactions

abbrev enrolled : String → String → Bool → ClassLink
enrolled id class_id primary = record {
  id = id;
  student_id = "s1";
  class_id = class_id;
  is_primary = primary;
  to_date = none;
}

abbrev one_class : List ClassLink
one_class = enrolled "l1" "c1" true ∷ []

abbrev after_move : List ClassLink
after_move = record (enrolled "l1" "c1" false) { to_date = some 40 } ∷ enrolled "l2" "c2" true ∷ []

transfer_student_moves_example :
    ((c : String)
      → any (is_open_in "s1" c) after_move
        ≡ (any (is_open_in "s1" c) one_class && not (str_eq "c1" c) || str_eq "c2" c))
    × ((l : ClassLink) → IsIn l one_class → l.student_id ≢ "s1" → IsIn l after_move)
unfolding transfer_student transfer_body end_link start_link
transfer_student_moves_example =
    transfer_student_moves (list_table same_link) links true true 40 "l2" "s1" "c1" "c2" one_class
      after_move refl refl

abbrev two_classes : List ClassLink
two_classes = enrolled "l1" "c1" true ∷ enrolled "l2" "c2" false ∷ []

transfer_student_secondary_example :
    transfer_student (list_table same_link) links true true 40 "l3" "s1" "c2" "c3" two_classes
    ≡ (err (database unique_violation), two_classes)
transfer_student_secondary_example =
    transfer_student_secondary (list_table same_link) links true true 40 "l3" "s1" "c2" "c3"
      two_classes (enrolled "l1" "c1" true) refl (refl, refl) refl refl (inl refl) (refl, refl) refl
