-- ===== src/Policies/Removal.antt =====
-- A class that had a head coach has one after a teacher is removed, while teachers remain.
use swim_flow_api.Prelude.{
  String, ◌≡◌, ◌≢◌, ◌∙◌, refl, sym, ap, Bool, true, false, not, some, List, [], ◌∷◌, any, count,
  filter, find, str_eq, eq_iff, arith, ◌<◌, ◌≤◌, Bool-cases, Option-cases, inl, inr,
  All-update_rows, All-of_any, find_found, HasUnique, HasUnique-update_rows, HasUnique-filter,
  HasUnique-same, IsIn-filter, any_of_IsIn, counted_at,
}
use swim_flow_api.Policies.ClassTeacher.{
  TeacherRole, TeacherAssignment, is_head, with_role, remaining, first_id, promote, plan_removal,
  remove_teacher,
}
use swim_flow_api.Policies.HeadCoach.{heads_of_id}

pub count_filter :
    (p q : TeacherAssignment → Bool) (rows : List TeacherAssignment)
    → count q (filter p rows) ≤ count q rows
count_filter p q [] = omega arith
count_filter p q (a ∷ rows) = ground (arith, count_filter p q rows)

some_head : (rows : List TeacherAssignment) → any is_head rows ≡ true → 0 < count is_head rows
some_head [] h = absurd (ground arith)
some_head (a ∷ rows) h = ground (arith, some_head rows)

-- The first of rows without a head coach is promoted.
pub promote_first :
    (rows : List TeacherAssignment)
    → HasUnique (λ a. a.id) rows
    → any is_head rows ≡ false
    → (count is_head (promote (first_id rows) rows) < 2)
      × (promote (first_id rows) rows ≢ [] → any is_head (promote (first_id rows) rows) ≡ true)
promote_first [] unique h = (omega arith, (λ more. absurd (more refl)))
promote_first (b ∷ rows) unique h = (
  heads_of_id b.id (promote (some b.id) (b ∷ rows))
      (HasUnique-update_rows (λ a. a.id) (λ a. str_eq a.id b.id) (with_role TeacherRole.head_coach)
        (b ∷ rows) (λ a. refl) unique)
      (All-update_rows (λ a. is_head a ≡ false) (λ a. is_head a ≡ true → a.id ≡ b.id)
        (λ a. str_eq a.id b.id) (with_role TeacherRole.head_coach) (b ∷ rows)
        (λ a _ hit _. (eq_iff _ _).0 hit) (λ a out _ head. absurd (ground (arith, out, head)))
        (All-of_any is_head (b ∷ rows) h)),
  (λ _. ground (arith, (eq_iff b.id b.id).1 refl)),
)

-- Where the removed teacher is no head coach, a head coach remains.
pub heads_stay :
    (rows : List TeacherAssignment) (teacher_id : String)
    → HasUnique (λ a. a.teacher_id) rows
    → (removed : TeacherAssignment) → find (λ a. str_eq a.teacher_id teacher_id) rows ≡ some removed
    → is_head removed ≡ false
    → any is_head rows ≡ true
    → any is_head (remaining teacher_id rows) ≡ true
heads_stay rows teacher_id teachers removed found assistant had =
    let (a, m, head) = counted_at is_head rows (some_head rows had) in
    let (listed, same) = find_found (λ r. str_eq r.teacher_id teacher_id) rows removed found in
    let away : str_eq a.teacher_id teacher_id ≡ false =
      elim (Bool-cases (str_eq a.teacher_id teacher_id)) [
        | inr other ↦ other
        | inl own ↦
            let equal : a ≡ removed =
              HasUnique-same (λ r. r.teacher_id) rows a removed teachers m listed
                ((eq_iff _ _).0 own ∙ sym ((eq_iff _ _).0 same)) in
            absurd (ground (arith, head, assistant, ap is_head equal))
      ] in
    any_of_IsIn is_head (remaining teacher_id rows) a
      (IsIn-filter (λ r. not (str_eq r.teacher_id teacher_id)) a rows m (ground (arith, away))) head

-- A removal from a class with one head coach at most and unique links leaves one at most; if the
-- class had one and teachers remain, it still has one.
pub removal_keeps_head :
    (rows rows' : List TeacherAssignment) (teacher_id : String)
    → HasUnique (λ a. a.id) rows
    → HasUnique (λ a. a.teacher_id) rows
    → count is_head rows < 2
    → remove_teacher rows teacher_id ≡ some rows'
    → (count is_head rows' < 2) × (any is_head rows ≡ true → rows' ≢ [] → any is_head rows' ≡ true)
unfolding remove_teacher plan_removal
removal_keeps_head rows rows' teacher_id ids teachers one h =
    elim (Option-cases (find (λ a. str_eq a.teacher_id teacher_id) rows)) [
      | inl missing ↦ absurd (ground (arith, missing, h))
      | inr (removed, found) ↦
          let after : rows' ≡ promote (plan_removal rows teacher_id) (remaining teacher_id rows) =
            ground (arith, found, h) in
          let few = count_filter (λ a. not (str_eq a.teacher_id teacher_id)) is_head rows in
          let kept : count is_head (remaining teacher_id rows) < 2 = omega (arith, few, one) in
          elim (Bool-cases (is_head removed)) [
            | inr assistant ↦
                rw (after, found, assistant)
                  (kept, (λ had _. heads_stay rows teacher_id teachers removed found assistant had))
            | inl head ↦ elim (Bool-cases (any is_head (remaining teacher_id rows))) [
              | inl other ↦ rw (after, found, head, other) (kept, (λ _ _. other))
              | inr none_left ↦
                  let (few_heads, new_head) =
                    promote_first (remaining teacher_id rows)
                      (HasUnique-filter (λ a. a.id) _ rows ids) none_left in
                  rw (after, found, head, none_left) (few_heads, (λ _ more. new_head more))
            ]
          ]
    ]
