-- ===== src/Classes/Coaches.antt =====
-- Adding and transferring teachers keeps one head coach at most in a class.
use swim_flow_api.Prelude.{
  String, ◌≡◌, ◌≢◌, ◌∙◌, refl, ap, Bool, true, false, not, ◌&&◌, ◌||◌, Option, none, some, List, [],
  ◌∷◌, ◌++◌, any, count, find, any-append, any-update_rows, count-append, count_none, All-of_any,
  IsIn, find_found, HasUnique, HasUnique-filter, one_hit, ok, str_eq, eq_iff, arith, ◌<◌,
  Bool-cases, Option-cases, inl, inr,
}
use swim_flow_api.Policies.ClassTeacher.{
  TeacherRole, TeacherAssignment, is_head, is_head_role, id_of, first_id, promote, remaining,
  resolve_added_role, plan_transfer, with_role,
}
use swim_flow_api.Policies.Removal.{count_filter, promote_first, heads_stay}
use swim_flow_api.Classes.Teachers.{teaches, assignment, add_teacher, transfer_teacher}

-- A class without head coaches counts none, and one that counts none has none.
no_heads : (rows : List TeacherAssignment) → any is_head rows ≡ false → count is_head rows ≡ 0
no_heads rows h = count_none is_head rows (All-of_any is_head rows h)

-- The role of a joining teacher is head coach only where there is none.
joined_heads :
    (rows : List TeacherAssignment) (id teacher_id : String) (role : TeacherRole)
    → count is_head rows < 2
    → (is_head_role role ≡ true → any is_head rows ≡ false)
    → count is_head (rows ++ assignment id teacher_id role ∷ []) < 2
joined_heads rows id teacher_id role few free =
    let split = count-append is_head rows (assignment id teacher_id role ∷ []) in
    elim (Bool-cases (is_head_role role)) [
      | inl head ↦ ground (arith, split, no_heads rows (free head), head)
      | inr assistant ↦ ground (arith, split, few, assistant)
    ]

-- A teacher that is added to a class with one head coach at most leaves one at most, and is listed
-- with the teachers that were there.
pub add_teacher_one_head :
    (rows rows' : List TeacherAssignment) (teacher_exists : Bool) (id teacher_id : String)
    (role : TeacherRole)
    → count is_head rows < 2
    → add_teacher (some rows) teacher_exists id teacher_id role ≡ ok rows'
    → (count is_head rows' < 2)
      × ((t : String) → any (teaches t) rows' ≡ (any (teaches t) rows || str_eq teacher_id t))
unfolding add_teacher resolve_added_role
add_teacher_one_head rows rows' teacher_exists id teacher_id role few h =
    let resolved = resolve_added_role rows role in
    let after : rows' ≡ rows ++ assignment id teacher_id resolved ∷ [] = ground (arith, h) in
    rw after (
      joined_heads rows id teacher_id resolved few (λ head. ground (arith, head)),
      (λ t. ground (arith, any-append (teaches t) rows (assignment id teacher_id resolved ∷ []))),
    )

first_remaining :
    (teacher_id : String) (rows : List TeacherAssignment)
    → id_of (find (λ a. not (str_eq a.teacher_id teacher_id)) rows)
      ≡ first_id (remaining teacher_id rows)
first_remaining teacher_id [] = refl
first_remaining teacher_id (a ∷ rows) = elim (Bool-cases (str_eq a.teacher_id teacher_id)) [
  | inl own ↦ rw own (first_remaining teacher_id rows)
  | inr other ↦ rw other refl
]

any-remaining :
    (teacher_id t : String) (rows : List TeacherAssignment)
    → any (teaches t) (remaining teacher_id rows)
      ≡ (any (teaches t) rows && not (str_eq teacher_id t))
any-remaining teacher_id t [] = refl
any-remaining teacher_id t (a ∷ rows) = ground (
  arith,
  any-remaining teacher_id t rows,
  eq_iff a.teacher_id teacher_id,
  eq_iff a.teacher_id t,
  eq_iff teacher_id t,
)

any-promote :
    (t : String) (id : Option String) (rows : List TeacherAssignment)
    → any (teaches t) (promote id rows) ≡ any (teaches t) rows
any-promote t none rows = refl
any-promote t (some id) rows =
    any-update_rows (teaches t) (λ a. str_eq a.id id) (with_role TeacherRole.head_coach) rows
      (λ a. refl)

module _ (source target : List TeacherAssignment) (teacher_id : String) (a : TeacherAssignment)
    (found : find (teaches teacher_id) source ≡ some a) (one : count is_head source < 2) where
  -- Where the head coach leaves, no other head coach remains.
  none_left : is_head a ≡ true → any is_head (remaining teacher_id source) ≡ false
  none_left head =
      let (listed, own) = find_found (teaches teacher_id) source a found in
      elim (Bool-cases (any is_head (remaining teacher_id source))) [
        | inr none_head ↦ none_head
        | inl other ↦ absurd (clash source listed own head one (some_other source other))
      ]
    where
      some_other :
          (rows : List TeacherAssignment)
          → any is_head (remaining teacher_id rows) ≡ true
          → (b : TeacherAssignment) × IsIn b rows
            × (is_head b ≡ true)
            × (teaches teacher_id b ≡ false)
      some_other [] h = absurd (ground arith)
      some_other (b ∷ rows) h = elim (Bool-cases (is_head b && not (teaches teacher_id b))) [
        | inl hit ↦ (b, inl refl, ground (arith, hit), ground (arith, hit))
        | inr miss ↦
            let rest : any is_head (remaining teacher_id rows) ≡ true = ground (arith, h, miss) in
            let (c, m, hc, tc) = some_other rows rest in (c, inr m, hc, tc)
      ]

      clash :
          (rows : List TeacherAssignment)
          → IsIn a rows
          → teaches teacher_id a ≡ true
          → is_head a ≡ true
          → count is_head rows < 2
          → ((b : TeacherAssignment) × IsIn b rows
              × (is_head b ≡ true)
              × (teaches teacher_id b ≡ false))
          → ⊥
      clash rows ma ta ha few (b, mb, hb, tb) =
          let same : a ≡ b = one_hit is_head rows a b few ma mb ha hb in
          ground (arith, ta, tb, ap (teaches teacher_id) same)

-- A transfer between classes with one head coach at most and unique links leaves one at most in
-- both; the source still has one if it had one and teachers remain; the teacher has left the
-- source and is in the target, and all other teachers stay where they were.
pub transfer_teacher_one_head :
    (source target source' target' : List TeacherAssignment) (id teacher_id : String)
    → HasUnique (λ a. a.id) source
    → HasUnique (λ a. a.teacher_id) source
    → count is_head source < 2
    → count is_head target < 2
    → transfer_teacher (some source) (some target) id teacher_id ≡ ok (source', target')
    → (count is_head source' < 2)
      × (any is_head source ≡ true → source' ≢ [] → any is_head source' ≡ true)
      × (count is_head target' < 2)
      × ((t : String)
          → any (teaches t) source' ≡ (any (teaches t) source && not (str_eq teacher_id t)))
      × ((t : String) → any (teaches t) target' ≡ (any (teaches t) target || str_eq teacher_id t))
unfolding transfer_teacher plan_transfer
transfer_teacher_one_head source target source' target' id teacher_id ids teachers one few h =
    elim (Option-cases (find (teaches teacher_id) source)) [
      | inl missing ↦ absurd (ground (arith, missing, h))
      | inr (a, found) ↦
          let (listed, own) = find_found (teaches teacher_id) source a found in
          let same : a.teacher_id ≡ teacher_id = (eq_iff _ _).0 own in
          let plan = plan_transfer source target a.teacher_id a.role in
          let kept = promote plan.source_promoted (remaining a.teacher_id source) in
          let e1 : source' ≡ kept = ground (arith, found, h) in
          let e2 : target' ≡ target ++ assignment id a.teacher_id plan.target_role ∷ [] =
            ground (arith, found, h) in
          let (left_few, left_head) = left a found same in
          rw (e1, e2)
            (
              left_few,
              left_head,
              joined_heads target id a.teacher_id plan.target_role few
                  (λ head. ground (arith, head)),
              (λ t.
                  any-promote t plan.source_promoted (remaining a.teacher_id source)
                  ∙ any-remaining a.teacher_id t source
                  ∙ ap (λ x. any (teaches t) source && not (str_eq x t)) same),
              (λ t.
                  any-append (teaches t) target (assignment id a.teacher_id plan.target_role ∷ [])
                  ∙ ground (arith, ap (λ x. str_eq x t) same)),
            )
    ]
  where
    left :
        (a : TeacherAssignment)
        → find (teaches teacher_id) source ≡ some a
        → a.teacher_id ≡ teacher_id
        → (count is_head (
              promote
                (plan_transfer source target a.teacher_id a.role).source_promoted
                (remaining a.teacher_id source))
            < 2)
          × (any is_head source ≡ true
              → promote
                  (plan_transfer source target a.teacher_id a.role).source_promoted
                  (remaining a.teacher_id source)
                ≢ []
              → any is_head (
                  promote
                    (plan_transfer source target a.teacher_id a.role).source_promoted
                    (remaining a.teacher_id source))
                ≡ true)
    left a found same = elim (Bool-cases (is_head_role a.role)) [
      | inr assistant ↦
          rw (assistant, same)
            (
              omega (arith, count_filter (λ b. not (teaches teacher_id b)) is_head source, one),
              (λ had _. heads_stay source teacher_id teachers a found assistant had),
            )
      | inl head ↦
          let (heads, new) =
            promote_first (remaining teacher_id source) (HasUnique-filter (λ b. b.id) _ source ids)
              (none_left source target teacher_id a found one head) in
          rw (head, same, first_remaining teacher_id source) (heads, (λ _ more. new more))
    ]
