-- ===== src/Policies/HeadCoach.antt =====
-- A class keeps one head coach at most.
use swim_flow_api.Prelude.{
  String, ◌≡◌, ◌∙◌, refl, sym, ap, Bool, true, false, not, ◌&&◌, Option, none, some, List, [], ◌∷◌,
  any, count, find, update_rows, map, str_eq, eq_iff, arith, ◌<◌, ◌≤◌, Bool-cases, Option-cases,
  inl, inr, All, All-at, All-map, All-of_each, All-update_rows, All-of_any, IsIn, find_found,
  find_missing, HasUnique, HasUnique-update_rows, HasUnique-same, one_hit, count_of_key, count_same,
  if◌then◌else◌,
}
use swim_flow_api.Policies.ClassTeacher.{
  TeacherRole, TeacherAssignment, is_head, with_role, normalize_from, normalize_assignments,
  plan_role_update, apply_role_update, update_teacher_role, demote,
}

normalize_from_lem :
    (assigned : Bool) (rows : List TeacherAssignment)
    → (count is_head (normalize_from assigned rows)
        ≡ (if not assigned && any is_head rows then 1 else 0))
      × (map (λ a. a.teacher_id) (normalize_from assigned rows) ≡ map (λ a. a.teacher_id) rows)
unfolding normalize_from
normalize_from_lem assigned [] = (ground arith, refl)
normalize_from_lem assigned (a ∷ rows) =
    let (n, ns) = normalize_from_lem assigned rows in
    let (t, ts) = normalize_from_lem true rows in
    elim (Bool-cases (is_head a && not assigned)) [
      | inl first ↦ rw first (ground (arith, t), ap (λ r. a.teacher_id ∷ r) ts)
      | inr other ↦ rw other (ground (arith, n), ap (λ r. a.teacher_id ∷ r) ns)
    ]

-- Normalized assignments list the same teachers in the same order, and one of them is head coach
-- if any was, otherwise none.
pub normalize_one_head :
    (rows : List TeacherAssignment)
    → (count is_head (normalize_assignments rows) ≡ (if any is_head rows then 1 else 0))
      × (map (λ a. a.teacher_id) (normalize_assignments rows) ≡ map (λ a. a.teacher_id) rows)
unfolding normalize_assignments
normalize_one_head rows = normalize_from_lem false rows

-- An update that makes no head coach makes the number of them no larger.
count_no_more :
    (p : TeacherAssignment → Bool) (f : TeacherAssignment → TeacherAssignment)
    (rows : List TeacherAssignment)
    → ((a : TeacherAssignment) → is_head (f a) ≡ false)
    → count is_head (update_rows p f rows) ≤ count is_head rows
count_no_more p f [] out = omega arith
count_no_more p f (a ∷ rows) out = ground (arith, out a, count_no_more p f rows out)

-- Where every head coach has one id, and ids are unique, there is one at most.
pub heads_of_id :
    (id : String) (rows : List TeacherAssignment)
    → HasUnique (λ a. a.id) rows
    → All (λ a. is_head a ≡ true → a.id ≡ id) rows
    → count is_head rows < 2
heads_of_id id rows unique heads =
    let same =
      count_same is_head (λ a. is_head a && str_eq a.id id) rows
        (All-map _ _ rows
          (λ a h. elim (Bool-cases (is_head a)) [
            | inl head ↦ ground (arith, head, (eq_iff a.id id).1 (h head))
            | inr none_head ↦ ground (arith, none_head)
          ])
          heads) in
    let few =
      count_of_key (λ a. a.id) id (λ a. is_head a && str_eq a.id id) rows
        (λ a h. (eq_iff a.id id).0 (ground (arith, h))) unique in
    ground (arith, same, few)

module _ (rows : List TeacherAssignment) (ids : HasUnique (λ a. a.id) rows)
    (teachers : HasUnique (λ a. a.teacher_id) rows) (one : count is_head rows < 2)
    (teacher_id : String) (assigned : TeacherAssignment)
    (found : find (λ a. str_eq a.teacher_id teacher_id) rows ≡ some assigned) where
  -- The rows once the planned link has been demoted: only the teacher's own link is head.
  demoted_heads :
      All
        (λ a. is_head a ≡ true → a.id ≡ assigned.id)
        (demote (plan_role_update rows teacher_id TeacherRole.head_coach).demoted rows)
  unfolding plan_role_update
  demoted_heads =
      let other : TeacherAssignment → Bool =
        λ a. is_head a && not (str_eq a.teacher_id teacher_id) in
      let (listed, same) = find_found (λ a. str_eq a.teacher_id teacher_id) rows assigned found in
      elim (Option-cases (find other rows)) [
        | inl none_found ↦
            let none_other = All-of_any other rows (find_missing other rows none_found) in
            rw none_found (
              All-of_each _ rows (λ a m head.
                let own : str_eq a.teacher_id teacher_id ≡ true =
                  ground (arith, All-at _ rows a none_other m, head) in
                ap (λ r. r.id)
                  (HasUnique-same (λ r. r.teacher_id) rows a assigned teachers m listed
                    ((eq_iff _ _).0 own ∙ sym ((eq_iff _ _).0 same)))))
        | inr (d, there) ↦
            let (md, hd) = find_found other rows d there in
            rw there (
              All-update_rows (λ a. IsIn a rows) _ (λ a. str_eq a.id d.id)
                (with_role TeacherRole.assistant_coach) rows (λ a m hit head. absurd (ground arith))
                (λ a m miss head.
                  let d_same : a ≡ d =
                    one_hit is_head rows a d one m md head (ground (arith, hd)) in
                  absurd (ground (arith, miss, (eq_iff a.id d.id).1 (ap (λ r. r.id) d_same))))
                (All-of_each _ rows (λ a m. m)))
      ]

  own_link : All (λ a. a.teacher_id ≡ teacher_id → a.id ≡ assigned.id) rows
  own_link =
      let (listed, same) = find_found (λ a. str_eq a.teacher_id teacher_id) rows assigned found in
      All-of_each _ rows (λ a m e.
        ap (λ r. r.id)
          (HasUnique-same (λ r. r.teacher_id) rows a assigned teachers m listed
            (e ∙ sym ((eq_iff _ _).0 same))))

  demote-All :
      (P : TeacherAssignment → Type 0) (d : Option String)
      → ((a : TeacherAssignment) → P a → P (with_role TeacherRole.assistant_coach a))
      → All P rows
      → All P (demote d rows)
  demote-All P none keep h = h
  demote-All P (some id) keep h =
      All-update_rows P P _ (with_role TeacherRole.assistant_coach) rows (λ a pa _. keep a pa)
        (λ a pa _. pa) h

  demote-HasUnique : (d : Option String) → HasUnique (λ a. a.id) (demote d rows)
  demote-HasUnique none = ids
  demote-HasUnique (some id) =
      HasUnique-update_rows (λ a. a.id) _ (with_role TeacherRole.assistant_coach) rows (λ a. refl)
        ids

  applied_heads :
      (requested : TeacherRole)
      → count is_head
          (apply_role_update (plan_role_update rows teacher_id requested) assigned.id rows)
        < 2
  unfolding apply_role_update plan_role_update
  applied_heads TeacherRole.assistant_coach = omega (
    arith,
    count_no_more (λ a. str_eq a.id assigned.id) (with_role TeacherRole.assistant_coach) rows
        (λ a. refl),
    one,
  )
  applied_heads TeacherRole.head_coach =
      let d = (plan_role_update rows teacher_id TeacherRole.head_coach).demoted in
      heads_of_id assigned.id _
        (HasUnique-update_rows (λ a. a.id) (λ a. str_eq a.id assigned.id)
          (with_role TeacherRole.head_coach) (demote d rows) (λ a. refl) (demote-HasUnique d))
        (All-update_rows _ _ (λ a. str_eq a.id assigned.id) (with_role TeacherRole.head_coach)
          (demote d rows) (λ a _ hit _. (eq_iff _ _).0 hit) (λ a h _. h) demoted_heads)

  applied_role :
      (requested : TeacherRole)
      → All
          (λ a. a.teacher_id ≡ teacher_id → a.role ≡ requested)
          (apply_role_update (plan_role_update rows teacher_id requested) assigned.id rows)
  unfolding apply_role_update plan_role_update
  applied_role requested =
      All-update_rows (λ a. a.teacher_id ≡ teacher_id → a.id ≡ assigned.id) _
        (λ a. str_eq a.id assigned.id) (with_role requested) _ (λ a _ _ _. refl)
        (λ a h miss e. absurd (ground (arith, miss, (eq_iff a.id assigned.id).1 (h e))))
        (demote-All (λ a. a.teacher_id ≡ teacher_id → a.id ≡ assigned.id) _ (λ a h. h) own_link)

-- A role update of a listed teacher, in a class with one head coach at most and unique links,
-- leaves one at most, and the teacher has the requested role.
pub role_update_one_head :
    (rows rows' : List TeacherAssignment) (teacher_id : String) (requested : TeacherRole)
    → HasUnique (λ a. a.id) rows
    → HasUnique (λ a. a.teacher_id) rows
    → count is_head rows < 2
    → update_teacher_role rows teacher_id requested ≡ some rows'
    → (count is_head rows' < 2) × All (λ a. a.teacher_id ≡ teacher_id → a.role ≡ requested) rows'
unfolding update_teacher_role
role_update_one_head rows rows' teacher_id requested ids teachers one h =
    elim (Option-cases (find (λ a. str_eq a.teacher_id teacher_id) rows)) [
      | inl missing ↦ absurd (ground (arith, missing, h))
      | inr (assigned, found) ↦
          let after : rows'
              ≡ apply_role_update (plan_role_update rows teacher_id requested) assigned.id rows =
            ground (arith, found, h) in
          rw after (
            applied_heads rows ids teachers one teacher_id assigned found requested,
            applied_role rows ids teachers one teacher_id assigned found requested,
          )
    ]
