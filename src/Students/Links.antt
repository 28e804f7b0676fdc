-- ===== src/Students/Links.antt =====
-- The class links that an update leaves: exactly the requested class is open.
use swim_flow_api.Prelude.{
  ℕ, String, ◌≡◌, ◌≢◌, refl, ap, false, not, ◌&&◌, ◌||◌, Option, none, some, List, [], ◌∷◌, ◌++◌,
  any, update_rows, any-append, any-update_rows, IsIn, IsIn-update_rows, IsIn-append_left, str_eq,
  eq_iff, arith, Bool-cases, inl, inr, if◌then◌else◌,
}
use swim_flow_api.Policies.Sets.{includes}
use swim_flow_api.Policies.StudentClass.{AssignmentPlan, is_open_after, is_next}
use swim_flow_api.Students.Store.{ClassLink, StudentsDb}
use swim_flow_api.Students.Repository.{
  StudentGenerated, is_open_in, open_class_ids, closed, made_primary, close_where, open_link,
}

abbrev pub with_links : StudentsDb → List ClassLink → StudentsDb
with_links db rows = record db { links = rows }

-- The rows after each part of a plan.
abbrev pub promoted_rows : String → AssignmentPlan → Option String → List ClassLink → List ClassLink
promoted_rows id plan none rows = rows
promoted_rows id plan (some next) rows =
    if plan.should_promote_existing_link
    then update_rows (is_open_in id next) made_primary rows
    else rows

abbrev pub created_rows :
    StudentGenerated → String → AssignmentPlan → Option String → List ClassLink → List ClassLink
created_rows g id plan none rows = rows
created_rows g id plan (some next) rows =
    if plan.should_create_next_class_link then rows ++ open_link g.link_id id next ∷ [] else rows

abbrev pub linked_rows :
    StudentGenerated → String → AssignmentPlan → List ClassLink → List ClassLink
linked_rows g id plan rows = created_rows g id plan plan.next_class_id (
    promoted_rows id plan plan.next_class_id
      (update_rows (close_where id plan.class_ids_to_close) (closed g.now) rows))

any_open_in :
    (id : String) (c : String) (rows : List ClassLink)
    → includes c (open_class_ids id rows) ≡ any (is_open_in id c) rows
any_open_in id c [] = refl
any_open_in id c (l ∷ rows) = ground (arith, any_open_in id c rows)

any_close :
    (now : ℕ) (id : String) (ids : List String) (c : String) (rows : List ClassLink)
    → any (is_open_in id c) (update_rows (close_where id ids) (closed now) rows)
      ≡ (any (is_open_in id c) rows && not (includes c ids))
any_close now id ids c [] = refl
any_close now id ids c (l ∷ rows) = elim (Bool-cases (is_open_in id c l)) [
  | inr other ↦ ground (arith, other, any_close now id ids c rows)
  | inl here ↦
      let same : includes l.class_id ids ≡ includes c ids =
        ap (λ x. includes x ids) ((eq_iff l.class_id c).0 (ground (arith, here))) in
      ground (arith, here, same, any_close now id ids c rows)
]

any_promote :
    (id : String) (plan : AssignmentPlan) (next : Option String) (c : String)
    (rows : List ClassLink)
    → any (is_open_in id c) (promoted_rows id plan next rows) ≡ any (is_open_in id c) rows
any_promote id plan none c rows = refl
any_promote id plan (some next) c rows = elim (Bool-cases plan.should_promote_existing_link) [
  | inl promote ↦
      rw promote
        (any-update_rows (is_open_in id c) (is_open_in id next) made_primary rows (λ l. refl))
  | inr keep ↦ rw keep refl
]

any_create :
    (g : StudentGenerated) (id : String) (plan : AssignmentPlan) (next : Option String) (c : String)
    (rows : List ClassLink)
    → any (is_open_in id c) (created_rows g id plan next rows)
      ≡ (any (is_open_in id c) rows || plan.should_create_next_class_link && is_next next c)
any_create g id plan none c rows = ground arith
any_create g id plan (some next) c rows = elim (Bool-cases plan.should_create_next_class_link) [
  | inl create ↦ rw create (
      ground (
        arith,
        any-append (is_open_in id c) rows (open_link g.link_id id next ∷ []),
        (eq_iff id id).1 refl,
      ))
  | inr keep ↦ rw keep (ground arith)
]

-- The plan carried out on the rows does what the policy describes.
pub linked_rows_open :
    (g : StudentGenerated) (id : String) (plan : AssignmentPlan) (c : String)
    (rows : List ClassLink)
    → any (is_open_in id c) (linked_rows g id plan rows)
      ≡ is_open_after plan (open_class_ids id rows) c
linked_rows_open g id plan c rows = ground (
  arith,
  any_create g id plan plan.next_class_id c (
      promoted_rows id plan plan.next_class_id
        (update_rows (close_where id plan.class_ids_to_close) (closed g.now) rows)),
  any_promote id plan plan.next_class_id c
      (update_rows (close_where id plan.class_ids_to_close) (closed g.now) rows),
  any_close g.now id plan.class_ids_to_close c rows,
  any_open_in id c rows,
)

-- A link of another student is in the rows that a plan leaves.
pub linked_rows_others :
    (g : StudentGenerated) (id : String) (plan : AssignmentPlan) (l : ClassLink)
    (rows : List ClassLink)
    → IsIn l rows
    → l.student_id ≢ id
    → IsIn l (linked_rows g id plan rows)
linked_rows_others g id plan l rows m other =
    let away : str_eq l.student_id id ≡ false = elim (Bool-cases (str_eq l.student_id id)) [
      | inl same ↦ absurd (other ((eq_iff _ _).0 same))
      | inr differs ↦ differs
    ] in
    let unhit : close_where id plan.class_ids_to_close l ≡ false = ground (arith, away) in
    create plan.next_class_id _ (
      promote plan.next_class_id _
        (rw unhit at
          (IsIn-update_rows (close_where id plan.class_ids_to_close) (closed g.now) l rows m))
        away)
  where
    promote :
        (next : Option String) (rows : List ClassLink)
        → IsIn l rows
        → str_eq l.student_id id ≡ false
        → IsIn l (promoted_rows id plan next rows)
    promote none rows m away = m
    promote (some next) rows m away = elim (Bool-cases plan.should_promote_existing_link) [
      | inr keep ↦ rw keep m
      | inl hit ↦
          let unhit : is_open_in id next l ≡ false = ground (arith, away) in
          rw hit (rw unhit at (IsIn-update_rows (is_open_in id next) made_primary l rows m))
    ]

    create :
        (next : Option String) (rows : List ClassLink)
        → IsIn l rows
        → IsIn l (created_rows g id plan next rows)
    create none rows m = m
    create (some next) rows m = elim (Bool-cases plan.should_create_next_class_link) [
      | inr keep ↦ rw keep m
      | inl hit ↦ rw hit (IsIn-append_left l rows (open_link g.link_id id next ∷ []) m)
    ]
