-- ===== src/Classes/Moves.antt =====
-- What a transfer of a student does.
use swim_flow_api.Prelude.{
  ℕ, String, ◌≡◌, ◌≢◌, ◌∙◌, refl, sym, ap, Bool, true, false, not, ◌&&◌, ◌||◌, List, [], ◌∷◌, ◌++◌,
  any, update_rows, any-append, IsIn, IsIn-update_rows, IsIn-append_left, ok, then_run-ok, str_eq,
  eq_iff, arith, Bool-cases, Option-cases, inl, inr, if◌then◌else◌,
}
use swim_flow_api.Database.{Table, Transactions, has_conflict}
use swim_flow_api.Database.Conflicts.{settle-ok, no_conflict_same}
use swim_flow_api.Students.Store.{ClassLink, same_link}
use swim_flow_api.Students.Repository.{is_open_in, closed, open_link}
use swim_flow_api.Classes.Enrolments.{
  TransferError, end_link, start_link, transfer_body, transfer_student,
}

-- A predicate of updated rows, where each row keeps it as `b` says.
any_where :
    {Row : Type 0} (q p : Row → Bool) (f : Row → Row) (b : Bool) (rows : List Row)
    → ((r : Row) → IsIn r rows → q (if p r then f r else r) ≡ (q r && b))
    → any q (update_rows p f rows) ≡ (any q rows && b)
any_where q p f b [] each = refl
any_where q p f b (r ∷ rows) each =
    ground (arith, each r (inl refl), any_where q p f b rows (λ s m. each s (inr m)))

-- Two open links of one student in one class, and two links of one id, are one.
same_pair :
    (student class : String) (a b : ClassLink)
    → is_open_in student class a ≡ true
    → is_open_in student class b ≡ true
    → same_link a b ≡ true
same_pair student class a b ha hb = ground (
  arith,
  ha,
  hb,
  eq_iff a.student_id student,
  eq_iff b.student_id student,
  eq_iff b.student_id a.student_id,
  eq_iff a.class_id class,
  eq_iff b.class_id class,
  eq_iff b.class_id a.class_id,
)

-- Links of one id are one.
pub same_id :
    (rows : List ClassLink) (a b : ClassLink)
    → has_conflict same_link rows ≡ false
    → IsIn a rows
    → IsIn b rows
    → str_eq a.id b.id ≡ true
    → a ≡ b
same_id rows a b whole ma mb e =
    let swapped : str_eq b.id a.id ≡ true = (eq_iff _ _).1 (sym ((eq_iff _ _).0 e)) in
    no_conflict_same same_link rows a b whole ma mb (ground (arith, swapped)) (ground (arith, e))

-- Ending the open link of a student in `from` closes that class for the student and no other.
each_ended :
    (now : ℕ) (student from c : String) (rows : List ClassLink) (l r : ClassLink)
    → has_conflict same_link rows ≡ false
    → IsIn l rows
    → is_open_in student from l ≡ true
    → IsIn r rows
    → is_open_in student c (if str_eq r.id l.id then closed now r else r)
      ≡ (is_open_in student c r && not (str_eq from c))
each_ended now student from c rows l r whole ml hl mr = elim (Bool-cases (str_eq r.id l.id)) [
  | inl hit ↦
      let same : r ≡ l = same_id rows r l whole mr ml hit in
      let class : l.class_id ≡ from = (eq_iff _ _).0 (ground (arith, hl)) in
      let outcome : is_open_in student c l ≡ true → str_eq from c ≡ true =
        λ live. (eq_iff from c).1 (sym class ∙ (eq_iff l.class_id c).0 (ground (arith, live))) in
      rw (hit, same) (ground (arith, outcome))
  | inr miss ↦ rw miss (elim (Bool-cases (str_eq from c)) [
    | inr other ↦ ground (arith, other)
    | inl class ↦ elim (Bool-cases (is_open_in student c r)) [
      | inr shut ↦ ground (arith, shut)
      | inl live ↦
          let here : is_open_in student c l ≡ true = rw ((eq_iff from c).0 class) at hl in
          let same : r ≡ l =
            no_conflict_same same_link rows r l whole mr ml (same_pair student c r l live here)
              (same_pair student c l r here live) in
          absurd (ground (arith, miss, (eq_iff r.id l.id).1 (ap (λ x. x.id) same)))
    ]
  ])
]

module _ (t : Table ClassLink same_link) where
  end_link_ok :
      (now : ℕ) (id : String) (rows rows' : List ClassLink)
      → end_link t now id rows ≡ (ok tt, rows')
      → rows' ≡ update_rows (λ l. str_eq l.id id) (closed now) rows
  unfolding end_link
  end_link_ok now id rows rows' h =
      let p : ClassLink → Bool = λ l. str_eq l.id id in
      elim (Bool-cases (has_conflict same_link (update_rows p (closed now) rows))) [
        | inl taken ↦ absurd (ground (arith, t.update_keys_lem p (closed now) rows, taken, h))
        | inr fresh ↦ ground (arith, t.update_keys_lem p (closed now) rows, fresh, h)
      ]

  start_link_ok :
      (l : ClassLink) (rows rows' : List ClassLink)
      → start_link t l rows ≡ (ok tt, rows')
      → rows' ≡ rows ++ l ∷ []
  unfolding start_link
  start_link_ok l rows rows' h = elim (Bool-cases (any (same_link l) rows)) [
    | inl taken ↦ absurd (ground (arith, t.create_lem l rows, taken, h))
    | inr fresh ↦ ground (arith, t.create_lem l rows, fresh, h)
  ]

  transfer_body_ok :
      (now : ℕ) (new_id link_id student to : String) (rows rows' : List ClassLink)
      → transfer_body t now new_id link_id student to rows ≡ (ok tt, rows')
      → rows'
        ≡ update_rows (λ l. str_eq l.id link_id) (closed now) rows
          ++ open_link new_id student to ∷ []
  unfolding transfer_body
  transfer_body_ok now new_id link_id student to rows rows' h =
      let (_, s, first, second) = then_run-ok _ _ tt rows' h in
      let ended = end_link_ok now link_id rows s first in
      rw (← ended) (start_link_ok (open_link new_id student to) s rows' second)

  module _ (tx : Transactions TransferError Unit (List ClassLink)) (source target : Bool) (now : ℕ)
      (new_id student from to : String) (rows : List ClassLink) where
    -- The link that a transfer which returns has ended, and the rows it leaves.
    transfer_student_ok :
        (rows' : List ClassLink)
        → transfer_student t tx source target now new_id student from to rows ≡ (ok tt, rows')
        → (l : ClassLink) × IsIn l rows
          × (is_open_in student from l ≡ true)
          × (rows'
              ≡ update_rows (λ r. str_eq r.id l.id) (closed now) rows
                ++ open_link new_id student to ∷ [])
    unfolding transfer_student
    transfer_student_ok rows' h =
        elim (Option-cases (t.find_first (is_open_in student from) rows)) [
          | inl missing ↦ absurd (ground (arith, missing, h))
          | inr (l, found) ↦
              let (m, e) = t.find_first_found _ rows l found in
              let ran : tx.run (transfer_body t now new_id l.id student to) rows ≡ (ok tt, rows') =
                ground (arith, found, h) in
              let body =
                settle-ok rows rows' tt (transfer_body t now new_id l.id student to rows)
                  (sym (tx.run_lem (transfer_body t now new_id l.id student to) rows) ∙ ran) in
              (l, m, e, transfer_body_ok now new_id l.id student to rows rows' body)
        ]

    -- After a transfer that returns, the student's open links are those of before, without the
    -- source class and with the target class, and the links of other students are kept. The
    -- table's unique indexes hold before.
    pub transfer_student_moves :
        (rows' : List ClassLink)
        → has_conflict same_link rows ≡ false
        → transfer_student t tx source target now new_id student from to rows ≡ (ok tt, rows')
        → ((c : String)
            → any (is_open_in student c) rows'
              ≡ (any (is_open_in student c) rows && not (str_eq from c) || str_eq to c))
          × ((l : ClassLink) → IsIn l rows → l.student_id ≢ student → IsIn l rows')
    transfer_student_moves rows' whole h =
        let (l, m, live, after) = transfer_student_ok rows' h in
        let p : ClassLink → Bool = λ r. str_eq r.id l.id in
        let ended = update_rows p (closed now) rows in
        rw after (
          (λ c. ground (
            arith,
            any-append (is_open_in student c) ended (open_link new_id student to ∷ []),
            any_where (is_open_in student c) p (closed now) (not (str_eq from c)) rows
                (λ r mr. each_ended now student from c rows l r whole m live mr),
            (eq_iff student student).1 refl,
          )),
          (λ o mo other.
              IsIn-append_left o ended (open_link new_id student to ∷ [])
                (kept l m live o mo other)),
        )
      where
        kept :
            (l : ClassLink)
            → IsIn l rows
            → is_open_in student from l ≡ true
            → (o : ClassLink) → IsIn o rows
            → o.student_id ≢ student
            → IsIn o (update_rows (λ r. str_eq r.id l.id) (closed now) rows)
        kept l m live o mo other = elim (Bool-cases (str_eq o.id l.id)) [
          | inr miss ↦ rw miss at (IsIn-update_rows (λ r. str_eq r.id l.id) (closed now) o rows mo)
          | inl hit ↦
              let same : o ≡ l = same_id rows o l whole mo m hit in
              absurd (other (ap (λ x. x.student_id) same ∙ (eq_iff _ _).0 (ground (arith, live))))
        ]
