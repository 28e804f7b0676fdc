-- ===== src/Classes/Secondary.antt =====
-- A transfer of a student that is always refused.
use swim_flow_api.Prelude.{
  ℕ, String, ◌≡◌, refl, ap, Bool, true, false, List, any, count, count-pos, update_rows, IsIn,
  IsIn-update_rows, any_of_IsIn, ok, err, str_eq, eq_iff, arith, Bool-cases, inl, inr, ◌==◌,
}
use swim_flow_api.Database.{Table, Transactions, settle, has_conflict, unique_violation}
use swim_flow_api.Database.Conflicts.{find_first_hit, has_conflict-update_rows}
use swim_flow_api.Students.Store.{ClassLink, same_link}
use swim_flow_api.Students.Repository.{is_open_in, is_open_link, closed, open_link}
use swim_flow_api.Classes.Enrolments.{
  TransferError, database, end_link, start_link, transfer_body, transfer_student,
}
use swim_flow_api.Classes.Moves.{same_id}

closing_left :
    (now : ℕ) (r s : ClassLink) → same_link (closed now r) s ≡ true → same_link r s ≡ true
closing_left now r s h = ground (arith, h)

closing_right :
    (now : ℕ) (r s : ClassLink) → same_link r (closed now s) ≡ true → same_link r s ≡ true
closing_right now r s h = ground (arith, h)

module _ (t : Table ClassLink same_link) (tx : Transactions TransferError Unit (List ClassLink))
    (source target : Bool) (now : ℕ) (new_id student from to : String) (rows : List ClassLink) where
  -- The body of the transfer of the link `l` while the open primary link `q` is in another class.
  transfer_body_refused :
      (l q : ClassLink)
      → has_conflict same_link rows ≡ false
      → IsIn l rows
      → is_open_in student from l ≡ true
      → IsIn q rows
      → is_open_link student q ≡ true
      → q.is_primary ≡ true
      → str_eq q.class_id from ≡ false
      → settle rows (transfer_body t now new_id l.id student to rows)
        ≡ (err (database unique_violation), rows)
  unfolding transfer_body end_link start_link
  transfer_body_refused l q whole m e mq live primary other =
      let p : ClassLink → Bool = λ r. str_eq r.id l.id in
      let ended = update_rows p (closed now) rows in
      let sound : has_conflict same_link ended ≡ false =
        has_conflict-update_rows same_link p (closed now) rows (closing_left now)
          (closing_right now) whole in
      let changed : (count p rows == 0) ≡ false =
        ground (arith, count-pos p rows l m ((eq_iff l.id l.id).1 refl)) in
      let taken : any (same_link (open_link new_id student to)) ended ≡ true =
        any_of_IsIn _ ended q kept_primary (ground (arith, live, primary)) in
      let ending : end_link t now l.id rows ≡ (ok tt, ended) =
        ground (arith, t.update_keys_lem p (closed now) rows, sound, changed) in
      let starting : start_link t (open_link new_id student to) ended
          ≡ (err (database unique_violation), ended) =
        ground (arith, t.create_lem (open_link new_id student to) ended, taken) in
      ground (arith, ending, starting)
    where
      kept_primary : IsIn q (update_rows (λ r. str_eq r.id l.id) (closed now) rows)
      kept_primary = elim (Bool-cases (str_eq q.id l.id)) [
        | inr miss ↦ rw miss at (IsIn-update_rows (λ r. str_eq r.id l.id) (closed now) q rows mq)
        | inl hit ↦
            let same : q ≡ l = same_id rows q l whole mq m hit in
            absurd (ground (arith, other, e, ap (λ x. str_eq x.class_id from) same))
      ]

  -- While the student has an open primary link in another class, a transfer of the student from a
  -- listed class, where the student has an open link, to a listed class, where the student has
  -- none, throws and changes nothing. The table's unique indexes hold before.
  pub transfer_student_secondary :
      (q : ClassLink)
      → has_conflict same_link rows ≡ false
      → (source ≡ true) × (target ≡ true)
      → any (is_open_in student from) rows ≡ true
      → any (is_open_in student to) rows ≡ false
      → IsIn q rows
      → (is_open_link student q ≡ true) × (q.is_primary ≡ true)
      → str_eq q.class_id from ≡ false
      → transfer_student t tx source target now new_id student from to rows
        ≡ (err (database unique_violation), rows)
  unfolding transfer_student
  transfer_student_secondary q whole (s_there, t_there) there free mq (live, primary) other =
      let (l, found, m, e) = find_first_hit t (is_open_in student from) rows there in
      let refused = transfer_body_refused l q whole m e mq live primary other in
      let ran = tx.run_lem (transfer_body t now new_id l.id student to) rows in
      ground (arith, s_there, t_there, found, free, ran, refused)
