-- ===== src/Classes/Enrolments.antt =====
-- transferStudent, on the links of all students.
use swim_flow_api.Prelude.{
  ℕ, String, Bool, not, none, some, List, any, Outcome, ok, err, then_run, str_eq, ◌==◌,
  if◌then◌else◌,
}
use swim_flow_api.Database.{DbError, Table, Transactions, record_not_found}
use swim_flow_api.Students.Store.{ClassLink, same_link}
use swim_flow_api.Students.Repository.{is_open_in, closed, open_link}

pub data TransferError : Type 0 where
  database : DbError → TransferError
  source_class_not_found target_class_not_found : TransferError
  student_not_in_source student_already_in_target : TransferError

module _ (t : Table ClassLink same_link) where
  -- `update` by the primary key, which ends the link.
  unfoldable pub end_link :
      ℕ → String → List ClassLink → Outcome TransferError Unit × List ClassLink
  end_link now id rows = elim (t.update_keys (λ l. str_eq l.id id) (closed now) rows) [
    | ok (rows', changed) ↦
        if changed == 0 then (err (database record_not_found), rows) else (ok tt, rows')
    | err e ↦ (err (database e), rows)
  ]

  unfoldable pub start_link :
      ClassLink → List ClassLink → Outcome TransferError Unit × List ClassLink
  start_link l rows = elim (t.create l rows) [
    | ok rows' ↦ (ok tt, rows')
    | err e ↦ (err (database e), rows)
  ]

  unfoldable pub transfer_body :
      ℕ
      → String
      → String
      → String
      → String
      → List ClassLink
      → Outcome TransferError Unit × List ClassLink
  transfer_body now new_id link_id student_id to rows =
      then_run (end_link now link_id rows)
        (λ _ rows. start_link (open_link new_id student_id to) rows)

  -- transferStudent; the new link has the id `new_id`.
  unfoldable pub transfer_student :
      Transactions TransferError Unit (List ClassLink)
      → (source_exists target_exists : Bool) → ℕ
      → String
      → String
      → (from to : String) → List ClassLink
      → Outcome TransferError Unit × List ClassLink
  transfer_student tx source_exists target_exists now new_id student_id from to rows =
      if not source_exists
      then (err source_class_not_found, rows)
      else if not target_exists
      then (err target_class_not_found, rows)
      else elim (t.find_first (is_open_in student_id from) rows) [
        | none ↦ (err student_not_in_source, rows)
        | some l ↦
            if any (is_open_in student_id to) rows
            then (err student_already_in_target, rows)
            else tx.run (transfer_body now new_id l.id student_id to) rows
      ]
