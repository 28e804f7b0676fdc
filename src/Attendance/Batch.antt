-- ===== src/Attendance/Batch.antt =====
-- A saved attendance batch is read back.
use swim_flow_api.Prelude.{
  ℕ, suc, String, ◌≡◌, ◌≢◌, ◌∙◌, refl, sym, ap, Bool, true, false, ◌&&◌, List, [], ◌∷◌, ◌++◌, any,
  any-append, any-kept, map, update_rows, All, IsIn, IsIn-update_rows, IsIn-append_left,
  any_of_IsIn, HasUnique, Outcome, ok, err, then_run-ok, str_eq, eq_iff, arith, Bool-cases,
  Option-cases, inl, inr, or_else,
}
use swim_flow_api.Database.{DbError, Table, Transactions}
use swim_flow_api.Database.Conflicts.{settle-ok}
use swim_flow_api.Policies.Attendance.{BatchError, record_key, assert_valid_batch}
use swim_flow_api.Policies.BatchValidity.{assert_valid_batch_iff}
use swim_flow_api.Attendance.Repository.{
  AttendanceStatus, SaveRecord, AttendanceRow, SaveError, SchoolRows, same_attendance,
  policy_record, get_batch_context, slot, recorded, new_row, saved, upsert_record, upsert_records,
  save_batch, when_valid, save_attendance_batch,
}

abbrev pub status_is : AttendanceStatus → AttendanceStatus → Bool
status_is AttendanceStatus.present AttendanceStatus.present = true
status_is AttendanceStatus.absent AttendanceStatus.absent = true
status_is AttendanceStatus.late AttendanceStatus.late = true
status_is AttendanceStatus.justified AttendanceStatus.justified = true
status_is _ _ = false

status_refl : (s : AttendanceStatus) → status_is s s ≡ true
status_refl AttendanceStatus.present = refl
status_refl AttendanceStatus.absent = refl
status_refl AttendanceStatus.late = refl
status_refl AttendanceStatus.justified = refl

module _ (t : Table AttendanceRow same_attendance) (day : String → String) where
  -- A row that says what a record of the batch says.
  abbrev pub holds : SaveRecord → AttendanceRow → Bool
  holds r a =
      slot t day r a
      && status_is a.status r.status
      && str_eq a.observations (or_else r.observations "")

  saved_ok :
      (rows rows' : List AttendanceRow) (o : Outcome DbError (List AttendanceRow))
      → saved t day rows o ≡ (ok tt, rows')
      → o ≡ ok rows'
  saved_ok rows rows' (ok r) h = ap ok (ap (λ x. x.1) h)
  saved_ok rows rows' (err e) h = absurd (ground arith)

  record_holds :
      (now : ℕ) (r : SaveRecord) (a : AttendanceRow)
      → slot t day r a ≡ true
      → holds r (recorded t day now r a) ≡ true
  record_holds now r a h =
      ground (arith, h, status_refl r.status, (eq_iff (or_else r.observations "") _).1 refl)

  update_holds :
      (now : ℕ) (r : SaveRecord) (rows : List AttendanceRow)
      → any (slot t day r) rows ≡ true
      → any (holds r) (update_rows (slot t day r) (recorded t day now r) rows) ≡ true
  update_holds now r [] h = h
  update_holds now r (a ∷ rows) h = elim (Bool-cases (slot t day r a)) [
    | inl hit ↦ rw hit (ground (arith, record_holds now r a hit))
    | inr miss ↦ rw miss (ground (arith, update_holds now r rows (ground (arith, miss, h))))
  ]

  new_row_holds : (id : String) (now : ℕ) (r : SaveRecord) → holds r (new_row t day id now r) ≡ true
  new_row_holds id now r = ground (
    arith,
    (eq_iff r.student_id _).1 refl,
    (eq_iff r.class_id _).1 refl,
    (eq_iff (day r.date) _).1 refl,
    status_refl r.status,
    (eq_iff (or_else r.observations "") _).1 refl,
  )

  -- What an upsert has done: its record is held, and rows of other slots are kept.
  pub record Upserted (r : SaveRecord) (rows rows' : List AttendanceRow) : Type 0 where
    pub held : any (holds r) rows' ≡ true
    pub others : (a : AttendanceRow) → IsIn a rows → slot t day r a ≡ false → IsIn a rows'
    pub still :
        (q : AttendanceRow → Bool)
        → ((a : AttendanceRow) → q a ≡ true → slot t day r a ≡ false)
        → any q rows ≡ true
        → any q rows' ≡ true

  upsert-Upserted :
      (id : String) (now : ℕ) (r : SaveRecord) (rows rows' : List AttendanceRow)
      → upsert_record t day id now r rows ≡ (ok tt, rows')
      → Upserted r rows rows'
  unfolding upsert_record
  upsert-Upserted id now r rows rows' h = elim (Option-cases (t.find_first (slot t day r) rows)) [
    | inl missing ↦
        let made : t.create (new_row t day id now r) rows ≡ ok rows' =
          saved_ok rows rows' _ (ground (arith, missing, h)) in
        let after : rows ++ new_row t day id now r ∷ [] ≡ rows' =
          ground (arith, made, t.create_lem (new_row t day id now r) rows) in
        rw (← after) (record {
          held = ground (
            arith,
            any-append (holds r) rows (new_row t day id now r ∷ []),
            new_row_holds id now r,
          );
          others = λ a m miss. IsIn-append_left a rows _ m;
          still = λ q apart there.
              ground (arith, any-append q rows (new_row t day id now r ∷ []), there);
        })
    | inr (a, found) ↦
        let (m, e) = t.find_first_found _ rows a found in
        let there : any (slot t day r) rows ≡ true = any_of_IsIn _ rows a m e in
        let made : t.update (slot t day r) (recorded t day now r) rows ≡ ok rows' =
          saved_ok rows rows' _ (ground (arith, found, h)) in
        let after : update_rows (slot t day r) (recorded t day now r) rows ≡ rows' = ground (
          arith,
          made,
          t.update_lem (slot t day r) (recorded t day now r) rows (λ p q. refl),
          there,
        ) in
        rw (← after) (record {
          held = update_holds now r rows there;
          others = λ b mb miss.
              rw miss at (IsIn-update_rows (slot t day r) (recorded t day now r) b rows mb);
          still = λ q apart hit. any-kept q (slot t day r) (recorded t day now r) rows apart hit;
        })
  ]

  batch_still :
      (draw : ℕ → String) (n now : ℕ) (rs : List SaveRecord) (rows rows' : List AttendanceRow)
      (q : AttendanceRow → Bool)
      → All (λ r. (a : AttendanceRow) → q a ≡ true → slot t day r a ≡ false) rs
      → upsert_records t day draw n now rs rows ≡ (ok tt, rows')
      → any q rows ≡ true
      → any q rows' ≡ true
  unfolding upsert_records
  batch_still draw n now [] rows rows' q apart h there =
      let same : rows ≡ rows' = ap (λ x. x.1) h in rw (← same) there
  batch_still draw n now (r ∷ rs) rows rows' q apart h there =
      let (_, mid, first, rest) = then_run-ok _ _ tt rows' h in
      let step = upsert-Upserted (draw n) now r rows mid first in
      batch_still draw (suc n) now rs mid rows' q apart.1 rest (step.still q apart.0 there)

  -- Records of one day have one date.
  abbrev pub IsFaithful : List SaveRecord → Type 0
  IsFaithful records =
      (a b : SaveRecord)
      → IsIn a records
      → IsIn b records
      → day a.date ≡ day b.date
      → a.date ≡ b.date

  slots_apart :
      (r q : SaveRecord)
      → (day r.date ≡ day q.date → r.date ≡ q.date)
      → record_key (policy_record q) ≢ record_key (policy_record r)
      → (a : AttendanceRow) → holds r a ≡ true
      → slot t day q a ≡ false
  slots_apart r q one_date other a h = elim (Bool-cases (slot t day q a)) [
    | inr miss ↦ miss
    | inl hit ↦
        let student : q.student_id ≡ r.student_id =
          sym ((eq_iff a.student_id q.student_id).0 (ground (arith, hit)))
          ∙ (eq_iff a.student_id r.student_id).0 (ground (arith, h)) in
        let class : q.class_id ≡ r.class_id =
          sym ((eq_iff a.class_id q.class_id).0 (ground (arith, hit)))
          ∙ (eq_iff a.class_id r.class_id).0 (ground (arith, h)) in
        let date : r.date ≡ q.date = one_date (
          sym ((eq_iff a.date (day r.date)).0 (ground (arith, h)))
          ∙ (eq_iff a.date (day q.date)).0 (ground (arith, hit))) in
        absurd (other (rw (student, class, date) refl))
  ]

  apart-All :
      (r : SaveRecord) (rs : List SaveRecord)
      → ((q : SaveRecord) → IsIn q rs → day r.date ≡ day q.date → r.date ≡ q.date)
      → All (λ k. record_key k ≢ record_key (policy_record r)) (map policy_record rs)
      → All (λ q. (a : AttendanceRow) → holds r a ≡ true → slot t day q a ≡ false) rs
  apart-All r [] one_date h = tt
  apart-All r (q ∷ rs) one_date h =
      (slots_apart r q (one_date q (inl refl)) h.0, apart-All r rs (λ p m. one_date p (inr m)) h.1)

  batch_holds :
      (draw : ℕ → String) (n now : ℕ) (rs : List SaveRecord) (rows rows' : List AttendanceRow)
      → IsFaithful rs
      → HasUnique record_key (map policy_record rs)
      → upsert_records t day draw n now rs rows ≡ (ok tt, rows')
      → All (λ r. any (holds r) rows' ≡ true) rs
        × ((a : AttendanceRow) → IsIn a rows → any (λ r. slot t day r a) rs ≡ false → IsIn a rows')
  unfolding upsert_records
  batch_holds draw n now [] rows rows' faithful unique h =
      let same : rows ≡ rows' = ap (λ x. x.1) h in (tt, (λ a m free. rw (← same) m))
  batch_holds draw n now (r ∷ rs) rows rows' faithful unique h =
      let (_, mid, first, rest) = then_run-ok _ _ tt rows' h in
      let step = upsert-Upserted (draw n) now r rows mid first in
      let apart = apart-All r rs (λ q m e. faithful r q (inl refl) (inr m) e) unique.0 in
      let (later, kept) =
        batch_holds draw (suc n) now rs mid rows' (λ a b ma mb. faithful a b (inr ma) (inr mb))
          unique.1 rest in
      (
        (batch_still draw (suc n) now rs mid rows' (holds r) apart rest step.held, later),
        (λ a m free. kept a (step.others a m (ground (arith, free))) (ground (arith, free))),
      )

  when_valid_ok :
      (rows rows' : List AttendanceRow) (o : Outcome BatchError Unit)
      (save : List AttendanceRow → Outcome SaveError Unit × List AttendanceRow)
      → when_valid t day o save rows ≡ (ok tt, rows')
      → (o ≡ ok tt) × (save rows ≡ (ok tt, rows'))
  when_valid_ok rows rows' (ok _) save k = (refl, k)
  when_valid_ok rows rows' (err e) save k = absurd (ground arith)

  module _ (tx : Transactions SaveError Unit (List AttendanceRow)) (draw : ℕ → String) (now : ℕ)
      (school : SchoolRows) (rows rows' : List AttendanceRow) where
    -- After a batch has been saved, each of its records is read back from its slot with its status
    -- and observations, and the rows of other slots are kept. Dates of the batch that differ are
    -- different days.
    pub save_attendance_batch_reads_back :
        (records : List SaveRecord)
        → IsFaithful records
        → save_attendance_batch t day tx draw now records school rows ≡ (ok tt, rows')
        → All (λ r. any (holds r) rows' ≡ true) records
          × ((a : AttendanceRow)
              → IsIn a rows
              → any (λ r. slot t day r a) records ≡ false
              → IsIn a rows')
    unfolding save_attendance_batch save_batch
    save_attendance_batch_reads_back [] faithful h =
        let same : rows ≡ rows' = ap (λ x. x.1) h in (tt, (λ a m free. rw (← same) m))
    save_attendance_batch_reads_back (r ∷ rs) faithful h =
        let batch = r ∷ rs in
        let context = get_batch_context batch school in
        let (accepted, saving) =
          when_valid_ok rows rows' (assert_valid_batch (map policy_record batch) context)
            (save_batch t day tx draw now batch) h in
        let valid = (assert_valid_batch_iff (map policy_record batch) context).0 accepted in
        let body =
          settle-ok rows rows' tt (upsert_records t day draw 0 now batch rows)
            (sym (tx.run_lem (upsert_records t day draw 0 now batch) rows) ∙ saving) in
        batch_holds draw 0 now batch rows rows' faithful valid.0 body
