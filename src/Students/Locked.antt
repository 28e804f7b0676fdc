-- ===== src/Students/Locked.antt =====
-- A student's season category is fixed while results are linked to the season.
use swim_flow_api.Prelude.{
  ◌≢◌, ◌⊎◌, ◌∙◌, sym, inl, inr, Bool-cases, eq_iff, IsIn, any_of_IsIn, count-pos, String, ◌≡◌, refl,
  true, false, ◌||◌, some, count, ltb, err, str_eq, arith,
}
use swim_flow_api.Database.{Transactions, has_conflict}
use swim_flow_api.Database.Conflicts.{find_first_hit, no_conflict_same}
use swim_flow_api.Policies.StudentClass.{plan_assignment}
use swim_flow_api.Students.Store.{
  Student, SeasonCategory, ResultRow, StudentsDb, StudentError, season_category_locked, same_season,
}
use swim_flow_api.Students.Repository.{
  StudentTables, StudentGenerated, StudentInput, open_class_ids, is_linked_result, season_where,
  assert_season_free, update_body, update_student,
}

module _ (t : StudentTables) (tx : Transactions StudentError Unit StudentsDb)
    (trim : String → String) (g : StudentGenerated) (id : String) (i : StudentInput)
    (db : StudentsDb) (season : String) where
  no_category : (a b : String) → a ≢ b → str_eq a b ≡ false
  no_category a b apart = elim (Bool-cases (str_eq a b)) [
    | inr differs ↦ differs
    | inl same ↦ absurd (apart ((eq_iff a b).0 same))
  ]

  result-is_linked :
      (r : ResultRow)
      → r.student_id ≡ id
      → (r.season_id ≡ some season) ⊎ (r.event_season_id ≡ some season)
      → is_linked_result id season r ≡ true
  result-is_linked r own (inl direct) =
      ground (arith, (eq_iff r.student_id id).1 own, direct, (eq_iff season season).1 refl)
  result-is_linked r own (inr through) =
      ground (arith, (eq_iff r.student_id id).1 own, through, (eq_iff season season).1 refl)

  result-count :
      (r : ResultRow)
      → IsIn r db.pool_results ⊎ IsIn r db.open_water_results
      → is_linked_result id season r ≡ true
      → (ltb 0 (count (is_linked_result id season) db.pool_results)
          || ltb 0 (count (is_linked_result id season) db.open_water_results))
        ≡ true
  result-count r (inl m) w =
      ground (arith, count-pos (is_linked_result id season) db.pool_results r m w)
  result-count r (inr m) w =
      ground (arith, count-pos (is_linked_result id season) db.open_water_results r m w)

  -- Where the recorded category of a listed student in a season is not the one that an update gives
  -- for the season, and a pool or open-water result of the student names that season or is of an
  -- event of it, the update throws and changes nothing. A student has one category in a season, and
  -- the id of the season is not empty.
  pub update_student_locked :
      (student : Student) (recorded : SeasonCategory) (r : ResultRow)
      → IsIn student db.students
      → student.id ≡ id
      → i.season_id ≡ some season
      → season ≢ ""
      → IsIn recorded db.seasons
      → recorded.student_id ≡ id
      → recorded.season_id ≡ season
      → recorded.category_id ≢ i.category_id
      → has_conflict same_season db.seasons ≡ false
      → IsIn r db.pool_results ⊎ IsIn r db.open_water_results
      → r.student_id ≡ id
      → (r.season_id ≡ some season) ⊎ (r.event_season_id ≡ some season)
      → update_student t tx trim g id i db ≡ (err season_category_locked, db)
  unfolding update_student update_body assert_season_free
  update_student_locked student recorded r listed named given full there of_student of_season
        differs unique result own link =
      let full_b : str_eq season "" ≡ false = no_category season "" full in
      let (s, found_s, _, _) =
        find_first_hit t.students (λ q. str_eq q.id id) db.students
          (any_of_IsIn _ db.students student listed ((eq_iff student.id id).1 named)) in
      let own_season : season_where id season recorded ≡ true = ground (
        arith,
        (eq_iff recorded.student_id id).1 of_student,
        (eq_iff recorded.season_id season).1 of_season,
      ) in
      let (q, found, m, hit) =
        find_first_hit t.seasons (season_where id season) db.seasons
          (any_of_IsIn _ db.seasons recorded there own_season) in
      let q_student : q.student_id ≡ id = (eq_iff _ _).0 (ground (arith, hit)) in
      let q_season : q.season_id ≡ season = (eq_iff _ _).0 (ground (arith, hit)) in
      let same : q ≡ recorded =
        no_conflict_same same_season db.seasons q recorded unique m there
          (ground (
            arith,
            (eq_iff recorded.student_id q.student_id).1 (of_student ∙ sym q_student),
            (eq_iff recorded.season_id q.season_id).1 (of_season ∙ sym q_season),
          ))
          (ground (
            arith,
            (eq_iff q.student_id recorded.student_id).1 (q_student ∙ sym of_student),
            (eq_iff q.season_id recorded.season_id).1 (q_season ∙ sym of_season),
          )) in
      let apart : str_eq q.category_id i.category_id ≡ false =
        rw same (no_category recorded.category_id i.category_id differs) in
      let linked = result-count r result (result-is_linked r own link) in
      let refused : assert_season_free t id i.category_id season db
          ≡ (err season_category_locked, db) =
        ground (arith, found, apart, linked) in
      rw
        (
          found_s,
          tx.run_lem
              (update_body t g id i (plan_assignment trim (open_class_ids id db.links) i.class_id))
              db,
          given,
          full_b,
          refused,
        )
        refl
