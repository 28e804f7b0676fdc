-- ===== src/Students/Update.antt =====
-- What an update of a student has done when it returns, and that one which throws changes nothing.
use swim_flow_api.Prelude.{
  String, ◌≡◌, ◌≢◌, ◌∙◌, refl, sym, ap, subst, true, false, ◌||◌, Option, none, some, any, IsIn,
  any_of_IsIn, Outcome, ok, then_run-ok, str_eq, arith, Bool-cases, Option-cases, inl, inr, is_some,
  truthy,
}
use swim_flow_api.Database.{Transactions}
use swim_flow_api.Database.Conflicts.{settle-ok}
use swim_flow_api.Media.Store.{Target}
use swim_flow_api.Media.Bindings.{slot_where}
use swim_flow_api.Policies.StudentClass.{
  AssignmentPlan, plan_assignment, is_next, requested_id, is_nonempty, plan_assignment_opens,
}
use swim_flow_api.Students.Store.{ClassLink, StudentsDb, StudentError}
use swim_flow_api.Students.Repository.{
  StudentTables, StudentGenerated, StudentInput, when_given, is_open_in, open_class_ids,
  season_where, guardian_where, assert_photo_allowed, assert_season_free, write_student,
  create_season, upsert_season, update_body, update_student,
}
use swim_flow_api.Students.Links.{linked_rows, linked_rows_open, linked_rows_others}
use swim_flow_api.Students.Guardians.{HasPrincipal, is_given, reguard_ok}
use swim_flow_api.Students.Steps.{stored_ok, relink_ok}

-- A statement that keeps the guardians and the links.
record Kept (db s : StudentsDb) : Type 0 where
  guardians : s.guardians ≡ db.guardians
  links : s.links ≡ db.links

module _ (t : StudentTables) where
  when_given_ok :
      (act : String → StudentsDb → Outcome StudentError Unit × StudentsDb) (o : Option String)
      (db s : StudentsDb)
      → ((x : String) → act x db ≡ (ok tt, s) → Kept db s)
      → when_given o act db ≡ (ok tt, s)
      → Kept db s
  when_given_ok act none db s keep h =
      let same : db ≡ s = ground arith in rw (← same) (record { guardians = refl; links = refl })
  when_given_ok act (some x) db s keep h = elim (Bool-cases (str_eq x "")) [
    | inr given ↦ keep x (ground (arith, h, given))
    | inl empty ↦
        let same : db ≡ s = ground (arith, h, empty) in
        rw (← same) (record { guardians = refl; links = refl })
  ]

  assert_season_free_ok :
      (id category season : String) (db s : StudentsDb)
      → assert_season_free t id category season db ≡ (ok tt, s)
      → s ≡ db
  unfolding assert_season_free
  assert_season_free_ok id category season db s h =
      elim (Option-cases (t.seasons.find_first (season_where id season) db.seasons)) [
        | inl missing ↦ ground (arith, missing, h)
        | inr (recorded, found) ↦ ground (arith, found, h)
      ]

  assert_photo_allowed_ok :
      (id : String) (photo : Option String) (db s : StudentsDb)
      → assert_photo_allowed t id photo db ≡ (ok tt, s)
      → s ≡ db
  unfolding assert_photo_allowed
  assert_photo_allowed_ok id photo db s h = ground (arith, h)

  write_student-Kept :
      (read_date : String → String) (id : String) (i : StudentInput) (db s : StudentsDb)
      → write_student t read_date id i db ≡ (ok tt, s)
      → Kept db s
  unfolding write_student
  write_student-Kept read_date id i db s h =
      let (rows, e, after) = stored_ok _ _ db s tt _ h in
      rw after (record { guardians = refl; links = refl })

  create_season-Kept :
      (id category season : String) (db s : StudentsDb)
      → create_season t id category season db ≡ (ok tt, s)
      → Kept db s
  unfolding create_season
  create_season-Kept id category season db s h =
      let (rows, e, after) = stored_ok _ _ db s tt _ h in
      rw after (record { guardians = refl; links = refl })

  upsert_season-Kept :
      (id category season : String) (db s : StudentsDb)
      → upsert_season t id category season db ≡ (ok tt, s)
      → Kept db s
  unfolding upsert_season
  upsert_season-Kept id category season db s h =
      elim (Option-cases (t.seasons.find_first (season_where id season) db.seasons)) [
        | inl missing ↦ create_season-Kept id category season db s (ground (arith, missing, h))
        | inr (recorded, found) ↦
            let (rows, e, after) =
              stored_ok (λ _. tt) (λ rows. record db { seasons = rows }) db s tt
                (t.seasons.update (season_where id season)
                  (λ r. record r { category_id = category }) db.seasons)
                (ground (arith, found, h)) in
            rw after (record { guardians = refl; links = refl })
      ]

  -- What the body of an update has done when it returns.
  record Done (g : StudentGenerated) (id : String) (i : StudentInput) (plan : AssignmentPlan)
      (db s : StudentsDb) : Type 0 where
    principal : HasPrincipal id i.parent_id s.guardians
    listed :
        (q : String)
        → any (guardian_where id q) s.guardians
          ≡ (any (guardian_where id q) db.guardians || is_given i.parent_id q)
    links : s.links ≡ linked_rows g id plan db.links
    photo : assert_photo_allowed t id i.photo db ≡ (ok tt, db)

  season_check_ok :
      (id : String) (i : StudentInput) (db s : StudentsDb)
      → when_given i.season_id (assert_season_free t id i.category_id) db ≡ (ok tt, s)
      → s ≡ db
  season_check_ok id i db s h = from i.season_id h
    where
      from :
          (o : Option String)
          → when_given o (assert_season_free t id i.category_id) db ≡ (ok tt, s)
          → s ≡ db
      from none e = ground arith
      from (some x) e = elim (Bool-cases (str_eq x "")) [
        | inl empty ↦ ground (arith, e, empty)
        | inr given ↦ assert_season_free_ok id i.category_id x db s (ground (arith, e, given))
      ]

  update_body-Done :
      (g : StudentGenerated) (id : String) (i : StudentInput) (plan : AssignmentPlan)
      (db s : StudentsDb)
      → update_body t g id i plan db ≡ (ok tt, s)
      → Done g id i plan db s
  unfolding update_body
  update_body-Done g id i plan db s h =
      let (_, s1, h1, k1) = then_run-ok _ _ tt s h in
      let (_, s2, h2, k2) = then_run-ok _ _ tt s k1 in
      let (_, s3, h3, k3) = then_run-ok _ _ tt s k2 in
      let (_, s4, h4, k4) = then_run-ok _ _ tt s k3 in
      let (_, s5, h5, k5) = then_run-ok _ _ tt s k4 in
      let e1 : s1 ≡ db = season_check_ok id i db s1 h1 in
      let e2 : s2 ≡ s1 = assert_photo_allowed_ok id i.photo s1 s2 h2 in
      let e3 = write_student-Kept g.read_date id i s2 s3 h3 in
      let e4 = reguard_ok t id i.parent_id s3 s4 h4 in
      let e5 =
        when_given_ok (upsert_season t id i.category_id) i.season_id s4 s5
          (λ x e. upsert_season-Kept id i.category_id x s4 s5 e) h5 in
      let e6 = relink_ok t g id plan s5 s k5 in
      let guards : s.guardians ≡ s4.guardians = ap (λ x. x.guardians) e6 ∙ e5.guardians in
      let before : s3.guardians ≡ db.guardians = e3.guardians ∙ ap (λ x. x.guardians) (e2 ∙ e1) in
      let unlinked : s5.links ≡ db.links =
        e5.links ∙ ap (λ x. x.links) e4.rest ∙ e3.links ∙ ap (λ x. x.links) (e2 ∙ e1) in
      record {
        principal = subst (HasPrincipal id i.parent_id) (sym guards) e4.principal;
        listed = λ q. ground (
          arith,
          ap (λ x. any (guardian_where id q) x) guards,
          e4.listed q,
          ap (λ x. any (guardian_where id q) x) before,
        );
        links = ap (λ x. x.links) e6 ∙ ap (linked_rows g id plan) unlinked;
        photo =
            subst (λ x. assert_photo_allowed t id i.photo x ≡ (ok tt, x)) e1
              (subst (λ x. assert_photo_allowed t id i.photo s1 ≡ (ok tt, x)) e2 h2);
      }

  module _ (tx : Transactions StudentError Unit StudentsDb) (trim : String → String)
      (g : StudentGenerated) (id : String) (i : StudentInput) (db db' : StudentsDb) where
    update_student-Done :
        update_student t tx trim g id i db ≡ (ok tt, db')
        → Done g id i (plan_assignment trim (open_class_ids id db.links) i.class_id) db db'
          × (is_some (t.students.find_first (λ s. str_eq s.id id) db.students) ≡ true)
    unfolding update_student
    update_student-Done h =
        let plan = plan_assignment trim (open_class_ids id db.links) i.class_id in
        elim (Bool-cases (is_some (t.students.find_first (λ s. str_eq s.id id) db.students))) [
          | inr missing ↦ absurd (ground (arith, missing, h))
          | inl there ↦ (
            update_body-Done g id i plan db db' (
                settle-ok db db' tt (update_body t g id i plan db)
                  (rw (there, tx.run_lem (update_body t g id i plan) db) at h)),
            there,
          )
        ]

    -- After an update that returns, the student is open in the requested class and in no other, or
    -- in none where none is requested; the links of other students are kept. The class id is not
    -- empty.
    pub update_student_opens :
        (c : String)
        → is_nonempty c ≡ true
        → update_student t tx trim g id i db ≡ (ok tt, db')
        → (any (is_open_in id c) db'.links ≡ is_next (requested_id trim i.class_id) c)
          × ((l : ClassLink) → IsIn l db.links → l.student_id ≢ id → IsIn l db'.links)
    update_student_opens c full h =
        let plan = plan_assignment trim (open_class_ids id db.links) i.class_id in
        let (done, _) = update_student-Done h in
        rw done.links (
          linked_rows_open g id plan c db.links
              ∙ plan_assignment_opens trim (open_class_ids id db.links) i.class_id c full,
          (λ l m other. linked_rows_others g id plan l db.links m other),
        )

    -- After an update that returns, the given parent is a guardian of the student and the only
    -- principal one, none is principal where no parent is given, and no guardian has been lost or
    -- added but that parent.
    pub update_student_guardians :
        update_student t tx trim g id i db ≡ (ok tt, db')
        → HasPrincipal id i.parent_id db'.guardians
          × ((q : String)
              → any (guardian_where id q) db'.guardians
                ≡ (any (guardian_where id q) db.guardians || is_given i.parent_id q))
    update_student_guardians h =
        let (done, _) = update_student-Done h in (done.principal, done.listed)

    -- An update that returns and writes a photo has found no active private image of the student.
    pub update_student_photo :
        truthy i.photo ≡ true
        → update_student t tx trim g id i db ≡ (ok tt, db')
        → any (slot_where Target.student_photo id) db.bindings ≡ false
    unfolding assert_photo_allowed
    update_student_photo given h =
        let (done, there) = update_student-Done h in
        let listed : any (λ s. str_eq s.id id) db.students ≡ true =
          elim (Option-cases (t.students.find_first (λ s. str_eq s.id id) db.students)) [
            | inl missing ↦ absurd (ground (arith, missing, there))
            | inr (s, found) ↦
                let (m, e) =
                  t.students.find_first_found (λ r. str_eq r.id id) db.students s found in
                any_of_IsIn (λ r. str_eq r.id id) db.students s m e
          ] in
        elim (Option-cases
          (t.bindings.find_first (slot_where Target.student_photo id) db.bindings)) [
            | inl none_active ↦ t.bindings.find_first_missing _ _ none_active
            | inr (b, active) ↦ absurd (ground (arith, done.photo, given, listed, active))
          ]
