-- ===== src/Students/Tests.antt =====
-- The students repository at a concrete school.
use swim_flow_api.Prelude.{
  inl, inr, eq_iff, String, ◌≡◌, ◌≢◌, refl, Bool, true, false, ◌||◌, none, some, [], ◌∷◌, any, IsIn,
  ok, err, arith,
}
use swim_flow_api.Database.{Transactions, list_table, plain_transactions}
use swim_flow_api.Media.Store.{Target, same_binding}
use swim_flow_api.Media.Bindings.{slot_where}
use swim_flow_api.Policies.StudentClass.{plan_assignment}
use swim_flow_api.Students.Store.{
  SeasonCategory, ResultRow, Student, Guardian, ClassLink, StudentsDb, StudentError,
  season_category_locked, same_student, same_guardian, same_season, same_link,
}
use swim_flow_api.Students.Repository.{
  StudentTables, StudentGenerated, StudentInput, is_open_in, guardian_where, update_student,
  update_body, assert_season_free, assert_photo_allowed, write_student, reguard, update_guardians,
  upsert_guardian, create_guardian, upsert_season, create_season, relink, update_links, create_link,
}
use swim_flow_api.Students.Guardians.{HasPrincipal, is_given}
use swim_flow_api.Students.Update.{
  update_student_opens, update_student_guardians, update_student_photo,
}
use swim_flow_api.Students.Locked.{update_student_locked}

abbrev tables : StudentTables
tables = record {
  students = list_table same_student;
  guardians = list_table same_guardian;
  seasons = list_table same_season;
  links = list_table same_link;
  bindings = list_table same_binding;
}

abbrev running : Transactions StudentError Unit StudentsDb
running = plain_transactions

abbrev drawn : StudentGenerated
drawn = record { student_id = "s9"; link_id = "l9"; now = 70; read_date = λ d. d }

abbrev ana : Student
ana = record {
  id = "s1";
  name = "Ana";
  gender = "Feminino";
  birth_date = "2012-04-01";
  category_id = "k1";
  level_id = "v1";
  phone = "";
  photo = none;
  status = "Ativo";
  achievements = 0;
}

abbrev ana_in : String → ClassLink
ana_in class_id = record {
  id = "l1";
  student_id = "s1";
  class_id = class_id;
  is_primary = true;
  to_date = none;
}

abbrev bia_in : ClassLink
bia_in = record { id = "l2"; student_id = "s2"; class_id = "c1"; is_primary = true; to_date = none }

abbrev parent : String → Bool → Guardian
parent p primary = record { student_id = "s1"; parent_id = p; is_primary = primary }

abbrev school : StudentsDb
school = record {
  students = ana ∷ [];
  guardians = parent "p1" true ∷ parent "p2" false ∷ [];
  seasons = record { student_id = "s1"; season_id = "t1"; category_id = "k1" } ∷ [];
  links = ana_in "c1" ∷ bia_in ∷ [];
  pool_results = record { student_id = "s1"; season_id = none; event_season_id = some "t1" } ∷ [];
  open_water_results = [];
  bindings = [];
}

abbrev edit : StudentInput
edit = record {
  name = "Ana";
  gender = "Feminino";
  birth_date = "2012-04-01";
  category_id = "k1";
  level_id = "v1";
  phone = "";
  photo = some "http://new";
  status = "Ativo";
  parent_id = some "p2";
  class_id = some "c2";
  season_id = some "t1";
}

abbrev edited : StudentsDb
edited = record school {
  students = record ana { photo = some "http://new" } ∷ [];
  guardians = parent "p1" false ∷ parent "p2" true ∷ [];
  links =
      record (ana_in "c1") { to_date = some 70; is_primary = false }
      ∷ bia_in
      ∷ record (ana_in "c2") { id = "l9" }
      ∷ [];
}

updated : update_student tables running (λ s. s) drawn "s1" edit school ≡ (ok tt, edited)
unfolding update_student update_body assert_season_free assert_photo_allowed write_student reguard
    update_guardians upsert_guardian create_guardian upsert_season create_season relink update_links
    create_link plan_assignment
updated = refl

update_student_opens_example :
    (any (is_open_in "s1" "c1") edited.links ≡ false)
    × ((l : ClassLink) → IsIn l school.links → l.student_id ≢ "s1" → IsIn l edited.links)
update_student_opens_example =
    update_student_opens tables running (λ s. s) drawn "s1" edit school edited "c1" refl updated

update_student_guardians_example :
    HasPrincipal "s1" (some "p2") edited.guardians
    × ((q : String)
        → any (guardian_where "s1" q) edited.guardians
          ≡ (any (guardian_where "s1" q) school.guardians || is_given (some "p2") q))
update_student_guardians_example =
    update_student_guardians tables running (λ s. s) drawn "s1" edit school edited updated

update_student_photo_example : any (slot_where Target.student_photo "s1") school.bindings ≡ false
update_student_photo_example =
    update_student_photo tables running (λ s. s) drawn "s1" edit school edited refl updated

abbrev recorded : SeasonCategory
recorded = record { student_id = "s1"; season_id = "t1"; category_id = "k1" }

abbrev result : ResultRow
result = record { student_id = "s1"; season_id = none; event_season_id = some "t1" }

update_student_locked_example :
    update_student tables running (λ s. s) drawn "s1" (record edit { category_id = "k2" }) school
    ≡ (err season_category_locked, school)
update_student_locked_example =
    update_student_locked tables running (λ s. s) drawn "s1" (record edit { category_id = "k2" })
      school "t1" ana recorded result (inl refl) refl refl (ground (arith, eq_iff "t1" ""))
      (inl refl) refl refl (ground (arith, eq_iff "k1" "k2")) refl (inl (inl refl)) refl (inr refl)
