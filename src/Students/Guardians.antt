-- ===== src/Students/Guardians.antt =====
-- The guardians that an update leaves: the requested parent alone is the principal.
use swim_flow_api.Prelude.{
  String, ◌≡◌, ◌∙◌, refl, sym, ap, subst, Bool, true, false, ◌||◌, Option, none, some, List, [],
  ◌∷◌, ◌++◌, any, update_rows, any-append, any-update_rows, All, All-append, All-update_rows,
  All-of_each, All-map, ok, then_run-ok, str_eq, eq_iff, arith, Bool-cases, Option-cases, inl, inr,
  if◌then◌else◌, any_of_IsIn,
}
use swim_flow_api.Database.{has_conflict}
use swim_flow_api.Students.Store.{Guardian, StudentsDb, same_guardian}
use swim_flow_api.Students.Repository.{
  StudentTables, when_given, with_primary, guardian_where, primary_where, update_guardians,
  create_guardian, upsert_guardian, reguard,
}
use swim_flow_api.Students.Steps.{stored_ok}

abbrev pub with_guardians : StudentsDb → List Guardian → StudentsDb
with_guardians db rows = record db { guardians = rows }

-- Whether a nullable text is given and is `q`.
abbrev pub is_given : Option String → String → Bool
is_given none q = false
is_given (some p) q = if str_eq p "" then false else str_eq p q

-- The guardians of a student are principal exactly when they are the given parent.
abbrev pub HasPrincipal : String → Option String → List Guardian → Type 0
HasPrincipal id parent_id =
    All (λ g. g.student_id ≡ id → g.is_primary ≡ is_given parent_id g.parent_id)

-- After a principal is set: what the rows say of the student's guardians.
pub record Guarded (id : String) (parent_id : Option String) (db s : StudentsDb) : Type 0 where
  pub principal : HasPrincipal id parent_id s.guardians
  pub listed :
      (q : String)
      → any (guardian_where id q) s.guardians
        ≡ (any (guardian_where id q) db.guardians || is_given parent_id q)
  pub rest : s ≡ with_guardians db s.guardians

module _ (t : StudentTables) where
  update_guardians_ok :
      (p : Guardian → Bool) (b : Bool) (db s : StudentsDb)
      → update_guardians t p b db ≡ (ok tt, s)
      → s ≡ with_guardians db (update_rows p (with_primary b) db.guardians)
  unfolding update_guardians
  update_guardians_ok p b db s h =
      let law = t.guardians.update_keys_lem p (with_primary b) db.guardians in
      let (r, e, after) =
        stored_ok _ _ db s tt (t.guardians.update_keys p (with_primary b) db.guardians) h in
      elim (Bool-cases (has_conflict same_guardian (update_rows p (with_primary b) db.guardians))) [
        | inl taken ↦ absurd (ground (arith, e, law, taken))
        | inr fresh ↦
            let rows : r.0 ≡ update_rows p (with_primary b) db.guardians =
              ground (arith, e, law, fresh) in
            after ∙ ap (with_guardians db) rows
      ]

  create_guardian_ok :
      (id p : String) (db s : StudentsDb)
      → create_guardian t id p db ≡ (ok tt, s)
      → s
        ≡ with_guardians db
            (db.guardians ++ record { student_id = id; parent_id = p; is_primary = true } ∷ [])
  unfolding create_guardian
  create_guardian_ok id p db s h =
      let g : Guardian = record { student_id = id; parent_id = p; is_primary = true } in
      let law = t.guardians.create_lem g db.guardians in
      let (r, e, after) = stored_ok _ _ db s tt (t.guardians.create g db.guardians) h in
      elim (Bool-cases (any (same_guardian g) db.guardians)) [
        | inl taken ↦ absurd (ground (arith, e, law, taken))
        | inr fresh ↦
            let rows : r ≡ db.guardians ++ g ∷ [] = ground (arith, e, law, fresh) in
            after ∙ ap (with_guardians db) rows
      ]

  -- The rows in which no guardian of the student is principal.
  demoted_none :
      (id : String) (rows : List Guardian)
      → HasPrincipal id none (update_rows (primary_where id) (with_primary false) rows)
  demoted_none id rows =
      All-update_rows (λ g. Unit {0}) _ (primary_where id) (with_primary false) rows
        (λ g _ _ _. refl) (λ g _ miss e. ground (arith, miss, (eq_iff g.student_id id).1 e))
        (All-of_each _ rows (λ g m. tt))

  upsert_guardian_ok :
      (id p : String) (db s : StudentsDb)
      → str_eq p "" ≡ false
      → HasPrincipal id none db.guardians
      → upsert_guardian t id p db ≡ (ok tt, s)
      → Guarded id (some p) db s
  unfolding upsert_guardian
  upsert_guardian_ok id p db s given before h =
      elim (Option-cases (t.guardians.find_first (guardian_where id p) db.guardians)) [
        | inr (g, found) ↦
            let (m, hit) = t.guardians.find_first_found _ _ g found in
            let there : any (guardian_where id p) db.guardians ≡ true =
              any_of_IsIn (guardian_where id p) db.guardians g m hit in
            let after =
              update_guardians_ok (guardian_where id p) true db s (ground (arith, found, h)) in
            rw after (record {
              principal =
                  All-update_rows _ _ (guardian_where id p) (with_primary true) db.guardians
                    (λ q at w e.
                      ground (arith, w, given, eq_iff p q.parent_id, eq_iff q.parent_id p))
                    (λ q at w e. ground (
                      arith,
                      at e,
                      w,
                      given,
                      (eq_iff q.student_id id).1 e,
                      eq_iff p q.parent_id,
                      eq_iff q.parent_id p,
                    ))
                    before;
              listed = λ q.
                  any-update_rows (guardian_where id q) (guardian_where id p) (with_primary true)
                    db.guardians (λ r. refl)
                  ∙ known q there;
              rest = refl;
            })
        | inl missing ↦
            let absent : any (guardian_where id p) db.guardians ≡ false =
              t.guardians.find_first_missing _ _ missing in
            let new : Guardian = record { student_id = id; parent_id = p; is_primary = true } in
            let after = create_guardian_ok id p db s (ground (arith, missing, h)) in
            rw after (record {
              principal =
                  All-append _ db.guardians (new ∷ []) (strangers db.guardians before absent)
                    ((λ _. ground (arith, given, (eq_iff p p).1 refl)), tt);
              listed = λ q. ground (
                arith,
                any-append (guardian_where id q) db.guardians (new ∷ []),
                given,
                (eq_iff id id).1 refl,
              );
              rest = refl;
            })
      ]
    where
      known :
          (q : String)
          → any (guardian_where id p) db.guardians ≡ true
          → any (guardian_where id q) db.guardians
            ≡ (any (guardian_where id q) db.guardians || is_given (some p) q)
      known q there = elim (Bool-cases (str_eq p q)) [
        | inr other ↦ ground (arith, other)
        | inl same ↦
            let own : any (guardian_where id q) db.guardians ≡ true =
              ap (λ x. any (guardian_where id x) db.guardians) (sym ((eq_iff p q).0 same))
              ∙ there in
            ground (arith, own)
      ]

      strangers :
          (rows : List Guardian)
          → HasPrincipal id none rows
          → any (guardian_where id p) rows ≡ false
          → HasPrincipal id (some p) rows
      strangers [] all none_hit = tt
      strangers (g ∷ rows) all none_hit = (
        (λ e. ground (
          arith,
          all.0 e,
          (eq_iff g.student_id id).1 e,
          none_hit,
          given,
          eq_iff p g.parent_id,
          eq_iff g.parent_id p,
        )),
        strangers rows all.1 (ground (arith, none_hit)),
      )

  pub reguard_ok :
      (id : String) (parent_id : Option String) (db s : StudentsDb)
      → reguard t id parent_id db ≡ (ok tt, s)
      → Guarded id parent_id db s
  unfolding reguard
  reguard_ok id parent_id db s h =
      let (a, s1, first, second) = then_run-ok _ _ tt s h in
      let after = update_guardians_ok (primary_where id) false db s1 first in
      let same : (q : String)
          → any (guardian_where id q) s1.guardians ≡ any (guardian_where id q) db.guardians =
        λ q. rw after (
          any-update_rows (guardian_where id q) (primary_where id) (with_primary false) db.guardians
            (λ g. refl)) in
      let clear : HasPrincipal id none s1.guardians = rw after (demoted_none id db.guardians) in
      finish parent_id s1 s after same clear second
    where
      unset :
          (parent : Option String) (s1 : StudentsDb)
          → ((q : String) → is_given parent q ≡ false)
          → s1
            ≡ with_guardians db (update_rows (primary_where id) (with_primary false) db.guardians)
          → ((q : String)
              → any (guardian_where id q) s1.guardians ≡ any (guardian_where id q) db.guardians)
          → HasPrincipal id none s1.guardians
          → Guarded id parent db s1
      unset parent s1 empty after same clear = record {
        principal = All-map _ _ s1.guardians (λ g at e. at e ∙ sym (empty g.parent_id)) clear;
        listed = λ q. ground (arith, same q, empty q);
        rest = after ∙ ap (with_guardians db) (sym (ap (λ x. x.guardians) after));
      }

      finish :
          (parent : Option String) (s1 s : StudentsDb)
          → s1
            ≡ with_guardians db (update_rows (primary_where id) (with_primary false) db.guardians)
          → ((q : String)
              → any (guardian_where id q) s1.guardians ≡ any (guardian_where id q) db.guardians)
          → HasPrincipal id none s1.guardians
          → when_given parent (upsert_guardian t id) s1 ≡ (ok tt, s)
          → Guarded id parent db s
      finish none s1 s after same clear e =
          let here : s1 ≡ s = ground (arith, e) in
          subst (λ x. Guarded id none db x) here (unset none s1 (λ q. refl) after same clear)
      finish (some p) s1 s after same clear e = elim (Bool-cases (str_eq p "")) [
        | inl empty ↦
            let here : s1 ≡ s = ground (arith, e, empty) in
            subst (λ x. Guarded id (some p) db x) here
              (unset (some p) s1 (λ q. ground (arith, empty)) after same clear)
        | inr given ↦
            let g = upsert_guardian_ok id p s1 s given clear (ground (arith, e, given)) in
            record {
              principal = g.principal;
              listed = λ q. ground (arith, g.listed q, same q);
              rest = g.rest ∙ ap (λ x. with_guardians x s.guardians) after;
            }
      ]
