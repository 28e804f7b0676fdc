-- ===== src/Students/Steps.antt =====
-- What each statement of the students repository leaves when it is not refused.
use swim_flow_api.Prelude.{
  ℕ, String, ◌≡◌, ◌∙◌, refl, ap, Bool, true, false, Option, none, some, List, [], ◌∷◌, ◌++◌, any,
  update_rows, update_rows_none, Outcome, ok, err, then_run-ok, arith, Bool-cases, inl, inr,
  if◌then◌else◌,
}
use swim_flow_api.Database.{DbError, has_conflict}
use swim_flow_api.Policies.StudentClass.{AssignmentPlan}
use swim_flow_api.Students.Store.{ClassLink, StudentsDb, same_link}
use swim_flow_api.Students.Repository.{
  StudentTables, StudentGenerated, stored, is_open_in, closed, made_primary, close_where, open_link,
  update_links, create_link, close_links, attach, relink,
}
use swim_flow_api.Students.Links.{with_links, promoted_rows, created_rows, linked_rows}

pub stored_ok :
    {Row A : Type 0} (answer : Row → A) (write : Row → StudentsDb) (db s : StudentsDb) (a : A)
    (o : Outcome DbError Row)
    → stored answer write db o ≡ (ok a, s)
    → (r : Row) × (o ≡ ok r) × (s ≡ write r)
stored_ok answer write db s a (ok r) h = (r, refl, ground arith)
stored_ok answer write db s a (err e) h = absurd (ground arith)

module _ (t : StudentTables) where
  update_links_ok :
      (p : ClassLink → Bool) (f : ClassLink → ClassLink) (db s : StudentsDb)
      → update_links t p f db ≡ (ok tt, s)
      → s ≡ with_links db (update_rows p f db.links)
  unfolding update_links
  update_links_ok p f db s h =
      let (r, e, after) = stored_ok _ _ db s tt (t.links.update_keys p f db.links) h in
      elim (Bool-cases (has_conflict same_link (update_rows p f db.links))) [
        | inl taken ↦ absurd (ground (arith, e, t.links.update_keys_lem p f db.links, taken))
        | inr fresh ↦
            let rows : r.0 ≡ update_rows p f db.links =
              ground (arith, e, t.links.update_keys_lem p f db.links, fresh) in
            after ∙ ap (with_links db) rows
      ]

  create_link_ok :
      (l : ClassLink) (db s : StudentsDb)
      → create_link t l db ≡ (ok tt, s)
      → s ≡ with_links db (db.links ++ l ∷ [])
  unfolding create_link
  create_link_ok l db s h =
      let (r, e, after) = stored_ok _ _ db s tt (t.links.create l db.links) h in
      elim (Bool-cases (any (same_link l) db.links)) [
        | inl taken ↦ absurd (ground (arith, e, t.links.create_lem l db.links, taken))
        | inr fresh ↦
            let rows : r ≡ db.links ++ l ∷ [] =
              ground (arith, e, t.links.create_lem l db.links, fresh) in
            after ∙ ap (with_links db) rows
      ]

  close_links_ok :
      (now : ℕ) (id : String) (ids : List String) (db s : StudentsDb)
      → close_links t now id ids db ≡ (ok tt, s)
      → s ≡ with_links db (update_rows (close_where id ids) (closed now) db.links)
  close_links_ok now id [] db s h =
      let same : update_rows (close_where id []) (closed now) db.links ≡ db.links =
        update_rows_none (close_where id []) (closed now) db.links (none_hit db.links) in
      rw same (ground arith)
    where
      none_hit : (rows : List ClassLink) → any (close_where id []) rows ≡ false
      none_hit [] = refl
      none_hit (l ∷ rows) = ground (arith, none_hit rows)
  close_links_ok now id (c ∷ cs) db s h =
      update_links_ok (close_where id (c ∷ cs)) (closed now) db s h

  attach_ok :
      (g : StudentGenerated) (id : String) (plan : AssignmentPlan) (next : Option String)
      (db s : StudentsDb)
      → attach t g id plan next db ≡ (ok tt, s)
      → s ≡ with_links db (created_rows g id plan next (promoted_rows id plan next db.links))
  attach_ok g id plan none db s h = ground arith
  attach_ok g id plan (some next) db s h =
      let (a, s1, first, second) = then_run-ok _ _ tt s h in
      let rows = promoted_rows id plan (some next) db.links in
      let e1 : s1 ≡ with_links db rows = promote plan.should_promote_existing_link s1 first in
      create plan.should_create_next_class_link rows s (rw e1 at second)
    where
      promote :
          (b : Bool) (s1 : StudentsDb)
          → (if b then update_links t (is_open_in id next) made_primary db else (ok tt, db))
            ≡ (ok tt, s1)
          → s1
            ≡ with_links db
                (if b then update_rows (is_open_in id next) made_primary db.links else db.links)
      promote true s1 e = update_links_ok (is_open_in id next) made_primary db s1 e
      promote false s1 e = ground arith

      create :
          (b : Bool) (rows : List ClassLink) (s : StudentsDb)
          → (if b
              then create_link t (open_link g.link_id id next) (with_links db rows)
              else (ok tt, with_links db rows))
            ≡ (ok tt, s)
          → s ≡ with_links db (if b then rows ++ open_link g.link_id id next ∷ [] else rows)
      create true rows s e = create_link_ok (open_link g.link_id id next) (with_links db rows) s e
      create false rows s e = ground arith

  -- The links part of an update changes the links alone.
  pub relink_ok :
      (g : StudentGenerated) (id : String) (plan : AssignmentPlan) (db s : StudentsDb)
      → relink t g id plan db ≡ (ok tt, s)
      → s ≡ with_links db (linked_rows g id plan db.links)
  unfolding relink
  relink_ok g id plan db s h =
      let (a, s1, first, second) = then_run-ok _ _ tt s h in
      let e1 = close_links_ok g.now id plan.class_ids_to_close db s1 first in
      rw e1 at (attach_ok g id plan plan.next_class_id s1 s second)
