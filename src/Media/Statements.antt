-- ===== src/Media/Statements.antt =====
-- The statements on the private media tables. PostgreSQL refuses one that would break a unique
-- index, a CHECK or the foreign key of a binding, and a refused statement changes nothing.
use swim_flow_api.Prelude.{
  ℕ, Bool, ◌||◌, not, Outcome, ok, err, any, every, str_eq, ◌==◌, if◌then◌else◌,
}
use swim_flow_api.Database.{Table, foreign_key_violation, check_violation}
use swim_flow_api.Media.Store.{
  MediaObject, Binding, MediaDb, MediaError, database, same_object, same_binding, passes_checks,
  refers,
}

-- INSERT of an object: its uploader is a profile.
unfoldable pub insert_object :
    Table MediaObject same_object → MediaObject → MediaDb → Outcome MediaError Unit × MediaDb
insert_object t o db =
    if passes_checks o
    then elim (t.create o db.objects) [
      | ok rows ↦
          if any (λ r. str_eq r.id o.uploaded_by_id) db.profiles
          then (ok tt, record db { objects = rows })
          else (err (database foreign_key_violation), db)
      | err e ↦ (err (database e), db)
    ]
    else (err (database check_violation), db)

-- UPDATE of the objects that satisfy `p`, which keeps their keys.
unfoldable pub update_objects :
    Table MediaObject same_object
    → (MediaObject → Bool)
    → (MediaObject → MediaObject)
    → MediaDb
    → Outcome MediaError ℕ × MediaDb
update_objects t p f db =
    let (rows, changed) = t.update_many p f db.objects in
    if every (λ o. not (p o) || passes_checks (f o)) db.objects
    then (if every (refers rows) db.bindings
        then (ok changed, record db { objects = rows })
        else (err (database foreign_key_violation), db))
    else (err (database check_violation), db)

-- INSERT of a binding.
unfoldable pub insert_binding :
    Table Binding same_binding → Binding → MediaDb → Outcome MediaError Unit × MediaDb
insert_binding t b db = elim (t.create b db.bindings) [
  | ok rows ↦
      if refers db.objects b
      then (ok tt, record db { bindings = rows })
      else (err (database foreign_key_violation), db)
  | err e ↦ (err (database e), db)
]

-- UPDATE of the bindings that satisfy `p`, which may set their keys.
unfoldable pub update_bindings :
    Table Binding same_binding
    → (Binding → Bool)
    → (Binding → Binding)
    → MediaDb
    → Outcome MediaError ℕ × MediaDb
update_bindings t p f db = elim (t.update_keys p f db.bindings) [
  | ok (rows, changed) ↦
      if every (refers db.objects) rows
      then (ok changed, record db { bindings = rows })
      else (err (database foreign_key_violation), db)
  | err e ↦ (err (database e), db)
]

-- `changed.count === 1`
abbrev pub changed_one : Outcome MediaError ℕ × MediaDb → Outcome MediaError Bool × MediaDb
changed_one (ok n, db) = (ok (n == 1), db)
changed_one (err e, db) = (err e, db)
