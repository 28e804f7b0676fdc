-- ===== src/Media/Effects.antt =====
-- How a statement on the private media tables ends: refused, or in one known state.
use swim_flow_api.Prelude.{
  ℕ, ◌≡◌, refl, Bool, true, false, not, ◌||◌, List, [], ◌∷◌, ◌++◌, any, every, count, update_rows,
  Outcome, ok, err, str_eq, Bool-cases, inl, inr, ◌⊎◌, if◌then◌else◌, arith,
}
use swim_flow_api.Database.{
  Table, KeepsKeys, has_conflict, unique_violation, foreign_key_violation, check_violation,
}
use swim_flow_api.Media.Store.{
  MediaObject, Binding, MediaDb, MediaError, database, same_object, same_binding, passes_checks,
  refers,
}
use swim_flow_api.Media.Statements.{
  insert_object, update_objects, insert_binding, update_bindings, changed_one,
}

abbrev pub with_objects : MediaDb → List MediaObject → MediaDb
with_objects db rows = record db { objects = rows }

abbrev pub with_bindings : MediaDb → List Binding → MediaDb
with_bindings db rows = record db { bindings = rows }

-- The statement is refused and changes nothing.
abbrev pub IsRefused : {A : Type 0} → Outcome MediaError A × MediaDb → MediaDb → Type 0
IsRefused x db = (e : MediaError) × (x ≡ (err e, db))

module _ (t : Table MediaObject same_object) (db : MediaDb) where
  pub insert_object_cases :
      (o : MediaObject)
      → IsRefused (insert_object t o db) db
        ⊎ ((passes_checks o ≡ true)
            × (any (same_object o) db.objects ≡ false)
            × (insert_object t o db ≡ (ok tt, with_objects db (db.objects ++ o ∷ []))))
  unfolding insert_object
  insert_object_cases o = elim (Bool-cases (passes_checks o)) [
    | inr bad ↦ inl (database check_violation, rw bad refl)
    | inl good ↦ elim (Bool-cases (any (same_object o) db.objects)) [
      | inl taken ↦ inl (database unique_violation, ground (arith, t.create_lem o db.objects))
      | inr fresh ↦ elim (Bool-cases (any (λ r. str_eq r.id o.uploaded_by_id) db.profiles)) [
        | inl there ↦ inr (good, fresh, ground (arith, t.create_lem o db.objects))
        | inr missing ↦
            inl (database foreign_key_violation, ground (arith, t.create_lem o db.objects))
      ]
    ]
  ]

  module _ (p : MediaObject → Bool) (f : MediaObject → MediaObject)
      (keeps : KeepsKeys same_object f) where
    pub update_objects_lem : update_objects t p f db ≡ (
        if every (λ o. not (p o) || passes_checks (f o)) db.objects
        then (if every (refers (update_rows p f db.objects)) db.bindings
            then (ok (count p db.objects), with_objects db (update_rows p f db.objects))
            else (err (database foreign_key_violation), db))
        else (err (database check_violation), db))
    unfolding update_objects
    update_objects_lem = rw (t.update_many_lem p f db.objects keeps) refl

    pub update_objects_cases :
        IsRefused (update_objects t p f db) db
        ⊎ ((every (λ o. not (p o) || passes_checks (f o)) db.objects ≡ true)
            × (every (refers (update_rows p f db.objects)) db.bindings ≡ true)
            × (update_objects t p f db
                ≡ (ok (count p db.objects), with_objects db (update_rows p f db.objects))))
    update_objects_cases =
        elim (Bool-cases (every (λ o. not (p o) || passes_checks (f o)) db.objects)) [
          | inr bad ↦ inl (database check_violation, rw (update_objects_lem, bad) refl)
          | inl good ↦ elim (Bool-cases (every (refers (update_rows p f db.objects)) db.bindings)) [
            | inr dangling ↦
                inl (database foreign_key_violation, rw (update_objects_lem, good, dangling) refl)
            | inl kept ↦ inr (good, kept, rw (update_objects_lem, good, kept) refl)
          ]
        ]

module _ (t : Table Binding same_binding) (db : MediaDb) where
  pub insert_binding_cases :
      (b : Binding)
      → IsRefused (insert_binding t b db) db
        ⊎ ((refers db.objects b ≡ true)
            × (any (same_binding b) db.bindings ≡ false)
            × (insert_binding t b db ≡ (ok tt, with_bindings db (db.bindings ++ b ∷ []))))
  unfolding insert_binding
  insert_binding_cases b = elim (Bool-cases (any (same_binding b) db.bindings)) [
    | inl taken ↦ inl (database unique_violation, ground (arith, t.create_lem b db.bindings))
    | inr fresh ↦ elim (Bool-cases (refers db.objects b)) [
      | inl there ↦ inr (there, fresh, ground (arith, t.create_lem b db.bindings))
      | inr missing ↦
          inl (database foreign_key_violation, ground (arith, t.create_lem b db.bindings))
    ]
  ]

  pub update_bindings_cases :
      (p : Binding → Bool) (f : Binding → Binding)
      → IsRefused (update_bindings t p f db) db
        ⊎ ((every (refers db.objects) (update_rows p f db.bindings) ≡ true)
            × (has_conflict same_binding (update_rows p f db.bindings) ≡ false)
            × (update_bindings t p f db
                ≡ (ok (count p db.bindings), with_bindings db (update_rows p f db.bindings))))
  unfolding update_bindings
  update_bindings_cases p f =
      let law = t.update_keys_lem p f db.bindings in
      elim (Bool-cases (has_conflict same_binding (update_rows p f db.bindings))) [
        | inl taken ↦ inl (database unique_violation, rw (law, update_bindings, taken) refl)
        | inr fresh ↦ elim (Bool-cases (every (refers db.objects) (update_rows p f db.bindings))) [
          | inl there ↦ inr (there, fresh, rw (law, update_bindings, fresh, there) refl)
          | inr missing ↦
              inl (database foreign_key_violation, rw (law, update_bindings, fresh, missing) refl)
        ]
      ]

pub changed_one_state : (x : Outcome MediaError ℕ × MediaDb) → (changed_one x).1 ≡ x.1
changed_one_state (ok n, db) = refl
changed_one_state (err e, db) = refl
