-- ===== src/Media/Sound.antt =====
-- What the constraints of the private media tables say of all rows, and that the changes of rows
-- which the statements make keep it.
use swim_flow_api.Prelude.{
  ◌≡◌, refl, Bool, true, false, not, ◌||◌, List, [], ◌∷◌, ◌++◌, any, every, filter, update_rows,
  arith, All, All-append, All-map, All-update_rows, All-filter, All-of_every, All-both, str_eq,
  HasUnique, HasUnique-append, HasUnique-update_rows, fresh_key, any-append,
}
use swim_flow_api.Database.{has_conflict}
use swim_flow_api.Database.Conflicts.{has_conflict-append, has_conflict-filter}
use swim_flow_api.Media.Store.{
  MediaObject, Binding, MediaDb, same_object, same_binding, passes_checks, refers, is_referenced,
}
use swim_flow_api.Media.Effects.{with_objects, with_bindings}

pub record Sound (db : MediaDb) : Type 0 where
  pub ids : HasUnique (λ o. o.id) db.objects
  pub checked : All (λ o. passes_checks o ≡ true) db.objects
  pub referred : All (λ b. refers db.objects b ≡ true) db.bindings
  pub one_binding : has_conflict same_binding db.bindings ≡ false

module _ (db : MediaDb) (sound : Sound db) where
  pub Sound-append_object :
      (o : MediaObject)
      → passes_checks o ≡ true
      → any (same_object o) db.objects ≡ false
      → Sound (with_objects db (db.objects ++ o ∷ []))
  Sound-append_object o good fresh = record {
    ids =
        HasUnique-append (λ q. q.id) db.objects o sound.ids
          (fresh_key (λ q. q.id) o db.objects (other_keys db.objects fresh));
    checked = All-append _ db.objects (o ∷ []) sound.checked (good, tt);
    referred =
        All-map _ _ db.bindings
          (λ b h. ground (arith, any-append (is_referenced b) db.objects (o ∷ []), h))
          sound.referred;
    one_binding = sound.one_binding;
  }
    where
      other_keys :
          (rows : List MediaObject)
          → any (same_object o) rows ≡ false
          → any (λ q. str_eq q.id o.id) rows ≡ false
      other_keys [] h = refl
      other_keys (q ∷ rows) h = ground (arith, other_keys rows)

  pub Sound-update_objects :
      (p : MediaObject → Bool) (f : MediaObject → MediaObject)
      → ((o : MediaObject) → (f o).id ≡ o.id)
      → every (λ o. not (p o) || passes_checks (f o)) db.objects ≡ true
      → every (refers (update_rows p f db.objects)) db.bindings ≡ true
      → Sound (with_objects db (update_rows p f db.objects))
  Sound-update_objects p f same good kept = record {
    ids = HasUnique-update_rows (λ o. o.id) p f db.objects same sound.ids;
    checked =
        All-update_rows _ _ p f db.objects (λ o h hit. ground (arith, h.1)) (λ o h _. h.0)
          (All-both _ _ db.objects sound.checked (All-of_every _ db.objects good));
    referred = All-of_every _ db.bindings kept;
    one_binding = sound.one_binding;
  }

  pub Sound-append_binding :
      (b : Binding)
      → refers db.objects b ≡ true
      → any (same_binding b) db.bindings ≡ false
      → Sound (with_bindings db (db.bindings ++ b ∷ []))
  Sound-append_binding b there fresh = record {
    ids = sound.ids;
    checked = sound.checked;
    referred = All-append _ db.bindings (b ∷ []) sound.referred (there, tt);
    one_binding = has_conflict-append same_binding db.bindings b fresh sound.one_binding;
  }

  pub Sound-update_bindings :
      (p : Binding → Bool) (f : Binding → Binding)
      → every (refers db.objects) (update_rows p f db.bindings) ≡ true
      → has_conflict same_binding (update_rows p f db.bindings) ≡ false
      → Sound (with_bindings db (update_rows p f db.bindings))
  Sound-update_bindings p f there fresh = record {
    ids = sound.ids;
    checked = sound.checked;
    referred = All-of_every _ _ there;
    one_binding = fresh;
  }

  pub Sound-filter_bindings : (p : Binding → Bool) → Sound (with_bindings db (filter p db.bindings))
  Sound-filter_bindings p = record {
    ids = sound.ids;
    checked = sound.checked;
    referred = All-filter _ p db.bindings sound.referred;
    one_binding = has_conflict-filter same_binding p db.bindings sound.one_binding;
  }
