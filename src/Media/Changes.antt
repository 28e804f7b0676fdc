-- ===== src/Media/Changes.antt =====
-- The lifecycle that the private media tables allow, as an abstract relation: rows are added sound,
-- an update moves an object forward only, and bindings come and go as long as the tables stay sound.
use swim_flow_api.Prelude.{
  ℕ, String, ◌≡◌, ◌∙◌, refl, Bool, true, false, not, ◌||◌, List, [], ◌∷◌, ◌++◌, any, every, filter,
  update_rows, arith, All, All-append, All-update_rows, any-append, any-update_rows, str_eq, eq_iff,
  inl, inr, ◌≤◌, Bool-cases,
}
use swim_flow_api.Database.{has_conflict}
use swim_flow_api.Media.Store.{
  Target, Status, MediaObject, Binding, Resource, MediaDb, same_object, same_binding, passes_checks,
  refers, is_referenced, status_eq,
}
use swim_flow_api.Media.Bindings.{with_legacy}
use swim_flow_api.Media.Effects.{with_objects, with_bindings}
use swim_flow_api.Media.Sound.{
  Sound, Sound-append_object, Sound-update_objects, Sound-append_binding, Sound-update_bindings,
  Sound-filter_bindings,
}

-- How far a state is in the lifecycle.
abbrev pub phase : Status → ℕ
phase Status.pending = 0
phase Status.verified = 1
phase Status.rejected = 1
phase Status.gc_claimed = 2
phase Status.deleted = 3

-- One change of rows.
pub data Change : MediaDb → MediaDb → Type 0 where
  object_added :
      (o : MediaObject) (db : MediaDb)
      → passes_checks o ≡ true
      → any (same_object o) db.objects ≡ false
      → Change db (with_objects db (db.objects ++ o ∷ []))
  objects_updated :
      (p : MediaObject → Bool) (f : MediaObject → MediaObject) (db : MediaDb)
      → ((o : MediaObject) → (f o).id ≡ o.id)
      → ((o : MediaObject) → p o ≡ true → phase o.status ≤ phase (f o).status)
      → every (λ o. not (p o) || passes_checks (f o)) db.objects ≡ true
      → every (refers (update_rows p f db.objects)) db.bindings ≡ true
      → Change db (with_objects db (update_rows p f db.objects))
  binding_added :
      (b : Binding) (db : MediaDb)
      → refers db.objects b ≡ true
      → any (same_binding b) db.bindings ≡ false
      → Change db (with_bindings db (db.bindings ++ b ∷ []))
  bindings_updated :
      (p : Binding → Bool) (f : Binding → Binding) (db : MediaDb)
      → every (refers db.objects) (update_rows p f db.bindings) ≡ true
      → has_conflict same_binding (update_rows p f db.bindings) ≡ false
      → Change db (with_bindings db (update_rows p f db.bindings))
  bindings_removed :
      (p : Binding → Bool) (db : MediaDb) → Change db (with_bindings db (filter p db.bindings))
  legacy_changed :
      (target : Target) (rows : List Resource) (db : MediaDb)
      → Change db (with_legacy target rows db)

-- Any number of changes, one after another.
pub data Changes : MediaDb → MediaDb → Type 0 where
  unchanged : (db : MediaDb) → Changes db db
  then_change : (u v w : MediaDb) → Changes u v → Change v w → Changes u w

pub Changes-append : {u v w : MediaDb} → Changes u v → Changes v w → Changes u w
Changes-append r (unchanged db) = r
Changes-append r (then_change u v w s c) = then_change _ v w (Changes-append r s) c

pub Change-Sound : {u v : MediaDb} → Change u v → Sound u → Sound v
Change-Sound (object_added o db good fresh) s = Sound-append_object db s o good fresh
Change-Sound (objects_updated p f db same forward good kept) s =
    Sound-update_objects db s p f same good kept
Change-Sound (binding_added b db there fresh) s = Sound-append_binding db s b there fresh
Change-Sound (bindings_updated p f db there fresh) s = Sound-update_bindings db s p f there fresh
Change-Sound (bindings_removed p db) s = Sound-filter_bindings db s p
Change-Sound (legacy_changed Target.student_photo rows db) s = record {
  ids = s.ids;
  checked = s.checked;
  referred = s.referred;
  one_binding = s.one_binding;
}
Change-Sound (legacy_changed Target.teacher_photo rows db) s = record {
  ids = s.ids;
  checked = s.checked;
  referred = s.referred;
  one_binding = s.one_binding;
}
Change-Sound (legacy_changed Target.parent_photo rows db) s = record {
  ids = s.ids;
  checked = s.checked;
  referred = s.referred;
  one_binding = s.one_binding;
}
Change-Sound (legacy_changed Target.profile_avatar rows db) s = record {
  ids = s.ids;
  checked = s.checked;
  referred = s.referred;
  one_binding = s.one_binding;
}

pub Changes-Sound : {u v : MediaDb} → Changes u v → Sound u → Sound v
Changes-Sound (unchanged db) s = s
Changes-Sound (then_change u v w r c) s = Change-Sound c (Changes-Sound r s)

-- The object with this id is listed and has come to phase `n`.
pub record Reached (id : String) (n : ℕ) (objects : List MediaObject) : Type 0 where
  pub listed : any (λ o. str_eq o.id id) objects ≡ true
  pub far : All (λ o. o.id ≡ id → n ≤ phase o.status) objects

module _ (id : String) (n : ℕ) where
  Reached-append :
      (o : MediaObject) (rows : List MediaObject)
      → any (same_object o) rows ≡ false
      → Reached id n rows
      → Reached id n (rows ++ o ∷ [])
  Reached-append o rows fresh h = record {
    listed = ground (arith, any-append (λ q. str_eq q.id id) rows (o ∷ []), h.listed);
    far = All-append _ rows (o ∷ []) h.far ((λ same. absurd (taken rows same fresh h.listed)), tt);
  }
    where
      taken :
          (rows : List MediaObject)
          → o.id ≡ id
          → any (same_object o) rows ≡ false
          → any (λ q. str_eq q.id id) rows ≡ true
          → ⊥
      taken [] same f l = ground arith
      taken (q ∷ rows) same f l = elim (Bool-cases (str_eq q.id id)) [
        | inl hit ↦ ground (arith, eq_iff q.id id, eq_iff q.id o.id)
        | inr miss ↦ taken rows same (ground arith) (ground arith)
      ]

  Reached-update_rows :
      (p : MediaObject → Bool) (f : MediaObject → MediaObject) (rows : List MediaObject)
      → ((o : MediaObject) → (f o).id ≡ o.id)
      → ((o : MediaObject) → p o ≡ true → phase o.status ≤ phase (f o).status)
      → Reached id n rows
      → Reached id n (update_rows p f rows)
  Reached-update_rows p f rows same forward h = record {
    listed = any-update_rows _ p f rows (λ o. rw (same o) refl) ∙ h.listed;
    far =
        All-update_rows _ _ p f rows
          (λ o at hit e.
            let before : n ≤ phase o.status = at (cc (e, same o)) in
            omega (arith, before, forward o hit))
          (λ o at _. at) h.far;
  }

  pub Change-Reached :
      {u v : MediaDb} → Change u v → Reached id n u.objects → Reached id n v.objects
  Change-Reached (object_added o db good fresh) h = Reached-append o db.objects fresh h
  Change-Reached (objects_updated p f db same forward good kept) h =
      Reached-update_rows p f db.objects same forward h
  Change-Reached (binding_added b db there fresh) h = h
  Change-Reached (bindings_updated p f db there fresh) h = h
  Change-Reached (bindings_removed p db) h = h
  Change-Reached (legacy_changed Target.student_photo rows db) h = h
  Change-Reached (legacy_changed Target.teacher_photo rows db) h = h
  Change-Reached (legacy_changed Target.parent_photo rows db) h = h
  Change-Reached (legacy_changed Target.profile_avatar rows db) h = h

  pub Changes-Reached :
      {u v : MediaDb} → Changes u v → Reached id n u.objects → Reached id n v.objects
  Changes-Reached (unchanged db) h = h
  Changes-Reached (then_change u v w r c) h = Change-Reached c (Changes-Reached r h)

-- No binding leads to an object that is past the verified state.
pub Reached-unbound :
    (id : String) (db : MediaDb)
    → Sound db
    → Reached id 2 db.objects
    → any (λ b. str_eq b.media_id id) db.bindings ≡ false
Reached-unbound id db sound reached = go db.bindings sound.referred
  where
    clash :
        (b : Binding) (rows : List MediaObject)
        → b.media_id ≡ id
        → refers rows b ≡ true
        → All (λ o. o.id ≡ id → 2 ≤ phase o.status) rows
        → ⊥
    clash b [] e there far = ground arith
    clash b (o ∷ rows) e there far = elim (Bool-cases (is_referenced b o)) [
      | inr miss ↦ clash b rows e (ground arith) far.1
      | inl hit ↦
          let same : o.id ≡ id = ground (arith, eq_iff o.id b.media_id) in
          early o.status (ground arith) (far.0 same)
    ]
      where
        early : (s : Status) → status_eq s Status.verified ≡ true → 2 ≤ phase s → ⊥
        early Status.pending e h = ground arith
        early Status.verified e h = ground arith
        early Status.gc_claimed e h = ground arith
        early Status.rejected e h = ground arith
        early Status.deleted e h = ground arith

    go :
        (bs : List Binding)
        → All (λ b. refers db.objects b ≡ true) bs
        → any (λ b. str_eq b.media_id id) bs ≡ false
    go [] h = refl
    go (b ∷ bs) h = elim (Bool-cases (str_eq b.media_id id)) [
      | inl hit ↦ absurd (clash b db.objects ((eq_iff _ _).0 hit) h.0 reached.far)
      | inr miss ↦ ground (arith, go bs h.1)
    ]
