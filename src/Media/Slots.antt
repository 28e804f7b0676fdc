-- ===== src/Media/Slots.antt =====
-- The slot of a resource: in sound tables it holds one image at most, and a swap of bindings
-- replaces the image that was expected.
use swim_flow_api.Prelude.{
  ℕ, String, ◌≡◌, ◌∙◌, refl, sym, ap, true, false, Option, none, some, List, [], ◌∷◌, ◌++◌, ok, err,
  arith, any, count, update_rows, IsIn, any_of_IsIn, IsIn-update_rows, IsIn-append_left,
  IsIn-append_right, counted_at, str_eq, eq_iff, Bool-cases, Option-cases, inl, inr, ◌==◌,
}
use swim_flow_api.Database.{Table, has_conflict}
use swim_flow_api.Media.Store.{Target, target_eq, Binding, MediaDb, MediaError, same_binding}
use swim_flow_api.Media.Statements.{insert_binding, update_bindings}
use swim_flow_api.Media.Bindings.{
  slot_where, bound_where, rebound, bind, or_conflict, find_active_media_id,
}
use swim_flow_api.Media.Effects.{insert_binding_cases, update_bindings_cases, with_bindings}
use swim_flow_api.Media.Sound.{Sound, Sound-append_binding, Sound-update_bindings}

target_same : (a b : Target) → target_eq a b ≡ true → a ≡ b
target_same Target.student_photo Target.student_photo e = refl
target_same Target.teacher_photo Target.teacher_photo e = refl
target_same Target.parent_photo Target.parent_photo e = refl
target_same Target.profile_avatar Target.profile_avatar e = refl
target_same _ _ e = absurd (ground arith)

pub target_refl : (a : Target) → target_eq a a ≡ true
target_refl Target.student_photo = refl
target_refl Target.teacher_photo = refl
target_refl Target.parent_photo = refl
target_refl Target.profile_avatar = refl

module _ (target : Target) (resource_id : String) where
  -- Two bindings of one slot break the primary key.
  same_slot :
      (b c : Binding)
      → slot_where target resource_id b ≡ true
      → slot_where target resource_id c ≡ true
      → same_binding b c ≡ true
  same_slot b c hb hc =
      let tb : b.target ≡ target = target_same _ _ (ground (arith, hb)) in
      let tc : c.target ≡ target = target_same _ _ (ground (arith, hc)) in
      let rb : b.resource_id ≡ resource_id = (eq_iff _ _).0 (ground (arith, hb)) in
      let rc : c.resource_id ≡ resource_id = (eq_iff _ _).0 (ground (arith, hc)) in
      let t : target_eq c.target b.target ≡ true = rw (tb, tc) (target_refl target) in
      let r : str_eq c.resource_id b.resource_id ≡ true = (eq_iff _ _).1 (rc ∙ sym rb) in
      ground (arith, t, r)

  slot_unique :
      (b c : Binding) (bs : List Binding)
      → has_conflict same_binding bs ≡ false
      → IsIn b bs
      → IsIn c bs
      → slot_where target resource_id b ≡ true
      → slot_where target resource_id c ≡ true
      → b ≡ c
  slot_unique b c [] h mb mc hb hc = elim mb [ ]
  slot_unique b c (d ∷ bs) h (inl eb) (inl ec) hb hc = eb ∙ sym ec
  slot_unique b c (d ∷ bs) h (inl eb) (inr mc) hb hc =
      let clash : same_binding c d ≡ true = same_slot c d hc (rw eb at hb) in
      absurd (ground (arith, any_of_IsIn (λ s. same_binding s d) bs c mc clash, h))
  slot_unique b c (d ∷ bs) h (inr mb) (inl ec) hb hc =
      let clash : same_binding b d ≡ true = same_slot b d hb (rw ec at hc) in
      absurd (ground (arith, any_of_IsIn (λ s. same_binding s d) bs b mb clash, h))
  slot_unique b c (d ∷ bs) h (inr mb) (inr mc) hb hc =
      slot_unique b c bs (ground (arith, h)) mb mc hb hc

  module _ (t : Table Binding same_binding) where
    -- The active image is the image of any binding of the slot.
    pub find_active_some :
        (b : Binding) (db : MediaDb)
        → Sound db
        → IsIn b db.bindings
        → slot_where target resource_id b ≡ true
        → find_active_media_id t target resource_id db ≡ some b.media_id
    unfolding find_active_media_id
    find_active_some b db sound m h =
        elim (Option-cases (t.find_first (slot_where target resource_id) db.bindings)) [
          | inl missing ↦ absurd (
              cc (
                t.find_first_missing (slot_where target resource_id) db.bindings missing,
                any_of_IsIn (slot_where target resource_id) db.bindings b m h,
              ))
          | inr (c, found) ↦
              let (mc, hc) = t.find_first_found _ _ c found in
              let same : c ≡ b = slot_unique c b db.bindings sound.one_binding mc m hc h in
              rw (found, find_active_media_id) (ap (λ x. some x.media_id) same)
        ]

    pub find_active_none :
        (db : MediaDb)
        → any (slot_where target resource_id) db.bindings ≡ false
        → find_active_media_id t target resource_id db ≡ none
    unfolding find_active_media_id
    find_active_none db empty =
        elim (Option-cases (t.find_first (slot_where target resource_id) db.bindings)) [
          | inl missing ↦ rw (missing, find_active_media_id) refl
          | inr (c, found) ↦
              let (m, h) = t.find_first_found _ _ c found in
              absurd (cc (any_of_IsIn (slot_where target resource_id) db.bindings c m h, empty))
        ]

    -- What a swap that succeeds does: the slot held what was expected and holds what is new, the
    -- other slots keep their bindings, and the rest of the tables is the same.
    pub record Swapped (new expected : Option String) (db db' : MediaDb) : Type 0 where
      pub before : find_active_media_id t target resource_id db ≡ expected
      pub after : find_active_media_id t target resource_id db' ≡ new
      pub others :
          (b : Binding)
          → IsIn b db.bindings
          → slot_where target resource_id b ≡ false
          → IsIn b db'.bindings
      pub rest : db' ≡ with_bindings db db'.bindings

    pub insert_swaps :
        (media_id : String) (db db' : MediaDb)
        → Sound db
        → insert_binding t (bind target resource_id media_id) db ≡ (ok tt, db')
        → Swapped (some media_id) none db db'
    insert_swaps media_id db db' sound h =
        let new = bind target resource_id media_id in
        elim (insert_binding_cases t db new) [
          | inl (e, refused) ↦ absurd (ground (arith, refused, h))
          | inr (there, fresh, done) ↦
              let after : db' ≡ with_bindings db (db.bindings ++ new ∷ []) =
                ground (arith, done, h) in
              let slot : slot_where target resource_id new ≡ true =
                ground (arith, target_refl target, eq_iff resource_id resource_id) in
              rw after (record {
                before = find_active_none db (empty db.bindings fresh);
                after =
                    find_active_some new (with_bindings db (db.bindings ++ new ∷ []))
                      (Sound-append_binding db sound new there fresh)
                      (IsIn-append_right new db.bindings (new ∷ []) (inl refl)) slot;
                others = λ b m _. IsIn-append_left b db.bindings (new ∷ []) m;
                rest = refl;
              })
        ]
      where
        empty :
            (bs : List Binding)
            → any (same_binding (bind target resource_id media_id)) bs ≡ false
            → any (slot_where target resource_id) bs ≡ false
        empty [] f = refl
        empty (b ∷ bs) f = ground (arith, empty bs)

    pub update_swaps :
        (media_id expected : String) (db db' : MediaDb)
        → Sound db
        → or_conflict
            (update_bindings t (bound_where target resource_id expected) (rebound media_id) db)
          ≡ (ok tt, db')
        → Swapped (some media_id) (some expected) db db'
    update_swaps media_id expected db db' sound h =
        let p = bound_where target resource_id expected in
        let rows = update_rows p (rebound media_id) db.bindings in
        elim (update_bindings_cases t db p (rebound media_id)) [
          | inl (e, refused) ↦ absurd (clash e (rw refused at h))
          | inr (there, fresh, done) ↦
              let (one, after) = counted rows (count p db.bindings) (rw done at h) in
              let (b, m, hit) = counted_at p db.bindings (rw one (omega arith)) in
              let slot : slot_where target resource_id b ≡ true = ground (arith, hit) in
              let held : b.media_id ≡ expected = (eq_iff _ _).0 (ground (arith, hit)) in
              let moved : IsIn (rebound media_id b) rows =
                rw hit at (IsIn-update_rows p (rebound media_id) b db.bindings m) in
              rw after (record {
                before = find_active_some b db sound m slot ∙ ap some held;
                after =
                    find_active_some (rebound media_id b) (with_bindings db rows)
                      (Sound-update_bindings db sound p (rebound media_id) there fresh) moved slot;
                others = λ c mc away.
                    let miss : p c ≡ false = ground (arith, away) in
                    rw miss at (IsIn-update_rows p (rebound media_id) c db.bindings mc);
                rest = refl;
              })
        ]
      where
        clash : (e : MediaError) → or_conflict (err e, db) ≡ (ok tt, db') → ⊥
        clash e k = ground arith

        counted :
            (rows : List Binding) (n : ℕ)
            → or_conflict (ok n, with_bindings db rows) ≡ (ok tt, db')
            → (n ≡ 1) × (db' ≡ with_bindings db rows)
        counted rows n k = elim (Bool-cases (n == 1)) [
          | inl one ↦ (ground arith, ground (arith, k, one))
          | inr other ↦ absurd (ground (arith, k, other))
        ]
