-- ===== src/Media/Commit.antt =====
-- commitPrivateBlobBinding and assignActiveVerifiedBlob: compare-and-swap of the image of a
-- resource and of its legacy image.
use swim_flow_api.Prelude.{
  ℕ, String, ◌≡◌, ◌∙◌, refl, sym, ap, Bool, true, false, not, Option, none, some, List, [], ◌∷◌,
  Outcome, ok, err, arith, any, count, filter, update_rows, IsIn, All, All-map, All-update_rows,
  counted_at, HasUnique, hit_of_key, eq_iff, opt_eq, Bool-cases, inl, inr, ◌==◌, IsIn-filter,
}
use swim_flow_api.Database.{Table, Transactions, settle}
use swim_flow_api.Media.Store.{
  Target, Binding, Resource, MediaDb, MediaError, same_binding, same_resource,
}
use swim_flow_api.Media.Statements.{changed_one}
use swim_flow_api.Media.Bindings.{
  CommitInput, legacy, with_legacy, legacy_where, cleared, slot_where, bound_where, as_race,
  or_conflict, catch_conflict, swap_binding, commit_body, assign_active_verified_blob,
  commit_private_blob_binding, find_active_media_id,
}
use swim_flow_api.Media.Effects.{with_bindings}
use swim_flow_api.Media.Sound.{Sound}
use swim_flow_api.Media.Changes.{Change-Sound, legacy_changed}
use swim_flow_api.Media.Slots.{
  Swapped, find_active_some, find_active_none, insert_swaps, update_swaps,
}

-- A commit is all or nothing.
catch_true :
    (i : CommitInput) (x : Outcome MediaError Unit × MediaDb) (db' : MediaDb)
    → catch_conflict i x ≡ (ok true, db')
    → x ≡ (ok tt, db')
catch_true i (ok tt, s) db' h = ground arith
catch_true i (err e, s) db' h = absurd (ground arith)

settle_ok :
    (db db' : MediaDb) (x : Outcome MediaError Unit × MediaDb)
    → settle db x ≡ (ok tt, db')
    → x ≡ (ok tt, db')
settle_ok db db' (ok tt, s) h = h
settle_ok db db' (err e, s) h = absurd (ground arith)

module _ (t : Table Binding same_binding) where
  module _ (target : Target) (resource_id : String) where
    remove_swaps :
        (expected : String) (db db' : MediaDb)
        → Sound db
        → swap_binding t target resource_id none (some expected) db ≡ (ok tt, db')
        → Swapped target resource_id t none (some expected) db db'
    unfolding swap_binding
    remove_swaps expected db db' sound h =
        let p = bound_where target resource_id expected in
        elim (Bool-cases (count p db.bindings == 1)) [
          | inr other ↦ absurd (ground (arith, t.delete_many_lem p db.bindings, h, other))
          | inl one ↦
              let after : db' ≡ with_bindings db (filter (λ b. not (p b)) db.bindings) =
                ground (arith, t.delete_many_lem p db.bindings, h, one) in
              let (b, m, hit) = counted_at p db.bindings (ground (arith, one)) in
              let slot : slot_where target resource_id b ≡ true = ground (arith, hit) in
              let held : b.media_id ≡ expected = (eq_iff _ _).0 (ground (arith, hit)) in
              let active = find_active_some target resource_id t b db sound m slot ∙ ap some held in
              rw after (record {
                before = active;
                after =
                    find_active_none target resource_id t
                      (with_bindings db (filter (λ c. not (p c)) db.bindings))
                      (gone p db.bindings (λ c mc hc.
                        let same : c.media_id ≡ expected =
                          ground (
                            arith,
                            find_active_some target resource_id t c db sound mc hc,
                            active,
                          ) in
                        ground (arith, hc, eq_iff c.media_id expected, same)));
                others = λ c mc away.
                    IsIn-filter (λ q. not (p q)) c db.bindings mc (ground (arith, away));
                rest = refl;
              })
        ]
      where
        gone :
            (p : Binding → Bool) (bs : List Binding)
            → ((c : Binding) → IsIn c bs → slot_where target resource_id c ≡ true → p c ≡ true)
            → any (slot_where target resource_id) (filter (λ c. not (p c)) bs) ≡ false
        gone p [] all = refl
        gone p (c ∷ bs) all = ground (arith, all c (inl refl), gone p bs (λ q m. all q (inr m)))

    swap_swaps :
        (new expected : Option String) (db db' : MediaDb)
        → Sound db
        → swap_binding t target resource_id new expected db ≡ (ok tt, db')
        → Swapped target resource_id t new expected db db'
    unfolding swap_binding
    swap_swaps none none db db' sound h = absurd (ground (arith, h))
    swap_swaps none (some expected) db db' sound h = remove_swaps expected db db' sound h
    swap_swaps (some media_id) none db db' sound h =
        insert_swaps target resource_id t media_id db db' sound h
    swap_swaps (some media_id) (some expected) db db' sound h =
        update_swaps target resource_id t media_id expected db db' sound h

    race_won :
        (x : Outcome MediaError Unit × MediaDb) (db' : MediaDb)
        → as_race x ≡ (ok true, db')
        → x ≡ (ok tt, db')
    race_won (ok tt, s) db' h = ground arith
    race_won (err e, s) db' h = absurd (ground arith)

    one_changed :
        (x : Outcome MediaError ℕ × MediaDb) (db' : MediaDb)
        → changed_one x ≡ (ok true, db')
        → or_conflict x ≡ (ok tt, db')
    one_changed (ok n, s) db' h = ground (arith, h)
    one_changed (err e, s) db' h = absurd (ground arith)

    -- In sound tables an assignment that answers true was made where the active image of the
    -- resource was the expected one, or none where none is expected; the active image is the new
    -- one afterwards, and the bindings of other resources and all other tables are kept.
    pub assign_swaps :
        (media_id : String) (expected : Option String) (db db' : MediaDb)
        → Sound db
        → assign_active_verified_blob t target resource_id media_id expected db ≡ (ok true, db')
        → Swapped target resource_id t (some media_id) expected db db'
    unfolding assign_active_verified_blob
    assign_swaps media_id none db db' sound h =
        insert_swaps target resource_id t media_id db db' sound (race_won _ db' h)
    assign_swaps media_id (some expected) db db' sound h =
        update_swaps target resource_id t media_id expected db db' sound (one_changed _ db' h)

  same_bindings :
      (target : Target) (rows : List Resource) (db : MediaDb)
      → (with_legacy target rows db).bindings ≡ db.bindings
  same_bindings Target.student_photo rows db = refl
  same_bindings Target.teacher_photo rows db = refl
  same_bindings Target.parent_photo rows db = refl
  same_bindings Target.profile_avatar rows db = refl

  same_active :
      (target slot : Target) (resource_id : String) (rows : List Resource) (db : MediaDb)
      → find_active_media_id t slot resource_id (with_legacy target rows db)
        ≡ find_active_media_id t slot resource_id db
  unfolding find_active_media_id
  same_active Target.student_photo slot resource_id rows db = refl
  same_active Target.teacher_photo slot resource_id rows db = refl
  same_active Target.parent_photo slot resource_id rows db = refl
  same_active Target.profile_avatar slot resource_id rows db = refl

  new_legacy :
      (target : Target) (rows : List Resource) (bs : List Binding) (db : MediaDb)
      → legacy target (with_bindings (with_legacy target rows db) bs) ≡ rows
  new_legacy Target.student_photo rows bs db = refl
  new_legacy Target.teacher_photo rows bs db = refl
  new_legacy Target.parent_photo rows bs db = refl
  new_legacy Target.profile_avatar rows bs db = refl

  -- What a commit that succeeds has found and has done.
  pub record Committed (i : CommitInput) (db db' : MediaDb) : Type 0 where
    pub before : find_active_media_id t i.target i.resource_id db ≡ i.expected_media_id
    pub after : find_active_media_id t i.target i.resource_id db' ≡ i.new_media_id
    pub legacy_before :
        All
          (λ r. r.id ≡ i.resource_id → opt_eq r.photo i.expected_legacy_url ≡ true)
          (legacy i.target db)
    pub legacy_after : All (λ r. r.id ≡ i.resource_id → r.photo ≡ none) (legacy i.target db')
    pub others :
        (b : Binding)
        → IsIn b db.bindings
        → slot_where i.target i.resource_id b ≡ false
        → IsIn b db'.bindings

  module _ (resources : Table Resource same_resource) (tx : Transactions MediaError Unit MediaDb)
      (i : CommitInput) (db db' : MediaDb) where
    commit_body-Committed :
        Sound db
        → HasUnique (λ r. r.id) (legacy i.target db)
        → commit_body t resources i db ≡ (ok tt, db')
        → Committed i db db'
    unfolding commit_body
    commit_body-Committed sound unique h =
        let p = legacy_where i.resource_id i.expected_legacy_url in
        let rows = update_rows p cleared (legacy i.target db) in
        let law = resources.update_many_lem p cleared (legacy i.target db) (λ r s. refl) in
        elim (Bool-cases (count p (legacy i.target db) == 1)) [
          | inr other ↦ absurd (ground (arith, law, h, other))
          | inl one ↦
              let s : Swapped i.target i.resource_id t i.new_media_id i.expected_media_id
                  (with_legacy i.target rows db) db' =
                swap_swaps i.target i.resource_id i.new_media_id i.expected_media_id
                  (with_legacy i.target rows db) db'
                  (Change-Sound (legacy_changed i.target rows db) sound) (rw (law, one) at h) in
              let hits =
                hit_of_key (λ r. r.id) i.resource_id p (legacy i.target db)
                  (λ r e. (eq_iff _ _).0 (ground (arith, e))) unique (ground (arith, one)) in
              record {
                before = sym (same_active i.target i.target i.resource_id rows db) ∙ s.before;
                after = s.after;
                legacy_before =
                    All-map _ _ (legacy i.target db) (λ r at e. ground (arith, at e)) hits;
                legacy_after =
                    rw (s.rest, new_legacy i.target rows db'.bindings db)
                      (All-update_rows _ _ p cleared (legacy i.target db) (λ r _ _ _. refl)
                        (λ r at miss e. absurd (ground (arith, at e, miss))) hits);
                others = λ b m away. s.others b (rw (same_bindings i.target rows db) m) away;
              }
        ]

    -- In sound tables with unique resources, a commit that answers true was made where the active
    -- image and the legacy image of the resource were those expected; afterwards the active image
    -- is the new one, or none, the legacy image is cleared, and other resources keep their binding.
    pub commit_swaps :
        Sound db
        → HasUnique (λ r. r.id) (legacy i.target db)
        → commit_private_blob_binding t resources tx i db ≡ (ok true, db')
        → Committed i db db'
    unfolding commit_private_blob_binding
    commit_swaps sound unique h = commit_body-Committed sound unique (
        settle_ok db db' _
          (rw (tx.run_lem (commit_body t resources i) db) at (catch_true i _ db' h)))
