-- ===== src/Media/Progress.antt =====
-- Every statement on the private media tables, and the parts of the commit, make changes that the
-- lifecycle allows.
use swim_flow_api.Prelude.{
  ℕ, String, ◌≡◌, refl, Bool, true, not, Option, none, some, Outcome, ok, err, arith, Bool-cases,
  inl, inr, ◌≤◌, ◌==◌, count, filter, update_rows,
}
use swim_flow_api.Database.{Table, settle, KeepsKeys}
use swim_flow_api.Media.Store.{
  Target, Status, MediaObject, Binding, Resource, MediaDb, MediaError, same_object, same_binding,
  same_resource, status_eq,
}
use swim_flow_api.Media.Statements.{insert_object, update_objects, insert_binding, update_bindings}
use swim_flow_api.Media.Objects.{claim_where, claimed, expect_one}
use swim_flow_api.Media.Bindings.{
  CommitInput, legacy, with_legacy, legacy_where, cleared, bound_where, rebound, bind, as_race,
  or_conflict, catch_conflict, swap_binding, commit_body,
}
use swim_flow_api.Media.Effects.{
  insert_object_cases, update_objects_cases, insert_binding_cases, update_bindings_cases,
  with_bindings,
}
use swim_flow_api.Media.Changes.{
  phase, Change, object_added, objects_updated, binding_added, bindings_updated, bindings_removed,
  legacy_changed, Changes, unchanged, then_change, Changes-append,
}

pub one-Change : {u v : MediaDb} → Change u v → Changes u v
one-Change {u} {v} c = then_change u u v (unchanged u) c

pub settle_state :
    {A : Type 0} (s : MediaDb) (x : Outcome MediaError A × MediaDb)
    → Changes s x.1
    → Changes s (settle s x).1
settle_state s (ok a, s') h = h
settle_state s (err e, s') h = unchanged s

pub expect_one_state : (x : Outcome MediaError ℕ × MediaDb) → (expect_one x).1 ≡ x.1
expect_one_state (ok n, db) = ground arith
expect_one_state (err e, db) = refl

pub or_conflict_state : (x : Outcome MediaError ℕ × MediaDb) → (or_conflict x).1 ≡ x.1
or_conflict_state (ok n, db) = ground arith
or_conflict_state (err e, db) = refl

pub as_race_state : (x : Outcome MediaError Unit × MediaDb) → (as_race x).1 ≡ x.1
as_race_state (ok _, db) = refl
as_race_state (err e, db) = ground arith

pub catch_conflict_state :
    (i : CommitInput) (x : Outcome MediaError Unit × MediaDb) → (catch_conflict i x).1 ≡ x.1
catch_conflict_state i (ok _, db) = refl
catch_conflict_state i (err e, db) = ground arith

-- A status that equals another is at its phase.
pub leaves : (s want : Status) → status_eq s want ≡ true → phase s ≤ phase want
leaves Status.pending Status.pending e = omega arith
leaves Status.verified Status.verified e = omega arith
leaves Status.gc_claimed Status.gc_claimed e = omega arith
leaves Status.rejected Status.rejected e = omega arith
leaves Status.deleted Status.deleted e = omega arith
leaves _ _ e = absurd (ground arith)

module _ (objects : Table MediaObject same_object) where
  pub insert_object-Changes :
      (o : MediaObject) (db : MediaDb) → Changes db (insert_object objects o db).1
  insert_object-Changes o db = elim (insert_object_cases objects db o) [
    | inl (e, refused) ↦ rw refused (unchanged db)
    | inr (good, fresh, done) ↦ rw done (one-Change (object_added o db good fresh))
  ]

  pub update_objects-Changes :
      (p : MediaObject → Bool) (f : MediaObject → MediaObject) (db : MediaDb)
      → KeepsKeys same_object f
      → ((o : MediaObject) → (f o).id ≡ o.id)
      → ((o : MediaObject) → p o ≡ true → phase o.status ≤ phase (f o).status)
      → Changes db (update_objects objects p f db).1
  update_objects-Changes p f db keeps same forward =
      elim (update_objects_cases objects db p f keeps) [
        | inl (e, refused) ↦ rw refused (unchanged db)
        | inr (good, kept, done) ↦
            rw done (one-Change (objects_updated p f db same forward good kept))
      ]

  pub claimed-Changes :
      (media_id : String) (cutoff claimed_at : ℕ) (db : MediaDb)
      → Changes db (update_objects objects (claim_where media_id cutoff) (claimed claimed_at) db).1
  claimed-Changes media_id cutoff claimed_at db =
      update_objects-Changes (claim_where media_id cutoff) (claimed claimed_at) db (λ o q. refl)
        (λ o. refl) (λ o hit. omega (arith, leaves o.status Status.verified (ground (arith, hit))))

module _ (bindings : Table Binding same_binding) where
  pub insert_binding-Changes :
      (b : Binding) (db : MediaDb) → Changes db (insert_binding bindings b db).1
  insert_binding-Changes b db = elim (insert_binding_cases bindings db b) [
    | inl (e, refused) ↦ rw refused (unchanged db)
    | inr (there, fresh, done) ↦ rw done (one-Change (binding_added b db there fresh))
  ]

  pub update_bindings-Changes :
      (p : Binding → Bool) (f : Binding → Binding) (db : MediaDb)
      → Changes db (update_bindings bindings p f db).1
  update_bindings-Changes p f db = elim (update_bindings_cases bindings db p f) [
    | inl (e, refused) ↦ rw refused (unchanged db)
    | inr (there, fresh, done) ↦ rw done (one-Change (bindings_updated p f db there fresh))
  ]

  pub swap_binding-Changes :
      (target : Target) (resource_id : String) (new expected : Option String) (db : MediaDb)
      → Changes db (swap_binding bindings target resource_id new expected db).1
  unfolding swap_binding
  swap_binding-Changes target resource_id none none db = unchanged db
  swap_binding-Changes target resource_id none (some expected) db =
      let p = bound_where target resource_id expected in
      let removed : Changes db (with_bindings db (filter (λ b. not (p b)) db.bindings)) =
        one-Change (bindings_removed (λ b. not (p b)) db) in
      rw (bindings.delete_many_lem p db.bindings) (elim (Bool-cases (count p db.bindings == 1)) [
        | inl one ↦ rw one removed
        | inr other ↦ rw other removed
      ])
  swap_binding-Changes target resource_id (some media_id) none db =
      insert_binding-Changes (bind target resource_id media_id) db
  swap_binding-Changes target resource_id (some media_id) (some expected) db =
      rw (or_conflict_state _)
        (update_bindings-Changes (bound_where target resource_id expected) (rebound media_id) db)

  pub commit_body-Changes :
      (resources : Table Resource same_resource) (i : CommitInput) (db : MediaDb)
      → Changes db (commit_body bindings resources i db).1
  unfolding commit_body
  commit_body-Changes resources i db =
      let p = legacy_where i.resource_id i.expected_legacy_url in
      let rows = update_rows p cleared (legacy i.target db) in
      let first : Changes db (with_legacy i.target rows db) =
        one-Change (legacy_changed i.target rows db) in
      rw (resources.update_many_lem p cleared (legacy i.target db) (λ r s. refl))
        (elim (Bool-cases (count p (legacy i.target db) == 1)) [
          | inl one ↦ rw one (
              Changes-append first (
                swap_binding-Changes i.target i.resource_id i.new_media_id i.expected_media_id
                  (with_legacy i.target rows db)))
          | inr other ↦ rw other first
        ])
