-- ===== src/Media/Transitions.antt =====
-- The transitions of an object, exactly: in sound tables none of them is refused by the database.
use swim_flow_api.Prelude.{
  ℕ, String, ◌≡◌, refl, Bool, true, false, not, ◌||◌, List, ok, arith, any, every, update_rows,
  IsIn, All-map, All-at, All-of_each, every_of_All, any-kept, update_rows_none, count_of_key, ◌≤◌,
  Bool-cases, inl, inr, if◌then◌else◌,
}
use swim_flow_api.Database.{Table, KeepsKeys}
use swim_flow_api.Media.Store.{
  MediaObject, Binding, MediaDb, same_object, passes_checks, lifecycle_chk, verified_etag_chk,
  is_strong_etag, refers, is_referenced,
}
use swim_flow_api.Media.Statements.{update_objects, changed_one}
use swim_flow_api.Media.Objects.{
  claim_where, claimed, lock_where, complete_where, completed, settle_where, settled_verified,
  settled_rejected, delete_where, deleted_object,
}
use swim_flow_api.Media.Effects.{update_objects_lem, with_objects}
use swim_flow_api.Media.Sound.{Sound}

-- The statuses and dates that a transition needs and leaves.
pub claimed_ok :
    (media_id : String) (cutoff claimed_at : ℕ) (o : MediaObject)
    → cutoff ≤ claimed_at
    → passes_checks o ≡ true
    → claim_where media_id cutoff o ≡ true
    → passes_checks (claimed claimed_at o) ≡ true
unfolding passes_checks lifecycle_chk verified_etag_chk
claimed_ok media_id cutoff claimed_at o le h hit = ground (arith, h, hit)

pub locked_same :
    (media_id : String) (cutoff : ℕ) (o : MediaObject)
    → passes_checks o ≡ true
    → lock_where media_id cutoff o ≡ claim_where media_id cutoff o
unfolding passes_checks lifecycle_chk verified_etag_chk
locked_same media_id cutoff o h = ground (arith, h)

pub completed_ok :
    (media_id etag : String) (claimed_at completed_at : ℕ) (bindings : List Binding)
    (o : MediaObject)
    → claimed_at ≤ completed_at
    → passes_checks o ≡ true
    → complete_where media_id etag claimed_at bindings o ≡ true
    → passes_checks (completed completed_at o) ≡ true
unfolding passes_checks lifecycle_chk verified_etag_chk
completed_ok media_id etag claimed_at completed_at bindings o le h hit = ground (arith, h, hit)

pub verified_ok :
    (id : String) (cutoff verified_at : ℕ) (etag : String) (o : MediaObject)
    → is_strong_etag etag ≡ true
    → passes_checks o ≡ true
    → settle_where id cutoff o ≡ true
    → passes_checks (settled_verified verified_at etag o) ≡ true
unfolding passes_checks lifecycle_chk verified_etag_chk
verified_ok id cutoff verified_at etag o strong h hit = ground (arith, h, hit)

pub rejected_ok :
    (id : String) (cutoff : ℕ) (o : MediaObject)
    → passes_checks o ≡ true
    → settle_where id cutoff o ≡ true
    → passes_checks (settled_rejected o) ≡ true
unfolding passes_checks lifecycle_chk verified_etag_chk
rejected_ok id cutoff o h hit = ground (arith, h, hit)

pub deleted_ok :
    (id : String) (o : MediaObject)
    → passes_checks o ≡ true
    → delete_where id o ≡ true
    → passes_checks (deleted_object o) ≡ true
unfolding passes_checks lifecycle_chk verified_etag_chk
deleted_ok id o h hit = ground (arith, h, hit)

module _ (objects : Table MediaObject same_object) (db : MediaDb) (sound : Sound db) (id : String)
    (p : MediaObject → Bool) (f : MediaObject → MediaObject) (keeps : KeepsKeys same_object f)
    (key : (o : MediaObject) → p o ≡ true → o.id ≡ id)
    (good : (o : MediaObject) → passes_checks o ≡ true → p o ≡ true → passes_checks (f o) ≡ true)
    (free : (b : Binding)
      → IsIn b db.bindings
      → (o : MediaObject) → is_referenced b o ≡ true
      → p o ≡ false) where
  -- A transition that keeps the constraints and hits no bound object is carried out.
  pub transition_lem :
      update_objects objects p f db
      ≡ (ok (if any p db.objects then 1 else 0), with_objects db (update_rows p f db.objects))
  transition_lem =
      let checks : every (λ o. not (p o) || passes_checks (f o)) db.objects ≡ true =
        every_of_All _ db.objects
          (All-map _ _ db.objects (λ o h. ground (arith, good o h)) sound.checked) in
      let kept : every (refers (update_rows p f db.objects)) db.bindings ≡ true =
        every_of_All _ db.bindings (
          All-of_each _ db.bindings (λ b m.
            any-kept (is_referenced b) p f db.objects (free b m)
              (All-at _ db.bindings b sound.referred m))) in
      rw
        (
          update_objects_lem objects db p f keeps,
          checks,
          kept,
          count_of_key (λ o. o.id) id p db.objects key sound.ids,
        )
        refl

  pub transition_changed : changed_one (update_objects objects p f db) ≡ (
      if any p db.objects
      then (ok true, with_objects db (update_rows p f db.objects))
      else (ok false, db))
  transition_changed = elim (Bool-cases (any p db.objects)) [
    | inl hit ↦ rw (transition_lem, hit) refl
    | inr miss ↦ rw (transition_lem, miss, update_rows_none p f db.objects miss) refl
  ]
