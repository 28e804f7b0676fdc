-- ===== src/Media/Cleanup.antt =====
-- The transitions of a media object in sound tables, by the conditions of their statements.
use swim_flow_api.Prelude.{
  ℕ, String, ◌≡◌, ◌∙◌, refl, sym, Bool, true, false, not, ◌&&◌, ◌||◌, List, ok, arith, any, count,
  update_rows, IsIn, any_of_IsIn, All-map, count_same, count_of_key, str_eq, eq_iff, ltb, ◌≤◌,
  Bool-cases, Option-cases, inl, inr, if◌then◌else◌, uuid_of,
}
use swim_flow_api.Database.{Table, Transactions}
use swim_flow_api.Media.Store.{
  MediaObject, Binding, MediaDb, MediaError, same_object, same_binding, is_strong_etag,
  is_referenced,
}
use swim_flow_api.Media.Objects.{
  claim_where, claimed, lock_where, complete_where, completed, settle_where, settled_verified,
  settled_rejected, delete_where, deleted_object, claim_body,
  claim_unbound_verified_blob_for_cleanup, complete_claimed_blob_cleanup, mark_verified_if_pending,
  reject_if_pending, mark_deleted_if_rejected, is_uuid,
}
use swim_flow_api.Media.Effects.{with_objects}
use swim_flow_api.Media.Sound.{Sound}
use swim_flow_api.Media.Transitions.{
  claimed_ok, locked_same, completed_ok, verified_ok, rejected_ok, deleted_ok, transition_lem,
  transition_changed,
}

-- Whether a binding shows the image.
abbrev pub is_bound : String → MediaDb → Bool
is_bound id db = any (λ b. str_eq b.media_id id) db.bindings

module _ (objects : Table MediaObject same_object) (bindings : Table Binding same_binding)
    (claiming : Transactions MediaError Bool MediaDb) where
  free_of_unbound :
      (id : String) (db : MediaDb) (p : MediaObject → Bool)
      → ((o : MediaObject) → p o ≡ true → o.id ≡ id)
      → is_bound id db ≡ false
      → (b : Binding) → IsIn b db.bindings
      → (o : MediaObject) → is_referenced b o ≡ true
      → p o ≡ false
  free_of_unbound id db p key unbound b m o ref = elim (Bool-cases (p o)) [
    | inr miss ↦ miss
    | inl hit ↦
        let same : b.media_id ≡ id =
          sym ((eq_iff o.id b.media_id).0 (ground (arith, ref))) ∙ key o hit in
        absurd (
          cc (
            any_of_IsIn (λ c. str_eq c.media_id id) db.bindings b m ((eq_iff _ _).1 same),
            unbound,
          ))
  ]

  claim_key :
      (id : String) (cutoff : ℕ) (o : MediaObject) → claim_where id cutoff o ≡ true → o.id ≡ id
  claim_key id cutoff o hit = (eq_iff o.id id).0 (ground (arith, hit))

  locked_count :
      (id : String) (cutoff : ℕ) (db : MediaDb)
      → Sound db
      → count (lock_where id cutoff) db.objects
        ≡ (if any (claim_where id cutoff) db.objects then 1 else 0)
  locked_count id cutoff db sound =
      count_same _ _ db.objects
        (All-map _ _ db.objects (λ o h. locked_same id cutoff o h) sound.checked)
      ∙ count_of_key (λ o. o.id) id (claim_where id cutoff) db.objects (claim_key id cutoff)
          sound.ids

  claim_body_lem :
      (id : String) (cutoff claimed_at : ℕ) (db : MediaDb)
      → Sound db
      → cutoff ≤ claimed_at
      → claim_body objects bindings id cutoff claimed_at db ≡ (
          if any (claim_where id cutoff) db.objects && not (is_bound id db)
          then (
            ok true,
            with_objects db (update_rows (claim_where id cutoff) (claimed claimed_at) db.objects),
          )
          else (ok false, db))
  unfolding claim_body
  claim_body_lem id cutoff claimed_at db sound le =
      let locked = locked_count id cutoff db sound in
      elim (Bool-cases (any (claim_where id cutoff) db.objects)) [
        | inr miss ↦ rw (locked, miss) refl
        | inl hit ↦
            elim (Option-cases (bindings.find_first (λ b. str_eq b.media_id id) db.bindings)) [
              | inr (b, found) ↦
                  let (m, e) = bindings.find_first_found _ _ b found in
                  let bound : is_bound id db ≡ true = any_of_IsIn _ db.bindings b m e in
                  rw (locked, hit, found, bound) refl
              | inl none_found ↦
                  let unbound : is_bound id db ≡ false =
                    bindings.find_first_missing _ _ none_found in
                  let done =
                    transition_lem objects db sound id (claim_where id cutoff) (claimed claimed_at)
                      (λ o q. refl) (claim_key id cutoff)
                      (λ o h w. claimed_ok id cutoff claimed_at o le h w)
                      (free_of_unbound id db (claim_where id cutoff) (claim_key id cutoff)
                        unbound) in
                  rw (locked, hit, none_found, unbound, done) (rw hit refl)
            ]
      ]

  -- A claim of a well-formed id in sound tables.
  pub claim_unbound_verified_blob_for_cleanup_lem :
      (id : String) (cutoff claimed_at : ℕ) (db : MediaDb)
      → Sound db
      → is_uuid id ≡ true
      → cutoff ≤ claimed_at
      → claim_unbound_verified_blob_for_cleanup objects bindings claiming id cutoff claimed_at db
        ≡ (if any (claim_where (uuid_of id) cutoff) db.objects && not (is_bound (uuid_of id) db)
            then (
              ok true,
              with_objects db
                  (update_rows (claim_where (uuid_of id) cutoff) (claimed claimed_at) db.objects),
            )
            else (ok false, db))
  unfolding claim_unbound_verified_blob_for_cleanup
  claim_unbound_verified_blob_for_cleanup_lem id cutoff claimed_at db sound uuid le =
      let admitted : (not (is_uuid id) || ltb claimed_at cutoff) ≡ false = ground (arith, le) in
      rw
        (
          admitted,
          claiming.run_lem (claim_body objects bindings (uuid_of id) cutoff claimed_at) db,
          claim_body_lem (uuid_of id) cutoff claimed_at db sound le,
        )
        (elim (Bool-cases
          (any (claim_where (uuid_of id) cutoff) db.objects && not (is_bound (uuid_of id) db))) [
            | inl possible ↦ rw possible refl
            | inr refused ↦ rw refused refl
          ])

module _ (objects : Table MediaObject same_object) where
  complete_key :
      (id etag : String) (claimed_at : ℕ) (bs : List Binding) (o : MediaObject)
      → complete_where id etag claimed_at bs o ≡ true
      → o.id ≡ id
  complete_key id etag claimed_at bs o hit = (eq_iff o.id id).0 (ground (arith, hit))

  -- A completion with well-formed arguments in sound tables.
  pub complete_claimed_blob_cleanup_lem :
      (id etag : String) (claimed_at completed_at : ℕ) (db : MediaDb)
      → Sound db
      → is_uuid id ≡ true
      → is_strong_etag etag ≡ true
      → claimed_at ≤ completed_at
      → complete_claimed_blob_cleanup objects id etag claimed_at completed_at db ≡ (
          if any (complete_where (uuid_of id) etag claimed_at db.bindings) db.objects
          then (
            ok true,
            with_objects db (
                update_rows
                  (complete_where (uuid_of id) etag claimed_at db.bindings)
                  (completed completed_at)
                  db.objects),
          )
          else (ok false, db))
  unfolding complete_claimed_blob_cleanup
  complete_claimed_blob_cleanup_lem id etag claimed_at completed_at db sound uuid strong le =
      let admitted : (not (is_uuid id) || not (is_strong_etag etag) || ltb completed_at claimed_at)
          ≡ false =
        ground (arith, le) in
      rw admitted (
        transition_changed objects db sound (uuid_of id)
          (complete_where (uuid_of id) etag claimed_at db.bindings) (completed completed_at)
          (λ o q. refl) (complete_key (uuid_of id) etag claimed_at db.bindings)
          (λ o h w. completed_ok (uuid_of id) etag claimed_at completed_at db.bindings o le h w)
          (λ b m o ref. ground (arith, ref)))

  settled_key :
      (id : String) (cutoff : ℕ) (o : MediaObject) → settle_where id cutoff o ≡ true → o.id ≡ id
  settled_key id cutoff o w = (eq_iff o.id id).0 (ground (arith, w))

  -- Rejecting an upload in sound tables.
  pub reject_if_pending_lem :
      (id : String) (cutoff : ℕ) (db : MediaDb)
      → Sound db
      → reject_if_pending objects id cutoff db ≡ (
          if any (settle_where id cutoff) db.objects
          then (
            ok true,
            with_objects db (update_rows (settle_where id cutoff) settled_rejected db.objects),
          )
          else (ok false, db))
  unfolding reject_if_pending
  reject_if_pending_lem id cutoff db sound =
      transition_changed objects db sound id (settle_where id cutoff) settled_rejected (λ o q. refl)
        (settled_key id cutoff) (λ o h w. rejected_ok id cutoff o h w)
        (λ b m o ref. ground (arith, ref))

  -- Marking a rejected upload as deleted in sound tables.
  pub mark_deleted_if_rejected_lem :
      (id : String) (db : MediaDb)
      → Sound db
      → mark_deleted_if_rejected objects id db ≡ (
          if any (delete_where id) db.objects
          then (ok true, with_objects db (update_rows (delete_where id) deleted_object db.objects))
          else (ok false, db))
  unfolding mark_deleted_if_rejected
  mark_deleted_if_rejected_lem id db sound =
      transition_changed objects db sound id (delete_where id) deleted_object (λ o q. refl)
        (λ o w. (eq_iff o.id id).0 (ground (arith, w))) (λ o h w. deleted_ok id o h w)
        (λ b m o ref. ground (arith, ref))

  -- Verifying an upload in sound tables, with a strong ETag.
  pub mark_verified_if_pending_lem :
      (id etag : String) (cutoff verified_at : ℕ) (db : MediaDb)
      → Sound db
      → is_strong_etag etag ≡ true
      → mark_verified_if_pending objects id cutoff verified_at etag db ≡ (
          if any (settle_where id cutoff) db.objects
          then (
            ok true,
            with_objects db (
                update_rows
                  (settle_where id cutoff)
                  (settled_verified verified_at etag)
                  db.objects),
          )
          else (ok false, db))
  unfolding mark_verified_if_pending
  mark_verified_if_pending_lem id etag cutoff verified_at db sound strong =
      transition_changed objects db sound id (settle_where id cutoff)
        (settled_verified verified_at etag) (λ o q. refl) (settled_key id cutoff)
        (λ o h w. verified_ok id cutoff verified_at etag o strong h w)
        (λ b m o ref. ground (arith, ref))
