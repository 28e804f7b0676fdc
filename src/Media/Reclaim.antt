-- ===== src/Media/Reclaim.antt =====
-- An object claimed for cleanup is never bound again.
use swim_flow_api.Prelude.{
  ℕ, String, ◌≡◌, ◌≢◌, ◌∙◌, subst, ap, ◌||◌, ltb, Bool, some, count_of_key, any-map, Option-cases,
  refl, true, false, ok, any, update_rows, str_eq, eq_iff, arith, Bool-cases, inl, inr,
  All-update_rows, any_of_IsIn, hit_of_key, any-update_rows, not, ◌&&◌, uuid_of,
}
use swim_flow_api.Database.{Table, Transactions}
use swim_flow_api.Media.Store.{
  Target, MediaObject, Binding, Resource, MediaDb, MediaError, same_object, same_binding,
  same_resource,
}
use swim_flow_api.Media.Bindings.{find_active_media_id, slot_where}
use swim_flow_api.Media.Objects.{
  claim_where, claimed, claim_unbound_verified_blob_for_cleanup, is_uuid,
}
use swim_flow_api.Media.Sound.{Sound}
use swim_flow_api.Media.Changes.{Changes-Sound, Reached, Changes-Reached, Reached-unbound}
use swim_flow_api.Media.Trace.{
  MediaReach, MediaReach-Changes, MediaStep, then_step, at_start, claim_tried,
}
use swim_flow_api.Media.Cleanup.{is_bound, claim_unbound_verified_blob_for_cleanup_lem}

module _ (objects : Table MediaObject same_object) (bindings : Table Binding same_binding)
    (resources : Table Resource same_resource) (claiming : Transactions MediaError Bool MediaDb)
    (committing : Transactions MediaError Unit MediaDb) where
  -- Every history of the repository keeps the tables sound: ids are unique, the CHECKs hold of
  -- every object, every binding shows a verified blob of exactly its resource, and no two bindings
  -- share an image or a resource.
  pub MediaReach-Sound :
      {u v : MediaDb}
      → MediaReach objects bindings resources claiming committing u v
      → Sound u
      → Sound v
  MediaReach-Sound r =
      Changes-Sound (MediaReach-Changes objects bindings resources claiming committing r)

  -- No call of the repository takes an object back: one that has come to a phase (pending; verified
  -- or rejected; claimed; deleted) is listed at that phase or a later one at every later time.
  pub MediaReach-Reached :
      {u v : MediaDb} (id : String) (n : ℕ)
      → MediaReach objects bindings resources claiming committing u v
      → Reached id n u.objects
      → Reached id n v.objects
  MediaReach-Reached id n r =
      Changes-Reached id n (MediaReach-Changes objects bindings resources claiming committing r)

  claim_granted :
      (id : String) (cutoff claimed_at : ℕ) (db db' : MediaDb)
      → Sound db
      → claim_unbound_verified_blob_for_cleanup objects bindings claiming id cutoff claimed_at db
        ≡ (ok true, db')
      → (any (claim_where (uuid_of id) cutoff) db.objects ≡ true)
        × (db' ≡ record db {
          objects = update_rows (claim_where (uuid_of id) cutoff) (claimed claimed_at) db.objects;
        })
  unfolding claim_unbound_verified_blob_for_cleanup
  claim_granted id cutoff claimed_at db db' sound h =
      elim (Bool-cases (not (is_uuid id) || ltb claimed_at cutoff)) [
        | inl bad ↦ absurd (refused bad)
        | inr good ↦
            let exact =
              claim_unbound_verified_blob_for_cleanup_lem objects bindings claiming id cutoff
                claimed_at db sound (ground (arith, good)) (ground (arith, good)) in
            elim (Bool-cases (
              any (claim_where (uuid_of id) cutoff) db.objects && not (is_bound (uuid_of id) db))) [
                | inl possible ↦ (ground (arith, possible), ground (arith, exact, h, possible))
                | inr idle ↦ absurd (ground (arith, exact, h, idle))
              ]
      ]
    where
      refused : (not (is_uuid id) || ltb claimed_at cutoff) ≡ true → ⊥
      refused bad = ground (arith, bad, h)

  claimed-Reached :
      (id : String) (cutoff claimed_at : ℕ) (db : MediaDb)
      → Sound db
      → any (claim_where id cutoff) db.objects ≡ true
      → Reached id 2 (update_rows (claim_where id cutoff) (claimed claimed_at) db.objects)
  claimed-Reached id cutoff claimed_at db sound there =
      let p = claim_where id cutoff in
      let key : (o : MediaObject) → p o ≡ true → o.id ≡ id =
        λ o w. (eq_iff o.id id).0 (ground (arith, w)) in
      let once = count_of_key (λ o. o.id) id p db.objects key sound.ids in
      record {
        listed =
            any-update_rows (λ o. str_eq o.id id) p (claimed claimed_at) db.objects (λ o. refl)
            ∙ any-map p (λ o. str_eq o.id id) db.objects (λ o w. ground (arith, w)) there;
        far =
            All-update_rows _ _ p (claimed claimed_at) db.objects (λ o _ _ _. omega arith)
              (λ o at miss e. absurd (ground (arith, at e, miss)))
              (hit_of_key (λ o. o.id) id p db.objects key sound.ids (ground (arith, once, there)));
      }

  -- After a claim has been granted in sound tables, at every later time no binding shows the image,
  -- no resource has it as its active image, and its object is still listed as claimed or deleted,
  -- whatever calls of the repository come between.
  pub claimed_never_active :
      (id : String) (cutoff claimed_at : ℕ) (db db' later : MediaDb)
      → Sound db
      → claim_unbound_verified_blob_for_cleanup objects bindings claiming id cutoff claimed_at db
        ≡ (ok true, db')
      → MediaReach objects bindings resources claiming committing db' later
      → (is_bound (uuid_of id) later ≡ false)
        × ((target : Target) (resource_id : String)
            → find_active_media_id bindings target resource_id later ≢ some (uuid_of id))
        × Reached (uuid_of id) 2 later.objects
  unfolding find_active_media_id
  claimed_never_active id cutoff claimed_at db db' later sound granted r =
      let (there, after) = claim_granted id cutoff claimed_at db db' sound granted in
      let changes = MediaReach-Changes objects bindings resources claiming committing r in
      let start : Sound db' =
        MediaReach-Sound
          (then_step db db db' (at_start db) (
            subst (λ s. MediaStep objects bindings resources claiming committing db s)
              (ap (λ x. x.1) granted) (claim_tried id cutoff claimed_at db)))
          sound in
      let reached : Reached (uuid_of id) 2 later.objects =
        Changes-Reached (uuid_of id) 2 changes
          (rw after (claimed-Reached (uuid_of id) cutoff claimed_at db sound there)) in
      let unbound = Reached-unbound (uuid_of id) later (Changes-Sound changes start) reached in
      (
        unbound,
        (λ target resource_id active.
            elim (Option-cases
              (bindings.find_first (slot_where target resource_id) later.bindings)) [
                | inl missing ↦ ground (arith, missing, active)
                | inr (b, found) ↦
                    let (m, e) = bindings.find_first_found _ _ b found in
                    let same : b.media_id ≡ uuid_of id = ground (arith, found, active) in
                    cc (
                      any_of_IsIn (λ c. str_eq c.media_id (uuid_of id)) later.bindings b m
                          ((eq_iff _ _).1 same),
                      unbound,
                    )
              ]),
        reached,
      )
