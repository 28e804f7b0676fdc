-- ===== src/Uploads/Completion.antt =====
-- A reconciled image has no stored bytes.
use swim_flow_api.Prelude.{
  uuid_of, uuid_of_idem, ◌∙◌, ℕ, String, ◌≡◌, ◌≢◌, sym, ap, subst, Bool, true, false, not, ◌&&◌,
  ◌||◌, Option, none, some, any, IsIn, IsIn-update_rows, unique_hit, update_rows, Outcome, ok, err,
  str_eq, eq_iff, arith, Bool-cases, Option-cases, inl, inr, is_some, ltb, ◌≤◌,
}
use swim_flow_api.Database.{Table}
use swim_flow_api.Media.Store.{
  Status, Provider, status_eq, provider_eq, MediaObject, MediaDb, MediaError, same_object,
  is_strong_etag,
}
use swim_flow_api.Media.Objects.{is_uuid, find_by_id, complete_where, completed}
use swim_flow_api.Media.Effects.{with_objects}
use swim_flow_api.Media.Sound.{Sound}
use swim_flow_api.Media.Cleanup.{complete_claimed_blob_cleanup_lem}
use swim_flow_api.Media.Ids.{is_uuid-uuid_of}
use swim_flow_api.Uploads.Storage.{BlobStorage}
use swim_flow_api.Uploads.Reconcile.{
  ReconcileError, finished, remove_bytes, finalized, finalize, is_completed, after_removal,
  reconcile_claim, reconcile_blob, reconcile,
}
use swim_flow_api.Uploads.Absence.{removed, removed_only}

module _ {S : Type 0} (objects : Table MediaObject same_object) (storage : BlobStorage S) where
  after_removal_finished :
      (id etag : String) (claimed_at now : ℕ) (db db' : MediaDb) (s' : S)
      (x : Outcome ReconcileError Unit × S)
      → after_removal objects storage id etag claimed_at now db x ≡ (ok finished, db', s')
      → (x ≡ (ok tt, s')) × (finalize objects id etag claimed_at now db ≡ (ok finished, db'))
  after_removal_finished id etag claimed_at now db db' s' (err e, r) h = absurd (ground arith)
  after_removal_finished id etag claimed_at now db db' s' (ok _, r) h =
      (ap (λ y. (ok tt, y)) (ap (λ y. y.2) h), ap (λ y. (y.0, y.1)) h)

  -- What a run that answers "finished" has done.
  record Finishing (media_id : String) (now : ℕ) (db db' : MediaDb) (s s' : S) : Type 0 where
    object : MediaObject
    listed : IsIn object db.objects
    named : object.id ≡ uuid_of media_id
    etag : String
    claimed_at : ℕ
    started : status_eq object.status Status.gc_claimed ≡ true
    strong : is_strong_etag etag ≡ true
    uuid : is_uuid media_id ≡ true
    in_time : claimed_at ≤ now
    bytes : remove_bytes storage object.object_key etag s ≡ (ok tt, s')
    row : finalize objects object.id etag claimed_at now db ≡ (ok finished, db')

  claim-Finishing :
      (r : MediaObject) (media_id etag : String) (now : ℕ) (claimed : Option ℕ) (db db' : MediaDb)
      (s s' : S)
      → IsIn r db.objects
      → r.id ≡ uuid_of media_id
      → is_uuid media_id ≡ true
      → is_strong_etag etag ≡ true
      → reconcile_claim objects storage r etag claimed now db s ≡ (ok finished, db', s')
      → Finishing media_id now db db' s s'
  claim-Finishing r media_id etag now none db db' s s' m named uuid strong h = absurd (ground arith)
  claim-Finishing r media_id etag now (some claimed_at) db db' s s' m named uuid strong h =
      elim (Bool-cases (
        not (status_eq r.status Status.gc_claimed)
        || is_some r.cleanup_completed_at
        || ltb now claimed_at)) [
          | inl refused ↦ absurd (ground (arith, refused, h))
          | inr admitted ↦
              let run : after_removal objects storage r.id etag claimed_at now db
                    (remove_bytes storage r.object_key etag s)
                  ≡ (ok finished, db', s') =
                ground (arith, admitted, h) in
              let (bytes, row) =
                after_removal_finished r.id etag claimed_at now db db' s'
                  (remove_bytes storage r.object_key etag s) run in
              record {
                object = r;
                listed = m;
                named = named;
                etag = etag;
                claimed_at = claimed_at;
                started = ground (arith, admitted);
                strong = strong;
                uuid = uuid;
                in_time = ground (arith, admitted);
                bytes = bytes;
                row = row;
              }
        ]

  blob-Finishing :
      (r : MediaObject) (media_id : String) (now : ℕ) (etag : Option String) (db db' : MediaDb)
      (s s' : S)
      → IsIn r db.objects
      → r.id ≡ uuid_of media_id
      → is_uuid media_id ≡ true
      → reconcile_blob objects storage r etag now db s ≡ (ok finished, db', s')
      → Finishing media_id now db db' s s'
  blob-Finishing r media_id now none db db' s s' m named uuid h = absurd (ground arith)
  blob-Finishing r media_id now (some etag) db db' s s' m named uuid h =
      elim (Bool-cases (provider_eq r.storage_provider Provider.blob && is_strong_etag etag)) [
        | inr other ↦ absurd (ground (arith, other, h))
        | inl eligible ↦ elim (Bool-cases (status_eq r.status Status.deleted)) [
          | inl gone ↦ absurd (ground (arith, eligible, gone, h))
          | inr listed ↦
              claim-Finishing r media_id etag now r.cleanup_claimed_at db db' s s' m named uuid
                (ground (arith, eligible)) (ground (arith, eligible, listed, h))
        ]
      ]

  reconcile-Finishing :
      (media_id : String) (now : ℕ) (db db' : MediaDb) (s s' : S)
      → reconcile objects storage media_id now db s ≡ (ok finished, db', s')
      → Finishing media_id now db db' s s'
  unfolding reconcile find_by_id
  reconcile-Finishing media_id now db db' s s' h = elim (Bool-cases (is_uuid media_id)) [
    | inr malformed ↦ absurd (ground (arith, malformed, h))
    | inl uuid ↦
        elim (Option-cases (objects.find_first (λ o. str_eq o.id (uuid_of media_id)) db.objects)) [
          | inl missing ↦ absurd (ground (arith, uuid, missing, h))
          | inr (r, found) ↦
              let (m, e) = objects.find_first_found _ _ r found in
              blob-Finishing r media_id now r.verified_etag db db' s s' m ((eq_iff _ _).0 e) uuid
                (ground (arith, uuid, found, h))
        ]
  ]

  finalized-true :
      (id etag : String) (claimed_at : ℕ) (db' : MediaDb) (y : Outcome MediaError Bool × MediaDb)
      → finalized objects id etag claimed_at y ≡ (ok finished, db')
      → y ≡ (ok true, db')
  finalized-true id etag claimed_at db' (err e, r) h = absurd (ground arith)
  finalized-true id etag claimed_at db' (ok true, r) h = ap (λ y. (ok true, y)) (ap (λ y. y.1) h)
  finalized-true id etag claimed_at db' (ok false, r) h =
      elim (Bool-cases (is_completed etag claimed_at (find_by_id objects id r))) [
        | inl done ↦ absurd (ground (arith, done, h))
        | inr race ↦ absurd (ground (arith, race, h))
      ]

  -- A run in sound tables that answers "finished" was made on a claimed image: its object is then
  -- marked as deleted at that time, its bytes are not stored, and no others have been removed.
  pub reconcile_finished :
      (media_id : String) (now : ℕ) (db db' : MediaDb) (s s' : S)
      → Sound db
      → reconcile objects storage media_id now db s ≡ (ok finished, db', s')
      → (r : MediaObject) × IsIn r db.objects
        × (r.id ≡ uuid_of media_id)
        × (status_eq r.status Status.gc_claimed ≡ true)
        × IsIn (completed now r) db'.objects
        × (storage.held r.object_key s' ≡ none)
        × ((p : String) → p ≢ r.object_key → storage.held p s' ≡ storage.held p s)
  unfolding finalize
  reconcile_finished media_id now db db' s s' sound h =
      let f = reconcile-Finishing media_id now db db' s s' h in
      let r = f.object in
      let bytes = f.bytes in
      let wanted = complete_where (uuid_of r.id) f.etag f.claimed_at db.bindings in
      let uuid : is_uuid r.id ≡ true = rw f.named (is_uuid-uuid_of media_id ∙ f.uuid) in
      let lower : uuid_of r.id ≡ r.id = ap uuid_of f.named ∙ uuid_of_idem media_id ∙ sym f.named in
      let exact =
        complete_claimed_blob_cleanup_lem objects r.id f.etag f.claimed_at now db sound uuid
          f.strong f.in_time in
      let done = finalized-true r.id f.etag f.claimed_at db' _ f.row in
      elim (Bool-cases (any wanted db.objects)) [
        | inr miss ↦ absurd (ground (arith, exact, miss, done))
        | inl hit ↦
            let after : db' ≡ with_objects db (update_rows wanted (completed now) db.objects) =
              ground (arith, exact, hit, done) in
            let own : wanted r ≡ true =
              unique_hit (λ o. o.id) wanted db.objects r
                (λ o w. (eq_iff o.id (uuid_of r.id)).0 (ground (arith, w)) ∙ lower) sound.ids
                f.listed hit in
            (
              r,
              f.listed,
              f.named,
              f.started,
              subst (λ d. IsIn (completed now r) d.objects) (sym after)
                  (rw own at (IsIn-update_rows wanted (completed now) r db.objects f.listed)),
              removed storage r.object_key f.etag s s' bytes,
              λ p other. rw bytes at (removed_only storage r.object_key f.etag p s other),
            )
      ]
