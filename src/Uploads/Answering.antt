-- ===== src/Uploads/Answering.antt =====
-- A claimed image is reconciled once the storage answers.
use swim_flow_api.Prelude.{
  uuid_of, uuid_of_idem, ap, ℕ, String, ◌≡◌, ◌∙◌, refl, sym, subst, Bool, true, false, ◌&&◌, Option,
  some, any, All-at, IsIn, any_of_IsIn, HasUnique-same, All-of_each, unique_hit, any_at, Outcome,
  ok, err, str_eq, eq_iff, arith, Option-cases, inl, inr, is_none, ◌≤◌,
}
use swim_flow_api.Database.{Table}
use swim_flow_api.Media.Store.{
  Status, Provider, status_eq, provider_eq, opt_le, MediaObject, MediaDb, same_object,
  is_strong_etag, passes_checks, lifecycle_chk, verified_etag_chk,
}
use swim_flow_api.Media.Objects.{is_uuid, find_by_id, complete_where}
use swim_flow_api.Media.Sound.{Sound}
use swim_flow_api.Media.Cleanup.{complete_claimed_blob_cleanup_lem}
use swim_flow_api.Media.Ids.{is_uuid-uuid_of}
use swim_flow_api.Media.Changes.{Reached-unbound, phase}
use swim_flow_api.Uploads.Storage.{StoredBlob, BlobStorage}
use swim_flow_api.Uploads.Reconcile.{
  ReconcileError, finished, remove_bytes, finalize, after_removal, reconcile,
}
use swim_flow_api.Uploads.Absence.{removes}

-- The object of a claim that is being reconciled.
record Claim (r : MediaObject) (etag : String) (claimed_at : ℕ) : Type 0 where
  tag : r.verified_etag ≡ some etag
  strong : is_strong_etag etag ≡ true
  provider : provider_eq r.storage_provider Provider.blob ≡ true
  status : status_eq r.status Status.gc_claimed ≡ true
  claimed : r.cleanup_claimed_at ≡ some claimed_at
  unfinished : is_none r.cleanup_completed_at ≡ true
  no_ticket : is_none r.ticket_expires_at ≡ true

claimed_facts :
    (r : MediaObject)
    → passes_checks r ≡ true
    → status_eq r.status Status.gc_claimed ≡ true
    → (etag : String) × (claimed_at : ℕ) × Claim r etag claimed_at
unfolding passes_checks lifecycle_chk verified_etag_chk
claimed_facts r h status = elim (Option-cases r.verified_etag) [
  | inl missing ↦ absurd (ground (arith, h, status, missing))
  | inr (etag, tag) ↦ elim (Option-cases r.cleanup_claimed_at) [
    | inl unclaimed ↦ absurd (ground (arith, h, status, unclaimed))
    | inr (claimed_at, claimed) ↦ (
      etag,
      claimed_at,
      record {
        tag = tag;
        strong = ground (arith, h, status, tag);
        provider = ground (arith, h, status);
        status = status;
        claimed = claimed;
        unfinished = ground (arith, h, status);
        no_ticket = ground (arith, h, status);
      },
    )
  ]
]

-- A claimed image, by its id, at a time that is not before the claim.
abbrev pub is_claimed : String → ℕ → MediaObject → Bool
is_claimed media_id now o =
    str_eq o.id media_id && status_eq o.status Status.gc_claimed && opt_le o.cleanup_claimed_at now

module _ {S : Type 0} (objects : Table MediaObject same_object) (storage : BlobStorage S) where
  claimed_unbound :
      (db : MediaDb) (r : MediaObject)
      → Sound db
      → IsIn r db.objects
      → status_eq r.status Status.gc_claimed ≡ true
      → any (λ b. str_eq b.media_id r.id) db.bindings ≡ false
  claimed_unbound db r sound m status = Reached-unbound r.id db sound (record {
    listed = any_of_IsIn _ db.objects r m ((eq_iff r.id r.id).1 refl);
    far = All-of_each _ db.objects (λ o mo e.
        let same : o ≡ r = HasUnique-same (λ x. x.id) db.objects o r sound.ids mo m e in
        rw same (late r.status status));
  })
    where
      late : (q : Status) → status_eq q Status.gc_claimed ≡ true → 2 ≤ phase q
      late Status.pending h = absurd (ground arith)
      late Status.verified h = absurd (ground arith)
      late Status.gc_claimed h = omega arith
      late Status.rejected h = absurd (ground arith)
      late Status.deleted h = absurd (ground arith)

  finalize-Claim :
      (r : MediaObject) (etag : String) (claimed_at now : ℕ) (db : MediaDb)
      → Sound db
      → IsIn r db.objects
      → Claim r etag claimed_at
      → is_uuid r.id ≡ true
      → uuid_of r.id ≡ r.id
      → claimed_at ≤ now
      → (finalize objects r.id etag claimed_at now db).0 ≡ ok finished
  unfolding finalize
  finalize-Claim r etag claimed_at now db sound m claim uuid lower in_time =
      let wanted = complete_where (uuid_of r.id) etag claimed_at db.bindings in
      let own : wanted r ≡ true = ground (
        arith,
        (eq_iff r.id (uuid_of r.id)).1 (sym lower),
        claim.tag,
        claim.provider,
        claim.status,
        claim.claimed,
        claim.unfinished,
        claim.no_ticket,
        (eq_iff etag etag).1 refl,
        claimed_unbound db r sound m claim.status,
      ) in
      let hit : any wanted db.objects ≡ true = any_of_IsIn wanted db.objects r m own in
      ground (
        arith,
        complete_claimed_blob_cleanup_lem objects r.id etag claimed_at now db sound uuid
            claim.strong in_time,
        hit,
      )

  finish_claim :
      (r : MediaObject) (etag : String) (claimed_at now : ℕ) (db : MediaDb)
      (x : Outcome ReconcileError Unit × S)
      → (finalize objects r.id etag claimed_at now db).0 ≡ ok finished
      → x.0 ≡ ok tt
      → (after_removal objects storage r.id etag claimed_at now db x).0 ≡ ok finished
  finish_claim r etag claimed_at now db (err e, s) done h = absurd (ground arith)
  finish_claim r etag claimed_at now db (ok _, s) done h = done

  -- While the storage answers every stat and carries out every deletion with the ETag of the stored
  -- bytes, and the bytes of a claimed image, if any are left, have the ETag of its object, a run on
  -- that image in sound tables answers "finished". The id is well formed.
  pub reconcile_finishes :
      (media_id : String) (now : ℕ) (db : MediaDb) (s : S)
      → Sound db
      → is_uuid media_id ≡ true
      → any (is_claimed (uuid_of media_id) now) db.objects ≡ true
      → ((p : String) (r : S) → (storage.stat p r).0 ≡ ok (storage.held p r))
      → ((p e : String) (r : S)
          → ((b : StoredBlob) → storage.held p r ≡ some b → b.etag ≡ e)
          → (storage.delete p e r).0 ≡ ok tt)
      → ((o : MediaObject)
          → IsIn o db.objects
          → o.id ≡ uuid_of media_id
          → (b : StoredBlob) → storage.held o.object_key s ≡ some b
          → o.verified_etag ≡ some b.etag)
      → (reconcile objects storage media_id now db s).0 ≡ ok finished
  unfolding reconcile find_by_id
  reconcile_finishes media_id now db s sound uuid there stats deletes recorded =
      elim (Option-cases (objects.find_first (λ o. str_eq o.id (uuid_of media_id)) db.objects)) [
        | inl missing ↦
            let (o, mo, e) = any_at (is_claimed (uuid_of media_id) now) db.objects there in
            let absent = objects.find_first_missing _ _ missing in
            absurd (
              ground (
                arith,
                absent,
                any_of_IsIn (λ q. str_eq q.id (uuid_of media_id)) db.objects o mo
                    (ground (arith, e)),
              ))
        | inr (r, found) ↦
            let (m, e) = objects.find_first_found _ _ r found in
            let named : r.id ≡ uuid_of media_id = (eq_iff _ _).0 e in
            let waiting : is_claimed (uuid_of media_id) now r ≡ true =
              unique_hit (λ o. o.id) (is_claimed (uuid_of media_id) now) db.objects r
                (λ o w. (eq_iff o.id (uuid_of media_id)).0 (ground (arith, w)) ∙ sym named)
                sound.ids m there in
            let (etag, claimed_at, claim) =
              claimed_facts r (All-at _ db.objects r sound.checked m) (ground (arith, waiting)) in
            let in_time : claimed_at ≤ now = ground (arith, waiting, claim.claimed) in
            let done =
              finalize-Claim r etag claimed_at now db sound m claim
                (subst (λ x. is_uuid x ≡ true) (sym named) (is_uuid-uuid_of media_id ∙ uuid))
                (ap uuid_of named ∙ uuid_of_idem media_id ∙ sym named) in_time in
            let removal = removes storage r.object_key etag s stats deletes (λ b held.
              same_tag etag b.etag r.verified_etag claim.tag (recorded r m named b held)) in
            let finish =
              finish_claim r etag claimed_at now db (remove_bytes storage r.object_key etag s) done
                removal in
            ground (
              arith, uuid, found, claim.tag, claim.provider, claim.strong, claim.status,
              claim.claimed, claim.unfinished, in_time, finish,
            )
      ]
    where
      same_tag : (a b : String) (o : Option String) → o ≡ some a → o ≡ some b → b ≡ a
      same_tag a b o ha hb = cc (ha, hb)
