-- ===== src/Uploads/Progress.antt =====
-- What each statement of a cleanup changes.
use swim_flow_api.Prelude.{
  ℕ, String, ◌≡◌, ◌∙◌, refl, ap, subst, Bool, true, false, ◌||◌, any, count, count_kept,
  count_gained, count_of_key, update_rows, IsIn, IsIn-update_rows, eq_iff, arith, ◌≤◌, ◌+◌,
  if◌then◌else◌,
}
use swim_flow_api.Database.{Table}
use swim_flow_api.Media.Store.{Status, status_eq, MediaObject, MediaDb, same_object}
use swim_flow_api.Media.Objects.{
  reject_if_pending, mark_deleted_if_rejected, settle_where, settled_rejected, delete_where,
  deleted_object,
}
use swim_flow_api.Media.Effects.{with_objects}
use swim_flow_api.Media.Sound.{Sound}
use swim_flow_api.Media.Changes.{Changes, Changes-Sound}
use swim_flow_api.Media.Progress.{update_objects-Changes, leaves}
use swim_flow_api.Media.Effects.{changed_one_state}
use swim_flow_api.Media.Cleanup.{reject_if_pending_lem, mark_deleted_if_rejected_lem}
use swim_flow_api.Uploads.Cleanup.{Tally, one_deleted}

abbrev pub is_deleted : MediaObject → Bool
is_deleted o = status_eq o.status Status.deleted

-- An upload that has not been verified nor deleted.
abbrev pub is_unsettled : MediaObject → Bool
is_unsettled o = status_eq o.status Status.pending || status_eq o.status Status.rejected

-- What some steps of a cleanup, `k` candidates long, have done.
pub record Progress (k : ℕ) (n n' : Tally) (db db' : MediaDb) : Type 0 where
  pub sound : Sound db'
  pub counted : count is_deleted db'.objects + n.deleted ≡ count is_deleted db.objects + n'.deleted
  pub bounded : n'.deleted + n'.failed ≤ n.deleted + n.failed + k
  pub kept : (o : MediaObject) → IsIn o db.objects → is_unsettled o ≡ false → IsIn o db'.objects

pub rest : (k : ℕ) (n : Tally) (db : MediaDb) → Sound db → Progress k n n db db
rest k n db sound = record {
  sound = sound;
  counted = refl;
  bounded = omega arith;
  kept = λ o m done. m;
}

pub follow :
    (j k m : ℕ) (n1 n2 n3 : Tally) (u v w : MediaDb)
    → m ≡ j + k
    → Progress j n1 n2 u v
    → Progress k n2 n3 v w
    → Progress m n1 n3 u w
follow j k m n1 n2 n3 u v w e p q = record {
  sound = q.sound;
  counted = omega (arith, p.counted, q.counted);
  bounded = omega (arith, e, p.bounded, q.bounded);
  kept = λ o listed done. q.kept o (p.kept o listed done) done;
}

pub taken : {A : Type 0} {b : Bool} (x y : A) → b ≡ true → (if b then x else y) ≡ x
taken x y h = rw h refl

module _ (objects : Table MediaObject same_object) where
  rejected-Changes :
      (id : String) (cutoff : ℕ) (db : MediaDb)
      → Changes db (reject_if_pending objects id cutoff db).1
  unfolding reject_if_pending
  rejected-Changes id cutoff db = rw (changed_one_state _) (
      update_objects-Changes objects (settle_where id cutoff) settled_rejected db (λ o q. refl)
        (λ o. refl) (λ o hit. omega (arith, leaves o.status Status.pending (ground (arith, hit)))))

  deleted-Changes :
      (id : String) (db : MediaDb) → Changes db (mark_deleted_if_rejected objects id db).1
  unfolding mark_deleted_if_rejected
  deleted-Changes id db = rw (changed_one_state _) (
      update_objects-Changes objects (delete_where id) deleted_object db (λ o q. refl) (λ o. refl)
        (λ o hit. omega (arith, leaves o.status Status.rejected (ground (arith, hit)))))

  pub reject-Progress :
      (id : String) (cutoff : ℕ) (n : Tally) (db : MediaDb)
      → Sound db
      → any (settle_where id cutoff) db.objects ≡ true
      → Progress 0 n n db
          (with_objects db (update_rows (settle_where id cutoff) settled_rejected db.objects))
  reject-Progress id cutoff n db sound hit = record {
    sound =
        subst Sound
          (ap (λ x. x.1) (reject_if_pending_lem objects id cutoff db sound ∙ taken _ _ hit))
          (Changes-Sound (rejected-Changes id cutoff db) sound);
    counted =
        ap (λ c. c + n.deleted)
          (count_kept is_deleted (settle_where id cutoff) settled_rejected db.objects
            (λ o w. ground (arith, w)));
    bounded = omega arith;
    kept = λ o m done.
        let miss : settle_where id cutoff o ≡ false = ground (arith, done) in
        rw miss at (IsIn-update_rows (settle_where id cutoff) settled_rejected o db.objects m);
  }

  pub delete-Progress :
      (id : String) (n : Tally) (db : MediaDb)
      → Sound db
      → any (delete_where id) db.objects ≡ true
      → Progress 1 n
          (one_deleted n)
          db
          (with_objects db (update_rows (delete_where id) deleted_object db.objects))
  delete-Progress id n db sound hit =
      let one : count (delete_where id) db.objects ≡ 1 = ground (
        arith,
        count_of_key (λ o. o.id) id (delete_where id) db.objects
            (λ o w. (eq_iff o.id id).0 (ground (arith, w))) sound.ids,
        hit,
      ) in
      record {
        sound =
            subst Sound
              (ap (λ x. x.1) (mark_deleted_if_rejected_lem objects id db sound ∙ taken _ _ hit))
              (Changes-Sound (deleted-Changes id db) sound);
        counted = ground (
          arith,
          one,
          count_gained is_deleted (delete_where id) deleted_object db.objects
              (λ o w. ground (arith, w)) (λ o. refl),
        );
        bounded = omega arith;
        kept = λ o m done.
            let miss : delete_where id o ≡ false = ground (arith, done) in
            rw miss at (IsIn-update_rows (delete_where id) deleted_object o db.objects m);
      }
