-- ===== src/Auth/Sessions.antt =====
-- PrismaAuthSessionsRepository (src/infra/database/prisma/repositories). A query's `where` is a
-- Boolean predicate on rows; each reading of the clock is an argument. The row lock that a rotation
-- takes first has no effect here: a transaction is one step.
pub mod Spent
pub mod Rotation
pub mod SingleUse
pub mod Trace
mod Tests
use swim_flow_api.Prelude.{
  ℕ, String, Bool, true, ◌&&◌, ◌||◌, not, Option, none, some, List, Outcome, ok, err, any, is_none,
  is_some, ltb, str_eq, ◌==◌, if◌then◌else◌,
}
use swim_flow_api.Database.{Table, Transactions}
use swim_flow_api.Auth.Store.{
  Profile, Identity, Session, AuthDb, Generated, same_session, AuthError, database,
  rotation_changed,
}

-- CreateAuthSessionRepositoryInput
pub record SessionInput : Type 0 where
  pub user_id : String
  pub email : String
  pub refresh_token_hash : String
  pub expires_at : ℕ
  pub user_agent : Option String
  pub ip_address : Option String

-- The three times that a rotation reads: for the query, for the update's test, for its data.
pub record RotationTimes : Type 0 where
  pub queried : ℕ
  pub tested : ℕ
  pub stamped : ℕ

abbrev pub is_usable : Identity → Bool
is_usable i = is_none i.disabled_at && is_some i.email_confirmed_at && is_some i.password_hash

-- `activeLocalIdentitySession`: the owner's profile has a usable local identity.
unfoldable pub active_local_identity : AuthDb → Session → Bool
active_local_identity db s =
    any
      (λ p. str_eq p.id s.user_id && any (λ i. str_eq i.user_id p.id && is_usable i) db.identities)
      db.profiles

unfoldable pub new_session : Generated → SessionInput → Session
new_session g input = record {
  id = g.id;
  user_id = input.user_id;
  email = input.email;
  refresh_token_hash = input.refresh_token_hash;
  expires_at = input.expires_at;
  revoked_at = none;
  replaced_by_session_id = none;
  user_agent = input.user_agent;
  ip_address = input.ip_address;
  created_at = g.now;
  updated_at = g.now;
}

abbrev pub is_live_at : AuthDb → ℕ → Session → Bool
is_live_at db now s = is_none s.revoked_at && ltb now s.expires_at && active_local_identity db s

-- The `where` of a rotation, of its query and of its update.
unfoldable pub may_rotate : AuthDb → String → String → ℕ → Session → Bool
may_rotate db id hash now s =
    str_eq s.id id && str_eq s.refresh_token_hash hash && is_live_at db now s

abbrev pub replaced : ℕ → String → Session → Session
replaced now next s = record s { revoked_at = some now; replaced_by_session_id = some next }

abbrev pub with_sessions : AuthDb → List Session → AuthDb
with_sessions db rows = record db { sessions = rows }

module _ (t : Table Session same_session) where
  unfoldable pub create : Generated → SessionInput → AuthDb → Outcome AuthError Session × AuthDb
  create g input db = elim (t.create (new_session g input) db.sessions) [
    | ok rows ↦ (ok (new_session g input), with_sessions db rows)
    | err e ↦ (err (database e), db)
  ]

  -- The update that ends a rotation: unless it changes one row, the transaction fails.
  unfoldable pub consume :
      RotationTimes
      → Session
      → String
      → Session
      → AuthDb
      → Outcome AuthError (Option Session) × AuthDb
  consume times current hash next db =
      let (rows, changed) =
        t.update_many (may_rotate db current.id hash times.tested) (replaced times.stamped next.id)
          db.sessions in
      if changed == 1
      then (ok (some next), with_sessions db rows)
      else (err rotation_changed, with_sessions db rows)

  -- The steps after the insertion of the successor.
  abbrev pub then_consume :
      RotationTimes
      → Session
      → String
      → Outcome AuthError Session × AuthDb
      → Outcome AuthError (Option Session) × AuthDb
  then_consume times current hash (err e, db) = (err e, db)
  then_consume times current hash (ok next, db) = consume times current hash next db

  unfoldable pub succeed :
      RotationTimes
      → Generated
      → String
      → SessionInput
      → Session
      → AuthDb
      → Outcome AuthError (Option Session) × AuthDb
  succeed times g hash replacement current db =
      then_consume times current hash
        (create g (record replacement { user_id = current.user_id; email = current.email }) db)

  unfoldable pub rotate_body :
      RotationTimes
      → Generated
      → String
      → String
      → SessionInput
      → AuthDb
      → Outcome AuthError (Option Session) × AuthDb
  rotate_body times g id hash replacement db =
      elim (t.find_first (may_rotate db id hash times.queried) db.sessions) [
        | none ↦ (ok none, db)
        | some current ↦
            if not (str_eq current.user_id replacement.user_id)
              || not (str_eq current.email replacement.email)
            then (ok none, db)
            else succeed times g hash replacement current db
      ]

  unfoldable pub rotate_refresh_session :
      Transactions AuthError (Option Session) AuthDb
      → RotationTimes
      → Generated
      → String
      → String
      → SessionInput
      → AuthDb
      → Outcome AuthError (Option Session) × AuthDb
  rotate_refresh_session tx times g id hash replacement =
      tx.run (rotate_body times g id hash replacement)

  unfoldable pub find_active_by_id : ℕ → String → AuthDb → Option Session
  find_active_by_id now id db =
      t.find_first (λ s. str_eq s.id id && is_live_at db now s) db.sessions

  unfoldable pub find_by_refresh_token_hash : String → AuthDb → Option Session
  find_by_refresh_token_hash hash db =
      t.find_first (λ s. str_eq s.refresh_token_hash hash && active_local_identity db s) db.sessions

  unfoldable pub find_active_by_refresh_token_hash : ℕ → String → AuthDb → Option Session
  find_active_by_refresh_token_hash now hash db =
      t.find_first (λ s. str_eq s.refresh_token_hash hash && is_live_at db now s) db.sessions

  -- `update` by the primary key: a missing row is an error.
  unfoldable pub revoke :
      ℕ → String → Option String → AuthDb → Outcome AuthError (Unit {0}) × AuthDb
  revoke now id replaced_by db =
      elim (t.update (λ s. str_eq s.id id)
        (λ s. record s { revoked_at = some now; replaced_by_session_id = replaced_by })
        db.sessions) [ ok rows ↦ (ok tt, with_sessions db rows) | err e ↦ (err (database e), db) ]

  unfoldable pub revoke_all_for_user : ℕ → String → AuthDb → AuthDb
  revoke_all_for_user now user_id db = with_sessions db (
      (t.update_many (λ s. str_eq s.user_id user_id && is_none s.revoked_at)
        (λ s. record s { revoked_at = some now }) db.sessions).0)
