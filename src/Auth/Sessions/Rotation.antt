-- ===== src/Auth/Sessions/Rotation.antt =====
-- How PrismaAuthSessionsRepository.rotateRefreshSession ends, case by case.
use swim_flow_api.Prelude.{
  String, ◌≡◌, ◌⊎◌, refl, true, false, Option, none, some, [], ◌∷◌, ◌++◌, any, IsIn, Outcome, ok,
  err, Option-cases, Bool-cases, str_eq, eq_iff, inl, inr, count,
}
use swim_flow_api.Database.{Table, Transactions, settle, unique_violation}
use swim_flow_api.Auth.Store.{
  Session, AuthDb, Generated, same_session, AuthError, database, rotation_changed,
}
use swim_flow_api.Auth.Sessions.{
  SessionInput, with_sessions, RotationTimes, new_session, may_rotate, active_local_identity,
  succeed, rotate_body, rotate_refresh_session,
}
use swim_flow_api.Auth.Sessions.Spent.{create_cases, consumed, consume_cases}

-- The successor's row: the owner and the email are the consumed session's.
abbrev pub successor : Generated → SessionInput → Session → Session
successor g replacement current =
    new_session g (record replacement { user_id = current.user_id; email = current.email })

-- What a rotation that returns a successor has found and has done.
pub record Rotated (times : RotationTimes) (g : Generated) (id hash : String)
    (replacement : SessionInput) (db : AuthDb) (next : Session) (db' : AuthDb) : Type 0 where
  pub current : Session
  pub listed : IsIn current db.sessions
  pub allowed : may_rotate db id hash times.queried current ≡ true
  pub same_user : current.user_id ≡ replacement.user_id
  pub same_email : current.email ≡ replacement.email
  pub new_row : next ≡ successor g replacement current
  pub fresh : any (same_session next) db.sessions ≡ false
  pub one_changed :
      count (may_rotate db current.id hash times.tested) (db.sessions ++ next ∷ []) ≡ 1
  pub after :
      db'
      ≡ with_sessions db
          (consumed times current hash next (with_sessions db (db.sessions ++ next ∷ [])))

-- The three ways in which a rotation's body ends.
pub data Ending (times : RotationTimes) (g : Generated) (id hash : String)
    (replacement : SessionInput) (db : AuthDb) (r : Outcome AuthError (Option Session) × AuthDb)
    : Type 0 where
  refused : r ≡ (ok none, db) → Ending times g id hash replacement db r
  failed : (e : AuthError) (s : AuthDb) → r ≡ (err e, s) → Ending times g id hash replacement db r
  rotated :
      (next : Session) (db' : AuthDb)
      → r ≡ (ok (some next), db')
      → Rotated times g id hash replacement db next db'
      → Ending times g id hash replacement db r

module _ (t : Table Session same_session) (times : RotationTimes) (g : Generated) (id hash : String)
    (replacement : SessionInput) (db : AuthDb) where
  succeed_ends :
      (current : Session)
      → IsIn current db.sessions
      → may_rotate db id hash times.queried current ≡ true
      → current.user_id ≡ replacement.user_id
      → current.email ≡ replacement.email
      → Ending times g id hash replacement db (succeed t times g hash replacement current db)
  unfolding succeed may_rotate active_local_identity
  succeed_ends current listed allowed user email =
      let next = successor g replacement current in
      let input = record replacement { user_id = current.user_id; email = current.email } in
      let db1 = with_sessions db (db.sessions ++ next ∷ []) in
      elim (create_cases t g input db) [
        | inl e ↦ failed (database unique_violation) db (rw e)
        | inr (fresh, e) ↦ elim (consume_cases t times current hash next db1) [
          | inl (_, c) ↦
              failed rotation_changed (with_sessions db (consumed times current hash next db1))
                (rw (e, c))
          | inr (one, c) ↦
              rotated next (with_sessions db (consumed times current hash next db1)) (rw (e, c))
                (record {
                  current = current;
                  listed = listed;
                  allowed = allowed;
                  same_user = user;
                  same_email = email;
                  new_row = refl;
                  fresh = fresh;
                  one_changed = one;
                  after = refl;
                })
        ]
      ]

  rotate_body_ends :
      Ending times g id hash replacement db (rotate_body t times g id hash replacement db)
  unfolding rotate_body
  rotate_body_ends =
      elim (Option-cases (t.find_first (may_rotate db id hash times.queried) db.sessions)) [
        | inl missing ↦ refused (rw (missing, rotate_body))
        | inr (current, found) ↦
            let (listed, allowed) = t.find_first_found _ _ _ found in
            elim (Bool-cases (str_eq current.user_id replacement.user_id)) [
              | inl user ↦ elim (Bool-cases (str_eq current.email replacement.email)) [
                | inl email ↦
                    rw (found, rotate_body, user, email)
                      (succeed_ends current listed allowed ((eq_iff _ _).0 user)
                        ((eq_iff _ _).0 email))
                | inr other ↦ refused (rw (found, rotate_body, user, other))
              ]
              | inr other ↦ refused (rw (found, rotate_body, other))
            ]
      ]

  -- The same of the whole call: the transaction undoes what a body that throws has written.
  pub rotate_ends :
      (tx : Transactions AuthError (Option Session) AuthDb)
      → Ending times g id hash replacement db
          (rotate_refresh_session t tx times g id hash replacement db)
  unfolding rotate_refresh_session
  rotate_ends tx = rw tx.run_lem (settle_ending rotate_body_ends)
    where
      settle_ending :
          {r : Outcome AuthError (Option Session) × AuthDb}
          → Ending times g id hash replacement db r
          → Ending times g id hash replacement db (settle db r)
      settle_ending (refused e) = refused (rw e)
      settle_ending (failed e s p) = failed e db (rw p)
      settle_ending (rotated next db' e h) = rotated next db' (rw e) h

  -- A rotation that returns no successor changes nothing.
  pub rotate_atomic :
      (tx : Transactions AuthError (Option Session) AuthDb)
      → ((next : Session) × ((rotate_refresh_session t tx times g id hash replacement db).0
            ≡ ok (some next)))
        ⊎ ((rotate_refresh_session t tx times g id hash replacement db).1 ≡ db)
  unfolding rotate_refresh_session
  rotate_atomic tx = rw tx.run_lem (settled rotate_body_ends)
    where
      settled :
          {r : Outcome AuthError (Option Session) × AuthDb}
          → Ending times g id hash replacement db r
          → ((next : Session) × ((settle db r).0 ≡ ok (some next))) ⊎ ((settle db r).1 ≡ db)
      settled (refused e) = inr (rw e)
      settled (failed e s p) = inr (rw p)
      settled (rotated next db' e h) = inl (next, rw e)
