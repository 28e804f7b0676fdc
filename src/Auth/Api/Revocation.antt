-- ===== src/Auth/Api/Revocation.antt =====
-- Revocation through ApiAuthService: a reused refresh token, a logout, a password reset.
use swim_flow_api.Prelude.{
  ℕ, String, ◌≡◌, ◌≢◌, ◌⊎◌, refl, Bool, true, false, ◌&&◌, Option, none, some, List, [], ◌∷◌, ◌++◌,
  arith, any, All, All-append, All-map, All-of_each, All-update_rows, IsIn, IsIn-update_rows,
  Outcome, ok, err, str_eq, eq_iff, is_none, is_some, truthy, Option-cases, inl, inr, any_of_IsIn,
}
use swim_flow_api.Database.{Table, Transactions}
use swim_flow_api.Auth.Store.{
  Profile, Session, AuthDb, Generated, same_session, AuthError, invalid_refresh_token,
}
use swim_flow_api.Auth.Sessions.{
  with_sessions, new_session, find_by_refresh_token_hash, find_active_by_refresh_token_hash, revoke,
  revoke_all_for_user,
}
use swim_flow_api.Auth.Sessions.Spent.{Spent, create_cases, revoke-Spent_self}
use swim_flow_api.Auth.Api.{
  AuthIdentity, AuthResult, Context, Externals, Directory, Clock, same_profile, refresh,
  refresh_session, logout, authorized_profile, create_auth_result, then_reset,
  confirm_password_reset, session_input,
}

-- No session of the user is unrevoked.
abbrev pub AllRevoked : String → List Session → Type 0
AllRevoked user_id = All (λ s. s.user_id ≡ user_id → is_some s.revoked_at ≡ true)

-- Revoking all sessions of a user revokes each of them, and leaves every session of another user
-- as it was.
pub revoke_all_for_user_lem :
    (t : Table Session same_session) (now : ℕ) (user_id : String) (db : AuthDb)
    → AllRevoked user_id (revoke_all_for_user t now user_id db).sessions
      × ((s : Session)
          → IsIn s db.sessions
          → s.user_id ≢ user_id
          → IsIn s (revoke_all_for_user t now user_id db).sessions)
unfolding revoke_all_for_user
revoke_all_for_user_lem t now user_id db =
    let hit : Session → Bool = λ s. str_eq s.user_id user_id && is_none s.revoked_at in
    let stamp : Session → Session = λ s. record s { revoked_at = some now } in
    rw (t.update_many_lem hit stamp db.sessions (λ r s. refl)) (
      All-update_rows (λ s. Unit {0}) _ hit stamp db.sessions (λ s _ _ _. refl)
          (λ s _ miss e. ground (arith, eq_iff s.user_id user_id))
          (All-of_each _ db.sessions (λ s _. tt)),
      (λ s listed other.
          let miss : hit s ≡ false = ground (arith, eq_iff s.user_id user_id) in
          (rw miss at (IsIn-update_rows hit stamp s db.sessions listed))),
    )

found_listed :
    (t : Table Session same_session) (now : ℕ) (hash : String) (db : AuthDb) (s : Session)
    → find_active_by_refresh_token_hash t now hash db ≡ some s
    → any (λ r. str_eq r.id s.id) db.sessions ≡ true
unfolding find_active_by_refresh_token_hash
found_listed t now hash db s found =
    any_of_IsIn _ db.sessions s (t.find_first_found _ _ _ found).0 ((eq_iff s.id s.id).1 refl)

module _ (profiles : Table Profile same_profile) (t : Table Session same_session)
    (tx : Transactions AuthError (Option Session) AuthDb) (x : Externals) where
  -- A refresh token whose session was revoked when it was replaced is refused, and every session
  -- of that user is revoked afterwards.
  pub refresh_reuse :
      (clock : Clock) (g : Generated) (token presented : String) (context : Context) (db : AuthDb)
      (s : Session)
      → presented ≢ ""
      → find_by_refresh_token_hash t (x.hash_refresh_token presented) db ≡ some s
      → is_some s.revoked_at ≡ true
      → truthy s.replaced_by_session_id ≡ true
      → ((refresh profiles t tx x clock g token presented context db).0 ≡ err invalid_refresh_token)
        × AllRevoked s.user_id
            (refresh profiles t tx x clock g token presented context db).1.sessions
  unfolding refresh refresh_session
  refresh_reuse clock g token presented context db s nonempty found revoked replaced =
      let done : refresh profiles t tx x clock g token presented context db
          ≡ (err invalid_refresh_token, revoke_all_for_user t clock.revoked s.user_id db) =
        ground (arith, eq_iff presented "") in
      rw done (refl, (revoke_all_for_user_lem t clock.revoked s.user_id db).0)

  -- A logout with the token of an active session leaves that session spent.
  pub logout-Spent :
      (queried stamped : ℕ) (token : String) (db : AuthDb) (s : Session)
      → token ≢ ""
      → find_active_by_refresh_token_hash t queried (x.hash_refresh_token token) db ≡ some s
      → ((logout profiles t tx x queried stamped (some token) db).0 ≡ ok tt)
        × Spent s.id (logout profiles t tx x queried stamped (some token) db).1.sessions
  unfolding logout
  logout-Spent queried stamped token db s nonempty found =
      let done : logout profiles t tx x queried stamped (some token) db
          ≡ revoke t stamped s.id none db =
        ground (arith, eq_iff token "") in
      rw done (revoke-Spent_self t stamped s.id none db (found_listed t queried _ db s found))

-- The row of a login.
abbrev pub login_row : Externals → Clock → Generated → String → AuthIdentity → Context → Session
login_row x clock g token identity context =
    new_session g (session_input x clock identity token context)

module _ (profiles : Table Profile same_profile) (t : Table Session same_session)
    (tx : Transactions AuthError (Option Session) AuthDb) (x : Externals) where
  create_auth_result_ok :
      (clock : Clock) (g : Generated) (token : String) (identity : AuthIdentity) (context : Context)
      (db db' : AuthDb) (r : AuthResult)
      → create_auth_result profiles t tx x clock g token identity context db ≡ (ok r, db')
      → db' ≡ with_sessions db (db.sessions ++ login_row x clock g token identity context ∷ [])
  unfolding create_auth_result authorized_profile
  create_auth_result_ok clock g token identity context db db' r done =
      elim (Option-cases (profiles.find_first (λ p. str_eq p.id identity.id) db.profiles)) [
        | inl missing ↦ absurd (ground arith)
        | inr (p, found) ↦
            elim (create_cases t g (session_input x clock identity token context) db) [
              | inl no_row ↦ absurd (ground (arith, no_row))
              | inr (_, made) ↦ ground (arith, made)
            ]
      ]

  -- A password reset that returns leaves no unrevoked session of the user but the one that it
  -- creates.
  pub confirm_password_reset_revokes :
      (directory : Directory) (clock : Clock) (g : Generated)
      (token access refresh_token password : String) (context : Context) (db db' : AuthDb)
      (r : AuthResult)
      → confirm_password_reset profiles t tx x directory clock g token access refresh_token password
          context db
        ≡ (ok r, db')
      → (identity : AuthIdentity) × (db1 : AuthDb) × (directory.confirm_password_reset access
            refresh_token password db
          ≡ (ok identity, db1))
        × All
            (λ s. s.user_id ≡ identity.id → (is_some s.revoked_at ≡ true) ⊎ (s.id ≡ g.id))
            db'.sessions
  unfolding confirm_password_reset new_session
  confirm_password_reset_revokes directory clock g token access refresh_token password context db
        db' r done =
      from (directory.confirm_password_reset access refresh_token password db) refl done
    where
      from :
          (o : Outcome AuthError AuthIdentity × AuthDb)
          → directory.confirm_password_reset access refresh_token password db ≡ o
          → then_reset profiles t tx x clock g token context o ≡ (ok r, db')
          → (identity : AuthIdentity) × (db1 : AuthDb) × (directory.confirm_password_reset access
                refresh_token password db
              ≡ (ok identity, db1))
            × All
                (λ s. s.user_id ≡ identity.id → (is_some s.revoked_at ≡ true) ⊎ (s.id ≡ g.id))
                db'.sessions
      from (err e, db1) q h = cc
      from (ok identity, db1) q h =
          let cleared = revoke_all_for_user t clock.revoked identity.id db1 in
          let after : db'
              ≡ with_sessions cleared
                  (cleared.sessions ++ login_row x clock g token identity context ∷ []) =
            create_auth_result_ok clock g token identity context cleared db' r h in
          (
            identity,
            db1,
            q,
            rw after (
                All-append _ cleared.sessions (login_row x clock g token identity context ∷ [])
                  (All-map _ _ cleared.sessions (λ s k e. inl (k e))
                    (revoke_all_for_user_lem t clock.revoked identity.id db1).0)
                  ((λ _. inr refl), tt)),
          )
