-- ===== src/Auth/Sessions/Trace.antt =====
-- Every history of the sessions: rotations, logins, logouts and revocations in any order.
use swim_flow_api.Prelude.{
  ℕ, String, ◌≡◌, refl, Option, none, some, List, ok, HasUnique, HasUnique-append,
  HasUnique-update_rows, fresh_key, inl, inr, ◌&&◌, is_none, str_eq,
}
use swim_flow_api.Database.{Table, Transactions}
use swim_flow_api.Auth.Store.{
  Profile, Identity, Session, ActionToken, AuthDb, Generated, same_session, AuthError,
}
use swim_flow_api.Auth.Sessions.{
  SessionInput, RotationTimes, new_session, create, rotate_refresh_session, revoke,
  revoke_all_for_user, find_active_by_id,
}
use swim_flow_api.Auth.Sessions.Spent.{
  Spent, create-Spent, revoke-Spent, revoke_all_for_user-Spent, create_cases, revoke_cases,
  revoked_with,
}
use swim_flow_api.Auth.Sessions.SingleUse.{
  Rotated-Spent, rotate_of_Spent, find_active_of_Spent, rotate-Spent, rotate-HasUnique,
  rotate-Rotated,
}

-- The operations on the sessions, in any order, by any caller; and whatever changes other tables.
pub data Step (t : Table Session same_session) (tx : Transactions AuthError (Option Session) AuthDb)
    : AuthDb → AuthDb → Type 0 where
  created :
      (g : Generated) (input : SessionInput) (db : AuthDb) → Step t tx db (create t g input db).1
  rotated_once :
      (times : RotationTimes) (g : Generated) (id hash : String) (replacement : SessionInput)
      (db : AuthDb)
      → Step t tx db (rotate_refresh_session t tx times g id hash replacement db).1
  revoked :
      (now : ℕ) (id : String) (by : Option String) (db : AuthDb)
      → Step t tx db (revoke t now id by db).1
  revoked_all :
      (now : ℕ) (user : String) (db : AuthDb) → Step t tx db (revoke_all_for_user t now user db)
  elsewhere :
      (profiles : List Profile) (identities : List Identity) (tokens : List ActionToken)
      (db : AuthDb)
      → Step t tx db (record db { profiles = profiles; identities = identities; tokens = tokens })

pub data Reach (t : Table Session same_session)
    (tx : Transactions AuthError (Option Session) AuthDb) (s : AuthDb) : AuthDb → Type 0 where
  here : Reach t tx s s
  next : {u v : AuthDb} → Reach t tx s u → Step t tx u v → Reach t tx s v

module _ (t : Table Session same_session)
    (tx : Transactions AuthError (Option Session) AuthDb) where
  Step-HasUnique :
      {u v : AuthDb}
      → Step t tx u v
      → HasUnique (λ s. s.id) u.sessions
      → HasUnique (λ s. s.id) v.sessions
  Step-HasUnique (created g input db) h = elim (create_cases t g input db) [
    | inl no_row ↦ rw no_row h
    | inr (fresh, done) ↦ rw done (
        HasUnique-append (λ s. s.id) db.sessions (new_session g input) h
          (fresh_key (λ s. s.id) (new_session g input) db.sessions fresh))
  ]
  Step-HasUnique (rotated_once times g id hash replacement db) h =
      rotate-HasUnique t tx times g id hash replacement db h
  Step-HasUnique (revoked now id by db) h = elim (revoke_cases t now id by db) [
    | inl no_row ↦ rw no_row.1 h
    | inr done ↦
        rw done
          (HasUnique-update_rows (λ s. s.id) _ (revoked_with now by) db.sessions (λ s. refl) h)
  ]
  Step-HasUnique (revoked_all now user db) h =
      unfold revoke_all_for_user in
      rw
        (t.update_many_lem (λ s. str_eq s.user_id user && is_none s.revoked_at)
          (λ s. record s { revoked_at = some now }) db.sessions (λ r s. refl))
        (HasUnique-update_rows (λ s. s.id) _ (λ s. record s { revoked_at = some now }) db.sessions
          (λ s. refl) h)
  Step-HasUnique (elsewhere profiles identities tokens db) h = h

  Step-Spent :
      {u v : AuthDb} (id : String) → Step t tx u v → Spent id u.sessions → Spent id v.sessions
  Step-Spent id (created g input db) h = create-Spent t id g input db h
  Step-Spent id (rotated_once times g k hash replacement db) h =
      rotate-Spent t tx id times g k hash replacement db h
  Step-Spent id (revoked now k by db) h = revoke-Spent t id now k by db h
  Step-Spent id (revoked_all now user db) h = revoke_all_for_user-Spent t id now user db h
  Step-Spent id (elsewhere profiles identities tokens db) h = h

  Reach-HasUnique :
      {u v : AuthDb}
      → Reach t tx u v
      → HasUnique (λ s. s.id) u.sessions
      → HasUnique (λ s. s.id) v.sessions
  Reach-HasUnique here h = h
  Reach-HasUnique (next r s) h = Step-HasUnique s (Reach-HasUnique r h)

  pub Reach-Spent :
      {u v : AuthDb} (id : String) → Reach t tx u v → Spent id u.sessions → Spent id v.sessions
  Reach-Spent id here h = h
  Reach-Spent id (next r s) h = Step-Spent id s (Reach-Spent id r h)

  -- Once a rotation of a session has returned a successor, no later rotation of that session
  -- returns one, whatever operations come between: it changes nothing, and the session is not
  -- found active. Ids are unique when the first rotation begins.
  pub rotate_single_use :
      (times times' : RotationTimes) (g g' : Generated) (id hash hash' : String)
      (replacement replacement' : SessionInput) (now : ℕ) (db db' later : AuthDb)
      (successor : Session)
      → HasUnique (λ s. s.id) db.sessions
      → rotate_refresh_session t tx times g id hash replacement db ≡ (ok (some successor), db')
      → Reach t tx db' later
      → (rotate_refresh_session t tx times' g' id hash' replacement' later ≡ (ok none, later))
        × (find_active_by_id t now id later ≡ none)
  rotate_single_use times times' g g' id hash hash' replacement replacement' now db db' later
        successor unique done r =
      let spent : Spent id later.sessions = Reach-Spent id r (
        Rotated-Spent (rotate-Rotated t tx times g id hash replacement db db' successor done)
          unique) in
      (
        rotate_of_Spent t tx times' g' id hash' replacement' later spent,
        find_active_of_Spent t now id later spent,
      )
