-- ===== src/Auth/Api/Tests.antt =====
-- ApiAuthService: runs on concrete tables.
use swim_flow_api.Prelude.{
  String, ◌≡◌, ◌⊎◌, ◌≢◌, refl, none, some, [], ◌∷◌, ok, err, true, arith, eq_iff, All, IsIn, count,
  is_none, is_some,
}
use swim_flow_api.Database.{Table, list_table}
use swim_flow_api.Auth.Store.{Profile, Session, AuthDb, invalid_refresh_token}
use swim_flow_api.Auth.Fixture.{sessions, transactions, ana, first, db, times, generated}
use swim_flow_api.Auth.Permissions.{permissions_for_role}
use swim_flow_api.Auth.Sessions.{
  with_sessions, new_session, replaced, active_local_identity, may_rotate, create, consume, succeed,
  rotate_body, rotate_refresh_session, find_by_refresh_token_hash,
  find_active_by_refresh_token_hash, revoke, revoke_all_for_user,
}
use swim_flow_api.Auth.Sessions.Spent.{Spent}
use swim_flow_api.Auth.Sessions.Trace.{here}
use swim_flow_api.Auth.Api.{
  AuthIdentity, AuthResult, Context, Externals, Directory, Clock, same_profile, to_user,
  auth_result, authorized_profile, create_auth_result, refresh_session, refresh, logout,
  confirm_password_reset,
}
use swim_flow_api.Auth.Api.Revocation.{
  AllRevoked, refresh_reuse, logout-Spent, confirm_password_reset_revokes,
}
use swim_flow_api.Auth.Api.Refresh.{refresh_exchanges, refresh_token_works_once}

calls : Unit {0}
unfolding active_local_identity new_session may_rotate create consume succeed rotate_body
    rotate_refresh_session find_by_refresh_token_hash find_active_by_refresh_token_hash revoke
    revoke_all_for_user to_user auth_result authorized_profile create_auth_result refresh_session
    refresh logout confirm_password_reset permissions_for_role
calls = tt

abbrev profiles : Table Profile same_profile
profiles = list_table same_profile

abbrev externals : Externals
externals = record {
  jwt_access_ttl_seconds = 900;
  refresh_token_ttl_days = 7;
  hash_refresh_token = λ token. token;
  sign = λ sub email session_id ttl. session_id;
}

abbrev clock : Clock
clock = record { checked = 99; rotation = times; revoked = 103; issued = 100; signed = 104 }

abbrev context : Context
context = record { user_agent = none; ip_address = none }

abbrev directory : Directory
directory = record {
  sign_in_with_password = λ email password d. (ok ana_identity, d);
  identity_from_access_token = λ token d. (ok ana_identity, d);
  confirm_password_reset = λ access token password d. (ok ana_identity, d);
  delete_user = λ id d. d;
}
  where
    ana_identity : AuthIdentity
    ana_identity = record { id = "u1"; email = "ana@swim"; full_name = some "Ana" }

abbrev second : Session
second = new_session generated (record {
  user_id = "u1";
  email = "ana@swim";
  refresh_token_hash = "t2";
  expires_at = 604800100;
  user_agent = none;
  ip_address = none;
})

abbrev refreshed_db : AuthDb
refreshed_db = with_sessions db (replaced 102 "s2" first ∷ second ∷ [])

abbrev refreshed : AuthResult
refreshed = auth_result externals 104 (to_user ana "ana@swim") "s2" "t2"

refreshes :
    refresh profiles sessions transactions externals clock generated "t2" "t1" context db
    ≡ (ok refreshed, refreshed_db)
unfolding calls
refreshes = refl

found : find_by_refresh_token_hash sessions "t1" db ≡ some first
unfolding calls
found = refl

found_revoked :
    find_by_refresh_token_hash sessions "t1" refreshed_db ≡ some (replaced 102 "s2" first)
unfolding calls
found_revoked = refl

found_active : find_active_by_refresh_token_hash sessions 99 "t1" db ≡ some first
unfolding calls
found_active = refl

resets :
    confirm_password_reset profiles sessions transactions externals directory clock generated "t2"
      "a" "b" "c" context db
    ≡ (ok refreshed, with_sessions db (record first { revoked_at = some 103 } ∷ second ∷ []))
unfolding calls
resets = refl

refresh_exchanges_example :
    (s : Session) × (n : Session) × (find_by_refresh_token_hash sessions "t1" db ≡ some s)
    × Spent s.id refreshed_db.sessions
    × IsIn n refreshed_db.sessions
    × (n.revoked_at ≡ none)
    × (n.user_id ≡ s.user_id)
    × (n.email ≡ s.email)
    × (n.refresh_token_hash ≡ "t2")
    × (refreshed.refresh_token ≡ "t2")
    × (count (λ q. is_none q.revoked_at) refreshed_db.sessions
        ≡ count (λ q. is_none q.revoked_at) db.sessions)
refresh_exchanges_example =
    refresh_exchanges profiles sessions transactions externals clock generated "t2" "t1" context db
      refreshed_db refreshed (tt, tt) refreshes

other_hash : ◌≢◌ {A = String} "t2" "t1"
other_hash = ground (arith, eq_iff "t2" "t1")

nonempty : ◌≢◌ {A = String} "t1" ""
nonempty = ground (arith, eq_iff "t1" "")

refresh_token_works_once_example :
    (refresh profiles sessions transactions externals clock generated "t3" "t1" context
      refreshed_db).0
    ≡ err invalid_refresh_token
unfolding new_session
refresh_token_works_once_example =
    refresh_token_works_once profiles sessions transactions externals clock clock generated
      generated "t2" "t3" "t1" context context db refreshed_db refreshed_db refreshed first (tt, tt)
      found refreshes here ((λ _. refl), ((λ e. absurd (other_hash e)), tt))

refresh_reuse_example :
    ((refresh profiles sessions transactions externals clock generated "t3" "t1" context
        refreshed_db).0
      ≡ err invalid_refresh_token)
    × AllRevoked "u1"
        (refresh profiles sessions transactions externals clock generated "t3" "t1" context
          refreshed_db).1.sessions
refresh_reuse_example =
    refresh_reuse profiles sessions transactions externals clock generated "t3" "t1" context
      refreshed_db (replaced 102 "s2" first) nonempty found_revoked refl refl

logout-Spent_example :
    ((logout profiles sessions transactions externals 99 105 (some "t1") db).0 ≡ ok tt)
    × Spent "s1" (logout profiles sessions transactions externals 99 105 (some "t1") db).1.sessions
logout-Spent_example =
    logout-Spent profiles sessions transactions externals 99 105 "t1" db first nonempty found_active

confirm_password_reset_revokes_example :
    (identity : AuthIdentity) × (d : AuthDb) × (directory.confirm_password_reset "a" "b" "c" db
      ≡ (ok identity, d))
    × All
        (λ s. s.user_id ≡ identity.id → (is_some s.revoked_at ≡ true) ⊎ (s.id ≡ "s2"))
        (record first { revoked_at = some 103 } ∷ second ∷ [])
confirm_password_reset_revokes_example =
    confirm_password_reset_revokes profiles sessions transactions externals directory clock
      generated "t2" "a" "b" "c" context db _ refreshed resets
