-- ===== src/Auth/Api.antt =====
-- ApiAuthService (src/infra/auth/api-auth.service.ts). The identity directory, the hash of a token
-- and the signature of an access token are parameters; random tokens and the readings of the clock
-- are arguments.
pub mod Revocation
pub mod Refresh
mod Tests
use swim_flow_api.Prelude.{
  ℕ, ◌+◌, ◌*◌, String, Bool, true, false, Option, none, some, List, Outcome, ok, err, leb, str_eq,
  truthy, or_option, if◌then◌else◌,
}
use swim_flow_api.Database.{Table, Transactions}
use swim_flow_api.Auth.Store.{
  Role, Profile, Session, AuthDb, Generated, same_session, AuthError, invalid_refresh_token,
  unauthorized_app_access,
}
use swim_flow_api.Auth.Permissions.{Permission, permissions_for_role}
use swim_flow_api.Auth.Sessions.{
  SessionInput, RotationTimes, create, rotate_refresh_session, find_by_refresh_token_hash,
  find_active_by_refresh_token_hash, revoke, revoke_all_for_user,
}

pub record AuthIdentity : Type 0 where
  pub id : String
  pub email : String
  pub full_name : Option String

pub record AuthenticatedUser : Type 0 where
  pub id : String
  pub email : String
  pub role : Role
  pub permissions : List Permission
  pub full_name : String
  pub avatar_url : Option String

pub record AuthResult : Type 0 where
  pub access_token : String
  pub access_token_expires_at : ℕ
  pub refresh_token : String
  pub user : AuthenticatedUser

pub record Context : Type 0 where
  pub user_agent : Option String
  pub ip_address : Option String

-- The environment's settings, and what the service calls outside the repository.
pub record Externals : Type 0 where
  pub jwt_access_ttl_seconds : ℕ
  pub refresh_token_ttl_days : ℕ
  pub hash_refresh_token : String → String
  pub sign : (sub email session_id : String) → ℕ → String

-- AuthDirectoryRepository, as far as the service calls it.
pub record Directory : Type 0 where
  pub sign_in_with_password :
      (email password : String) → AuthDb → Outcome AuthError AuthIdentity × AuthDb
  pub identity_from_access_token : String → AuthDb → Outcome AuthError AuthIdentity × AuthDb
  pub confirm_password_reset :
      (access refresh password : String) → AuthDb → Outcome AuthError AuthIdentity × AuthDb
  pub delete_user : String → AuthDb → AuthDb

-- The times at which a call reads the clock.
pub record Clock : Type 0 where
  pub checked : ℕ
  pub rotation : RotationTimes
  pub revoked : ℕ
  pub issued : ℕ
  pub signed : ℕ

-- A row conflicts with another of the same primary key.
abbrev pub same_profile : Profile → Profile → Bool
same_profile p q = str_eq q.id p.id

unfoldable pub to_user : Profile → String → AuthenticatedUser
to_user p email = record {
  id = p.id;
  email = email;
  role = p.role;
  permissions = permissions_for_role p.role;
  full_name = p.full_name;
  avatar_url = p.avatar_url;
}

-- getRefreshTokenExpiresAt
abbrev pub refresh_expiry : Externals → ℕ → ℕ
refresh_expiry x now = now + x.refresh_token_ttl_days * 24 * 60 * 60 * 1000

-- buildAuthResult
unfoldable pub auth_result : Externals → ℕ → AuthenticatedUser → String → String → AuthResult
auth_result x now user session_id refresh_token = record {
  access_token = x.sign user.id user.email session_id x.jwt_access_ttl_seconds;
  access_token_expires_at = now + x.jwt_access_ttl_seconds * 1000;
  refresh_token = refresh_token;
  user = user;
}

-- What a login stores.
abbrev pub session_input : Externals → Clock → AuthIdentity → String → Context → SessionInput
session_input x clock identity token context = record {
  user_id = identity.id;
  email = identity.email;
  refresh_token_hash = x.hash_refresh_token token;
  expires_at = refresh_expiry x clock.issued;
  user_agent = context.user_agent;
  ip_address = context.ip_address;
}

module _ (profiles : Table Profile same_profile) (t : Table Session same_session)
    (tx : Transactions AuthError (Option Session) AuthDb) (x : Externals) where
  -- getAuthorizedProfileByIdOrThrow
  unfoldable pub authorized_profile :
      ℕ → String → String → Bool → AuthDb → Outcome AuthError AuthenticatedUser × AuthDb
  authorized_profile now user_id email revoke_on_failure db =
      elim (profiles.find_first (λ p. str_eq p.id user_id) db.profiles) [
        | some p ↦ (ok (to_user p email), db)
        | none ↦ (
          err unauthorized_app_access,
          if revoke_on_failure then revoke_all_for_user t now user_id db else db,
        )
      ]

  abbrev pub finish_create :
      Clock
      → String
      → AuthenticatedUser
      → Outcome AuthError Session × AuthDb
      → Outcome AuthError AuthResult × AuthDb
  finish_create clock token user (err e, db) = (err e, db)
  finish_create clock token user (ok s, db) = (ok (auth_result x clock.signed user s.id token), db)

  abbrev pub then_create :
      Clock
      → Generated
      → String
      → AuthIdentity
      → Context
      → Outcome AuthError AuthenticatedUser × AuthDb
      → Outcome AuthError AuthResult × AuthDb
  then_create clock g token identity context (err e, db) = (err e, db)
  then_create clock g token identity context (ok user, db) =
      finish_create clock token user (create t g (session_input x clock identity token context) db)

  -- createAuthResultForIdentity, and the second half of confirmPasswordReset
  unfoldable pub create_auth_result :
      Clock
      → Generated
      → String
      → AuthIdentity
      → Context
      → AuthDb
      → Outcome AuthError AuthResult × AuthDb
  create_auth_result clock g token identity context db =
      then_create clock g token identity context
        (authorized_profile clock.revoked identity.id identity.email false db)

  abbrev then_login :
      Clock
      → Generated
      → String
      → Context
      → Outcome AuthError AuthIdentity × AuthDb
      → Outcome AuthError AuthResult × AuthDb
  then_login clock g token context (err e, db) = (err e, db)
  then_login clock g token context (ok identity, db) =
      create_auth_result clock g token identity context db

  unfoldable pub login :
      Directory
      → Clock
      → Generated
      → String
      → String
      → String
      → Context
      → AuthDb
      → Outcome AuthError AuthResult × AuthDb
  login directory clock g token email password context db =
      then_login clock g token context (directory.sign_in_with_password email password db)

  -- The `catch` of loginWithAccessToken.
  abbrev pub reject_outsider :
      Directory
      → Clock
      → String
      → Outcome AuthError AuthResult × AuthDb
      → Outcome AuthError AuthResult × AuthDb
  reject_outsider directory clock id (err unauthorized_app_access, db) = (
    err unauthorized_app_access,
    directory.delete_user id (revoke_all_for_user t clock.revoked id db),
  )
  reject_outsider directory clock id r = r

  abbrev then_token_login :
      Directory
      → Clock
      → Generated
      → String
      → Context
      → Outcome AuthError AuthIdentity × AuthDb
      → Outcome AuthError AuthResult × AuthDb
  then_token_login directory clock g token context (err e, db) = (err e, db)
  then_token_login directory clock g token context (ok identity, db) =
      reject_outsider directory clock identity.id
        (create_auth_result clock g token identity context db)

  unfoldable pub login_with_access_token :
      Directory
      → Clock
      → Generated
      → String
      → String
      → Context
      → AuthDb
      → Outcome AuthError AuthResult × AuthDb
  login_with_access_token directory clock g token access context db =
      then_token_login directory clock g token context
        (directory.identity_from_access_token access db)

  abbrev pub finish_refresh :
      Clock
      → String
      → AuthenticatedUser
      → Outcome AuthError (Option Session) × AuthDb
      → Outcome AuthError AuthResult × AuthDb
  finish_refresh clock token user (err e, db) = (err e, db)
  finish_refresh clock token user (ok none, db) = (err invalid_refresh_token, db)
  finish_refresh clock token user (ok (some next), db) =
      (ok (auth_result x clock.signed user next.id token), db)

  abbrev pub then_rotate :
      Clock
      → Generated
      → String
      → String
      → Context
      → Session
      → Outcome AuthError AuthenticatedUser × AuthDb
      → Outcome AuthError AuthResult × AuthDb
  then_rotate clock g hash token context s (err e, db) = (err e, db)
  then_rotate clock g hash token context s (ok user, db) = finish_refresh clock token user (
      rotate_refresh_session t tx clock.rotation g s.id hash
        (record {
          user_id = s.user_id;
          email = s.email;
          refresh_token_hash = x.hash_refresh_token token;
          expires_at = refresh_expiry x clock.issued;
          user_agent = or_option context.user_agent s.user_agent;
          ip_address = or_option context.ip_address s.ip_address;
        })
        db)

  -- What refresh does with the session that it has found.
  unfoldable pub refresh_session :
      Clock
      → Generated
      → String
      → String
      → Context
      → Session
      → AuthDb
      → Outcome AuthError AuthResult × AuthDb
  refresh_session clock g hash token context s db = elim s.revoked_at [
    | some _ ↦ (
      err invalid_refresh_token,
      if truthy s.replaced_by_session_id
          then revoke_all_for_user t clock.revoked s.user_id db
          else db,
    )
    | none ↦
        if leb s.expires_at clock.checked
        then (err invalid_refresh_token, db)
        else then_rotate clock g hash token context s
            (authorized_profile clock.revoked s.user_id s.email true db)
  ]

  -- `presented` is the caller's refresh token, `token` the new one.
  unfoldable pub refresh :
      Clock → Generated → String → String → Context → AuthDb → Outcome AuthError AuthResult × AuthDb
  refresh clock g token presented context db =
      if str_eq presented ""
      then (err invalid_refresh_token, db)
      else elim (find_by_refresh_token_hash t (x.hash_refresh_token presented) db) [
        | none ↦ (err invalid_refresh_token, db)
        | some s ↦ refresh_session clock g (x.hash_refresh_token presented) token context s db
      ]

  -- A missing token and a session that is not found end the call with no change.
  unfoldable pub logout : ℕ → ℕ → Option String → AuthDb → Outcome AuthError (Unit {0}) × AuthDb
  logout queried stamped none db = (ok tt, db)
  logout queried stamped (some token) db =
      if str_eq token ""
      then (ok tt, db)
      else elim (find_active_by_refresh_token_hash t queried (x.hash_refresh_token token) db) [
        | none ↦ (ok tt, db)
        | some s ↦ revoke t stamped s.id none db
      ]

  abbrev pub then_reset :
      Clock
      → Generated
      → String
      → Context
      → Outcome AuthError AuthIdentity × AuthDb
      → Outcome AuthError AuthResult × AuthDb
  then_reset clock g token context (err e, db) = (err e, db)
  then_reset clock g token context (ok identity, db) =
      create_auth_result clock g token identity context
        (revoke_all_for_user t clock.revoked identity.id db)

  unfoldable pub confirm_password_reset :
      Directory
      → Clock
      → Generated
      → String
      → String
      → String
      → String
      → Context
      → AuthDb
      → Outcome AuthError AuthResult × AuthDb
  confirm_password_reset directory clock g token access refresh_token password context db =
      then_reset clock g token context
        (directory.confirm_password_reset access refresh_token password db)
