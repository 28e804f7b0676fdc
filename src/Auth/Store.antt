-- ===== src/Auth/Store.antt =====
-- The rows of the authentication tables (models Profile, LocalAuthIdentity, AuthSession and
-- LocalAuthActionToken of prisma/schema.prisma). Times are milliseconds since the epoch.
use swim_flow_api.Prelude.{ℕ, String, Bool, Option, List, str_eq}
use swim_flow_api.Database.{DbError}

pub data Role : Type 0 where
  admin teacher user : Role

pub record Profile : Type 0 where
  pub id : String
  pub full_name : String
  pub avatar_url : Option String
  pub role : Role

pub record Identity : Type 0 where
  pub user_id : String
  pub email : String
  pub password_hash : Option String
  pub email_confirmed_at : Option ℕ
  pub last_sign_in_at : Option ℕ
  pub disabled_at : Option ℕ

pub record Session : Type 0 where
  pub id : String
  pub user_id : String
  pub email : String
  pub refresh_token_hash : String
  pub expires_at : ℕ
  pub revoked_at : Option ℕ
  pub replaced_by_session_id : Option String
  pub user_agent : Option String
  pub ip_address : Option String
  pub created_at : ℕ
  pub updated_at : ℕ

pub data Purpose : Type 0 where
  invitation password_reset : Purpose

pub record ActionToken : Type 0 where
  pub id : String
  pub user_id : String
  pub token_hash : String
  pub purpose : Purpose
  pub expires_at : ℕ
  pub used_at : Option ℕ

pub record AuthDb : Type 0 where
  pub profiles : List Profile
  pub identities : List Identity
  pub sessions : List Session
  pub tokens : List ActionToken

-- What a column default gives a new row.
pub record Generated : Type 0 where
  pub id : String
  pub now : ℕ

-- The primary key of the sessions.
abbrev pub same_session : Session → Session → Bool
same_session r s = str_eq s.id r.id

-- What an operation throws.
pub data AuthError : Type 0 where
  database : DbError → AuthError
  rotation_changed : AuthError
  invalid_refresh_token : AuthError
  unauthorized_app_access : AuthError
  directory_refused : AuthError
  invalid_action : AuthError
  not_eligible : AuthError
  invalid_password : AuthError
