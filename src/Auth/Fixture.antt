-- ===== src/Auth/Fixture.antt =====
-- Tables and parameters for the tests: one user with a usable identity and one session.
use swim_flow_api.Prelude.{Option, none, some, [], ◌∷◌}
use swim_flow_api.Database.{Table, Transactions, list_table, plain_transactions}
use swim_flow_api.Auth.Store.{
  Role, Profile, Identity, Session, AuthDb, Generated, same_session, AuthError,
}
use swim_flow_api.Auth.Sessions.{SessionInput, RotationTimes}

abbrev pub sessions : Table Session same_session
sessions = list_table same_session

abbrev pub transactions : Transactions AuthError (Option Session) AuthDb
transactions = plain_transactions

abbrev pub ana : Profile
ana = record { id = "u1"; full_name = "Ana"; avatar_url = none; role = Role.teacher }

abbrev pub identity : Identity
identity = record {
  user_id = "u1";
  email = "ana@swim";
  password_hash = some "bcrypt";
  email_confirmed_at = some 5;
  last_sign_in_at = none;
  disabled_at = none;
}

abbrev pub first : Session
first = record {
  id = "s1";
  user_id = "u1";
  email = "ana@swim";
  refresh_token_hash = "t1";
  expires_at = 1000;
  revoked_at = none;
  replaced_by_session_id = none;
  user_agent = none;
  ip_address = none;
  created_at = 10;
  updated_at = 10;
}

abbrev pub db : AuthDb
db = record { profiles = ana ∷ []; identities = identity ∷ []; sessions = first ∷ []; tokens = [] }

abbrev pub times : RotationTimes
times = record { queried = 100; tested = 101; stamped = 102 }

abbrev pub generated : Generated
generated = record { id = "s2"; now = 101 }

abbrev pub replacement : SessionInput
replacement = record {
  user_id = "u1";
  email = "ana@swim";
  refresh_token_hash = "t2";
  expires_at = 2000;
  user_agent = none;
  ip_address = none;
}
