-- ===== src/Auth/ActionTokens.antt =====
-- LocalAuthActionTokensService (src/infra/auth/local-auth-action-tokens.service.ts): one-time links
-- for invitations and password resets. The random token and the digest are parameters; the row
-- locks that order concurrent transactions have no effect on a single one.
pub mod Used
pub mod Redeem
pub mod Trace
mod Tests
use Prim.Native.String.{len}
use swim_flow_api.Prelude.{
  ℕ, ◌+◌, ◌*◌, String, Bool, true, false, ◌&&◌, ◌||◌, Option, none, some, List, Outcome, ok, err,
  leb, ltb, ◌==◌, str_eq, is_none, is_some, codes, every, length, if◌then◌else◌,
}
use swim_flow_api.Database.{Table, Transactions}
use swim_flow_api.Auth.Store.{
  Profile, Identity, Session, Purpose, ActionToken, AuthDb, Generated, same_session, AuthError,
  database, invalid_action, not_eligible, invalid_password,
}
use swim_flow_api.Auth.Sessions.{revoke_all_for_user}
use swim_flow_api.Auth.Api.{AuthIdentity, same_profile}

abbrev pub same_identity : Identity → Identity → Bool
same_identity i j = str_eq j.user_id i.user_id || str_eq j.email i.email

abbrev pub same_token : ActionToken → ActionToken → Bool
same_token k l = str_eq l.id k.id || str_eq l.token_hash k.token_hash

abbrev pub purpose_eq : Purpose → Purpose → Bool
purpose_eq Purpose.invitation Purpose.invitation = true
purpose_eq Purpose.password_reset Purpose.password_reset = true
purpose_eq _ _ = false

-- /^[A-Za-z0-9_-]{43}$/
is_token_char : ℕ → Bool
is_token_char c =
    (leb b'A' c && leb c b'Z')
    || (leb b'a' c && leb c b'z')
    || (leb b'0' c && leb c b'9')
    || c == b'_'
    || c == b'-'

pub matches_token_pattern : String → Bool
unfolding is_token_char
matches_token_pattern s = length (codes s) == 43 && every is_token_char (codes s)

abbrev pub duration : Purpose → ℕ
duration Purpose.invitation = 24 * 60 * 60 * 1000
duration Purpose.password_reset = 30 * 60 * 1000

-- An invitation is for an account with no credentials yet, a reset for one with both.
abbrev pub is_open_to : Purpose → Identity → Bool
is_open_to Purpose.invitation i = is_none i.email_confirmed_at && is_none i.password_hash
is_open_to Purpose.password_reset i = is_some i.email_confirmed_at && is_some i.password_hash

abbrev pub is_eligible : Purpose → Option Identity → Bool
is_eligible purpose none = false
is_eligible purpose (some i) = is_none i.disabled_at && is_open_to purpose i

-- hashPasswordForProvisioning; `len` counts UTF-8 bytes
unfoldable pub hash_for_provisioning : (String → String) → String → Outcome AuthError String
hash_for_provisioning hash password =
    if ltb (len password) 12 || ltb 72 (len password)
    then err invalid_password
    else ok (hash password)

-- The data of the identity's update.
abbrev pub credited : Purpose → ℕ → String → Identity → Identity
credited Purpose.invitation now hash i = record i {
  password_hash = some hash;
  email_confirmed_at = some now;
}
credited Purpose.password_reset now hash i = record i { password_hash = some hash }

abbrev pub with_tokens : AuthDb → List ActionToken → AuthDb
with_tokens db rows = record db { tokens = rows }

-- `fullName || null`
abbrev pub nonempty : String → Option String
nonempty s = if str_eq s "" then none else some s

module _ (identities : Table Identity same_identity) (tokens : Table ActionToken same_token) where
  unfoldable pub new_token : Generated → String → String → Purpose → ActionToken
  new_token g user_id hash purpose = record {
    id = g.id;
    user_id = user_id;
    token_hash = hash;
    purpose = purpose;
    expires_at = g.now + duration purpose;
    used_at = none;
  }

  abbrev pub retire_where : String → Purpose → ActionToken → Bool
  retire_where user_id purpose k =
      str_eq k.user_id user_id && purpose_eq k.purpose purpose && is_none k.used_at

  abbrev pub used : ℕ → ActionToken → ActionToken
  used now k = record k { used_at = some now }

  -- The insertion that ends an issuance.
  abbrev pub insert_token : ActionToken → AuthDb → Outcome AuthError ℕ × AuthDb
  insert_token k db = elim (tokens.create k db.tokens) [
    | ok rows ↦ (ok k.expires_at, with_tokens db rows)
    | err e ↦ (err (database e), db)
  ]

  unfoldable pub issue_body :
      Generated → String → Purpose → String → AuthDb → Outcome AuthError ℕ × AuthDb
  issue_body g user_id purpose hash db =
      if is_eligible purpose (identities.find_first (λ i. str_eq i.user_id user_id) db.identities)
      then insert_token (new_token g user_id hash purpose) (
          with_tokens db
            (tokens.update_many (retire_where user_id purpose) (used g.now) db.tokens).0)
      else (err not_eligible, db)

  -- issueForIdentity, from the point where the token has been drawn
  unfoldable pub issue_for_identity :
      Transactions AuthError ℕ AuthDb
      → Generated
      → String
      → Purpose
      → String
      → AuthDb
      → Outcome AuthError ℕ × AuthDb
  issue_for_identity tx g user_id purpose hash = tx.run (issue_body g user_id purpose hash)

  abbrev pub redeem_where : ℕ → String → Purpose → ActionToken → Bool
  redeem_where now hash purpose k =
      str_eq k.token_hash hash
      && purpose_eq k.purpose purpose
      && is_none k.used_at
      && ltb now k.expires_at

  abbrev pub credit_where : String → Purpose → Identity → Bool
  credit_where user_id purpose i =
      str_eq i.user_id user_id && is_none i.disabled_at && is_open_to purpose i

  module _ (profiles : Table Profile same_profile) (sessions : Table Session same_session) where
    abbrev pub identify :
        String → Option Identity → Option Profile → AuthDb → Outcome AuthError AuthIdentity × AuthDb
    identify user_id (some i) (some p) db =
        (ok (record { id = user_id; email = i.email; full_name = nonempty p.full_name }), db)
    identify user_id _ _ db = (err invalid_action, db)

    -- The answer: the identity's email and its profile's name.
    unfoldable pub answer : String → AuthDb → Outcome AuthError AuthIdentity × AuthDb
    answer user_id db =
        identify user_id (identities.find_first (λ i. str_eq i.user_id user_id) db.identities)
          (profiles.find_first (λ p. str_eq p.id user_id) db.profiles) db

    -- The credentials and the sessions of the token's user.
    unfoldable pub credit :
        ℕ → String → Purpose → String → AuthDb → Outcome AuthError AuthIdentity × AuthDb
    credit now user_id purpose password_hash db =
        let (rows, changed) =
          identities.update_many (credit_where user_id purpose) (credited purpose now password_hash)
            db.identities in
        if changed == 1
        then answer user_id
            (revoke_all_for_user sessions now user_id (record db { identities = rows }))
        else (err invalid_action, record db { identities = rows })

    unfoldable pub redeem_token :
        ℕ
        → ActionToken
        → String
        → Purpose
        → String
        → AuthDb
        → Outcome AuthError AuthIdentity × AuthDb
    redeem_token now action hash purpose password_hash db =
        let (rows, changed) =
          tokens.update_many (redeem_where now hash purpose) (used now) db.tokens in
        if changed == 1
        then credit now action.user_id purpose password_hash (with_tokens db rows)
        else (err invalid_action, with_tokens db rows)

    unfoldable pub redeem_body :
        ℕ → String → Purpose → String → AuthDb → Outcome AuthError AuthIdentity × AuthDb
    redeem_body now hash purpose password_hash db =
        elim (tokens.find_first (λ k. str_eq k.token_hash hash) db.tokens) [
          | none ↦ (err invalid_action, db)
          | some action ↦ redeem_token now action hash purpose password_hash db
        ]

    abbrev pub then_redeem :
        Transactions AuthError AuthIdentity AuthDb
        → ℕ
        → String
        → Purpose
        → Outcome AuthError String
        → AuthDb
        → Outcome AuthError AuthIdentity × AuthDb
    then_redeem tx now hash purpose (err e) db = (err e, db)
    then_redeem tx now hash purpose (ok password_hash) db =
        tx.run (redeem_body now hash purpose password_hash) db

    -- redeemWithPassword, over the digest of a token and the hash of a password
    unfoldable pub redeem_with_password :
        Transactions AuthError AuthIdentity AuthDb
        → (digest hash : String → String) → ℕ
        → String
        → Purpose
        → String
        → AuthDb
        → Outcome AuthError AuthIdentity × AuthDb
    redeem_with_password tx digest hash now token purpose password db =
        if matches_token_pattern token
        then then_redeem tx now (digest token) purpose (hash_for_provisioning hash password) db
        else (err invalid_action, db)
