-- ===== src/Auth/ActionTokens/Tests.antt =====
-- One-time links: runs on concrete tables.
use swim_flow_api.Prelude.{
  ℕ, ◌+◌, ◌*◌, String, ◌≡◌, ◌⊎◌, refl, str_eq, some, true, ok, err, All, is_some,
}
use swim_flow_api.Database.{Table, Transactions, list_table, plain_transactions}
use swim_flow_api.Auth.Store.{Profile, Identity, Purpose, ActionToken, AuthDb, Generated, AuthError}
use swim_flow_api.Auth.Fixture.{sessions, db}
use swim_flow_api.Auth.Sessions.{revoke_all_for_user}
use swim_flow_api.Auth.Api.{AuthIdentity, same_profile}
use swim_flow_api.Auth.Api.Revocation.{AllRevoked}
use swim_flow_api.Auth.ActionTokens.{
  same_identity, same_token, is_token_char, matches_token_pattern, hash_for_provisioning, duration,
  is_eligible, new_token, issue_body, issue_for_identity, answer, credit, redeem_token, redeem_body,
  redeem_with_password,
}
use swim_flow_api.Auth.ActionTokens.Used.{issue_newest}
use swim_flow_api.Auth.ActionTokens.Trace.{redeem, here, redeem_single_use, redeem_effects}

calls : Unit {0}
unfolding is_token_char matches_token_pattern hash_for_provisioning new_token issue_body
    issue_for_identity answer credit redeem_token redeem_body redeem_with_password
    revoke_all_for_user
calls = tt

abbrev identities : Table Identity same_identity
identities = list_table same_identity

abbrev tokens : Table ActionToken same_token
tokens = list_table same_token

abbrev profiles : Table Profile same_profile
profiles = list_table same_profile

abbrev issuing : Transactions AuthError ℕ AuthDb
issuing = plain_transactions

abbrev redeeming : Transactions AuthError AuthIdentity AuthDb
redeeming = plain_transactions

-- 43 characters of the token alphabet
abbrev link : String
link = "abcdefghijklmnopqrstuvwxyzABCDEFGHIJKLMNOP-"

abbrev password : String
password = "twelve chars"

abbrev drawn : Generated
drawn = record { id = "k1"; now = 50 }

abbrev digest : String → String
digest s = s

abbrev invited : AuthDb
invited = (issue_for_identity identities tokens issuing drawn "u1" Purpose.password_reset link db).1

issues :
    issue_for_identity identities tokens issuing drawn "u1" Purpose.password_reset link db
    ≡ (ok (50 + 30 * 60 * 1000), invited)
unfolding calls
issues = refl

abbrev after : AuthDb
after =
    (redeem identities tokens profiles sessions issuing redeeming digest digest 60 link
      Purpose.password_reset password invited).1

abbrev ana_again : AuthIdentity
ana_again = record { id = "u1"; email = "ana@swim"; full_name = some "Ana" }

redeems :
    redeem identities tokens profiles sessions issuing redeeming digest digest 60 link
      Purpose.password_reset password invited
    ≡ (ok ana_again, after)
unfolding calls
redeems = refl

issue_newest_example :
    (is_eligible Purpose.password_reset
        (identities.find_first (λ i. str_eq i.user_id "u1") db.identities)
      ≡ true)
    × (50 + 30 * 60 * 1000 ≡ 50 + duration Purpose.password_reset)
    × All
        (λ k.
          k.user_id ≡ "u1"
          → k.purpose ≡ Purpose.password_reset
          → (is_some k.used_at ≡ true) ⊎ (k.token_hash ≡ link))
        invited.tokens
issue_newest_example =
    issue_newest identities tokens issuing drawn "u1" Purpose.password_reset link db
      (50 + 30 * 60 * 1000) invited issues

redeem_single_use_example :
    (e : AuthError) × (redeem identities tokens profiles sessions issuing redeeming digest digest 70
        link Purpose.password_reset "another password" after
      ≡ (err e, after))
unfolding calls
redeem_single_use_example =
    redeem_single_use identities tokens profiles sessions issuing redeeming digest digest 60 link
      Purpose.password_reset password invited after ana_again redeems 70 Purpose.password_reset
      "another password" after (tt, tt) here

redeem_effects_example :
    AllRevoked "u1" after.sessions
    × All
        (λ i.
          i.user_id ≡ "u1"
          → (i.password_hash ≡ some password) × (is_some i.email_confirmed_at ≡ true))
        after.identities
unfolding calls
redeem_effects_example =
    redeem_effects identities tokens profiles sessions issuing redeeming digest digest 60 link
      Purpose.password_reset password invited after ana_again redeems (tt, tt)
