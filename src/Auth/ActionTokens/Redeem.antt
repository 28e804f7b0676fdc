-- ===== src/Auth/ActionTokens/Redeem.antt =====
-- How a redemption ends, and that a token is redeemed at most once.
use swim_flow_api.Prelude.{
  ℕ, String, ◌≡◌, ◌∙◌, refl, true, Option, none, some, arith, All, All-update_rows, IsIn, count,
  any_of_IsIn, any-update_rows, update_rows, ok, is_some, str_eq, eq_iff, Bool-cases, Option-cases,
  inl, inr, ◌==◌, count_none, All-map, HasUnique, hit_of_key,
}
use swim_flow_api.Database.{Table, KeepsKeys}
use swim_flow_api.Auth.Store.{
  Profile, Identity, Session, Purpose, ActionToken, AuthDb, same_session,
}
use swim_flow_api.Auth.Sessions.{revoke_all_for_user}
use swim_flow_api.Auth.Api.{AuthIdentity, same_profile}
use swim_flow_api.Auth.Api.Revocation.{AllRevoked, revoke_all_for_user_lem}
use swim_flow_api.Auth.ActionTokens.{
  same_identity, same_token, credited, used, redeem_where, credit_where, identify, answer, credit,
  redeem_token, redeem_body,
}
use swim_flow_api.Auth.ActionTokens.Used.{UsedUp}

credited-KeepsKeys :
    (purpose : Purpose) (now : ℕ) (hash : String)
    → KeepsKeys same_identity (credited purpose now hash)
credited-KeepsKeys Purpose.invitation now hash i j = refl
credited-KeepsKeys Purpose.password_reset now hash i j = refl

module _ (identities : Table Identity same_identity) (tokens : Table ActionToken same_token)
    (profiles : Table Profile same_profile) (sessions : Table Session same_session) where
  -- The state after a redemption at `now` of a token of `user_id`, before and after the revocation.
  abbrev pub credited_db : ℕ → String → String → Purpose → String → AuthDb → AuthDb
  credited_db now user_id hash purpose password_hash db = record db {
    tokens =
        update_rows (redeem_where identities tokens now hash purpose) (used identities tokens now)
          db.tokens;
    identities =
        update_rows (credit_where identities tokens user_id purpose)
          (credited purpose now password_hash) db.identities;
  }

  abbrev pub redeemed_db : ℕ → String → String → Purpose → String → AuthDb → AuthDb
  redeemed_db now user_id hash purpose password_hash db =
      revoke_all_for_user sessions now user_id
        (credited_db now user_id hash purpose password_hash db)

  -- What a redemption that returns has found and has done.
  pub record Redeemed (now : ℕ) (hash : String) (purpose : Purpose) (password_hash : String)
      (db : AuthDb) (r : AuthIdentity) (db' : AuthDb) : Type 0 where
    pub action : ActionToken
    pub listed : IsIn action db.tokens
    pub digest : action.token_hash ≡ hash
    pub one_token : count (redeem_where identities tokens now hash purpose) db.tokens ≡ 1
    pub one_identity :
        count (credit_where identities tokens action.user_id purpose) db.identities ≡ 1
    pub user : r.id ≡ action.user_id
    pub after : db' ≡ redeemed_db now action.user_id hash purpose password_hash db

  answer_ok :
      (user_id : String) (db db' : AuthDb) (r : AuthIdentity)
      → answer identities tokens profiles sessions user_id db ≡ (ok r, db')
      → (r.id ≡ user_id) × (db' ≡ db)
  unfolding answer
  answer_ok user_id db db' r h =
      from (identities.find_first (λ i. str_eq i.user_id user_id) db.identities)
        (profiles.find_first (λ p. str_eq p.id user_id) db.profiles) h
    where
      from :
          (i : Option Identity) (p : Option Profile)
          → identify identities tokens profiles sessions user_id i p db ≡ (ok r, db')
          → (r.id ≡ user_id) × (db' ≡ db)
      from (some i) (some p) k = ground arith
      from (some i) none k = absurd (ground arith)
      from none p k = absurd (ground arith)

  module _ (now : ℕ) (hash : String) (purpose : Purpose) (password_hash : String) (db db' : AuthDb)
      (r : AuthIdentity) where
    credit_ok :
        (user_id : String) (d : AuthDb)
        → credit identities tokens profiles sessions now user_id purpose password_hash d
          ≡ (ok r, db')
        → (count (credit_where identities tokens user_id purpose) d.identities ≡ 1)
          × (r.id ≡ user_id)
          × (db'
              ≡ revoke_all_for_user sessions now user_id (record d {
                identities =
                    update_rows
                      (credit_where identities tokens user_id purpose)
                      (credited purpose now password_hash)
                      d.identities;
              }))
    unfolding credit
    credit_ok user_id d h =
        let rows =
          identities.update_many_lem (credit_where identities tokens user_id purpose)
            (credited purpose now password_hash) d.identities
            (credited-KeepsKeys purpose now password_hash) in
        elim (Bool-cases
          (count (credit_where identities tokens user_id purpose) d.identities == 1)) [
            | inl one ↦
                let (u, a) = answer_ok user_id _ db' r (rw (rows, credit, one) at h) in
                (ground arith, u, a)
            | inr other ↦ absurd (ground (arith, rows))
          ]

    pub redeem_body-Redeemed :
        redeem_body identities tokens profiles sessions now hash purpose password_hash db
          ≡ (ok r, db')
        → Redeemed now hash purpose password_hash db r db'
    unfolding redeem_body redeem_token
    redeem_body-Redeemed h =
        let rows =
          tokens.update_many_lem (redeem_where identities tokens now hash purpose)
            (used identities tokens now) db.tokens (λ r s. refl) in
        elim (Option-cases (tokens.find_first (λ k. str_eq k.token_hash hash) db.tokens)) [
          | inl missing ↦ absurd (ground arith)
          | inr (action, found) ↦
              elim (Bool-cases
                (count (redeem_where identities tokens now hash purpose) db.tokens == 1)) [
                  | inr other ↦ absurd (ground (arith, rows))
                  | inl one ↦
                      let (listed, same) = tokens.find_first_found _ _ _ found in
                      let (c, u, a) =
                        credit_ok action.user_id _
                          (rw (found, redeem_body, rows, redeem_token, one) at h) in
                      record {
                        action = action;
                        listed = listed;
                        digest = (eq_iff _ _).0 same;
                        one_token = ground arith;
                        one_identity = c;
                        user = u;
                        after = a;
                      }
                ]
        ]

  -- After a redemption, where digests are unique, the token is used up.
  pub Redeemed-UsedUp :
      {now : ℕ} {hash : String} {purpose : Purpose} {password_hash : String} {db db' : AuthDb}
      {r : AuthIdentity}
      → Redeemed now hash purpose password_hash db r db'
      → HasUnique (λ k. k.token_hash) db.tokens
      → UsedUp hash db'.tokens
  unfolding revoke_all_for_user
  Redeemed-UsedUp {now} {hash} {purpose} {db} h unique = rw h.after (record {
    listed =
        any-update_rows (λ k. str_eq k.token_hash hash) _ (used identities tokens now) db.tokens
          (λ k. refl)
        ∙ any_of_IsIn _ db.tokens h.action h.listed ((eq_iff _ _).1 h.digest);
    all_used =
        All-update_rows _ _ _ (used identities tokens now) db.tokens (λ k _ _ _. refl)
          (λ k at miss e. cc (at ((eq_iff _ _).0 e), miss))
          (hit_of_key (λ k. k.token_hash) hash (redeem_where identities tokens now hash purpose)
            db.tokens (λ k e. ground (arith, eq_iff k.token_hash hash)) unique
            (rw h.one_token (omega arith)));
  })

  -- After a redemption no session of the user is unrevoked, and, where users are unique, the
  -- user's identity has the new password and a confirmed email.
  pub Redeemed-effects :
      {now : ℕ} {hash : String} {purpose : Purpose} {password_hash : String} {db db' : AuthDb}
      {r : AuthIdentity}
      → Redeemed now hash purpose password_hash db r db'
      → HasUnique (λ i. i.user_id) db.identities
      → AllRevoked r.id db'.sessions
        × All
            (λ i.
              i.user_id ≡ r.id
              → (i.password_hash ≡ some password_hash) × (is_some i.email_confirmed_at ≡ true))
            db'.identities
  unfolding revoke_all_for_user
  Redeemed-effects {now} {hash} {purpose} {password_hash} {db} h unique =
      rw (h.user, h.after)
        (
          (revoke_all_for_user_lem sessions now h.action.user_id
              (credited_db now h.action.user_id hash purpose password_hash db)).0,
          All-update_rows _ _ _ (credited purpose now password_hash) db.identities
              (λ i _ hit _. credited_lem purpose i hit) (λ i at miss e. cc (at e, miss))
              (hit_of_key (λ i. i.user_id) h.action.user_id
                (credit_where identities tokens h.action.user_id purpose) db.identities
                (λ i e. ground (arith, eq_iff i.user_id h.action.user_id)) unique
                (rw h.one_identity (omega arith))),
        )
    where
      credited_lem :
          (q : Purpose) (i : Identity)
          → credit_where identities tokens h.action.user_id q i ≡ true
          → ((credited q now password_hash i).password_hash ≡ some password_hash)
            × (is_some (credited q now password_hash i).email_confirmed_at ≡ true)
      credited_lem Purpose.invitation i e = (refl, refl)
      credited_lem Purpose.password_reset i e = (refl, ground arith)

  -- A token that is used up is not redeemed.
  pub not-Redeemed :
      (now : ℕ) (hash : String) (purpose : Purpose) (password_hash : String) (db db' : AuthDb)
      (r : AuthIdentity)
      → UsedUp hash db.tokens
      → Redeemed now hash purpose password_hash db r db'
      → ⊥
  not-Redeemed now hash purpose password_hash db db' r spent h =
      let no_hit : count (redeem_where identities tokens now hash purpose) db.tokens ≡ 0 =
        count_none _ db.tokens
          (All-map _ _ db.tokens (λ k at. ground (arith, at)) spent.all_used) in
      omega (arith, h.one_token)
