-- ===== src/Auth/ActionTokens/Trace.antt =====
-- Every history of issuances and redemptions.
use swim_flow_api.Prelude.{
  ℕ, String, ◌≡◌, ◌⊎◌, refl, true, some, List, arith, All, Outcome, ok, err, is_some, Bool-cases,
  inl, inr, HasUnique,
}
use swim_flow_api.Database.{Table, Transactions, settle}
use swim_flow_api.Auth.Store.{
  Profile, Identity, Session, Purpose, ActionToken, AuthDb, Generated, AuthError, invalid_action,
  same_session,
}
use swim_flow_api.Auth.Sessions.{revoke_all_for_user}
use swim_flow_api.Auth.Api.{AuthIdentity, same_profile}
use swim_flow_api.Auth.Api.Revocation.{AllRevoked}
use swim_flow_api.Auth.ActionTokens.{
  same_identity, same_token, redeem_body, then_redeem, redeem_with_password, matches_token_pattern,
  hash_for_provisioning, issue_for_identity,
}
use swim_flow_api.Auth.ActionTokens.Used.{
  UsedUp, UsedUp-update_rows, UsedUp-append, issue_cases, issued,
}
use swim_flow_api.Auth.ActionTokens.Redeem.{
  Redeemed, redeem_body-Redeemed, Redeemed-UsedUp, Redeemed-effects, not-Redeemed,
}

module _ (identities : Table Identity same_identity) (tokens : Table ActionToken same_token)
    (profiles : Table Profile same_profile) (sessions : Table Session same_session)
    (issuing : Transactions AuthError ℕ AuthDb)
    (redeeming : Transactions AuthError AuthIdentity AuthDb) (digest hash : String → String) where
  -- redeemWithPassword of this service.
  abbrev pub redeem :
      ℕ → String → Purpose → String → AuthDb → Outcome AuthError AuthIdentity × AuthDb
  redeem = redeem_with_password identities tokens profiles sessions redeeming digest hash

  -- A redemption throws and changes nothing, or returns and has redeemed the token.
  pub redeem_cases :
      (now : ℕ) (token : String) (purpose : Purpose) (password : String) (db : AuthDb)
      → ((e : AuthError) × (redeem now token purpose password db ≡ (err e, db)))
        ⊎ ((r : AuthIdentity) × (db' : AuthDb) × (redeem now token purpose password db
              ≡ (ok r, db'))
            × Redeemed identities tokens profiles sessions now
                (digest token)
                purpose
                (hash password)
                db
                r
                db')
  unfolding redeem_with_password hash_for_provisioning
  redeem_cases now token purpose password db = elim (Bool-cases (matches_token_pattern token)) [
    | inr bad ↦ inl (invalid_action, rw bad)
    | inl good ↦ rw good (hashed (hash_for_provisioning hash password) refl)
  ]
    where
      settled :
          (o : Outcome AuthError AuthIdentity × AuthDb)
          → redeem_body identities tokens profiles sessions now
              (digest token)
              purpose
              (hash password)
              db
            ≡ o
          → ((e : AuthError) × (settle db o ≡ (err e, db)))
            ⊎ ((r : AuthIdentity) × (db' : AuthDb) × (settle db o ≡ (ok r, db'))
                × Redeemed identities tokens profiles sessions now
                    (digest token)
                    purpose
                    (hash password)
                    db
                    r
                    db')
      settled (err e, s) q = inl (e, refl)
      settled (ok r, s) q = inr (
        r,
        s,
        refl,
        redeem_body-Redeemed identities tokens profiles sessions now (digest token) purpose
            (hash password) db s r q,
      )

      hashed :
          (o : Outcome AuthError String)
          → hash_for_provisioning hash password ≡ o
          → ((e : AuthError) × (then_redeem identities tokens profiles sessions redeeming now
                  (digest token)
                  purpose
                  o
                  db
                ≡ (err e, db)))
            ⊎ ((r : AuthIdentity) × (db' : AuthDb) × (then_redeem identities tokens profiles
                    sessions redeeming now
                    (digest token)
                    purpose
                    o
                    db
                  ≡ (ok r, db'))
                × Redeemed identities tokens profiles sessions now
                    (digest token)
                    purpose
                    (hash password)
                    db
                    r
                    db')
      hashed (err e) q = inl (e, refl)
      hashed (ok h) q =
          let same : h ≡ hash password = ground arith in
          rw (same, redeeming.run_lem)
            (settled
              (redeem_body identities tokens profiles sessions now (digest token) purpose
                (hash password) db)
              refl)

  -- What may happen between two redemptions: issuances, redemptions, changes of other tables.
  pub data TokenStep : AuthDb → AuthDb → Type 0 where
    issued_one :
        (g : Generated) (user_id : String) (purpose : Purpose) (drawn : String) (db : AuthDb)
        → TokenStep db (issue_for_identity identities tokens issuing g user_id purpose drawn db).1
    redeemed_one :
        (now : ℕ) (token : String) (purpose : Purpose) (password : String) (db : AuthDb)
        → TokenStep db (redeem now token purpose password db).1
    other_tables :
        (ps : List Profile) (is : List Identity) (ss : List Session) (db : AuthDb)
        → TokenStep db (record db { profiles = ps; identities = is; sessions = ss })

  pub data TokenReach (s : AuthDb) : AuthDb → Type 0 where
    here : TokenReach s s
    next : {u v : AuthDb} → TokenReach s u → TokenStep u v → TokenReach s v

  TokenStep-UsedUp :
      {u v : AuthDb} (h : String) → TokenStep u v → UsedUp h u.tokens → UsedUp h v.tokens
  TokenStep-UsedUp h (issued_one g user_id purpose drawn db) spent =
      elim (issue_cases identities tokens issuing g user_id purpose drawn db) [
        | inl (e, failed) ↦ rw failed spent
        | inr (_, fresh, done) ↦ rw done (
            UsedUp-append h (issued identities tokens issuing g user_id purpose drawn db) _ fresh
              (UsedUp-update_rows h _ g.now db.tokens spent))
      ]
  TokenStep-UsedUp h (redeemed_one now token purpose password db) spent =
      elim (redeem_cases now token purpose password db) [
        | inl (e, failed) ↦ rw failed spent
        | inr (r, db', done, redeemed) ↦ rw done (
            unfold revoke_all_for_user in
            rw redeemed.after (UsedUp-update_rows h _ now db.tokens spent))
      ]
  TokenStep-UsedUp h (other_tables ps is ss db) spent = spent

  TokenReach-UsedUp :
      {u v : AuthDb} (h : String) → TokenReach u v → UsedUp h u.tokens → UsedUp h v.tokens
  TokenReach-UsedUp h here spent = spent
  TokenReach-UsedUp h (next r s) spent = TokenStep-UsedUp h s (TokenReach-UsedUp h r spent)

  module _ (now : ℕ) (token : String) (purpose : Purpose) (password : String) (db db' : AuthDb)
      (r : AuthIdentity) (done : redeem now token purpose password db ≡ (ok r, db')) where
    redeem-Redeemed :
        Redeemed identities tokens profiles sessions now
          (digest token)
          purpose
          (hash password)
          db
          r
          db'
    redeem-Redeemed = elim (redeem_cases now token purpose password db) [
      | inl (e, failed) ↦ cc (failed, done)
      | inr (r', s, done', redeemed) ↦
          let same : r' ≡ r = cc (done, done') in
          let there : s ≡ db' = cc (done, done') in rw (← same, ← there) redeemed
    ]

    -- A one-time link works once: after a redemption has returned, every later redemption of the
    -- same token, for any purpose and password, throws and changes nothing, whatever issuances
    -- and redemptions come between. Digests are unique at first.
    pub redeem_single_use :
        (now' : ℕ) (purpose' : Purpose) (password' : String) (later : AuthDb)
        → HasUnique (λ k. k.token_hash) db.tokens
        → TokenReach db' later
        → (e : AuthError) × (redeem now' token purpose' password' later ≡ (err e, later))
    redeem_single_use now' purpose' password' later unique reach =
        let spent : UsedUp (digest token) later.tokens =
          TokenReach-UsedUp (digest token) reach
            (Redeemed-UsedUp identities tokens profiles sessions redeem-Redeemed unique) in
        elim (redeem_cases now' token purpose' password' later) [
          | inl failed ↦ failed
          | inr (r', s, done', redeemed) ↦ absurd (
              not-Redeemed identities tokens profiles sessions now' (digest token) purpose'
                (hash password') later s r' spent redeemed)
        ]

    -- A redemption that returns has revoked every session of its user, and given the user's
    -- identity the new password and a confirmed email. Users of identities are unique.
    pub redeem_effects :
        HasUnique (λ i. i.user_id) db.identities
        → AllRevoked r.id db'.sessions
          × All
              (λ i.
                i.user_id ≡ r.id
                → (i.password_hash ≡ some (hash password)) × (is_some i.email_confirmed_at ≡ true))
              db'.identities
    redeem_effects unique =
        Redeemed-effects identities tokens profiles sessions redeem-Redeemed unique
