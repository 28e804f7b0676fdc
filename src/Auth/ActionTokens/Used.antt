-- ===== src/Auth/ActionTokens/Used.antt =====
-- Tokens that have been used or retired, and how an issuance ends.
use swim_flow_api.Prelude.{
  ℕ, ◌+◌, String, ◌≡◌, ◌⊎◌, ◌∙◌, refl, subst, Bool, true, false, some, List, [], ◌∷◌, ◌++◌, arith,
  any, All, All-append, All-of_each, All-update_rows, any-append, any-update_rows, update_rows, ok,
  err, is_some, str_eq, eq_iff, Bool-cases, inl, inr,
}
use swim_flow_api.Database.{Table, Transactions, unique_violation}
use swim_flow_api.Auth.Store.{
  Identity, Purpose, ActionToken, AuthDb, Generated, AuthError, not_eligible, database,
}
use swim_flow_api.Auth.ActionTokens.{
  same_identity, same_token, is_eligible, duration, with_tokens, new_token, retire_where, used,
  insert_token, issue_body, issue_for_identity,
}

-- A token with this digest is listed, and every row with it has been used.
pub record UsedUp (hash : String) (rows : List ActionToken) : Type 0 where
  pub listed : any (λ k. str_eq k.token_hash hash) rows ≡ true
  pub all_used : All (λ k. str_eq k.token_hash hash ≡ true → is_some k.used_at ≡ true) rows

pub UsedUp-update_rows :
    (hash : String) (p : ActionToken → Bool) (now : ℕ) (rows : List ActionToken)
    → UsedUp hash rows
    → UsedUp hash (update_rows p (λ k. record k { used_at = some now }) rows)
UsedUp-update_rows hash p now rows h = record {
  listed = any-update_rows _ p _ rows (λ k. refl) ∙ h.listed;
  all_used = All-update_rows _ _ p _ rows (λ k g _ e. refl) (λ k g _ e. g e) h.all_used;
}

-- The unique digest keeps a used one from being issued again.
pub UsedUp-append :
    (hash : String) (k : ActionToken) (rows : List ActionToken)
    → any (same_token k) rows ≡ false
    → UsedUp hash rows
    → UsedUp hash (rows ++ k ∷ [])
UsedUp-append hash k rows fresh h = record {
  listed = any-append (λ l. str_eq l.token_hash hash) rows (k ∷ []) ∙ rw h.listed refl;
  all_used = All-append _ rows (k ∷ []) h.all_used ((λ e. absurd (clash e)), tt);
}
  where
    widen :
        (l : ActionToken) (ls : List ActionToken)
        → any (same_token k) ls ≡ false
        → any (λ m. str_eq m.token_hash k.token_hash) ls ≡ false
    widen l [] e = refl
    widen l (m ∷ ms) e = ground (arith, widen l ms)

    clash : str_eq k.token_hash hash ≡ true → ⊥
    clash e =
        let q : k.token_hash ≡ hash = (eq_iff k.token_hash hash).0 e in
        cc (
          subst (λ j. any (λ l. str_eq l.token_hash j) rows ≡ false) q (widen k rows fresh),
          h.listed,
        )

module _ (identities : Table Identity same_identity) (tokens : Table ActionToken same_token)
    (tx : Transactions AuthError ℕ AuthDb) (g : Generated) (user_id : String) (purpose : Purpose)
    (hash : String) (db : AuthDb) where
  abbrev pub retired : List ActionToken
  retired =
      update_rows (retire_where identities tokens user_id purpose) (used identities tokens g.now)
        db.tokens

  abbrev pub issued : ActionToken
  issued = new_token identities tokens g user_id hash purpose

  pub insert_cases :
      (k : ActionToken) (d : AuthDb)
      → (insert_token identities tokens k d ≡ (err (database unique_violation), d))
        ⊎ ((any (same_token k) d.tokens ≡ false)
            × (insert_token identities tokens k d
                ≡ (ok k.expires_at, with_tokens d (d.tokens ++ k ∷ []))))
  insert_cases k d = elim (Bool-cases (any (same_token k) d.tokens)) [
    | inl taken ↦ inl (ground (arith, tokens.create_lem k d.tokens))
    | inr fresh ↦ inr (fresh, ground (arith, tokens.create_lem k d.tokens))
  ]

  -- An issuance changes nothing, or retires the older tokens of the user and purpose and adds the
  -- new one.
  pub issue_cases :
      ((e : AuthError) × (issue_for_identity identities tokens tx g user_id purpose hash db
          ≡ (err e, db)))
      ⊎ ((is_eligible purpose (identities.find_first (λ i. str_eq i.user_id user_id) db.identities)
            ≡ true)
          × (any (same_token issued) retired ≡ false)
          × (issue_for_identity identities tokens tx g user_id purpose hash db
              ≡ (ok issued.expires_at, with_tokens db (retired ++ issued ∷ []))))
  unfolding issue_for_identity issue_body
  issue_cases =
      let rows =
        tokens.update_many_lem (retire_where identities tokens user_id purpose)
          (used identities tokens g.now) db.tokens (λ r s. refl) in
      elim (Bool-cases (
        is_eligible purpose
          (identities.find_first (λ i. str_eq i.user_id user_id) db.identities))) [
            | inr other ↦ inl (not_eligible, rw (tx.run_lem, issue_body, other))
            | inl eligible ↦ elim (insert_cases issued (with_tokens db retired)) [
              | inl taken ↦
                  inl
                    (database unique_violation, rw (tx.run_lem, issue_body, eligible, rows, taken))
              | inr (fresh, done) ↦
                  inr (eligible, fresh, rw (tx.run_lem, issue_body, eligible, rows, done))
            ]
          ]

  -- After an issuance that returns, the account was eligible, and every token of that user and
  -- purpose has been used or is the new one.
  pub issue_newest :
      (expires : ℕ) (db' : AuthDb)
      → issue_for_identity identities tokens tx g user_id purpose hash db ≡ (ok expires, db')
      → (is_eligible purpose (identities.find_first (λ i. str_eq i.user_id user_id) db.identities)
          ≡ true)
        × (expires ≡ g.now + duration purpose)
        × All
            (λ k.
              k.user_id ≡ user_id
              → k.purpose ≡ purpose
              → (is_some k.used_at ≡ true) ⊎ (k.token_hash ≡ hash))
            db'.tokens
  unfolding new_token
  issue_newest expires db' h = elim issue_cases [
    | inl (e, failed) ↦ absurd (ground (arith, failed))
    | inr (eligible, fresh, done) ↦
        let after : db' ≡ with_tokens db (retired ++ issued ∷ []) = cc (h, done) in
        (
          eligible,
          cc (h, done),
          rw after (
              All-append _ retired (issued ∷ [])
                (All-update_rows (λ k. Unit {0}) _ _ (used identities tokens g.now) db.tokens
                  (λ k _ _ _ _. inl refl) (λ k _ miss u q. inl (left_used k miss u q))
                  (All-of_each _ db.tokens (λ k _. tt)))
                ((λ _ _. inr refl), tt)),
        )
  ]
    where
      left_used :
          (k : ActionToken)
          → retire_where identities tokens user_id purpose k ≡ false
          → k.user_id ≡ user_id
          → k.purpose ≡ purpose
          → is_some k.used_at ≡ true
      left_used k miss u q = ground (arith, eq_iff k.user_id user_id)
