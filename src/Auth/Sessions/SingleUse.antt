-- ===== src/Auth/Sessions/SingleUse.antt =====
-- A refresh token is exchanged at most once: what a rotation leaves behind, and what every later
-- operation on the sessions keeps.
use swim_flow_api.Prelude.{
  ℕ, ◌<◌, ◌+◌, String, ◌≡◌, ◌≢◌, ap, refl, sym, ◌∙◌, true, false, Option, none, some, Bool, List,
  [], ◌∷◌, ◌++◌, ◌&&◌, arith, any, count, All, All-at, IsIn, IsIn-append_right, IsIn-update_rows,
  update_rows, All-update_rows, any-append, any-update_rows, any_of_IsIn, Outcome, ok, Option-cases,
  Bool-cases, str_eq, eq_iff, inl, inr, HasUnique, HasUnique-append, HasUnique-update_rows,
  fresh_key, hit_of_key, count-append, count-update_rows, if◌then◌else◌, is_none,
}
use swim_flow_api.Database.{Table, Transactions}
use swim_flow_api.Auth.Store.{Session, AuthDb, Generated, same_session, AuthError}
use swim_flow_api.Auth.Sessions.{
  SessionInput, with_sessions, RotationTimes, new_session, replaced, may_rotate,
  active_local_identity, rotate_body, rotate_refresh_session, find_active_by_id, is_live_at,
}
use swim_flow_api.Auth.Sessions.Spent.{Spent, Spent-append, Spent-update_rows}
use swim_flow_api.Auth.Sessions.Rotation.{
  Rotated, Ending, refused, failed, rotated, rotate_ends, rotate_atomic,
}

may_rotate_id :
    (db : AuthDb) (id hash : String) (now : ℕ) (s : Session)
    → may_rotate db id hash now s ≡ true
    → (s.id ≡ id)
      × (s.refresh_token_hash ≡ hash)
      × (is_none s.revoked_at ≡ true)
      × (now < s.expires_at)
      × (active_local_identity db s ≡ true)
unfolding may_rotate
may_rotate_id db id hash now s h = ground (arith, eq_iff s.id id, eq_iff s.refresh_token_hash hash)

module _ {times : RotationTimes} {g : Generated} {id hash : String} {replacement : SessionInput}
    {db db' : AuthDb} {next : Session} (h : Rotated times g id hash replacement db next db') where
  open h use {current}

  current_id : current.id ≡ id
  current_id = (may_rotate_id db id hash times.queried current h.allowed).0

  rows : List Session
  rows = db.sessions ++ next ∷ []

  hit : Session → Bool
  hit = may_rotate (with_sessions db rows) current.id hash times.tested

  fresh_id : All (λ s. s.id ≢ next.id) db.sessions
  fresh_id = fresh_key (λ s. s.id) next db.sessions h.fresh

  hit_at_id : HasUnique (λ s. s.id) db.sessions → All (λ s. s.id ≡ current.id → hit s ≡ true) rows
  unfolding rows hit may_rotate active_local_identity
  hit_at_id unique =
      hit_of_key (λ s. s.id) current.id hit rows
        (λ s e. (may_rotate_id (with_sessions db rows) current.id hash times.tested s e).0)
        (HasUnique-append (λ s. s.id) db.sessions next unique fresh_id)
        (rw h.one_changed (omega arith))

  id_listed : any (λ s. str_eq s.id id) rows ≡ true
  unfolding rows
  id_listed =
      let first : any (λ s. str_eq s.id id) db.sessions ≡ true =
        any_of_IsIn _ db.sessions current h.listed ((eq_iff _ _).1 current_id) in
      any-append _ db.sessions (next ∷ []) ∙ rw first refl

  -- The consumed session is spent after the rotation.
  pub Rotated-Spent : HasUnique (λ s. s.id) db.sessions → Spent id db'.sessions
  unfolding rows hit
  Rotated-Spent unique = rw h.after (record {
    listed = any-update_rows _ hit (replaced times.stamped next.id) rows (λ s. refl) ∙ id_listed;
    revoked =
        All-update_rows _ _ hit (replaced times.stamped next.id) rows (λ s _ _ _. refl)
          (λ s at miss e. cc (at ((eq_iff _ _).0 e ∙ sym current_id), miss)) (hit_at_id unique);
  })

  next_missed : hit next ≡ false
  unfolding hit
  next_missed = elim (Bool-cases (hit next)) [
    | inl e ↦ absurd (
        All-at _ db.sessions current fresh_id h.listed
          (sym (may_rotate_id (with_sessions db rows) current.id hash times.tested next e).0))
    | inr e ↦ e
  ]

  -- The successor is listed as it was created.
  pub Rotated-listed : IsIn next db'.sessions
  unfolding rows hit
  Rotated-listed =
      let there : IsIn next rows = IsIn-append_right next db.sessions (next ∷ []) (inl refl) in
      let moved : IsIn (if hit next then replaced times.stamped next.id next else next)
          (update_rows hit (replaced times.stamped next.id) rows) =
        IsIn-update_rows hit (replaced times.stamped next.id) next rows there in
      rw h.after (rw next_missed at moved)

  -- Ids stay unique.
  pub Rotated-HasUnique : HasUnique (λ s. s.id) db.sessions → HasUnique (λ s. s.id) db'.sessions
  unfolding rows hit
  Rotated-HasUnique unique = rw h.after (
      HasUnique-update_rows (λ s. s.id) hit (replaced times.stamped next.id) rows (λ s. refl)
        (HasUnique-append (λ s. s.id) db.sessions next unique fresh_id))

  -- As many sessions are unrevoked as before: one is consumed and one is created.
  pub Rotated-count :
      count (λ s. is_none s.revoked_at) db'.sessions ≡ count (λ s. is_none s.revoked_at) db.sessions
  unfolding rows hit may_rotate active_local_identity new_session
  Rotated-count =
      let moved : count (λ s. is_none s.revoked_at)
              (update_rows hit (replaced times.stamped next.id) rows)
            + count hit rows
          ≡ count (λ s. is_none s.revoked_at) rows =
        count-update_rows (λ s. is_none s.revoked_at) hit (replaced times.stamped next.id) rows
          (λ s e. (may_rotate_id (with_sessions db rows) current.id hash times.tested s e).2)
          (λ s. refl) in
      let added : count (λ s. is_none s.revoked_at) rows
          ≡ count (λ s. is_none s.revoked_at) db.sessions + 1 =
        count-append _ db.sessions (next ∷ []) ∙ rw h.new_row (omega arith) in
      let one : count hit rows ≡ 1 = h.one_changed in rw h.after (omega arith)

  -- A session that was spent before stays spent.
  pub Rotated-keeps_Spent : (k : String) → Spent k db.sessions → Spent k db'.sessions
  Rotated-keeps_Spent k spent = rw h.after (
      Spent-update_rows k _ (replaced times.stamped next.id) _ (λ s. refl) (λ s _. refl)
        (Spent-append k next db.sessions h.fresh spent))

-- A rotation of a spent session returns no successor and changes nothing.
pub rotate_of_Spent :
    (t : Table Session same_session) (tx : Transactions AuthError (Option Session) AuthDb)
    (times : RotationTimes) (g : Generated) (id hash : String) (replacement : SessionInput)
    (db : AuthDb)
    → Spent id db.sessions
    → rotate_refresh_session t tx times g id hash replacement db ≡ (ok none, db)
unfolding rotate_refresh_session rotate_body
rotate_of_Spent t tx times g id hash replacement db spent =
    elim (Option-cases (t.find_first (may_rotate db id hash times.queried) db.sessions)) [
      | inl missing ↦ rw (tx.run_lem, missing, rotate_body)
      | inr (s, found) ↦
          let (listed, allowed) = t.find_first_found _ _ _ found in
          let facts = may_rotate_id db id hash times.queried s allowed in
          absurd (
            ground (
              arith,
              All-at _ db.sessions s spent.revoked listed ((eq_iff _ _).1 facts.0),
              facts.2,
            ))
    ]

-- A spent session is not found as an active one.
pub find_active_of_Spent :
    (t : Table Session same_session) (now : ℕ) (id : String) (db : AuthDb)
    → Spent id db.sessions
    → find_active_by_id t now id db ≡ none
unfolding find_active_by_id
find_active_of_Spent t now id db spent =
    elim (Option-cases (t.find_first (λ s. str_eq s.id id && is_live_at db now s) db.sessions)) [
      | inl missing ↦ missing
      | inr (s, found) ↦
          let (listed, allowed) = t.find_first_found _ _ _ found in
          absurd (ground (arith, All-at _ db.sessions s spent.revoked listed))
    ]

-- From the way a rotation ends: what it has done if it returned a successor.
module _ (t : Table Session same_session)
    (tx : Transactions AuthError (Option Session) AuthDb) where
  pub rotate-Rotated :
      (times : RotationTimes) (g : Generated) (id hash : String) (replacement : SessionInput)
      (db db' : AuthDb) (next : Session)
      → rotate_refresh_session t tx times g id hash replacement db ≡ (ok (some next), db')
      → Rotated times g id hash replacement db next db'
  rotate-Rotated times g id hash replacement db db' next done =
      inverted (rotate_ends t times g id hash replacement db tx) done
    where
      inverted :
          {r : Outcome AuthError (Option Session) × AuthDb}
          → Ending times g id hash replacement db r
          → r ≡ (ok (some next), db')
          → Rotated times g id hash replacement db next db'
      inverted (refused e) p = cc
      inverted (failed e s q) p = cc
      inverted (rotated n s q h) p =
          let same : n ≡ next = cc in let there : s ≡ db' = cc in rw (← same, ← there) h

  -- A property of the rows that a successful rotation keeps is kept by every rotation.
  rotate_keeps :
      (P : List Session → Type 0) (times : RotationTimes) (g : Generated) (id hash : String)
      (replacement : SessionInput) (db : AuthDb)
      → ((n : Session) (s : AuthDb) → Rotated times g id hash replacement db n s → P s.sessions)
      → P db.sessions
      → P (rotate_refresh_session t tx times g id hash replacement db).1.sessions
  rotate_keeps P times g id hash replacement db keep h =
      elim (rotate_atomic t times g id hash replacement db tx) [
        | inl (n, e) ↦ keep n (rotate_refresh_session t tx times g id hash replacement db).1 (
            rotate-Rotated times g id hash replacement db _ n
              (ap (λ o. (o, (rotate_refresh_session t tx times g id hash replacement db).1)) e))
        | inr same ↦ rw same h
      ]

  pub rotate-HasUnique :
      (times : RotationTimes) (g : Generated) (id hash : String) (replacement : SessionInput)
      (db : AuthDb)
      → HasUnique (λ s. s.id) db.sessions
      → HasUnique
          (λ s. s.id)
          (rotate_refresh_session t tx times g id hash replacement db).1.sessions
  rotate-HasUnique times g id hash replacement db h =
      rotate_keeps (HasUnique (λ s. s.id)) times g id hash replacement db
        (λ n s done. Rotated-HasUnique done h) h

  pub rotate-Spent :
      (k : String) (times : RotationTimes) (g : Generated) (id hash : String)
      (replacement : SessionInput) (db : AuthDb)
      → Spent k db.sessions
      → Spent k (rotate_refresh_session t tx times g id hash replacement db).1.sessions
  rotate-Spent k times g id hash replacement db h =
      rotate_keeps (Spent k) times g id hash replacement db
        (λ n s done. Rotated-keeps_Spent done k h) h
