-- ===== src/Auth/Sessions/Spent.antt =====
-- A revoked session stays revoked under every operation of PrismaAuthSessionsRepository.
use swim_flow_api.Prelude.{
  ℕ, String, ◌≡◌, ◌∙◌, subst, refl, Bool, true, false, Option, some, List, [], ◌∷◌, ◌++◌, arith,
  any, All, All-append, All-of_each, All-update_rows, any-append, any-update_rows, update_rows, ok,
  err, is_some, count, ◌==◌, ◌≢◌, str_eq, eq_iff, Bool-cases, inl, inr, ◌⊎◌, ◌&&◌, is_none,
}
use swim_flow_api.Database.{Table, unique_violation, record_not_found}
use swim_flow_api.Auth.Store.{Session, AuthDb, Generated, same_session, database, rotation_changed}
use swim_flow_api.Auth.Sessions.{
  SessionInput, with_sessions, RotationTimes, new_session, replaced, may_rotate, create, consume,
  revoke, revoke_all_for_user,
}

-- A session with this id is listed, and every row with this id is revoked.
pub record Spent (id : String) (rows : List Session) : Type 0 where
  pub listed : any (λ s. str_eq s.id id) rows ≡ true
  pub revoked : All (λ s. str_eq s.id id ≡ true → is_some s.revoked_at ≡ true) rows

-- An update that keeps ids, and keeps revoked rows revoked, keeps a session spent.
pub Spent-update_rows :
    (id : String) (p : Session → Bool) (f : Session → Session) (rows : List Session)
    → ((s : Session) → (f s).id ≡ s.id)
    → ((s : Session) → is_some s.revoked_at ≡ true → is_some (f s).revoked_at ≡ true)
    → Spent id rows
    → Spent id (update_rows p f rows)
Spent-update_rows id p f rows same keeps h = record {
  listed = any-update_rows (λ s. str_eq s.id id) p f rows (λ s. rw (same s)) ∙ h.listed;
  revoked =
      All-update_rows _ _ p f rows (λ s g _ e. keeps s (g (rw (same s) at e))) (λ s g _ e. g e)
        h.revoked;
}

-- The primary key keeps a spent id from being used again.
pub Spent-append :
    (id : String) (row : Session) (rows : List Session)
    → any (same_session row) rows ≡ false
    → Spent id rows
    → Spent id (rows ++ row ∷ [])
Spent-append id row rows fresh h = record {
  listed = any-append (λ s. str_eq s.id id) rows (row ∷ []) ∙ rw h.listed refl;
  revoked = All-append _ rows (row ∷ []) h.revoked (λ e. absurd (clash e), tt);
}
  where
    clash : str_eq row.id id ≡ true → ⊥
    clash e =
        let q : row.id ≡ id = (eq_iff row.id id).0 e in
        cc (subst (λ k. any (λ s. str_eq s.id k) rows ≡ false) q fresh, h.listed)

-- Inversion of an insertion: it is refused, or its key was new and the row stands at the end.
pub create_cases :
    (t : Table Session same_session) (g : Generated) (input : SessionInput) (db : AuthDb)
    → (create t g input db ≡ (err (database unique_violation), db))
      ⊎ ((any (same_session (new_session g input)) db.sessions ≡ false)
          × (create t g input db ≡ (
            ok (new_session g input),
            record db { sessions = db.sessions ++ new_session g input ∷ [] },
          )))
unfolding create
create_cases t g input db =
    elim (Bool-cases (any (same_session (new_session g input)) db.sessions)) [
      | inl taken ↦ inl (ground (arith, t.create_lem (new_session g input) db.sessions))
      | inr fresh ↦ inr (fresh, ground (arith, t.create_lem (new_session g input) db.sessions))
    ]

abbrev pub revoked_with : ℕ → Option String → Session → Session
revoked_with now by s = record s { revoked_at = some now; replaced_by_session_id = by }

pub revoke_cases :
    (t : Table Session same_session) (now : ℕ) (k : String) (by : Option String) (db : AuthDb)
    → ((any (λ s. str_eq s.id k) db.sessions ≡ false)
        × (revoke t now k by db ≡ (err (database record_not_found), db)))
      ⊎ (revoke t now k by db ≡ (
        ok tt,
        with_sessions db (update_rows (λ s. str_eq s.id k) (revoked_with now by) db.sessions),
      ))
unfolding revoke
revoke_cases t now k by db = elim (Bool-cases (any (λ s. str_eq s.id k) db.sessions)) [
  | inl there ↦ inr (
      ground
        (arith, t.update_lem (λ s. str_eq s.id k) (revoked_with now by) db.sessions (λ r s. refl)))
  | inr missing ↦ inl (
    missing,
    ground
        (arith, t.update_lem (λ s. str_eq s.id k) (revoked_with now by) db.sessions (λ r s. refl)),
  )
]

-- The session that is revoked is spent, if it is there.
pub revoke-Spent_self :
    (t : Table Session same_session) (now : ℕ) (k : String) (by : Option String) (db : AuthDb)
    → any (λ s. str_eq s.id k) db.sessions ≡ true
    → ((revoke t now k by db).0 ≡ ok tt) × Spent k (revoke t now k by db).1.sessions
revoke-Spent_self t now k by db there = elim (revoke_cases t now k by db) [
  | inl (missing, _) ↦ cc (missing, there)
  | inr done ↦ rw done (
    refl,
    record {
      listed = any-update_rows _ _ (revoked_with now by) db.sessions (λ s. refl) ∙ there;
      revoked =
          All-update_rows (λ s. Unit {0}) _ (λ s. str_eq s.id k) (revoked_with now by) db.sessions
            (λ s _ _ _. refl) (λ s _ miss e. cc (miss, e)) (All-of_each _ db.sessions (λ s _. tt));
    },
  )
]

-- The rows after the update that ends a rotation.
abbrev pub consumed : RotationTimes → Session → String → Session → AuthDb → List Session
consumed times current hash next db =
    update_rows (may_rotate db current.id hash times.tested) (replaced times.stamped next.id)
      db.sessions

pub consume_cases :
    (t : Table Session same_session) (times : RotationTimes) (current : Session) (hash : String)
    (next : Session) (db : AuthDb)
    → ((count (may_rotate db current.id hash times.tested) db.sessions ≢ 1)
        × (consume t times current hash next db
            ≡ (err rotation_changed, with_sessions db (consumed times current hash next db))))
      ⊎ ((count (may_rotate db current.id hash times.tested) db.sessions ≡ 1)
          × (consume t times current hash next db
              ≡ (ok (some next), with_sessions db (consumed times current hash next db))))
unfolding consume
consume_cases t times current hash next db =
    let rows =
      t.update_many_lem (may_rotate db current.id hash times.tested)
        (replaced times.stamped next.id) db.sessions (λ r s. refl) in
    elim (Bool-cases (count (may_rotate db current.id hash times.tested) db.sessions == 1)) [
      | inl one ↦ inr (ground arith, rw (rows, one))
      | inr other ↦ inl (ground arith, rw (rows, other))
    ]

module _ (t : Table Session same_session) (id : String) where
  pub create-Spent :
      (g : Generated) (input : SessionInput) (db : AuthDb)
      → Spent id db.sessions
      → Spent id (create t g input db).1.sessions
  create-Spent g input db h = elim (create_cases t g input db) [
    | inl refused ↦ rw refused h
    | inr (fresh, done) ↦ rw done (Spent-append id (new_session g input) db.sessions fresh h)
  ]

  pub revoke-Spent :
      (now : ℕ) (k : String) (by : Option String) (db : AuthDb)
      → Spent id db.sessions
      → Spent id (revoke t now k by db).1.sessions
  revoke-Spent now k by db h = elim (revoke_cases t now k by db) [
    | inl refused ↦ rw refused.1 h
    | inr done ↦
        rw done
          (Spent-update_rows id _ (revoked_with now by) db.sessions (λ s. refl) (λ s e. refl) h)
  ]

  pub revoke_all_for_user-Spent :
      (now : ℕ) (user_id : String) (db : AuthDb)
      → Spent id db.sessions
      → Spent id (revoke_all_for_user t now user_id db).sessions
  unfolding revoke_all_for_user
  revoke_all_for_user-Spent now user_id db h =
      rw
        (t.update_many_lem (λ s. str_eq s.user_id user_id && is_none s.revoked_at)
          (λ s. record s { revoked_at = some now }) db.sessions (λ r s. refl))
        (Spent-update_rows id _ (λ s. record s { revoked_at = some now }) db.sessions (λ s. refl)
          (λ s e. refl) h)

  consume-Spent :
      (times : RotationTimes) (current : Session) (hash : String) (next : Session) (db : AuthDb)
      → Spent id db.sessions
      → Spent id (consume t times current hash next db).1.sessions
  consume-Spent times current hash next db h =
      let kept : Spent id (consumed times current hash next db) =
        Spent-update_rows id _ (replaced times.stamped next.id) db.sessions (λ s. refl)
          (λ s e. refl) h in
      elim (consume_cases t times current hash next db) [
        | inl changed ↦ rw changed.1 kept
        | inr done ↦ rw done.1 kept
      ]
