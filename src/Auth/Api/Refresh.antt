-- ===== src/Auth/Api/Refresh.antt =====
-- What ApiAuthService.refresh has done when it returns, and what a second call does.
use swim_flow_api.Prelude.{
  String, ◌≡◌, true, Option, none, some, arith, All, All-at, IsIn, Outcome, ok, err, str_eq, eq_iff,
  is_none, is_some, leb, or_option, Option-cases, Bool-cases, inl, inr, HasUnique, ap, subst, ◌∙◌,
  count,
}
use swim_flow_api.Database.{Table, Transactions}
use swim_flow_api.Auth.Store.{
  Profile, Session, AuthDb, Generated, same_session, AuthError, invalid_refresh_token,
}
use swim_flow_api.Auth.Sessions.{
  SessionInput, rotate_refresh_session, find_by_refresh_token_hash, new_session,
}
use swim_flow_api.Auth.Sessions.Spent.{Spent}
use swim_flow_api.Auth.Sessions.Rotation.{Rotated}
use swim_flow_api.Auth.Sessions.SingleUse.{
  Rotated-Spent, Rotated-listed, Rotated-count, rotate-Rotated,
}
use swim_flow_api.Auth.Sessions.Trace.{Reach, Reach-Spent}
use swim_flow_api.Auth.Api.{
  AuthenticatedUser, AuthResult, Context, Externals, Clock, same_profile, to_user, auth_result,
  refresh_expiry, refresh, refresh_session, authorized_profile, then_rotate, finish_refresh,
}

-- The row with which a refresh replaces the session `s`.
abbrev pub refresh_input : Externals → Clock → String → Context → Session → SessionInput
refresh_input x clock token context s = record {
  user_id = s.user_id;
  email = s.email;
  refresh_token_hash = x.hash_refresh_token token;
  expires_at = refresh_expiry x clock.issued;
  user_agent = or_option context.user_agent s.user_agent;
  ip_address = or_option context.ip_address s.ip_address;
}

-- What a refresh that returns has found, and the rotation that it has made.
pub record Refreshed (profiles : Table Profile same_profile) (t : Table Session same_session)
    (x : Externals) (clock : Clock) (g : Generated) (token presented : String) (context : Context)
    (db db' : AuthDb) (r : AuthResult) : Type 0 where
  pub session : Session
  pub profile : Profile
  pub next : Session
  pub found : find_by_refresh_token_hash t (x.hash_refresh_token presented) db ≡ some session
  pub owner : profiles.find_first (λ p. str_eq p.id session.user_id) db.profiles ≡ some profile
  pub made :
      Rotated clock.rotation g session.id
        (x.hash_refresh_token presented)
        (refresh_input x clock token context session)
        db
        next
        db'
  pub result : r ≡ auth_result x clock.signed (to_user profile session.email) next.id token

module _ (profiles : Table Profile same_profile) (t : Table Session same_session)
    (tx : Transactions AuthError (Option Session) AuthDb) (x : Externals) where
  then_rotate_ok :
      (clock : Clock) (g : Generated) (hash token : String) (context : Context) (s : Session)
      (user : AuthenticatedUser) (db db' : AuthDb) (r : AuthResult)
      → then_rotate profiles t tx x clock g hash token context s (ok user, db) ≡ (ok r, db')
      → (next : Session) × (rotate_refresh_session t tx clock.rotation g s.id hash
            (refresh_input x clock token context s)
            db
          ≡ (ok (some next), db'))
        × (r ≡ auth_result x clock.signed user next.id token)
  then_rotate_ok clock g hash token context s user db db' r h =
      from
        (rotate_refresh_session t tx clock.rotation g s.id hash
          (refresh_input x clock token context s) db)
        h
    where
      from :
          (o : Outcome AuthError (Option Session) × AuthDb)
          → finish_refresh profiles t tx x clock token user o ≡ (ok r, db')
          → (next : Session) × (o ≡ (ok (some next), db'))
            × (r ≡ auth_result x clock.signed user next.id token)
      from (err e, d) k = cc
      from (ok none, d) k = cc
      from (ok (some next), d) k = (next, cc, cc)

  refresh_session_ok :
      (clock : Clock) (g : Generated) (hash token : String) (context : Context) (s : Session)
      (db db' : AuthDb) (r : AuthResult)
      → refresh_session profiles t tx x clock g hash token context s db ≡ (ok r, db')
      → (p : Profile) × (profiles.find_first (λ q. str_eq q.id s.user_id) db.profiles ≡ some p)
        × (then_rotate profiles t tx x clock g hash token context s (ok (to_user p s.email), db)
            ≡ (ok r, db'))
  unfolding refresh_session authorized_profile
  refresh_session_ok clock g hash token context s db db' r h = elim (Option-cases s.revoked_at) [
    | inr (at, e) ↦ absurd (ground arith)
    | inl e ↦ elim (Bool-cases (leb s.expires_at clock.checked)) [
      | inl late ↦ absurd (ground arith)
      | inr early ↦
          elim (Option-cases (profiles.find_first (λ q. str_eq q.id s.user_id) db.profiles)) [
            | inl missing ↦ absurd (ground arith)
            | inr (p, found) ↦ (p, found, ground arith)
          ]
    ]
  ]

  -- A refresh that returns has rotated the session of the presented token, and its result names
  -- the stored profile of that session's user and the successor session.
  pub refresh-Refreshed :
      (clock : Clock) (g : Generated) (token presented : String) (context : Context)
      (db db' : AuthDb) (r : AuthResult)
      → refresh profiles t tx x clock g token presented context db ≡ (ok r, db')
      → Refreshed profiles t x clock g token presented context db db' r
  unfolding refresh
  refresh-Refreshed clock g token presented context db db' r h =
      elim (Option-cases (find_by_refresh_token_hash t (x.hash_refresh_token presented) db)) [
        | inl missing ↦ absurd (ground arith)
        | inr (s, found) ↦
            let inner : refresh_session profiles t tx x clock g (x.hash_refresh_token presented)
                  token context s db
                ≡ (ok r, db') =
              ground arith in
            let (p, owner, rest) = refresh_session_ok clock g _ token context s db db' r inner in
            let (next, rotated, result) =
              then_rotate_ok clock g _ token context s _ db db' r rest in
            record {
              session = s;
              profile = p;
              next = next;
              found = found;
              owner = owner;
              made = rotate-Rotated t tx clock.rotation g s.id _ _ db db' next rotated;
              result = result;
            }
      ]

  -- A refresh that returns has replaced one session of the user by another: the presented session
  -- is spent, the result carries the new token, and its session is listed, unrevoked, of the same
  -- user and email, with the hash of the new token; as many sessions are unrevoked as before. Ids
  -- are unique when it begins.
  pub refresh_exchanges :
      (clock : Clock) (g : Generated) (token presented : String) (context : Context)
      (db db' : AuthDb) (r : AuthResult)
      → HasUnique (λ s. s.id) db.sessions
      → refresh profiles t tx x clock g token presented context db ≡ (ok r, db')
      → (s : Session) × (next : Session) × (find_by_refresh_token_hash t
            (x.hash_refresh_token presented)
            db
          ≡ some s)
        × Spent s.id db'.sessions
        × IsIn next db'.sessions
        × (next.revoked_at ≡ none)
        × (next.user_id ≡ s.user_id)
        × (next.email ≡ s.email)
        × (next.refresh_token_hash ≡ x.hash_refresh_token token)
        × (r.refresh_token ≡ token)
        × (count (λ q. is_none q.revoked_at) db'.sessions
            ≡ count (λ q. is_none q.revoked_at) db.sessions)
  unfolding new_session auth_result
  refresh_exchanges clock g token presented context db db' r unique h =
      let f = refresh-Refreshed clock g token presented context db db' r h in
      let row = f.made.new_row in
      (
        f.session,
        f.next,
        f.found,
        Rotated-Spent f.made unique,
        Rotated-listed f.made,
        ap (λ q. q.revoked_at) row,
        ap (λ q. q.user_id) row ∙ f.made.same_user,
        ap (λ q. q.email) row ∙ f.made.same_email,
        ap (λ q. q.refresh_token_hash) row,
        ap (λ q. q.refresh_token) f.result,
        Rotated-count f.made,
      )

  refused_if_revoked :
      (clock : Clock) (g : Generated) (hash token : String) (context : Context) (s : Session)
      (db : AuthDb)
      → is_some s.revoked_at ≡ true
      → (refresh_session profiles t tx x clock g hash token context s db).0
        ≡ err invalid_refresh_token
  unfolding refresh_session
  refused_if_revoked clock g hash token context s db revoked = elim (Option-cases s.revoked_at) [
    | inl e ↦ absurd (ground arith)
    | inr (at, e) ↦ ground arith
  ]

  -- A refresh token works once: after a refresh with it has returned, every later refresh with it
  -- is refused, whatever operations on the sessions come between. Ids are unique at first, and at
  -- the second call no other session carries the token's hash.
  pub refresh_token_works_once :
      (clock clock' : Clock) (g g' : Generated) (token token' presented : String)
      (context context' : Context) (db db' later : AuthDb) (r : AuthResult) (s : Session)
      → HasUnique (λ q. q.id) db.sessions
      → find_by_refresh_token_hash t (x.hash_refresh_token presented) db ≡ some s
      → refresh profiles t tx x clock g token presented context db ≡ (ok r, db')
      → Reach t tx db' later
      → All
          (λ q. q.refresh_token_hash ≡ x.hash_refresh_token presented → q.id ≡ s.id)
          later.sessions
      → (refresh profiles t tx x clock' g' token' presented context' later).0
        ≡ err invalid_refresh_token
  unfolding refresh find_by_refresh_token_hash
  refresh_token_works_once clock clock' g g' token token' presented context context' db db' later r
        s unique first h reach only =
      let f = refresh-Refreshed clock g token presented context db db' r h in
      let same : f.session ≡ s = cc (f.found, first) in
      let spent : Spent s.id later.sessions =
        Reach-Spent t tx s.id reach
          (subst (λ (q : Session). Spent q.id db'.sessions) same (Rotated-Spent f.made unique)) in
      elim (Option-cases (find_by_refresh_token_hash t (x.hash_refresh_token presented) later)) [
        | inl missing ↦ ground arith
        | inr (q, found) ↦
            let (listed, allowed) = t.find_first_found _ _ _ found in
            let hashed : q.refresh_token_hash ≡ x.hash_refresh_token presented =
              ground (arith, eq_iff q.refresh_token_hash (x.hash_refresh_token presented)) in
            let revoked : is_some q.revoked_at ≡ true =
              All-at _ later.sessions q spent.revoked listed
                ((eq_iff q.id s.id).1 (All-at _ later.sessions q only listed hashed)) in
            ground (
              arith,
              refused_if_revoked clock' g' (x.hash_refresh_token presented) token' context' q later
                  revoked,
            )
      ]
