-- ===== src/Auth/Sessions/Tests.antt =====
-- Sessions: runs on concrete tables.
use swim_flow_api.Prelude.{◌≡◌, refl, none, some, [], ◌∷◌, ok}
use swim_flow_api.Auth.Store.{Session, AuthDb}
use swim_flow_api.Auth.Fixture.{sessions, transactions, first, db, times, generated, replacement}
use swim_flow_api.Auth.Sessions.{
  with_sessions, new_session, replaced, active_local_identity, may_rotate, create, consume, succeed,
  rotate_body, rotate_refresh_session, find_active_by_id,
}
use swim_flow_api.Auth.Sessions.Trace.{here, rotate_single_use}

rotation : Unit {0}
unfolding active_local_identity new_session may_rotate create consume succeed rotate_body
    rotate_refresh_session
rotation = tt

abbrev second : Session
second = record first {
  id = "s2";
  refresh_token_hash = "t2";
  expires_at = 2000;
  created_at = 101;
  updated_at = 101;
}

abbrev rotated_db : AuthDb
rotated_db = with_sessions db (replaced 102 "s2" first ∷ second ∷ [])

rotates :
    rotate_refresh_session sessions transactions times generated "s1" "t1" replacement db
    ≡ (ok (some second), rotated_db)
unfolding rotation
rotates = refl

rotate_single_use_example :
    (rotate_refresh_session sessions transactions times generated "s1" "t1" replacement rotated_db
      ≡ (ok none, rotated_db))
    × (find_active_by_id sessions 103 "s1" rotated_db ≡ none)
rotate_single_use_example =
    rotate_single_use sessions transactions times times generated generated "s1" "t1" "t1"
      replacement replacement 103 db rotated_db rotated_db second (tt, tt) rotates here
