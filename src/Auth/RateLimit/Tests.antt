-- ===== src/Auth/RateLimit/Tests.antt =====
-- The rate limiter: runs.
use swim_flow_api.Prelude.{ℕ, ◌≡◌, ◌≢◌, String, refl, none, some, [], ◌∷◌, arith, eq_iff}
use Prim.Native.Nat.{min}
use swim_flow_api.Auth.RateLimit.{
  login, refresh, window_of, cleanup_expired_entries, attempt, AuthRequest, normalize_value,
  build_key, can_activate,
}
use swim_flow_api.Auth.RateLimit.Limits.{Call, admitted, made, window_admits_limit}

runs : Unit {0}
unfolding window_of cleanup_expired_entries attempt normalize_value build_key can_activate admitted
    made
runs = tt

abbrev at : ℕ → Call
at now = record { window = record { limit = 2; window_ms = 60 }; key = "login:a"; time = now }

abbrev elsewhere : Call
elsewhere = record { window = record { limit = 1; window_ms = 60 }; key = "refresh:a"; time = 21 }

third_refused : admitted "login:a" (at 10 ∷ at 20 ∷ elsewhere ∷ at 69 ∷ []) [] ≡ 2
unfolding runs
third_refused = refl

new_window : admitted "login:a" (at 10 ∷ at 20 ∷ at 69 ∷ at 70 ∷ []) [] ≡ 3
unfolding runs
new_window = refl

abbrev request : AuthRequest
request = record {
  ip = some "::1";
  remote_address = none;
  email = some "ana@swim";
  access_token = none;
}

keys : build_key (λ s. s) (λ s. s) login request ≡ "login:::1:ana@swim"
unfolding runs
keys = refl

refresh_key : build_key (λ s. s) (λ s. s) refresh request ≡ "refresh:::1"
unfolding runs
refresh_key = refl

other_key : ◌≢◌ {A = String} "refresh:a" "login:a"
other_key = ground (arith, eq_iff "refresh:a" "login:a")

window_admits_limit_example :
    admitted "login:a" (at 10 ∷ at 20 ∷ elsewhere ∷ at 69 ∷ []) []
    ≡ min (made "login:a" (at 10 ∷ at 20 ∷ elsewhere ∷ at 69 ∷ [])) 2
window_admits_limit_example =
    window_admits_limit "login:a" (record { limit = 2; window_ms = 60 }) 10
      (at 20 ∷ elsewhere ∷ at 69 ∷ []) [] (omega arith) tt
      (
        (omega arith, (λ _. refl)),
        ((omega arith, (λ e. absurd (other_key e))), ((omega arith, (λ _. refl)), tt)),
      )
