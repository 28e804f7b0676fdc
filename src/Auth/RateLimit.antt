-- ===== src/Auth/RateLimit.antt =====
-- PublicAuthRateLimitGuard (src/infra/auth/public-auth-rate-limit.guard.ts). The counters are the
-- guard's Map. The text operations of the key are parameters: they are only compared.
pub mod Limits
mod Tests
use swim_flow_api.Prelude.{
  ℕ, ◌+◌, ◌*◌, String, Bool, true, false, not, Option, none, some, List, [], ◌∷◌, length, filter,
  leb, ltb, str_eq, Entries, lookup, insert, or_else, if◌then◌else◌,
}
use Prim.Native.String

pub data Handler : Type 0 where
  login login_with_google refresh request_password_reset confirm_password_reset : Handler
  accept_local_invitation request_local_password_reset confirm_local_password_reset : Handler

-- RateLimitWindow
pub record Window : Type 0 where
  pub limit : ℕ
  pub window_ms : ℕ

-- RateLimitEntry
pub record Entry : Type 0 where
  pub count : ℕ
  pub reset_at : ℕ

-- RATE_LIMIT_WINDOWS
unfoldable pub window_of : Handler → Window
window_of login = record { limit = 5; window_ms = 60000 }
window_of login_with_google = record { limit = 20; window_ms = 60000 }
window_of refresh = record { limit = 30; window_ms = 60000 }
window_of request_password_reset = record { limit = 3; window_ms = 15 * 60000 }
window_of confirm_password_reset = record { limit = 5; window_ms = 15 * 60000 }
window_of accept_local_invitation = record { limit = 5; window_ms = 15 * 60000 }
window_of request_local_password_reset = record { limit = 3; window_ms = 15 * 60000 }
window_of confirm_local_password_reset = record { limit = 5; window_ms = 15 * 60000 }

abbrev pub Counters : Type 0
Counters = Entries Entry

-- cleanupExpiredEntries
unfoldable pub cleanup_expired_entries : ℕ → Counters → Counters
cleanup_expired_entries now counters =
    if ltb (length counters) 500
    then counters
    else filter (λ e. not (leb e.1.reset_at now)) counters

-- What the guard does with the entry that it has found: admit or refuse, and the new counters.
abbrev pub admit : Window → String → ℕ → Counters → Option Entry → Bool × Counters
admit w key now counters none =
    (true, insert key (record { count = 1; reset_at = now + w.window_ms }) counters)
admit w key now counters (some e) =
    if leb e.reset_at now
    then (true, insert key (record { count = 1; reset_at = now + w.window_ms }) counters)
    else if leb w.limit e.count
    then (false, counters)
    else (true, insert key (record e { count = e.count + 1 }) counters)

-- canActivate once the key is built; a refusal is the exception of status 429.
unfoldable pub attempt : Window → String → ℕ → Counters → Bool × Counters
attempt w key now counters =
    let live = cleanup_expired_entries now counters in admit w key now live (lookup key live)

-- The parts of a request that the key reads: the two addresses, and the body's fields if they
-- are texts.
pub record AuthRequest : Type 0 where
  pub ip : Option String
  pub remote_address : Option String
  pub email : Option String
  pub access_token : Option String

module _ (trim to_lower_case : String → String) where
  -- normalizeValue
  unfoldable pub normalize_value : Option String → Option String
  normalize_value none = none
  normalize_value (some s) = if str_eq (trim s) "" then none else some (to_lower_case (trim s))

  abbrev address : AuthRequest → String
  address r = or_else r.ip (or_else r.remote_address "unknown")

  abbrev handler_name : Handler → String
  handler_name login = "login"
  handler_name login_with_google = "loginWithGoogle"
  handler_name refresh = "refresh"
  handler_name request_password_reset = "requestPasswordReset"
  handler_name confirm_password_reset = "confirmPasswordReset"
  handler_name accept_local_invitation = "acceptLocalInvitation"
  handler_name request_local_password_reset = "requestLocalPasswordReset"
  handler_name confirm_local_password_reset = "confirmLocalPasswordReset"

  abbrev joined : String → String → String
  joined a b = String.◌++◌ a (String.◌++◌ ":" b)

  -- buildKey
  unfoldable pub build_key : Handler → AuthRequest → String
  build_key login r =
      joined "login" (joined (address r) (or_else (normalize_value r.email) "anonymous"))
  build_key request_password_reset r =
      joined "requestPasswordReset"
        (joined (address r) (or_else (normalize_value r.email) "anonymous"))
  build_key confirm_password_reset r =
      joined "confirmPasswordReset"
        (joined (address r) (or_else (normalize_value r.access_token) "anonymous"))
  build_key h r = joined (handler_name h) (address r)

  -- canActivate; a handler with no window is not limited.
  unfoldable pub can_activate : Option Handler → AuthRequest → ℕ → Counters → Bool × Counters
  can_activate none r now counters = (true, counters)
  can_activate (some h) r now counters = attempt (window_of h) (build_key h r) now counters
