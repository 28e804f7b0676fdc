-- ===== src/Cache/Memory.antt =====
-- MemoryCacheRepository (src/infra/cache/memory/memory-cache-repository.ts). The clock is an
-- argument, in milliseconds.
use swim_flow_api.Prelude.{
  ℕ, ◌+◌, ◌*◌, String, Bool, true, false, not, ◌&&◌, Option, none, some, List, [], ◌∷◌, filter, leb,
  str_eq, codes, ◌==◌, if◌then◌else◌, Entries, lookup, insert,
}

pub record CacheEntry : Type 0 where
  pub value : String
  pub expires_at : Option ℕ

abbrev pub Cache : Type 0
Cache = Entries CacheEntry

abbrev pub expiry : Option ℕ → ℕ → Option ℕ
expiry none now = none
expiry (some ttl) now = if ttl == 0 then none else some (now + ttl * 1000)

abbrev pub is_expired : ℕ → CacheEntry → Bool
is_expired now e = elim e.expires_at [ none ↦ false | some t ↦ leb t now ]

-- String.prototype.startsWith
abbrev pub begins : List ℕ → List ℕ → Bool
begins [] cs = true
begins (p ∷ ps) [] = false
begins (p ∷ ps) (c ∷ cs) = (c == p) && begins ps cs

abbrev pub starts_with : String → String → Bool
starts_with prefix key = begins (codes prefix) (codes key)

-- set
unfoldable pub set_entry : String → String → Option ℕ → ℕ → Cache → Cache
set_entry key value ttl now m = insert key (record { value = value; expires_at = expiry ttl now }) m

-- delete
unfoldable pub delete_entry : String → Cache → Cache
delete_entry key m = filter (λ e. not (str_eq e.0 key)) m

-- deleteMatching
unfoldable pub delete_matching : String → Cache → Cache
delete_matching prefix m = filter (λ e. not (starts_with prefix e.0)) m

abbrev pub live_entry : String → ℕ → Cache → Option CacheEntry → Option String × Cache
live_entry key now m none = (none, m)
live_entry key now m (some e) =
    if is_expired now e then (none, delete_entry key m) else (some e.value, m)

-- get, which deletes an entry that has expired.
unfoldable pub get_entry : String → ℕ → Cache → Option String × Cache
get_entry key now m = live_entry key now m (lookup key m)
