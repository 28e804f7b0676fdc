-- ===== src/Auth/RateLimit/Limits.antt =====
-- How many attempts of one key the guard admits within a window.
use swim_flow_api.Prelude.{
  ℕ, ◌+◌, ◌-◌, ◌<◌, ◌≤◌, String, ◌≡◌, ◌≢◌, refl, true, Option, none, some, List, [], ◌∷◌, arith,
  All, All-filter, ltb, leb, length, str_eq, eq_iff, lookup, lookup-insert, lookup-filter,
  Bool-cases, inl, inr, if◌then◌else◌,
}
use Prim.Native.Nat.{min}
use swim_flow_api.Auth.RateLimit.{Window, Entry, Counters, cleanup_expired_entries, admit, attempt}

-- A live entry survives the cleanup.
cleanup-lookup :
    (now : ℕ) (key : String) (e : Entry) (m : Counters)
    → now < e.reset_at
    → lookup key m ≡ some e
    → lookup key (cleanup_expired_entries now m) ≡ some e
unfolding cleanup_expired_entries
cleanup-lookup now key e m live h = elim (Bool-cases (ltb (length m) 500)) [
  | inl few ↦ rw few h
  | inr many ↦ rw many (lookup-filter _ key e m (λ j _. ground arith) h)
]

-- An attempt of the key itself, while its entry is live.
attempt_live :
    (w : Window) (key : String) (now : ℕ) (e : Entry) (m : Counters)
    → now < e.reset_at
    → lookup key m ≡ some e
    → ((attempt w key now m).0 ≡ ltb e.count w.limit)
      × (lookup key (attempt w key now m).1
          ≡ some (record e { count = if ltb e.count w.limit then e.count + 1 else e.count }))
unfolding attempt
attempt_live w key now e m live h =
    let kept = cleanup-lookup now key e m live h in
    elim (Bool-cases (leb w.limit e.count)) [
      | inl full ↦ (ground (arith, kept), ground (arith, kept))
      | inr free ↦ (
        ground (arith, kept),
        ground (
          arith,
          kept,
          lookup-insert key key (record e { count = e.count + 1 }) (cleanup_expired_entries now m),
          eq_iff key key,
        ),
      )
    ]

-- An attempt of another key leaves a live entry alone.
attempt_other :
    (w : Window) (key other : String) (now : ℕ) (e : Entry) (m : Counters)
    → other ≢ key
    → now < e.reset_at
    → lookup key m ≡ some e
    → lookup key (attempt w other now m).1 ≡ some e
unfolding attempt
attempt_other w key other now e m differs live h =
    admit_other (cleanup_expired_entries now m) (lookup other (cleanup_expired_entries now m))
      (cleanup-lookup now key e m live h)
  where
    admit_other :
        (c : Counters) (o : Option Entry)
        → lookup key c ≡ some e
        → lookup key (admit w other now c o).1 ≡ some e
    admit_other c none k = ground (
      arith,
      k,
      eq_iff other key,
      lookup-insert other key (record { count = 1; reset_at = now + w.window_ms }) c,
    )
    admit_other c (some f) k = ground (
      arith,
      k,
      eq_iff other key,
      lookup-insert other key (record { count = 1; reset_at = now + w.window_ms }) c,
      lookup-insert other key (record f { count = f.count + 1 }) c,
    )

-- One attempt of a sequence: the window's settings, the key and the time.
pub record Call : Type 0 where
  pub window : Window
  pub key : String
  pub time : ℕ

-- How many attempts of `key` are admitted, and how many are made, along a sequence.
unfoldable pub admitted : String → List Call → Counters → ℕ
admitted key [] m = 0
admitted key (c ∷ cs) m =
    let (yes?, m') = attempt c.window c.key c.time m in
    (if yes? then if str_eq c.key key then 1 else 0 else 0) + admitted key cs m'

unfoldable pub made : String → List Call → ℕ
made key [] = 0
made key (c ∷ cs) = (if str_eq c.key key then 1 else 0) + made key cs

-- Attempts at the key are made under its settings, before its window ends.
abbrev pub Within : String → Window → ℕ → List Call → Type 0
Within key w reset_at = All (λ c. (c.time < reset_at) × (c.key ≡ key → c.window ≡ w))

-- While an entry is live, what is admitted is what is left of its limit.
admitted_live :
    (key : String) (w : Window) (cs : List Call) (m : Counters) (e : Entry)
    → Within key w e.reset_at cs
    → lookup key m ≡ some e
    → e.count ≤ w.limit
    → admitted key cs m ≡ min (made key cs) (w.limit - e.count)
unfolding admitted made
admitted_live key w [] m e within h low = omega arith
admitted_live key w (c ∷ cs) m e ((live, same), within) h low =
    elim (Bool-cases (str_eq c.key key)) [
      | inl ours ↦
          let here : c.key ≡ key = (eq_iff _ _).0 ours in
          let (yes?, entry) = attempt_live c.window c.key c.time e m live (rw here h) in
          let e' : Entry = record e {
            count = if ltb e.count w.limit then e.count + 1 else e.count;
          } in
          let entry' : lookup key (attempt c.window c.key c.time m).1 ≡ some e' =
            cc (here, same here, entry) in
          let rest =
            admitted_live key w cs (attempt c.window c.key c.time m).1 e' within entry'
              (ground arith) in
          ground (arith, rest, yes?, same here)
      | inr other ↦
          let differs : c.key ≢ key = λ q. cc ((eq_iff _ _).1 q, other) in
          let rest =
            admitted_live key w cs (attempt c.window c.key c.time m).1 e within
              (attempt_other c.window key c.key c.time e m differs live h) low in
          ground (arith, rest)
    ]

-- No entry of the key is live.
abbrev pub IsIdle : String → ℕ → Counters → Type 0
IsIdle key now = All (λ p. p.0 ≡ key → p.1.reset_at ≤ now)

lookup_idle :
    (key : String) (now : ℕ) (e : Entry) (m : Counters)
    → IsIdle key now m
    → lookup key m ≡ some e
    → e.reset_at ≤ now
lookup_idle key now e [] idle h = cc
lookup_idle key now e ((j, f) ∷ m) idle h = elim (Bool-cases (str_eq j key)) [
  | inl same ↦
      let expired : f.reset_at ≤ now = idle.0 ((eq_iff j key).0 same) in ground (arith, expired)
  | inr other ↦ lookup_idle key now e m idle.1 (ground arith)
]

-- An idle key's attempt is admitted and opens a window.
attempt_idle :
    (w : Window) (key : String) (now : ℕ) (m : Counters)
    → IsIdle key now m
    → ((attempt w key now m).0 ≡ true)
      × (lookup key (attempt w key now m).1
          ≡ some (record { count = 1; reset_at = now + w.window_ms }))
unfolding attempt
attempt_idle w key now m idle =
    opens (cleanup_expired_entries now m) (lookup key (cleanup_expired_entries now m)) refl
      idle_still
  where
    idle_still : IsIdle key now (cleanup_expired_entries now m)
    idle_still = elim (Bool-cases (ltb (length m) 500)) [
      | inl few ↦ unfold cleanup_expired_entries in rw few idle
      | inr many ↦ unfold cleanup_expired_entries in rw many (All-filter _ _ m idle)
    ]

    opens :
        (c : Counters) (o : Option Entry)
        → lookup key c ≡ o
        → IsIdle key now c
        → ((admit w key now c o).0 ≡ true)
          × (lookup key (admit w key now c o).1
              ≡ some (record { count = 1; reset_at = now + w.window_ms }))
    opens c none q h = (
      refl,
      ground (
        arith,
        eq_iff key key,
        lookup-insert key key (record { count = 1; reset_at = now + w.window_ms }) c,
      ),
    )
    opens c (some e) q h =
        let expired = lookup_idle key now e c h q in
        (
          ground (arith, expired),
          ground (
            arith,
            expired,
            eq_iff key key,
            lookup-insert key key (record { count = 1; reset_at = now + w.window_ms }) c,
          ),
        )

-- When a key is idle, an attempt opens a window; of that attempt and those that follow before the
-- window ends, as many are admitted as are made, up to the limit, whatever attempts of other keys
-- come between. The limit is positive, and the key's settings stay the same.
pub window_admits_limit :
    (key : String) (w : Window) (now : ℕ) (cs : List Call) (m : Counters)
    → 0 < w.limit
    → IsIdle key now m
    → Within key w (now + w.window_ms) cs
    → admitted key (record { window = w; key = key; time = now } ∷ cs) m
      ≡ min (made key (record { window = w; key = key; time = now } ∷ cs)) w.limit
unfolding admitted made
window_admits_limit key w now cs m positive idle within =
    let (yes?, entry) = attempt_idle w key now m idle in
    let rest =
      admitted_live key w cs (attempt w key now m).1
        (record { count = 1; reset_at = now + w.window_ms }) within entry positive in
    ground (arith, rest, yes?, eq_iff key key)
