-- ===== src/Cache/Latest.antt =====
-- The cache answers what was written last, until it expires or is deleted.
use swim_flow_api.Prelude.{
  ℕ, String, ◌≡◌, ◌∙◌, refl, sym, ap, Bool, true, not, Option, none, some, List, [], ◌∷◌, filter,
  str_eq, eq_iff, arith, Bool-cases, Option-cases, inl, inr, ◌≤◌, leb, if◌then◌else◌, lookup,
  lookup-insert, All,
}
use swim_flow_api.Cache.Memory.{
  CacheEntry, Cache, expiry, is_expired, starts_with, set_entry, delete_entry, delete_matching,
  get_entry,
}

-- A call on the cache, with the time at which it is made.
pub data Call : Type 0 where
  setting : (key value : String) → (ttl : Option ℕ) → (now : ℕ) → Call
  getting : (key : String) → (now : ℕ) → Call
  deleting : (key : String) → Call
  deleting_all : (prefix : String) → Call

abbrev pub run_call : Call → Cache → Cache
run_call (setting key value ttl now) m = set_entry key value ttl now m
run_call (getting key now) m = (get_entry key now m).1
run_call (deleting key) m = delete_entry key m
run_call (deleting_all prefix) m = delete_matching prefix m

-- A history has its last call first.
abbrev pub run_calls : List Call → Cache
run_calls [] = []
run_calls (c ∷ calls) = run_call c (run_calls calls)

-- The last value written for a key that no later deletion covers. Reading does not matter.
abbrev pub latest : String → List Call → Option CacheEntry
latest k [] = none
latest k (setting key value ttl now ∷ calls) =
    if str_eq key k
    then some (record { value = value; expires_at = expiry ttl now })
    else latest k calls
latest k (getting key now ∷ calls) = latest k calls
latest k (deleting key ∷ calls) = if str_eq key k then none else latest k calls
latest k (deleting_all prefix ∷ calls) = if starts_with prefix k then none else latest k calls

-- What is left of an entry at a time.
abbrev pub visible : ℕ → Option CacheEntry → Option String
visible now none = none
visible now (some e) = if is_expired now e then none else some e.value

-- No read of the history is later than the time.
abbrev pub is_before : ℕ → Call → Bool
is_before now (getting key read) = leb read now
is_before now _ = true

lookup_kept :
    (keep : String → Bool) (k : String) (m : Cache)
    → lookup k (filter (λ e. keep e.0) m) ≡ (if keep k then lookup k m else none)
lookup_kept keep k [] = ground arith
lookup_kept keep k ((j, e) ∷ m) = elim (Bool-cases (str_eq j k)) [
  | inr other ↦ ground (arith, other, lookup_kept keep k m)
  | inl same ↦
      let at : keep j ≡ keep k = ap keep ((eq_iff j k).0 same) in
      ground (arith, same, at, lookup_kept keep k m)
]

expired_later :
    (read now : ℕ) (e : CacheEntry)
    → read ≤ now
    → is_expired read e ≡ true
    → is_expired now e ≡ true
expired_later read now e le h = elim (Option-cases e.expires_at) [
  | inl always ↦ absurd (ground (arith, always, h))
  | inr (t, limit) ↦ ground (arith, limit, h, le)
]

-- Reading one key does not change what is seen of any key.
get_state :
    (now read : ℕ) (key k : String) (m : Cache)
    → read ≤ now
    → visible now (lookup k (get_entry key read m).1) ≡ visible now (lookup k m)
unfolding get_entry delete_entry
get_state now read key k m le = elim (Option-cases (lookup key m)) [
  | inl missing ↦ rw missing refl
  | inr (e, found) ↦ elim (Bool-cases (is_expired read e)) [
    | inr live ↦ rw (found, live) refl
    | inl expired ↦
        let gone = expired_later read now e le expired in
        let rest = lookup_kept (λ j. not (str_eq j key)) k m in
        elim (Bool-cases (str_eq k key)) [
          | inr other ↦ ground (arith, found, expired, rest, other)
          | inl same ↦
              let own : lookup k m ≡ some e = rw ((eq_iff k key).0 same) found in
              ground (arith, found, expired, rest, same, own, gone)
        ]
  ]
]

run_calls_lem :
    (now : ℕ) (k : String) (calls : List Call)
    → All (λ c. is_before now c ≡ true) calls
    → visible now (lookup k (run_calls calls)) ≡ visible now (latest k calls)
unfolding set_entry delete_entry delete_matching
run_calls_lem now k [] h = refl
run_calls_lem now k (setting key value ttl at_time ∷ calls) h = ground (
  arith,
  lookup-insert key k (record { value = value; expires_at = expiry ttl at_time }) (run_calls calls),
  run_calls_lem now k calls h.1,
)
run_calls_lem now k (getting key read ∷ calls) h =
    get_state now read key k (run_calls calls) (ground (arith, h.0)) ∙ run_calls_lem now k calls h.1
run_calls_lem now k (deleting key ∷ calls) h = elim (Bool-cases (str_eq key k)) [
  | inl same ↦
      let back : str_eq k key ≡ true = (eq_iff k key).1 (sym ((eq_iff key k).0 same)) in
      ground (arith, same, back, lookup_kept (λ j. not (str_eq j key)) k (run_calls calls))
  | inr other ↦ ground (
    arith,
    other,
    eq_iff k key,
    eq_iff key k,
    lookup_kept (λ j. not (str_eq j key)) k (run_calls calls),
    run_calls_lem now k calls h.1,
  )
]
run_calls_lem now k (deleting_all prefix ∷ calls) h = elim (Bool-cases (starts_with prefix k)) [
  | inl hit ↦ ground (arith, hit, lookup_kept (λ j. not (starts_with prefix j)) k (run_calls calls))
  | inr miss ↦ ground (
    arith,
    miss,
    lookup_kept (λ j. not (starts_with prefix j)) k (run_calls calls),
    run_calls_lem now k calls h.1,
  )
]

get_answer : (now : ℕ) (k : String) (m : Cache) → (get_entry k now m).0 ≡ visible now (lookup k m)
unfolding get_entry
get_answer now k m = elim (Option-cases (lookup k m)) [
  | inl missing ↦ rw missing refl
  | inr (e, found) ↦ elim (Bool-cases (is_expired now e)) [
    | inl expired ↦ rw (found, expired) refl
    | inr live ↦ rw (found, live) refl
  ]
]

-- After any history of calls from an empty cache, reading a key answers the value that was written
-- last for it and that no later deletion covers, or nothing, also once that value has expired. No
-- earlier read was made at a later time.
pub get_entry-latest :
    (now : ℕ) (k : String) (calls : List Call)
    → All (λ c. is_before now c ≡ true) calls
    → (get_entry k now (run_calls calls)).0 ≡ visible now (latest k calls)
get_entry-latest now k calls h = get_answer now k (run_calls calls) ∙ run_calls_lem now k calls h
