-- ===== src/Database/Reference.antt =====
-- The interfaces of the database client, and a client that meets them.
use swim_flow_api.Prelude.{
  ℕ, ◌≡◌, refl, Bool, true, false, Option, none, some, List, [], ◌∷◌, ◌++◌, any, ◌||◌, find, filter,
  count, update_rows, IsIn, find_found, find_missing, Outcome, ok, err, if◌then◌else◌, not, All,
  length, ◌≤◌,
}

pub data DbError : Type 0 where
  unique_violation record_not_found foreign_key_violation check_violation : DbError

-- An update that sets no column of a unique index.
abbrev pub KeepsKeys : {Row : Type 0} → (Row → Row → Bool) → (Row → Row) → Type 0
KeepsKeys {Row} conflicts f = (r s : Row) → conflicts (f r) s ≡ conflicts r s

-- Whether two of the rows break a unique index.
abbrev pub has_conflict : {Row : Type 0} → (Row → Row → Bool) → List Row → Bool
has_conflict conflicts [] = false
has_conflict conflicts (r ∷ rs) = any (λ s. conflicts s r) rs || has_conflict conflicts rs

-- One table with unique indexes. `update_keys` is `update_many` where the data may set a key; there
-- it may be refused. `find_first` may return any row that satisfies the predicate.
pub record Table (Row : Type 0) (conflicts : Row → Row → Bool) : Type 0 where
  pub find_first : (Row → Bool) → List Row → Option Row
  pub create : Row → List Row → Outcome DbError (List Row)
  pub update_many : (Row → Bool) → (Row → Row) → List Row → List Row × ℕ
  pub update : (Row → Bool) → (Row → Row) → List Row → Outcome DbError (List Row)
  pub update_keys : (Row → Bool) → (Row → Row) → List Row → Outcome DbError (List Row × ℕ)
  pub delete_many : (Row → Bool) → List Row → List Row × ℕ
  pub find_first_found :
      (p : Row → Bool) (t : List Row) (r : Row) → find_first p t ≡ some r → IsIn r t × (p r ≡ true)
  pub find_first_missing : (p : Row → Bool) (t : List Row) → find_first p t ≡ none → any p t ≡ false
  pub create_lem :
      (r : Row) (t : List Row)
      → create r t ≡ (if any (conflicts r) t then err unique_violation else ok (t ++ r ∷ []))
  pub update_many_lem :
      (p : Row → Bool) (f : Row → Row) (t : List Row)
      → KeepsKeys conflicts f
      → update_many p f t ≡ (update_rows p f t, count p t)
  pub update_lem :
      (p : Row → Bool) (f : Row → Row) (t : List Row)
      → KeepsKeys conflicts f
      → update p f t ≡ (if any p t then ok (update_rows p f t) else err record_not_found)
  pub update_keys_lem :
      (p : Row → Bool) (f : Row → Row) (t : List Row)
      → update_keys p f t ≡ (
          if has_conflict conflicts (update_rows p f t)
          then err unique_violation
          else ok (update_rows p f t, count p t))
  pub delete_many_lem :
      (p : Row → Bool) (t : List Row) → delete_many p t ≡ (filter (λ r. not (p r)) t, count p t)

-- What an interactive transaction leaves behind: a body that throws is rolled back.
abbrev pub settle : {E A S : Type 0} → S → Outcome E A × S → Outcome E A × S
settle s (ok a, s') = (ok a, s')
settle s (err e, s') = (err e, s)

pub record Transactions (E A S : Type 0) : Type 0 where
  pub run : (S → Outcome E A × S) → S → Outcome E A × S
  pub run_lem : (body : S → Outcome E A × S) (s : S) → run body s ≡ settle s (body s)

-- A client over lists, which shows that the laws can be met.
abbrev pub list_table : {Row : Type 0} (conflicts : Row → Row → Bool) → Table Row conflicts
list_table conflicts = record {
  find_first = find;
  create = λ r t. if any (conflicts r) t then err unique_violation else ok (t ++ r ∷ []);
  update_many = λ p f t. (update_rows p f t, count p t);
  update = λ p f t. if any p t then ok (update_rows p f t) else err record_not_found;
  update_keys = λ p f t.
      if has_conflict conflicts (update_rows p f t)
      then err unique_violation
      else ok (update_rows p f t, count p t);
  delete_many = λ p t. (filter (λ r. not (p r)) t, count p t);
  find_first_found = find_found;
  find_first_missing = find_missing;
  create_lem = λ r t. refl;
  update_many_lem = λ p f t _. refl;
  update_lem = λ p f t _. refl;
  update_keys_lem = λ p f t. refl;
  delete_many_lem = λ p t. refl;
}

abbrev pub plain_transactions : {E A S : Type 0} → Transactions E A S
plain_transactions = record { run = λ body s. settle s (body s); run_lem = λ body s. refl }

-- `findMany` with a limit: at most `n` rows, all of which satisfy the predicate. Which of the rows
-- its order selects is left open.
pub record Listing (Row : Type 0) : Type 0 where
  pub find_many : (Row → Bool) → ℕ → List Row → List Row
  pub find_many_found :
      (p : Row → Bool) (n : ℕ) (t : List Row) → All (λ r. p r ≡ true) (find_many p n t)
  pub find_many_few : (p : Row → Bool) (n : ℕ) (t : List Row) → length (find_many p n t) ≤ n
