-- ===== src/Results/Order.antt =====
-- The results in the order of the sort: no result is before a faster one.
use Prim.Native.Nat.{Ordering}
use swim_flow_api.Prelude.{
  String, ◌≡◌, ◌⊎◌, true, false, List, [], ◌∷◌, ◌++◌, All, All-append, All-map, IsIn, arith,
  Bool-cases, inl, inr, ◌≤◌, ◌==◌,
}
use swim_flow_api.Results.Ranking.{Result, compare_results, is_after, insert_by, sort_by}

abbrev pub Sorted : List Result → Type 0
Sorted [] = Unit
Sorted (r ∷ rs) = All (λ q. r.time_in_seconds ≤ q.time_in_seconds) rs × Sorted rs

pub Sorted-append :
    (rows : List Result) (r : Result)
    → Sorted rows
    → All (λ q. q.time_in_seconds ≤ r.time_in_seconds) rows
    → Sorted (rows ++ r ∷ [])
Sorted-append [] r h below = (tt, tt)
Sorted-append (q ∷ rows) r h below =
    (All-append _ rows (r ∷ []) h.0 (below.0, tt), Sorted-append rows r h.1 below.1)

module _ (locale : String → String → Ordering) where
  after_slower :
      (x y : Result)
      → is_after (compare_results locale x y) ≡ true
      → y.time_in_seconds ≤ x.time_in_seconds
  after_slower x y h = elim (Bool-cases (x.time_in_seconds == y.time_in_seconds)) [
    | inl same ↦ ground (arith, same)
    | inr differs ↦ ground (arith, differs, h)
  ]

  not_after_faster :
      (x y : Result)
      → is_after (compare_results locale x y) ≡ false
      → x.time_in_seconds ≤ y.time_in_seconds
  not_after_faster x y h = elim (Bool-cases (x.time_in_seconds == y.time_in_seconds)) [
    | inl same ↦ ground (arith, same)
    | inr differs ↦ ground (arith, differs, h)
  ]

  insert-All :
      (P : Result → Type 0) (x : Result) (ys : List Result)
      → P x
      → All P ys
      → All P (insert_by (compare_results locale) x ys)
  insert-All P x [] h k = (h, tt)
  insert-All P x (y ∷ ys) h k = elim (Bool-cases (is_after (compare_results locale x y))) [
    | inl after ↦ rw after (k.0, insert-All P x ys h k.1)
    | inr before ↦ rw before (h, k)
  ]

  insert-Sorted :
      (x : Result) (ys : List Result) → Sorted ys → Sorted (insert_by (compare_results locale) x ys)
  insert-Sorted x [] h = (tt, tt)
  insert-Sorted x (y ∷ ys) h = elim (Bool-cases (is_after (compare_results locale x y))) [
    | inl after ↦ rw after (insert-All _ x ys (after_slower x y after) h.0, insert-Sorted x ys h.1)
    | inr before ↦
        let first = not_after_faster x y before in
        rw before (((first, All-map _ _ ys (λ q le. omega (arith, first, le)) h.0), h))
  ]

  pub sort_by-Sorted : (xs : List Result) → Sorted (sort_by (compare_results locale) xs)
  sort_by-Sorted [] = tt
  sort_by-Sorted (x ∷ xs) = insert-Sorted x _ (sort_by-Sorted xs)

  pub sort_by-All :
      (P : Result → Type 0) (xs : List Result)
      → All P xs
      → All P (sort_by (compare_results locale) xs)
  sort_by-All P [] h = tt
  sort_by-All P (x ∷ xs) h = insert-All P x _ h.0 (sort_by-All P xs h.1)

  insert_in :
      (r x : Result) (ys : List Result)
      → (r ≡ x) ⊎ IsIn r ys
      → IsIn r (insert_by (compare_results locale) x ys)
  insert_in r x [] (inl e) = inl e
  insert_in r x [] (inr m) = elim m [ ]
  insert_in r x (y ∷ ys) (inl e) = elim (Bool-cases (is_after (compare_results locale x y))) [
    | inl after ↦ rw after (inr (insert_in r x ys (inl e)))
    | inr before ↦ rw before (inl e)
  ]
  insert_in r x (y ∷ ys) (inr (inl e)) = elim (Bool-cases (is_after (compare_results locale x y))) [
    | inl after ↦ rw after (inl e)
    | inr before ↦ rw before (inr (inl e))
  ]
  insert_in r x (y ∷ ys) (inr (inr m)) = elim (Bool-cases (is_after (compare_results locale x y))) [
    | inl after ↦ rw after (inr (insert_in r x ys (inr m)))
    | inr before ↦ rw before (inr (inr m))
  ]

  pub sort_by_in :
      (r : Result) (xs : List Result) → IsIn r xs → IsIn r (sort_by (compare_results locale) xs)
  sort_by_in r [] m = elim m [ ]
  sort_by_in r (x ∷ xs) (inl e) = insert_in r x _ (inl e)
  sort_by_in r (x ∷ xs) (inr m) = insert_in r x _ (inr (sort_by_in r xs m))
