-- ===== src/Results/Ranks.antt =====
-- The ranks that sorted results get, and what a ranking lists.
use Prim.Native.Nat.{Ordering}
use swim_flow_api.Prelude.{
  ℕ, suc, String, ◌≡◌, ◌≢◌, ◌∙◌, refl, ap, subst, Bool, true, ◌&&◌, Option, none, some, List, [],
  ◌∷◌, ◌++◌, any, count, count-append, length, filter, All, All-append, All-map, IsIn, IsIn-filter,
  HasUnique, str_eq, arith, Bool-cases, inl, inr, ◌≤◌, ◌<◌, ◌+◌, ◌==◌, ltb, leb,
}
use swim_flow_api.Results.Ranking.{
  Result, RankingEntry, is_ranked, compare_results, sort_by, keep_first, values, entry, rank_after,
  rank_from, best_results, build_ranking,
}
use swim_flow_api.Results.Order.{Sorted, sort_by-Sorted, sort_by-All, sort_by_in}
use swim_flow_api.Results.Best.{
  covers, empty-Kept, keep_first-Kept, keep_first-covers, keep_first-All,
}

abbrev faster : ℕ → Result → Bool
faster t r = ltb r.time_in_seconds t

none_faster :
    (t : ℕ) (rs : List Result) → All (λ r. t ≤ r.time_in_seconds) rs → count (faster t) rs ≡ 0
none_faster t [] h = refl
none_faster t (r ∷ rs) h = ground (arith, h.0, none_faster t rs h.1)

count_below :
    (t : ℕ) (rs : List Result)
    → All (λ r. r.time_in_seconds < t) rs
    → count (faster t) rs ≡ length rs
count_below t [] h = refl
count_below t (r ∷ rs) h = ground (arith, h.0, count_below t rs h.1)

length-append_one : (rs : List Result) (r : Result) → length (rs ++ r ∷ []) ≡ suc (length rs)
length-append_one [] r = refl
length-append_one (q ∷ rs) r = ground (arith, length-append_one rs r)

-- What the loop knows of the results `before` it: the time and rank of the last.
abbrev LastOf : Option ℕ → ℕ → List Result → Type 0
LastOf none rank before = before ≡ []
LastOf (some t) rank before =
    (rank ≡ suc (count (faster t) before)) × All (λ q. q.time_in_seconds ≤ t) before

-- The next result's rank counts the faster results before it.
rank_after_lem :
    (previous : Option ℕ) (rank : ℕ) (before : List Result) (time : ℕ)
    → LastOf previous rank before
    → All (λ q. q.time_in_seconds ≤ time) before
    → ((t : ℕ) → previous ≡ some t → t ≤ time)
    → rank_after previous rank (length before) time ≡ suc (count (faster time) before)
rank_after_lem none rank before time last below reached = rw last refl
rank_after_lem (some t) rank before time last below reached = elim (Bool-cases (time == t)) [
  | inl same ↦
      let e : time ≡ t = ground (arith, same) in
      ground (arith, same, last.0, ap (λ x. count (faster x) before) e)
  | inr differs ↦
      let later : t < time = ground (arith, differs, reached t refl) in
      ground (
        arith,
        differs,
        count_below time before (All-map _ _ before (λ q le. omega (arith, le, later)) last.1),
      )
]

count_ranked :
    (t : ℕ) (previous : Option ℕ) (rank index : ℕ) (rs : List Result)
    → count (λ e. ltb e.time_in_seconds t) (rank_from previous rank index rs) ≡ count (faster t) rs
count_ranked t previous rank index [] = refl
count_ranked t previous rank index (r ∷ rs) = ground (
  arith,
  count_ranked t (some r.time_in_seconds) (rank_after previous rank index r.time_in_seconds)
      (suc index) rs,
)

-- Each entry's rank is one more than the number of faster results.
rank_from_lem :
    (before rs : List Result) (previous : Option ℕ) (rank : ℕ)
    → Sorted rs
    → LastOf previous rank before
    → All (λ v. All (λ r. v.time_in_seconds ≤ r.time_in_seconds) rs) before
    → ((t : ℕ) → previous ≡ some t → All (λ r. t ≤ r.time_in_seconds) rs)
    → All
        (λ e.
          e.rank
          ≡ suc (count (faster e.time_in_seconds) before + count (faster e.time_in_seconds) rs))
        (rank_from previous rank (length before) rs)
rank_from_lem before [] previous rank order last below reached = tt
rank_from_lem before (r ∷ rs) previous rank order last below reached =
    let time = r.time_in_seconds in
    let heads : All (λ q. q.time_in_seconds ≤ time) before =
      All-map _ _ before (λ q h. h.0) below in
    let here = rank_after_lem previous rank before time last heads (λ t e. (reached t e).0) in
    let next = rank_after previous rank (length before) time in
    let later =
      rank_from_lem (before ++ r ∷ []) rs (some time) next order.1
        (
          ground (arith, here, count-append (faster time) before (r ∷ [])),
          All-append _ before (r ∷ []) heads (omega arith, tt),
        )
        (All-append _ before (r ∷ []) (All-map _ _ before (λ q h. h.1) below) (order.0, tt))
        (λ t e. subst (λ x. All (λ q. x ≤ q.time_in_seconds) rs) (some_same time t e) order.0) in
    let grown = length-append_one before r in
    (
      ground (arith, here, none_faster time rs order.0),
      All-map _ _ (rank_from (some time) next (suc (length before)) rs)
          (λ e h. ground (arith, h, count-append (faster e.time_in_seconds) before (r ∷ [])))
          (rw grown at later),
    )
  where
    some_same : (a b : ℕ) → some a ≡ some b → a ≡ b
    some_same a b e = cc e

ranked-All :
    (P : RankingEntry → Type 0) (Q : Result → Type 0) (previous : Option ℕ) (rank index : ℕ)
    (rs : List Result)
    → ((n : ℕ) (r : Result) → Q r → P (entry n r))
    → All Q rs
    → All P (rank_from previous rank index rs)
ranked-All P Q previous rank index [] each h = tt
ranked-All P Q previous rank index (r ∷ rs) each h = (
  each _ r h.0,
  ranked-All P Q (some r.time_in_seconds) (rank_after previous rank index r.time_in_seconds)
      (suc index) rs each h.1,
)

ranked-HasUnique :
    (previous : Option ℕ) (rank index : ℕ) (rs : List Result)
    → HasUnique (λ r. r.student_id) rs
    → HasUnique (λ e. e.student_id) (rank_from previous rank index rs)
ranked-HasUnique previous rank index [] h = tt
ranked-HasUnique previous rank index (r ∷ rs) h = (
  ranked-All (λ e. e.student_id ≢ r.student_id) (λ q. q.student_id ≢ r.student_id)
      (some r.time_in_seconds) (rank_after previous rank index r.time_in_seconds) (suc index) rs
      (λ n q other. other) h.0,
  ranked-HasUnique (some r.time_in_seconds) (rank_after previous rank index r.time_in_seconds)
      (suc index) rs h.1,
)

-- An entry that is of the student of a result and not slower.
abbrev pub outranks : Result → RankingEntry → Bool
outranks r e = str_eq e.student_id r.student_id && leb e.time_in_seconds r.time_in_seconds

ranked_covers :
    (q : Result) (previous : Option ℕ) (rank index : ℕ) (rs : List Result)
    → any (outranks q) (rank_from previous rank index rs) ≡ any (covers (λ r. r.student_id) q) rs
ranked_covers q previous rank index [] = refl
ranked_covers q previous rank index (r ∷ rs) = ground (
  arith,
  ranked_covers q (some r.time_in_seconds) (rank_after previous rank index r.time_in_seconds)
      (suc index) rs,
)

-- A result that may be ranked, of those given.
abbrev pub IsEligible : List Result → Result → Type 0
IsEligible results r = IsIn r results × (is_ranked r ≡ true)

filter-IsEligible :
    (results : List Result)
    → ((r : Result) → IsIn r results → is_ranked r ≡ true → IsEligible results r)
    → All (IsEligible results) (filter is_ranked results)
filter-IsEligible results each = go results each
  where
    go :
        (rs : List Result)
        → ((r : Result) → IsIn r rs → is_ranked r ≡ true → IsEligible results r)
        → All (IsEligible results) (filter is_ranked rs)
    go [] k = tt
    go (r ∷ rs) k = elim (Bool-cases (is_ranked r)) [
      | inl hit ↦ rw hit (k r (inl refl) hit, go rs (λ q m e. k q (inr m) e))
      | inr miss ↦ rw miss (go rs (λ q m e. k q (inr m) e))
    ]

-- A ranking lists a student once at most, with a rank one above the number of faster entries. Every
-- result that may be ranked is listed under its student with a time that is not slower, and every
-- entry is such a result.
pub build_ranking_lem :
    (locale : String → String → Ordering) (results : List Result)
    → HasUnique (λ e. e.student_id) (build_ranking locale results)
      × All
          (λ e.
            e.rank
            ≡ suc (
                count
                  (λ f. ltb f.time_in_seconds e.time_in_seconds)
                  (build_ranking locale results)))
          (build_ranking locale results)
      × ((r : Result)
          → IsEligible results r
          → any (outranks r) (build_ranking locale results) ≡ true)
      × All
          (λ e. (r : Result) × IsEligible results r × (e ≡ entry e.rank r))
          (build_ranking locale results)
unfolding build_ranking best_results
build_ranking_lem locale results =
    let listed = filter is_ranked results in
    let sorted = sort_by (compare_results locale) listed in
    let key : Result → String = λ r. r.student_id in
    let order = sort_by-Sorted locale listed in
    let kept = keep_first-Kept key [] sorted order (empty-Kept key sorted) in
    let best = values (keep_first key [] sorted) in
    let sources : All (IsEligible results) best =
      keep_first-All key (IsEligible results) [] sorted tt (
        sort_by-All locale (IsEligible results) listed
          (filter-IsEligible results (λ r m e. (m, e)))) in
    (
      ranked-HasUnique none 0 0 best kept.unique,
      All-map _ _ (rank_from none 0 0 best)
          (λ e h. ground (arith, h, count_ranked e.time_in_seconds none 0 0 best))
          (rank_from_lem [] best none 0 kept.sorted refl tt (λ t e. absurd (ground arith))),
      (λ r eligible.
          ranked_covers r none 0 0 best
          ∙ keep_first-covers key [] sorted r order (empty-Kept key sorted)
              (sort_by_in locale r listed (IsIn-filter is_ranked r results eligible.0 eligible.1))),
      ranked-All (λ e. (r : Result) × IsEligible results r × (e ≡ entry e.rank r))
          (IsEligible results) none 0 0 best (λ n r h. (r, h, refl)) sources,
    )
