-- ===== src/Results/Best.antt =====
-- The first results of each key, of sorted results: one for each key, and none is faster.
use swim_flow_api.Prelude.{
  String, ◌≡◌, ◌≢◌, ◌∙◌, refl, sym, ap, subst, Bool, true, ◌&&◌, none, some, List, [], ◌∷◌, ◌++◌,
  any, any-append, All, All-append, All-map, All-at, IsIn, any_of_IsIn, HasUnique, HasUnique-append,
  str_eq, eq_iff, arith, Bool-cases, Option-cases, inl, inr, ◌≤◌, leb, is_none, if◌then◌else◌,
  Entries, lookup, insert,
}
use swim_flow_api.Results.Ranking.{Result, keep_first, values}
use swim_flow_api.Results.Order.{Sorted, Sorted-append}

-- A kept result of the same key that is not slower.
abbrev pub covers : (Result → String) → Result → Result → Bool
covers key r v = str_eq (key v) (key r) && leb v.time_in_seconds r.time_in_seconds

module _ (key : Result → String) where
  insert_absent :
      (k : String) (r : Result) (m : Entries Result)
      → lookup k m ≡ none
      → values (insert k r m) ≡ values m ++ r ∷ []
  insert_absent k r [] h = refl
  insert_absent k r ((j, v) ∷ m) h = elim (Bool-cases (str_eq j k)) [
    | inl same ↦ absurd (ground (arith, same, h))
    | inr other ↦ rw other (ap (λ vs. v ∷ vs) (insert_absent k r m (ground (arith, other, h))))
  ]

  -- Every entry stands under the key of its result.
  abbrev pub Keyed : Entries Result → Type 0
  Keyed m = All (λ e. e.0 ≡ key e.1) m

  insert-Keyed : (r : Result) (m : Entries Result) → Keyed m → Keyed (insert (key r) r m)
  insert-Keyed r [] h = (refl, tt)
  insert-Keyed r ((j, v) ∷ m) h = elim (Bool-cases (str_eq j (key r))) [
    | inl same ↦ rw same (refl, h.1)
    | inr other ↦ rw other (h.0, insert-Keyed r m h.1)
  ]

  lookup_absent :
      (k : String) (m : Entries Result)
      → Keyed m
      → lookup k m ≡ none
      → All (λ v. key v ≢ k) (values m)
  lookup_absent k [] h missing = tt
  lookup_absent k ((j, v) ∷ m) h missing = elim (Bool-cases (str_eq j k)) [
    | inl same ↦ absurd (ground (arith, same, missing))
    | inr other ↦ (
      (λ e. absurd (ground (arith, other, (eq_iff j k).1 (h.0 ∙ e)))),
      lookup_absent k m h.1 (ground (arith, other, missing)),
    )
  ]

  lookup_present :
      (k : String) (m : Entries Result) (v : Result)
      → Keyed m
      → lookup k m ≡ some v
      → IsIn v (values m) × (key v ≡ k)
  lookup_present k [] v h found = absurd (ground arith)
  lookup_present k ((j, w) ∷ m) v h found = elim (Bool-cases (str_eq j k)) [
    | inl same ↦
        let own : w ≡ v = ground (arith, same, found) in
        (inl (sym own), ap key (sym own) ∙ sym h.0 ∙ (eq_iff j k).0 same)
    | inr other ↦
        let (m_in, e) = lookup_present k m v h.1 (ground (arith, other, found)) in (inr m_in, e)
  ]

  -- What holds of the map while the sorted results `rs` are still to come.
  pub record Kept (m : Entries Result) (rs : List Result) : Type 0 where
    pub keyed : Keyed m
    pub unique : HasUnique key (values m)
    pub sorted : Sorted (values m)
    pub below : All (λ v. All (λ r. v.time_in_seconds ≤ r.time_in_seconds) rs) (values m)

  next_map : Entries Result → Result → Entries Result
  next_map m r = if is_none (lookup (key r) m) then insert (key r) r m else m

  next_map-Kept :
      (m : Entries Result) (r : Result) (rs : List Result)
      → Sorted (r ∷ rs)
      → Kept m (r ∷ rs)
      → Kept (next_map m r) rs
  unfolding next_map
  next_map-Kept m r rs order k = elim (Option-cases (lookup (key r) m)) [
    | inr (v, found) ↦ rw found (record {
      keyed = k.keyed;
      unique = k.unique;
      sorted = k.sorted;
      below = All-map _ _ (values m) (λ v h. h.1) k.below;
    })
    | inl missing ↦
        let added : values (insert (key r) r m) ≡ values m ++ r ∷ [] =
          insert_absent (key r) r m missing in
        rw missing (record {
          keyed = insert-Keyed r m k.keyed;
          unique = subst (HasUnique key) (sym added) (
              HasUnique-append key (values m) r k.unique (lookup_absent (key r) m k.keyed missing));
          sorted =
              subst Sorted (sym added)
                (Sorted-append (values m) r k.sorted (All-map _ _ (values m) (λ v h. h.0) k.below));
          below =
              subst (All (λ v. All (λ q. v.time_in_seconds ≤ q.time_in_seconds) rs)) (sym added) (
                All-append _ (values m) (r ∷ []) (All-map _ _ (values m) (λ v h. h.1) k.below)
                  (order.0, tt));
        })
  ]

  next_map_keeps :
      (m : Entries Result) (r q : Result)
      → any (covers key q) (values m) ≡ true
      → any (covers key q) (values (next_map m r)) ≡ true
  unfolding next_map
  next_map_keeps m r q h = elim (Option-cases (lookup (key r) m)) [
    | inr (v, found) ↦ rw found h
    | inl missing ↦ ground (
      arith,
      missing,
      ap (any (covers key q)) (insert_absent (key r) r m missing),
      any-append (covers key q) (values m) (r ∷ []),
      h,
    )
  ]

  next_map-covers :
      (m : Entries Result) (r : Result) (rs : List Result)
      → Kept m (r ∷ rs)
      → any (covers key r) (values (next_map m r)) ≡ true
  unfolding next_map
  next_map-covers m r rs k = elim (Option-cases (lookup (key r) m)) [
    | inr (v, found) ↦
        let (listed, same) = lookup_present (key r) m v k.keyed found in
        let le : v.time_in_seconds ≤ r.time_in_seconds = (All-at _ (values m) v k.below listed).0 in
        rw found (
          any_of_IsIn (covers key r) (values m) v listed
            (ground (arith, (eq_iff (key v) (key r)).1 same, le)))
    | inl missing ↦ ground (
      arith,
      missing,
      ap (any (covers key r)) (insert_absent (key r) r m missing),
      any-append (covers key r) (values m) (r ∷ []),
      (eq_iff (key r) (key r)).1 refl,
    )
  ]

  pub keep_first-Kept :
      (m : Entries Result) (rs : List Result)
      → Sorted rs
      → Kept m rs
      → Kept (keep_first key m rs) []
  unfolding next_map
  keep_first-Kept m [] order k = k
  keep_first-Kept m (r ∷ rs) order k =
      keep_first-Kept (next_map m r) rs order.1 (next_map-Kept m r rs order k)

  keep_first_keeps :
      (m : Entries Result) (rs : List Result) (q : Result)
      → any (covers key q) (values m) ≡ true
      → any (covers key q) (values (keep_first key m rs)) ≡ true
  unfolding next_map
  keep_first_keeps m [] q h = h
  keep_first_keeps m (r ∷ rs) q h = keep_first_keeps (next_map m r) rs q (next_map_keeps m r q h)

  pub keep_first-covers :
      (m : Entries Result) (rs : List Result) (q : Result)
      → Sorted rs
      → Kept m rs
      → IsIn q rs
      → any (covers key q) (values (keep_first key m rs)) ≡ true
  unfolding next_map
  keep_first-covers m [] q order k listed = elim listed [ ]
  keep_first-covers m (r ∷ rs) q order k (inl e) =
      rw e (keep_first_keeps (next_map m r) rs r (next_map-covers m r rs k))
  keep_first-covers m (r ∷ rs) q order k (inr listed) =
      keep_first-covers (next_map m r) rs q order.1 (next_map-Kept m r rs order k) listed

  next_map-All :
      (P : Result → Type 0) (m : Entries Result) (r : Result)
      → All P (values m)
      → P r
      → All P (values (next_map m r))
  unfolding next_map
  next_map-All P m r h hr = elim (Option-cases (lookup (key r) m)) [
    | inr (v, found) ↦ rw found h
    | inl missing ↦ rw missing (
        subst (All P) (sym (insert_absent (key r) r m missing))
          (All-append P (values m) (r ∷ []) h (hr, tt)))
  ]

  pub keep_first-All :
      (P : Result → Type 0) (m : Entries Result) (rs : List Result)
      → All P (values m)
      → All P rs
      → All P (values (keep_first key m rs))
  unfolding next_map
  keep_first-All P m [] h k = h
  keep_first-All P m (r ∷ rs) h k =
      keep_first-All P (next_map m r) rs (next_map-All P m r h k.0) k.1

  pub empty-Kept : (rs : List Result) → Kept [] rs
  empty-Kept rs = record { keyed = tt; unique = tt; sorted = tt; below = tt }
