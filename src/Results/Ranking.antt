-- ===== src/Results/Ranking.antt =====
-- ResultRankingPolicy (src/domain/results/application/services/result-ranking-policy.ts). A time is
-- counted in thousandths of a second; localeCompare is a parameter, as the sign of its answer.
use Prim.Native.Nat.{compare, Ordering}
use swim_flow_api.Prelude.{
  ℕ, suc, String, Bool, true, false, not, ◌&&◌, ◌||◌, Option, none, some, List, [], ◌∷◌, filter,
  str_eq, truthy, is_none, ltb, ◌==◌, if◌then◌else◌, Entries, lookup, insert,
}

-- The fields that the policy reads.
pub record Result : Type 0 where
  pub id : String
  pub student_id : String
  pub student_name : String
  pub discipline : String
  pub competition_type : String
  pub course_type : Option String
  pub pool_length_meters : Option ℕ
  pub style : String
  pub distance : String
  pub custom_distance : Option String
  pub event_format : String
  pub category : String
  pub time : String
  pub time_in_seconds : ℕ
  pub date : String
  pub competition : String
  pub result_status : String

pub record RankingEntry : Type 0 where
  pub rank : ℕ
  pub result_id : String
  pub student_id : String
  pub student_name : String
  pub discipline : String
  pub competition_type : String
  pub course_type : Option String
  pub style : String
  pub distance : String
  pub custom_distance : Option String
  pub event_format : String
  pub category : String
  pub time : String
  pub time_in_seconds : ℕ
  pub date : String
  pub competition : String

abbrev pub has_length : Option ℕ → Bool
has_length none = false
has_length (some n) = ltb 0 n

-- The filter of both policies.
abbrev pub is_ranked : Result → Bool
is_ranked r =
    str_eq r.result_status "Classificado"
    && ltb 0 r.time_in_seconds
    && str_eq r.discipline "Piscina"
    && str_eq r.event_format "Prova Individual"
    && (truthy r.course_type || has_length r.pool_length_meters)

-- The comparator: time, then date, then name.
abbrev pub compare_results : (String → String → Ordering) → Result → Result → Ordering
compare_results locale left right =
    if not (left.time_in_seconds == right.time_in_seconds)
    then compare left.time_in_seconds right.time_in_seconds
    else if not (str_eq left.date right.date)
    then locale left.date right.date
    else locale left.student_name right.student_name

abbrev pub is_after : Ordering → Bool
is_after Ordering.gt = true
is_after _ = false

-- Array.prototype.sort, which is stable.
abbrev pub insert_by : {A : Type 0} → (A → A → Ordering) → A → List A → List A
insert_by by x [] = x ∷ []
insert_by by x (y ∷ ys) =
    let rest = insert_by by x ys in if is_after (by x y) then y ∷ rest else x ∷ y ∷ ys

abbrev pub sort_by : {A : Type 0} → (A → A → Ordering) → List A → List A
sort_by by [] = []
sort_by by (x ∷ xs) = insert_by by x (sort_by by xs)

-- The first result of each key, in the order of a Map.
abbrev pub keep_first : (Result → String) → Entries Result → List Result → Entries Result
keep_first key m [] = m
keep_first key m (r ∷ rs) =
    keep_first key (if is_none (lookup (key r) m) then insert (key r) r m else m) rs

abbrev pub values : Entries Result → List Result
values [] = []
values ((k, r) ∷ m) = r ∷ values m

abbrev pub entry : ℕ → Result → RankingEntry
entry rank r = record {
  rank = rank;
  result_id = r.id;
  student_id = r.student_id;
  student_name = r.student_name;
  discipline = r.discipline;
  competition_type = r.competition_type;
  course_type = r.course_type;
  style = r.style;
  distance = r.distance;
  custom_distance = r.custom_distance;
  event_format = r.event_format;
  category = r.category;
  time = r.time;
  time_in_seconds = r.time_in_seconds;
  date = r.date;
  competition = r.competition;
}

-- A result with the time of the one before it shares its rank.
abbrev pub rank_after : Option ℕ → ℕ → ℕ → ℕ → ℕ
rank_after none previous_rank index time = suc index
rank_after (some t) previous_rank index time = if time == t then previous_rank else suc index

abbrev pub rank_from : Option ℕ → ℕ → ℕ → List Result → List RankingEntry
rank_from previous previous_rank index [] = []
rank_from previous previous_rank index (r ∷ rs) =
    let rank = rank_after previous previous_rank index r.time_in_seconds in
    entry rank r ∷ rank_from (some r.time_in_seconds) rank (suc index) rs

unfoldable pub best_results : (String → String → Ordering) → List Result → List Result
best_results locale results = values (
    keep_first (λ r. r.student_id) [] (sort_by (compare_results locale) (filter is_ranked results)))

-- build
unfoldable pub build_ranking : (String → String → Ordering) → List Result → List RankingEntry
build_ranking locale results = rank_from none 0 0 (best_results locale results)
