-- ===== src/Results/Tests.antt =====
-- The ranking of three concrete results.
use Prim.Native.Nat.{Ordering}
use swim_flow_api.Prelude.{
  ℕ, suc, String, ◌≡◌, refl, true, none, some, List, [], ◌∷◌, any, count, All, HasUnique, ltb,
}
use swim_flow_api.Results.Ranking.{Result, entry, best_results, build_ranking}
use swim_flow_api.Results.Ranks.{outranks, IsEligible, build_ranking_lem}

abbrev swum : String → String → ℕ → Result
swum id student time = record {
  id = id;
  student_id = student;
  student_name = student;
  discipline = "Piscina";
  competition_type = "Piscina";
  course_type = some "Piscina Curta";
  pool_length_meters = some 25;
  style = "Livre";
  distance = "50m";
  custom_distance = none;
  event_format = "Prova Individual";
  category = "Senior";
  time = "00:30";
  time_in_seconds = time;
  date = "2026-02-01";
  competition = "Open";
  result_status = "Classificado";
}

abbrev no_locale : String → String → Ordering
no_locale a b = Ordering.eq

abbrev swims : List Result
swims =
    swum "r1" "s1" 31000 ∷ swum "r2" "s2" 30500 ∷ swum "r3" "s1" 30500 ∷ swum "r4" "s3" 32000 ∷ []

ranked :
    build_ranking no_locale swims
    ≡ entry 1 (swum "r2" "s2" 30500)
      ∷ entry 1 (swum "r3" "s1" 30500)
      ∷ entry 3 (swum "r4" "s3" 32000)
      ∷ []
unfolding build_ranking best_results
ranked = refl

build_ranking_lem_example :
    HasUnique (λ e. e.student_id) (build_ranking no_locale swims)
    × All
        (λ e.
          e.rank
          ≡ suc (
              count (λ f. ltb f.time_in_seconds e.time_in_seconds) (build_ranking no_locale swims)))
        (build_ranking no_locale swims)
    × ((r : Result) → IsEligible swims r → any (outranks r) (build_ranking no_locale swims) ≡ true)
    × All
        (λ e. (r : Result) × IsEligible swims r × (e ≡ entry e.rank r))
        (build_ranking no_locale swims)
build_ranking_lem_example = build_ranking_lem no_locale swims
