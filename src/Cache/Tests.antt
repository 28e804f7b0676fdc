-- ===== src/Cache/Tests.antt =====
-- The cache on a concrete history.
use swim_flow_api.Prelude.{◌≡◌, refl, some, none, List, [], ◌∷◌}
use swim_flow_api.Cache.Memory.{get_entry}
use swim_flow_api.Cache.Latest.{
  Call, setting, getting, deleting_all, run_calls, visible, latest, get_entry-latest,
}

abbrev calls : List Call
calls =
    deleting_all "classes:list:"
    ∷ getting "students:list:1:20" 2000
    ∷ setting "students:list:1:20" "[]" (some 60) 1000
    ∷ setting "classes:list:1:20" "[]" none 500
    ∷ []

get_entry-latest_example :
    (get_entry "students:list:1:20" 3000 (run_calls calls)).0
    ≡ visible 3000 (latest "students:list:1:20" calls)
get_entry-latest_example =
    get_entry-latest 3000 "students:list:1:20" calls (refl, (refl, (refl, (refl, tt))))

seen : visible 3000 (latest "students:list:1:20" calls) ≡ some "[]"
seen = refl

expired : visible 61000 (latest "students:list:1:20" calls) ≡ none
expired = refl
