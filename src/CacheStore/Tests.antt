-- ===== src/CacheStore/Tests.antt =====
-- Witnesses and tests for the cache.
use travel_assistant.Base.{ℕ, ◌≡◌, ◌≢◌, refl, String, some, none, List, [], ◌∷◌, arith, string_eq}
use travel_assistant.Dict.{contains}
use travel_assistant.Dict.Distinct.{Distinct}
use travel_assistant.RedisClient.{Moment, closed}
use travel_assistant.CacheStore.{Entries, get_json, set_json}
use travel_assistant.CacheStore.Laws.{
  IsBounded, get_json-set_json, Call, run, run-IsBounded, get, set, claim, drop,
}

abbrev at_wall : ℕ → Moment
at_wall t = record { wall = t; asked = t; failed = t }

-- Texts stand for themselves here.
abbrev same : String → String
same text = text

abbrev old : Entries
old = ("py:poi:oslo", (3000, "fjord")) ∷ []

old-Distinct : Distinct old
old-Distinct = (unfold contains in refl, tt)

text-ne-empty : ◌≢◌ {A = String} "spree" "empty"
text-ne-empty = ground (arith, string_eq.same_iff "spree" "empty")

get_json-set_json_example :
    (get_json same some "empty" (at_wall 61_001) none "poi" "berlin" (
      set_json same some "empty"
        (at_wall 1000)
        none
        "poi"
        "berlin"
        (some "spree")
        60
        (closed, old))).0
    ≡ none
get_json-set_json_example =
    get_json-set_json same some "empty" (at_wall 1000) (at_wall 61_001) "poi" "berlin" "spree" 60
      (closed, old) old-Distinct (omega arith) refl text-ne-empty

abbrev calls : List (Call same some "empty")
calls =
    set (at_wall 1000) none "poi" "berlin" (some "spree") 60
    ∷ get (at_wall 2000) none "poi" "oslo"
    ∷ claim (at_wall 3000) none "idem" "k" none 60
    ∷ drop (at_wall 4000) none "poi" "berlin"
    ∷ []

run-IsBounded_example : IsBounded (run same some "empty" calls (closed, old)).1
run-IsBounded_example =
    run-IsBounded same some "empty" calls (closed, old)
      (record { distinct = old-Distinct; within = omega arith })
