-- ===== src/DayPersistence/Tests.antt =====
-- Witnesses and tests for the persistence of days.
use travel_assistant.Base.{
  ℕ, ◌≡◌, ◌≢◌, refl, String, true, false, none, some, List, [], ◌∷◌, arith, string_eq, keep,
}
use travel_assistant.GenerationGate.{verify_action, other_action, failed}
use travel_assistant.DayPersistence.{
  Texts, Day, PlanItem, Plan, Database, refused, raised, returned, after, find_day, day_by_id,
  build_item, is_succeeded, stay_nights,
}
use travel_assistant.DayPersistence.Writes.{
  persist, hard_delivery_blockers, mark_running, mark_failed, reset_day_pending, unfinished_day_nos,
}
use travel_assistant.DayPersistence.Items.{live, elsewhere, numbered, stays, persist-live}
use travel_assistant.DayPersistence.Gate.{written, Open, persist-persist, persist-other_action}

abbrev texts : Texts
texts = record { strip = λ s. s; contains = λ t s. false; remove = λ t s. s }

abbrev no_issues : ℕ → Plan ℕ → List String
no_issues day_no plan = []

abbrev second : Day
second = record {
  id = 12;
  itinerary_id = 7;
  day_no = 2;
  note = none;
  metadata_json = none;
  generation_action_id = none;
  generation_fingerprint = none;
  generation_status = some failed;
  generation_error = some "timeout";
}

abbrev entry : String → String → ℕ → PlanItem ℕ
entry kind name rest = record {
  item_type = kind;
  poi_name = some name;
  why_this = none;
  image = none;
  verification_status = none;
  value_kind = none;
  freshness_status = some "fresh";
  review_requirement = none;
  rest = rest;
}

abbrev plan : Plan ℕ
plan = record {
  note = some "day two";
  metadata = none;
  items = entry "sight" "museum" 1 ∷ entry "hotel" "inn" 2 ∷ entry "food" "noodles" 3 ∷ [];
}

abbrev db : Database ℕ
db = record {
  mains = [];
  days = second ∷ [];
  items =
      build_item texts 7 12 (entry "sight" "half done" 0) 0
      ∷ build_item texts 7 11 (entry "sight" "gate" 0) 0
      ∷ [];
}

found : find_day 7 2 db.days ≡ some second
unfolding find_day keep
found = refl

by_id : day_by_id 12 db.days ≡ some second
unfolding day_by_id keep
by_id = refl

let_in : verify_action none none "day-7-2" "f" ≡ none
unfolding verify_action
let_in = refl

undone : is_succeeded second.generation_status ≡ false
unfolding is_succeeded
undone = refl

open_day : Open texts no_issues 7 (some 1) (some 2) 2 plan "day-7-2" "f" true db second
unfolding is_succeeded
open_day = record { found = found; by_id = by_id; let_in = let_in; undone = refl }

persist-live_example :
    (live texts 7 12
        (after (persist texts no_issues 7 (some 1) (some 2) 2 plan "day-7-2" "f" true db) db).items
      ≡ numbered texts 7 12 0
          (keep (stays texts 7 12 2 (stay_nights (some 1) (some 2))) plan.items))
    × (elsewhere texts 7 12
          (after
            (persist texts no_issues 7 (some 1) (some 2) 2 plan "day-7-2" "f" true db)
            db).items
        ≡ elsewhere texts 7 12 db.items)
unfolding is_succeeded
persist-live_example =
    persist-live texts no_issues 7 (some 1) (some 2) 2 plan "day-7-2" "f" true db second found
      let_in refl

two_entries :
    numbered texts 7 12 0 (keep (stays texts 7 12 2 (stay_nights (some 1) (some 2))) plan.items)
    ≡ build_item texts 7 12 (entry "sight" "museum" 1) 0
      ∷ build_item texts 7 12 (entry "food" "noodles" 3) 1
      ∷ []
unfolding numbered keep stay_nights build_item
two_entries = refl

persist-persist_example :
    persist texts no_issues 7
      (some 1)
      (some 2)
      2
      plan
      "day-7-2"
      "f"
      false
      (written texts no_issues 7 (some 1) (some 2) 2 plan "day-7-2" "f" true db second)
    ≡ returned (written texts no_issues 7 (some 1) (some 2) 2 plan "day-7-2" "f" true db second)
persist-persist_example =
    persist-persist texts no_issues 7 (some 1) (some 2) 2 plan "day-7-2" "f" true db second plan
      open_day clean
  where
    clean : hard_delivery_blockers texts no_issues 2 plan ≡ []
    clean = unfold hard_delivery_blockers keep in refl

persist-other_action_example :
    (persist texts no_issues 7
        (some 1)
        (some 2)
        2
        plan
        "day-7-2-b"
        "f"
        true
        (written texts no_issues 7 (some 1) (some 2) 2 plan "day-7-2" "f" true db second)
      ≡ raised (refused other_action))
    × ((mark_running 12 "day-7-2-b" "f"
            (written texts no_issues 7 (some 1) (some 2) 2 plan "day-7-2" "f" true db second)
          ≡ raised (refused other_action))
        × ((mark_failed 12 "day-7-2-b" "f" none
                (written texts no_issues 7 (some 1) (some 2) 2 plan "day-7-2" "f" true db second)
              ≡ raised (refused other_action))
            × (reset_day_pending texts 12 "day-7-2-b" "f" none
                  (written texts no_issues 7 (some 1) (some 2) 2 plan "day-7-2" "f" true db second)
                ≡ raised (refused other_action))))
persist-other_action_example =
    persist-other_action texts no_issues 7 (some 1) (some 2) 2 plan "day-7-2" "f" true db second
      plan "day-7-2-b" "f" true none open_day new
  where
    new : ◌≢◌ {A = String} "day-7-2" "day-7-2-b"
    new = ground (arith, string_eq.same_iff "day-7-2" "day-7-2-b")

one_left : unfinished_day_nos 7 db ≡ 2 ∷ []
unfolding unfinished_day_nos
one_left = refl
