-- ===== src/ItineraryVersion/Tests.antt =====
-- Snapshots of a trip, and the theorems at inputs.
use travel_assistant.Base.{
  ℕ, ◌≡◌, refl, false, none, some, List, [], ◌∷◌, arith, String, string_eq, nat_eq, str, keep, any,
  length, All,
}
use travel_assistant.Dict.{lookup, insert}
use travel_assistant.DayPersistence.{Main, first_chars}
use travel_assistant.CollaborationService.{
  Team, find_main, member_of, member_role, require_writable_main,
}
use travel_assistant.ItineraryVersion.{
  Version, versions_of, newest, latest, Request, new_version, taken, write_snapshot, created,
  attempts, create_snapshot,
}
use travel_assistant.ItineraryVersion.Numbering.{
  Store, Event, reads, flushes, flush, step, run, IsOrderly, run-IsOrderly,
}
use travel_assistant.ItineraryVersion.Retry.{OthersAdd, Ending, create_snapshot-Ending}
use travel_assistant.ItineraryVersion.Diff.{
  DaySnapshot, updated, removed, item_key, index_items, index_days, item_index, removals, additions,
  item_changes,
}
use travel_assistant.ItineraryVersion.Diff.Laws.{apply}
use travel_assistant.ItineraryVersion.Diff.Faithful.{Faithful, item_changes-Faithful}

abbrev trip : Main
trip = record {
  id = 5;
  user_id = 1;
  city = "Chengdu";
  days = 2;
  status = 2;
  gen_state = none;
  gen_resumed = false;
  gen_started_at = none;
  gen_finished_at = none;
  title = none;
  plan_note = none;
  trip_theme = none;
  origin_city = none;
}

abbrev team : Team
team = record { mains = trip ∷ []; invitations = []; members = [] }

abbrev request : Request
request = record {
  user_id = 1;
  itinerary_id = 5;
  operation = some "reorder";
  summary = some "before";
  snapshot_json = "{}";
}

abbrev first_version : Version
first_version = record {
  id = 40;
  itinerary_id = 5;
  user_id = 1;
  parent_version_id = none;
  version_no = 1;
  operation = "create";
  summary = "new";
  snapshot_json = "{}";
}

abbrev nobody_else : ℕ → List Version → List Version
nobody_else n rows = rows

test_second :
    create_snapshot request 41 team nobody_else (first_version ∷ [])
    ≡ created
        (record {
          id = 41;
          itinerary_id = 5;
          user_id = 1;
          parent_version_id = some 40;
          version_no = 2;
          operation = "reorder";
          summary = "before";
          snapshot_json = "{}";
        })
        (record {
          id = 41;
          itinerary_id = 5;
          user_id = 1;
          parent_version_id = some 40;
          version_no = 2;
          operation = "reorder";
          summary = "before";
          snapshot_json = "{}";
        }
          ∷ first_version
          ∷ [])
unfolding create_snapshot attempts write_snapshot require_writable_main find_main member_role
    member_of latest newest versions_of new_version taken keep any first_chars
test_second = refl

nobody_else-OthersAdd : OthersAdd request 41 team nobody_else
nobody_else-OthersAdd n rows c = (c, omega arith, λ e. refl)

create_snapshot-Ending_example :
    Ending request 41 team nobody_else 3
      (first_version ∷ [])
      (create_snapshot request 41 team nobody_else (first_version ∷ []))
unfolding versions_of keep
create_snapshot-Ending_example =
    create_snapshot-Ending request 41 team nobody_else (first_version ∷ []) nobody_else-OthersAdd
      (refl, refl, tt)

abbrev empty : Store
empty = record { rows = []; drafts = λ w. none }

empty-IsOrderly : IsOrderly empty
unfolding versions_of keep
empty-IsOrderly = (λ itinerary_id. tt, λ w. tt)

-- Two writers read before either inserts; the second insert is refused.
abbrev race : List Event
race = reads 1 request ∷ reads 2 request ∷ flushes 1 40 ∷ flushes 2 41 ∷ []

test_race : length (run race empty).rows ≡ 1
unfolding run step flush latest newest versions_of new_version taken keep any first_chars
test_race = refl

run-IsOrderly_example : IsOrderly (run race empty)
run-IsOrderly_example = run-IsOrderly race empty empty-IsOrderly

abbrev before : List (DaySnapshot ℕ)
before =
    record {
      day_no = some 1;
      items =
          record { id = some 7; poi_name = none; value = 30 }
          ∷ record { id = some 8; poi_name = none; value = 31 }
          ∷ [];
    }
    ∷ []

abbrev after : List (DaySnapshot ℕ)
after =
    record { day_no = some 1; items = record { id = some 8; poi_name = none; value = 32 } ∷ [] }
    ∷ []

item_changes-Faithful_example :
    ((k : String)
      → lookup k (apply (item_changes (item_index before) (item_index after)) (item_index before))
        ≡ lookup k (item_index after))
    × All
        (Faithful (item_index before) (item_index after))
        (item_changes (item_index before) (item_index after))
item_changes-Faithful_example = item_changes-Faithful before after

test_changes :
    item_changes (item_index before) (item_index after)
    ≡ record { kind = removed; key = "1:7"; before = some 30; after = none }
      ∷ record { kind = updated; key = "1:8"; before = some 31; after = some 32 }
      ∷ []
unfolding item_changes item_index index_days index_items item_key insert removals additions lookup
    str
test_changes = refl
