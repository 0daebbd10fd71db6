-- ===== src/ItineraryCommand/Tests.antt =====
-- Edits of a small trip, and the theorems at inputs.
use travel_assistant.Base.{
  ◌==◌, not, ℕ, suc, ◌≡◌, refl, String, true, false, none, some, List, [], ◌∷◌, string_eq, nat_eq,
  str, keep, any, all, length, ◌+ₛ◌,
}
use travel_assistant.Count.{count}
use travel_assistant.Dict.{contains, lookup, insert}
use travel_assistant.Dict.Evict.{sort_by}
use travel_assistant.DayPersistence.{Texts, Main, Day, first_chars}
use travel_assistant.CollaborationService.{
  find_main, member_of, member_role, require_writable_main, require_owned_main,
}
use travel_assistant.ItineraryVersion.{
  Version, versions_of, newest, latest, new_version, taken, write_snapshot, attempts,
  create_snapshot,
}
use travel_assistant.ItineraryCommand.{
  Row, Upsert, Tables, api_error, failed, tables, Services, NewIds, short_name, validate, shown,
  find_item, find_day, snapshot,
}
use travel_assistant.ItineraryCommand.Edits.{check_update, update_item, summary_before}
use travel_assistant.ItineraryCommand.Edits.Laws.{Before, Updates, others_than, update_item-Last}
use travel_assistant.ItineraryCommand.Order.{
  ids_of, existing, names_all, check_order, by_name, pair_names, all_buckets, ordered_ids,
  check_day, reorder_items, optimize_day,
}
use travel_assistant.ItineraryCommand.Order.Laws.{InPlace, unnamed, reorder_items-InPlace}
use travel_assistant.ItineraryCommand.Order.Optimized.{optimize_day-InPlace}
use travel_assistant.ItineraryCommand.Recorded.{Recorded}
use travel_assistant.ItineraryCommand.Cascade.{
  Trips, gone, delete_itinerary, trip_items, other_items, other_rows, delete_itinerary-Gone,
}
use travel_assistant.ItineraryCommand.Runs.{reorders, edit, edit-Recorded_all}

abbrev texts : Texts
texts = record { strip = λ t. t; contains = λ a b. false; remove = λ a b. b }

-- The text of a snapshot says nothing here, and the other modules do nothing.
abbrev services : Services String ℕ
services = record {
  texts = texts;
  details = λ user_id itinerary_id s. "{}";
  invalidate_pending_actions = λ user_id itinerary_id n. suc n;
  recalculate = λ itinerary_id items n. n;
  apply_suggestion_used = λ itinerary_id poi_id name used team. team;
}

abbrev trip : Main
trip = record {
  id = 5;
  user_id = 1;
  city = "Chengdu";
  days = 2;
  status = 2;
  gen_state = none;
  gen_resumed = false;
  gen_started_at = none;
  gen_finished_at = none;
  title = none;
  plan_note = none;
  trip_theme = none;
  origin_city = none;
}

abbrev day : ℕ → ℕ → Day
day id day_no = record {
  id = id;
  itinerary_id = 5;
  day_no = day_no;
  note = none;
  metadata_json = none;
  generation_action_id = none;
  generation_fingerprint = none;
  generation_status = none;
  generation_error = none;
}

abbrev entry : ℕ → ℕ → String → ℕ → Row String
entry id day_id name sort_no = record {
  id = id;
  itinerary_id = 5;
  day_id = day_id;
  item_type = "food";
  poi_name = name;
  columns = some "p" ∷ none ∷ [];
  sort_no = sort_no;
  deleted = false;
}

abbrev before : Tables String ℕ
before = record {
  team = record { mains = trip ∷ []; invitations = []; members = [] };
  days = day 11 1 ∷ day 12 2 ∷ [];
  items = entry 21 11 "a" 0 ∷ entry 22 11 "b" 1 ∷ entry 23 12 "c" 4 ∷ [];
  versions = [];
  others = 0;
}

abbrev ids : NewIds
ids = record { before = 31; item = 24; later = 32 }

abbrev first_version : String → String → Version
first_version operation summary = record {
  id = 31;
  itinerary_id = 5;
  user_id = 1;
  parent_version_id = none;
  version_no = 1;
  operation = operation;
  summary = summary;
  snapshot_json = "{}";
}

abbrev with_version : String → String → Tables String ℕ
with_version operation summary = record before { versions = first_version operation summary ∷ [] }

swapped :
    reorder_items services ids 1 5 (some 11) (some (22 ∷ 22 ∷ [])) before
    ≡ failed (api_error 400 "行程项顺序必须包含该日期的全部行程项") before
unfolding reorder_items require_writable_main find_main member_role member_of check_order names_all
    existing keep contains all
swapped = refl

reorder_items-InPlace_example :
    InPlace (22 ∷ 21 ∷ []) (
      existing 5 11
        (tables (reorder_items services ids 1 5 (some 11) (some (22 ∷ 21 ∷ [])) before)).items)
    × (length (
          existing 5 11
            (tables (reorder_items services ids 1 5 (some 11) (some (22 ∷ 21 ∷ [])) before)).items)
        ≡ 2)
    × (unnamed
          (22 ∷ 21 ∷ [])
          (tables (reorder_items services ids 1 5 (some 11) (some (22 ∷ 21 ∷ [])) before)).items
        ≡ unnamed (22 ∷ 21 ∷ []) before.items)
unfolding require_writable_main find_main member_role member_of names_all existing keep contains all
    snapshot create_snapshot attempts write_snapshot latest newest versions_of new_version taken any
    first_chars
reorder_items-InPlace_example =
    reorder_items-InPlace services ids 1 5 11 (22 ∷ 21 ∷ []) before
      (with_version "reorder" "调整行程顺序前快照") trip refl refl refl

abbrev by_plan : ℕ → List (Row String) → List String
by_plan day_no rows = "b" ∷ "x" ∷ "b" ∷ []

optimize_day-InPlace_example :
    ((x : ℕ)
      → count x (ordered_ids (by_plan 1 before.items) (entry 21 11 "a" 0 ∷ entry 22 11 "b" 1 ∷ []))
        ≡ count x (ids_of (existing 5 11 before.items)))
    × InPlace
        (ordered_ids (by_plan 1 before.items) (entry 21 11 "a" 0 ∷ entry 22 11 "b" 1 ∷ []))
        (existing 5 11 (tables (optimize_day services true by_plan ids 1 5 11 before)).items)
    × (unnamed
          (ordered_ids (by_plan 1 before.items) (entry 21 11 "a" 0 ∷ entry 22 11 "b" 1 ∷ []))
          (tables (optimize_day services true by_plan ids 1 5 11 before)).items
        ≡ unnamed
            (ordered_ids (by_plan 1 before.items) (entry 21 11 "a" 0 ∷ entry 22 11 "b" 1 ∷ []))
            before.items)
unfolding require_writable_main find_main member_role member_of check_day find_day sort_by existing
    keep snapshot create_snapshot attempts write_snapshot latest newest versions_of new_version
    taken any first_chars str
optimize_day-InPlace_example =
    optimize_day-InPlace services by_plan ids 1 5 11 before
      (with_version "optimize" ("优化路线前快照（第 " +ₛ (str 1 +ₛ " 天）"))) trip (day 11 1)
      (entry 21 11 "a" 0 ∷ entry 22 11 "b" 1 ∷ []) refl refl refl

test_ordered :
    ordered_ids ("b" ∷ "x" ∷ "b" ∷ []) (entry 21 11 "a" 0 ∷ entry 22 11 "b" 1 ∷ []) ≡ 22 ∷ 21 ∷ []
unfolding ordered_ids pair_names by_name all_buckets lookup insert
test_ordered = refl

abbrev to_second : Upsert String
to_second = record {
  day_id = some 12;
  item_type = none;
  poi_name = none;
  cost = none;
  duration_min = none;
  fields = none ∷ some "q" ∷ [];
}

update_item-Last_example :
    (new : Row String) × (find_item 21
        (tables (update_item services ids 1 21 (some to_second) before)).items
      ≡ some new)
    × (new.day_id ≡ 12)
    × Before new.sort_no (shown 12 before.items)
    × Updates texts to_second (entry 21 11 "a" 0) new
    × (others_than 21 (tables (update_item services ids 1 21 (some to_second) before)).items
        ≡ others_than 21 before.items)
unfolding find_item require_writable_main find_main member_role member_of check_update validate
    short_name find_day keep snapshot create_snapshot attempts write_snapshot latest newest
    versions_of new_version taken any first_chars str
update_item-Last_example =
    update_item-Last services ids 1 21 (some to_second) before
      (with_version "move_item" (summary_before (some (day 12 2)))) trip (entry 21 11 "a" 0)
      to_second (day 12 2) refl refl refl refl

edit-Recorded_all_example : Recorded services 1 before (
    edit services
      (none ∷ none ∷ [])
      true
      by_plan
      ids
      1
      (reorders 5 (some 11) (some (22 ∷ 21 ∷ [])))
      before)
edit-Recorded_all_example =
    edit-Recorded_all services (none ∷ none ∷ []) true by_plan ids 1
      (reorders 5 (some 11) (some (22 ∷ 21 ∷ []))) before

abbrev all_rows : Trips String ℕ String
all_rows = record {
  base = before;
  budgets =
      record { itinerary_id = 5; content = "food" }
      ∷ record { itinerary_id = 6; content = "hotel" }
      ∷ [];
  chats = record { itinerary_id = 5; content = "hello" } ∷ [];
}

delete_itinerary-Gone_example :
    (q : Trips String ℕ String) × (delete_itinerary services ids 1 5 all_rows ≡ gone q)
    × (keep (λ m. m.id == 5) q.base.team.mains ≡ [])
    × (keep (λ d. d.itinerary_id == 5) q.base.days ≡ [])
    × (trip_items 5 q.base.items ≡ [])
    × (keep (λ row. row.itinerary_id == 5) q.budgets ≡ [])
    × (keep (λ row. row.itinerary_id == 5) q.chats ≡ [])
    × (keep (λ m. not (m.id == 5)) q.base.team.mains
        ≡ keep (λ m. not (m.id == 5)) before.team.mains)
    × (keep (λ d. not (d.itinerary_id == 5)) q.base.days
        ≡ keep (λ d. not (d.itinerary_id == 5)) before.days)
    × (other_items 5 q.base.items ≡ other_items 5 before.items)
    × (other_rows 5 q.budgets ≡ other_rows 5 all_rows.budgets)
    × (other_rows 5 q.chats ≡ other_rows 5 all_rows.chats)
unfolding require_owned_main require_writable_main find_main member_role member_of keep snapshot
    create_snapshot attempts write_snapshot latest newest versions_of new_version taken any
    first_chars
delete_itinerary-Gone_example =
    delete_itinerary-Gone services ids 1 5 all_rows (with_version "delete" "删除行程前快照") trip refl refl
