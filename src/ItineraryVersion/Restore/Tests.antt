-- ===== src/ItineraryVersion/Restore/Tests.antt =====
-- A return to a version of two days, and the theorem at it.
use travel_assistant.Base.{
  ℕ, suc, ◌≡◌, refl, String, false, not, Option, none, some, [], ◌∷◌, arith, string_eq, nat_eq, str,
  keep, any, ◌==◌,
}
use travel_assistant.Dict.{insert}
use travel_assistant.GenerationGate.{succeeded, pending}
use travel_assistant.DayPersistence.{Main, first_chars}
use travel_assistant.CollaborationService.{find_main, member_of, member_role, require_writable_main}
use travel_assistant.ItineraryVersion.{
  Version, versions_of, newest, latest, new_version, taken, write_snapshot, attempts,
  create_snapshot, record_snapshot_or_log,
}
use travel_assistant.ItineraryVersion.Diff.{require}
use travel_assistant.ItineraryVersion.Restore.{
  SavedItem, Columns, item_columns, Saved, DayRow, ItemRow, Plans, restored, Conversions,
  metadata_json, put_extras, new_items, new_days, replace, log_restore, restore,
}
use travel_assistant.ItineraryVersion.Restore.Shown.{Shown, restore-Shown}

abbrev trip : Main
trip = record {
  id = 5;
  user_id = 1;
  city = "Chengdu";
  days = 2;
  status = 2;
  gen_state = none;
  gen_resumed = false;
  gen_started_at = none;
  gen_finished_at = none;
  title = none;
  plan_note = none;
  trip_theme = none;
  origin_city = none;
}

abbrev saved_item : String → SavedItem String
saved_item name = record {
  item_type = some "sight";
  poi_name = some name;
  poi_id = none;
  address = none;
  latitude = none;
  longitude = none;
  start_time = some "09:30";
  end_time = none;
  duration_min = none;
  cost = none;
  tag = none;
  remark = none;
  open_time = none;
  image_url = none;
  source = none;
  source_updated_at = none;
  verification_status = none;
  value_kind = none;
  freshness_status = none;
  review_requirement = none;
  fact_evidence_json = none;
  intro = none;
  why_this = some "quiet";
}

abbrev columns : String → Columns String String
columns name = record {
  item_type = some "sight";
  poi_name = some name;
  poi_id = none;
  address = none;
  latitude = none;
  longitude = none;
  start_time = some "09:30";
  end_time = none;
  duration_min = none;
  cost = none;
  tag = none;
  remark = none;
  open_time = none;
  image_url = none;
  source = none;
  source_updated_at = none;
  verification_status = none;
  value_kind = none;
  freshness_status = none;
  review_requirement = none;
  fact_evidence_json = none;
  intro = none;
  why_note = none;
}

abbrev saved : Saved String
saved = record {
  heading = "2";
  city = some "Chengdu";
  day_list =
      record {
        day_no = 1;
        travel_date = none;
        note = none;
        theme = some "old town";
        mini_route = some "";
        backup_plan = none;
        photo_spots = some "bridge";
        practical_notes = none;
        items = saved_item "a" ∷ saved_item "b" ∷ [];
      }
      ∷ record {
        day_no = 2;
        travel_date = none;
        note = none;
        theme = none;
        mini_route = none;
        backup_plan = none;
        photo_spots = none;
        practical_notes = none;
        items = saved_item "c" ∷ [];
      }
      ∷ [];
}

abbrev conv : Conversions String String ℕ String ℕ
conv = record {
  loads = λ text. some saved;
  dumps = λ metadata. "metadata";
  truthy = λ v. not (v == "");
  as_date = some;
  heading_columns = λ v. some 2;
  as_time = some;
  as_datetime = some;
  recalculate = λ itinerary_id items n. suc n;
  details = λ user_id itinerary_id p. "{}";
}

abbrev kept_version : Version
kept_version = record {
  id = 40;
  itinerary_id = 5;
  user_id = 1;
  parent_version_id = none;
  version_no = 1;
  operation = "create";
  summary = "new";
  snapshot_json = "{}";
}

abbrev old_day : ℕ → ℕ → DayRow String
old_day id itinerary_id = record {
  id = id;
  itinerary_id = itinerary_id;
  day_no = 1;
  travel_date = none;
  city = none;
  note = none;
  metadata_json = none;
  generation_status = pending;
}

abbrev old_item : ℕ → ℕ → ItemRow String String
old_item day_id itinerary_id = record {
  itinerary_id = itinerary_id;
  day_id = day_id;
  columns = columns "x";
  sort_no = 0;
}

abbrev before : Plans String String ℕ String ℕ
before = record {
  team = record { mains = trip ∷ []; invitations = []; members = [] };
  headings = (5, 1) ∷ [];
  days = old_day 10 5 ∷ old_day 11 6 ∷ [];
  items = old_item 10 5 ∷ old_item 11 6 ∷ [];
  versions = kept_version ∷ [];
  next_day_id = 12;
  others = 0;
}

abbrev new_row : ℕ → ℕ → Option String → DayRow String
new_row id day_no metadata = record {
  id = id;
  itinerary_id = 5;
  day_no = day_no;
  travel_date = none;
  city = some "Chengdu";
  note = none;
  metadata_json = metadata;
  generation_status = succeeded;
}

abbrev restored_item : ℕ → String → ℕ → ItemRow String String
restored_item day_id name sort_no = record {
  itinerary_id = 5;
  day_id = day_id;
  columns = columns name;
  sort_no = sort_no;
}

abbrev afterwards : Plans String String ℕ String ℕ
afterwards = record before {
  headings = (5, 2) ∷ [];
  days = old_day 11 6 ∷ new_row 12 1 (some "metadata") ∷ new_row 13 2 none ∷ [];
  items =
      old_item 11 6 ∷ restored_item 12 "a" 0 ∷ restored_item 12 "b" 1 ∷ restored_item 13 "c" 0 ∷ [];
  versions =
      record {
        id = 41;
        itinerary_id = 5;
        user_id = 1;
        parent_version_id = some 40;
        version_no = 2;
        operation = "restore";
        summary = "恢复到版本 1";
        snapshot_json = "{}";
      }
      ∷ kept_version
      ∷ [];
  next_day_id = 14;
  others = 1;
}

test_restore : restore conv 41 1 5 40 before ≡ restored afterwards
unfolding restore require_writable_main find_main member_role member_of require new_days new_items
    item_columns metadata_json put_extras insert replace log_restore record_snapshot_or_log
    create_snapshot attempts write_snapshot latest newest versions_of new_version taken keep any
    first_chars str
test_restore = refl

restore-Shown_example :
    Shown conv 5
      (some "Chengdu")
      afterwards.items
      saved.day_list
      (keep (λ day. day.itinerary_id == 5) afterwards.days)
    × (keep (λ day. not (day.itinerary_id == 5)) afterwards.days
        ≡ keep (λ day. not (day.itinerary_id == 5)) before.days)
    × (keep (λ row. not (row.itinerary_id == 5)) afterwards.items
        ≡ keep (λ row. not (row.itinerary_id == 5)) before.items)
unfolding require_writable_main find_main member_role member_of require keep
restore-Shown_example =
    restore-Shown conv 41 1 5 40 before afterwards trip kept_version saved refl refl refl
      test_restore (omega arith, (omega arith, tt))
