-- ===== src/GenerationRecovery/Tests.antt =====
-- Witnesses for the recovery of generations.
use travel_assistant.Base.{
  arith, any, all, ℕ, ◌≡◌, refl, string_eq, String, true, false, none, some, List, [], ◌∷◌, keep,
}
use travel_assistant.Dict.{lookup, contains}
use travel_assistant.Dict.Evict.{sort_by}
use travel_assistant.RedisClient.{closed}
use travel_assistant.GenerationGate.{try_resume_lock, verify_action, failed, resume_lock_key}
use travel_assistant.StateAndSessions.Marks.{run, mark, try_mark, try_mark_local, bound_marks}
use travel_assistant.DayPersistence.{Texts, Day, Plan, Main, failed_state, find_day, is_succeeded}
use travel_assistant.DayPersistence.Writes.{persist}
use travel_assistant.TaskPool.{generation_slots, is_planning_active}
use travel_assistant.GenerationRecovery.{
  find_main, day_ids_with_items, day_done, is_running, is_failed, resumable_failed_trip,
  resume_from_checkpoints, resume_pending, World, Surroundings, Errors, mark_resumed, day_raised,
  escaped, found, ended, resume_locked, recover_one,
}
use travel_assistant.GenerationRecovery.Laws.{
  try_resume_lock-recover_one, NotStuck, recover_one-NotStuck,
}

abbrev texts : Texts
texts = record { strip = λ s. s; contains = λ t s. false; remove = λ t s. s }

abbrev no_issues : ℕ → Plan ℕ → List String
no_issues day_no plan = []

abbrev second : Day
second = record {
  id = 12;
  itinerary_id = 7;
  day_no = 2;
  note = none;
  metadata_json = none;
  generation_action_id = none;
  generation_fingerprint = none;
  generation_status = some failed;
  generation_error = some "timeout";
}

abbrev trip : Main
trip = record {
  id = 7;
  user_id = 1;
  city = "成都";
  days = 2;
  status = 3;
  gen_state = some failed_state;
  gen_resumed = false;
  gen_started_at = none;
  gen_finished_at = none;
  title = none;
  plan_note = none;
  trip_theme = none;
  origin_city = none;
}

abbrev empty_plan : Plan ℕ
empty_plan = record { note = none; metadata = none; items = [] }

abbrev no_errors : Errors
no_errors = record {
  resuming = false;
  persisting = λ day_no. false;
  completing = false;
  failing = false;
}

abbrev outside : Surroundings ℕ
outside = record {
  at = record { wall = 1000; asked = 1000; failed = 1000 };
  lock_reply = none;
  release_reply = none;
  now = 1000;
  cutoff = 700;
  updated_at = λ id. 0;
  route_error = none;
  resume_day = λ day_no. found empty_plan;
  fingerprint = "f";
  nights = some 1;
  accepts = true;
  errors = no_errors;
}

abbrev w : World ℕ
w = record {
  db = record { mains = trip ∷ []; days = second ∷ []; items = [] };
  locks = (closed, []);
  planning = record { pool = record { free = generation_slots; tasks = [] }; active = [] };
}

recover_one-NotStuck_example :
    NotStuck texts no_issues outside 7 (recover_one texts no_issues outside 7 true w).1
recover_one-NotStuck_example =
    recover_one-NotStuck texts no_issues outside 7 true true w free returns
  where
    free : lookup {V = ℕ} (resume_lock_key 7) [] ≡ none
    free = unfold lookup in refl

    returns : (recover_one texts no_issues outside 7 true w).0 ≡ ended true
    returns =
        unfold recover_one is_planning_active contains find_main keep day_ids_with_items day_done
          is_succeeded is_running resumable_failed_trip is_failed any all try_resume_lock try_mark
          try_mark_local bound_marks resume_locked resume_from_checkpoints resume_pending sort_by
          persist find_day mark_resumed verify_action in
        refl

-- The graph of the second day raises, and Redis is away.
abbrev raising : Surroundings ℕ
raising = record outside { resume_day = λ day_no. day_raised }

try_resume_lock-recover_one_example :
    (try_resume_lock
      (record { wall = 600_999; asked = 600_999; failed = 600_999 })
      none
      7
      (run
        (mark (record { wall = 2000; asked = 2000; failed = 2000 }) none "gen:day:1:1" 300 ∷ [])
        (recover_one texts no_issues raising 7 true w).1.locks)).0
    ≡ false
try_resume_lock-recover_one_example =
    try_resume_lock-recover_one texts no_issues raising 7 true w
      (mark (record { wall = 2000; asked = 2000; failed = 2000 }) none "gen:day:1:1" 300 ∷ [])
      (record { wall = 600_999; asked = 600_999; failed = 600_999 }) refl tt refl refl out
      (omega arith, tt) (omega arith)
  where
    out : (recover_one texts no_issues raising 7 true w).0 ≡ escaped
    out =
        unfold recover_one is_planning_active contains find_main keep day_ids_with_items day_done
          is_succeeded is_running resumable_failed_trip is_failed any all try_resume_lock try_mark
          try_mark_local bound_marks resume_locked resume_from_checkpoints resume_pending sort_by
          persist find_day mark_resumed verify_action in
        refl
