-- ===== src/DayPersistence/Writes.antt =====
-- The operations of day_persistence.py on the database.
use travel_assistant.Base.{
  ℕ, String, Bool, false, not, ◌&&◌, ◌||◌, Option, none, some, List, [], ◌∷◌, ◌++◌, map,
  if◌then◌else◌, ◌==◌, ◌+ₛ◌, string_eq, nat_eq, str, keep, all,
}
use travel_assistant.Dict.Evict.{sort_by}
use travel_assistant.GenerationGate.{pending, running, succeeded, failed, verify_action, join}
use travel_assistant.DayPersistence.{
  max_error_length, fallback_day_error, legacy_resume_marker, first_chars, Texts, or_none, text_or,
  Day, Plan, generating, completed, partly, failed_state, Database, no_such_day, refused, Outcome,
  raised, returned, is_succeeded, stay_nights, find_day, day_by_id, update_day, update_main,
  clear_items, new_items,
}

module _ {R : Type 0} (texts : Texts) (validate_plans : ℕ → Plan R → List String) where
  -- `hard_delivery_blockers` of day_delivery_gate.py.
  unfoldable pub hard_delivery_blockers : ℕ → Plan R → List String
  unfolding keep
  hard_delivery_blockers day_no plan = elim plan.items [
    | [] ↦ ("第 " +ₛ str day_no +ₛ " 天没有生成任何条目") ∷ []
    | _ ∷ _ ↦
        keep (λ issue. texts.contains "未安排任何景点" issue || texts.contains "安排过稀" issue)
          (validate_plans day_no plan)
  ]

  abbrev or_old : Option String → Option String → Option String
  or_old none old = old
  or_old (some new) old = some new

  -- The columns of a day that holds a whole plan.
  unfoldable pub written_day : ℕ → Plan R → String → String → Day → Day
  unfolding hard_delivery_blockers join first_chars
  written_day day_no plan action_id fingerprint day =
      let blockers = hard_delivery_blockers day_no plan in
      let day' = record day {
        generation_action_id = some action_id;
        generation_fingerprint = some fingerprint;
        note = or_old plan.note day.note;
        metadata_json = plan.metadata;
      } in
      elim blockers [
        | [] ↦ record day' { generation_status = some succeeded; generation_error = none }
        | issue ∷ issues ↦ record day' {
          generation_status = some pending;
          generation_error = or_none (first_chars max_error_length (join "；" (issue ∷ issues)));
        }
      ]

  -- `nights` and `request_days` are the request's `stay_nights` and `days`.
  unfoldable pub persist :
      ℕ
      → Option ℕ
      → Option ℕ
      → ℕ
      → Plan R
      → String
      → String
      → Bool
      → Database R
      → Outcome (Database R)
  persist itinerary_id nights request_days day_no plan action_id fingerprint allow_overwrite db =
      elim (find_day itinerary_id day_no db.days) [
        | none ↦ raised no_such_day
        | some day ↦
            elim (verify_action day.generation_action_id day.generation_fingerprint action_id
              fingerprint) [
                | some conflict ↦ raised (refused conflict)
                | none ↦
                    if is_succeeded day.generation_status && not allow_overwrite
                    then returned db
                    else returned (record db {
                      days =
                          update_day day.id (written_day day_no plan action_id fingerprint) db.days;
                      items =
                          clear_items day.id db.items
                          ++ new_items texts itinerary_id day.id day_no
                              (stay_nights nights request_days) plan.items 0;
                    })
              ]
      ]

-- `plan_note` without the marker of an earlier version.
unfoldable pub washed : Texts → Option String → Option String
washed texts none = none
washed texts (some note) =
    if texts.contains legacy_resume_marker note
    then or_none (texts.strip (texts.remove legacy_resume_marker note))
    else or_none note

-- The gate and the write that the three marks of a day share.
module _ {R : Type 0} where
  unfoldable pub write_day : ℕ → String → String → (Day → Day) → Database R → Outcome (Database R)
  write_day day_id action_id fingerprint f db = elim (day_by_id day_id db.days) [
    | none ↦ raised no_such_day
    | some day ↦
        elim (verify_action day.generation_action_id day.generation_fingerprint action_id
          fingerprint) [
            | some conflict ↦ raised (refused conflict)
            | none ↦ returned (record db { days = update_day day_id f db.days })
          ]
  ]

  unfoldable pub mark_running : ℕ → String → String → Database R → Outcome (Database R)
  unfolding write_day
  mark_running day_id action_id fingerprint db =
      write_day day_id action_id fingerprint
        (λ day. record day {
          generation_action_id = some action_id;
          generation_fingerprint = some fingerprint;
          generation_status = some running;
          generation_error = none;
        })
        db

  unfoldable pub mark_failed :
      ℕ → String → String → Option String → Database R → Outcome (Database R)
  unfolding write_day first_chars
  mark_failed day_id action_id fingerprint error db =
      write_day day_id action_id fingerprint
        (λ day. record day {
          generation_status = some failed;
          generation_error = some (first_chars max_error_length (text_or fallback_day_error error));
        })
        db

  unfoldable pub reset_day_pending :
      Texts → ℕ → String → String → Option String → Database R → Outcome (Database R)
  unfolding write_day first_chars
  reset_day_pending texts day_id action_id fingerprint reason db =
      write_day day_id action_id fingerprint
        (λ day. record day {
          generation_status = some pending;
          generation_error =
              or_none (first_chars max_error_length (texts.strip (text_or "" reason)));
        })
        db

  unfoldable pub complete_trip : Texts → ℕ → ℕ → Bool → Database R → Database R
  unfolding update_main washed str
  complete_trip texts now itinerary_id all_succeeded db = record db {
    mains =
        update_main itinerary_id
          (λ main. record main {
            status = 2;
            gen_state = some (if all_succeeded then completed else partly);
            gen_finished_at = some now;
            gen_resumed = false;
            title = some (main.city +ₛ str main.days +ₛ "日游");
            plan_note = washed texts main.plan_note;
          })
          db.mains;
  }

  unfoldable pub fail_trip : Texts → ℕ → ℕ → Option String → Database R → Database R
  unfolding update_main
  fail_trip texts now itinerary_id message db =
      let note =
        (if texts.strip (text_or "" message) == ""
          then none
          else some ("生成失败：" +ₛ text_or "" message)) in
      record db {
        mains =
            update_main itinerary_id
              (λ main. record main {
                status = 3;
                gen_state = some failed_state;
                gen_finished_at = some now;
                plan_note = note;
              })
              db.mains;
      }

  unfoldable pub set_trip_theme : Texts → ℕ → Option String → Database R → Database R
  unfolding update_main
  set_trip_theme texts itinerary_id theme db =
      let text = texts.strip (text_or "" theme) in
      if text == "" then db else record db {
        mains = update_main itinerary_id (λ main. record main { trip_theme = some text }) db.mains;
      }

  unfoldable pub mark_generating : ℕ → ℕ → Database R → Database R
  unfolding update_main
  mark_generating now itinerary_id db = record db {
    mains =
        update_main itinerary_id
          (λ main. record main { gen_state = some generating; gen_started_at = some now }) db.mains;
  }

  unfoldable pub save_origin_city : Texts → ℕ → Option String → Database R → Database R
  unfolding update_main first_chars
  save_origin_city texts itinerary_id origin_city db =
      let text = texts.strip (text_or "" origin_city) in
      if text == "" then db else record db {
        mains =
            update_main itinerary_id
              (λ main. record main { origin_city = some (first_chars 64 text) }) db.mains;
      }

  abbrev pub days_of : ℕ → Database R → List Day
  days_of itinerary_id db = keep (λ day. day.itinerary_id == itinerary_id) db.days

  unfoldable pub all_days_succeeded : ℕ → Database R → Bool
  unfolding is_succeeded all
  all_days_succeeded itinerary_id db =
      all (λ day. is_succeeded day.generation_status) (days_of itinerary_id db)

  unfoldable pub unfinished_day_nos : ℕ → Database R → List ℕ
  unfolding is_succeeded keep sort_by
  unfinished_day_nos itinerary_id db =
      sort_by (λ day_no. day_no)
        (map (λ day. day.day_no)
          (keep (λ day. not (is_succeeded day.generation_status)) (days_of itinerary_id db)))
