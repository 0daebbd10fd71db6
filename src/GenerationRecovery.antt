-- ===== src/GenerationRecovery.antt =====
-- travel-agent-python/app/services/generation_recovery.py: the recovery of one trip whose generation
-- stopped. What the checkpoints hold, which transactions fail, what the columns `updated_at` say, whether
-- the user's model route resolves, and the fingerprint of the request that the trip's columns rebuild are
-- parameters. The context of a checkpoint is only handed on, and left out.
mod Laws
mod Tests
use travel_assistant.Base.{
  ℕ, ◌+◌, ◌*◌, String, Bool, true, false, not, ◌&&◌, ◌||◌, Option, none, some, List, [], ◌∷◌, map,
  ltb, if◌then◌else◌, ◌==◌, ◌+ₛ◌, string_eq, nat_eq, str, keep, any, all, length,
}
use travel_assistant.Dict.{contains}
use travel_assistant.Dict.Evict.{sort_by}
use travel_assistant.RedisClient.{Moment}
use travel_assistant.StateAndSessions.Marks.{Locks}
use travel_assistant.GenerationGate.{
  Status, running, failed, other_action, parameters_changed, try_resume_lock, release_resume_lock,
}
use travel_assistant.DayPersistence.{
  Texts, Day, Item, Plan, Main, generating, completed, Database, Failure, no_such_day, refused,
  Outcome, raised, returned, is_succeeded, update_main, text_or, or_none, head,
}
use travel_assistant.DayPersistence.Writes.{persist, fail_trip, days_of}
use travel_assistant.TaskPool.{
  Planning, is_planning_active, submit_planning, submitted, task_rejected, submit_raised,
}

-- The texts of the errors.
unfoldable pub message : Failure → String
message no_such_day = "行程日不存在"
message (refused other_action) = "该日期已有不同的生成动作，请使用最新任务"
message (refused parameters_changed) = "同一日期生成参数已发生变化，请重新创建行程"

unfoldable pub is_running : Option Status → Bool
is_running (some running) = true
is_running _ = false

unfoldable pub is_failed : Option Status → Bool
is_failed (some failed) = true
is_failed _ = false

abbrev pub is_null : Option Status → Bool
is_null none = true
is_null (some s) = false

module _ {R : Type 0} where
  unfoldable pub day_ids_with_items : ℕ → Database R → List ℕ
  unfolding keep
  day_ids_with_items itinerary_id db =
      map (λ item. item.day_id)
        (keep (λ item. item.itinerary_id == itinerary_id && not item.deleted) db.items)

-- SUCCEEDED, or a day of the time before the status with entries.
unfoldable pub day_done : List ℕ → Day → Bool
unfolding is_succeeded contains
day_done with_items day =
    is_succeeded day.generation_status
    || (is_null day.generation_status && contains day.id with_items)

unfoldable pub resumable_failed_trip : Texts → List Day → Bool
unfolding is_failed all
resumable_failed_trip texts days =
    not (length days == 0)
    && all
        (λ day.
          is_failed day.generation_status
          && not (texts.strip (text_or "" day.generation_error) == ""))
        days

module _ {R : Type 0} where
  unfoldable pub find_main : ℕ → Database R → Option Main
  unfolding keep
  find_main itinerary_id db = head (keep (λ main. main.id == itinerary_id) db.mains)

  unfoldable pub mark_completed : ℕ → ℕ → String → ℕ → Database R → Database R
  unfolding update_main str
  mark_completed now itinerary_id city days db = record db {
    mains =
        update_main itinerary_id
          (λ main. record main {
            status = 2;
            gen_state = some completed;
            gen_finished_at = some now;
            title = some (city +ₛ str days +ₛ "日游");
          })
          db.mains;
  }

  -- The update of a failed trip that is taken up again.
  unfoldable pub mark_resumed : ℕ → Database R → Database R
  unfolding update_main
  mark_resumed itinerary_id db = record db {
    mains =
        update_main itinerary_id
          (λ main. record main { gen_resumed = true; gen_state = some generating; status = 1 })
          db.mains;
  }

-- What `resume_day` ends with: no plan, a plan, an `ApiError`, or another exception of the graph.
pub data Checkpoint (R : Type 0) : Type 0 where
  no_plan : Checkpoint R
  found : Plan R → Checkpoint R
  day_refused : String → Checkpoint R
  day_raised : Checkpoint R

-- What the pass over the pending days ends with: an `ApiError` or another exception, after some days
-- were written, or the days that have no checkpoint and whether any day was resumed.
pub data Resumed (R : Type 0) : Type 0 where
  broken : String → Database R → Resumed R
  escaping : Database R → Resumed R
  resumed : List ℕ → Bool → Database R → Resumed R

-- What the process and the database hold.
pub record World (R : Type 0) : Type 0 where
  pub db : Database R
  pub locks : Locks
  pub planning : Planning

-- Which transactions of a recovery the database fails, by an error that is not an `ApiError`: taking a
-- failed trip up again, `persist` of a day, `_mark_completed`, `fail_trip`. Such a transaction writes
-- nothing. The reads before the lock do not fail.
pub record Errors : Type 0 where
  pub resuming : Bool
  pub persisting : ℕ → Bool
  pub completing : Bool
  pub failing : Bool

-- How a recovery ends: it returns whether it changed the state, or an exception leaves it, which
-- `recover` only logs.
pub data Ending : Type 0 where
  ended : Bool → Ending
  escaped : Ending

-- The clock, the replies of Redis, the outside world during one recovery.
pub record Surroundings (R : Type 0) : Type 0 where
  pub at : Moment
  pub lock_reply : Option (Option Bool)
  pub release_reply : Option (Unit {0})
  pub now : ℕ
  pub cutoff : ℕ
  pub updated_at : ℕ → ℕ
  pub route_error : Option String
  pub resume_day : ℕ → Checkpoint R
  pub fingerprint : String
  pub nights : Option ℕ
  pub accepts : Bool
  pub errors : Errors

abbrev pub action_id_of : ℕ → ℕ → String
action_id_of itinerary_id day_no = "day-" +ₛ str itinerary_id +ₛ "-" +ₛ str day_no

module _ {R : Type 0} (texts : Texts) (validate_plans : ℕ → Plan R → List String)
    (s : Surroundings R) where
  -- A day whose checkpoint holds a plan is written; the others remain.
  unfoldable pub resume_pending : ℕ → ℕ → List ℕ → Database R → Resumed R
  resume_pending itinerary_id days [] db = resumed [] false db
  resume_pending itinerary_id days (day_no ∷ day_nos) db = elim (s.resume_day day_no) [
    | day_refused error ↦ broken error db
    | day_raised ↦ escaping db
    | no_plan ↦ elim (resume_pending itinerary_id days day_nos db) [
      | broken error db' ↦ broken error db'
      | escaping db' ↦ escaping db'
      | resumed remaining any_resumed db' ↦ resumed (day_no ∷ remaining) any_resumed db'
    ]
    | found plan ↦
        if s.errors.persisting day_no
        then escaping db
        else (elim (persist texts validate_plans itinerary_id s.nights (some days) day_no plan
            (action_id_of itinerary_id day_no) s.fingerprint false db) [
              | raised failure ↦ broken (message failure) db
              | returned db' ↦ elim (resume_pending itinerary_id days day_nos db') [
                | broken error db'' ↦ broken error db''
                | escaping db'' ↦ escaping db''
                | resumed remaining any_resumed db'' ↦ resumed remaining true db''
              ]
            ])
  ]

  unfoldable pub resume_from_checkpoints : ℕ → ℕ → List ℕ → Database R → Resumed R
  unfolding resume_pending
  resume_from_checkpoints itinerary_id days pending db = elim s.route_error [
    | some error ↦ broken error db
    | none ↦ resume_pending itinerary_id days pending db
  ]

  -- `_mark_completed` in its transaction.
  abbrev pub completing : ℕ → Main → World R → Ending × World R
  completing itinerary_id main w = if s.errors.completing then (escaped, w) else (
    ended true,
    record w { db = mark_completed s.now itinerary_id main.city main.days w.db },
  )

  -- The end of the pass that raised an `ApiError`.
  abbrev pub failing : ℕ → String → World R → Ending × World R
  failing itinerary_id error w =
      if s.errors.failing
      then (escaped, w)
      else (ended true, record w { db = fail_trip texts s.now itinerary_id (or_none error) w.db })

  abbrev pub released : ℕ → World R → World R
  released itinerary_id w = record w {
    locks = release_resume_lock s.at s.release_reply itinerary_id w.locks;
  }

  -- All days came from their checkpoints: the lock goes once the trip is marked.
  abbrev pub finish_all : ℕ → Main → World R → Ending × World R
  finish_all itinerary_id main w =
      let (ending, w') = completing itinerary_id main w in
      elim ending [ ended b ↦ (ended b, released itinerary_id w') | escaped ↦ (escaped, w') ]

  -- The pool of generations; of the errors only `TaskRejected` is caught.
  unfoldable pub submit_rest : ℕ → Bool → World R → Ending × World R
  unfolding submit_planning release_resume_lock
  submit_rest itinerary_id changed w =
      let (outcome, planning) = submit_planning s.accepts itinerary_id w.planning in
      let w' = record w { planning = planning } in
      elim outcome [
        | submitted ↦ (ended changed, w')
        | task_rejected ↦ (ended false, released itinerary_id w')
        | submit_raised ↦ (escaped, w')
      ]

  -- What follows the pass over the pending days.
  abbrev pub after_pass : ℕ → Bool → Main → List ℕ → Resumed R → World R → Ending × World R
  after_pass itinerary_id failed_resume main pending (broken error db) w =
      failing itinerary_id error (released itinerary_id (record w { db = db }))
  after_pass itinerary_id failed_resume main pending (escaping db) w =
      (escaped, record w { db = db })
  after_pass itinerary_id failed_resume main pending (resumed remaining any_resumed db) w =
      if not (length pending == 0) && length remaining == 0
      then finish_all itinerary_id main (record w { db = db })
      else submit_rest itinerary_id (failed_resume || any_resumed) (record w { db = db })

  -- With the resume lock taken: the checkpoints, then the pool of generations.
  unfoldable pub resume_locked : ℕ → Bool → Main → List ℕ → World R → Ending × World R
  unfolding resume_from_checkpoints release_resume_lock fail_trip mark_completed submit_rest
  resume_locked itinerary_id failed_resume main pending w =
      after_pass itinerary_id failed_resume main pending
        (resume_from_checkpoints itinerary_id main.days pending w.db) w

  -- How it ends, and the new state.
  unfoldable pub recover_one : ℕ → Bool → World R → Ending × World R
  recover_one itinerary_id failed_resume w =
      if is_planning_active itinerary_id w.planning
      then (ended false, w)
      else elim (find_main itinerary_id w.db) [
        | none ↦ (ended false, w)
        | some main ↦
            let days = sort_by (λ day. day.day_no) (days_of itinerary_id w.db) in
            let with_items = day_ids_with_items itinerary_id w.db in
            let pending = keep (λ day. not (day_done with_items day)) days in
            if not (length days == 0) && length pending == 0 && length days == main.days
            then completing itinerary_id main w
            else if any
                (λ day. is_running day.generation_status && ltb s.cutoff (s.updated_at day.id)) days
            then (ended false, w)
            else if failed_resume && not (resumable_failed_trip texts days)
            then (ended false, w)
            else (let (locked, locks) = try_resume_lock s.at s.lock_reply itinerary_id w.locks in
                if not locked
                then (ended false, record w { locks = locks })
                else if failed_resume && s.errors.resuming
                then (escaped, record w { locks = locks })
                else (let db = (if failed_resume then mark_resumed itinerary_id w.db else w.db) in
                    resume_locked itinerary_id failed_resume main (map (λ day. day.day_no) pending)
                      (record w { db = db; locks = locks })))
      ]
