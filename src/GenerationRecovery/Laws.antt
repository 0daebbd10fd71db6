-- ===== src/GenerationRecovery/Laws.antt =====
-- When the resume lock is left behind, and what a trip that is called complete may still miss.
use travel_assistant.Base.{
  All, ℕ, ◌≡◌, ◌<◌, ◌+◌, refl, sym, subst, ap, ◌∙◌, String, Bool, true, false, not, ◌||◌, ◌⊎◌, inl,
  inr, Option, none, List, map, arith, if◌then◌else◌, leb, string_eq, nat_eq, keep, Bool-cases,
  Option-cases,
}
use travel_assistant.Dict.{contains, lookup, lookup-erase, keys, lookup-erase_all}
use travel_assistant.Dict.Distinct.{Distinct, drop_where}
use travel_assistant.Dict.Evict.{sort_by}
use travel_assistant.RedisClient.{Moment}
use travel_assistant.StateAndSessions.Marks.{
  Call, Locks, Marks, run, try_mark, unmark, bound_marks, try_mark_local,
}
use travel_assistant.StateAndSessions.Marks.Exclusion.{Leaves, try_mark_excludes}
use travel_assistant.GenerationGate.{
  resume_lock_ttl_seconds, resume_lock_key, try_resume_lock, release_resume_lock,
}
use travel_assistant.DayPersistence.{Texts, Plan, Main}
use travel_assistant.DayPersistence.Writes.{days_of}
use travel_assistant.TaskPool.{
  Planning, is_planning_active, submit_planning, register_planning, submit, submitted,
}
use travel_assistant.GenerationRecovery.{
  World, Surroundings, ended, escaped, submit_rest, Resumed, broken, escaping, resumed, after_pass,
  resume_from_checkpoints, resume_locked, recover_one, find_main, mark_resumed, day_done,
  day_ids_with_items,
}

lookup-release :
    (at : Moment) (reply : Option (Unit {0})) (itinerary_id : ℕ) (locks : Locks)
    → lookup (resume_lock_key itinerary_id) (release_resume_lock at reply itinerary_id locks).1
      ≡ none
unfolding release_resume_lock unmark
lookup-release at reply itinerary_id (b, ms) =
    let key = resume_lock_key itinerary_id in
    ground (arith, lookup-erase key key ms, string_eq.same_iff key key)

lookup-bound_marks :
    (now : ℕ) (key : String) (ms : Marks)
    → lookup key ms ≡ none
    → lookup key (bound_marks now ms).1 ≡ none
unfolding bound_marks drop_where
lookup-bound_marks now key ms h =
    ground (arith, h, lookup-erase_all (keys (keep (λ e. leb e.1 now) ms)) key ms)

lookup-try_resume_lock :
    (at : Moment) (reply : Option (Option Bool)) (itinerary_id : ℕ) (locks : Locks)
    → lookup (resume_lock_key itinerary_id) locks.1 ≡ none
    → (try_resume_lock at reply itinerary_id locks).0 ≡ false
    → lookup (resume_lock_key itinerary_id) (try_resume_lock at reply itinerary_id locks).1.1 ≡ none
unfolding try_resume_lock try_mark try_mark_local
lookup-try_resume_lock at reply itinerary_id (b, ms) free lost =
    let key = resume_lock_key itinerary_id in ground (arith, lookup-bound_marks at.wall key ms free)

is_planning_active-submit :
    (accepts : Bool) (itinerary_id : ℕ) (p : Planning)
    → (submit_planning accepts itinerary_id p).0 ≡ submitted
    → is_planning_active itinerary_id (submit_planning accepts itinerary_id p).1 ≡ true
unfolding submit_planning is_planning_active register_planning contains submit
is_planning_active-submit accepts itinerary_id p h =
    ground (arith, nat_eq.same_iff itinerary_id itinerary_id)

resume_lock_excludes :
    (at later : Moment) (itinerary_id : ℕ) (calls : List Call) (locks : Locks)
    → Distinct locks.1
    → (try_resume_lock at none itinerary_id locks).0 ≡ true
    → All (Leaves (resume_lock_key itinerary_id) (at.wall + 600_000)) calls
    → later.wall < at.wall + 600_000
    → (try_resume_lock later none itinerary_id
        (run calls (try_resume_lock at none itinerary_id locks).1)).0
      ≡ false
unfolding try_resume_lock
resume_lock_excludes at later itinerary_id calls locks d won leave before =
    try_mark_excludes at later (resume_lock_key itinerary_id) resume_lock_ttl_seconds
      resume_lock_ttl_seconds calls locks d won leave before

module _ {R : Type 0} (texts : Texts) (validate_plans : ℕ → Plan R → List String)
    (s : Surroundings R) (itinerary_id : ℕ) where
  -- The trip is being planned, or its resume lock is free in this process.
  abbrev pub NotStuck : World R → Type 0
  NotStuck w =
      (is_planning_active itinerary_id w.planning ≡ true)
      ⊎ (lookup (resume_lock_key itinerary_id) w.locks.1 ≡ none)

  submit_rest-NotStuck :
      (changed b : Bool) (w : World R)
      → (submit_rest texts validate_plans s itinerary_id changed w).0 ≡ ended b
      → NotStuck (submit_rest texts validate_plans s itinerary_id changed w).1
  unfolding submit_rest
  submit_rest-NotStuck changed b w returns = ground (
    arith,
    lookup-release s.at s.release_reply itinerary_id w.locks,
    is_planning_active-submit s.accepts itinerary_id w.planning,
  )

  after_pass-NotStuck :
      (failed_resume b : Bool) (main : Main) (day_nos : List ℕ) (result : Resumed R) (w : World R)
      → (after_pass texts validate_plans s itinerary_id failed_resume main day_nos result w).0
        ≡ ended b
      → NotStuck
          (after_pass texts validate_plans s itinerary_id failed_resume main day_nos result w).1
  after_pass-NotStuck failed_resume b main day_nos (broken error db) w returns =
      ground (arith, lookup-release s.at s.release_reply itinerary_id w.locks)
  after_pass-NotStuck failed_resume b main day_nos (escaping db) w returns = ground arith
  after_pass-NotStuck failed_resume b main day_nos (resumed remaining any_resumed db) w returns =
      ground (
        arith,
        lookup-release s.at s.release_reply itinerary_id w.locks,
        submit_rest-NotStuck (failed_resume || any_resumed) b (record w { db = db }),
      )

  resume_locked-NotStuck :
      (failed_resume b : Bool) (main : Main) (day_nos : List ℕ) (w : World R)
      → (resume_locked texts validate_plans s itinerary_id failed_resume main day_nos w).0 ≡ ended b
      → NotStuck (resume_locked texts validate_plans s itinerary_id failed_resume main day_nos w).1
  unfolding resume_locked
  resume_locked-NotStuck failed_resume b main day_nos w returns =
      after_pass-NotStuck failed_resume b main day_nos
        (resume_from_checkpoints texts validate_plans s itinerary_id main.days day_nos w.db) w
        returns

  -- However the recovery of a trip returns, with a finished trip, an `ApiError` of the model's route, of
  -- a day or of a write, a full pool or a submission, whatever Redis answers: if this process did not
  -- hold the resume lock in its table before, it holds it after only for a trip that is being planned.
  -- Nothing is said of a recovery that another exception leaves.
  pub recover_one-NotStuck :
      (failed_resume b : Bool) (w : World R)
      → lookup (resume_lock_key itinerary_id) w.locks.1 ≡ none
      → (recover_one texts validate_plans s itinerary_id failed_resume w).0 ≡ ended b
      → NotStuck (recover_one texts validate_plans s itinerary_id failed_resume w).1
  unfolding recover_one
  recover_one-NotStuck failed_resume b w free returns =
      let lock = try_resume_lock s.at s.lock_reply itinerary_id w.locks in
      elim (Bool-cases lock.0) [
        | inr lost ↦
            ground
              (arith, lost, lookup-try_resume_lock s.at s.lock_reply itinerary_id w.locks free lost)
        | inl won ↦ elim (Option-cases (find_main itinerary_id w.db)) [
          | inl gone ↦ ground (arith, gone, free)
          | inr (main, here) ↦
              let with_items = day_ids_with_items itinerary_id w.db in
              let days = sort_by (λ day. day.day_no) (days_of itinerary_id w.db) in
              let left =
                map (λ day. day.day_no) (keep (λ day. not (day_done with_items day)) days) in
              let db = (if failed_resume then mark_resumed itinerary_id w.db else w.db) in
              ground (
                arith,
                here,
                won,
                free,
                returns,
                resume_locked-NotStuck failed_resume b main left
                    (record w { db = db; locks = lock.1 }),
              )
        ]
      ]

  after_pass-escaped :
      (failed_resume : Bool) (main : Main) (day_nos : List ℕ) (result : Resumed R) (w : World R)
      → s.errors.failing ≡ false
      → (after_pass texts validate_plans s itinerary_id failed_resume main day_nos result w).0
        ≡ escaped
      → (after_pass texts validate_plans s itinerary_id failed_resume main day_nos result w).1.locks
        ≡ w.locks
  unfolding submit_rest
  after_pass-escaped failed_resume main day_nos (broken error db) w ends out = ground arith
  after_pass-escaped failed_resume main day_nos (escaping db) w ends out = refl
  after_pass-escaped failed_resume main day_nos (resumed remaining any_resumed db) w ends out =
      ground arith

  resume_locked-escaped :
      (failed_resume : Bool) (main : Main) (day_nos : List ℕ) (w : World R)
      → s.errors.failing ≡ false
      → (resume_locked texts validate_plans s itinerary_id failed_resume main day_nos w).0 ≡ escaped
      → (resume_locked texts validate_plans s itinerary_id failed_resume main day_nos w).1.locks
        ≡ w.locks
  unfolding resume_locked
  resume_locked-escaped failed_resume main day_nos w ends out =
      after_pass-escaped failed_resume main day_nos
        (resume_from_checkpoints texts validate_plans s itinerary_id main.days day_nos w.db) w ends
        out

  -- An exception that leaves the recovery leaves it with the lock that it took.
  recover_one-escaped :
      (failed_resume : Bool) (w : World R)
      → s.errors.completing ≡ false
      → s.errors.failing ≡ false
      → (recover_one texts validate_plans s itinerary_id failed_resume w).0 ≡ escaped
      → ((try_resume_lock s.at s.lock_reply itinerary_id w.locks).0 ≡ true)
        × ((recover_one texts validate_plans s itinerary_id failed_resume w).1.locks
            ≡ (try_resume_lock s.at s.lock_reply itinerary_id w.locks).1)
  unfolding recover_one
  recover_one-escaped failed_resume w completes ends out =
      let lock = try_resume_lock s.at s.lock_reply itinerary_id w.locks in
      elim (Bool-cases lock.0) [
        | inr lost ↦ ground (arith, lost)
        | inl won ↦ elim (Option-cases (find_main itinerary_id w.db)) [
          | inl gone ↦ ground (arith, gone)
          | inr (main, here) ↦
              let with_items = day_ids_with_items itinerary_id w.db in
              let days = sort_by (λ day. day.day_no) (days_of itinerary_id w.db) in
              let left =
                map (λ day. day.day_no) (keep (λ day. not (day_done with_items day)) days) in
              let db = (if failed_resume then mark_resumed itinerary_id w.db else w.db) in
              ground (
                arith,
                here,
                won,
                completes,
                out,
                resume_locked-escaped failed_resume main left (record w { db = db; locks = lock.1 })
                    ends,
              )
        ]
      ]

  -- A recovery that an exception leaves, while Redis is away, keeps its trip from recovery for ten
  -- minutes: in this process no attempt on the resume lock that Redis leaves unanswered succeeds before
  -- they are over, unless somebody releases the lock, and whatever the other calls for locks. The
  -- exception is one of the graph, of the executor, or of a write other than that of the trip's last
  -- state; the table has one entry to a key.
  pub try_resume_lock-recover_one :
      (failed_resume : Bool) (w : World R) (calls : List Call) (later : Moment)
      → s.lock_reply ≡ none
      → Distinct w.locks.1
      → s.errors.completing ≡ false
      → s.errors.failing ≡ false
      → (recover_one texts validate_plans s itinerary_id failed_resume w).0 ≡ escaped
      → All (Leaves (resume_lock_key itinerary_id) (s.at.wall + 600_000)) calls
      → later.wall < s.at.wall + 600_000
      → (try_resume_lock later none itinerary_id
          (run calls (recover_one texts validate_plans s itinerary_id failed_resume w).1.locks)).0
        ≡ false
  try_resume_lock-recover_one failed_resume w calls later away d completes ends out leave before =
      let (won, same) = recover_one-escaped failed_resume w completes ends out in
      let won_away = subst (λ r. (try_resume_lock s.at r itinerary_id w.locks).0 ≡ true) away won in
      subst (λ locks. (try_resume_lock later none itinerary_id (run calls locks)).0 ≡ false)
        (sym (same ∙ ap (λ r. (try_resume_lock s.at r itinerary_id w.locks).1) away))
        (resume_lock_excludes s.at later itinerary_id calls w.locks d won_away leave before)
