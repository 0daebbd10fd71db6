-- ===== src/TaskPool.antt =====
-- travel-agent-python/app/common/task_pool.py, and the registry of active generations that
-- services/itinerary_generation.py keeps around it. A task is named by its itinerary.
pub mod Laws
mod Tests
use travel_assistant.Base.{
  ℕ, zero, suc, ◌-◌, Bool, true, false, not, List, [], ◌∷◌, ◌++◌, ltb, if◌then◌else◌, ◌==◌, nat_eq,
  keep,
}
use travel_assistant.Dict.{contains}

abbrev pub generation_slots : ℕ
generation_slots = 24

-- `free` tokens of the semaphore, and the tasks that run or wait.
pub record Pool : Type 0 where
  pub free : ℕ
  pub tasks : List ℕ

-- How a submission ends: taken, `TaskRejected` for a full pool, or another error that the executor raised.
pub data Submission : Type 0 where
  submitted task_rejected submit_raised : Submission

-- `accepts` says that the executor takes the task, and does not raise.
unfoldable pub submit : Bool → ℕ → Pool → Submission × Pool
submit accepts task p =
    if ltb 0 p.free
    then (if accepts
        then (submitted, record p { free = p.free - 1; tasks = p.tasks ++ task ∷ [] })
        else (submit_raised, record p { free = suc (p.free - 1) }))
    else (task_rejected, p)

unfoldable pub remove_first : ℕ → List ℕ → List ℕ
remove_first task [] = []
remove_first task (t ∷ ts) = let rest = remove_first task ts in if t == task then ts else t ∷ rest

-- The end of `_guarded`: a task that is there returns or raises, and its token goes back.
unfoldable pub guarded : ℕ → Pool → Pool
unfolding remove_first contains
guarded task p =
    if contains task p.tasks
    then record p { free = suc p.free; tasks = remove_first task p.tasks }
    else p

-- The pool of the generations and `_ACTIVE_PLANNING`.
pub record Planning : Type 0 where
  pub pool : Pool
  pub active : List ℕ

unfoldable pub is_planning_active : ℕ → Planning → Bool
unfolding contains
is_planning_active itinerary_id p = contains itinerary_id p.active

unfoldable pub register_planning : ℕ → Planning → Planning
unfolding contains
register_planning itinerary_id p =
    if contains itinerary_id p.active then p else record p { active = itinerary_id ∷ p.active }

unfoldable pub unregister_planning : ℕ → Planning → Planning
unfolding keep
unregister_planning itinerary_id p = record p {
  active = keep (λ i. not (i == itinerary_id)) p.active;
}

-- Whatever the submission raises is raised again, after the trip is unregistered.
unfoldable pub submit_planning : Bool → ℕ → Planning → Submission × Planning
unfolding submit register_planning unregister_planning
submit_planning accepts itinerary_id p =
    let p' = register_planning itinerary_id p in
    let (outcome, pool) = submit accepts itinerary_id p'.pool in
    let failed = unregister_planning itinerary_id (record p' { pool = pool }) in
    elim outcome [
      | submitted ↦ (submitted, record p' { pool = pool })
      | task_rejected ↦ (task_rejected, failed)
      | submit_raised ↦ (submit_raised, failed)
    ]

-- The end of `plan_days`, whose `finally` unregisters, in the thread of the pool.
unfoldable pub end_planning : ℕ → Planning → Planning
unfolding unregister_planning guarded
end_planning itinerary_id p =
    let p' = unregister_planning itinerary_id p in record p' { pool = guarded itinerary_id p'.pool }
