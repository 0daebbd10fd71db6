-- ===== src/TaskPool/Laws.antt =====
-- Tokens are never lost nor made: the pool holds at most as many tasks as it has slots.
use travel_assistant.Base.{
  ℕ, suc, ◌+◌, ◌≡◌, refl, Bool, true, List, [], ◌∷◌, arith, length, length-append, nat_eq,
}
use travel_assistant.Dict.{contains}
use travel_assistant.TaskPool.{
  submit, remove_first, guarded, Planning, register_planning, unregister_planning, submit_planning,
  end_planning,
}

pub data Event : Type 0 where
  submits : Bool → ℕ → Event
  ends : ℕ → Event

unfoldable pub step : Event → Planning → Planning
unfolding submit_planning end_planning
step (submits accepts itinerary_id) p = (submit_planning accepts itinerary_id p).1
step (ends itinerary_id) p = end_planning itinerary_id p

unfoldable pub run : List Event → Planning → Planning
unfolding step
run [] p = p
run (event ∷ events) p = run events (step event p)

pub length-remove_first :
    (task : ℕ) (ts : List ℕ)
    → contains task ts ≡ true
    → suc (length (remove_first task ts)) ≡ length ts
unfolding remove_first contains
length-remove_first task [] h = ground arith
length-remove_first task (t ∷ ts) h = ground (arith, length-remove_first task ts)

abbrev pub in_all : Planning → ℕ
in_all p = p.pool.free + length p.pool.tasks

in_all-step : (event : Event) (p : Planning) → in_all (step event p) ≡ in_all p
unfolding step submit register_planning unregister_planning guarded
in_all-step (submits accepts task) p = ground (arith, length-append p.pool.tasks (task ∷ []))
in_all-step (ends task) p = ground (arith, length-remove_first task p.pool.tasks)

-- However submissions and endings follow each other, the free tokens and the tasks that run or wait
-- together stay as many as the slots were, so a task that ended always gave its token back.
pub in_all-run : (events : List Event) (p : Planning) → in_all (run events p) ≡ in_all p
unfolding run
in_all-run [] p = refl
in_all-run (event ∷ events) p = omega (arith, in_all-run events (step event p), in_all-step event p)
