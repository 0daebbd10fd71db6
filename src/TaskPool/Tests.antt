-- ===== src/TaskPool/Tests.antt =====
-- Witnesses and tests for the pool of tasks.
use travel_assistant.Base.{◌≡◌, refl, true, false, [], ◌∷◌}
use travel_assistant.TaskPool.{Planning, submit_planning, task_rejected, generation_slots}
use travel_assistant.TaskPool.Laws.{submits, ends, run, in_all, in_all-run}

abbrev start : Planning
start = record { pool = record { free = generation_slots; tasks = [] }; active = [] }

in_all-run_example :
    in_all (run (submits true 7 ∷ submits false 8 ∷ ends 7 ∷ ends 9 ∷ []) start) ≡ in_all start
in_all-run_example = in_all-run (submits true 7 ∷ submits false 8 ∷ ends 7 ∷ ends 9 ∷ []) start

full_pool :
    (submit_planning true 7 (record start { pool = record { free = 0; tasks = [] } })).0
    ≡ task_rejected
unfolding submit_planning
full_pool = refl
