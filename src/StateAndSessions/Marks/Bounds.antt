-- ===== src/StateAndSessions/Marks/Bounds.antt =====
-- The table of marks stays within its limit.
use travel_assistant.Base.{ℕ, ◌+◌, ◌*◌, ◌≤◌, String, List, [], ◌∷◌, arith, length, string_eq}
use travel_assistant.Dict.{length-insert-le, length-erase}
use travel_assistant.Dict.Distinct.{length-drop_where}
use travel_assistant.StateAndSessions.Windows.{local_state_max_entries}
use travel_assistant.StateAndSessions.Marks.{
  Marks, Locks, bound_marks, try_mark_local, try_mark, is_marked_local, is_marked, unmark, Call,
  mark, ask, release, step, run,
}

length-bound_marks : (now : ℕ) (ms : Marks) → length (bound_marks now ms).1 ≤ length ms
unfolding bound_marks
length-bound_marks now ms = length-drop_where _ ms

length-try_mark_local :
    (now : ℕ) (key : String) (ttl : ℕ) (ms : Marks)
    → length ms ≤ local_state_max_entries
    → length (try_mark_local now key ttl ms).1 ≤ local_state_max_entries
unfolding try_mark_local bound_marks
length-try_mark_local now key ttl ms h =
    ground
      (arith, length-bound_marks now ms, length-insert-le key (now + ttl) (bound_marks now ms).1)

length-step :
    (call : Call) (locks : Locks)
    → length locks.1 ≤ local_state_max_entries
    → length (step call locks).1 ≤ local_state_max_entries
unfolding step try_mark is_marked is_marked_local unmark
length-step (mark at reply key ttl) locks h =
    ground (arith, length-try_mark_local at.wall key (ttl * 1000) locks.1)
length-step (ask at reply key) locks h = ground (arith, length-erase key locks.1)
length-step (release at reply key) locks h = ground (arith, length-erase key locks.1)

-- Whatever the calls, the keys, the clock and the server's replies, the local table never holds
-- more than `LOCAL_STATE_MAX_ENTRIES` marks, if it did not before.
pub length-run_marks :
    (calls : List Call) (locks : Locks)
    → length locks.1 ≤ local_state_max_entries
    → length (run calls locks).1 ≤ local_state_max_entries
unfolding run
length-run_marks [] locks h = h
length-run_marks (call ∷ calls) locks h =
    length-run_marks calls (step call locks) (length-step call locks h)
