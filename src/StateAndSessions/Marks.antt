-- ===== src/StateAndSessions/Marks.antt =====
-- The one-off marks of state_and_sessions.py, which serve as locks: `_marks`, `_bound_marks`,
-- `try_mark`, `_try_mark_local`, `is_marked` and `unmark`.
pub mod Exclusion
mod Bounds
mod Answers
mod Tests
use travel_assistant.Base.{
  ℕ, suc, ◌+◌, ◌*◌, String, Bool, true, false, not, Option, none, some, List, [], ◌∷◌, ltb, leb,
  if◌then◌else◌, string_eq, length,
}
use travel_assistant.Dict.{lookup, insert, erase}
use travel_assistant.Dict.Distinct.{drop_where}
use travel_assistant.RedisClient.{Breaker, Moment, try_redis, reset_for_tests as reset_client}
use travel_assistant.StateAndSessions.Windows.{local_state_max_entries}

-- When each mark lapses.
abbrev pub Marks : Type 0
Marks = List (String × ℕ)

-- Only lapsed marks are cleared; the number of marks that are left.
unfoldable pub bound_marks : ℕ → Marks → ℕ × Marks
unfolding drop_where
bound_marks now ms = let live = drop_where (λ e. leb e.1 now) ms in (length live, live)

-- `expires_at is not None and expires_at >= now`
unfoldable pub occupied_at : ℕ → Option ℕ → Bool
occupied_at now none = false
occupied_at now (some expires_at) = leb now expires_at

unfoldable pub try_mark_local : ℕ → String → ℕ → Marks → Bool × Marks
unfolding bound_marks lookup insert occupied_at
try_mark_local now key ttl ms =
    let (occupied, live) = bound_marks now ms in
    if occupied_at now (lookup key live)
    then (false, live)
    else if leb local_state_max_entries occupied
    then (false, live)
    else (true, insert key (now + ttl) live)

abbrev pub Locks : Type 0
Locks = Breaker × Marks

-- The reply of `SET … NX EX`: `none` where the call raises, `some none` for a null answer.
unfoldable pub try_mark : Moment → Option (Option Bool) → String → ℕ → Locks → Bool × Locks
unfolding try_redis try_mark_local
try_mark at reply key ttl_seconds (b, ms) =
    let (answer, b') = try_redis at reply b in
    elim answer [
      | some (some acquired) ↦ (acquired, (b', ms))
      | _ ↦
          let (acquired, ms') = try_mark_local at.wall key (ttl_seconds * 1000) ms in
          (acquired, (b', ms'))
    ]

-- The part of `is_marked` under the lock.
unfoldable pub is_marked_local : ℕ → String → Marks → Bool × Marks
unfolding lookup erase
is_marked_local now key ms = elim (lookup key ms) [
  | none ↦ (false, ms)
  | some expires_at ↦ if ltb expires_at now then (false, erase key ms) else (true, ms)
]

unfoldable pub is_marked : Moment → Option Bool → String → Locks → Bool × Locks
unfolding try_redis is_marked_local
is_marked at reply key (b, ms) =
    let (answer, b') = try_redis at reply b in
    elim answer [
      | some exists ↦ (exists, (b', ms))
      | none ↦ let (marked, ms') = is_marked_local at.wall key ms in (marked, (b', ms'))
    ]

-- The local mark goes whether or not the server deleted its own.
unfoldable pub unmark : Moment → Option (Unit {0}) → String → Locks → Locks
unfolding try_redis erase
unmark at reply key (b, ms) = let (answer, b') = try_redis at reply b in (b', erase key ms)

-- A call of the public functions, with the readings of the clock and the server's reply.
pub data Call : Type 0 where
  mark : Moment → Option (Option Bool) → String → ℕ → Call
  ask : Moment → Option Bool → String → Call
  release : Moment → Option (Unit {0}) → String → Call

unfoldable pub step : Call → Locks → Locks
unfolding try_mark is_marked unmark
step (mark at reply key ttl_seconds) locks = (try_mark at reply key ttl_seconds locks).1
step (ask at reply key) locks = (is_marked at reply key locks).1
step (release at reply key) locks = unmark at reply key locks

unfoldable pub run : List Call → Locks → Locks
unfolding step
run [] locks = locks
run (call ∷ calls) locks = run calls (step call locks)

-- The part of `reset_for_tests` for the marks.
unfoldable pub reset_for_tests : Locks → Locks
unfolding reset_client
reset_for_tests (b, ms) = (reset_client b, [])
