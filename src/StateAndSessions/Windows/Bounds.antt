-- ===== src/StateAndSessions/Windows/Bounds.antt =====
-- The table of windows stays within its limit.
use travel_assistant.Base.{
  ℕ, suc, ◌+◌, ◌-◌, ◌*◌, ◌≤◌, String, Option, List, [], ◌∷◌, arith, leb, length, string_eq,
}
use travel_assistant.Dict
use travel_assistant.Dict.{lookup, length-insert, length-erase, erase_all, keys, erase}
use travel_assistant.Dict.Distinct.{drop_where}
use travel_assistant.Dict.Evict.{length-evict_first}
use travel_assistant.RedisClient.{Moment}
use travel_assistant.StateAndSessions.Windows.{
  Window, Windows, Counters, local_state_max_entries, bound_windows, hit_local, sliding_hit,
  reset_counter, sliding_count,
}

-- One place is free after `bound_windows`.
length-bound_windows :
    (now : ℕ) (ws : Windows) → suc (length (bound_windows now ws)) ≤ local_state_max_entries
unfolding bound_windows
length-bound_windows now ws =
    let live = drop_where (λ e. leb e.1.expiry now) ws in
    ground
      (arith, length-evict_first (λ e. e.1.expiry) (length live + 1 - local_state_max_entries) live)

length-insert-le :
    (k : String) (v : Window) (ws : Windows)
    → suc (length ws) ≤ local_state_max_entries
    → length (Dict.insert k v ws) ≤ local_state_max_entries
length-insert-le k v ws h = ground (arith, length-insert k v ws)

length-hit_local :
    (now : ℕ) (key : String) (window : ℕ) (ws : Windows)
    → length (hit_local now key window ws).1 ≤ local_state_max_entries
unfolding hit_local
length-hit_local now key window ws =
    length-insert-le key _ (bound_windows now ws) (length-bound_windows now ws)

-- A call of the public functions, with the readings of the clock and the server's reply.
pub data Call : Type 0 where
  hit : Moment → Option (Option ℕ) → String → ℕ → Call
  count : Moment → Option (Option ℕ) → String → ℕ → Call
  reset : Moment → Option (Unit {0}) → String → Call

unfoldable pub run : List Call → Counters → Counters
run [] c = c
run (hit at reply key window ∷ calls) c = run calls (sliding_hit at reply key window c).1
run (count at reply key window ∷ calls) c = run calls (sliding_count at reply key window c).1
run (reset at reply key ∷ calls) c = run calls (reset_counter at reply key c)

-- Whatever the calls, the keys, the clock and the server's replies, the local table never holds
-- more than `LOCAL_STATE_MAX_ENTRIES` keys, if it did not before.
pub length-run :
    (calls : List Call) (c : Counters)
    → length c.1 ≤ local_state_max_entries
    → length (run calls c).1 ≤ local_state_max_entries
unfolding run sliding_hit sliding_count reset_counter
length-run [] c h = h
length-run (hit at reply key window ∷ calls) c h =
    length-run calls (sliding_hit at reply key window c).1
      (ground (arith, length-hit_local at.wall key (window * 1000) c.1))
length-run (count at reply key window ∷ calls) c h =
    length-run calls (sliding_count at reply key window c).1 (ground arith)
length-run (reset at reply key ∷ calls) c h =
    length-run calls (reset_counter at reply key c) (ground (arith, length-erase key c.1))
