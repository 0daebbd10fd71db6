-- ===== src/StateAndSessions/Windows.antt =====
-- The sliding windows of state_and_sessions.py: `_windows`, `_bound_windows`, `sliding_hit`,
-- `sliding_count` and `reset_counter`.
mod Bounds
pub mod Queue
pub mod Counts
mod Tests
use travel_assistant.Base.{
  ℕ, suc, ◌+◌, ◌-◌, ◌*◌, String, Bool, true, false, not, Option, none, some, List, [], ◌∷◌, ◌++◌,
  ltb, leb, ◌+ₛ◌, if◌then◌else◌, ◌==◌, string_eq, length, keep,
}
use travel_assistant.Dict.{lookup, insert, erase, erase_all, keys}
use travel_assistant.Dict.Distinct.{drop_where}
use travel_assistant.Dict.Evict.{evict_first}
use travel_assistant.RedisClient.{Breaker, Moment, try_redis, reset_for_tests as reset_client}

abbrev pub login_window_seconds : ℕ
login_window_seconds = 15 * 60

abbrev pub local_state_max_entries : ℕ
local_state_max_entries = 4096

-- The entry of a key: when its own window lapses, and the instants of its hits.
pub record Window : Type 0 where
  pub expiry : ℕ
  pub hits : List ℕ

abbrev pub Windows : Type 0
Windows = List (String × Window)

pub login_fail_key : String → String → String
login_fail_key ip username = "auth:login:fail:" +ₛ ip +ₛ "|" +ₛ username

pub register_key : String → String
register_key ip = "auth:register:" +ₛ ip

-- `_bound_windows`: called before an insertion, it leaves one place free.
unfoldable pub bound_windows : ℕ → Windows → Windows
unfolding drop_where evict_first
bound_windows now ws =
    if ltb (length ws) local_state_max_entries
    then ws
    else let live = drop_where (λ e. leb e.1.expiry now) ws in
      if ltb local_state_max_entries (length live + 1)
      then evict_first (λ e. e.1.expiry) (length live + 1 - local_state_max_entries) live
      else live

-- `while queue and queue[0] <= cutoff: queue.popleft()`, with `cutoff = now - window`.
unfoldable pub drop_lapsed : ℕ → ℕ → List ℕ → List ℕ
drop_lapsed now window [] = []
drop_lapsed now window (t ∷ queue) =
    if leb (t + window) now then drop_lapsed now window queue else t ∷ queue

unfoldable pub hits_of : Option Window → List ℕ
hits_of none = []
hits_of (some w) = w.hits

-- The part of `sliding_hit` under the lock.
unfoldable pub hit_local : ℕ → String → ℕ → Windows → ℕ × Windows
unfolding bound_windows lookup insert drop_lapsed hits_of
hit_local now key window ws =
    let ws' = bound_windows now ws in
    let queue = drop_lapsed now window (hits_of (lookup key ws') ++ now ∷ []) in
    (length queue, insert key (record { expiry = now + window; hits = queue }) ws')

-- The part of `sliding_count` under the lock: `sum(1 for ts in queue if ts > cutoff)`.
unfoldable pub count_local : ℕ → String → ℕ → Windows → ℕ
unfolding lookup hits_of keep
count_local now key window ws = length (keep (λ t. ltb now (t + window)) (hits_of (lookup key ws)))

-- `int(reply or 0)`
abbrev pub or_zero : Option ℕ → ℕ
or_zero none = 0
or_zero (some n) = n

abbrev pub Counters : Type 0
Counters = Breaker × Windows

-- `reply` is what the sorted set of the server holds after the hit.
unfoldable pub sliding_hit : Moment → Option (Option ℕ) → String → ℕ → Counters → ℕ × Counters
unfolding try_redis hit_local
sliding_hit at reply key window_seconds (b, ws) =
    let (answer, b') = try_redis at reply b in
    elim answer [
      | some n ↦ (or_zero n, (b', ws))
      | none ↦
          let (count, ws') = hit_local at.wall key (window_seconds * 1000) ws in (count, (b', ws'))
    ]

unfoldable pub sliding_count : Moment → Option (Option ℕ) → String → ℕ → Counters → ℕ × Counters
unfolding try_redis count_local
sliding_count at reply key window_seconds (b, ws) =
    let (answer, b') = try_redis at reply b in
    elim answer [
      | some n ↦ (or_zero n, (b', ws))
      | none ↦ (count_local at.wall key (window_seconds * 1000) ws, (b', ws))
    ]

-- The local counter goes whether or not the server deleted its own.
unfoldable pub reset_counter : Moment → Option (Unit {0}) → String → Counters → Counters
unfolding try_redis erase
reset_counter at reply key (b, ws) = let (answer, b') = try_redis at reply b in (b', erase key ws)

-- The part of `reset_for_tests` for the windows.
unfoldable pub reset_for_tests : Counters → Counters
unfolding reset_client
reset_for_tests (b, ws) = (reset_client b, [])
