-- ===== src/RedisClient.antt =====
-- travel-agent-python/app/common/redis_client.py: the shared Redis client with its short breaker.
-- Instants and durations are whole milliseconds.
mod Tests
use travel_assistant.Base.{
  ℕ, ◌+◌, ◌≤◌, ◌<◌, ◌≡◌, Bool, true, false, Option, none, some, List, [], ◌∷◌, ap, arith, ltb,
  if◌then◌else◌, All,
}

abbrev pub breaker_cooldown : ℕ
breaker_cooldown = 5000

-- `built` says that `_client` is set; the client itself is the library's.
pub record Breaker : Type 0 where
  pub built : Bool
  pub down_until : ℕ

abbrev pub closed : Breaker
closed = record { built = false; down_until = 0 }

-- The readings of the clocks in one call: `time.time()`, `time.monotonic()` when the client is asked
-- for, and `time.monotonic()` when a failure is noted.
pub record Moment : Type 0 where
  pub wall : ℕ
  pub asked : ℕ
  pub failed : ℕ

unfoldable pub is_down : ℕ → Breaker → Bool
is_down now b = ltb now b.down_until

-- Whether there is a client, and the new state.
unfoldable pub client : ℕ → Breaker → Bool × Breaker
unfolding is_down
client now b = if is_down now b then (false, b) else (true, record b { built = true })

unfoldable pub note_failure : ℕ → Breaker → Breaker
note_failure now b =
    if ltb now b.down_until then b else record b { down_until = now + breaker_cooldown }

unfoldable pub reset_for_tests : Breaker → Breaker
reset_for_tests b = record b { built = false; down_until = 0 }

-- `try: … _redis() … except Exception: note_failure(exc)`. The server's reply is an argument, `none`
-- where it raises; the result is `none` where the caller goes on with its local table.
unfoldable pub try_redis {ℓ} : {A : Type ℓ} → Moment → Option A → Breaker → Option A × Breaker
unfolding client note_failure
try_redis at reply b =
    let (available, b') = client at.asked b in
    if available
    then elim reply [ none ↦ (none, note_failure at.failed b') | some a ↦ (some a, b') ]
    else (none, note_failure at.failed b')

pub try_redis_raised {ℓ} :
    {A : Type ℓ} (at : Moment) (b : Breaker) → (try_redis {A = A} at none b).0 ≡ none
unfolding try_redis
try_redis_raised at b = ground arith

-- A burst of failures.
pub note_failures : List ℕ → Breaker → Breaker
note_failures [] b = b
note_failures (t ∷ ts) b = note_failures ts (note_failure t b)

note_failures_open :
    (until : ℕ) (later : List ℕ) (b : Breaker)
    → b.down_until ≡ until
    → All (λ t. t < until) later
    → (note_failures later b).down_until ≡ until
unfolding note_failures note_failure
note_failures_open until [] b e h = e
note_failures_open until (t ∷ ts) b e h =
    note_failures_open until ts (note_failure t b) (ground (arith, h.0)) h.1

-- When a failure at `start` opens the breaker, failures before the end of the window do not
-- prolong it: the client is down at exactly the instants before `start` plus the cooldown.
pub is_down-note_failures :
    (start now : ℕ) (later : List ℕ) (b : Breaker)
    → is_down start b ≡ false
    → All (λ t. t < start + breaker_cooldown) later
    → is_down now (note_failures later (note_failure start b)) ≡ ltb now (start + breaker_cooldown)
unfolding is_down note_failure
is_down-note_failures start now later b up before =
    ap (λ until. ltb now until)
      (note_failures_open (start + breaker_cooldown) later (note_failure start b) (ground arith)
        before)
