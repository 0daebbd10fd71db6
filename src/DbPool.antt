-- ===== src/DbPool.antt =====
-- travel-agent-python/app/common/db_pool.py: the pool of database connections. A connection is a number;
-- what pymysql answers to `connect`, `ping` and `rollback` is a parameter.
pub mod Steps
pub mod Alone
mod Tests
use travel_assistant.Base.{
  ℕ, zero, suc, ◌+◌, ◌-◌, Bool, true, false, ◌||◌, Option, none, some, List, [], ◌∷◌, ◌++◌, max,
  ltb, if◌then◌else◌, length,
}

-- The module's variables; the oldest connection of the queue comes first.
pub record Pool : Type 0 where
  pub queue : Option (List ℕ)
  pub created : ℕ

abbrev pub default_size : ℕ
default_size = 10

-- The setting is none where `int` refuses it.
unfoldable pub max_size : Option ℕ → ℕ
max_size none = default_size
max_size (some n) = max 1 n

abbrev pub idle_of : Option (List ℕ) → List ℕ
idle_of none = []
idle_of (some conns) = conns

abbrev pub idle : Pool → List ℕ
idle p = idle_of p.queue

unfoldable pub ensure_pool : Pool → Pool
ensure_pool p = record p { queue = some (idle p) }

unfoldable pub discard : Pool → Pool
discard p = record p { created = p.created - 1 }

unfoldable pub get_nowait : Pool → Option (ℕ × Pool)
get_nowait p = elim (idle p) [
  | [] ↦ none
  | conn ∷ rest ↦ some (conn, record p { queue = some rest })
]

-- What `acquire` ends with: a connection, the error of `connect`, or a `TimeoutError`.
pub data Acquired : Type 0 where
  got : ℕ → Pool → Acquired
  refused : Pool → Acquired
  exhausted : Pool → Acquired
  unfinished : Acquired

-- `answer` is the new connection, or none where `connect` raises.
abbrev pub connected : Option ℕ → Pool → Acquired
connected none p = refused (record p { created = p.created - 1 })
connected (some conn) p = got conn p

-- The block under the lock; none where the pool is at its limit.
unfoldable pub open_new : Option ℕ → Option ℕ → Pool → Option Acquired
unfolding max_size
open_new setting answer p =
    if ltb p.created (max_size setting)
    then some (connected answer (record p { created = suc p.created }))
    else none

abbrev pub or_wait : Option Acquired → Pool → Acquired
or_wait none p = exhausted p
or_wait (some a) p = a

-- The loop of `acquire`, where no other caller returns a connection during the wait.
unfoldable pub acquire_loop : Option ℕ → (ℕ → Bool) → Option ℕ → ℕ → Pool → Acquired
unfolding get_nowait open_new discard
acquire_loop setting alive answer zero p = unfinished
acquire_loop setting alive answer (suc fuel) p = elim (get_nowait p) [
  | none ↦ or_wait (open_new setting answer p) p
  | some (conn, rest) ↦
      let again = acquire_loop setting alive answer fuel (discard rest) in
      if alive conn then got conn rest else again
]

-- With a bound on the passes.
unfoldable pub acquire : Option ℕ → (ℕ → Bool) → Option ℕ → ℕ → Pool → Acquired
unfolding acquire_loop ensure_pool
acquire setting alive answer passes p = acquire_loop setting alive answer passes (ensure_pool p)

unfoldable pub put_nowait : Option ℕ → ℕ → Pool → Pool
unfolding max_size discard
put_nowait setting conn p =
    if ltb (length (idle p)) (max_size setting)
    then record p { queue = some (idle p ++ (conn ∷ [])) }
    else discard p

-- `rolled_back` is false where `get_autocommit` or `rollback` raises.
unfoldable pub release : Option ℕ → ℕ → Bool → Bool → Pool → Pool
unfolding put_nowait ensure_pool discard
release setting conn broken rolled_back p =
    if broken
    then discard p
    else if rolled_back
    then put_nowait setting conn (ensure_pool p)
    else discard p

unfoldable pub close_all : Pool → Pool
close_all p = record { queue = none; created = 0 }

pub record Stats : Type 0 where
  pub created : ℕ
  pub idle : ℕ
  pub limit : ℕ

unfoldable pub pool_stats : Option ℕ → Pool → Stats
unfolding max_size
pool_stats setting p = record {
  created = p.created;
  idle = length (idle p);
  limit = max_size setting;
}
