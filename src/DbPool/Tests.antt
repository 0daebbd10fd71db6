-- ===== src/DbPool/Tests.antt =====
-- Runs of the pool, and its theorems at inputs.
use travel_assistant.Base.{
  ℕ, ◌≡◌, refl, Bool, true, false, Option, none, some, [], ◌∷◌, arith, nat_eq, ◌==◌, keep,
}
use travel_assistant.Dict.{contains}
use travel_assistant.TaskPool.{remove_first}
use travel_assistant.DbPool.{
  Pool, max_size, ensure_pool, discard, get_nowait, got, exhausted, open_new, acquire_loop, acquire,
  put_nowait, release, close_all, pool_stats,
}
use travel_assistant.DbPool.Steps.{
  Run, takes, opens, releases, Reach, here, next, IsSound, Reach-IsSound,
}
use travel_assistant.DbPool.Alone.{Ends, acquire-Ends}

abbrev setting : Option ℕ
setting = some 2

abbrev fresh : Pool
fresh = record { queue = none; created = 0 }

-- One connection is idle; at most two may be open.
abbrev one_idle : Pool
one_idle = record { queue = some (7 ∷ []); created = 1 }

abbrev only_eight : ℕ → Bool
only_eight conn = conn == 8

-- The idle connection is dead, and a new one takes its place.
test_replaced :
    acquire setting only_eight (some 8) 2 one_idle ≡ got 8 (record { queue = some []; created = 1 })
unfolding acquire acquire_loop ensure_pool get_nowait discard open_new max_size
test_replaced = refl

test_full :
    acquire setting only_eight (some 8) 2 (record { queue = some []; created = 2 })
    ≡ exhausted (record { queue = some []; created = 2 })
unfolding acquire acquire_loop ensure_pool get_nowait discard open_new max_size
test_full = refl

-- A connection that was out when the pool was closed goes into the next pool, which does not count it.
test_after_close :
    pool_stats setting
      (release setting 7 false true (close_all (record { queue = some []; created = 1 })))
    ≡ record { created = 0; idle = 1; limit = 2 }
unfolding pool_stats release close_all ensure_pool put_nowait max_size discard
test_after_close = refl

acquire-Ends_example :
    Ends setting only_eight (some 8) one_idle (acquire setting only_eight (some 8) 2 one_idle)
unfolding max_size
acquire-Ends_example =
    acquire-Ends setting only_eight (some 8) 2 one_idle (omega arith) (omega arith) (omega arith)

abbrev start : Run
start = record { pool = one_idle; out = [] }

start-IsSound : IsSound setting start
unfolding max_size keep
start-IsSound = (refl, omega arith, λ c. ground arith)

abbrev end_state : Run
end_state = record { pool = record { queue = some (7 ∷ []); created = 2 }; out = 8 ∷ [] }

busy : Reach setting start end_state
unfolding get_nowait open_new release put_nowait ensure_pool max_size contains remove_first
busy =
    next
      (next (next here (takes _ 7 (record { queue = some []; created = 1 }) refl))
        (opens _ 8 (record { queue = some []; created = 2 }) refl refl))
      (releases _ 7 false true refl)

Reach-IsSound_example : IsSound setting end_state
Reach-IsSound_example = Reach-IsSound setting start end_state start-IsSound busy
