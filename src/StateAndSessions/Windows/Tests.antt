-- ===== src/StateAndSessions/Windows/Tests.antt =====
-- Witnesses and tests for the sliding windows.
use travel_assistant.Base.{ℕ, ◌≡◌, none, some, List, [], ◌∷◌, arith, keep}
use travel_assistant.RedisClient.{Moment, closed}
use travel_assistant.StateAndSessions.Windows.{sliding_hit}
use travel_assistant.StateAndSessions.Windows.Bounds.{Call, hit, reset}
use travel_assistant.StateAndSessions.Windows.Counts.{Hits, outage, times, sliding_hit-log}

abbrev at_wall : ℕ → Moment
at_wall t = record { wall = t; asked = t; failed = t }

abbrev calls : List Call
calls =
    hit (at_wall 1000) none "a" 900
    ∷ hit (at_wall 2000) (some (some 3)) "b" 900
    ∷ reset (at_wall 3000) none "a"
    ∷ []

abbrev hits : Hits
hits =
    (at_wall 1000, "login")
    ∷ (at_wall 500_000, "login")
    ∷ (at_wall 600_000, "share")
    ∷ (at_wall 901_000, "login")
    ∷ []

-- The hit at 1000 has just left the window of 900 seconds that ends at 901000.
sliding_hit-log_example :
    (sliding_hit (at_wall 901_000) none "login" 900 (outage (λ _. 900) hits (closed, []))).0 ≡ 3
unfolding sliding_hit outage keep times
sliding_hit-log_example =
    sliding_hit-log (λ _. 900) hits (at_wall 901_000) "login" closed (omega arith) (omega arith)
      (omega arith)
