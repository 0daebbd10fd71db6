-- ===== src/StateAndSessions/Marks/Answers.antt =====
-- What `try_mark` makes of the server's answers.
use travel_assistant.Base.{ℕ, ◌<◌, ◌≡◌, String, true, false, none, some, arith, string_eq}
use travel_assistant.Dict.{lookup}
use travel_assistant.RedisClient.{Moment, is_down}
use travel_assistant.StateAndSessions.Windows.{local_state_max_entries}
use travel_assistant.StateAndSessions.Marks.{
  Locks, try_mark, try_mark_local, bound_marks, occupied_at,
}

-- Two calls for one key, the server answering the first with success and the second with null, as
-- it does where the key is there: both succeed, if no mark is in the local table for the key and it
-- has room. The answer of success is not entered in the local table.
pub try_mark_null_twice :
    (at later : Moment) (key : String) (ttl ttl' : ℕ) (locks : Locks)
    → is_down at.asked locks.0 ≡ false
    → is_down later.asked locks.0 ≡ false
    → lookup key (bound_marks later.wall locks.1).1 ≡ none
    → (bound_marks later.wall locks.1).0 < local_state_max_entries
    → ((try_mark at (some (some true)) key ttl locks).0 ≡ true)
      × ((try_mark later (some none) key ttl' (try_mark at (some (some true)) key ttl locks).1).0
          ≡ true)
unfolding try_mark try_mark_local occupied_at is_down
try_mark_null_twice at later key ttl ttl' (b, ms) up up' free room = ground arith
