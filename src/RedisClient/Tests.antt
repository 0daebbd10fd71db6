-- ===== src/RedisClient/Tests.antt =====
-- Witnesses and tests for the Redis breaker.
use travel_assistant.Base.{◌≡◌, refl, true, false, [], ◌∷◌, arith}
use travel_assistant.RedisClient.{
  closed, is_down, note_failure, note_failures, is_down-note_failures,
}

is_down-note_failures_example :
    is_down 5999 (note_failures (3000 ∷ 5500 ∷ []) (note_failure 1000 closed)) ≡ true
is_down-note_failures_example =
    is_down-note_failures 1000 5999 (3000 ∷ 5500 ∷ []) closed first (omega arith)
  where
    first : is_down 1000 closed ≡ false
    first = unfold is_down in refl
