-- ===== src/ExternalClient/Tests.antt =====
-- Witnesses and tests for the client of an outside source.
use travel_assistant.Base.{
  ℕ, ◌+◌, ◌≡◌, ◌≢◌, refl, Option, none, some, [], ◌∷◌, arith, string_eq, ◌-◌, zero, suc,
}
use travel_assistant.Dict.{lookup, insert, erase}
use travel_assistant.Dict.Bounded.{put_bounded}
use travel_assistant.ExternalClient.{
  Settings, Answer, one, Client, interval, acquire_slot, attempts, call_with_retry, call, cached,
  record_outcome, store, breaker_open, is_negative, lane_min_interval, resolve_key, clamp_bytes,
}
use travel_assistant.ExternalClient.Slots.{Spaced, call-Spaced}
use travel_assistant.ExternalClient.Outcomes.{IsBounded, call-IsBounded, call-call}
use travel_assistant.ExternalClient.Failures.{
  Request, asking, asking_all, return_of, or_null, call-failures,
}

abbrev weather : Settings
weather = record {
  ttl = 900_000;
  negative_ttl = 60_000;
  max_response_bytes = 262_144;
  max_entries = 2048;
  max_wait = 1500;
  min_interval = none;
  retry_attempts = 1;
  retry_backoff = 300;
  circuit_failure_threshold = 2;
  circuit_cooldown = 30_000;
}

abbrev fresh : Client ℕ
fresh = record { cache = []; lane_last = []; consecutive_failures = 0; breaker_open_until = 0 }

-- It raises before the instant 10 200, and answers 7 from then on; either takes 100 milliseconds.
abbrev recovers : ℕ → Option (Answer ℕ) × ℕ
recovers t = (elim (t - 10_199) [ zero ↦ none | suc _ ↦ some (one 7) ], 100)

recovers_asked :
    (call weather recovers "interactive" "city" 10_000 fresh).1.asked ≡ 10_000 ∷ 10_400 ∷ []
unfolding call call_with_retry attempts acquire_slot cached lookup insert interval
recovers_asked = refl

recovers_ended : (call weather recovers "interactive" "city" 10_000 fresh).1.ended ≡ 10_500
unfolding call call_with_retry attempts acquire_slot cached lookup insert interval
recovers_ended = refl

abbrev after : Client ℕ
after = (call weather recovers "interactive" "city" 10_000 fresh).1.client

call-Spaced_example :
    Spaced
      (interval weather "interactive")
      (0 + interval weather "interactive")
      (call weather recovers "interactive" "city" 10_000 fresh).1.asked
unfolding lookup
call-Spaced_example = call-Spaced weather "interactive" recovers "city" 10_000 fresh

call-IsBounded_example : IsBounded weather after.cache
call-IsBounded_example =
    call-IsBounded weather recovers "interactive" "city" 10_000 fresh (omega arith)
      (record { distinct = tt; within = omega arith })

call-call_example :
    ((call weather recovers "background" "city" 60_000 after).0
      ≡ (call weather recovers "interactive" "city" 10_000 fresh).0)
    × ((call weather recovers "background" "city" 60_000 after).1.asked ≡ [])
call-call_example =
    call-call weather recovers recovers "interactive" "background" "city" 10_000 60_000 fresh
      (omega arith) (record { distinct = tt; within = omega arith }) asked
      (omega (arith, recovers_ended)) (omega (arith, recovers_ended))
  where
    asked : (call weather recovers "interactive" "city" 10_000 fresh).1.asked ≢ []
    asked = rw recovers_asked (ground arith)

-- A source that is down: it raises, after 100 milliseconds.
abbrev down : ℕ → Option (Answer ℕ) × ℕ
down t = (none, 100)

abbrev ask : ℕ → Request ℕ
ask now = record { loader = down; lane = "interactive"; cache_key = "city"; now = now }

first_asked : (call weather down "interactive" "city" 10_000 fresh).1.asked ≢ []
first_asked =
    unfold call call_with_retry attempts acquire_slot cached lookup insert interval in ground arith

second_asked :
    (call weather down "interactive" "city" 80_000 (asking weather (ask 10_000) fresh)).1.asked ≢ []
unfolding call call_with_retry attempts acquire_slot cached store record_outcome breaker_open lookup
    insert erase interval put_bounded is_negative lane_min_interval
second_asked = ground arith

second_return : return_of weather (ask 80_000) (asking weather (ask 10_000) fresh) ≡ 80_500
unfolding call call_with_retry attempts acquire_slot cached store record_outcome breaker_open lookup
    insert erase interval put_bounded is_negative lane_min_interval
second_return = refl

call-failures_example :
    let tripped_client = asking weather (ask 80_000) (asking_all weather (ask 10_000 ∷ []) fresh) in
    ((call weather down "interactive" "city" 90_000 tripped_client).1.asked ≡ [])
    × ((call weather down "interactive" "city" 90_000 tripped_client).0
        ≡ or_null (cached weather 90_000 "city" tripped_client).0)
unfolding asking_all
call-failures_example =
    call-failures weather (ask 10_000 ∷ []) (ask 80_000) (ask 90_000) fresh refl refl
      (((λ n. refl), first_asked), tt) ((λ n. refl), second_asked) (omega (arith, second_return))

too_large : clamp_bytes weather (some 300_000) ≡ none
unfolding clamp_bytes
too_large = refl

second_key : resolve_key (λ s. s) (none ∷ some "" ∷ some "k" ∷ some "l" ∷ []) ≡ some "k"
unfolding resolve_key
second_key = refl
