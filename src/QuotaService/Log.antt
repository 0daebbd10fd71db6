-- ===== src/QuotaService/Log.antt =====
-- What the gates let through, by the log of the hits.
use text.Mathlib.TextLemmas.{append_cancel_right}
use text.Mathlib.TextEquality.{eq_iff}
use travel_assistant.Base.{
  ℕ, suc, ◌*◌, ◌≤◌, ◌<◌, ◌≡◌, ◌≢◌, String, Option, none, some, [], ◌∷◌, ◌++◌, arith, ltb, length,
  length-append, if◌then◌else◌, string_eq, keep, str,
}
use travel_assistant.RedisClient.{Moment, Breaker}
use travel_assistant.StateAndSessions.Windows.{local_state_max_entries, sliding_hit}
use travel_assistant.StateAndSessions.Windows.Queue.{fresh}
use travel_assistant.StateAndSessions.Windows.Counts.{
  Hits, outage, InOrder, log_of, times, sliding_hit-log, outage_snoc, InOrder-snoc, times_other,
}
use travel_assistant.QuotaService.{
  Refusal, too_frequent, daily_used_up, minute_key, day_key, minute_window_seconds,
  day_window_seconds, enforce_llm_budget,
}

minute-ne-day : (user_id : ℕ) → minute_key user_id ≢ day_key user_id
minute-ne-day u e = absurd (
    ground (
      arith,
      eq_iff "quota:llm:min:" "quota:llm:day:",
      append_cancel_right "quota:llm:min:" "quota:llm:day:" (str u) e,
    ))

-- The hits of a key in the window of so many seconds that ends now.
abbrev pub recent : ℕ → ℕ → String → Hits → ℕ
recent now seconds key hits = length (keep (fresh now (seconds * 1000)) (times key (log_of hits)))

-- What the gate is for, by the log of the hits.
abbrev pub verdict : ℕ → ℕ → ℕ → ℕ → Option Refusal
verdict runs_per_minute daily_runs in_minute in_day =
    if ltb runs_per_minute (suc in_minute)
    then some too_frequent
    else if ltb daily_runs (suc in_day)
    then some daily_used_up
    else none

length-snoc :
    (hits : Hits) (at : Moment) (key : String) → length (hits ++ (at, key) ∷ []) ≡ suc (length hits)
length-snoc hits at key = omega (arith, length-append hits ((at, key) ∷ []))

module _ (window_seconds : String → ℕ) (user_id : ℕ)
    (of_minute : window_seconds (minute_key user_id) ≡ minute_window_seconds)
    (of_day : window_seconds (day_key user_id) ≡ day_window_seconds) where
  -- While Redis is away, the gate on a user's runs counts exactly the hits that the log has in the
  -- last minute and in the last day, whatever the other users and gates did: it refuses where this run
  -- would be one too many, the minute first. Fewer hits than the table has places came before, and the
  -- clock does not run backwards.
  pub enforce_llm_budget-log :
      (runs_per_minute daily_runs : ℕ) (hits : Hits) (minute day : Moment) (b : Breaker)
      → InOrder 0 hits minute.wall
      → minute.wall ≤ day.wall
      → suc (length hits) < local_state_max_entries
      → (enforce_llm_budget runs_per_minute daily_runs
          (record { at = minute; reply = none })
          (record { at = day; reply = none })
          user_id
          (outage window_seconds hits (b, []))).0
        ≡ verdict runs_per_minute daily_runs
            (recent minute.wall minute_window_seconds (minute_key user_id) hits)
            (recent day.wall day_window_seconds (day_key user_id) hits)
  unfolding enforce_llm_budget
  enforce_llm_budget-log runs_per_minute daily_runs hits minute day b ordered le room =
      let mk = minute_key user_id in
      let dk = day_key user_id in
      let c = outage window_seconds hits (b, []) in
      let hits' = hits ++ (minute, mk) ∷ [] in
      let first : (sliding_hit minute none mk minute_window_seconds c).0
          ≡ suc (recent minute.wall minute_window_seconds mk hits) =
        rw of_minute at (
          sliding_hit-log window_seconds hits minute mk b (omega (arith, of_minute)) ordered
            (omega arith)) in
      let next : outage window_seconds hits' (b, [])
          ≡ (sliding_hit minute none mk minute_window_seconds c).1 =
        rw of_minute at (outage_snoc window_seconds hits minute mk (b, [])) in
      let second : (sliding_hit day none dk day_window_seconds
            (sliding_hit minute none mk minute_window_seconds c).1).0
          ≡ suc (recent day.wall day_window_seconds dk hits) =
        rw (of_day, next, times_other dk mk hits minute (minute-ne-day user_id)) at
          (sliding_hit-log window_seconds hits' day dk b (omega (arith, of_day))
            (InOrder-snoc 0 day.wall hits minute mk ordered le)
            (omega (arith, length-snoc hits minute mk))) in
      ground (arith, first, second)
