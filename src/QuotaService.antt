-- ===== src/QuotaService.antt =====
-- travel-agent-python/app/services/quota_service.py: the gates on what a user spends. The limits are
-- those of the settings; the windows are those of state_and_sessions.py.
mod Tests
mod Log
use travel_assistant.Base.{ℕ, String, Bool, Option, none, some, ltb, if◌then◌else◌, ◌+ₛ◌, str}
use travel_assistant.RedisClient.{Moment}
use travel_assistant.StateAndSessions.Windows.{Counters, sliding_hit}

-- The messages of `ApiError(429, …)`.
pub data Refusal : Type 0 where
  too_frequent daily_used_up queries_too_frequent tests_too_frequent : Refusal

abbrev pub minute_window_seconds : ℕ
minute_window_seconds = 60

abbrev pub day_window_seconds : ℕ
day_window_seconds = 86400

abbrev pub gateway_tests_per_minute : ℕ
gateway_tests_per_minute = 5

-- One call of `sliding_hit`: the readings of its clock and the server's reply.
pub record Asked : Type 0 where
  pub at : Moment
  pub reply : Option (Option ℕ)

abbrev pub minute_key : ℕ → String
minute_key user_id = "quota:llm:min:" +ₛ str user_id

abbrev pub day_key : ℕ → String
day_key user_id = "quota:llm:day:" +ₛ str user_id

-- The hit on the day window is made only if the minute window lets the call pass.
unfoldable pub enforce_llm_budget :
    (user_llm_runs_per_minute user_daily_llm_runs : ℕ)
    → Asked
    → Asked
    → ℕ
    → Counters
    → Option Refusal × Counters
unfolding sliding_hit
enforce_llm_budget runs_per_minute daily_runs minute day user_id c =
    let (per_minute, c') =
      sliding_hit minute.at minute.reply (minute_key user_id) minute_window_seconds c in
    if ltb runs_per_minute per_minute
    then (some too_frequent, c')
    else let (per_day, c'') =
        sliding_hit day.at day.reply (day_key user_id) day_window_seconds c' in
      if ltb daily_runs per_day then (some daily_used_up, c'') else (none, c'')

unfoldable pub enforce_live_quote_budget :
    (user_live_quotes_per_minute : ℕ) → Asked → ℕ → Counters → Option Refusal × Counters
unfolding sliding_hit
enforce_live_quote_budget quotes_per_minute minute user_id c =
    let (count, c') =
      sliding_hit minute.at minute.reply ("quota:live-quotes:min:" +ₛ str user_id)
        minute_window_seconds c in
    (if ltb quotes_per_minute count then some queries_too_frequent else none, c')

unfoldable pub enforce_gateway_test_budget : Asked → ℕ → Counters → Option Refusal × Counters
unfolding sliding_hit
enforce_gateway_test_budget minute user_id c =
    let (count, c') =
      sliding_hit minute.at minute.reply ("quota:gateway-test:min:" +ₛ str user_id)
        minute_window_seconds c in
    (if ltb gateway_tests_per_minute count then some tests_too_frequent else none, c')
