-- ===== src/QuotaService/Tests.antt =====
-- Witnesses and tests for the spending gates.
use travel_assistant.Base.{
  ℕ, ◌≡◌, refl, String, some, none, [], ◌∷◌, arith, if◌then◌else◌, ◌==◌, string_eq, str, keep,
}
use travel_assistant.RedisClient.{Moment, closed}
use travel_assistant.StateAndSessions.Windows.Counts.{Hits, outage, times}
use travel_assistant.QuotaService.{too_frequent, enforce_llm_budget}
use travel_assistant.QuotaService.Log.{enforce_llm_budget-log}

abbrev at_wall : ℕ → Moment
at_wall t = record { wall = t; asked = t; failed = t }

abbrev windows : String → ℕ
windows key = if key == "quota:llm:min:7" then 60 else 86400

abbrev hits : Hits
hits =
    (at_wall 1000, "quota:llm:min:7")
    ∷ (at_wall 1000, "quota:llm:day:7")
    ∷ (at_wall 2000, "quota:llm:min:7")
    ∷ (at_wall 2000, "quota:llm:day:7")
    ∷ []

-- A third run in the minute, with two allowed.
enforce_llm_budget-log_example :
    (enforce_llm_budget 2 100
      (record { at = at_wall 3000; reply = none })
      (record { at = at_wall 3000; reply = none })
      7
      (outage windows hits (closed, []))).0
    ≡ some too_frequent
unfolding enforce_llm_budget outage str keep times
enforce_llm_budget-log_example =
    enforce_llm_budget-log windows 7 refl refl 2 100 hits (at_wall 3000) (at_wall 3000) closed
      (omega arith) (omega arith) (omega arith)
