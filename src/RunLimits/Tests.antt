-- ===== src/RunLimits/Tests.antt =====
-- Witnesses and tests for the run limits.
use travel_assistant.Base.{◌≡◌, refl, false, some, inr, [], ◌∷◌, List, arith}
use travel_assistant.RunLimits.{RunLimits, record_llm, record_replan, token_budget, no_progress}
use travel_assistant.RunLimits.Laws.{
  Use, call_llm, fetch, study, resolve, retry, Within, run, run-Within,
}

-- A fresh run with the defaults of the settings.
abbrev fresh : RunLimits
fresh = record {
  started_at = 5000;
  deadline_ms = 90_000;
  max_llm_calls = 32;
  max_tokens = 80_000;
  max_replans = 3;
  max_retrievals = 48;
  max_research_calls = 12;
  max_existence_checks = 24;
  llm_calls = 0;
  retrievals = 0;
  research_calls = 0;
  existence_checks = 0;
  prompt_tokens = 0;
  completion_tokens = 0;
  replans = 0;
  no_progress_count = 0;
}

abbrev uses : List Use
uses = call_llm 6000 900 200 ∷ fetch 7000 ∷ study 8000 ∷ resolve 9000 ∷ retry 10_000 2 false ∷ []

run-Within_example : Within (run uses fresh)
run-Within_example = run-Within uses fresh (record {
  llm_calls = omega arith;
  replans = omega arith;
  retrievals = inr (omega arith);
  research_calls = inr (omega arith);
  existence_checks = inr (omega arith);
})

no_progress_twice : (record_replan 2 false (record_replan 2 false fresh).1).0 ≡ some no_progress
unfolding record_replan
no_progress_twice = refl

tokens_passed : (record_llm 80_000 1 fresh).0 ≡ some token_budget
unfolding record_llm
tokens_passed = refl
