-- ===== src/RunLimits/Laws.antt =====
-- What the limits allow: a run that checks before it calls never makes more calls than its limit.
use travel_assistant.Base.{
  ℕ, ◌+◌, ◌≤◌, ◌<◌, ◌≡◌, refl, ◌⊎◌, Bool, Option, none, some, List, [], ◌∷◌, arith, All,
}
use travel_assistant.RunLimits.{
  RunLimits, Exceeded, llm, retrieval, research, existence, replan, check, record_llm,
  record_replan, record_retrieval, record_research, record_existence,
}

-- A use of the limits by an executor: it checks, and records one call only if the check let it pass.
pub data Use : Type 0 where
  call_llm : (now prompt completion : ℕ) → Use
  fetch study resolve : (now : ℕ) → Use
  retry : (now no_progress_limit : ℕ) → Bool → Use

abbrev pub time : Use → ℕ
time (call_llm now p c) = now
time (fetch now) = now
time (study now) = now
time (resolve now) = now
time (retry now limit progressed) = now

abbrev guarded : Option Exceeded → Option Exceeded × RunLimits → RunLimits → RunLimits
guarded none recorded r = recorded.1
guarded (some e) recorded r = r

unfoldable pub step : Use → RunLimits → RunLimits
unfolding check record_llm record_retrieval record_research record_existence record_replan
step (call_llm now p c) r = guarded (check now llm r) (record_llm p c r) r
step (fetch now) r = guarded (check now retrieval r) (record_retrieval 1 r) r
step (study now) r = guarded (check now research r) (record_research 1 r) r
step (resolve now) r = guarded (check now existence r) (record_existence 1 r) r
step (retry now limit progressed) r =
    guarded (check now replan r) (record_replan limit progressed r) r

unfoldable pub run : List Use → RunLimits → RunLimits
unfolding step
run [] r = r
run (u ∷ us) r = run us (step u r)

-- A limit of 0 is none.
abbrev pub Under : ℕ → ℕ → Type 0
Under limit used = (limit ≡ 0) ⊎ (used ≤ limit)

pub record Within (r : RunLimits) : Type 0 where
  pub llm_calls : r.llm_calls ≤ r.max_llm_calls
  pub replans : r.replans ≤ r.max_replans
  pub retrievals : Under r.max_retrievals r.retrievals
  pub research_calls : Under r.max_research_calls r.research_calls
  pub existence_checks : Under r.max_existence_checks r.existence_checks

step-Within : (u : Use) (r : RunLimits) → Within r → Within (step u r)
unfolding step
step-Within (call_llm now p c) r w = ground arith
step-Within (fetch now) r w = ground arith
step-Within (study now) r w = ground arith
step-Within (resolve now) r w = ground arith
step-Within (retry now limit progressed) r w = ground arith

-- A run whose executor checks before each call and records one call at a time keeps every count
-- within its limit, where a limit of 0 is none for the retrievals, the research and the existence
-- checks, if it started so.
pub run-Within : (us : List Use) (r : RunLimits) → Within r → Within (run us r)
unfolding run
run-Within [] r w = w
run-Within (u ∷ us) r w = run-Within us (step u r) (step-Within u r w)

step_late :
    (u : Use) (r : RunLimits)
    → 0 < r.deadline_ms
    → r.started_at + r.deadline_ms ≤ time u
    → step u r ≡ r
unfolding step
step_late (call_llm now p c) r set late = ground arith
step_late (fetch now) r set late = ground arith
step_late (study now) r set late = ground arith
step_late (resolve now) r set late = ground arith
step_late (retry now limit progressed) r set late = ground arith

-- From the deadline on, if one is set, an executor that checks records nothing of any kind.
pub run_late :
    (us : List Use) (r : RunLimits)
    → 0 < r.deadline_ms
    → All (λ u. r.started_at + r.deadline_ms ≤ time u) us
    → run us r ≡ r
unfolding run
run_late [] r set late = refl
run_late (u ∷ us) r set late = rw (step_late u r set late.0) (run_late us r set late.1)
