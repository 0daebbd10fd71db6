-- ===== src/RunLimits.antt =====
-- travel-agent-python/app/agent/runtime/run_limits.py: the hard limits of one agent run. Seconds are
-- milliseconds here. A method returns the new object and whether it raised `RunLimitExceeded`: the
-- counters are written before the test, so they stay written when it raises.
mod Laws
mod Tests
use travel_assistant.Base.{
  ℕ, ◌+◌, ◌-◌, ◌*◌, Bool, true, false, ◌&&◌, Option, none, some, ltb, leb, if◌then◌else◌, max,
}

-- The messages of `RunLimitExceeded`.
pub data Exceeded : Type 0 where
  deadline llm_budget retrieval_budget research_budget existence_budget replan_budget : Exceeded
  token_budget no_progress : Exceeded

pub data Kind : Type 0 where
  llm retrieval research existence replan other : Kind

pub record RunLimits : Type 0 where
  pub started_at : ℕ
  pub deadline_ms : ℕ
  pub max_llm_calls : ℕ
  pub max_tokens : ℕ
  pub max_replans : ℕ
  pub max_retrievals : ℕ
  pub max_research_calls : ℕ
  pub max_existence_checks : ℕ
  pub llm_calls : ℕ
  pub retrievals : ℕ
  pub research_calls : ℕ
  pub existence_checks : ℕ
  pub prompt_tokens : ℕ
  pub completion_tokens : ℕ
  pub replans : ℕ
  pub no_progress_count : ℕ

-- `time.monotonic() - started_at >= deadline_seconds`, where the deadline is set.
unfoldable pub past_deadline : ℕ → RunLimits → Bool
past_deadline now r = ltb 0 r.deadline_ms && leb (r.started_at + r.deadline_ms) now

-- A limit of 0 is no limit, except for the model calls and the replans.
abbrev pub spent_up : ℕ → ℕ → Bool
spent_up limit used = ltb 0 limit && leb limit used

exhausted : Kind → RunLimits → Option Exceeded
exhausted llm r = if leb r.max_llm_calls r.llm_calls then some llm_budget else none
exhausted retrieval r =
    if spent_up r.max_retrievals r.retrievals then some retrieval_budget else none
exhausted research r =
    if spent_up r.max_research_calls r.research_calls then some research_budget else none
exhausted existence r =
    if spent_up r.max_existence_checks r.existence_checks then some existence_budget else none
exhausted replan r = if leb r.max_replans r.replans then some replan_budget else none
exhausted other r = none

-- `check` raises or does nothing.
unfoldable pub check : ℕ → Kind → RunLimits → Option Exceeded
unfolding past_deadline exhausted
check now kind r = if past_deadline now r then some deadline else exhausted kind r

abbrev over : ℕ → ℕ → Exceeded → Option Exceeded
over limit used e = if ltb 0 limit && ltb limit used then some e else none

-- `n` is `int(n or 1)`.
unfoldable pub record_retrieval : ℕ → RunLimits → Option Exceeded × RunLimits
record_retrieval n r =
    let r' = record r { retrievals = r.retrievals + max 1 n } in
    (over r'.max_retrievals r'.retrievals retrieval_budget, r')

unfoldable pub record_research : ℕ → RunLimits → Option Exceeded × RunLimits
record_research n r =
    let r' = record r { research_calls = r.research_calls + max 1 n } in
    (over r'.max_research_calls r'.research_calls research_budget, r')

unfoldable pub record_existence : ℕ → RunLimits → Option Exceeded × RunLimits
record_existence n r =
    let r' = record r { existence_checks = r.existence_checks + max 1 n } in
    (over r'.max_existence_checks r'.existence_checks existence_budget, r')

unfoldable pub record_llm : ℕ → ℕ → RunLimits → Option Exceeded × RunLimits
record_llm prompt completion r =
    let r' = record r {
      llm_calls = r.llm_calls + 1;
      prompt_tokens = r.prompt_tokens + prompt;
      completion_tokens = r.completion_tokens + completion;
    } in
    (over r'.max_tokens (r'.prompt_tokens + r'.completion_tokens) token_budget, r')

unfoldable pub record_replan : ℕ → Bool → RunLimits → Option Exceeded × RunLimits
record_replan no_progress_limit progressed r =
    let r' = record r {
      replans = r.replans + 1;
      no_progress_count = if progressed then 0 else r.no_progress_count + 1;
    } in
    (if leb no_progress_limit r'.no_progress_count then some no_progress else none, r')
