-- ===== src/ScheduleOptimizer.antt =====
-- travel-agent-python/app/agent/generation/output/schedule_optimizer.py: the order and the times of a day's
-- visits. Minutes count from midnight; a cost is in hundredths. The regular expression of opening hours and
-- `parse_time` have run, and the matrix of routes is a function of two keys.
pub mod Search
pub mod Feasible
pub mod Best
mod Tests
use travel_assistant.Base.{
  ℕ, zero, suc, ◌+◌, ◌-◌, ◌*◌, String, Bool, true, false, not, ◌&&◌, ◌||◌, Option, none, some, List,
  [], ◌∷◌, ◌++◌, map, max, ltb, leb, if◌then◌else◌, ◌==◌, string_eq, nat_eq, length, keep, any, all,
}
use travel_assistant.Dict.{contains}
use travel_assistant.DayPersistence.{text_or}

-- An entry of the plan; `place` is its index among those that the search orders.
pub record Visit : Type 0 where
  pub place : ℕ
  pub item_type : String
  pub poi_id : Option String
  pub id : Option String
  pub poi_name : Option String
  pub name : Option String
  pub window : Option (ℕ × ℕ)
  pub duration_min : Option ℕ
  pub start_time : Option ℕ
  pub end_time : Option ℕ
  pub cost : ℕ

pub record Route : Type 0 where
  pub duration_min : ℕ
  pub source : String

pub record Settings : Type 0 where
  pub matrix : String → String → Option Route
  pub day_start : ℕ
  pub day_end : ℕ
  pub max_daily_minutes : ℕ
  pub budget_limit : Option ℕ
  pub required : List String
  pub locked : List String

abbrev pub or_else : Option String → String → String
or_else none rest = rest
or_else (some text) rest = if text == "" then rest else text

unfoldable pub visit_key : Visit → String
visit_key v = or_else v.poi_id (or_else v.id (or_else v.poi_name (or_else v.name "")))

abbrev pub between : Option ℕ → Option ℕ → ℕ
between none end = 120
between (some start) none = 120
between (some start) (some end) = if ltb start end then end - start else 120

unfoldable pub duration : Visit → ℕ
duration v = elim v.duration_min [ none ↦ between v.start_time v.end_time | some n ↦ max n 1 ]

-- A name in an f-string of Python's `str`.
abbrev pub matrix_name : Visit → String
matrix_name v = or_else v.poi_name (elim v.name [ none ↦ "None" | some name ↦ name ])

abbrev pub or_route : Option Route → Option Route → Option Route
or_route none other = other
or_route (some r) other = some r

unfoldable pub route_between : Settings → Visit → Visit → Option Route
unfolding visit_key
route_between s a b =
    or_route (s.matrix (visit_key a) (visit_key b)) (s.matrix (matrix_name a) (matrix_name b))

abbrev pub minutes_of : Option Route → ℕ
minutes_of none = 0
minutes_of (some r) = r.duration_min

-- The route from the visit before, if there is one.
abbrev pub route_from : Settings → Option Visit → Visit → Option Route
route_from s none v = none
route_from s (some before) v = route_between s before v

-- A visit with its times.
pub record Slot : Type 0 where
  pub visit : Visit
  pub start : ℕ
  pub finish : ℕ

pub data Reason : Type 0 where
  opening_hours end_of_day over_budget too_long over_limit : Reason

-- The variables of the loop over an order; of each list of visits the latest comes first.
pub record Progress : Type 0 where
  pub cursor : ℕ
  pub previous : Option Visit
  pub scheduled : List Slot
  pub violations : List (Visit × Reason)
  pub removed : List (Visit × Reason)
  pub travel_total : ℕ
  pub sources : List String
  pub spent : ℕ
  pub active_total : ℕ

abbrev pub opens_at : Option (ℕ × ℕ) → ℕ → ℕ
opens_at none n = n
opens_at (some (from, to)) n = max n from

abbrev pub closes_before : Option (ℕ × ℕ) → ℕ → Bool
closes_before none finish = false
closes_before (some (from, to)) finish = ltb to finish

abbrev pub too_dear : Option ℕ → ℕ → Bool
too_dear none n = false
too_dear (some limit) n = ltb limit n

-- Why the visit cannot end at `finish`, in the order of the tests.
unfoldable pub reason_of : Settings → Progress → Visit → ℕ → Option Reason
unfolding duration
reason_of s p v finish =
    if closes_before v.window finish
    then some opening_hours
    else if ltb s.day_end finish
    then some end_of_day
    else if too_dear s.budget_limit (p.spent + v.cost)
    then some over_budget
    else if ltb s.max_daily_minutes (p.active_total + duration v)
    then some too_long
    else none

abbrev pub display_name : Visit → String
display_name v = or_else v.poi_name (or_else v.name "未命名地点")

abbrev pub sources_of : Option Route → List String
sources_of none = []
sources_of (some r) = (if r.source == "" then "unknown" else r.source) ∷ []

unfoldable pub start_of : Settings → Progress → Visit → ℕ
unfolding route_between
start_of s p v = opens_at v.window (p.cursor + minutes_of (route_from s p.previous v))

-- What the loop does with a visit for which the tests gave this reason.
abbrev pub settle_visit : Settings → Progress → Visit → ℕ → ℕ → Option Reason → Progress
settle_visit s p v start finish none = record {
  cursor = finish;
  previous = some v;
  scheduled = record { visit = v; start = start; finish = finish } ∷ p.scheduled;
  violations = p.violations;
  removed = p.removed;
  travel_total = p.travel_total + minutes_of (route_from s p.previous v);
  sources = p.sources ++ sources_of (route_from s p.previous v);
  spent = p.spent + v.cost;
  active_total = p.active_total + duration v;
}
settle_visit s p v start finish (some reason) =
    if contains (display_name v) s.required
    then record p { violations = (v, reason) ∷ p.violations }
    else record p { removed = (v, reason) ∷ p.removed }

unfoldable pub visit_next : Settings → Progress → Visit → Progress
unfolding start_of duration reason_of contains route_between
visit_next s p v =
    settle_visit s p v (start_of s p v) (start_of s p v + duration v)
      (reason_of s p v (start_of s p v + duration v))

unfoldable pub visit_all : Settings → Progress → List Visit → Progress
unfolding visit_next
visit_all s p [] = p
visit_all s p (v ∷ vs) = visit_all s (visit_next s p v) vs

unfoldable pub begin : Settings → List (Visit × Reason) → Progress
begin s pre_removed = record {
  cursor = s.day_start;
  previous = none;
  scheduled = [];
  violations = [];
  removed = pre_removed;
  travel_total = 0;
  sources = [];
  spent = 0;
  active_total = 0;
}
