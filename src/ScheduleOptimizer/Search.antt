-- ===== src/ScheduleOptimizer/Search.antt =====
-- The search of `optimize_daily_plan`: the limit of attractions, the orders, their ranks and the choice.
use travel_assistant.Base.{
  ℕ, zero, suc, ◌+◌, ◌-◌, String, Bool, true, false, not, ◌&&◌, ◌||◌, Option, none, some, List, [],
  ◌∷◌, ◌++◌, map, ltb, leb, if◌then◌else◌, ◌==◌, string_eq, nat_eq, length, keep, any,
}
use travel_assistant.Dict.{contains}
use travel_assistant.ScheduleOptimizer.{
  Visit, Settings, Slot, Reason, Progress, visit_all, begin, over_limit,
}

abbrev pub max_permuted : ℕ
max_permuted = 7

module _ {ℓ} {A : Type ℓ} where
  -- Each element with the others, in their order.
  unfoldable pub picks : List A → List A → List (A × List A)
  picks front [] = []
  picks front (x ∷ xs) = (x, front ++ xs) ∷ picks (front ++ (x ∷ [])) xs

  -- The orders that begin with each of the picked elements.
  unfoldable pub starting_with : (List A → List (List A)) → List (A × List A) → List (List A)
  starting_with f [] = []
  starting_with f ((x, others) ∷ rest) = map (λ order. x ∷ order) (f others) ++ starting_with f rest

  -- `itertools.permutations`, in its order, of a list of this length.
  unfoldable pub permutations : ℕ → List A → List (List A)
  unfolding picks starting_with
  permutations zero xs = [] ∷ []
  permutations (suc n) xs = starting_with (permutations n) (picks [] xs)

unfoldable pub orders_of : List Visit → List (List Visit)
unfolding permutations
orders_of active =
    if leb (length active) max_permuted then permutations (length active) active else active ∷ []

abbrev pub is_locked : Settings → Visit → Bool
is_locked s v = elim v.poi_name [ none ↦ false | some name ↦ contains name s.locked ]

-- No locked visit is at another place.
unfoldable pub keeps_locked : Settings → List Visit → List Visit → Bool
unfolding contains
keeps_locked s [] order = true
keeps_locked s (v ∷ active) [] = true
keeps_locked s (v ∷ active) (w ∷ order) =
    (not (is_locked s v) || w.place == v.place) && keeps_locked s active order

-- What an order is ranked by: first the visits that it keeps, more is better; of the others less.
pub record Rank : Type 0 where
  pub kept : ℕ
  pub failing : ℕ
  pub travel : ℕ
  pub changes : ℕ

abbrev pub is_visit_named : String → Slot → Bool
is_visit_named name slot = elim slot.visit.poi_name [ none ↦ false | some found ↦ found == name ]

unfoldable pub missing : Settings → List Slot → ℕ
unfolding keep any
missing s slots = length (keep (λ name. not (any (is_visit_named name) slots)) s.required)

-- The sum of `abs(index - original_order[id(item)])`, from an index on.
unfoldable pub order_change : ℕ → List Visit → ℕ
order_change index [] = 0
order_change index (v ∷ order) =
    (index - v.place) + (v.place - index) + order_change (suc index) order

unfoldable pub rank_of : Settings → List Visit → Progress → Rank
unfolding missing order_change
rank_of s order p = record {
  kept = length p.scheduled;
  failing = length p.violations + missing s p.scheduled;
  travel = p.travel_total;
  changes = length p.removed + order_change 0 order;
}

-- Python's `>` on the tuples, whose last three numbers are negated.
unfoldable pub greater : Rank → Rank → Bool
greater a b =
    if ltb b.kept a.kept
    then true
    else if ltb a.kept b.kept
    then false
    else if ltb a.failing b.failing
    then true
    else if ltb b.failing a.failing
    then false
    else if ltb a.travel b.travel
    then true
    else if ltb b.travel a.travel
    then false
    else ltb a.changes b.changes

-- `if best is None or rank > best[0]`
abbrev pub better : Option (Rank × Progress) → Rank × Progress → Rank × Progress
better none new = new
better (some best) new = if greater new.0 best.0 then new else best

abbrev pub outcome : Settings → List (Visit × Reason) → List Visit → Rank × Progress
outcome s pre_removed order = (
  rank_of s order (visit_all s (begin s pre_removed) order),
  visit_all s (begin s pre_removed) order,
)

-- The loop over the orders.
unfoldable pub search :
    Settings
    → List (Visit × Reason)
    → List Visit
    → List (List Visit)
    → Option (Rank × Progress)
    → Option (Rank × Progress)
unfolding keeps_locked greater rank_of visit_all begin
search s pre_removed active [] best = best
search s pre_removed active (order ∷ orders) best =
    search s pre_removed active orders (
      if keeps_locked s active order
      then some (better best (outcome s pre_removed order))
      else best)

-- The best outcome; none is the failure of the assertion.
unfoldable pub optimize_active :
    Settings → List (Visit × Reason) → List Visit → Option (Rank × Progress)
unfolding search orders_of
optimize_active s pre_removed active = search s pre_removed active (orders_of active) none

abbrev pub is_required : Settings → Visit → Bool
is_required s v = elim v.poi_name [ none ↦ false | some name ↦ contains name s.required ]

-- Of more attractions than the limit the first ones and the required ones stay; `seen` counts them.
unfoldable pub trim : Settings → ℕ → ℕ → List Visit → List Visit × List (Visit × Reason)
unfolding contains
trim s limit seen [] = ([], [])
trim s limit seen (v ∷ visits) =
    let attraction = v.item_type == "attraction" in
    let rest : List Visit × List (Visit × Reason) =
      trim s limit (if attraction then suc seen else seen) visits in
    if attraction && not (ltb seen limit) && not (is_required s v)
    then (rest.0, (v, over_limit) ∷ rest.1)
    else (v ∷ rest.0, rest.1)

unfoldable pub with_places : ℕ → List Visit → List Visit
with_places index [] = []
with_places index (v ∷ visits) = record v { place = index } ∷ with_places (suc index) visits

abbrev pub is_active : Visit → Bool
is_active v = v.item_type == "attraction" || v.item_type == "food"

unfoldable pub in_order : List Slot → List Slot → List Slot
in_order [] later = later
in_order (slot ∷ slots) later = in_order slots (slot ∷ later)

-- `OptimizationResult`, less its score: the slots in the order of the day, then the other entries.
pub record Optimized : Type 0 where
  pub scheduled : List Slot
  pub inactive : List Visit
  pub violations : List (Visit × Reason)
  pub removed_candidates : List (Visit × Reason)
  pub travel_time_total_min : ℕ
  pub route_sources : List String

unfoldable pub optimize_daily_plan : Settings → ℕ → List Visit → Option Optimized
unfolding keep trim with_places optimize_active in_order
optimize_daily_plan s max_attractions items =
    let kept : List Visit × List (Visit × Reason) =
      trim s max_attractions 0 (keep is_active items) in
    elim (optimize_active s kept.1 (with_places 0 kept.0)) [
      | none ↦ none
      | some best ↦ some (record {
        scheduled = in_order best.1.scheduled [];
        inactive = keep (λ v. not (is_active v)) items;
        violations = best.1.violations;
        removed_candidates = best.1.removed;
        travel_time_total_min = best.1.travel_total;
        route_sources = best.1.sources;
      })
    ]
