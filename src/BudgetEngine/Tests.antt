-- ===== src/BudgetEngine/Tests.antt =====
-- Witnesses for the budget.
use travel_assistant.Base.{
  keep, not, nat_eq, ◌==◌, ◌++◌, false, ◌≡◌, refl, none, some, List, [], ◌∷◌, string_eq,
}
use travel_assistant.BudgetEngine.{Entry, recalculate}
use travel_assistant.BudgetEngine.Totals.{prices, at_least_one, four_rows, recalculate-prices}

abbrev entries : List Entry
entries =
    record { item_type = "attraction"; cost = some 6000 }
    ∷ record { item_type = "hotel"; cost = some 30_000 }
    ∷ record { item_type = "food"; cost = some 0 }
    ∷ record { item_type = "food"; cost = some 4550 }
    ∷ record { item_type = "attraction"; cost = some 0 }
    ∷ []

recalculate-prices_example :
    ((recalculate 7 (some 3) (some 2) none none entries []).0
      ≡ four_rows 7 (at_least_one (some 3)) (at_least_one (some 2)) none none entries)
    × ((recalculate 7 (some 3) (some 2) none none entries []).1
        ≡ keep (λ d. not (d.itinerary_id == 7)) []
          ++ four_rows 7 (at_least_one (some 3)) (at_least_one (some 2)) none none entries)
recalculate-prices_example = recalculate-prices 7 (some 3) (some 2) none none entries []

food_prices : prices false "food" entries ≡ 4550 ∷ []
unfolding prices
food_prices = refl
