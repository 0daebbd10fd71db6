-- ===== src/ScheduleOptimizer/Tests.antt =====
-- A day of two visits, and the theorem at it.
use travel_assistant.Base.{
  ℕ, ◌≡◌, refl, String, Option, none, some, [], ◌∷◌, string_eq, nat_eq, keep, any,
}
use travel_assistant.Dict.{contains}
use travel_assistant.ScheduleOptimizer.{
  Visit, Settings, visit_key, duration, route_between, reason_of, start_of, visit_next, visit_all,
  begin,
}
use travel_assistant.ScheduleOptimizer.Search.{
  picks, starting_with, permutations, orders_of, keeps_locked, missing, order_change, rank_of,
  greater, search, optimize_active, trim, with_places, in_order, optimize_daily_plan,
}

abbrev settings : Settings
settings = record {
  matrix = λ a b. some (record { duration_min = 20; source = "amap" });
  day_start = 540;
  day_end = 1230;
  max_daily_minutes = 480;
  budget_limit = none;
  required = [];
  locked = [];
}

abbrev visit : ℕ → String → Option (ℕ × ℕ) → Visit
visit place name window = record {
  place = place;
  item_type = "attraction";
  poi_id = none;
  id = none;
  poi_name = some name;
  name = none;
  window = window;
  duration_min = some 60;
  start_time = none;
  end_time = none;
  cost = 0;
}

-- The museum closes at ten, the garden opens at ten.
abbrev garden : Visit
garden = visit 0 "garden" (some (600, 1080))

abbrev museum : Visit
museum = visit 1 "museum" (some (540, 600))

test_swapped :
    optimize_daily_plan settings 6 (garden ∷ museum ∷ [])
    ≡ some (record {
      scheduled =
          record { visit = museum; start = 540; finish = 600 }
          ∷ record { visit = garden; start = 620; finish = 680 }
          ∷ [];
      inactive = [];
      violations = [];
      removed_candidates = [];
      travel_time_total_min = 20;
      route_sources = "amap" ∷ [];
    })
unfolding optimize_daily_plan trim with_places optimize_active in_order search orders_of
    permutations starting_with picks keeps_locked greater rank_of missing order_change visit_all
    visit_next start_of reason_of duration route_between visit_key begin contains keep any
test_swapped = refl
