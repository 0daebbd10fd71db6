-- ===== src/BudgetEngine.antt =====
-- travel-agent-python/app/services/budget_engine.py: the budget of a trip from its entries. Amounts are
-- hundredths: the columns hold two places, so `_money` changes nothing here. What
-- `_observed_flight_total` reads from the quotes, an amount and its remark, is a parameter.
mod Totals
mod Tests
use travel_assistant.Base.{
  ℕ, zero, suc, ◌+◌, ◌*◌, ◌/◌, String, Bool, true, false, not, ◌&&◌, ◌||◌, Option, none, some, List,
  [], ◌∷◌, ◌++◌, if◌then◌else◌, ◌==◌, string_eq, nat_eq, keep,
}

abbrev pub default_transport_per_day : ℕ
default_transport_per_day = 3500

-- The columns of an entry that count.
pub record Entry : Type 0 where
  pub item_type : String
  pub cost : Option ℕ

pub record Detail : Type 0 where
  pub itinerary_id : ℕ
  pub category : String
  pub amount : ℕ
  pub item_count : ℕ
  pub remark : String

unfoldable pub is_zero_cost_for : String → ℕ → Bool
is_zero_cost_for item_type cost = (item_type == "food" || item_type == "hotel") && cost == 0

-- `unit`: the price that counts.
unfoldable pub unit_of : Entry → Option ℕ
unfolding is_zero_cost_for
unit_of item = elim item.cost [
  | none ↦ none
  | some cost ↦ if is_zero_cost_for item.item_type cost then none else some cost
]

-- `value or 1`
abbrev pub or_one : Option ℕ → ℕ
or_one none = 1
or_one (some zero) = 1
or_one (some (suc n)) = suc n

-- `math.ceil(persons / 2)`
unfoldable pub rooms : ℕ → ℕ
rooms persons = (persons + 1) / 2

-- The sums and counts of the loop.
pub record Sums : Type 0 where
  pub ticket : ℕ
  pub meal : ℕ
  pub hotel : ℕ
  pub ticket_count : ℕ
  pub meal_count : ℕ
  pub hotel_count : ℕ

abbrev pub no_sums : Sums
no_sums = record {
  ticket = 0;
  meal = 0;
  hotel = 0;
  ticket_count = 0;
  meal_count = 0;
  hotel_count = 0;
}

-- The body of the loop at an entry with this price.
unfoldable pub add_unit : ℕ → String → ℕ → Sums → Sums
add_unit persons item_type unit s =
    if item_type == "attraction"
    then record s { ticket = s.ticket + unit; ticket_count = s.ticket_count + 1 }
    else if item_type == "food"
    then record s { meal = s.meal + unit; meal_count = s.meal_count + 1 }
    else if item_type == "hotel"
    then record s { hotel = s.hotel + unit * rooms persons; hotel_count = s.hotel_count + 1 }
    else s

unfoldable pub sum_items : ℕ → List Entry → Sums → Sums
sum_items persons [] s = s
sum_items persons (item ∷ items) s =
    sum_items persons items
      (elim (unit_of item) [ none ↦ s | some unit ↦ add_unit persons item.item_type unit s ])

-- `transport_price` of the city's row, if there is one and it is not zero.
unfoldable pub transport_per_day : Option ℕ → ℕ
transport_per_day none = default_transport_per_day
transport_per_day (some zero) = default_transport_per_day
transport_per_day (some (suc n)) = suc n

unfoldable pub transport_of : Option (ℕ × String) → Option ℕ → ℕ → ℕ → ℕ × String
unfolding transport_per_day
transport_of (some found) price days persons = found
transport_of none price days persons = (transport_per_day price * days * persons, "按城市系数×天数×人数")

-- `persons`, `days` are those of the trip, `price` the city's, `old` the rows of `budget_detail`: the
-- new rows of the trip, and all rows. Of a trip that is there; without one the code returns at once.
unfoldable pub recalculate :
    ℕ
    → Option ℕ
    → Option ℕ
    → Option ℕ
    → Option (ℕ × String)
    → List Entry
    → List Detail
    → List Detail × List Detail
unfolding sum_items transport_of keep
recalculate itinerary_id persons days price observed items old =
    let people = or_one persons in
    let s = sum_items people items no_sums in
    let (transport, remark) = transport_of observed price (or_one days) people in
    let created =
      record {
        itinerary_id = itinerary_id;
        category = "门票";
        amount = s.ticket * people;
        item_count = s.ticket_count;
        remark = "按景点票价×人数";
      }
      ∷ record {
        itinerary_id = itinerary_id;
        category = "餐饮";
        amount = s.meal * people;
        item_count = s.meal_count;
        remark = "按餐饮单价×人数";
      }
      ∷ record {
        itinerary_id = itinerary_id;
        category = "交通";
        amount = transport;
        item_count = or_one days;
        remark = remark;
      }
      ∷ record {
        itinerary_id = itinerary_id;
        category = "酒店";
        amount = s.hotel;
        item_count = s.hotel_count;
        remark = "按每晚房费×房间数合计";
      }
      ∷ [] in
    (created, keep (λ d. not (d.itinerary_id == itinerary_id)) old ++ created)
