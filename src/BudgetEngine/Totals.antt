-- ===== src/BudgetEngine/Totals.antt =====
-- The loop's sums against the entries of each kind, and what a second calculation does.
use travel_assistant.Base.{
  ℕ, ◌+◌, ◌*◌, ◌≡◌, ◌≢◌, ◌∙◌, refl, ap, String, Bool, not, Option, none, some, List, [], ◌∷◌, ◌++◌,
  if◌then◌else◌, ◌==◌, string_eq, nat_eq, keep, keep-append, append_nil, length, ◌/◌, max, zero,
  suc, true, false, ◌&&◌, ◌||◌, arith, Option-cases, Bool-cases, inl, inr,
}
use travel_assistant.BudgetEngine.{
  Entry, Detail, unit_of, is_zero_cost_for, transport_per_day, or_one, rooms, Sums, no_sums,
  add_unit, sum_items, transport_of, recalculate,
}

-- The prices of the entries of one kind that have one; a price of zero is one of them where `free`
-- says so.
unfoldable pub prices : Bool → String → List Entry → List ℕ
prices free kind [] = []
prices free kind (item ∷ items) =
    let rest = prices free kind items in
    elim item.cost [
      | none ↦ rest
      | some cost ↦
          if item.item_type == kind && (free || not (cost == 0)) then cost ∷ rest else rest
    ]

-- The number in a column; where it is missing or zero, one.
abbrev pub at_least_one : Option ℕ → ℕ
at_least_one none = 1
at_least_one (some n) = max 1 n

-- The way there and about: what the quotes say, else the city's price for each day and person, which is
-- 35 where the city has none.
abbrev pub transport : Option (ℕ × String) → Option ℕ → ℕ → ℕ → ℕ
transport (some (amount, remark)) price days persons = amount
transport none none days persons = 3500 * days * persons
transport none (some price) days persons = (if price == 0 then 3500 else price) * days * persons

abbrev pub transport_remark : Option (ℕ × String) → String
transport_remark (some (amount, remark)) = remark
transport_remark none = "按城市系数×天数×人数"

unfoldable pub sum : List ℕ → ℕ
sum [] = 0
sum (n ∷ ns) = n + sum ns

-- Each price times `n`, added.
unfoldable pub sum_times : ℕ → List ℕ → ℕ
sum_times n [] = 0
sum_times n (u ∷ us) = u * n + sum_times n us

pub record Adds (persons : ℕ) (items : List Entry) (s s' : Sums) : Type 0 where
  pub ticket : s'.ticket ≡ s.ticket + sum (prices true "attraction" items)
  pub meal : s'.meal ≡ s.meal + sum (prices false "food" items)
  pub hotel : s'.hotel ≡ s.hotel + sum_times (rooms persons) (prices false "hotel" items)
  pub ticket_count : s'.ticket_count ≡ s.ticket_count + length (prices true "attraction" items)
  pub meal_count : s'.meal_count ≡ s.meal_count + length (prices false "food" items)
  pub hotel_count : s'.hotel_count ≡ s.hotel_count + length (prices false "hotel" items)

attraction_food : ◌≢◌ {A = String} "attraction" "food"
attraction_food = ground (arith, string_eq.same_iff "attraction" "food")

attraction_hotel : ◌≢◌ {A = String} "attraction" "hotel"
attraction_hotel = ground (arith, string_eq.same_iff "attraction" "hotel")

food_hotel : ◌≢◌ {A = String} "food" "hotel"
food_hotel = ground (arith, string_eq.same_iff "food" "hotel")

sum_items-Adds :
    (persons : ℕ) (items : List Entry) (s : Sums) → Adds persons items s (sum_items persons items s)
unfolding sum_items prices sum sum_times add_unit is_zero_cost_for unit_of
sum_items-Adds persons [] s = record {
  ticket = omega arith;
  meal = omega arith;
  hotel = omega arith;
  ticket_count = omega arith;
  meal_count = omega arith;
  hotel_count = omega arith;
}
sum_items-Adds persons (item ∷ items) s = elim (Option-cases item.cost) [
  | inl e ↦
      let r = sum_items-Adds persons items s in
      record {
        ticket = rw (sum_items, unit_of, prices, e) r.ticket;
        meal = rw (sum_items, unit_of, prices, e) r.meal;
        hotel = rw (sum_items, unit_of, prices, e) r.hotel;
        ticket_count = rw (sum_items, unit_of, prices, e) r.ticket_count;
        meal_count = rw (sum_items, unit_of, prices, e) r.meal_count;
        hotel_count = rw (sum_items, unit_of, prices, e) r.hotel_count;
      }
  | inr (unit, e) ↦
      let kind = item.item_type in
      let a = string_eq.same_iff kind "attraction" in
      let f = string_eq.same_iff kind "food" in
      let h = string_eq.same_iff kind "hotel" in
      elim (Bool-cases (is_zero_cost_for kind unit)) [
        | inl zero_cost ↦
            let r = sum_items-Adds persons items s in
            record {
              ticket =
                  rw (sum_items, unit_of, prices, e, zero_cost)
                    (ground
                      (arith, r.ticket, a, f, h, attraction_food, attraction_hotel, food_hotel));
              meal =
                  rw (sum_items, unit_of, prices, e, zero_cost)
                    (ground
                      (arith, r.meal, a, f, h, attraction_food, attraction_hotel, food_hotel));
              hotel =
                  rw (sum_items, unit_of, prices, e, zero_cost)
                    (ground
                      (arith, r.hotel, a, f, h, attraction_food, attraction_hotel, food_hotel));
              ticket_count =
                  rw (sum_items, unit_of, prices, e, zero_cost)
                    (ground (
                      arith, r.ticket_count, a, f, h, attraction_food, attraction_hotel, food_hotel,
                    ));
              meal_count =
                  rw (sum_items, unit_of, prices, e, zero_cost)
                    (ground (
                      arith, r.meal_count, a, f, h, attraction_food, attraction_hotel, food_hotel,
                    ));
              hotel_count =
                  rw (sum_items, unit_of, prices, e, zero_cost)
                    (ground (
                      arith, r.hotel_count, a, f, h, attraction_food, attraction_hotel, food_hotel,
                    ));
            }
        | inr counts ↦
            let r = sum_items-Adds persons items (add_unit persons kind unit s) in
            record {
              ticket =
                  rw (sum_items, unit_of, prices, e, counts)
                    (ground
                      (arith, r.ticket, a, f, h, attraction_food, attraction_hotel, food_hotel));
              meal =
                  rw (sum_items, unit_of, prices, e, counts)
                    (ground
                      (arith, r.meal, a, f, h, attraction_food, attraction_hotel, food_hotel));
              hotel =
                  rw (sum_items, unit_of, prices, e, counts)
                    (ground
                      (arith, r.hotel, a, f, h, attraction_food, attraction_hotel, food_hotel));
              ticket_count =
                  rw (sum_items, unit_of, prices, e, counts)
                    (ground (
                      arith, r.ticket_count, a, f, h, attraction_food, attraction_hotel, food_hotel,
                    ));
              meal_count =
                  rw (sum_items, unit_of, prices, e, counts)
                    (ground (
                      arith, r.meal_count, a, f, h, attraction_food, attraction_hotel, food_hotel,
                    ));
              hotel_count =
                  rw (sum_items, unit_of, prices, e, counts)
                    (ground (
                      arith, r.hotel_count, a, f, h, attraction_food, attraction_hotel, food_hotel,
                    ));
            }
      ]
]

-- The four rows of a trip, column by column.
unfoldable pub four_rows : ℕ → ℕ → ℕ → Option ℕ → Option (ℕ × String) → List Entry → List Detail
unfolding prices sum sum_times
four_rows itinerary_id persons days price observed items =
    record {
      itinerary_id = itinerary_id;
      category = "门票";
      amount = sum (prices true "attraction" items) * persons;
      item_count = length (prices true "attraction" items);
      remark = "按景点票价×人数";
    }
    ∷ record {
      itinerary_id = itinerary_id;
      category = "餐饮";
      amount = sum (prices false "food" items) * persons;
      item_count = length (prices false "food" items);
      remark = "按餐饮单价×人数";
    }
    ∷ record {
      itinerary_id = itinerary_id;
      category = "交通";
      amount = transport observed price days persons;
      item_count = days;
      remark = transport_remark observed;
    }
    ∷ record {
      itinerary_id = itinerary_id;
      category = "酒店";
      amount = sum_times ((persons + 1) / 2) (prices false "hotel" items);
      item_count = length (prices false "hotel" items);
      remark = "按每晚房费×房间数合计";
    }
    ∷ []

or_one-at_least_one : (n : Option ℕ) → or_one n ≡ at_least_one n
or_one-at_least_one none = refl
or_one-at_least_one (some zero) = omega arith
or_one-at_least_one (some (suc n)) = omega arith

transport_of-transport :
    (observed : Option (ℕ × String)) (price : Option ℕ) (days persons : ℕ)
    → transport_of observed price days persons
      ≡ (transport observed price days persons, transport_remark observed)
unfolding transport_of transport_per_day
transport_of-transport (some (amount, remark)) price days persons = refl
transport_of-transport none none days persons = refl
transport_of-transport none (some zero) days persons = ground arith
transport_of-transport none (some (suc n)) days persons = ground arith

-- What is written for a trip, of `at_least_one` persons and days: the rows of the other trips stay, in
-- their order, and after them come the trip's four, as `four_rows` writes them out. The prices of the
-- attractions, zero or not, and of the meals that are not zero, each added and times the persons; the
-- transport; and the nights' prices that are not zero, each times the rooms, one for two persons. Each
-- has the number of entries that count, or the days for the transport.
pub recalculate-prices :
    (itinerary_id : ℕ) (persons days price : Option ℕ) (observed : Option (ℕ × String))
    (items : List Entry) (old : List Detail)
    → ((recalculate itinerary_id persons days price observed items old).0
        ≡ four_rows itinerary_id (at_least_one persons) (at_least_one days) price observed items)
      × ((recalculate itinerary_id persons days price observed items old).1
          ≡ keep (λ d. not (d.itinerary_id == itinerary_id)) old
            ++ four_rows itinerary_id
                (at_least_one persons)
                (at_least_one days)
                price
                observed
                items)
unfolding recalculate four_rows rooms
recalculate-prices itinerary_id persons days price observed items old =
    let r = sum_items-Adds (or_one persons) items no_sums in
    let end : Sums = sum_items (or_one persons) items no_sums in
    let ticket : end.ticket ≡ sum (prices true "attraction" items) = omega (arith, r.ticket) in
    let meal : end.meal ≡ sum (prices false "food" items) = omega (arith, r.meal) in
    let hotel : end.hotel ≡ sum_times (rooms (or_one persons)) (prices false "hotel" items) =
      omega (arith, r.hotel) in
    let tickets : end.ticket_count ≡ length (prices true "attraction" items) =
      omega (arith, r.ticket_count) in
    let meals : end.meal_count ≡ length (prices false "food" items) = omega (arith, r.meal_count) in
    let hotels : end.hotel_count ≡ length (prices false "hotel" items) =
      omega (arith, r.hotel_count) in
    let way = transport_of-transport observed price (or_one days) (or_one persons) in
    rw
      (
        ← or_one-at_least_one persons,
        ← or_one-at_least_one days,
        ticket,
        meal,
        hotel,
        tickets,
        meals,
        hotels,
        way,
      )
      (refl, refl)

keep_twice : (p : Detail → Bool) (ds : List Detail) → keep p (keep p ds) ≡ keep p ds
unfolding keep
keep_twice p [] = refl
keep_twice p (d ∷ ds) = ground (arith, keep_twice p ds)

-- A second calculation from the same entries writes the same rows in place of the first ones: it leaves
-- all rows as they are.
pub recalculate-recalculate :
    (itinerary_id : ℕ) (persons days price : Option ℕ) (observed : Option (ℕ × String))
    (items : List Entry) (old : List Detail)
    → (recalculate itinerary_id persons days price observed items
        (recalculate itinerary_id persons days price observed items old).1).1
      ≡ (recalculate itinerary_id persons days price observed items old).1
unfolding recalculate keep
recalculate-recalculate itinerary_id persons days price observed items old =
    let created = (recalculate itinerary_id persons days price observed items old).0 in
    let mine : Detail → Bool = λ d. not (d.itinerary_id == itinerary_id) in
    let own : keep mine created ≡ [] = ground (arith, nat_eq.same_iff itinerary_id itinerary_id) in
    ap (λ l. l ++ created)
      (keep-append mine (keep mine old) created
        ∙ rw (keep_twice mine old, own) (append_nil (keep mine old)))
