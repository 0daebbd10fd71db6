-- ===== src/ItineraryCommand/Order/Laws.antt =====
-- The positions of a day's entries after `reorder_items`.
use travel_assistant.Base.{
  ℕ, ◌-◌, ◌≡◌, refl, sym, ◌∙◌, ap, inl, inr, true, not, some, List, [], ◌∷◌, map, arith, nat_eq,
  length, keep, all, All, Bool-cases,
}
use travel_assistant.Dict.{contains}
use travel_assistant.DayPersistence.{Main}
use travel_assistant.CollaborationService.{done, require_writable_main}
use travel_assistant.ItineraryCommand.{
  Row, Tables, finished, tables, Services, NewIds, snapshot, logged, settle,
}
use travel_assistant.ItineraryCommand.Snapshots.{finished-Beside}
use travel_assistant.ItineraryCommand.Order.{
  ids_of, existing, names_all, check_order, set_order, reorder_items,
}
use travel_assistant.ItineraryCommand.Order.Positions.{
  get_elem?, position, position_absent, placed, set_order-map, get_elem-position,
}

minus_zero : (n : ℕ) → n - 0 ≡ n
minus_zero n = omega arith

module _ {C : Type 0} where
  -- Every entry that is shown of the day stands at its place in the list.
  abbrev pub InPlace : List ℕ → List (Row C) → Type 0
  InPlace order rows = All (λ row. get_elem? order row.sort_no ≡ some row.id) rows

  -- The rows that an order does not name.
  abbrev pub unnamed : List ℕ → List (Row C) → List (Row C)
  unnamed order items = keep (λ row. not (contains row.id order)) items

  existing-placed :
      (itinerary_id day_id : ℕ) (order : List ℕ) (items : List (Row C))
      → existing itinerary_id day_id (map (placed order 0) items)
        ≡ map (placed order 0) (existing itinerary_id day_id items)
  unfolding existing keep
  existing-placed itinerary_id day_id order [] = refl
  existing-placed itinerary_id day_id order (row ∷ items) =
      ground (arith, existing-placed itinerary_id day_id order items)

  get_elem-placed :
      (order : List ℕ) (row : Row C)
      → contains row.id order ≡ true
      → get_elem? order (position row.id order 0 row.sort_no) ≡ some row.id
  get_elem-placed order row h =
      ap (get_elem? order) (sym (minus_zero (position row.id order 0 row.sort_no)))
      ∙ (get_elem-position row.id order 0 row.sort_no h).1

  InPlace-placed :
      (order : List ℕ) (rows : List (Row C))
      → all (λ id. contains id order) (ids_of rows) ≡ true
      → InPlace order (map (placed order 0) rows)
  unfolding all
  InPlace-placed order [] h = tt
  InPlace-placed order (row ∷ rows) h =
      (get_elem-placed order row (ground arith), InPlace-placed order rows (ground arith))

  unnamed-placed :
      (order : List ℕ) (items : List (Row C))
      → unnamed order (map (placed order 0) items) ≡ unnamed order items
  unfolding keep
  unnamed-placed order [] = refl
  unnamed-placed order (row ∷ items) = elim (Bool-cases (contains row.id order)) [
    | inl named ↦ rw (named) (unnamed-placed order items)
    | inr other ↦
        rw (other, position_absent row.id order 0 row.sort_no other)
          (ap (λ l. row ∷ l) (unnamed-placed order items))
  ]

  length-map : (f : Row C → Row C) (rows : List (Row C)) → length (map f rows) ≡ length rows
  length-map f [] = refl
  length-map f (row ∷ rows) = omega (arith, length-map f rows)

  -- What the loop does to a day whose entries are all in the list.
  pub set_order-InPlace :
      (itinerary_id day_id : ℕ) (order : List ℕ) (items : List (Row C))
      → all (λ id. contains id order) (ids_of (existing itinerary_id day_id items)) ≡ true
      → InPlace order (existing itinerary_id day_id (set_order order 0 items))
        × (length (existing itinerary_id day_id (set_order order 0 items))
            ≡ length (existing itinerary_id day_id items))
        × (unnamed order (set_order order 0 items) ≡ unnamed order items)
  set_order-InPlace itinerary_id day_id order items h =
      rw (set_order-map order 0 items, existing-placed itinerary_id day_id order items)
        (
          InPlace-placed order (existing itinerary_id day_id items) h,
          length-map (placed order 0) (existing itinerary_id day_id items),
          unnamed-placed order items,
        )

names_all_lem :
    {C : Type 0} (order : List ℕ) (rows : List (Row C))
    → names_all order rows ≡ true
    → (length rows ≡ length order) × (all (λ id. contains id order) (ids_of rows) ≡ true)
unfolding names_all
names_all_lem order rows h = (ground arith, ground arith)

-- Where the user may write and the list names all entries of the day, `reorder_items` leaves each entry
-- that the day shows at its place in the list, which is as long as the day; it changes no row that the
-- list does not name.
pub reorder_items-InPlace :
    {C T : Type 0} (services : Services C T) (ids : NewIds) (user_id itinerary_id day_id : ℕ)
    (order : List ℕ) (s t : Tables C T) (main : Main)
    → require_writable_main user_id itinerary_id s.team ≡ done main
    → names_all order (existing itinerary_id day_id s.items) ≡ true
    → snapshot services user_id itinerary_id "reorder" "调整行程顺序前快照" ids.before s ≡ finished t
    → InPlace order (
        existing itinerary_id day_id
          (tables
            (reorder_items services ids user_id itinerary_id (some day_id) (some order) s)).items)
      × (length (
            existing itinerary_id day_id
              (tables (
                reorder_items services ids user_id itinerary_id
                  (some day_id)
                  (some order)
                  s)).items)
          ≡ length order)
      × (unnamed order
            (tables
              (reorder_items services ids user_id itinerary_id (some day_id) (some order) s)).items
          ≡ unnamed order s.items)
unfolding reorder_items check_order logged settle names_all
reorder_items-InPlace services ids user_id itinerary_id day_id order s t main may names snapped =
    let kept =
      finished-Beside services user_id itinerary_id "reorder" "调整行程顺序前快照" ids.before s t snapped in
    let named = names_all_lem order (existing itinerary_id day_id s.items) names in
    let places = set_order-InPlace itinerary_id day_id order s.items named.1 in
    rw (reorder_items, may, check_order, names, snapped, kept.2)
      (places.0, places.1 ∙ named.0, places.2)
