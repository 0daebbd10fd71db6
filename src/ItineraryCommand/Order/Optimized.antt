-- ===== src/ItineraryCommand/Order/Optimized.antt =====
-- The positions of a day's entries after `optimize_day`.
use travel_assistant.Base.{
  ℕ, ◌≡◌, refl, sym, ap, ◌∙◌, String, true, List, [], ◌∷◌, arith, ◌==◌, ◌+ₛ◌, str, nat_eq, length,
  keep,
}
use travel_assistant.Count.{count, count-all}
use travel_assistant.Dict.Evict.{sort_by, length-keep-sort_by}
use travel_assistant.DayPersistence.{Main, Day}
use travel_assistant.CollaborationService.{done, require_writable_main}
use travel_assistant.ItineraryCommand.{
  Row, Tables, right, finished, tables, Services, NewIds, snapshot, logged,
}
use travel_assistant.ItineraryCommand.Snapshots.{finished-Beside}
use travel_assistant.ItineraryCommand.Order.{ids_of, existing, ordered_ids, check_day, optimize_day}
use travel_assistant.ItineraryCommand.Order.Laws.{InPlace, unnamed, set_order-InPlace}
use travel_assistant.ItineraryCommand.Order.Buckets.{count-ordered_ids}

module _ {C : Type 0} where
  count-ids_of :
      (x : ℕ) (rows : List (Row C))
      → count x (ids_of rows) ≡ length (keep (λ row. row.id == x) rows)
  unfolding keep
  count-ids_of x [] = refl
  count-ids_of x (row ∷ rows) = ground (arith, count-ids_of x rows)

  count-sort_by :
      (x : ℕ) (rows : List (Row C))
      → count x (ids_of (sort_by (λ row. row.sort_no) rows)) ≡ count x (ids_of rows)
  count-sort_by x rows =
      count-ids_of x (sort_by (λ row. row.sort_no) rows)
      ∙ length-keep-sort_by (λ row. row.sort_no) (λ row. row.id == x) rows
      ∙ sym (count-ids_of x rows)

check_day-rows :
    {C T : Type 0} (itinerary_id day_id : ℕ) (s : Tables C T) (day : Day) (rows : List (Row C))
    → check_day itinerary_id day_id s ≡ right (day, rows)
    → sort_by (λ row. row.sort_no) (existing itinerary_id day_id s.items) ≡ rows
unfolding check_day
check_day-rows itinerary_id day_id s day rows e = ground arith

-- Where the user may write and the day has enough entries, `optimize_day` leaves each entry that the day
-- shows at its place in a list that has each of the day's ids as often as the day, whatever plan the
-- optimiser returns; it changes no row that is not of that list.
pub optimize_day-InPlace :
    {C T : Type 0} (services : Services C T) (optimize : ℕ → List (Row C) → List String)
    (ids : NewIds) (user_id itinerary_id day_id : ℕ) (s t : Tables C T) (main : Main) (day : Day)
    (rows : List (Row C))
    → require_writable_main user_id itinerary_id s.team ≡ done main
    → check_day itinerary_id day_id s ≡ right (day, rows)
    → snapshot services user_id itinerary_id "optimize"
        ("优化路线前快照（第 " +ₛ (str day.day_no +ₛ " 天）"))
        ids.before
        s
      ≡ finished t
    → ((x : ℕ)
        → count x (ordered_ids (optimize day.day_no rows) rows)
          ≡ count x (ids_of (existing itinerary_id day_id s.items)))
      × InPlace (ordered_ids (optimize day.day_no rows) rows) (
          existing itinerary_id day_id
            (tables (optimize_day services true optimize ids user_id itinerary_id day_id s)).items)
      × (unnamed
            (ordered_ids (optimize day.day_no rows) rows)
            (tables (optimize_day services true optimize ids user_id itinerary_id day_id s)).items
          ≡ unnamed (ordered_ids (optimize day.day_no rows) rows) s.items)
unfolding optimize_day logged
optimize_day-InPlace services optimize ids user_id itinerary_id day_id s t main day rows may ready
      snapped =
    let kept =
      finished-Beside services user_id itinerary_id "optimize"
        ("优化路线前快照（第 " +ₛ (str day.day_no +ₛ " 天）")) ids.before s t snapped in
    let order : List ℕ = ordered_ids (optimize day.day_no rows) rows in
    let today : List (Row _) = existing itinerary_id day_id s.items in
    let often : (x : ℕ) → count x order ≡ count x (ids_of today) = (λ x.
      count-ordered_ids (optimize day.day_no rows) rows x
      ∙ ap (λ l. count x (ids_of l)) (sym (check_day-rows itinerary_id day_id s day rows ready))
      ∙ count-sort_by x today) in
    let all_there = count-all (ids_of today) order (λ x. omega (arith, often x)) in
    let places = set_order-InPlace itinerary_id day_id order s.items all_there in
    rw (optimize_day, may, ready, snapped, kept.2) (often, places.0, places.2)
