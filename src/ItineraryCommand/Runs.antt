-- ===== src/ItineraryCommand/Runs.antt =====
-- The five edits of a trip's entries, one by one.
use travel_assistant.Base.{ℕ, String, Bool, true, false, refl, Option, none, some, List, ◌+ₛ◌, str}
use travel_assistant.DayPersistence.{Main}
use travel_assistant.CollaborationService.{Answer, denied, done, require_writable_main}
use travel_assistant.ItineraryCommand.{
  Row, Upsert, Tables, access, api_error, Checked, wrong, right, Result, failed, Services, NewIds,
  find_item, settle,
}
use travel_assistant.ItineraryCommand.Edits.{
  check_addition, insert_item, add_item, check_update, write_update, update_item, write_delete,
  delete_item, require_item, poi_id_of, operation, summary_before, summary_after,
}
use travel_assistant.ItineraryCommand.Order.{
  check_order, set_order, check_day, ordered_ids, reorder_items, optimize_day,
}
use travel_assistant.ItineraryCommand.Recorded.{Recorded, edit-Recorded}

pub data Edit (C : Type 0) : Type 0 where
  adds : ℕ → Option (Upsert C) → Edit C
  updates : ℕ → Option (Upsert C) → Edit C
  deletes : ℕ → Edit C
  reorders : ℕ → Option ℕ → Option (List ℕ) → Edit C
  optimizes : ℕ → ℕ → Edit C

module _ {C T : Type 0} (services : Services C T) (columns : List (Option C)) (enabled : Bool)
    (optimize : ℕ → List (Row C) → List String) where
  unfoldable pub edit : NewIds → ℕ → Edit C → Tables C T → Result C T
  unfolding add_item update_item delete_item reorder_items optimize_day
  edit ids user_id (adds itinerary_id request) s =
      add_item services columns ids user_id itinerary_id request s
  edit ids user_id (updates item_id request) s = update_item services ids user_id item_id request s
  edit ids user_id (deletes item_id) s = delete_item services ids user_id item_id s
  edit ids user_id (reorders itinerary_id day_id item_ids) s =
      reorder_items services ids user_id itinerary_id day_id item_ids s
  edit ids user_id (optimizes itinerary_id day_id) s =
      optimize_day services enabled optimize ids user_id itinerary_id day_id s

  -- The guards that the edits share: each of them ends in a failure that changes nothing.
  gate-Recorded :
      {A : Type 0} (user_id : ℕ) (s : Tables C T) (a : Answer Main) (c : Checked A)
      (go : A → Result C T)
      → ((x : A) → Recorded services user_id s (go x))
      → Recorded services user_id s (elim a [
        | denied e ↦ failed (access e) s
        | done main ↦ elim c [ wrong e ↦ failed e s | right x ↦ go x ]
      ])
  gate-Recorded user_id s (denied e) c go h = refl
  gate-Recorded user_id s (done main) (wrong e) go h = refl
  gate-Recorded user_id s (done main) (right x) go h = h x

  add_item-Recorded :
      (ids : NewIds) (user_id itinerary_id : ℕ) (request : Option (Upsert C)) (s : Tables C T)
      → Recorded services user_id s (add_item services columns ids user_id itinerary_id request s)
  unfolding add_item insert_item settle
  add_item-Recorded ids user_id itinerary_id request s =
      gate-Recorded user_id s (require_writable_main user_id itinerary_id s.team)
        (check_addition services.texts itinerary_id request s.days) _
        (λ new.
          edit-Recorded services user_id itinerary_id "add_item" "新增行程项前快照" "新增行程项完成" ids.before
            ids.later
            (insert_item services columns ids.item user_id itinerary_id new
              (poi_id_of new.upsert.fields))
            s (λ t. refl))

  require_item-Recorded :
      (user_id item_id : ℕ) (go : Row C → Result C T) (s : Tables C T)
      → ((row : Row C) → Recorded services user_id s (go row))
      → Recorded services user_id s (require_item user_id item_id go s)
  require_item-Recorded user_id item_id go s h =
      elim (find_item item_id s.items)
        as (λ found. Recorded services user_id s (elim found [
          | none ↦ failed (api_error 404 "行程项不存在") s
          | some row ↦ elim (require_writable_main user_id row.itinerary_id s.team) [
            | denied e ↦ failed (access e) s
            | done main ↦ go row
          ]
        ])) [
          | none ↦ refl
          | some row ↦
              gate-Recorded user_id s (require_writable_main user_id row.itinerary_id s.team)
                (right row) go h
        ]

  checked-Recorded :
      {A : Type 0} (user_id : ℕ) (s : Tables C T) (c : Checked A) (go : A → Result C T)
      → ((x : A) → Recorded services user_id s (go x))
      → Recorded services user_id s (elim c [ wrong e ↦ failed e s | right x ↦ go x ])
  checked-Recorded user_id s (wrong e) go h = refl
  checked-Recorded user_id s (right x) go h = h x

  update_item-Recorded :
      (ids : NewIds) (user_id item_id : ℕ) (request : Option (Upsert C)) (s : Tables C T)
      → Recorded services user_id s (update_item services ids user_id item_id request s)
  unfolding update_item write_update settle
  update_item-Recorded ids user_id item_id request s =
      require_item-Recorded user_id item_id _ s (λ row.
        checked-Recorded user_id s (check_update services.texts request row s.days) _ (λ new.
          edit-Recorded services user_id row.itinerary_id (operation new.1) (summary_before new.1)
            (summary_after new.1) ids.before ids.later
            (write_update services user_id row.itinerary_id item_id new.0 new.1) s (λ t. refl)))

  delete_item-Recorded :
      (ids : NewIds) (user_id item_id : ℕ) (s : Tables C T)
      → Recorded services user_id s (delete_item services ids user_id item_id s)
  unfolding delete_item write_delete settle
  delete_item-Recorded ids user_id item_id s = require_item-Recorded user_id item_id _ s (λ row.
      edit-Recorded services user_id row.itinerary_id "delete_item" "删除行程项前快照" "删除行程项完成" ids.before
        ids.later (write_delete services user_id row) s (λ t. refl))

  reorder_items-Recorded :
      (ids : NewIds) (user_id itinerary_id : ℕ) (day_id : Option ℕ) (item_ids : Option (List ℕ))
      (s : Tables C T)
      → Recorded services user_id s
          (reorder_items services ids user_id itinerary_id day_id item_ids s)
  unfolding reorder_items settle
  reorder_items-Recorded ids user_id itinerary_id day_id item_ids s =
      gate-Recorded user_id s (require_writable_main user_id itinerary_id s.team)
        (check_order itinerary_id day_id item_ids s.items) _
        (λ order.
          edit-Recorded services user_id itinerary_id "reorder" "调整行程顺序前快照" "调整行程顺序完成" ids.before
            ids.later
            (λ t.
              settle services user_id itinerary_id (record t { items = set_order order 0 t.items }))
            s (λ t. refl))

  optimize_day-Recorded :
      (on : Bool) (ids : NewIds) (user_id itinerary_id day_id : ℕ) (s : Tables C T)
      → Recorded services user_id s
          (optimize_day services on optimize ids user_id itinerary_id day_id s)
  unfolding optimize_day
  optimize_day-Recorded false ids user_id itinerary_id day_id s = refl
  optimize_day-Recorded true ids user_id itinerary_id day_id s =
      gate-Recorded user_id s (require_writable_main user_id itinerary_id s.team)
        (check_day itinerary_id day_id s) _
        (λ ready.
          edit-Recorded services user_id itinerary_id "optimize"
            ("优化路线前快照（第 " +ₛ (str ready.0.day_no +ₛ " 天）"))
            ("优化路线完成（第 " +ₛ (str ready.0.day_no +ₛ " 天）")) ids.before ids.later
            (λ t. record t {
              items = set_order (ordered_ids (optimize ready.0.day_no ready.1) ready.1) 0 t.items;
              others = services.invalidate_pending_actions user_id itinerary_id t.others;
            })
            s (λ t. refl))

-- Each of the five edits (addition, update or move, deletion, reordering, optimisation), where no other
-- member writes during it, either fails and leaves every table as it was, or finishes and has left a
-- version of a trip, with that trip's details as they were before the edit.
pub edit-Recorded_all :
    {C T : Type 0} (services : Services C T) (columns : List (Option C)) (enabled : Bool)
    (optimize : ℕ → List (Row C) → List String) (ids : NewIds) (user_id : ℕ) (e : Edit C)
    (s : Tables C T)
    → Recorded services user_id s (edit services columns enabled optimize ids user_id e s)
unfolding edit
edit-Recorded_all services columns enabled optimize ids user_id (adds itinerary_id request) s =
    add_item-Recorded services columns enabled optimize ids user_id itinerary_id request s
edit-Recorded_all services columns enabled optimize ids user_id (updates item_id request) s =
    update_item-Recorded services columns enabled optimize ids user_id item_id request s
edit-Recorded_all services columns enabled optimize ids user_id (deletes item_id) s =
    delete_item-Recorded services columns enabled optimize ids user_id item_id s
edit-Recorded_all services columns enabled optimize ids user_id
      (reorders itinerary_id day_id item_ids) s =
    reorder_items-Recorded services columns enabled optimize ids user_id itinerary_id day_id
      item_ids s
edit-Recorded_all services columns enabled optimize ids user_id (optimizes itinerary_id day_id) s =
    optimize_day-Recorded services columns enabled optimize enabled ids user_id itinerary_id day_id
      s
