-- ===== src/ItineraryCommand/Order.antt =====
-- `reorder_items` and `optimize_day` of services/itinerary_command.py. The optimiser is a parameter: the
-- names of the plan that it returns.
pub mod Positions
pub mod Laws
pub mod Buckets
pub mod Optimized
use travel_assistant.Base.{
  ℕ, zero, suc, ◌+◌, String, Bool, true, false, not, ◌&&◌, ◌||◌, Option, none, some, List, [], ◌∷◌,
  ◌++◌, map, ltb, all, if◌then◌else◌, ◌==◌, string_eq, nat_eq, length, keep, ◌+ₛ◌, str,
}
use travel_assistant.Dict.{contains, lookup, insert}
use travel_assistant.Dict.Evict.{sort_by}
use travel_assistant.DayPersistence.{Day}
use travel_assistant.CollaborationService.{Team, Answer, denied, done, require_writable_main}
use travel_assistant.ItineraryCommand.{
  Row, Tables, Error, access, api_error, Checked, wrong, right, Result, failed, finished, Services,
  NewIds, update_row, shown, find_day, snapshot, logged, then_write, settle,
}

-- `by_name.setdefault(row.poi_name or "", []).append(row.id)`
abbrev pub add_to : Option (List ℕ) → ℕ → List ℕ
add_to none id = id ∷ []
add_to (some bucket) id = bucket ++ (id ∷ [])

module _ {C : Type 0} where
  abbrev pub ids_of : List (Row C) → List ℕ
  ids_of rows = map (λ row. row.id) rows

  -- `select(…).where(day_id, itinerary_id)`
  unfoldable pub existing : ℕ → ℕ → List (Row C) → List (Row C)
  unfolding keep
  existing itinerary_id day_id items =
      keep (λ row. row.day_id == day_id && row.itinerary_id == itinerary_id && not row.deleted)
        items

  -- The same length and the same set of ids.
  unfoldable pub names_all : List ℕ → List (Row C) → Bool
  unfolding contains all
  names_all item_ids rows =
      length item_ids == length rows
      && (all (λ id. contains id (ids_of rows)) item_ids
          && all (λ id. contains id item_ids) (ids_of rows))

  unfoldable pub check_order : ℕ → Option ℕ → Option (List ℕ) → List (Row C) → Checked (List ℕ)
  unfolding existing names_all
  check_order itinerary_id none item_ids items = wrong (api_error 400 "日期和行程项顺序不能为空")
  check_order itinerary_id (some day_id) none items = wrong (api_error 400 "日期和行程项顺序不能为空")
  check_order itinerary_id (some day_id) (some item_ids) items =
      if names_all item_ids (existing itinerary_id day_id items)
      then right item_ids
      else wrong (api_error 400 "行程项顺序必须包含该日期的全部行程项")

  -- `for index, item_id in enumerate(item_ids)`, from an index on.
  unfoldable pub set_order : List ℕ → ℕ → List (Row C) → List (Row C)
  unfolding update_row
  set_order [] index items = items
  set_order (id ∷ ids) index items =
      set_order ids (suc index) (update_row id (λ row. record row { sort_no = index }) items)

  unfoldable pub by_name : List (Row C) → List (String × List ℕ) → List (String × List ℕ)
  unfolding lookup insert
  by_name [] buckets = buckets
  by_name (row ∷ rows) buckets =
      by_name rows (insert row.poi_name (add_to (lookup row.poi_name buckets) row.id) buckets)

-- The ids that `bucket.pop(0)` gives for the names of the plan, and the buckets that are left.
abbrev pub pop_bucket :
    String → Option (List ℕ) → List (String × List ℕ) → List ℕ × List (String × List ℕ)
pop_bucket name none buckets = ([], buckets)
pop_bucket name (some []) buckets = ([], buckets)
pop_bucket name (some (id ∷ bucket)) buckets = (id ∷ [], insert name bucket buckets)

unfoldable pub pair_names : List String → List (String × List ℕ) → List ℕ × List (String × List ℕ)
unfolding lookup insert
pair_names [] buckets = ([], buckets)
pair_names (name ∷ names) buckets =
    let popped : List ℕ × List (String × List ℕ) = pop_bucket name (lookup name buckets) buckets in
    let rest : List ℕ × List (String × List ℕ) = pair_names names popped.1 in
    (popped.0 ++ rest.0, rest.1)

unfoldable pub all_buckets : List (String × List ℕ) → List ℕ
all_buckets [] = []
all_buckets ((name, bucket) ∷ buckets) = bucket ++ all_buckets buckets

-- `names` are those of the optimised plan.
unfoldable pub ordered_ids : {C : Type 0} → List String → List (Row C) → List ℕ
unfolding pair_names by_name all_buckets
ordered_ids names rows =
    let paired : List ℕ × List (String × List ℕ) = pair_names names (by_name rows []) in
    paired.0 ++ all_buckets paired.1

-- The rows in the order of `sort_no`; at least two of them can be moved.
unfoldable pub check_day : {C T : Type 0} → ℕ → ℕ → Tables C T → Checked (Day × List (Row C))
unfolding find_day existing sort_by keep
check_day itinerary_id day_id s = elim (find_day itinerary_id day_id s.days) [
  | none ↦ wrong (api_error 404 "日期不存在")
  | some day ↦
      if ltb
        (length (
          keep (λ row. row.item_type == "attraction" || row.item_type == "food")
            (existing itinerary_id day_id s.items)))
        2
      then wrong (api_error 400 "当天不足 2 个可优化点位")
      else right (day, sort_by (λ row. row.sort_no) (existing itinerary_id day_id s.items))
]

module _ {C T : Type 0} (services : Services C T) where
  unfoldable pub reorder_items :
      NewIds → ℕ → ℕ → Option ℕ → Option (List ℕ) → Tables C T → Result C T
  unfolding check_order snapshot set_order settle logged
  reorder_items ids user_id itinerary_id day_id item_ids s =
      elim (require_writable_main user_id itinerary_id s.team) [
        | denied e ↦ failed (access e) s
        | done main ↦ elim (check_order itinerary_id day_id item_ids s.items) [
          | wrong e ↦ failed e s
          | right order ↦
              then_write
                (λ t. logged services user_id itinerary_id "reorder" "调整行程顺序完成" ids.later (
                  settle services user_id itinerary_id
                    (record t { items = set_order order 0 t.items })))
                (snapshot services user_id itinerary_id "reorder" "调整行程顺序前快照" ids.before s)
        ]
      ]

  -- `enabled` is the addon's switch; `optimize` gives the names of the plan made of these rows.
  unfoldable pub optimize_day :
      Bool → (ℕ → List (Row C) → List String) → NewIds → ℕ → ℕ → ℕ → Tables C T → Result C T
  unfolding check_day ordered_ids snapshot set_order logged
  optimize_day false optimize ids user_id itinerary_id day_id s =
      failed (api_error 404 "Not Found") s
  optimize_day true optimize ids user_id itinerary_id day_id s =
      elim (require_writable_main user_id itinerary_id s.team) [
        | denied e ↦ failed (access e) s
        | done main ↦ elim (check_day itinerary_id day_id s) [
          | wrong e ↦ failed e s
          | right (day, rows) ↦
              then_write
                (λ t.
                  logged services user_id itinerary_id "optimize"
                    ("优化路线完成（第 " +ₛ (str day.day_no +ₛ " 天）")) ids.later
                    (record t {
                      items = set_order (ordered_ids (optimize day.day_no rows) rows) 0 t.items;
                      others = services.invalidate_pending_actions user_id itinerary_id t.others;
                    }))
                (snapshot services user_id itinerary_id "optimize"
                  ("优化路线前快照（第 " +ₛ (str day.day_no +ₛ " 天）")) ids.before s)
        ]
      ]
