-- ===== src/ItineraryCommand/Edits.antt =====
-- `add_item`, `update_item` and `delete_item` of services/itinerary_command.py.
pub mod Laws
use travel_assistant.Base.{
  ℕ, String, Bool, true, false, not, ◌&&◌, Option, none, some, List, [], ◌∷◌, ◌++◌, if◌then◌else◌,
  ◌==◌, ◌+ₛ◌, string_eq, nat_eq, str,
}
use travel_assistant.DayPersistence.{Texts, Day}
use travel_assistant.CollaborationService.{Team, Answer, denied, done, require_writable_main}
use travel_assistant.ItineraryCommand.{
  Row, Upsert, Tables, Error, access, api_error, Checked, wrong, right, Result, failed, finished,
  Services, NewIds, validate, copy_optional, next_sort, update_row, find_item, find_day, snapshot,
  logged, then_write, settle,
}

-- The columns of an addition that are given.
pub record Addition (C : Type 0) : Type 0 where
  pub day_id : ℕ
  pub item_type : String
  pub poi_name : String
  pub upsert : Upsert C

abbrev incomplete : Error
incomplete = api_error 400 "dayId、itemType、poiName 必填"

-- Where a day is found, the check has the answer `a`.
abbrev pub on_day {ℓ} : {A : Type ℓ} → Error → Checked A → Option Day → Checked A
on_day e a none = wrong e
on_day e a (some day) = a

abbrev pub unless {ℓ} : {A : Type ℓ} → Option Error → Checked A → Checked A
unless none a = a
unless (some e) a = wrong e

abbrev pub new_type : Option String → String → String
new_type none old = old
new_type (some given) old = given

abbrev pub new_name : Texts → Option String → String → String
new_name texts none old = old
new_name texts (some given) old = if texts.strip given == "" then old else given

module _ {C : Type 0} (texts : Texts) where
  abbrev pub check_fields :
      Option ℕ → Option String → Option String → Upsert C → ℕ → List Day → Checked (Addition C)
  check_fields (some day_id) (some item_type) (some poi_name) upsert itinerary_id days =
      if texts.strip poi_name == ""
      then wrong incomplete
      else unless (validate upsert) (
          on_day (api_error 404 "日期不存在")
            (right (record {
              day_id = day_id;
              item_type = item_type;
              poi_name = poi_name;
              upsert = upsert;
            }))
            (find_day itinerary_id day_id days))
  check_fields none item_type poi_name upsert itinerary_id days = wrong incomplete
  check_fields (some day_id) none poi_name upsert itinerary_id days = wrong incomplete
  check_fields (some day_id) (some item_type) none upsert itinerary_id days = wrong incomplete

  unfoldable pub check_addition : ℕ → Option (Upsert C) → List Day → Checked (Addition C)
  unfolding validate find_day
  check_addition itinerary_id none days = wrong incomplete
  check_addition itinerary_id (some r) days =
      check_fields r.day_id r.item_type r.poi_name r itinerary_id days

  -- The day that an update moves the entry to, if it moves it.
  abbrev pub target : Option ℕ → Row C → List Day → Checked (Option Day)
  target none row days = right none
  target (some day_id) row days =
      if day_id == row.day_id then right none else elim (find_day row.itinerary_id day_id days) [
        | none ↦ wrong (api_error 400 "目标日不属于该行程")
        | some day ↦ right (some day)
      ]

  unfoldable pub check_update :
      Option (Upsert C) → Row C → List Day → Checked (Upsert C × Option Day)
  unfolding validate find_day
  check_update none row days = wrong (api_error 400 "请求不能为空")
  check_update (some r) row days =
      unless (validate r)
        (elim (target r.day_id row days) [ wrong e ↦ wrong e | right day ↦ right (r, day) ])

  -- `_move_to_day` at the end: the position is read before the day changes.
  abbrev pub moved : Option Day → List (Row C) → Row C → Row C
  moved none items row = row
  moved (some day) items row = record row { day_id = day.id; sort_no = next_sort day.id items }

  unfoldable pub updated_row : Upsert C → Option Day → List (Row C) → Row C → Row C
  unfolding copy_optional next_sort
  updated_row r day items row = moved day items (record row {
    item_type = new_type r.item_type row.item_type;
    poi_name = new_name texts r.poi_name row.poi_name;
    columns = copy_optional r.fields row.columns;
  })

-- `poiId` is the first of the fields.
abbrev pub poi_id_of : {C : Type 0} → List (Option C) → Option C
poi_id_of [] = none
poi_id_of (field ∷ fields) = field

abbrev pub operation : Option Day → String
operation none = "update_item"
operation (some day) = "move_item"

abbrev pub summary_before : Option Day → String
summary_before none = "更新行程项前快照"
summary_before (some day) = "跨天移动前快照（目标第 " +ₛ (str day.day_no +ₛ " 天）")

abbrev pub summary_after : Option Day → String
summary_after none = "更新行程项完成"
summary_after (some day) = "移动到第 " +ₛ (str day.day_no +ₛ " 天")

-- `_require_item`
abbrev pub require_item : {C T : Type 0} → ℕ → ℕ → (Row C → Result C T) → Tables C T → Result C T
require_item user_id item_id rest s = elim (find_item item_id s.items) [
  | none ↦ failed (api_error 404 "行程项不存在") s
  | some row ↦ elim (require_writable_main user_id row.itinerary_id s.team) [
    | denied e ↦ failed (access e) s
    | done main ↦ rest row
  ]
]

module _ {C T : Type 0} (services : Services C T) where
  -- `columns` are those of an entry with no value.
  unfoldable pub insert_item :
      List (Option C) → ℕ → ℕ → ℕ → Addition C → Option C → Tables C T → Tables C T
  unfolding copy_optional next_sort settle
  insert_item columns id user_id itinerary_id new poi_id s =
      let row : Row C = record {
        id = id;
        itinerary_id = itinerary_id;
        day_id = new.day_id;
        item_type = new.item_type;
        poi_name = new.poi_name;
        columns = copy_optional new.upsert.fields columns;
        sort_no = next_sort new.day_id s.items;
        deleted = false;
      } in
      let t = settle services user_id itinerary_id (record s { items = s.items ++ (row ∷ []) }) in
      record t {
        team = services.apply_suggestion_used itinerary_id poi_id (some new.poi_name) true t.team;
      }

  unfoldable pub add_item :
      List (Option C) → NewIds → ℕ → ℕ → Option (Upsert C) → Tables C T → Result C T
  unfolding check_addition snapshot insert_item logged
  add_item columns ids user_id itinerary_id request s =
      elim (require_writable_main user_id itinerary_id s.team) [
        | denied e ↦ failed (access e) s
        | done main ↦ elim (check_addition services.texts itinerary_id request s.days) [
          | wrong e ↦ failed e s
          | right new ↦
              then_write
                (λ t. logged services user_id itinerary_id "add_item" "新增行程项完成" ids.later (
                  insert_item columns ids.item user_id itinerary_id new
                    (poi_id_of new.upsert.fields) t))
                (snapshot services user_id itinerary_id "add_item" "新增行程项前快照" ids.before s)
        ]
      ]

  unfoldable pub write_update : ℕ → ℕ → ℕ → Upsert C → Option Day → Tables C T → Tables C T
  unfolding updated_row update_row settle
  write_update user_id itinerary_id item_id r day s =
      settle services user_id itinerary_id
        (record s { items = update_row item_id (updated_row services.texts r day s.items) s.items })

  unfoldable pub update_item : NewIds → ℕ → ℕ → Option (Upsert C) → Tables C T → Result C T
  unfolding find_item check_update snapshot write_update logged
  update_item ids user_id item_id request s =
      require_item user_id item_id
        (λ row. elim (check_update services.texts request row s.days) [
          | wrong e ↦ failed e s
          | right (r, day) ↦
              then_write
                (λ t.
                  logged services user_id row.itinerary_id (operation day) (summary_after day)
                    ids.later (write_update user_id row.itinerary_id item_id r day t))
                (snapshot services user_id row.itinerary_id (operation day) (summary_before day)
                  ids.before s)
        ])
        s

  unfoldable pub write_delete : ℕ → Row C → Tables C T → Tables C T
  unfolding update_row settle
  write_delete user_id row s =
      let t = settle services user_id row.itinerary_id (record s {
        items = update_row row.id (λ found. record found { deleted = true }) s.items;
      }) in
      record t {
        team =
            services.apply_suggestion_used row.itinerary_id (poi_id_of row.columns)
              (some row.poi_name) false t.team;
      }

  unfoldable pub delete_item : NewIds → ℕ → ℕ → Tables C T → Result C T
  unfolding find_item snapshot write_delete logged
  delete_item ids user_id item_id s =
      require_item user_id item_id
        (λ row.
          then_write
            (λ t.
              logged services user_id row.itinerary_id "delete_item" "删除行程项完成" ids.later
                (write_delete user_id row t))
            (snapshot services user_id row.itinerary_id "delete_item" "删除行程项前快照" ids.before s))
        s
