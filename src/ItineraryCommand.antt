-- ===== src/ItineraryCommand.antt =====
-- travel-agent-python/app/services/itinerary_command.py: the edits of a trip's entries. Each edit checks,
-- takes a snapshot, writes, and takes a second one; the edits of one trip run one after the other. The
-- tables of the drafts and the budget, the marks of the suggestions and the cached details are changed by
-- calls that are parameters.
pub mod Snapshots
pub mod Edits
pub mod Order
pub mod Recorded
pub mod Runs
pub mod Cascade
mod Tests
use Prim.Native.String
use travel_assistant.Base.{
  ℕ, zero, suc, ◌+◌, ◌*◌, String, Bool, true, false, not, ◌&&◌, ◌||◌, Option, none, some, List, [],
  ◌∷◌, ◌++◌, map, max, ltb, leb, if◌then◌else◌, ◌==◌, string_eq, nat_eq, keep, is_none,
}
use travel_assistant.DayPersistence.{Texts, Day, head}
use travel_assistant.CollaborationService.{
  Team, Denied, Answer, denied, done, require_writable_main,
}
use travel_assistant.ItineraryVersion.{
  Version, Request, Created, no_access, conflict, created, create_snapshot, record_snapshot_or_log,
}

-- A number of a request that may be below zero: `below n` is -(n + 1).
pub data Number : Type 0 where
  from_zero : ℕ → Number
  below : ℕ → Number

-- A row of `itinerary_item`; `columns` are those of `_MUTABLE_FIELDS`, in its order.
pub record Row (C : Type 0) : Type 0 where
  pub id : ℕ
  pub itinerary_id : ℕ
  pub day_id : ℕ
  pub item_type : String
  pub poi_name : String
  pub columns : List (Option C)
  pub sort_no : ℕ
  pub deleted : Bool

-- `ItemUpsertRequest`; `fields` are the values of `_MUTABLE_FIELDS`, among them the cost, in hundredths,
-- and the minutes that `_validate` reads.
pub record Upsert (C : Type 0) : Type 0 where
  pub day_id : Option ℕ
  pub item_type : Option String
  pub poi_name : Option String
  pub cost : Option Number
  pub duration_min : Option Number
  pub fields : List (Option C)

-- The tables that the edits read or write; `others` are those of other modules.
pub record Tables (C T : Type 0) : Type 0 where
  pub team : Team
  pub days : List Day
  pub items : List (Row C)
  pub versions : List Version
  pub others : T

pub data Error : Type 0 where
  access : Denied → Error
  api_error : ℕ → String → Error

-- What a check ends with.
pub data Checked {ℓ} (A : Type ℓ) : Type ℓ where
  wrong : Error → Checked A
  right : A → Checked A

-- What an edit ends with, and the tables that it leaves.
pub data Result (C T : Type 0) : Type 0 where
  failed : Error → Tables C T → Result C T
  finished : Tables C T → Result C T

-- The tables after an edit.
abbrev pub tables : {C T : Type 0} → Result C T → Tables C T
tables (failed e s) = s
tables (finished s) = s

abbrev pub valid_item_types : List String
valid_item_types = "attraction" ∷ "food" ∷ "hotel" ∷ "transport" ∷ []

-- `len(text)`
unfoldable pub chars : String → ℕ
chars String.[] = 0
chars (String.◌∷◌ c s) = suc (chars s)

abbrev pub is_valid_type : Option String → Bool
is_valid_type none = true
is_valid_type (some t) = t == "attraction" || t == "food" || t == "hotel" || t == "transport"

unfoldable pub short_name : Option String → Bool
unfolding chars
short_name none = true
short_name (some name) = leb (chars name) 128

abbrev pub in_range : ℕ → Option Number → Bool
in_range top none = true
in_range top (some (from_zero n)) = leb n top
in_range top (some (below n)) = false

-- What the edits use of other modules.
pub record Services (C T : Type 0) : Type 0 where
  pub texts : Texts
  -- The text of a snapshot.
  pub details : ℕ → ℕ → Tables C T → String
  pub invalidate_pending_actions : ℕ → ℕ → T → T
  pub recalculate : ℕ → List (Row C) → T → T
  -- `_apply_suggestion_used`, with the poiId, the poiName and the new mark.
  pub apply_suggestion_used : ℕ → Option C → Option String → Bool → Team → Team

-- The ids of the new rows.
pub record NewIds : Type 0 where
  pub before : ℕ
  pub item : ℕ
  pub later : ℕ

module _ {C : Type 0} where
  -- `_validate`
  unfoldable pub validate : Upsert C → Option Error
  unfolding short_name
  validate r =
      if not (is_valid_type r.item_type)
      then some (api_error 400 "行程项类型不合法")
      else if not (short_name r.poi_name)
      then some (api_error 400 "地点名称过长")
      else if not (in_range (1_000_000 * 100) r.cost)
      then some (api_error 400 "费用必须在 0 到 1000000 之间")
      else if not (in_range 1440 r.duration_min)
      then some (api_error 400 "时长必须在 0 到 1440 分钟之间")
      else none

  -- `_copy_optional`: a value that is `None` leaves its column.
  unfoldable pub copy_optional : List (Option C) → List (Option C) → List (Option C)
  copy_optional [] columns = columns
  copy_optional (f ∷ fields) [] = []
  copy_optional (none ∷ fields) (c ∷ columns) = c ∷ copy_optional fields columns
  copy_optional (some v ∷ fields) (c ∷ columns) = some v ∷ copy_optional fields columns

  -- The entries that a session shows of a day.
  unfoldable pub shown : ℕ → List (Row C) → List (Row C)
  unfolding keep
  shown day_id items = keep (λ row. row.day_id == day_id && not row.deleted) items

  abbrev pub after_highest : List (Row C) → ℕ
  after_highest [] = 0
  after_highest (row ∷ rows) = max (suc row.sort_no) (after_highest rows)

  -- `next_sort` of services/itinerary_query.py
  unfoldable pub next_sort : ℕ → List (Row C) → ℕ
  unfolding shown
  next_sort day_id items = after_highest (shown day_id items)

  unfoldable pub update_row : ℕ → (Row C → Row C) → List (Row C) → List (Row C)
  update_row id f items = map (λ row. if row.id == id then f row else row) items

  -- `session.get(ItineraryItem, item_id)`, which shows no deleted row.
  unfoldable pub find_item : ℕ → List (Row C) → Option (Row C)
  unfolding keep
  find_item id items = head (keep (λ row. row.id == id && not row.deleted) items)

unfoldable pub find_day : ℕ → ℕ → List Day → Option Day
unfolding keep
find_day itinerary_id day_id days =
    head (keep (λ day. day.id == day_id && day.itinerary_id == itinerary_id) days)

abbrev pub snapshot_result : {C T : Type 0} → Tables C T → Created → Result C T
snapshot_result s (no_access e rows) = failed (access e) (record s { versions = rows })
snapshot_result s (conflict rows) =
    failed (api_error 500 "版本快照写入冲突，请稍后重试") (record s { versions = rows })
snapshot_result s (created v rows) = finished (record s { versions = rows })

-- The write between the two snapshots.
abbrev pub then_write : {C T : Type 0} → (Tables C T → Result C T) → Result C T → Result C T
then_write rest (failed e s) = failed e s
then_write rest (finished s) = rest s

module _ {C T : Type 0} (services : Services C T) where
  abbrev pub snapshot_request : ℕ → ℕ → String → String → Tables C T → Request
  snapshot_request user_id itinerary_id operation summary s = record {
    user_id = user_id;
    itinerary_id = itinerary_id;
    operation = some operation;
    summary = some summary;
    snapshot_json = services.details user_id itinerary_id s;
  }

  -- `create_snapshot` before the write; no other member writes a version in between.
  unfoldable pub snapshot : ℕ → ℕ → String → String → ℕ → Tables C T → Result C T
  unfolding create_snapshot
  snapshot user_id itinerary_id operation summary id s = snapshot_result s (
      create_snapshot (snapshot_request user_id itinerary_id operation summary s) id s.team
        (λ n rows. rows) s.versions)

  -- `record_snapshot_or_log` after the write
  unfoldable pub logged : ℕ → ℕ → String → String → ℕ → Tables C T → Result C T
  unfolding record_snapshot_or_log
  logged user_id itinerary_id operation summary id s = finished (record s {
    versions =
        record_snapshot_or_log (snapshot_request user_id itinerary_id operation summary s) id s.team
          (λ n rows. rows) s.versions;
  })

  -- The end of each write: the drafts and the budget.
  unfoldable pub settle : ℕ → ℕ → Tables C T → Tables C T
  settle user_id itinerary_id s = record s {
    others =
        services.recalculate itinerary_id s.items
          (services.invalidate_pending_actions user_id itinerary_id s.others);
  }
