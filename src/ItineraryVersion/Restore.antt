-- ===== src/ItineraryVersion/Restore.antt =====
-- `restore` of services/itinerary_version.py: the days and the entries of a trip are replaced by those of a
-- version. `J` is a value of the JSON text, `D` a date, `R` a time or an instant; a conversion that is none
-- is one that raises. A column is what the row's constructor is given, `none` for None or nothing; the
-- defaults and checks of the database are left out. Deleted rows are rows of the tables here, since the deletion is physical.
pub mod Kept
pub mod Laws
pub mod Shown
mod Tests
use travel_assistant.Base.{
  ℕ, zero, suc, ◌+◌, length, String, Bool, true, false, not, Option, none, some, List, [], ◌∷◌,
  ◌++◌, if◌then◌else◌, ◌==◌, ◌+ₛ◌, string_eq, nat_eq, str, keep,
}
use travel_assistant.Dict.{insert}
use travel_assistant.GenerationGate.{Status, succeeded}
use travel_assistant.CollaborationService.{
  Team, Denied, Answer, denied, done, require_writable_main,
}
use travel_assistant.ItineraryVersion.{Version, record_snapshot_or_log}
use travel_assistant.ItineraryVersion.Diff.{require}

-- An entry of a snapshot, by what `get` finds for its keys; `why_this` is not read.
pub record SavedItem (J : Type 0) : Type 0 where
  pub item_type : Option J
  pub poi_name : Option J
  pub poi_id : Option J
  pub address : Option J
  pub latitude : Option J
  pub longitude : Option J
  pub start_time : Option J
  pub end_time : Option J
  pub duration_min : Option J
  pub cost : Option J
  pub tag : Option J
  pub remark : Option J
  pub open_time : Option J
  pub image_url : Option J
  pub source : Option J
  pub source_updated_at : Option J
  pub verification_status : Option J
  pub value_kind : Option J
  pub freshness_status : Option J
  pub review_requirement : Option J
  pub fact_evidence_json : Option J
  pub intro : Option J
  pub why_this : Option J

-- A day of a snapshot.
pub record SavedDay (J : Type 0) : Type 0 where
  pub day_no : ℕ
  pub travel_date : Option J
  pub note : Option String
  pub theme : Option J
  pub mini_route : Option J
  pub backup_plan : Option J
  pub photo_spots : Option J
  pub practical_notes : Option J
  pub items : List (SavedItem J)

-- `heading` is what the columns of the main row are read from.
pub record Saved (J : Type 0) : Type 0 where
  pub heading : J
  pub city : Option String
  pub day_list : List (SavedDay J)

pub record DayRow (D : Type 0) : Type 0 where
  pub id : ℕ
  pub itinerary_id : ℕ
  pub day_no : ℕ
  pub travel_date : Option D
  pub city : Option String
  pub note : Option String
  pub metadata_json : Option String
  pub generation_status : Status

-- The columns of an entry but its keys and its position.
pub record Columns (J R : Type 0) : Type 0 where
  pub item_type : Option J
  pub poi_name : Option J
  pub poi_id : Option J
  pub address : Option J
  pub latitude : Option J
  pub longitude : Option J
  pub start_time : Option R
  pub end_time : Option R
  pub duration_min : Option J
  pub cost : Option J
  pub tag : Option J
  pub remark : Option J
  pub open_time : Option J
  pub image_url : Option J
  pub source : Option J
  pub source_updated_at : Option R
  pub verification_status : Option J
  pub value_kind : Option J
  pub freshness_status : Option J
  pub review_requirement : Option J
  pub fact_evidence_json : Option J
  pub intro : Option J
  pub why_note : Option J

pub record ItemRow (J R : Type 0) : Type 0 where
  pub itinerary_id : ℕ
  pub day_id : ℕ
  pub columns : Columns J R
  pub sort_no : ℕ

-- `next_day_id` is the database's next id of a day.
pub record Plans (J D H R T : Type 0) : Type 0 where
  pub team : Team
  pub headings : List (ℕ × H)
  pub days : List (DayRow D)
  pub items : List (ItemRow J R)
  pub versions : List Version
  pub next_day_id : ℕ
  pub others : T

-- What `restore` ends with: 404, 500, the error of a conversion, or the new tables. All but the last leave
-- the tables as they were.
pub data Restored (J D H R T : Type 0) : Type 0 where
  no_access : Denied → Restored J D H R T
  no_version : Restored J D H R T
  damaged : Restored J D H R T
  invalid : Restored J D H R T
  restored : Plans J D H R T → Restored J D H R T

-- What the code uses of `json` and `datetime`, and the budget's recalculation.
pub record Conversions (J D H R T : Type 0) : Type 0 where
  pub loads : String → Option (Saved J)
  pub dumps : List (String × J) → String
  pub truthy : J → Bool
  pub as_date : J → Option D
  pub heading_columns : J → Option H
  pub as_time : J → Option R
  pub as_datetime : J → Option R
  pub recalculate : ℕ → List (ItemRow J R) → T → T
  pub details : ℕ → ℕ → Plans J D H R T → String

-- `_as_date`, `_as_time` and `_as_datetime` at what may be None.
abbrev pub optional : {J C : Type 0} → (J → Option C) → Option J → Option (Option C)
optional convert none = some none
optional convert (some v) = elim (convert v) [ none ↦ none | some c ↦ some (some c) ]

module _ {J D H R T : Type 0} (conv : Conversions J D H R T) where
  abbrev pub put_theme : Option J → List (String × J)
  put_theme none = []
  put_theme (some theme) = ("theme", theme) ∷ []

  abbrev pub put_extra : String → Option J → List (String × J) → List (String × J)
  put_extra key none metadata = metadata
  put_extra key (some v) metadata = if conv.truthy v then insert key v metadata else metadata

  unfoldable pub put_extras : List (String × Option J) → List (String × J) → List (String × J)
  unfolding insert
  put_extras [] metadata = metadata
  put_extras ((key, v) ∷ extras) metadata = put_extras extras (put_extra key v metadata)

  abbrev pub dumped : List (String × J) → Option String
  dumped [] = none
  dumped (entry ∷ metadata) = some (conv.dumps (entry ∷ metadata))

  unfoldable pub metadata_json : SavedDay J → Option String
  unfolding put_extras
  metadata_json day = dumped (
      put_extras
        (("miniRoute", day.mini_route)
          ∷ ("backupPlan", day.backup_plan)
          ∷ ("photoSpots", day.photo_spots)
          ∷ ("practicalNotes", day.practical_notes)
          ∷ [])
        (put_theme day.theme))

  -- The columns with these converted ones.
  abbrev pub columns_with : SavedItem J → Option R → Option R → Option R → Columns J R
  columns_with item start_time end_time updated_at = record {
    item_type = item.item_type;
    poi_name = item.poi_name;
    poi_id = item.poi_id;
    address = item.address;
    latitude = item.latitude;
    longitude = item.longitude;
    start_time = start_time;
    end_time = end_time;
    duration_min = item.duration_min;
    cost = item.cost;
    tag = item.tag;
    remark = item.remark;
    open_time = item.open_time;
    image_url = item.image_url;
    source = item.source;
    source_updated_at = updated_at;
    verification_status = item.verification_status;
    value_kind = item.value_kind;
    freshness_status = item.freshness_status;
    review_requirement = item.review_requirement;
    fact_evidence_json = item.fact_evidence_json;
    intro = item.intro;
    why_note = none;
  }

  unfoldable pub item_columns : SavedItem J → Option (Columns J R)
  item_columns item = elim (optional conv.as_time item.start_time) [
    | none ↦ none
    | some start_time ↦ elim (optional conv.as_time item.end_time) [
      | none ↦ none
      | some end_time ↦ elim (optional conv.as_datetime item.source_updated_at) [
        | none ↦ none
        | some updated_at ↦ some (columns_with item start_time end_time updated_at)
      ]
    ]
  ]

  -- A row before those of the entries that follow; where a conversion raises, there are none.
  abbrev pub add_row :
      ℕ → ℕ → ℕ → Option (Columns J R) → Option (List (ItemRow J R)) → Option (List (ItemRow J R))
  add_row itinerary_id day_id sort none rest = none
  add_row itinerary_id day_id sort (some columns) none = none
  add_row itinerary_id day_id sort (some columns) (some rows) = some (
      record { itinerary_id = itinerary_id; day_id = day_id; columns = columns; sort_no = sort }
      ∷ rows)

  -- The inner loop, from a position on.
  unfoldable pub new_items : ℕ → ℕ → List (SavedItem J) → ℕ → Option (List (ItemRow J R))
  unfolding item_columns
  new_items itinerary_id day_id [] sort = some []
  new_items itinerary_id day_id (item ∷ items) sort =
      add_row itinerary_id day_id sort (item_columns item)
        (new_items itinerary_id day_id items (suc sort))

  abbrev pub new_day : ℕ → Option String → ℕ → SavedDay J → Option D → DayRow D
  new_day itinerary_id city id day travel_date = record {
    id = id;
    itinerary_id = itinerary_id;
    day_no = day.day_no;
    travel_date = travel_date;
    city = city;
    note = day.note;
    metadata_json = metadata_json day;
    generation_status = succeeded;
  }

  abbrev pub add_day :
      ℕ
      → Option String
      → ℕ
      → SavedDay J
      → Option (Option D)
      → Option (List (ItemRow J R))
      → Option (List (DayRow D) × List (ItemRow J R))
      → Option (List (DayRow D) × List (ItemRow J R))
  add_day itinerary_id city id day none rows rest = none
  add_day itinerary_id city id day (some travel_date) none rest = none
  add_day itinerary_id city id day (some travel_date) (some rows) none = none
  add_day itinerary_id city id day (some travel_date) (some rows) (some (days, later)) =
      some (new_day itinerary_id city id day travel_date ∷ days, rows ++ later)

  -- The outer loop, from an id of a day on.
  unfoldable pub new_days :
      ℕ → Option String → ℕ → List (SavedDay J) → Option (List (DayRow D) × List (ItemRow J R))
  unfolding new_items metadata_json
  new_days itinerary_id city id [] = some ([], [])
  new_days itinerary_id city id (day ∷ days) =
      add_day itinerary_id city id day (optional conv.as_date day.travel_date)
        (new_items itinerary_id id day.items 0) (new_days itinerary_id city (suc id) days)

  -- The rows of other trips stay.
  unfoldable pub replace :
      ℕ → H → List (DayRow D) × List (ItemRow J R) → Plans J D H R T → Plans J D H R T
  unfolding keep insert
  replace itinerary_id heading rows p =
      let items = keep (λ row. not (row.itinerary_id == itinerary_id)) p.items ++ rows.1 in
      record p {
        headings = insert itinerary_id heading p.headings;
        days = keep (λ day. not (day.itinerary_id == itinerary_id)) p.days ++ rows.0;
        items = items;
        next_day_id = p.next_day_id + length rows.0;
        others = conv.recalculate itinerary_id items p.others;
      }

  -- `record_snapshot_or_log` after the commit; nobody else writes a version in between.
  unfoldable pub log_restore : ℕ → ℕ → ℕ → ℕ → Plans J D H R T → Plans J D H R T
  unfolding record_snapshot_or_log
  log_restore user_id itinerary_id id version_no p = record p {
    versions =
        record_snapshot_or_log
          (record {
            user_id = user_id;
            itinerary_id = itinerary_id;
            operation = some "restore";
            summary = some ("恢复到版本 " +ₛ str version_no);
            snapshot_json = conv.details user_id itinerary_id p;
          })
          id p.team (λ n rows. rows) p.versions;
  }

  -- `id` is the new version's.
  unfoldable pub restore : ℕ → ℕ → ℕ → ℕ → Plans J D H R T → Restored J D H R T
  unfolding require new_days replace log_restore
  restore id user_id itinerary_id version_id p =
      elim (require_writable_main user_id itinerary_id p.team) [
        | denied e ↦ no_access e
        | done main ↦ elim (require itinerary_id version_id p.versions) [
          | none ↦ no_version
          | some version ↦ elim (conv.loads version.snapshot_json) [
            | none ↦ damaged
            | some saved ↦ elim (conv.heading_columns saved.heading) [
              | none ↦ invalid
              | some heading ↦
                  elim (new_days itinerary_id saved.city p.next_day_id saved.day_list) [
                    | none ↦ invalid
                    | some rows ↦ restored (
                        log_restore user_id itinerary_id id version.version_no
                          (replace itinerary_id heading rows p))
                  ]
            ]
          ]
        ]
      ]
