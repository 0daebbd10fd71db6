-- ===== src/ItineraryVersion/Restore/Laws.antt =====
-- What a trip holds after `restore`.
use travel_assistant.Base.{
  ℕ, suc, ◌≡◌, ◌≢◌, refl, sym, subst, ◌∙◌, inl, inr, arith, Option-cases, String, Option, none,
  some, List, [], ◌∷◌, ◌++◌, ◌==◌, string_eq, nat_eq, keep, All, if◌then◌else◌,
}
use travel_assistant.ItineraryVersion.Restore.{
  SavedDay, DayRow, ItemRow, Conversions, optional, SavedItem, Columns, columns_with, item_columns,
  add_row, new_items, add_day, new_day, new_days, metadata_json, put_extras,
}
use travel_assistant.Dict.{insert}

abbrev pub of_day : {J R : Type 0} → ℕ → List (ItemRow J R) → List (ItemRow J R)
of_day day_id rows = keep (λ row. row.day_id == day_id) rows

-- A column that the conversion of what was saved gives; nothing where nothing was saved.
abbrev pub Converted : {J C : Type 0} → (J → Option C) → Option J → Option C → Type 0
Converted convert none column = column ≡ none
Converted convert (some v) column = (convert v ≡ column) × (column ≢ none)

pub optional-Converted :
    {J C : Type 0} (convert : J → Option C) (saved : Option J) (column : Option C)
    → optional convert saved ≡ some column
    → Converted convert saved column
optional-Converted convert none column e = ground arith
optional-Converted convert (some v) column e = ground arith

module _ {J D H R T : Type 0} (conv : Conversions J D H R T) where
  -- What a snapshot holds for these columns, each of them; a time is converted. No note says why the
  -- entry is there, whatever the snapshot has.
  pub record Matches (item : SavedItem J) (columns : Columns J R) : Type 0 where
    pub item_type : columns.item_type ≡ item.item_type
    pub poi_name : columns.poi_name ≡ item.poi_name
    pub poi_id : columns.poi_id ≡ item.poi_id
    pub address : columns.address ≡ item.address
    pub latitude : columns.latitude ≡ item.latitude
    pub longitude : columns.longitude ≡ item.longitude
    pub start_time : Converted conv.as_time item.start_time columns.start_time
    pub end_time : Converted conv.as_time item.end_time columns.end_time
    pub duration_min : columns.duration_min ≡ item.duration_min
    pub cost : columns.cost ≡ item.cost
    pub tag : columns.tag ≡ item.tag
    pub remark : columns.remark ≡ item.remark
    pub open_time : columns.open_time ≡ item.open_time
    pub image_url : columns.image_url ≡ item.image_url
    pub source : columns.source ≡ item.source
    pub source_updated_at :
        Converted conv.as_datetime item.source_updated_at columns.source_updated_at
    pub verification_status : columns.verification_status ≡ item.verification_status
    pub value_kind : columns.value_kind ≡ item.value_kind
    pub freshness_status : columns.freshness_status ≡ item.freshness_status
    pub review_requirement : columns.review_requirement ≡ item.review_requirement
    pub fact_evidence_json : columns.fact_evidence_json ≡ item.fact_evidence_json
    pub intro : columns.intro ≡ item.intro
    pub why_note : columns.why_note ≡ none

  columns_with-Matches :
      (item : SavedItem J) (start_time end_time updated_at : Option R)
      → Converted conv.as_time item.start_time start_time
      → Converted conv.as_time item.end_time end_time
      → Converted conv.as_datetime item.source_updated_at updated_at
      → Matches item (columns_with conv item start_time end_time updated_at)
  columns_with-Matches item start_time end_time updated_at start end updated = record {
    item_type = refl;
    poi_name = refl;
    poi_id = refl;
    address = refl;
    latitude = refl;
    longitude = refl;
    start_time = start;
    end_time = end;
    duration_min = refl;
    cost = refl;
    tag = refl;
    remark = refl;
    open_time = refl;
    image_url = refl;
    source = refl;
    source_updated_at = updated;
    verification_status = refl;
    value_kind = refl;
    freshness_status = refl;
    review_requirement = refl;
    fact_evidence_json = refl;
    intro = refl;
    why_note = refl;
  }

  some_injective : (x y : Columns J R) → some x ≡ some y → x ≡ y
  some_injective x y e = ground arith

  item_columns-Matches :
      (item : SavedItem J) (columns : Columns J R)
      → item_columns conv item ≡ some columns
      → Matches item columns
  unfolding item_columns
  item_columns-Matches item columns e =
      elim (Option-cases (optional conv.as_time item.start_time)) [
        | inl bad ↦ absurd (ground (arith, bad, e))
        | inr (start_time, start) ↦ elim (Option-cases (optional conv.as_time item.end_time)) [
          | inl bad ↦ absurd (ground (arith, start, bad, e))
          | inr (end_time, end) ↦
              elim (Option-cases (optional conv.as_datetime item.source_updated_at)) [
                | inl bad ↦ absurd (ground (arith, start, end, bad, e))
                | inr (updated_at, updated) ↦
                    let made : some (columns_with conv item start_time end_time updated_at)
                        ≡ some columns =
                      sym (rw (item_columns, start, end, updated) refl) ∙ e in
                    subst (Matches item) (some_injective _ _ made) (
                      columns_with-Matches item start_time end_time updated_at
                        (optional-Converted conv.as_time item.start_time start_time start)
                        (optional-Converted conv.as_time item.end_time end_time end)
                        (optional-Converted conv.as_datetime item.source_updated_at updated_at
                          updated))
              ]
        ]
      ]

  -- Rows that hold the entries of a snapshot, in their order, from a position on.
  pub data Holds (itinerary_id day_id : ℕ)
      : ℕ → List (SavedItem J) → List (ItemRow J R) → Type 0 where
    no_entries : {n : ℕ} → Holds itinerary_id day_id n [] []
    entry :
        {n : ℕ} {item : SavedItem J} {items : List (SavedItem J)} {columns : Columns J R}
        {rows : List (ItemRow J R)}
        → Matches item columns
        → Holds itinerary_id day_id (suc n) items rows
        → Holds itinerary_id day_id n (item ∷ items) (
            record { itinerary_id = itinerary_id; day_id = day_id; columns = columns; sort_no = n }
            ∷ rows)

  abbrev HoldsAll : ℕ → ℕ → ℕ → List (SavedItem J) → Option (List (ItemRow J R)) → Type 0
  HoldsAll itinerary_id day_id n items none = Unit
  HoldsAll itinerary_id day_id n items (some rows) = Holds itinerary_id day_id n items rows

  add_row-HoldsAll :
      (itinerary_id day_id n : ℕ) (item : SavedItem J) (items : List (SavedItem J))
      (c : Option (Columns J R)) (rest : Option (List (ItemRow J R)))
      → item_columns conv item ≡ c
      → HoldsAll itinerary_id day_id (suc n) items rest
      → HoldsAll itinerary_id day_id n (item ∷ items) (add_row conv itinerary_id day_id n c rest)
  add_row-HoldsAll itinerary_id day_id n item items none rest e h = tt
  add_row-HoldsAll itinerary_id day_id n item items (some columns) none e h = tt
  add_row-HoldsAll itinerary_id day_id n item items (some columns) (some rows) e h =
      entry (item_columns-Matches item columns e) h

  new_items-HoldsAll :
      (itinerary_id day_id : ℕ) (items : List (SavedItem J)) (n : ℕ)
      → HoldsAll itinerary_id day_id n items (new_items conv itinerary_id day_id items n)
  unfolding new_items
  new_items-HoldsAll itinerary_id day_id [] n = no_entries
  new_items-HoldsAll itinerary_id day_id (item ∷ items) n =
      add_row-HoldsAll itinerary_id day_id n item items (item_columns conv item) _ refl
        (new_items-HoldsAll itinerary_id day_id items (suc n))

  -- The rows of a day with its entries, for each day of a snapshot in its order, from an id on.
  pub data Rebuilt (itinerary_id : ℕ) (city : Option String)
      : ℕ → List (SavedDay J) → List (DayRow D) → List (ItemRow J R) → Type 0 where
    no_days : {id : ℕ} → Rebuilt itinerary_id city id [] [] []
    rebuilt_day :
        {id : ℕ} {day : SavedDay J} {days : List (SavedDay J)} {travel_date : Option D}
        {rows later : List (ItemRow J R)} {day_rows : List (DayRow D)}
        → optional conv.as_date day.travel_date ≡ some travel_date
        → Holds itinerary_id id 0 day.items rows
        → Rebuilt itinerary_id city (suc id) days day_rows later
        → Rebuilt itinerary_id city id
            (day ∷ days)
            (new_day conv itinerary_id city id day travel_date ∷ day_rows)
            (rows ++ later)

  abbrev RebuiltAll :
      ℕ
      → Option String
      → ℕ
      → List (SavedDay J)
      → Option (List (DayRow D) × List (ItemRow J R))
      → Type 0
  RebuiltAll itinerary_id city id days none = Unit
  RebuiltAll itinerary_id city id days (some rows) = Rebuilt itinerary_id city id days rows.0 rows.1

  add_day-RebuiltAll :
      (itinerary_id : ℕ) (city : Option String) (id : ℕ) (day : SavedDay J)
      (days : List (SavedDay J)) (date : Option (Option D)) (rows : Option (List (ItemRow J R)))
      (rest : Option (List (DayRow D) × List (ItemRow J R)))
      → optional conv.as_date day.travel_date ≡ date
      → HoldsAll itinerary_id id 0 day.items rows
      → RebuiltAll itinerary_id city (suc id) days rest
      → RebuiltAll itinerary_id city id
          (day ∷ days)
          (add_day conv itinerary_id city id day date rows rest)
  add_day-RebuiltAll itinerary_id city id day days none rows rest e h r = tt
  add_day-RebuiltAll itinerary_id city id day days (some date) none rest e h r = tt
  add_day-RebuiltAll itinerary_id city id day days (some date) (some rows) none e h r = tt
  add_day-RebuiltAll itinerary_id city id day days (some date) (some rows) (some rest) e h r =
      rebuilt_day e h r

  new_days-RebuiltAll :
      (itinerary_id : ℕ) (city : Option String) (id : ℕ) (days : List (SavedDay J))
      → RebuiltAll itinerary_id city id days (new_days conv itinerary_id city id days)
  unfolding new_days
  new_days-RebuiltAll itinerary_id city id [] = no_days
  new_days-RebuiltAll itinerary_id city id (day ∷ days) =
      add_day-RebuiltAll itinerary_id city id day days (optional conv.as_date day.travel_date) _ _
        refl (new_items-HoldsAll itinerary_id id day.items 0)
        (new_days-RebuiltAll itinerary_id city (suc id) days)

  pub new_days-Rebuilt :
      (itinerary_id : ℕ) (city : Option String) (id : ℕ) (days : List (SavedDay J))
      (rows : List (DayRow D) × List (ItemRow J R))
      → new_days conv itinerary_id city id days ≡ some rows
      → Rebuilt itinerary_id city id days rows.0 rows.1
  new_days-Rebuilt itinerary_id city id days rows e =
      subst (RebuiltAll itinerary_id city id days) e (new_days-RebuiltAll itinerary_id city id days)

  -- Where the rows belong.
  pub Holds-All :
      (itinerary_id day_id : ℕ) {n : ℕ} {items : List (SavedItem J)} {rows : List (ItemRow J R)}
      → Holds itinerary_id day_id n items rows
      → All (λ row. (row.itinerary_id ≡ itinerary_id) × (row.day_id ≡ day_id)) rows
  Holds-All itinerary_id day_id no_entries = tt
  Holds-All itinerary_id day_id (entry e h) = ((refl, refl), Holds-All itinerary_id day_id h)

module _ {J D H R T : Type 0} (conv : Conversions J D H R T) where
  abbrev pub entry_of : String → Option J → List (String × J)
  entry_of key none = []
  entry_of key (some v) = (key, v) ∷ []

  -- An entry whose value Python counts as true.
  abbrev pub true_entry : String → Option J → List (String × J)
  true_entry key none = []
  true_entry key (some v) = if conv.truthy v then (key, v) ∷ [] else []

  abbrev pub all_or_none : List (String × J) → Option String
  all_or_none [] = none
  all_or_none (e ∷ es) = some (conv.dumps (e ∷ es))

  -- The text of what a day keeps: its theme, and each of four more that is not empty.
  abbrev pub kept_text : SavedDay J → Option String
  kept_text day = all_or_none (
      entry_of "theme" day.theme
      ++ true_entry "miniRoute" day.mini_route
      ++ true_entry "backupPlan" day.backup_plan
      ++ true_entry "photoSpots" day.photo_spots
      ++ true_entry "practicalNotes" day.practical_notes)

  pub metadata_json-kept_text : (day : SavedDay J) → metadata_json conv day ≡ kept_text day
  unfolding metadata_json put_extras insert
  metadata_json-kept_text day = ground arith
