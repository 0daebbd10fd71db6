-- ===== src/ItineraryVersion/Diff.antt =====
-- `diff` of services/itinerary_version.py: two snapshots compared. A value of the JSON texts is of a type `V`
-- with Python's `==`; an entry of a day is its `id` and `poiName` beside the whole value.
pub mod Laws
pub mod Faithful
use travel_assistant.Base.{
  ℕ, String, Bool, true, false, Compared, Option, none, some, List, [], ◌∷◌, ◌++◌, if◌then◌else◌,
  ◌==◌, ◌+ₛ◌, string_eq, nat_eq, str, keep,
}
use travel_assistant.Dict.{lookup, insert}
use travel_assistant.DayPersistence.{head}
use travel_assistant.CollaborationService.{Team, Denied, Answer, denied, done, require_main}
use travel_assistant.ItineraryVersion.{Version}

pub record ItemSnapshot (V : Type 0) : Type 0 where
  pub id : Option ℕ
  pub poi_name : Option String
  pub value : V

pub record DaySnapshot (V : Type 0) : Type 0 where
  pub day_no : Option ℕ
  pub items : List (ItemSnapshot V)

-- What `diff` reads of a snapshot; a field that is absent is none.
pub record Snapshot (V : Type 0) : Type 0 where
  pub city : Option V
  pub days : Option V
  pub budget : Option V
  pub day_list : List (DaySnapshot V)

pub data ChangeKind : Type 0 where
  updated removed added : ChangeKind

pub record Change (V : Type 0) : Type 0 where
  pub kind : ChangeKind
  pub key : String
  pub before : Option V
  pub after : Option V

-- `None` in an f-string.
abbrev pub number_text : Option ℕ → String
number_text none = "None"
number_text (some n) = str n

abbrev pub name_text : Option String → String
name_text none = "None"
name_text (some name) = name

module _ {V : Type 0} where
  unfoldable pub item_key : Option ℕ → ItemSnapshot V → String
  item_key day_no item =
      number_text day_no
      +ₛ (":" +ₛ elim item.id [ none ↦ name_text item.poi_name | some n ↦ str n ])

  unfoldable pub index_items :
      Option ℕ → List (ItemSnapshot V) → List (String × V) → List (String × V)
  unfolding item_key insert
  index_items day_no [] index = index
  index_items day_no (item ∷ items) index =
      index_items day_no items (insert (item_key day_no item) item.value index)

  unfoldable pub index_days : List (DaySnapshot V) → List (String × V) → List (String × V)
  unfolding index_items
  index_days [] index = index
  index_days (day ∷ days) index = index_days days (index_items day.day_no day.items index)

  unfoldable pub item_index : List (DaySnapshot V) → List (String × V)
  unfolding index_days
  item_index days = index_days days []

  module _ ⦃c : Compared V⦄ where
    abbrev pub same_value : Option V → Option V → Bool
    same_value none none = true
    same_value none (some w) = false
    same_value (some v) none = false
    same_value (some v) (some w) = v == w

    unfoldable pub field_change : String → Option V → Option V → List (Change V)
    field_change key before after =
        if same_value before after
        then []
        else record { kind = updated; key = key; before = before; after = after } ∷ []

    unfoldable pub removals : List (String × V) → List (String × V) → List (Change V)
    unfolding lookup
    removals [] after = []
    removals ((key, v) ∷ before) after =
        let rest = removals before after in
        elim (lookup key after) [
          | none ↦ record { kind = removed; key = key; before = some v; after = none } ∷ rest
          | some w ↦ rest
        ]

    unfoldable pub additions : List (String × V) → List (String × V) → List (Change V)
    unfolding lookup
    additions before [] = []
    additions before ((key, v) ∷ after) =
        let rest = additions before after in
        elim (lookup key before) [
          | none ↦ record { kind = added; key = key; before = none; after = some v } ∷ rest
          | some w ↦
              if w == v
              then rest
              else record { kind = updated; key = key; before = some w; after = some v } ∷ rest
        ]

    unfoldable pub item_changes : List (String × V) → List (String × V) → List (Change V)
    unfolding removals additions
    item_changes before after = removals before after ++ additions before after

    unfoldable pub changes : Snapshot V → Snapshot V → List (Change V)
    unfolding field_change item_changes item_index
    changes before after =
        field_change "city" before.city after.city
        ++ (field_change "days" before.days after.days
            ++ (field_change "budget" before.budget after.budget
                ++ item_changes (item_index before.day_list) (item_index after.day_list)))

-- `_require`: the session finds a row by its id.
unfoldable pub require : ℕ → ℕ → List Version → Option Version
unfolding keep
require itinerary_id version_id rows = elim (head (keep (λ v. v.id == version_id) rows)) [
  | none ↦ none
  | some v ↦ if v.itinerary_id == itinerary_id then some v else none
]

-- What `diff` ends with: the error of the access check, 404, 500, or the changes.
pub data Compare (V : Type 0) : Type 0 where
  no_access : Denied → Compare V
  no_version : Compare V
  unreadable : Compare V
  compared : List (Change V) → Compare V

module _ {V : Type 0} ⦃c : Compared V⦄ (loads : String → Option (Snapshot V)) where
  abbrev pub compare_texts : Option (Snapshot V) → Option (Snapshot V) → Compare V
  compare_texts none after = unreadable
  compare_texts (some before) none = unreadable
  compare_texts (some before) (some after) = compared (changes before after)

  abbrev pub compare_rows : Option Version → Option Version → Compare V
  compare_rows none to = no_version
  compare_rows (some from) none = no_version
  compare_rows (some from) (some to) =
      compare_texts (loads from.snapshot_json) (loads to.snapshot_json)

  unfoldable pub diff : ℕ → ℕ → ℕ → ℕ → Team → List Version → Compare V
  unfolding require changes
  diff user_id itinerary_id from_id to_id team rows =
      elim (require_main user_id itinerary_id team) [
        | denied e ↦ no_access e
        | done main ↦
            compare_rows (require itinerary_id from_id rows) (require itinerary_id to_id rows)
      ]
