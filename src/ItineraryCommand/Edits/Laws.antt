-- ===== src/ItineraryCommand/Edits/Laws.antt =====
-- Where an entry stands after it moved to another day, and what its update leaves alone.
use travel_assistant.Base.{
  ℕ, zero, suc, ◌≤◌, ◌<◌, ◌≡◌, refl, sym, subst, ◌∙◌, ap, inl, inr, true, false, not, ◌&&◌, Option,
  none, some, List, [], ◌∷◌, arith, if◌then◌else◌, ◌==◌, nat_eq, keep, All, Bool-cases, String, ◌≢◌,
  length, string_eq,
}
use travel_assistant.DayPersistence.{Texts, Main, Day}
use travel_assistant.CollaborationService.{done, require_writable_main}
use travel_assistant.ItineraryCommand.{
  Row, Upsert, Tables, right, Result, finished, tables, Services, NewIds, shown, after_highest,
  next_sort, update_row, find_item, copy_optional, snapshot, logged, settle,
}
use travel_assistant.ItineraryCommand.Snapshots.{finished-Beside}
use travel_assistant.ItineraryCommand.Edits.{
  check_update, updated_row, write_update, update_item, summary_before, require_item,
}

module _ {C : Type 0} where
  -- The rows before a position.
  abbrev pub Before : ℕ → List (Row C) → Type 0
  Before n rows = All (λ row. row.sort_no < n) rows

  after_highest-Before : (n : ℕ) (rows : List (Row C)) → after_highest rows ≤ n → Before n rows
  after_highest-Before n [] h = tt
  after_highest-Before n (row ∷ rows) h = (omega arith, after_highest-Before n rows (omega arith))

  abbrev pub others_than : ℕ → List (Row C) → List (Row C)
  others_than id items = keep (λ row. not (row.id == id)) items

  others_than-update_row :
      (id : ℕ) (f : Row C → Row C) (items : List (Row C))
      → ((row : Row C) → (f row).id ≡ row.id)
      → others_than id (update_row id f items) ≡ others_than id items
  unfolding update_row keep
  others_than-update_row id f [] h = refl
  others_than-update_row id f (row ∷ items) h = elim (Bool-cases (row.id == id)) [
    | inl here ↦ rw (here, h row, here) (others_than-update_row id f items h)
    | inr elsewhere ↦
        rw (elsewhere, elsewhere) (ap (λ l. row ∷ l) (others_than-update_row id f items h))
  ]

  find_item_hit :
      (id : ℕ) (row : Row C) (items : List (Row C))
      → (row.id == id && not row.deleted) ≡ true
      → find_item id (row ∷ items) ≡ some row
  unfolding find_item keep
  find_item_hit id row items h = rw (h) refl

  find_item_miss :
      (id : ℕ) (row : Row C) (items : List (Row C))
      → (row.id == id && not row.deleted) ≡ false
      → find_item id (row ∷ items) ≡ find_item id items
  unfolding find_item keep
  find_item_miss id row items h = rw (h) refl

  some_injective : (x y : Row C) → some x ≡ some y → x ≡ y
  some_injective x y e = ground arith

  find_item-update_row :
      (id : ℕ) (f : Row C → Row C) (items : List (Row C)) (row : Row C)
      → ((row : Row C) → (f row).id ≡ row.id)
      → ((row : Row C) → (f row).deleted ≡ row.deleted)
      → find_item id items ≡ some row
      → find_item id (update_row id f items) ≡ some (f row)
  unfolding update_row
  find_item-update_row id f [] row same_id same_mark e = unfold find_item keep in ground arith
  find_item-update_row id f (first ∷ items) row same_id same_mark e =
      let rest = find_item-update_row id f items row same_id same_mark in
      let copied : ((f first).id == id && not (f first).deleted)
          ≡ (first.id == id && not first.deleted) =
        cc (same_id first, same_mark first) in
      elim (Bool-cases (first.id == id)) [
        | inl here ↦ elim (Bool-cases first.deleted) [
          | inl hidden ↦
              let no_hit : (first.id == id && not first.deleted) ≡ false = ground arith in
              subst
                (λ b.
                  find_item id ((if b then f first else first) ∷ update_row id f items)
                  ≡ some (f row))
                (sym here)
                (find_item_miss id (f first) (update_row id f items) (copied ∙ no_hit)
                  ∙ rest (sym (find_item_miss id first items no_hit) ∙ e))
          | inr there ↦
              let hit : (first.id == id && not first.deleted) ≡ true = ground arith in
              subst
                (λ b.
                  find_item id ((if b then f first else first) ∷ update_row id f items)
                  ≡ some (f row))
                (sym here)
                (find_item_hit id (f first) (update_row id f items) (copied ∙ hit)
                  ∙ ap (λ r. some (f r))
                      (some_injective first row (sym (find_item_hit id first items hit) ∙ e)))
        ]
        | inr elsewhere ↦
            let no_hit : (first.id == id && not first.deleted) ≡ false = ground arith in
            subst
              (λ b.
                find_item id ((if b then f first else first) ∷ update_row id f items)
                ≡ some (f row))
              (sym elsewhere)
              (find_item_miss id first (update_row id f items) no_hit
                ∙ rest (sym (find_item_miss id first items no_hit) ∙ e))
      ]

  -- Column by column: the new value where one is given, else the old one.
  abbrev pub column : List (Option C) → ℕ → Option C
  column [] n = none
  column (c ∷ columns) zero = c
  column (c ∷ columns) (suc n) = column columns n

  column-copy_optional :
      (fields columns : List (Option C)) (n : ℕ)
      → column fields n ≡ none
      → column (copy_optional fields columns) n ≡ column columns n
  unfolding copy_optional
  column-copy_optional [] columns n e = refl
  column-copy_optional (f ∷ fields) [] n e = refl
  column-copy_optional (none ∷ fields) (c ∷ columns) zero e = refl
  column-copy_optional (some v ∷ fields) (c ∷ columns) zero e = ground arith
  column-copy_optional (none ∷ fields) (c ∷ columns) (suc n) e =
      column-copy_optional fields columns n e
  column-copy_optional (some v ∷ fields) (c ∷ columns) (suc n) e =
      column-copy_optional fields columns n e

  -- The rows of one entry before and after an update with this request: what the request gives is
  -- taken over (a blank name is not), all else but the day and the position is as it was.
  pub record Updates (texts : Texts) (r : Upsert C) (row new : Row C) : Type 0 where
    pub id : new.id ≡ row.id
    pub itinerary_id : new.itinerary_id ≡ row.itinerary_id
    pub deleted : new.deleted ≡ row.deleted
    pub same_type : r.item_type ≡ none → new.item_type ≡ row.item_type
    pub given_type : (t : String) → r.item_type ≡ some t → new.item_type ≡ t
    pub same_name : r.poi_name ≡ none → new.poi_name ≡ row.poi_name
    pub blank_name :
        (t : String) → r.poi_name ≡ some t → texts.strip t ≡ "" → new.poi_name ≡ row.poi_name
    pub given_name : (t : String) → r.poi_name ≡ some t → texts.strip t ≢ "" → new.poi_name ≡ t
    pub same_column :
        (n : ℕ) → column r.fields n ≡ none → column new.columns n ≡ column row.columns n
    pub given_column :
        (n : ℕ) (v : C)
        → column r.fields n ≡ some v
        → n < length row.columns
        → column new.columns n ≡ some v

  column-copy_optional_given :
      (fields columns : List (Option C)) (n : ℕ) (v : C)
      → column fields n ≡ some v
      → n < length columns
      → column (copy_optional fields columns) n ≡ some v
  unfolding copy_optional
  column-copy_optional_given [] columns n v e h = ground arith
  column-copy_optional_given (f ∷ fields) [] n v e h = absurd (omega (arith, h))
  column-copy_optional_given (none ∷ fields) (c ∷ columns) zero v e h = ground arith
  column-copy_optional_given (some w ∷ fields) (c ∷ columns) zero v e h = e
  column-copy_optional_given (none ∷ fields) (c ∷ columns) (suc n) v e h =
      column-copy_optional_given fields columns n v e (omega arith)
  column-copy_optional_given (some w ∷ fields) (c ∷ columns) (suc n) v e h =
      column-copy_optional_given fields columns n v e (omega arith)

module _ (texts : Texts) {C : Type 0} (r : Upsert C) where
  updated_row-Updates :
      (day : Day) (items : List (Row C)) (row : Row C)
      → Updates texts r row (updated_row texts r (some day) items row)
  unfolding updated_row
  updated_row-Updates day items row = record {
    id = refl;
    itinerary_id = refl;
    deleted = refl;
    same_type = λ e. rw (e) refl;
    given_type = λ t e. rw (e) refl;
    same_name = λ e. rw (e) refl;
    blank_name = λ t e blank. rw (e, blank) refl;
    given_name = λ t e full. elim (Bool-cases (texts.strip t == "")) [
      | inl blank ↦ absurd (ground (arith, full, blank, string_eq.same_iff (texts.strip t) ""))
      | inr there ↦ rw (e, there) refl
    ];
    same_column = λ n e. column-copy_optional r.fields row.columns n e;
    given_column = λ n v e h. column-copy_optional_given r.fields row.columns n v e h;
  }

  updated_row-keys :
      (day : Option Day) (items : List (Row C)) (row : Row C)
      → ((updated_row texts r day items row).id ≡ row.id)
        × ((updated_row texts r day items row).deleted ≡ row.deleted)
        × ((updated_row texts r day items row).columns ≡ copy_optional r.fields row.columns)
  unfolding updated_row
  updated_row-keys none items row = (refl, refl, refl)
  updated_row-keys (some day) items row = (refl, refl, refl)

require_item_found :
    {C T : Type 0} (user_id item_id : ℕ) (rest : Row C → Result C T) (s : Tables C T) (row : Row C)
    (main : Main)
    → find_item item_id s.items ≡ some row
    → require_writable_main user_id row.itinerary_id s.team ≡ done main
    → require_item user_id item_id rest s ≡ rest row
require_item_found user_id item_id rest s row main found may = rw (require_item, found, may) refl

update_item-items :
    {C T : Type 0} (services : Services C T) (ids : NewIds) (user_id item_id : ℕ)
    (request : Option (Upsert C)) (s t : Tables C T) (main : Main) (row : Row C) (r : Upsert C)
    (day : Day)
    → find_item item_id s.items ≡ some row
    → require_writable_main user_id row.itinerary_id s.team ≡ done main
    → check_update services.texts request row s.days ≡ right (r, some day)
    → snapshot services user_id row.itinerary_id "move_item"
        (summary_before (some day))
        ids.before
        s
      ≡ finished t
    → (tables (update_item services ids user_id item_id request s)).items
      ≡ update_row item_id (updated_row services.texts r (some day) t.items) t.items
unfolding update_item write_update logged settle
update_item-items services ids user_id item_id request s t main row r day found may passes snapped =
    ap (λ x. (tables x).items) (require_item_found user_id item_id _ s row main found may)
    ∙ rw (passes, snapped) refl

-- An update that names another day of the trip, where the user may write. Afterwards the entry is on
-- that day, at a position that is greater than that of every entry the day showed before; its kind,
-- its name and each of its other columns are as the request gives them, and as they were where it gives
-- none or a blank name; and all other rows are the same.
pub update_item-Last :
    {C T : Type 0} (services : Services C T) (ids : NewIds) (user_id item_id : ℕ)
    (request : Option (Upsert C)) (s t : Tables C T) (main : Main) (row : Row C) (r : Upsert C)
    (day : Day)
    → find_item item_id s.items ≡ some row
    → require_writable_main user_id row.itinerary_id s.team ≡ done main
    → check_update services.texts request row s.days ≡ right (r, some day)
    → snapshot services user_id row.itinerary_id "move_item"
        (summary_before (some day))
        ids.before
        s
      ≡ finished t
    → (new : Row C) × (find_item item_id
          (tables (update_item services ids user_id item_id request s)).items
        ≡ some new)
      × (new.day_id ≡ day.id)
      × Before new.sort_no (shown day.id s.items)
      × Updates services.texts r row new
      × (others_than item_id (tables (update_item services ids user_id item_id request s)).items
          ≡ others_than item_id s.items)
update_item-Last services ids user_id item_id request s t main row r day found may passes snapped =
    let kept =
      finished-Beside services user_id row.itinerary_id "move_item" (summary_before (some day))
        ids.before s t snapped in
    let f : Row _ → Row _ = updated_row services.texts r (some day) s.items in
    let keys = updated_row-keys services.texts r (some day) s.items in
    rw
      (
        update_item-items services ids user_id item_id request s t main row r day found may passes
            snapped,
        kept.2,
      )
      (
        f row,
        find_item-update_row item_id f s.items row (λ x. (keys x).0) (λ x. (keys x).1) found,
        unfold updated_row in refl,
        unfold updated_row next_sort in
            after_highest-Before (next_sort day.id s.items) (shown day.id s.items) (omega arith),
        updated_row-Updates services.texts r day s.items row,
        others_than-update_row item_id f s.items (λ x. (keys x).0),
      )
