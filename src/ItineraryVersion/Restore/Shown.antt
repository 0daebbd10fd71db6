-- ===== src/ItineraryVersion/Restore/Shown.antt =====
-- The trip after `restore`: its days and entries are those of the version, and no other trip changed.
use travel_assistant.Base.{
  ℕ, suc, ◌≤◌, ◌<◌, ◌≡◌, refl, sym, subst, ap, ◌∙◌, inl, inr, String, true, not, Option, some, List,
  [], ◌∷◌, ◌++◌, arith, ◌==◌, nat_eq, keep, keep-append, append_nil, append_assoc, All,
  Option-cases,
}
use travel_assistant.GenerationGate.{succeeded}
use travel_assistant.DayPersistence.{Main}
use travel_assistant.CollaborationService.{done, require_writable_main}
use travel_assistant.ItineraryVersion.{Version}
use travel_assistant.ItineraryVersion.Diff.{require}
use travel_assistant.ItineraryVersion.Restore.{
  SavedDay, Saved, DayRow, ItemRow, Plans, Restored, invalid, restored, Conversions, SavedItem,
  new_days, replace, log_restore, restore,
}
use travel_assistant.ItineraryVersion.Restore.Kept.{
  All-weaken, All-keep, All-append, keep_whole, keep_nothing, keep_replaced, keep_unreplaced,
}
use travel_assistant.ItineraryVersion.Restore.Laws.{
  Converted, optional-Converted, kept_text, metadata_json-kept_text, of_day, Holds, Rebuilt,
  no_days, rebuilt_day, Holds-All, new_days-Rebuilt,
}

module _ {J D H R T : Type 0} (conv : Conversions J D H R T) (itinerary_id : ℕ)
    (city : Option String) where
  -- Each row of a day has the columns of the saved day at its place, and the rows of entries that belong
  -- to it are the saved entries in their order, numbered from 0.
  pub data Shown (rows : List (ItemRow J R)) : List (SavedDay J) → List (DayRow D) → Type 0 where
    no_more : Shown rows [] []
    shown_day :
        {day : SavedDay J} {days : List (SavedDay J)} {row : DayRow D} {day_rows : List (DayRow D)}
        → row.day_no ≡ day.day_no
        → row.note ≡ day.note
        → row.city ≡ city
        → Converted conv.as_date day.travel_date row.travel_date
        → row.metadata_json ≡ kept_text conv day
        → row.generation_status ≡ succeeded
        → Holds conv itinerary_id row.id 0 day.items (of_day row.id rows)
        → Shown rows days day_rows
        → Shown rows (day ∷ days) (row ∷ day_rows)

  abbrev Under : ℕ → List (ItemRow J R) → Type 0
  Under n rows = All (λ row. row.day_id < n) rows

  abbrev From : ℕ → List (ItemRow J R) → Type 0
  From n rows = All (λ row. (row.itinerary_id ≡ itinerary_id) × (n ≤ row.day_id)) rows

  Rebuilt-From :
      {id : ℕ} {days : List (SavedDay J)} {day_rows : List (DayRow D)} {rows : List (ItemRow J R)}
      → Rebuilt conv itinerary_id city id days day_rows rows
      → From id rows
  Rebuilt-From no_days = tt
  Rebuilt-From (rebuilt_day {id} {rows} {later} e h r) =
      All-append _ rows later
        (All-weaken _ _ rows (λ row p. (p.0, omega (arith, p.1)))
          (Holds-All conv itinerary_id id h))
        (All-weaken _ _ later (λ row p. (p.0, omega (arith, p.1))) (Rebuilt-From r))

  -- Among older and later rows a day finds its own.
  of_day-own :
      (id n : ℕ) (items : List (SavedItem J)) (older rows later : List (ItemRow J R))
      → Under id older
      → Holds conv itinerary_id id n items rows
      → From (suc id) later
      → of_day id (older ++ (rows ++ later)) ≡ rows
  of_day-own id n items older rows later under h from =
      keep-append (λ row. row.day_id == id) older (rows ++ later)
      ∙ ap (λ l. l ++ of_day id (rows ++ later))
          (keep_nothing _ older (All-weaken _ _ older (λ row p. ground (arith, p)) under))
      ∙ keep-append (λ row. row.day_id == id) rows later
      ∙ ap (λ l. l ++ of_day id later)
          (keep_whole _ rows (
            All-weaken _ _ rows (λ row p. ground (arith, nat_eq.same_iff row.day_id id, p.1))
              (Holds-All conv itinerary_id id h)))
      ∙ ap (λ l. rows ++ l)
          (keep_nothing _ later (All-weaken _ _ later (λ row p. ground (arith, p.1)) from))
      ∙ append_nil rows

  Rebuilt-Shown :
      {id : ℕ} {days : List (SavedDay J)} {day_rows : List (DayRow D)} {rows : List (ItemRow J R)}
      (older : List (ItemRow J R))
      → Under id older
      → Rebuilt conv itinerary_id city id days day_rows rows
      → Shown (older ++ rows) days day_rows
  Rebuilt-Shown older under no_days = no_more
  Rebuilt-Shown older under
        (rebuilt_day {id} {day} {days} {travel_date} {rows} {later} {day_rows} e h r) =
      let under_next : Under (suc id) (older ++ rows) =
        All-append _ older rows (All-weaken _ _ older (λ row p. omega (arith, p)) under)
          (All-weaken _ _ rows (λ row p. omega (arith, p.1)) (Holds-All conv itinerary_id id h)) in
      shown_day refl refl refl (optional-Converted conv.as_date day.travel_date travel_date e)
        (metadata_json-kept_text conv day) refl
        (subst (λ l. Holds conv itinerary_id id 0 day.items l)
          (sym (of_day-own id 0 day.items older rows later under h (Rebuilt-From r))) h)
        (subst (λ l. Shown l days day_rows) (append_assoc older rows later)
          (Rebuilt-Shown (older ++ rows) under_next r))

  Rebuilt-trip :
      {id : ℕ} {days : List (SavedDay J)} {day_rows : List (DayRow D)} {rows : List (ItemRow J R)}
      → Rebuilt conv itinerary_id city id days day_rows rows
      → All (λ row. row.itinerary_id ≡ itinerary_id) day_rows
  Rebuilt-trip no_days = tt
  Rebuilt-trip (rebuilt_day e h r) = (refl, Rebuilt-trip r)

module _ {J D H R T : Type 0} (conv : Conversions J D H R T) where
  abbrev days_in : Restored J D H R T → List (DayRow D)
  days_in (restored q) = q.days
  days_in _ = []

  abbrev items_in : Restored J D H R T → List (ItemRow J R)
  items_in (restored q) = q.items
  items_in _ = []

  restore_rows :
      (id user_id itinerary_id version_id : ℕ) (p q : Plans J D H R T) (main : Main)
      (version : Version) (saved : Saved J)
      → require_writable_main user_id itinerary_id p.team ≡ done main
      → require itinerary_id version_id p.versions ≡ some version
      → conv.loads version.snapshot_json ≡ some saved
      → restore conv id user_id itinerary_id version_id p ≡ restored q
      → (heading : H) × (rows : List (DayRow D) × List (ItemRow J R)) × (new_days conv itinerary_id
            saved.city p.next_day_id saved.day_list
          ≡ some rows)
        × (q.days ≡ (replace conv itinerary_id heading rows p).days)
        × (q.items ≡ (replace conv itinerary_id heading rows p).items)
  unfolding restore log_restore
  restore_rows id user_id itinerary_id version_id p q main version saved may found read e =
      elim (Option-cases (conv.heading_columns saved.heading)) [
        | inl bad ↦
            let same : invalid ≡ restored q = sym (rw (restore, may, found, read, bad) refl) ∙ e in
            absurd (cc same)
        | inr (heading, good) ↦
            elim (Option-cases
              (new_days conv itinerary_id saved.city p.next_day_id saved.day_list)) [
                | inl bad ↦
                    let same : invalid ≡ restored q =
                      sym (rw (restore, may, found, read, good, bad) refl) ∙ e in
                    absurd (cc same)
                | inr (rows, built) ↦ (
                  heading,
                  rows,
                  built,
                  ap days_in (sym e) ∙ rw (restore, may, found, read, good, built) refl,
                  ap items_in (sym e) ∙ rw (restore, may, found, read, good, built) refl,
                )
              ]
      ]

  -- What the tables `days` and `items` say of the trip and of the others.
  abbrev Replaced : ℕ → Saved J → Plans J D H R T → List (DayRow D) → List (ItemRow J R) → Type 0
  Replaced itinerary_id saved p days items =
      Shown conv itinerary_id saved.city items saved.day_list
        (keep (λ day. day.itinerary_id == itinerary_id) days)
      × (keep (λ day. not (day.itinerary_id == itinerary_id)) days
          ≡ keep (λ day. not (day.itinerary_id == itinerary_id)) p.days)
      × (keep (λ row. not (row.itinerary_id == itinerary_id)) items
          ≡ keep (λ row. not (row.itinerary_id == itinerary_id)) p.items)

  replace-Replaced :
      (itinerary_id : ℕ) (heading : H) (saved : Saved J) (p : Plans J D H R T)
      (rows : List (DayRow D) × List (ItemRow J R))
      → All (λ row. row.day_id < p.next_day_id) p.items
      → Rebuilt conv itinerary_id saved.city p.next_day_id saved.day_list rows.0 rows.1
      → Replaced itinerary_id saved p
          (replace conv itinerary_id heading rows p).days
          (replace conv itinerary_id heading rows p).items
  unfolding replace
  replace-Replaced itinerary_id heading saved p rows older r =
      let others = keep (λ row. not (row.itinerary_id == itinerary_id)) p.items in
      let in_trip =
        All-weaken _ (λ day. (day.itinerary_id == itinerary_id) ≡ true) rows.0
          (λ day e. (nat_eq.same_iff day.itinerary_id itinerary_id).1 e)
          (Rebuilt-trip conv itinerary_id saved.city r) in
      let items_in_trip =
        All-weaken _ (λ row. (row.itinerary_id == itinerary_id) ≡ true) rows.1
          (λ row e. (nat_eq.same_iff row.itinerary_id itinerary_id).1 e.0)
          (Rebuilt-From conv itinerary_id saved.city r) in
      (
        subst (Shown conv itinerary_id saved.city (others ++ rows.1) saved.day_list)
            (sym (keep_replaced _ p.days rows.0 in_trip))
            (Rebuilt-Shown conv itinerary_id saved.city others (All-keep _ _ p.items older) r),
        keep_unreplaced _ p.days rows.0 (All-weaken _ _ rows.0 (λ day e. ap not e) in_trip),
        keep_unreplaced _ p.items rows.1 (All-weaken _ _ rows.1 (λ row e. ap not e) items_in_trip),
      )

-- A return to a version, where the user may write, the version is the trip's, its text can be read, and
-- `restore` ends with new tables `q`; every entry's day is older than the next id of a day. Then the days
-- of the trip in `q` are those of the snapshot, in its order, with its numbers, notes and dates, the text
-- of its theme and of four more values that are not empty, as SUCCEEDED days of its city; the entries of
-- each are the snapshot's, in their order and numbered from 0, column by column as `Matches` says: all
-- are taken over, times by their conversions, but for the note that says why an entry is there, which is
-- lost; no other day or entry of the trip is left; and the rows of other trips are the same.
pub restore-Shown :
    {J D H R T : Type 0} (conv : Conversions J D H R T) (id user_id itinerary_id version_id : ℕ)
    (p q : Plans J D H R T) (main : Main) (version : Version) (saved : Saved J)
    → require_writable_main user_id itinerary_id p.team ≡ done main
    → require itinerary_id version_id p.versions ≡ some version
    → conv.loads version.snapshot_json ≡ some saved
    → restore conv id user_id itinerary_id version_id p ≡ restored q
    → All (λ row. row.day_id < p.next_day_id) p.items
    → Shown conv itinerary_id saved.city q.items saved.day_list
        (keep (λ day. day.itinerary_id == itinerary_id) q.days)
      × (keep (λ day. not (day.itinerary_id == itinerary_id)) q.days
          ≡ keep (λ day. not (day.itinerary_id == itinerary_id)) p.days)
      × (keep (λ row. not (row.itinerary_id == itinerary_id)) q.items
          ≡ keep (λ row. not (row.itinerary_id == itinerary_id)) p.items)
restore-Shown conv id user_id itinerary_id version_id p q main version saved may found read e
      older =
    let rebuilt =
      restore_rows conv id user_id itinerary_id version_id p q main version saved may found read
        e in
    let r =
      new_days-Rebuilt conv itinerary_id saved.city p.next_day_id saved.day_list rebuilt.1
        rebuilt.2 in
    let done_so = replace-Replaced conv itinerary_id rebuilt.0 saved p rebuilt.1 older r in
    subst (λ l. Replaced conv itinerary_id saved p l q.items) (sym rebuilt.3)
      (subst
        (Replaced conv itinerary_id saved p (replace conv itinerary_id rebuilt.0 rebuilt.1 p).days)
        (sym rebuilt.4) done_so)
