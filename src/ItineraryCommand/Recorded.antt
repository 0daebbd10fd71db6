-- ===== src/ItineraryCommand/Recorded.antt =====
-- An edit as a whole: what it leaves when it fails, and the version to return to when it finishes.
use travel_assistant.Base.{
  append_assoc, sym, ℕ, zero, suc, String, ◌≡◌, refl, ◌∙◌, ap, inl, inr, List, [], ◌∷◌, ◌++◌,
  Bool-cases,
}
use travel_assistant.CollaborationService.{Team, require_writable_main}
use travel_assistant.ItineraryVersion.{
  Version, Request, latest, new_version, taken, Created, no_access, conflict, created,
  write_snapshot, attempts, create_snapshot, record_snapshot_or_log, rows_of,
}
use travel_assistant.ItineraryVersion.Retry.{Answer-cases}
use travel_assistant.ItineraryCommand.{
  Tables, Result, failed, finished, Services, snapshot, snapshot_result, snapshot_request, logged,
  then_write,
}
use travel_assistant.ItineraryCommand.Edits.{operation}

-- A snapshot beside which nobody writes adds one row with its text, or none.
abbrev pub Alone : Request → List Version → Created → Type 0
Alone r rows (no_access e after) = after ≡ rows
Alone r rows (conflict after) = after ≡ rows
Alone r rows (created v after) =
    (after ≡ v ∷ rows) × (v.snapshot_json ≡ r.snapshot_json) × (v.itinerary_id ≡ r.itinerary_id)

attempts-Alone :
    (r : Request) (id : ℕ) (team : Team) (left : ℕ) (rows : List Version)
    → Alone r rows (attempts r id team (λ n l. l) left rows)
unfolding attempts write_snapshot new_version
attempts-Alone r id team zero rows = refl
attempts-Alone r id team (suc left) rows =
    elim (Answer-cases (require_writable_main r.user_id r.itinerary_id team)) [
      | inl (e, barred) ↦ rw (attempts, write_snapshot, barred) refl
      | inr (main, may) ↦
          elim (Bool-cases (taken (new_version r id (latest r.itinerary_id rows)) rows)) [
            | inl there ↦
                rw (attempts, write_snapshot, may, there) (attempts-Alone r id team left rows)
            | inr free ↦ rw (attempts, write_snapshot, may, free) (refl, refl, refl)
          ]
    ]

create_snapshot-Alone :
    (r : Request) (id : ℕ) (team : Team) (rows : List Version)
    → Alone r rows (create_snapshot r id team (λ n l. l) rows)
unfolding create_snapshot
create_snapshot-Alone r id team rows = attempts-Alone r id team 3 rows

-- The rows of a table that came after.
abbrev pub Later : List Version → List Version → Type 0
Later rows after = (newer : List Version) × (after ≡ newer ++ rows)

Alone-Later :
    (r : Request) (rows : List Version) (c : Created) → Alone r rows c → Later rows (rows_of c)
Alone-Later r rows (no_access e after) a = ([], a)
Alone-Later r rows (conflict after) a = ([], a)
Alone-Later r rows (created v after) a = (v ∷ [], a.0)

module _ {C T : Type 0} (services : Services C T) where
  -- A failed edit leaves the tables as they were; a finished one leaves a version of a trip with
  -- the text of its details before it.
  abbrev pub Recorded : ℕ → Tables C T → Result C T → Type 0
  Recorded user_id s (failed e t) = t ≡ s
  Recorded user_id s (finished t) =
      (itinerary_id : ℕ) × (v : Version) × (newer : List Version) × (t.versions
        ≡ newer ++ (v ∷ s.versions))
      × (v.snapshot_json ≡ services.details user_id itinerary_id s)
      × (v.itinerary_id ≡ itinerary_id)

  result-Recorded :
      (user_id itinerary_id : ℕ) (s : Tables C T) (r : Request) (c : Created)
      → r.snapshot_json ≡ services.details user_id itinerary_id s
      → r.itinerary_id ≡ itinerary_id
      → Alone r s.versions c
      → Recorded user_id s (snapshot_result s c)
  result-Recorded user_id itinerary_id s r (no_access e rows) text trip a =
      ap (λ l. record s { versions = l }) a
  result-Recorded user_id itinerary_id s r (conflict rows) text trip a =
      ap (λ l. record s { versions = l }) a
  result-Recorded user_id itinerary_id s r (created v rows) text trip a =
      (itinerary_id, v, [], a.0, a.1 ∙ text, a.2 ∙ trip)

  snapshot-Recorded :
      (user_id itinerary_id : ℕ) (operation summary : String) (id : ℕ) (s : Tables C T)
      → Recorded user_id s (snapshot services user_id itinerary_id operation summary id s)
  unfolding snapshot
  snapshot-Recorded user_id itinerary_id operation summary id s =
      result-Recorded user_id itinerary_id s
        (snapshot_request services user_id itinerary_id operation summary s) _ refl refl
        (create_snapshot-Alone (snapshot_request services user_id itinerary_id operation summary s)
          id s.team s.versions)

  -- A second snapshot only adds to the versions.
  logged-Recorded :
      (user_id trip : ℕ) (operation summary : String) (id : ℕ) (s t : Tables C T)
      → Recorded user_id s (finished t)
      → Recorded user_id s (logged services user_id trip operation summary id t)
  unfolding logged record_snapshot_or_log
  logged-Recorded user_id trip operation summary id s t (itinerary_id, v, newer, e, text, of_trip) =
      let later =
        Alone-Later (snapshot_request services user_id trip operation summary t) t.versions _ (
          create_snapshot-Alone (snapshot_request services user_id trip operation summary t) id
            t.team t.versions) in
      (
        itinerary_id,
        v,
        later.0 ++ newer,
        later.1 ∙ ap (λ l. later.0 ++ l) e ∙ sym (append_assoc later.0 newer (v ∷ s.versions)),
        text,
        of_trip,
      )

  -- A write between the two snapshots that leaves the versions alone.
  then_write-Recorded :
      (user_id trip : ℕ) (operation summary : String) (id : ℕ) (write : Tables C T → Tables C T)
      (s : Tables C T) (r : Result C T)
      → ((t : Tables C T) → (write t).versions ≡ t.versions)
      → Recorded user_id s r
      → Recorded user_id s
          (then_write (λ t. logged services user_id trip operation summary id (write t)) r)
  then_write-Recorded user_id trip operation summary id write s (failed e t) keeps h = h
  then_write-Recorded user_id trip operation summary id write s (finished t) keeps
        (itinerary_id, v, newer, e, text, of_trip) =
      logged-Recorded user_id trip operation summary id s (write t)
        (itinerary_id, v, newer, keeps t ∙ e, text, of_trip)

  pub edit-Recorded :
      (user_id trip : ℕ) (operation first_summary last_summary : String) (first last : ℕ)
      (write : Tables C T → Tables C T) (s : Tables C T)
      → ((t : Tables C T) → (write t).versions ≡ t.versions)
      → Recorded user_id s (
          then_write
            (λ t. logged services user_id trip operation last_summary last (write t))
            (snapshot services user_id trip operation first_summary first s))
  edit-Recorded user_id trip operation first_summary last_summary first last write s keeps =
      then_write-Recorded user_id trip operation last_summary last write s _ keeps
        (snapshot-Recorded user_id trip operation first_summary first s)
