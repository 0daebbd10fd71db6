-- ===== src/ItineraryVersion/Retry.antt =====
-- How `create_snapshot` ends while other members write versions of the same trip.
use travel_assistant.Base.{
  ℕ, zero, suc, ◌+◌, ◌≤◌, ◌<◌, ◌≡◌, refl, ◌⊎◌, ==_refl, inl, inr, true, false, some, List, ◌∷◌,
  arith, nat_eq, length, Bool-cases,
}
use travel_assistant.DayPersistence.{head}
use travel_assistant.CollaborationService.{
  Team, Denied, Answer, denied, done, require_writable_main,
}
use travel_assistant.ItineraryVersion.{
  Version, versions_of, latest, next_no, Request, new_version, taken, write_snapshot, Created,
  no_access, conflict, created, attempts, create_snapshot,
}
use travel_assistant.ItineraryVersion.Numbering.{
  Chain, Fits, newest-Chain, next_no-Chain, any-Chain, taken-versions_of, latest-Fits, insert-Chain,
  versions_of_cons,
}

pub Answer-cases {ℓ} :
    {A : Type ℓ} (a : Answer A) → ((e : Denied) × (a ≡ denied e)) ⊎ ((x : A) × (a ≡ done x))
Answer-cases (denied e) = inl (e, refl)
Answer-cases (done x) = inr (x, refl)

module _ (r : Request) (id : ℕ) (team : Team) (others : ℕ → List Version → List Version) where
  abbrev pub mine : List Version → List Version
  mine rows = versions_of r.itinerary_id rows

  -- Other writers keep the numbering and only add versions.
  abbrev pub OthersAdd : Type 0
  OthersAdd =
      (n : ℕ) (rows : List Version)
      → Chain (mine rows)
      → Chain (mine (others n rows))
        × (length (mine rows) ≤ length (mine (others n rows)))
        × (length (mine (others n rows)) ≡ length (mine rows) → mine (others n rows) ≡ mine rows)

  abbrev pub Ending : ℕ → List Version → Created → Type 0
  Ending left rows (no_access e after) =
      require_writable_main r.user_id r.itinerary_id team ≡ denied e
  Ending left rows (conflict after) = left + length (mine rows) ≤ length (mine after)
  Ending left rows (created v after) =
      (head (mine after) ≡ some v) × Chain (mine after) × (length (mine rows) < length (mine after))

  Ending-later :
      (left : ℕ) (rows now : List Version) (c : Created)
      → length (mine rows) < length (mine now)
      → Ending left now c
      → Ending (suc left) rows c
  Ending-later left rows now (no_access e after) h ends = ends
  Ending-later left rows now (conflict after) h ends = omega arith
  Ending-later left rows now (created v after) h ends = (ends.0, ends.1, omega arith)

  latest-mine :
      (rows : List Version)
      → Chain (mine rows)
      → next_no (latest r.itinerary_id rows) ≡ suc (length (mine rows))
  unfolding latest
  latest-mine rows c = rw (latest, newest-Chain (mine rows) c) (next_no-Chain (mine rows) c)

  -- Where the key is taken, another version came in.
  taken_grown :
      (rows now : List Version)
      → Chain (mine rows)
      → Chain (mine now)
      → length (mine rows) ≤ length (mine now)
      → taken (new_version r id (latest r.itinerary_id rows)) now ≡ true
      → length (mine rows) < length (mine now)
  unfolding new_version
  taken_grown rows now c d h there =
      let key = taken-versions_of (new_version r id (latest r.itinerary_id rows)) now in
      let range = any-Chain (next_no (latest r.itinerary_id rows)) (mine now) d in
      let number = latest-mine rows c in ground (arith)

  Fits-now :
      (rows now : List Version)
      → Chain (mine rows)
      → length (mine rows) ≤ length (mine now)
      → (length (mine now) ≡ length (mine rows) → mine now ≡ mine rows)
      → Fits (mine now) (latest r.itinerary_id rows)
  Fits-now rows now c h same =
      let number = latest-mine rows c in
      let fits = latest-Fits r.itinerary_id rows c in
      (omega arith, omega arith, λ e. rw (same (omega arith)) (fits.2 number))

  written-Ending :
      (left : ℕ) (rows now : List Version)
      → Chain (mine now)
      → Fits (mine now) (latest r.itinerary_id rows)
      → length (mine rows) ≤ length (mine now)
      → taken (new_version r id (latest r.itinerary_id rows)) now ≡ false
      → Ending (suc left) rows (
          created
            (new_version r id (latest r.itinerary_id rows))
            (new_version r id (latest r.itinerary_id rows) ∷ now))
  unfolding new_version
  written-Ending left rows now d fits h free =
      rw
        (
          versions_of_cons r.itinerary_id (new_version r id (latest r.itinerary_id rows)) now,
          ==_refl r.itinerary_id,
        )
        (refl, insert-Chain r id (latest r.itinerary_id rows) now d fits free, omega arith)

  attempts-Ending :
      OthersAdd
      → (left : ℕ) (rows : List Version) → Chain (mine rows)
      → Ending left rows (attempts r id team others left rows)
  unfolding attempts write_snapshot
  attempts-Ending add zero rows c = omega arith
  attempts-Ending add (suc left) rows c =
      elim (Answer-cases (require_writable_main r.user_id r.itinerary_id team)) [
        | inl (e, barred) ↦ rw (attempts, write_snapshot, barred) barred
        | inr (main, may) ↦
            let a = add left rows c in
            elim (Bool-cases
              (taken (new_version r id (latest r.itinerary_id rows)) (others left rows))) [
                | inl there ↦
                    rw (attempts, write_snapshot, may, there)
                      (Ending-later left rows (others left rows) _
                        (taken_grown rows (others left rows) c a.0 a.1 there)
                        (attempts-Ending add left (others left rows) a.0))
                | inr free ↦
                    rw (attempts, write_snapshot, may, free)
                      (written-Ending left rows (others left rows) a.0
                        (Fits-now rows (others left rows) c a.1 a.2) a.1 free)
              ]
      ]

-- `create_snapshot` on a trip whose versions are numbered without gaps, where the other writers keep that
-- numbering and only add. It ends with a new version, which is then the latest of the trip, numbered and
-- linked as the chain wants; or the user may not write; or with the error 500, and then at least three
-- other versions of the trip were written meanwhile.
pub create_snapshot-Ending :
    (r : Request) (id : ℕ) (team : Team) (others : ℕ → List Version → List Version)
    (rows : List Version)
    → OthersAdd r id team others
    → Chain (versions_of r.itinerary_id rows)
    → Ending r id team others 3 rows (create_snapshot r id team others rows)
unfolding create_snapshot
create_snapshot-Ending r id team others rows add c = attempts-Ending r id team others add 3 rows c
