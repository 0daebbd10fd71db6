-- ===== src/ItineraryCommand/Snapshots.antt =====
-- What the snapshots around an edit change: the table of versions only.
use travel_assistant.Base.{ℕ, String, ◌≡◌, refl, arith}
use travel_assistant.ItineraryCommand.{Tables, finished, tables, Services, snapshot, logged}

-- Both hold the same but for the versions.
abbrev pub Beside : {C T : Type 0} → Tables C T → Tables C T → Type 0
Beside s t = (t.team ≡ s.team) × (t.days ≡ s.days) × (t.items ≡ s.items) × (t.others ≡ s.others)

module _ {C T : Type 0} (services : Services C T) (user_id itinerary_id : ℕ)
    (operation summary : String) (id : ℕ) (s : Tables C T) where
  pub snapshot-Beside :
      Beside s (tables (snapshot services user_id itinerary_id operation summary id s))
  unfolding snapshot
  snapshot-Beside = ground arith

  pub logged-Beside :
      Beside s (tables (logged services user_id itinerary_id operation summary id s))
  unfolding logged
  logged-Beside = (refl, refl, refl, refl)

  -- The tables that the write starts from.
  pub finished-Beside :
      (t : Tables C T)
      → snapshot services user_id itinerary_id operation summary id s ≡ finished t
      → Beside s t
  finished-Beside t e = ground (arith, snapshot-Beside)
