-- ===== src/ItineraryCommand/Cascade.antt =====
-- `delete_itinerary` and `delete_cascade` of services/itinerary_command.py. A session
-- shows no deleted main row, day or budget row, so their deletion takes them out of the tables; an entry
-- keeps its row with a mark. The messages are deleted for good.
use travel_assistant.Base.{
  ℕ, ◌≡◌, refl, ap, ◌∙◌, true, not, ◌&&◌, List, [], ◌∷◌, map, ◌==◌, nat_eq, keep, if◌then◌else◌,
  Bool-cases, inl, inr,
}
use travel_assistant.DayPersistence.{Main, Day}
use travel_assistant.CollaborationService.{Team, denied, done, require_owned_main}
use travel_assistant.ItineraryVersion.Restore.Kept.{keep_both, keep_twice}
use travel_assistant.ItineraryCommand.{
  Row, Tables, Error, access, Result, failed, finished, Services, NewIds, snapshot,
}
use travel_assistant.ItineraryCommand.Snapshots.{finished-Beside}

-- A row of `budget_detail` or of `itinerary_chat_message`.
pub record Attached (A : Type 0) : Type 0 where
  pub itinerary_id : ℕ
  pub content : A

-- The tables with the rows that hang on a trip.
pub record Trips (C T A : Type 0) : Type 0 where
  pub base : Tables C T
  pub budgets : List (Attached A)
  pub chats : List (Attached A)

pub data Deleted (C T A : Type 0) : Type 0 where
  not_deleted : Error → Trips C T A → Deleted C T A
  gone : Trips C T A → Deleted C T A

abbrev pub other_rows : {A : Type 0} → ℕ → List (Attached A) → List (Attached A)
other_rows itinerary_id rows = keep (λ row. not (row.itinerary_id == itinerary_id)) rows

module _ {C T A : Type 0} where
  unfoldable pub delete_cascade : ℕ → Trips C T A → Trips C T A
  unfolding keep
  delete_cascade itinerary_id p = record {
    base = record p.base {
      team = record p.base.team {
        mains = keep (λ main. not (main.id == itinerary_id)) p.base.team.mains;
      };
      days = keep (λ day. not (day.itinerary_id == itinerary_id)) p.base.days;
      items =
          map
            (λ row. if row.itinerary_id == itinerary_id then record row { deleted = true } else row)
            p.base.items;
    };
    budgets = other_rows itinerary_id p.budgets;
    chats = other_rows itinerary_id p.chats;
  }

  abbrev pub after_snapshot : ℕ → Trips C T A → Result C T → Deleted C T A
  after_snapshot itinerary_id p (failed e t) = not_deleted e (record p { base = t })
  after_snapshot itinerary_id p (finished t) =
      gone (delete_cascade itinerary_id (record p { base = t }))

  unfoldable pub delete_itinerary : Services C T → NewIds → ℕ → ℕ → Trips C T A → Deleted C T A
  unfolding snapshot delete_cascade
  delete_itinerary services ids user_id itinerary_id p =
      elim (require_owned_main user_id itinerary_id p.base.team) [
        | denied e ↦ not_deleted (access e) p
        | done main ↦
            after_snapshot itinerary_id p
              (snapshot services user_id itinerary_id "delete" "删除行程前快照" ids.before p.base)
      ]

module _ {C : Type 0} where
  -- The entries that the trip shows, and the rows of other trips.
  abbrev pub trip_items : ℕ → List (Row C) → List (Row C)
  trip_items itinerary_id items =
      keep (λ row. row.itinerary_id == itinerary_id && not row.deleted) items

  abbrev pub other_items : ℕ → List (Row C) → List (Row C)
  other_items itinerary_id items = keep (λ row. not (row.itinerary_id == itinerary_id)) items

  marked_items :
      (itinerary_id : ℕ) (items : List (Row C))
      → (trip_items itinerary_id (
            map
              (λ row.
                if row.itinerary_id == itinerary_id then record row { deleted = true } else row)
              items)
          ≡ [])
        × (other_items itinerary_id (
              map
                (λ row.
                  if row.itinerary_id == itinerary_id then record row { deleted = true } else row)
                items)
            ≡ other_items itinerary_id items)
  unfolding keep
  marked_items itinerary_id [] = (refl, refl)
  marked_items itinerary_id (row ∷ items) =
      let rest = marked_items itinerary_id items in
      elim (Bool-cases (row.itinerary_id == itinerary_id)) [
        | inl here ↦ rw (here, here) rest
        | inr elsewhere ↦ rw (elsewhere, elsewhere) (rest.0, ap (λ l. row ∷ l) rest.1)
      ]

-- The owner deletes a trip and the snapshot before it succeeds. Then no session shows the trip, a day, an
-- entry, a budget row or a message of it; and the trips, days, entries, budget rows and messages of other
-- trips are the same.
pub delete_itinerary-Gone :
    {C T A : Type 0} (services : Services C T) (ids : NewIds) (user_id itinerary_id : ℕ)
    (p : Trips C T A) (t : Tables C T) (main : Main)
    → require_owned_main user_id itinerary_id p.base.team ≡ done main
    → snapshot services user_id itinerary_id "delete" "删除行程前快照" ids.before p.base ≡ finished t
    → (q : Trips C T A) × (delete_itinerary services ids user_id itinerary_id p ≡ gone q)
      × (keep (λ m. m.id == itinerary_id) q.base.team.mains ≡ [])
      × (keep (λ d. d.itinerary_id == itinerary_id) q.base.days ≡ [])
      × (trip_items itinerary_id q.base.items ≡ [])
      × (keep (λ row. row.itinerary_id == itinerary_id) q.budgets ≡ [])
      × (keep (λ row. row.itinerary_id == itinerary_id) q.chats ≡ [])
      × (keep (λ m. not (m.id == itinerary_id)) q.base.team.mains
          ≡ keep (λ m. not (m.id == itinerary_id)) p.base.team.mains)
      × (keep (λ d. not (d.itinerary_id == itinerary_id)) q.base.days
          ≡ keep (λ d. not (d.itinerary_id == itinerary_id)) p.base.days)
      × (other_items itinerary_id q.base.items ≡ other_items itinerary_id p.base.items)
      × (other_rows itinerary_id q.budgets ≡ other_rows itinerary_id p.budgets)
      × (other_rows itinerary_id q.chats ≡ other_rows itinerary_id p.chats)
unfolding delete_itinerary delete_cascade
delete_itinerary-Gone services ids user_id itinerary_id p t main owned snapped =
    let kept =
      finished-Beside services user_id itinerary_id "delete" "删除行程前快照" ids.before p.base t
        snapped in
    let marked = marked_items itinerary_id t.items in
    (
      delete_cascade itinerary_id (record p { base = t }),
      rw (delete_itinerary, owned, snapped) refl,
      keep_both _ t.team.mains,
      keep_both _ t.days,
      marked.0,
      keep_both _ p.budgets,
      keep_both _ p.chats,
      keep_twice _ t.team.mains
          ∙ ap (λ (x : Team). keep (λ m. not (m.id == itinerary_id)) x.mains) kept.0,
      keep_twice _ t.days
          ∙ ap (λ (l : List Day). keep (λ d. not (d.itinerary_id == itinerary_id)) l) kept.1,
      marked.1 ∙ ap (other_items itinerary_id) kept.2,
      keep_twice _ p.budgets,
      keep_twice _ p.chats,
    )
