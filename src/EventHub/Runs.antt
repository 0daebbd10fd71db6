-- ===== src/EventHub/Runs.antt =====
-- The limits of the hub hold however its calls, its readers and the loops follow each other.
use travel_assistant.Base.{ℕ, ◌≡◌, refl, String, List, [], ◌∷◌, nat_eq}
use travel_assistant.Dict.{lookup}
use travel_assistant.EventHub.{
  Hub, sinks_of, run_scheduled, take_one, subscribe, unsubscribe, offer_all, broadcast,
}
use travel_assistant.EventHub.Laws.{
  IsBounded, put-IsBounded, take_one-IsBounded, subscribe-IsBounded, unsubscribe-IsBounded,
  offer_all-IsBounded, unsubscribe_all-IsBounded,
}

-- What happens to the hub: a call of it, a frame taken by a reader, the loop's turn, or the end of a
-- loop.
pub data Event : Type 0 where
  subscribes : (id itinerary_id : ℕ) (limit_envelope : String) → Event
  unsubscribes : (id : ℕ) → Event
  broadcasts : (itinerary_id : ℕ) (envelope : String) → Event
  takes : (id : ℕ) → Event
  turns : Event

unfoldable pub step : Event → Hub → Hub
step (subscribes id itinerary_id limit_envelope) h = (subscribe id itinerary_id limit_envelope h).1
step (unsubscribes id) h = unsubscribe id h
step (broadcasts itinerary_id envelope) h = (broadcast itinerary_id envelope h).1
step (takes id) h = (take_one id h).1
step turns h = run_scheduled h

unfoldable pub run : List Event → Hub → Hub
run [] h = h
run (event ∷ events) h = run events (step event h)

run_scheduled-IsBounded : (h : Hub) → IsBounded h → IsBounded (run_scheduled h)
unfolding run_scheduled
run_scheduled-IsBounded h b = turned h.scheduled refl
  where
    turned : (calls : List (ℕ × String)) → h.scheduled ≡ calls → IsBounded (run_scheduled h)
    turned [] e = rw (run_scheduled, e) b
    turned (call ∷ calls) e =
        rw (run_scheduled, e)
          (put-IsBounded call.0 call.1 (record h { scheduled = calls })
            (record { lists = b.lists; queues = b.queues }))

step-IsBounded : (event : Event) (h : Hub) → IsBounded h → IsBounded (step event h)
unfolding step broadcast
step-IsBounded (subscribes id itinerary_id limit_envelope) h b =
    subscribe-IsBounded id itinerary_id limit_envelope h b
step-IsBounded (unsubscribes id) h b = unsubscribe-IsBounded id h b
step-IsBounded (broadcasts itinerary_id envelope) h b =
    let ids = sinks_of (lookup itinerary_id h.subscribers) in
    let offered = offer_all ids envelope h in
    unsubscribe_all-IsBounded offered.0.1 offered.1 (offer_all-IsBounded ids envelope h b)
step-IsBounded (takes id) h b = take_one-IsBounded id h b
step-IsBounded turns h b = run_scheduled-IsBounded h b

-- Whatever happens to the hub, each trip in its registry has between one and five connections, so no
-- key is left for an empty list, and no connection has more than 200 frames waiting, if this was so
-- before.
pub run-IsBounded_hub : (events : List Event) (h : Hub) → IsBounded h → IsBounded (run events h)
unfolding run
run-IsBounded_hub [] h b = b
run-IsBounded_hub (event ∷ events) h b =
    run-IsBounded_hub events (step event h) (step-IsBounded event h b)
