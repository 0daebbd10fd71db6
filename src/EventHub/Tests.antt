-- ===== src/EventHub/Tests.antt =====
-- Witnesses and tests for the hub.
use travel_assistant.Base.{◌≡◌, refl, nat_eq, some, List, [], ◌∷◌, all}
use travel_assistant.EventHub.{
  Hub, subscribe, subscriber_count, offer, close, frame, closed, take_one, run_scheduled,
}
use travel_assistant.EventHub.Laws.{IsBounded}
use travel_assistant.EventHub.Runs.{
  Event, subscribes, unsubscribes, broadcasts, takes, turns, step, run, run-IsBounded_hub,
}

abbrev empty : Hub
empty = record { heap = []; subscribers = []; scheduled = [] }

abbrev six : List Event
six =
    subscribes 1 7 "full"
    ∷ subscribes 2 7 "full"
    ∷ subscribes 3 7 "full"
    ∷ subscribes 4 7 "full"
    ∷ subscribes 5 7 "full"
    ∷ subscribes 6 7 "full"
    ∷ turns
    ∷ []

run-IsBounded_hub_example : IsBounded (run (broadcasts 7 "day" ∷ unsubscribes 2 ∷ six) empty)
run-IsBounded_hub_example =
    run-IsBounded_hub (broadcasts 7 "day" ∷ unsubscribes 2 ∷ six) empty
      (record { lists = unfold all in refl; queues = unfold all in refl })

sixth_reads_the_reason : (take_one 6 (run six empty)).0 ≡ some (frame "full")
unfolding run step subscribe take_one offer close run_scheduled
sixth_reads_the_reason = refl

then_closed : (take_one 6 (run (takes 6 ∷ []) (run six empty))).0 ≡ some closed
unfolding run step subscribe take_one offer close run_scheduled
then_closed = refl

five_stay : subscriber_count 7 (run six empty) ≡ 5
unfolding run step subscribe subscriber_count run_scheduled
five_stay = refl
