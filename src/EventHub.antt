-- ===== src/EventHub.antt =====
-- travel-agent-python/app/common/event_hub.py: the connections that listen to a trip. A subscription is
-- named by a number, and `heap` holds the objects; what `call_soon_threadsafe` was given waits in
-- `scheduled` until the loop runs it.
mod Laws
mod Runs
mod Tests
use travel_assistant.Base.{
  ℕ, zero, suc, ◌+◌, String, Bool, true, false, not, Option, none, some, List, [], ◌∷◌, ◌++◌, leb,
  if◌then◌else◌, ◌==◌, nat_eq, length, is_some,
}
use travel_assistant.Dict.{lookup, insert, erase, contains}
use travel_assistant.TaskPool.{remove_first}

abbrev pub max_subscribers_per_itinerary : ℕ
max_subscribers_per_itinerary = 5

abbrev pub sink_buffer : ℕ
sink_buffer = 200

pub record Subscription : Type 0 where
  pub itinerary_id : ℕ
  pub is_open : Bool
  pub queue : List String
  pub loop_closed : Bool

pub record Hub : Type 0 where
  pub heap : List (ℕ × Subscription)
  pub subscribers : List (ℕ × List ℕ)
  pub scheduled : List (ℕ × String)

abbrev pub sinks_of : Option (List ℕ) → List ℕ
sinks_of none = []
sinks_of (some sinks) = sinks

unfoldable pub subscriber_count : ℕ → Hub → ℕ
unfolding lookup
subscriber_count itinerary_id h = length (sinks_of (lookup itinerary_id h.subscribers))

unfoldable pub close : ℕ → Hub → Hub
unfolding lookup insert
close id h = elim (lookup id h.heap) [
  | none ↦ h
  | some s ↦ record h { heap = insert id (record s { is_open = false }) h.heap }
]

-- False where the connection is dead.
unfoldable pub offer : ℕ → String → Hub → Bool × Hub
unfolding lookup close
offer id envelope h = elim (lookup id h.heap) [
  | none ↦ (false, h)
  | some s ↦
      if not s.is_open
      then (false, h)
      else if s.loop_closed
      then (false, close id h)
      else (true, record h { scheduled = h.scheduled ++ (id, envelope) ∷ [] })
]

-- `_put`, in the loop of the subscription: a full queue closes it.
unfoldable pub put : ℕ → String → Hub → Hub
unfolding lookup insert close
put id envelope h = elim (lookup id h.heap) [
  | none ↦ h
  | some s ↦
      if leb sink_buffer (length s.queue)
      then close id h
      else record h { heap = insert id (record s { queue = s.queue ++ envelope ∷ [] }) h.heap }
]

-- A loop runs the first of the scheduled calls.
unfoldable pub run_scheduled : Hub → Hub
unfolding put
run_scheduled h = elim h.scheduled [
  | [] ↦ h
  | call ∷ calls ↦ put call.0 call.1 (record h { scheduled = calls })
]

pub data Taken : Type 0 where
  frame : String → Taken
  nothing_yet closed : Taken

-- `take`, where nothing comes before the timeout if the queue is empty.
unfoldable pub take_one : ℕ → Hub → Option Taken × Hub
unfolding lookup insert
take_one id h = elim (lookup id h.heap) [
  | none ↦ (none, h)
  | some s ↦ elim s.queue [
    | [] ↦ (some (if s.is_open then nothing_yet else closed), h)
    | e ∷ rest ↦ (some (frame e), record h { heap = insert id (record s { queue = rest }) h.heap })
  ]
]

-- `id` names the new object. The result says whether it was rejected.
unfoldable pub subscribe : ℕ → ℕ → String → Hub → Bool × Hub
unfolding lookup insert offer close
subscribe id itinerary_id limit_envelope h =
    let fresh : Subscription = record {
      itinerary_id = itinerary_id;
      is_open = true;
      queue = [];
      loop_closed = false;
    } in
    let made : Hub = record h { heap = insert id fresh h.heap } in
    let sinks = sinks_of (lookup itinerary_id h.subscribers) in
    if leb max_subscribers_per_itinerary (length sinks)
    then (true, close id (offer id limit_envelope made).1)
    else (false, record made { subscribers = insert itinerary_id (sinks ++ id ∷ []) h.subscribers })

-- The registry without a subscription; an empty list takes its key with it.
unfoldable pub dropped : ℕ → ℕ → List (ℕ × List ℕ) → List (ℕ × List ℕ)
unfolding insert erase remove_first
dropped id itinerary_id subscribers =
    let sinks = remove_first id (sinks_of (lookup itinerary_id subscribers)) in
    if length sinks == 0
    then erase itinerary_id subscribers
    else insert itinerary_id sinks subscribers

unfoldable pub unsubscribe : ℕ → Hub → Hub
unfolding lookup close
unsubscribe id h = elim (lookup id h.heap) [
  | none ↦ h
  | some s ↦
      if length (sinks_of (lookup s.itinerary_id h.subscribers)) == 0
      then h
      else close id (record h { subscribers = dropped id s.itinerary_id h.subscribers })
]

-- The first pass of `broadcast`: the number of frames that were taken, and the dead sinks.
unfoldable pub offer_all : List ℕ → String → Hub → (ℕ × List ℕ) × Hub
offer_all [] envelope h = ((0, []), h)
offer_all (id ∷ ids) envelope h =
    let (taken, h') = offer id envelope h in
    let ((delivered, dead), h'') = offer_all ids envelope h' in
    if taken then ((suc delivered, dead), h'') else ((delivered, id ∷ dead), h'')

unfoldable pub unsubscribe_all : List ℕ → Hub → Hub
unsubscribe_all [] h = h
unsubscribe_all (id ∷ ids) h = unsubscribe_all ids (unsubscribe id h)

unfoldable pub broadcast : ℕ → String → Hub → ℕ × Hub
broadcast itinerary_id envelope h =
    let ((delivered, dead), h') =
      offer_all (sinks_of (lookup itinerary_id h.subscribers)) envelope h in
    (delivered, unsubscribe_all dead h')

unfoldable pub reset_for_tests : Hub → Hub
reset_for_tests h = record h { subscribers = [] }
