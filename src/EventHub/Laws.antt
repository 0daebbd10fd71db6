-- ===== src/EventHub/Laws.antt =====
-- The limits of the hub: at most five connections to a trip, no key for an empty list, and at most 200
-- frames that wait for a slow reader.
use travel_assistant.Base.{
  ℕ, ◌≤◌, ◌≡◌, refl, ap, String, Bool, true, false, some, List, [], ◌∷◌, ◌++◌, arith, leb, nat_eq,
  length, length-append, keep, all, ltb, ◌&&◌, Option-cases, inl, inr,
}
use travel_assistant.Dict.{lookup, insert, erase}
use travel_assistant.TaskPool.{remove_first}
use travel_assistant.EventHub.{
  Subscription, Hub, sinks_of, close, offer, put, take_one, subscribe, dropped, unsubscribe,
  offer_all, unsubscribe_all, max_subscribers_per_itinerary, sink_buffer,
}

module _ {V : Type 0} (q : V → Bool) where
  abbrev pub each : List (ℕ × V) → Bool
  each m = all (λ entry. q entry.1) m

  each-insert :
      (k : ℕ) (v : V) (m : List (ℕ × V)) → q v ≡ true → each m ≡ true → each (insert k v m) ≡ true
  unfolding insert all
  each-insert k v [] fits h = ground arith
  each-insert k v ((j, w) ∷ m) fits h = ground (arith, each-insert k v m fits)

  each-erase : (k : ℕ) (m : List (ℕ × V)) → each m ≡ true → each (erase k m) ≡ true
  unfolding erase keep all
  each-erase k [] h = refl
  each-erase k ((j, w) ∷ m) h = ground (arith, each-erase k m)

  each-lookup :
      (k : ℕ) (v : V) (m : List (ℕ × V)) → each m ≡ true → lookup k m ≡ some v → q v ≡ true
  unfolding lookup all
  each-lookup k v [] h e = ground arith
  each-lookup k v ((j, w) ∷ m) h e = ground (arith, each-lookup k v m)

abbrev pub fits_list : List ℕ → Bool
fits_list sinks = ltb 0 (length sinks) && leb (length sinks) max_subscribers_per_itinerary

abbrev pub fits_queue : Subscription → Bool
fits_queue s = leb (length s.queue) sink_buffer

-- The hub keeps its limits.
pub record IsBounded (h : Hub) : Type 0 where
  pub lists : each fits_list h.subscribers ≡ true
  pub queues : each fits_queue h.heap ≡ true

length-remove_first : (task : ℕ) (ts : List ℕ) → length (remove_first task ts) ≤ length ts
unfolding remove_first
length-remove_first task [] = omega arith
length-remove_first task (t ∷ ts) = ground (arith, length-remove_first task ts)

close-IsBounded : (id : ℕ) (h : Hub) → IsBounded h → IsBounded (close id h)
unfolding close
close-IsBounded id h b = elim (Option-cases (lookup id h.heap)) [
  | inl gone ↦ record {
    lists = ground (arith, gone, b.lists);
    queues = ground (arith, gone, b.queues);
  }
  | inr (s, e) ↦ record {
    lists = ground (arith, e, b.lists);
    queues = ground (
      arith,
      e,
      each-insert fits_queue id (record s { is_open = false }) h.heap
          (each-lookup fits_queue id s h.heap b.queues e) b.queues,
    );
  }
]

offer-IsBounded : (id : ℕ) (frame : String) (h : Hub) → IsBounded h → IsBounded (offer id frame h).1
unfolding offer
offer-IsBounded id frame h b =
    let c = close-IsBounded id h b in
    record { lists = ground (arith, b.lists, c.lists); queues = ground (arith, b.queues, c.queues) }

pub put-IsBounded : (id : ℕ) (frame : String) (h : Hub) → IsBounded h → IsBounded (put id frame h)
unfolding put
put-IsBounded id frame h b =
    let c = close-IsBounded id h b in
    elim (Option-cases (lookup id h.heap)) [
      | inl gone ↦ record {
        lists = ground (arith, gone, b.lists);
        queues = ground (arith, gone, b.queues);
      }
      | inr (s, e) ↦
          let longer : Subscription = record s { queue = s.queue ++ frame ∷ [] } in
          record {
            lists = ground (arith, e, b.lists, c.lists);
            queues = ground (
              arith,
              e,
              c.queues,
              b.queues,
              length-append s.queue (frame ∷ []),
              each-insert fits_queue id longer h.heap,
            );
          }
    ]

pub take_one-IsBounded : (id : ℕ) (h : Hub) → IsBounded h → IsBounded (take_one id h).1
unfolding take_one
take_one-IsBounded id h b = elim (Option-cases (lookup id h.heap)) [
  | inl gone ↦ record {
    lists = ground (arith, gone, b.lists);
    queues = ground (arith, gone, b.queues);
  }
  | inr (s, e) ↦ taken s e s.queue refl
]
  where
    taken :
        (s : Subscription)
        → lookup id h.heap ≡ some s
        → (queue : List String) → s.queue ≡ queue
        → IsBounded (take_one id h).1
    taken s e [] q = record {
      lists = rw (take_one, e, q) b.lists;
      queues = rw (take_one, e, q) b.queues;
    }
    taken s e (frame ∷ rest) q =
        let kept = each-lookup fits_queue id s h.heap b.queues e in
        record {
          lists = rw (take_one, e, q) b.lists;
          queues =
              rw (take_one, e, q)
                (each-insert fits_queue id (record s { queue = rest }) h.heap
                  (ground (arith, kept, ap length q)) b.queues);
        }

pub subscribe-IsBounded :
    (id itinerary_id : ℕ) (limit_envelope : String) (h : Hub)
    → IsBounded h
    → IsBounded (subscribe id itinerary_id limit_envelope h).1
unfolding subscribe
subscribe-IsBounded id itinerary_id limit_envelope h b =
    let fresh : Subscription = record {
      itinerary_id = itinerary_id;
      is_open = true;
      queue = [];
      loop_closed = false;
    } in
    let made : Hub = record h { heap = insert id fresh h.heap } in
    let m : IsBounded made = record {
      lists = b.lists;
      queues = each-insert fits_queue id fresh h.heap (ground arith) b.queues;
    } in
    let offered = (offer id limit_envelope made).1 in
    let c = close-IsBounded id offered (offer-IsBounded id limit_envelope made m) in
    let sinks = sinks_of (lookup itinerary_id h.subscribers) in
    record {
      lists = ground (
        arith,
        b.lists,
        c.lists,
        length-append sinks (id ∷ []),
        each-insert fits_list itinerary_id (sinks ++ id ∷ []) h.subscribers,
      );
      queues = ground (arith, c.queues, m.queues);
    }

each-dropped :
    (id itinerary_id : ℕ) (subscribers : List (ℕ × List ℕ))
    → each fits_list subscribers ≡ true
    → each fits_list (dropped id itinerary_id subscribers) ≡ true
unfolding dropped
each-dropped id itinerary_id subscribers h =
    let sinks = sinks_of (lookup itinerary_id subscribers) in
    let left = remove_first id sinks in
    elim (Option-cases (lookup itinerary_id subscribers)) [
      | inl gone ↦ ground (
        arith,
        h,
        gone,
        each-erase fits_list itinerary_id subscribers h,
        length-remove_first id sinks,
        ap sinks_of gone,
      )
      | inr (ids, e) ↦ ground (
        arith,
        h,
        each-erase fits_list itinerary_id subscribers h,
        each-insert fits_list itinerary_id left subscribers,
        each-lookup fits_list itinerary_id ids subscribers h e,
        length-remove_first id sinks,
        ap (λ o. length (sinks_of o)) e,
      )
    ]

pub unsubscribe-IsBounded : (id : ℕ) (h : Hub) → IsBounded h → IsBounded (unsubscribe id h)
unfolding unsubscribe
unsubscribe-IsBounded id h b = elim (Option-cases (lookup id h.heap)) [
  | inl gone ↦ record {
    lists = ground (arith, gone, b.lists);
    queues = ground (arith, gone, b.queues);
  }
  | inr (s, e) ↦
      let less : Hub = record h { subscribers = dropped id s.itinerary_id h.subscribers } in
      let l : IsBounded less = record {
        lists = each-dropped id s.itinerary_id h.subscribers b.lists;
        queues = b.queues;
      } in
      let c = close-IsBounded id less l in
      record {
        lists = ground (arith, e, b.lists, c.lists);
        queues = ground (arith, e, b.queues, c.queues);
      }
]

pub offer_all-IsBounded :
    (ids : List ℕ) (frame : String) (h : Hub) → IsBounded h → IsBounded (offer_all ids frame h).1
unfolding offer_all
offer_all-IsBounded [] frame h b = b
offer_all-IsBounded (id ∷ ids) frame h b =
    let r = offer_all-IsBounded ids frame (offer id frame h).1 (offer-IsBounded id frame h b) in
    record { lists = ground (arith, r.lists); queues = ground (arith, r.queues) }

pub unsubscribe_all-IsBounded :
    (ids : List ℕ) (h : Hub) → IsBounded h → IsBounded (unsubscribe_all ids h)
unfolding unsubscribe_all
unsubscribe_all-IsBounded [] h b = b
unsubscribe_all-IsBounded (id ∷ ids) h b =
    unsubscribe_all-IsBounded ids (unsubscribe id h) (unsubscribe-IsBounded id h b)
