-- ===== src/StateAndSessions/Windows/Counts.antt =====
-- What a window counts: the hits of its key in the last `window` milliseconds, as a log of all the
-- hits has them.
use mathlib.Core.List.{append-nil, append_assoc}
use travel_assistant.Base.{
  ℕ, suc, ◌+◌, ◌*◌, ◌≤◌, ◌≢◌, ◌<◌, ◌≡◌, refl, sym, ap, ◌∙◌, String, Bool-cases, inl, inr, ==_refl,
  subst, Option, none, List, [], ◌∷◌, ◌++◌, arith, if◌then◌else◌, ◌==◌, string_eq, length,
  length-append, keep, keep-append, All,
}
use travel_assistant.Dict.{lookup, insert, lookup-insert, length-insert-le}
use travel_assistant.RedisClient.{Moment, Breaker, try_redis_raised}
use travel_assistant.StateAndSessions.Windows.{
  Window, Windows, local_state_max_entries, bound_windows, hits_of, hit_local, sliding_hit,
  Counters,
}
use travel_assistant.StateAndSessions.Windows.Queue.{
  fresh, Sorted, All-keep, Sorted-keep, All-le_trans, All-snoc, Sorted-snoc, drop_lapsed-keep,
  keep_later,
}

-- The log of all hits, oldest first, and the part of one key.
abbrev pub Log : Type 0
Log = List (ℕ × String)

unfoldable pub times : String → Log → List ℕ
times key [] = []
times key ((t, k) ∷ log) = let rest = times key log in if k == key then t ∷ rest else rest

times_snoc :
    (key k : String) (t : ℕ) (log : Log)
    → times key (log ++ (t, k) ∷ []) ≡ times key log ++ (if k == key then t ∷ [] else [])
unfolding times
times_snoc key k t [] = refl
times_snoc key k t ((u, j) ∷ log) = ground (arith, times_snoc key k t log)

module _ (window : String → ℕ) where
  -- The table agrees with the log at every instant from `now` on.
  record Tracks (now : ℕ) (log : Log) (ws : Windows) : Type 0 where
    agree :
        (k : String) (at : ℕ)
        → now ≤ at
        → keep (fresh at (window k)) (hits_of (lookup k ws))
          ≡ keep (fresh at (window k)) (times k log)
    sorted : (k : String) → Sorted (hits_of (lookup k ws))
    past : (k : String) → All (λ t. t ≤ now) (hits_of (lookup k ws))

  Tracks-later :
      (last now : ℕ) (log : Log) (ws : Windows)
      → last ≤ now
      → Tracks last log ws
      → Tracks now log ws
  Tracks-later last now log ws le tr = record {
    agree = λ k at le'. tr.agree k at (omega arith);
    sorted = tr.sorted;
    past = λ k. All-le_trans last now _ le (tr.past k);
  }

  -- Below the limit nothing is evicted.
  bound_windows_room :
      (now : ℕ) (ws : Windows) → length ws < local_state_max_entries → bound_windows now ws ≡ ws
  unfolding bound_windows
  bound_windows_room now ws h = ground arith

  queue : ℕ → String → Windows → List ℕ
  queue now key ws = hits_of (lookup key ws) ++ now ∷ []

  hit_local_lem :
      (last now : ℕ) (log : Log) (key : String) (ws : Windows)
      → last ≤ now
      → length ws < local_state_max_entries
      → Tracks last log ws
      → hit_local now key (window key) ws ≡ (
        length (keep (fresh now (window key)) (queue now key ws)),
        insert key
            (record {
              expiry = now + window key;
              hits = keep (fresh now (window key)) (queue now key ws);
            })
            ws,
      )
  unfolding hit_local queue
  hit_local_lem last now log key ws le room tr =
      rw (bound_windows_room now ws room, drop_lapsed-keep now (window key) _ (ready))
    where
      ready : Sorted (hits_of (lookup key ws) ++ now ∷ [])
      ready =
          Sorted-snoc (hits_of (lookup key ws)) now (tr.sorted key)
            (All-le_trans last now _ le (tr.past key))

  -- The three facts at the key of the hit; at another key nothing has changed.
  module _ (last now : ℕ) (log : Log) (key : String) (ws : Windows) (le : last ≤ now)
      (tr : Tracks last log ws) where
    entry : Window
    entry = record {
      expiry = now + window key;
      hits = keep (fresh now (window key)) (queue now key ws);
    }

    agree_self :
        (at : ℕ)
        → now ≤ at
        → keep (fresh at (window key)) (keep (fresh now (window key)) (queue now key ws))
          ≡ keep (fresh at (window key)) (times key (log ++ (now, key) ∷ []))
    unfolding queue
    agree_self at le' =
        let p = fresh at (window key) in
        let old = hits_of (lookup key ws) in
        keep_later now at (window key) (queue now key ws) le'
        ∙ keep-append p old (now ∷ [])
        ∙ ap (λ l. l ++ keep p (now ∷ [])) (tr.agree key at (omega arith))
        ∙ sym (keep-append p (times key log) (now ∷ []))
        ∙ ap (keep p) (sym (rw (times_snoc key key now log, ==_refl key)))

    Tracks-cons : Tracks now (log ++ (now, key) ∷ []) (insert key entry ws)
    unfolding entry queue hits_of
    Tracks-cons = record {
      agree = λ k at le'. elim (Bool-cases (key == k)) [
        | inl same ↦
            subst
              (λ j.
                keep (fresh at (window j)) (hits_of (lookup j (insert key entry ws)))
                ≡ keep (fresh at (window j)) (times j (log ++ (now, key) ∷ [])))
              ((string_eq.same_iff key k).0 same)
              (rw (lookup-insert key key entry ws, ==_refl key) (agree_self at le'))
        | inr other ↦
            rw (lookup-insert key k entry ws, times_snoc k key now log, other, append-nil)
              (tr.agree k at (omega arith))
      ];
      sorted = λ k. elim (Bool-cases (key == k)) [
        | inl same ↦
            rw (lookup-insert key k entry ws, same)
              (Sorted-keep _ (queue now key ws) (
                Sorted-snoc (hits_of (lookup key ws)) now (tr.sorted key)
                  (All-le_trans last now _ le (tr.past key))))
        | inr other ↦ rw (lookup-insert key k entry ws, other) (tr.sorted k)
      ];
      past = λ k. elim (Bool-cases (key == k)) [
        | inl same ↦
            rw (lookup-insert key k entry ws, same)
              (All-keep (λ t. t ≤ now) _ (queue now key ws)
                (All-snoc (λ t. t ≤ now) (hits_of (lookup key ws)) now
                  (All-le_trans last now _ le (tr.past key)) (omega arith)))
        | inr other ↦
            rw (lookup-insert key k entry ws, other) (All-le_trans last now _ le (tr.past k))
      ];
    }

  hit_local-Tracks :
      (last now : ℕ) (log : Log) (key : String) (ws : Windows)
      → last ≤ now
      → length ws < local_state_max_entries
      → Tracks last log ws
      → Tracks now (log ++ (now, key) ∷ []) (hit_local now key (window key) ws).1
  unfolding entry
  hit_local-Tracks last now log key ws le room tr =
      rw (hit_local_lem last now log key ws le room tr) (Tracks-cons last now log key ws le tr)

-- Hits while Redis is away, each with the readings of its clock.
abbrev pub Hits : Type 0
Hits = List (Moment × String)

module _ (window_seconds : String → ℕ) where
  unfoldable pub outage : Hits → Counters → Counters
  outage [] c = c
  outage ((at, key) ∷ hits) c = outage hits (sliding_hit at none key (window_seconds key) c).1

abbrev pub log_of : Hits → Log
log_of [] = []
log_of ((at, key) ∷ hits) = (at.wall, key) ∷ log_of hits

-- The clock does not run backwards.
abbrev pub InOrder : ℕ → Hits → ℕ → Type 0
InOrder last [] now = last ≤ now
InOrder last ((at, key) ∷ hits) now = (last ≤ at.wall) × InOrder at.wall hits now

module _ (window_seconds : String → ℕ) where
  abbrev window : String → ℕ
  window key = window_seconds key * 1000

  -- With Redis away a hit is counted in the local table.
  sliding_hit_away :
      (at : Moment) (key : String) (c : Counters)
      → ((sliding_hit at none key (window_seconds key) c).0
          ≡ (hit_local at.wall key (window key) c.1).0)
        × ((sliding_hit at none key (window_seconds key) c).1.1
            ≡ (hit_local at.wall key (window key) c.1).1)
  unfolding sliding_hit
  sliding_hit_away at key c = ground (arith, try_redis_raised {A = Option ℕ} at c.0)

  length-hit_local-le :
      (now : ℕ) (key : String) (ws : Windows)
      → length ws < local_state_max_entries
      → length (hit_local now key (window key) ws).1 ≤ suc (length ws)
  unfolding hit_local
  length-hit_local-le now key ws room =
      rw (bound_windows_room window now ws room) (length-insert-le key _ ws)

  outage-Tracks :
      (last now : ℕ) (log : Log) (hits : Hits) (c : Counters)
      → InOrder last hits now
      → length c.1 + length hits < local_state_max_entries
      → Tracks window last log c.1
      → Tracks window now (log ++ log_of hits) (outage window_seconds hits c).1
        × (length (outage window_seconds hits c).1 < local_state_max_entries)
  unfolding outage
  outage-Tracks last now log [] c ordered room tr =
      (rw append-nil (Tracks-later window last now log c.1 ordered tr), omega arith)
  outage-Tracks last now log ((at, key) ∷ hits) c ordered room tr =
      let c' = (sliding_hit at none key (window_seconds key) c).1 in
      let same = (sliding_hit_away at key c).1 in
      rw (← append_assoc log ((at.wall, key) ∷ []) (log_of hits)) (
        outage-Tracks at.wall now (log ++ (at.wall, key) ∷ []) hits c' ordered.1
          (omega (arith, ap length same, length-hit_local-le at.wall key c.1 (omega arith)))
          (rw same (hit_local-Tracks window last at.wall log key c.1 ordered.0 (omega arith) tr)))

  Tracks-init : Tracks window 0 [] []
  unfolding lookup hits_of times
  Tracks-init = record { agree = λ k at le. refl; sorted = λ k. tt; past = λ k. tt }

  queue_count :
      (now : ℕ) (key : String) (log : Log) (ws : Windows)
      → 0 < window key
      → Tracks window now log ws
      → length (keep (fresh now (window key)) (queue window now key ws))
        ≡ suc (length (keep (fresh now (window key)) (times key log)))
  unfolding queue keep
  queue_count now key log ws pos tr =
      let p = fresh now (window key) in
      let old = hits_of (lookup key ws) in
      ground (
        arith,
        ap length (keep-append p old (now ∷ [])),
        length-append (keep p old) (now ∷ []),
        ap length (tr.agree key now (omega arith)),
      )

  -- While Redis is away and there were fewer hits, of all keys together, than the table may have
  -- entries, a hit is answered by the number of hits of its key in the window that ends now, this one
  -- included, whatever the other keys did; the clock does not run backwards, and the window is not
  -- empty.
  pub sliding_hit-log :
      (hits : Hits) (at : Moment) (key : String) (b : Breaker)
      → 0 < window_seconds key
      → InOrder 0 hits at.wall
      → length hits < local_state_max_entries
      → (sliding_hit at none key (window_seconds key) (outage window_seconds hits (b, []))).0
        ≡ suc (length (keep (fresh at.wall (window_seconds key * 1000)) (times key (log_of hits))))
  sliding_hit-log hits at key b pos ordered room =
      let c = outage window_seconds hits (b, []) in
      let (tr, below) = outage-Tracks 0 at.wall [] hits (b, []) ordered (omega arith) Tracks-init in
      (sliding_hit_away at key c).0
      ∙ ap (λ r. r.0)
          (hit_local_lem window at.wall at.wall (log_of hits) key c.1 (omega arith) below tr)
      ∙ queue_count at.wall key (log_of hits) c.1 (omega arith) tr

  -- One more hit at the end.
  pub outage_snoc :
      (hits : Hits) (at : Moment) (key : String) (c : Counters)
      → outage window_seconds (hits ++ (at, key) ∷ []) c
        ≡ (sliding_hit at none key (window_seconds key) (outage window_seconds hits c)).1
  unfolding outage
  outage_snoc [] at key c = refl
  outage_snoc ((t, k) ∷ hits) at key c =
      outage_snoc hits at key (sliding_hit t none k (window_seconds k) c).1

pub InOrder-snoc :
    (last now : ℕ) (hits : Hits) (at : Moment) (key : String)
    → InOrder last hits at.wall
    → at.wall ≤ now
    → InOrder last (hits ++ (at, key) ∷ []) now
InOrder-snoc last now [] at key h le = (h, le)
InOrder-snoc last now ((t, k) ∷ hits) at key h le =
    (h.0, InOrder-snoc t.wall now hits at key h.1 le)

pub times_other :
    (key k : String) (hits : Hits) (at : Moment)
    → k ≢ key
    → times key (log_of (hits ++ (at, k) ∷ [])) ≡ times key (log_of hits)
unfolding times
times_other key k [] at ne = ground (arith, string_eq.same_iff k key)
times_other key k ((t, j) ∷ hits) at ne = ground (arith, times_other key k hits at ne)
