-- ===== src/StateAndSessions/Marks/Exclusion.antt =====
-- A local mark excludes: until it lapses or is released nobody else gets it, and nothing evicts it.
use travel_assistant.Base.{
  ℕ, ◌+◌, ◌*◌, ◌<◌, ◌≡◌, ◌≢◌, ◌∙◌, String, Bool, Bool-cases, ◌⊎◌, inl, inr, true, false, Option,
  none, some, List, [], ◌∷◌, arith, leb, string_eq, ap, ◌==◌, All, lt→leb_false,
}
use travel_assistant.Dict.{lookup, insert, lookup-insert, lookup-erase}
use travel_assistant.Dict.Distinct.{
  drop_where, lookup-drop_where, Distinct, Distinct-drop_where, Distinct-insert, Distinct-erase,
}
use travel_assistant.RedisClient.{Moment, try_redis_raised}
use travel_assistant.StateAndSessions.Marks.{
  Marks, Locks, bound_marks, try_mark_local, try_mark, is_marked_local, is_marked, unmark,
  occupied_at, Call, mark, ask, release, step, run,
}

pub record Holds (key : String) (expiry : ℕ) (ms : Marks) : Type 0 where
  pub marked : lookup key ms ≡ some expiry
  pub distinct : Distinct ms

-- The call comes before the mark lapses, and does not release it.
abbrev pub Leaves : String → ℕ → Call → Type 0
Leaves key expiry (mark at reply k ttl) = at.wall < expiry
Leaves key expiry (ask at reply k) = at.wall < expiry
Leaves key expiry (release at reply k) = k ≢ key

module _ (key : String) (expiry : ℕ) where
  bound_marks-Holds :
      (now : ℕ) (ms : Marks)
      → now < expiry
      → Holds key expiry ms
      → Holds key expiry (bound_marks now ms).1
  unfolding bound_marks
  bound_marks-Holds now ms before h =
      let p : String × ℕ → Bool = λ e. leb e.1 now in
      record {
        marked =
            lookup-drop_where p key ms h.distinct ∙ rw (h.marked, lt→leb_false expiry now before);
        distinct = Distinct-drop_where p ms h.distinct;
      }

  insert-Holds :
      (k : String) (v : ℕ) (ms : Marks)
      → k ≢ key
      → Holds key expiry ms
      → Holds key expiry (insert k v ms)
  insert-Holds k v ms ne h = record {
    marked = ground (arith, string_eq.same_iff k key, lookup-insert k key v ms);
    distinct = Distinct-insert k v ms h.distinct;
  }

  -- A held mark is not given again, and stays as it is.
  try_mark_local_held :
      (now ttl : ℕ) (ms : Marks)
      → now < expiry
      → Holds key expiry ms
      → (try_mark_local now key ttl ms).0 ≡ false
  unfolding try_mark_local occupied_at
  try_mark_local_held now ttl ms before h =
      ground (arith, (bound_marks-Holds now ms before h).marked)

  -- What a call leaves: the live marks, with a new one for another key at most.
  try_mark_local_cases :
      (now : ℕ) (k : String) (ttl : ℕ) (ms : Marks)
      → now < expiry
      → Holds key expiry ms
      → ((try_mark_local now k ttl ms).1 ≡ (bound_marks now ms).1)
        ⊎ ((k ≢ key)
            × ((try_mark_local now k ttl ms).1 ≡ insert k (now + ttl) (bound_marks now ms).1))
  unfolding try_mark_local occupied_at
  try_mark_local_cases now k ttl ms before h =
      let held = bound_marks-Holds now ms before h in
      elim (Bool-cases (k == key)) [
        | inl same ↦ inl (
            ground (
              arith,
              string_eq.same_iff k key,
              held.marked,
              ap (λ j. lookup j (bound_marks now ms).1) ((string_eq.same_iff k key).0 same),
            ))
        | inr other ↦ ground (arith, string_eq.same_iff k key)
      ]

  try_mark_local-Holds :
      (now : ℕ) (k : String) (ttl : ℕ) (ms : Marks)
      → now < expiry
      → Holds key expiry ms
      → Holds key expiry (try_mark_local now k ttl ms).1
  try_mark_local-Holds now k ttl ms before h =
      let held = bound_marks-Holds now ms before h in
      elim (try_mark_local_cases now k ttl ms before h) [
        | inl same ↦ rw same held
        | inr (ne, new) ↦ rw new (insert-Holds k (now + ttl) (bound_marks now ms).1 ne held)
      ]

  is_marked_local-Holds :
      (now : ℕ) (k : String) (ms : Marks)
      → now < expiry
      → Holds key expiry ms
      → Holds key expiry (is_marked_local now k ms).1
  unfolding is_marked_local
  is_marked_local-Holds now k ms before h = record {
    marked =
        ground
          (arith, string_eq.same_iff k key, ap (λ j. lookup j ms), h.marked, lookup-erase k key ms);
    distinct = ground (arith, Distinct-erase k ms h.distinct);
  }

  step-Holds :
      (call : Call) (locks : Locks)
      → Leaves key expiry call
      → Holds key expiry locks.1
      → Holds key expiry (step call locks).1
  unfolding step try_mark is_marked unmark
  step-Holds (mark at reply k ttl) (b, ms) before h =
      let h' = try_mark_local-Holds at.wall k (ttl * 1000) ms before h in
      record {
        marked = ground (arith, h'.marked, h.marked);
        distinct = ground (arith, h'.distinct, h.distinct);
      }
  step-Holds (ask at reply k) (b, ms) before h =
      let h' = is_marked_local-Holds at.wall k ms before h in
      record {
        marked = ground (arith, h'.marked, h.marked);
        distinct = ground (arith, h'.distinct, h.distinct);
      }
  step-Holds (release at reply k) (b, ms) ne h = record {
    marked = ground (arith, string_eq.same_iff k key, h.marked, lookup-erase k key ms);
    distinct = Distinct-erase k ms h.distinct;
  }

  run-Holds :
      (calls : List Call) (locks : Locks)
      → All (Leaves key expiry) calls
      → Holds key expiry locks.1
      → Holds key expiry (run calls locks).1
  unfolding run
  run-Holds [] locks leave h = h
  run-Holds (call ∷ calls) locks leave h =
      run-Holds calls (step call locks) leave.1 (step-Holds call locks leave.0 h)

try_mark_local_answer :
    (at : Moment) (key : String) (ttl_seconds : ℕ) (locks : Locks)
    → (try_mark at none key ttl_seconds locks).0
      ≡ (try_mark_local at.wall key (ttl_seconds * 1000) locks.1).0
unfolding try_mark
try_mark_local_answer at key ttl (b, ms) = ground (arith, try_redis_raised {A = Option Bool} at b)

-- A successful local mark is held until its time to live is over.
try_mark_acquired :
    (at : Moment) (key : String) (ttl_seconds : ℕ) (locks : Locks)
    → Distinct locks.1
    → (try_mark at none key ttl_seconds locks).0 ≡ true
    → Holds key (at.wall + ttl_seconds * 1000) (try_mark at none key ttl_seconds locks).1.1
unfolding try_mark try_mark_local bound_marks
try_mark_acquired at key ttl (b, ms) d won =
    let live = drop_where (λ e. leb e.1 at.wall) ms in
    let expiry = at.wall + ttl * 1000 in
    let away = try_redis_raised {A = Option Bool} at b in
    record {
      marked =
          ground (arith, away, won, lookup-insert key key expiry live, string_eq.same_iff key key);
      distinct =
          ground (arith, away, won, Distinct-insert key expiry live (Distinct-drop_where _ ms d));
    }

-- Mutual exclusion in the local table: once a mark is given while Redis is away, every later call
-- of `try_mark` for its key that the server leaves unanswered fails, before the time to live is
-- over and as long as nobody releases the key. In between there may be any calls for any keys,
-- answered by Redis or not, and the table may be full: a held mark is never evicted. The table has
-- one entry to a key when the mark is given.
pub try_mark_excludes :
    (at later : Moment) (key : String) (ttl_seconds ttl' : ℕ) (calls : List Call) (locks : Locks)
    → Distinct locks.1
    → (try_mark at none key ttl_seconds locks).0 ≡ true
    → All (Leaves key (at.wall + ttl_seconds * 1000)) calls
    → later.wall < at.wall + ttl_seconds * 1000
    → (try_mark later none key ttl' (run calls (try_mark at none key ttl_seconds locks).1)).0
      ≡ false
try_mark_excludes at later key ttl ttl' calls locks d won leave before =
    let expiry = at.wall + ttl * 1000 in
    let c = (try_mark at none key ttl locks).1 in
    try_mark_local_answer later key ttl' (run calls c)
    ∙ try_mark_local_held key expiry later.wall (ttl' * 1000) (run calls c).1 before
        (run-Holds key expiry calls c leave (try_mark_acquired at key ttl locks d won))
