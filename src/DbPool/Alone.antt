-- ===== src/DbPool/Alone.antt =====
-- One caller's `acquire` from its first look at the queue to its end.
use travel_assistant.Base.{
  ℕ, zero, suc, ◌-◌, ◌≤◌, ◌<◌, ◌≡◌, refl, ◌⊎◌, inl, inr, Bool, true, false, not, Option, none, some,
  List, [], ◌∷◌, arith, ltb, nat_eq, length, all, Bool-cases,
}
use travel_assistant.Dict.{contains}
use travel_assistant.DbPool.{
  Pool, max_size, idle, ensure_pool, discard, get_nowait, Acquired, got, refused, exhausted,
  unfinished, open_new, connected, or_wait, acquire_loop, acquire,
}

module _ (setting : Option ℕ) (alive : ℕ → Bool) (answer : Option ℕ) where
  abbrev pub no_idle_alive : Pool → Bool
  no_idle_alive p = all (λ conn. not (alive conn)) (idle p)

  -- What each end says of the pool that the caller found.
  abbrev pub Ends : Pool → Acquired → Type 0
  Ends p (got conn q) =
      ((alive conn ≡ true) × (contains conn (idle p) ≡ true))
      ⊎ ((answer ≡ some conn) × (no_idle_alive p ≡ true))
  Ends p (refused q) = (answer ≡ none) × (no_idle_alive p ≡ true)
  Ends p (exhausted q) = (idle p ≡ []) × (max_size setting ≤ p.created)
  Ends p unfinished = ◌≡◌ {A = Bool} true false

  connected-Ends :
      (p q : Pool) (a : Option ℕ) → answer ≡ a → no_idle_alive p ≡ true → Ends p (connected a q)
  connected-Ends p q none e h = (e, h)
  connected-Ends p q (some conn) e h = inr (e, h)

  Ends-empty : (p : Pool) → idle p ≡ [] → Ends p (or_wait (open_new setting answer p) p)
  unfolding open_new all
  Ends-empty p h = elim (Bool-cases (ltb p.created (max_size setting))) [
    | inl room ↦
        rw (open_new, room)
          (connected-Ends p (record p { created = suc p.created }) answer refl (ground arith))
    | inr full ↦ rw (open_new, full) (h, ground arith)
  ]

  -- A dead connection is discarded, and what follows then holds of the pool before.
  Ends-discard :
      (conn : ℕ) (rest : List ℕ) (created : ℕ) (a : Acquired)
      → alive conn ≡ false
      → suc (length rest) ≤ created
      → created ≤ max_size setting
      → Ends (record { queue = some rest; created = created - 1 }) a
      → Ends (record { queue = some (conn ∷ rest); created = created }) a
  unfolding all contains
  Ends-discard conn rest created (got c q) dead h bound ends = ground arith
  Ends-discard conn rest created (refused q) dead h bound ends = ground arith
  Ends-discard conn rest created (exhausted q) dead h bound ends = ground arith
  Ends-discard conn rest created unfinished dead h bound ends = ends

  acquire_next :
      (fuel conn : ℕ) (rest : List ℕ) (created : ℕ)
      → suc (length rest) ≤ created
      → created ≤ max_size setting
      → Ends
          (record { queue = some rest; created = created - 1 })
          (acquire_loop setting alive answer fuel
            (record { queue = some rest; created = created - 1 }))
      → Ends
          (record { queue = some (conn ∷ rest); created = created })
          (acquire_loop setting alive answer
            (suc fuel)
            (record { queue = some (conn ∷ rest); created = created }))
  unfolding acquire_loop get_nowait discard contains
  acquire_next fuel conn rest created h bound ends = elim (Bool-cases (alive conn)) [
    | inl live ↦ rw (live) (inl (live, ground arith))
    | inr dead ↦ rw (dead) (Ends-discard conn rest created _ dead h bound ends)
  ]

  acquire_from :
      (conns : List ℕ) (fuel created : ℕ)
      → length conns < fuel
      → length conns ≤ created
      → created ≤ max_size setting
      → Ends
          (record { queue = some conns; created = created })
          (acquire_loop setting alive answer fuel
            (record { queue = some conns; created = created }))
  unfolding acquire_loop get_nowait
  acquire_from conns zero created enough h bound = ground arith
  acquire_from [] (suc fuel) created enough h bound = Ends-empty _ refl
  acquire_from (conn ∷ rest) (suc fuel) created enough h bound =
      acquire_next fuel conn rest created (ground arith) bound
        (acquire_from rest fuel (created - 1) (ground arith) (ground arith) (ground arith))

-- A caller whose `acquire` runs with nobody else at the pool, which counts at least its idle connections
-- and at most the limit, comes out of the loop after at most one pass more than there are idle
-- connections. It has an idle connection that answers the ping, or a new one where every idle one is
-- dead; or `connect` raised where every idle one is dead; or nothing is idle and the pool is at its
-- limit.
pub acquire-Ends :
    (setting : Option ℕ) (alive : ℕ → Bool) (answer : Option ℕ) (passes : ℕ) (p : Pool)
    → length (idle p) < passes
    → length (idle p) ≤ p.created
    → p.created ≤ max_size setting
    → Ends setting alive answer p (acquire setting alive answer passes p)
unfolding acquire ensure_pool
acquire-Ends setting alive answer passes p enough h bound =
    acquire_from setting alive answer (idle p) passes p.created enough h bound
