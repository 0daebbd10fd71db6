-- ===== src/DbPool/Steps.antt =====
-- The pool under many callers: each block under the lock and each call of the queue is a step, and the
-- steps of the callers follow each other in any order.
use travel_assistant.Base.{
  ℕ, ◌+◌, ◌≤◌, ◌≡◌, refl, Bool, true, false, Option, none, some, List, [], ◌∷◌, ◌++◌, arith,
  if◌then◌else◌, ◌==◌, nat_eq, length, length-append, keep,
}
use travel_assistant.Dict.{contains}
use travel_assistant.Count.{count, count-append, count_absent, count_one}
use travel_assistant.TaskPool.{remove_first}
use travel_assistant.TaskPool.Laws.{length-remove_first}
use travel_assistant.DbPool.{
  Pool, max_size, idle, ensure_pool, discard, get_nowait, got, refused, open_new, put_nowait,
  release,
}

-- The pool, and the connections that a caller holds: to ping, to use or to give back.
pub record Run : Type 0 where
  pub pool : Pool
  pub out : List ℕ

pub data Step (setting : Option ℕ) : Run → Run → Type 0 where
  takes :
      (s : Run) (conn : ℕ) (p : Pool)
      → get_nowait s.pool ≡ some (conn, p)
      → Step setting s (record { pool = p; out = conn ∷ s.out })
  -- A new connection is none of those that are open.
  opens :
      (s : Run) (conn : ℕ) (p : Pool)
      → contains conn (idle s.pool ++ s.out) ≡ false
      → open_new setting (some conn) s.pool ≡ some (got conn p)
      → Step setting s (record { pool = p; out = conn ∷ s.out })
  fails :
      (s : Run) (p : Pool)
      → open_new setting none s.pool ≡ some (refused p)
      → Step setting s (record s { pool = p })
  -- A ping that fails.
  discards :
      (s : Run) (conn : ℕ)
      → contains conn s.out ≡ true
      → Step setting s (record { pool = discard s.pool; out = remove_first conn s.out })
  releases :
      (s : Run) (conn : ℕ) (broken rolled_back : Bool)
      → contains conn s.out ≡ true
      → Step setting s (record {
        pool = release setting conn broken rolled_back s.pool;
        out = remove_first conn s.out;
      })

pub data Reach (setting : Option ℕ) (s : Run) : Run → Type 0 where
  here : Reach setting s s
  next : {t u : Run} → Reach setting s t → Step setting t u → Reach setting s u

-- `created` counts the connections that are open, idle or with a caller, they are at most the limit, and
-- each is in one place.
abbrev pub IsSound : Option ℕ → Run → Type 0
IsSound setting s =
    (s.pool.created ≡ length (idle s.pool) + length s.out)
    × (s.pool.created ≤ max_size setting)
    × ((conn : ℕ) → count conn (idle s.pool) + count conn s.out ≤ 1)

count-remove_first :
    (c conn : ℕ) (xs : List ℕ)
    → contains conn xs ≡ true
    → count c xs ≡ (if conn == c then 1 else 0) + count c (remove_first conn xs)
unfolding contains keep remove_first
count-remove_first c conn [] h = ground arith
count-remove_first c conn (x ∷ xs) h =
    ground (arith, count-remove_first c conn xs, nat_eq.same_iff x conn, nat_eq.same_iff conn x)

takes-IsSound :
    (setting : Option ℕ) (s : Run) (conn : ℕ) (p : Pool)
    → get_nowait s.pool ≡ some (conn, p)
    → IsSound setting s
    → IsSound setting (record { pool = p; out = conn ∷ s.out })
unfolding get_nowait
takes-IsSound setting s conn p e v = (
  ground (arith),
  ground (arith),
  λ c. ground (arith, v.2 c, count_one c conn s.out, count_one c conn (idle p)),
)

opens-IsSound :
    (setting : Option ℕ) (s : Run) (conn : ℕ) (p : Pool)
    → contains conn (idle s.pool ++ s.out) ≡ false
    → open_new setting (some conn) s.pool ≡ some (got conn p)
    → IsSound setting s
    → IsSound setting (record { pool = p; out = conn ∷ s.out })
unfolding open_new
opens-IsSound setting s conn p absent e v = (
  ground (arith),
  ground (arith),
  λ c. ground (
    arith,
    v.2 c,
    count_one c conn s.out,
    count_absent conn (idle s.pool ++ s.out),
    count-append conn (idle s.pool) s.out,
    nat_eq.same_iff conn c,
  ),
)

fails-IsSound :
    (setting : Option ℕ) (s : Run) (p : Pool)
    → open_new setting none s.pool ≡ some (refused p)
    → IsSound setting s
    → IsSound setting (record s { pool = p })
unfolding open_new
fails-IsSound setting s p e v = (ground (arith), ground (arith), λ c. ground (arith, v.2 c))

discards-IsSound :
    (setting : Option ℕ) (s : Run) (conn : ℕ)
    → contains conn s.out ≡ true
    → IsSound setting s
    → IsSound setting (record { pool = discard s.pool; out = remove_first conn s.out })
unfolding discard
discards-IsSound setting s conn h v = (
  ground (arith, length-remove_first conn s.out),
  ground (arith),
  λ c. ground (arith, v.2 c, count-remove_first c conn s.out),
)

-- There is room for a connection that comes back.
returns-IsSound :
    (setting : Option ℕ) (s : Run) (conn : ℕ)
    → contains conn s.out ≡ true
    → IsSound setting s
    → IsSound setting (record {
      pool = put_nowait setting conn (ensure_pool s.pool);
      out = remove_first conn s.out;
    })
unfolding put_nowait ensure_pool contains
returns-IsSound setting s conn h v = (
  ground (arith, length-remove_first conn s.out, length-append (idle s.pool) (conn ∷ [])),
  ground (arith),
  λ c. ground (
    arith,
    v.2 c,
    count-remove_first c conn s.out,
    count-append c (idle s.pool) (conn ∷ []),
    count_one c conn [],
    count_absent c [] refl,
    length-remove_first conn s.out,
  ),
)

Step-IsSound :
    {setting : Option ℕ} {s t : Run} → Step setting s t → IsSound setting s → IsSound setting t
unfolding release
Step-IsSound {setting} (takes s conn p e) v = takes-IsSound setting s conn p e v
Step-IsSound {setting} (opens s conn p absent e) v = opens-IsSound setting s conn p absent e v
Step-IsSound {setting} (fails s p e) v = fails-IsSound setting s p e v
Step-IsSound {setting} (discards s conn h) v = discards-IsSound setting s conn h v
Step-IsSound {setting} (releases s conn true rolled_back h) v = discards-IsSound setting s conn h v
Step-IsSound {setting} (releases s conn false true h) v = returns-IsSound setting s conn h v
Step-IsSound {setting} (releases s conn false false h) v = discards-IsSound setting s conn h v

-- Whatever the callers take, open, lose and give back, in any order of their steps and as long as
-- `close_all` is not called: `created` is the number of connections that are idle or with a caller,
-- they are never more than the limit, and none is idle and with a caller, or with two callers, at once.
pub Reach-IsSound :
    (setting : Option ℕ) (s t : Run) → IsSound setting s → Reach setting s t → IsSound setting t
Reach-IsSound setting s t v here = v
Reach-IsSound setting s t v (next {t = u} r step) =
    Step-IsSound step (Reach-IsSound setting s u v r)
