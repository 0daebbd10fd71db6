-- ===== src/StateAndSessions/Windows/Queue.antt =====
-- The queue of a window: ordered, and popped from the left.
use travel_assistant.Base.{
  ℕ, ◌+◌, ◌≤◌, ◌<◌, ◌≡◌, refl, ◌∙◌, Bool, List, [], ◌∷◌, ◌++◌, arith, ltb, string_eq, keep,
  keep-keep, keep_congr, All,
}
use travel_assistant.StateAndSessions.Windows.{drop_lapsed}

-- Is the hit at `t` in the window that ends at `now`?
abbrev pub fresh : ℕ → ℕ → ℕ → Bool
fresh now window t = ltb now (t + window)

abbrev pub Sorted : List ℕ → Type 0
Sorted [] = Unit
Sorted (t ∷ ts) = All (λ u. t ≤ u) ts × Sorted ts

pub All-keep : (P : ℕ → Type 0) (p : ℕ → Bool) (ts : List ℕ) → All P ts → All P (keep p ts)
unfolding keep
All-keep P p [] h = tt
All-keep P p (t ∷ ts) h = ground (arith, All-keep P p ts h.1)

pub Sorted-keep : (p : ℕ → Bool) (ts : List ℕ) → Sorted ts → Sorted (keep p ts)
unfolding keep
Sorted-keep p [] h = tt
Sorted-keep p (t ∷ ts) h = ground (arith, All-keep (λ u. t ≤ u) p ts h.0, Sorted-keep p ts h.1)

pub All-le_trans : (a b : ℕ) (ts : List ℕ) → a ≤ b → All (λ u. u ≤ a) ts → All (λ u. u ≤ b) ts
All-le_trans a b [] le h = tt
All-le_trans a b (t ∷ ts) le h = (omega arith, All-le_trans a b ts le h.1)

pub All-snoc : (P : ℕ → Type 0) (ts : List ℕ) (u : ℕ) → All P ts → P u → All P (ts ++ u ∷ [])
All-snoc P [] u h pu = (pu, tt)
All-snoc P (t ∷ ts) u h pu = (h.0, All-snoc P ts u h.1 pu)

pub Sorted-snoc : (ts : List ℕ) (u : ℕ) → Sorted ts → All (λ t. t ≤ u) ts → Sorted (ts ++ u ∷ [])
Sorted-snoc [] u s h = (tt, tt)
Sorted-snoc (t ∷ ts) u s h = (All-snoc (λ v. t ≤ v) ts u s.0 h.0, Sorted-snoc ts u s.1 h.1)

keep-All-fresh :
    (now window a : ℕ) (ts : List ℕ)
    → now < a + window
    → All (λ u. a ≤ u) ts
    → keep (fresh now window) ts ≡ ts
unfolding keep
keep-All-fresh now window a [] f h = refl
keep-All-fresh now window a (t ∷ ts) f h = ground (arith, keep-All-fresh now window a ts f h.1)

-- Popping from the left of an ordered queue keeps exactly the hits in the window.
pub drop_lapsed-keep :
    (now window : ℕ) (ts : List ℕ)
    → Sorted ts
    → drop_lapsed now window ts ≡ keep (fresh now window) ts
unfolding drop_lapsed keep
drop_lapsed-keep now window [] h = refl
drop_lapsed-keep now window (t ∷ ts) h =
    ground (arith, drop_lapsed-keep now window ts h.1, keep-All-fresh now window t ts)

-- A hit that has left the window stays out of it.
pub keep_later :
    (now later window : ℕ) (ts : List ℕ)
    → now ≤ later
    → keep (fresh later window) (keep (fresh now window) ts) ≡ keep (fresh later window) ts
keep_later now later window ts le =
    keep-keep (fresh later window) (fresh now window) ts ∙ keep_congr _ _ ts (λ t. ground arith)
