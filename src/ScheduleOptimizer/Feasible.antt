-- ===== src/ScheduleOptimizer/Feasible.antt =====
-- The day that the loop over an order builds can be lived.
use travel_assistant.Base.{
  ℕ, ◌+◌, ◌≤◌, ◌≡◌, refl, subst, inl, inr, false, Option, none, some, List, [], ◌∷◌, arith,
  Bool-cases, string_eq, Bool, map, if◌then◌else◌,
}
use travel_assistant.Dict.{contains}
use travel_assistant.ScheduleOptimizer.{
  Visit, Settings, duration, route_from, minutes_of, Slot, Reason, Progress, opens_at,
  closes_before, too_dear, reason_of, start_of, settle_visit, visit_next, visit_all, display_name,
}

-- How many of the visits pass a test.
unfoldable pub count : (Visit → Bool) → List Visit → ℕ
count test [] = 0
count test (v ∷ vs) = (if test v then 1 else 0) + count test vs

-- How many of the visits that have an outcome pass a test: of the scheduled, reported and removed ones.
abbrev pub settled : (Visit → Bool) → Progress → ℕ
settled test p =
    count test (map (λ slot. slot.visit) p.scheduled)
    + count test (map (λ e. e.0) p.violations)
    + count test (map (λ e. e.0) p.removed)

module _ (s : Settings) where
  -- When the visit after these slots can leave, and from where.
  abbrev pub free_at : List Slot → ℕ
  free_at [] = s.day_start
  free_at (slot ∷ slots) = slot.finish

  abbrev pub last_visit : List Slot → Option Visit
  last_visit [] = none
  last_visit (slot ∷ slots) = some slot.visit

  -- Each visit starts after the one before it and the way from there, within its opening hours, and is
  -- over by the end of the day.
  abbrev pub Feasible : List Slot → Type 0
  Feasible [] = Unit
  Feasible (slot ∷ slots) =
      (free_at slots + minutes_of (route_from s (last_visit slots) slot.visit) ≤ slot.start)
      × (opens_at slot.visit.window slot.start ≡ slot.start)
      × (closes_before slot.visit.window slot.finish ≡ false)
      × (slot.finish ≡ slot.start + duration slot.visit)
      × (slot.finish ≤ s.day_end)
      × Feasible slots

  abbrev pub minutes : List Slot → ℕ
  minutes [] = 0
  minutes (slot ∷ slots) = duration slot.visit + minutes slots

  abbrev pub costs : List Slot → ℕ
  costs [] = 0
  costs (slot ∷ slots) = slot.visit.cost + costs slots

  abbrev pub IsLivable : Progress → Type 0
  IsLivable p =
      (p.cursor ≡ free_at p.scheduled)
      × (p.previous ≡ last_visit p.scheduled)
      × Feasible p.scheduled
      × (p.active_total ≡ minutes p.scheduled)
      × (p.active_total ≤ s.max_daily_minutes)
      × (p.spent ≡ costs p.scheduled)
      × (too_dear s.budget_limit p.spent ≡ false)

  reason_none :
      (p : Progress) (v : Visit) (finish : ℕ)
      → reason_of s p v finish ≡ none
      → (closes_before v.window finish ≡ false)
        × (finish ≤ s.day_end)
        × (too_dear s.budget_limit (p.spent + v.cost) ≡ false)
        × (p.active_total + duration v ≤ s.max_daily_minutes)
  unfolding reason_of
  reason_none p v finish e = (ground (arith), ground (arith), ground (arith), ground (arith))

  opens_at-twice :
      (window : Option (ℕ × ℕ)) (n : ℕ) → opens_at window (opens_at window n) ≡ opens_at window n
  opens_at-twice none n = refl
  opens_at-twice (some (from, to)) n = omega arith

  opens_at-le : (window : Option (ℕ × ℕ)) (n : ℕ) → n ≤ opens_at window n
  opens_at-le none n = omega arith
  opens_at-le (some (from, to)) n = omega arith

  starts_after :
      (p : Progress) (v : Visit)
      → IsLivable p
      → free_at p.scheduled + minutes_of (route_from s (last_visit p.scheduled) v) ≤ start_of s p v
  unfolding start_of
  starts_after p v live =
      subst (λ n. n + minutes_of (route_from s (last_visit p.scheduled) v) ≤ start_of s p v) live.0
        (subst (λ w. p.cursor + minutes_of (route_from s w v) ≤ start_of s p v) live.1
          (opens_at-le v.window (p.cursor + minutes_of (route_from s p.previous v))))

  starts_open : (p : Progress) (v : Visit) → opens_at v.window (start_of s p v) ≡ start_of s p v
  unfolding start_of
  starts_open p v = opens_at-twice v.window (p.cursor + minutes_of (route_from s p.previous v))

  settle_visit-IsLivable :
      (p : Progress) (v : Visit) (reason : Option Reason)
      → reason_of s p v (start_of s p v + duration v) ≡ reason
      → IsLivable p
      → IsLivable (settle_visit s p v (start_of s p v) (start_of s p v + duration v) reason)
  settle_visit-IsLivable p v (some reason) e live =
      elim (Bool-cases (contains (display_name v) s.required)) [
        | inl wanted ↦ rw (wanted) live
        | inr other ↦ rw (other) live
      ]
  settle_visit-IsLivable p v none e live =
      let tests = reason_none p v (start_of s p v + duration v) e in
      (
        refl,
        refl,
        (starts_after p v live, starts_open p v, tests.0, refl, tests.1, live.2),
        omega (arith, live.3),
        tests.3,
        omega (arith, live.5),
        tests.2,
      )

  visit_next-IsLivable : (p : Progress) (v : Visit) → IsLivable p → IsLivable (visit_next s p v)
  unfolding visit_next
  visit_next-IsLivable p v live = settle_visit-IsLivable p v _ refl live

  pub visit_all-IsLivable :
      (p : Progress) (vs : List Visit) → IsLivable p → IsLivable (visit_all s p vs)
  unfolding visit_all
  visit_all-IsLivable p [] live = live
  visit_all-IsLivable p (v ∷ vs) live =
      visit_all-IsLivable (visit_next s p v) vs (visit_next-IsLivable p v live)

  settle_visit-settled :
      (test : Visit → Bool) (p : Progress) (v : Visit) (start finish : ℕ) (reason : Option Reason)
      → settled test (settle_visit s p v start finish reason) ≡ settled test p + count test (v ∷ [])
  unfolding count
  settle_visit-settled test p v start finish none = ground arith
  settle_visit-settled test p v start finish (some reason) = ground arith

  pub visit_all-settled :
      (test : Visit → Bool) (p : Progress) (vs : List Visit)
      → settled test (visit_all s p vs) ≡ settled test p + count test vs
  unfolding visit_all visit_next count
  visit_all-settled test p [] = omega arith
  visit_all-settled test p (v ∷ vs) = omega (
    arith,
    visit_all-settled test (visit_next s p v) vs,
    settle_visit-settled test p v (start_of s p v) (start_of s p v + duration v)
        (reason_of s p v (start_of s p v + duration v)),
  )
