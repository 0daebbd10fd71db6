-- ===== src/ScheduleOptimizer/Best.antt =====
-- The search over the orders: it finds one, no other is ranked higher, and its day can be lived.
use travel_assistant.Base.{
  ◌≡◌, ◌⊎◌, true, false, ◌&&◌, Option, none, some, List, ◌∷◌, string_eq, All,
}
use travel_assistant.ScheduleOptimizer.{Visit, Settings, Reason, Progress}
use travel_assistant.ScheduleOptimizer.Search.{Rank, keeps_locked, greater, outcome}

pub data In {ℓ} {A : Type ℓ} (x : A) : List A → Type ℓ where
  first : {xs : List A} → In x (x ∷ xs)
  later : {y : A} {xs : List A} → In x xs → In x (y ∷ xs)

module _ (s : Settings) (pre_removed : List (Visit × Reason)) (active : List Visit) where
  -- No order of the list that the search admits is ranked higher than `r`.
  abbrev pub Unbeaten : List (List Visit) → Rank → Type 0
  Unbeaten orders r =
      All
        (λ order.
          (keeps_locked s active order && greater (outcome s pre_removed order).0 r) ≡ false)
        orders

  abbrev BeatsOld : Option (Rank × Progress) → Rank → Type 0
  BeatsOld none r = Unit
  BeatsOld (some best) r = greater best.0 r ≡ false

  abbrev pub Found : List (List Visit) → Rank × Progress → Type 0
  Found orders new =
      (order : List Visit) × In order orders
      × (keeps_locked s active order ≡ true)
      × (new ≡ outcome s pre_removed order)

  abbrev Wins : List (List Visit) → Option (Rank × Progress) → Option (Rank × Progress) → Type 0
  Wins orders best none = (best ≡ none) × All (λ order. keeps_locked s active order ≡ false) orders
  Wins orders best (some new) =
      Unbeaten orders new.0 × BeatsOld best new.0 × ((best ≡ some new) ⊎ Found orders new)
