-- ===== src/GenerationGate/Laws.antt =====
-- The fingerprint of a request is that of the trip which its columns give back.
use travel_assistant.Base.{
  ℕ, zero, suc, ◌+◌, ◌*◌, ◌/◌, ◌^◌, ◌≤◌, ◌<◌, ◌≡◌, refl, leb, ◌-◌, ap, sym, subst, ◌∙◌, String,
  false, arith, string_eq,
}
use native.Mathlib.Nat.{div-eq_of_lt-le, one-le-pow, pow-suc, mul_left_comm}
use travel_assistant.GenerationGate.{decimal, cents, budget_value, Request, request_fingerprint}

-- `stored` hundredths are `coefficient / 10 ^ scale` rounded to two places, and up from the middle
-- between two amounts: what a DECIMAL(12, 2) column keeps of it.
abbrev pub RoundsHalfUp : ℕ → ℕ → ℕ → Type 0
RoundsHalfUp coefficient scale stored =
    (2 * (stored * 10 ^ scale) ≤ 2 * (coefficient * 100) + 10 ^ scale)
    × (2 * (coefficient * 100) < 2 * (stored * 10 ^ scale) + 10 ^ scale)

rounded_quotient :
    (c half q : ℕ)
    → 0 < half
    → q * (half + half) ≤ c + half
    → c + half < (q + 1) * (half + half)
    → (c + half) / (half + half) ≡ q
rounded_quotient c half q pos low high = div-eq_of_lt-le (half + half) low high

sum_of_fives : (p : ℕ) → 5 * p + 5 * p ≡ 10 * p
sum_of_fives p = omega arith

next_times : (n d : ℕ) → (n + 1) * d ≡ n * d + d
next_times n d = grind arith

cents_rounds :
    (coefficient scale stored : ℕ)
    → RoundsHalfUp coefficient scale stored
    → cents coefficient scale ≡ stored
unfolding cents
cents_rounds coefficient zero stored r = omega (arith, r)
cents_rounds coefficient (suc zero) stored r = omega (arith, r)
cents_rounds coefficient (suc (suc zero)) stored r = omega (arith, r)
cents_rounds coefficient (suc (suc (suc k))) stored r =
    let p = 10 ^ k in
    let ten : 10 ^ suc k ≡ 5 * p + 5 * p = omega (arith, pow-suc 10 k) in
    let all_places : 10 ^ suc (suc (suc k)) ≡ 1000 * p =
      omega (arith, pow-suc 10 k, pow-suc 10 (suc k), pow-suc 10 (suc (suc k))) in
    let half : (5 * p + 5 * p) / 2 ≡ 5 * p = omega arith in
    let pos = one-le-pow k 10 (omega arith) in
    let scaled : stored * 10 ^ suc (suc (suc k)) ≡ 1000 * (stored * p) =
      ap (λ n. stored * n) all_places ∙ mul_left_comm stored 1000 p in
    let tenth : stored * (5 * p + 5 * p) ≡ 10 * (stored * p) =
      ap (λ n. stored * n) (sum_of_fives p) ∙ mul_left_comm stored 10 p in
    let next : (stored + 1) * (5 * p + 5 * p) ≡ stored * (5 * p + 5 * p) + (5 * p + 5 * p) =
      next_times stored (5 * p + 5 * p) in
    let rounded =
      rounded_quotient coefficient (5 * p) stored (omega (arith, pos))
        (omega (arith, r, all_places, scaled, tenth))
        (omega (arith, r, all_places, scaled, tenth, next)) in
    let many : leb (suc (suc (suc k))) 2 ≡ false = ground arith in
    let places : suc (suc (suc k)) - 2 ≡ suc k = omega arith in
    rw (many, places)
      (subst (λ d. (coefficient + d / 2) / d ≡ stored) (sym ten)
        (ap (λ h. (coefficient + h) / (5 * p + 5 * p)) half ∙ rounded))

cents_two : (n : ℕ) → cents n 2 ≡ n
unfolding cents
cents_two n = omega arith

-- A request whose budget is a decimal and went through its column, which keeps two places and rounds up
-- from the middle, has the fingerprint of the first one, whatever the number of places that the budget
-- had.
pub request_fingerprint-stored :
    (digest : String → String) (r : Request) (coefficient scale stored : ℕ)
    → RoundsHalfUp coefficient scale stored
    → request_fingerprint digest (record r { budget = decimal stored 2 })
      ≡ request_fingerprint digest (record r { budget = decimal coefficient scale })
unfolding request_fingerprint budget_value
request_fingerprint-stored digest r coefficient scale stored rounds =
    rw (cents_rounds coefficient scale stored rounds, cents_two stored) refl
