-- ===== src/Count.antt =====
-- How often a number stands in a list: what a rearrangement keeps.
use travel_assistant.Base.{
  ℕ, ◌+◌, ◌≤◌, all, ◌≡◌, refl, true, false, List, [], ◌∷◌, ◌++◌, arith, if◌then◌else◌, ◌==◌, nat_eq,
  length, length-append, keep, keep-append,
}
use travel_assistant.Dict.{contains}

abbrev pub count : ℕ → List ℕ → ℕ
count conn conns = length (keep (λ c. c == conn) conns)

pub count-append :
    (conn : ℕ) (xs ys : List ℕ) → count conn (xs ++ ys) ≡ count conn xs + count conn ys
count-append conn xs ys = ground (
  arith,
  keep-append (λ c. c == conn) xs ys,
  length-append (keep (λ c. c == conn) xs) (keep (λ c. c == conn) ys),
)

pub count_absent : (conn : ℕ) (xs : List ℕ) → contains conn xs ≡ false → count conn xs ≡ 0
unfolding contains keep
count_absent conn [] h = refl
count_absent conn (x ∷ xs) h =
    ground (arith, count_absent conn xs, nat_eq.same_iff x conn, nat_eq.same_iff conn x)

pub count_one :
    (c conn : ℕ) (xs : List ℕ) → count c (conn ∷ xs) ≡ (if conn == c then 1 else 0) + count c xs
unfolding keep
count_one c conn xs = ground arith

pub count_present : (conn : ℕ) (xs : List ℕ) → 1 ≤ count conn xs → contains conn xs ≡ true
unfolding contains keep
count_present conn [] h = ground arith
count_present conn (x ∷ xs) h = ground (arith, count_present conn xs)

pub count_none : (conn : ℕ) → count conn [] ≡ 0
unfolding keep
count_none conn = refl

pub count-all :
    (xs ys : List ℕ) → ((x : ℕ) → count x xs ≤ count x ys) → all (λ x. contains x ys) xs ≡ true
unfolding all
count-all [] ys h = refl
count-all (x ∷ xs) ys h =
    let first : contains x ys ≡ true =
      count_present x ys (ground (arith, h x, count_one x x xs, nat_eq.same_iff x x)) in
    ground (arith, first, count-all xs ys (λ y. omega (arith, h y, count_one y x xs)))
