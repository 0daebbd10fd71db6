-- ===== src/ItineraryCommand/Order/Positions.antt =====
-- What `enumerate` writes: the entry with an id stands at a position of that id in the list.
use travel_assistant.Base.{
  ℕ, zero, suc, ◌-◌, ◌≤◌, ◌≡◌, refl, sym, ◌∙◌, ap, inl, inr, true, false, Option, none, some, List,
  [], ◌∷◌, map, arith, if◌then◌else◌, ◌==◌, nat_eq, Bool-cases,
}
use travel_assistant.Dict.{contains}
use travel_assistant.ItineraryCommand.{Row, update_row}
use travel_assistant.ItineraryCommand.Order.{set_order}

abbrev pub get_elem? : List ℕ → ℕ → Option ℕ
get_elem? [] n = none
get_elem? (x ∷ xs) zero = some x
get_elem? (x ∷ xs) (suc n) = get_elem? xs n

-- The last position of an id from `index` on, else the old one.
unfoldable pub position : ℕ → List ℕ → ℕ → ℕ → ℕ
position id [] index old = old
position id (x ∷ xs) index old = position id xs (suc index) (if id == x then index else old)

sub_self : (n : ℕ) → n - n ≡ 0
sub_self n = omega arith

sub_suc : (n index : ℕ) → suc index ≤ n → n - index ≡ suc (n - suc index)
sub_suc n index h = omega arith

module _ {C : Type 0} where
  abbrev pub placed : List ℕ → ℕ → Row C → Row C
  placed ids index row = record row { sort_no = position row.id ids index row.sort_no }

  placed_update :
      (id : ℕ) (ids : List ℕ) (index : ℕ) (row : Row C)
      → placed ids (suc index) (if row.id == id then record row { sort_no = index } else row)
        ≡ placed (id ∷ ids) index row
  unfolding position
  placed_update id ids index row = elim (Bool-cases (row.id == id)) [
    | inl here ↦ rw (here) refl
    | inr elsewhere ↦ rw (elsewhere) refl
  ]

  map-update_row :
      (id : ℕ) (ids : List ℕ) (index : ℕ) (items : List (Row C))
      → map (placed ids (suc index)) (update_row id (λ row. record row { sort_no = index }) items)
        ≡ map (placed (id ∷ ids) index) items
  unfolding update_row
  map-update_row id ids index [] = refl
  map-update_row id ids index (row ∷ items) =
      cc (placed_update id ids index row, map-update_row id ids index items)

  -- The loop changes only the positions, each row by itself.
  pub set_order-map :
      (ids : List ℕ) (index : ℕ) (items : List (Row C))
      → set_order ids index items ≡ map (placed ids index) items
  unfolding set_order update_row position
  set_order-map [] index [] = refl
  set_order-map [] index (row ∷ items) = ap (λ l. row ∷ l) (set_order-map [] index items)
  set_order-map (id ∷ ids) index items =
      set_order-map ids (suc index) _ ∙ map-update_row id ids index items

pub position_absent :
    (id : ℕ) (ids : List ℕ) (index old : ℕ)
    → contains id ids ≡ false
    → position id ids index old ≡ old
unfolding position contains
position_absent id [] index old h = refl
position_absent id (x ∷ ids) index old h =
    ground
      (arith, position_absent id ids (suc index) old, nat_eq.same_iff id x, nat_eq.same_iff x id)

get_elem_first : (x : ℕ) (xs : List ℕ) (n : ℕ) → get_elem? (x ∷ xs) (n - n) ≡ some x
get_elem_first x xs n = rw (sub_self n) refl

get_elem_later :
    (x : ℕ) (xs : List ℕ) (n index : ℕ)
    → suc index ≤ n
    → get_elem? (x ∷ xs) (n - index) ≡ get_elem? xs (n - suc index)
get_elem_later x xs n index h = rw (sub_suc n index h) refl

first_place :
    (id x : ℕ) (ids : List ℕ) (index old : ℕ)
    → x ≡ id
    → (index ≤ (if id == x then index else old))
      × (get_elem? (x ∷ ids) ((if id == x then index else old) - index) ≡ some id)
first_place id x ids index old e =
    let here : (id == x) ≡ true = (nat_eq.same_iff id x).1 (sym e) in
    rw (here) (omega arith, rw (sub_self index) (ap some e))

pub get_elem-position :
    (id : ℕ) (ids : List ℕ) (index old : ℕ)
    → contains id ids ≡ true
    → (index ≤ position id ids index old)
      × (get_elem? ids (position id ids index old - index) ≡ some id)
unfolding position contains
get_elem-position id [] index old h = ground arith
get_elem-position id (x ∷ ids) index old h = elim (Bool-cases (contains id ids)) [
  | inl later ↦
      let old_or : ℕ = if id == x then index else old in
      let rest = get_elem-position id ids (suc index) old_or later in
      (
        omega (arith, rest.0),
        get_elem_later x ids (position id ids (suc index) old_or) index rest.0 ∙ rest.1,
      )
  | inr last ↦
      rw (position_absent id ids (suc index) (if id == x then index else old) last)
        (first_place id x ids index old (ground (arith, last, nat_eq.same_iff x id)))
]
