-- ===== src/ItineraryVersion/Numbering.antt =====
-- The numbers and parents of a trip's versions under any number of writers, each of which reads the latest
-- version and later inserts the next one.
use travel_assistant.Base.{
  ℕ, suc, ◌≤◌, ◌≡◌, refl, subst, inl, inr, false, ◌&&◌, ◌||◌, Option, none, some, List, [], ◌∷◌,
  arith, ltb, leb, if◌then◌else◌, ◌==◌, nat_eq, length, keep, any, Bool-cases,
}
use travel_assistant.DayPersistence.{head}
use travel_assistant.ItineraryVersion.{
  Version, versions_of, newest, latest, id_of, next_no, Request, new_version, taken,
}

-- The newest version first: numbers down to 1 without gaps, and each names the one before it as its parent.
abbrev pub Chain : List Version → Type 0
Chain [] = Unit
Chain (v ∷ vs) =
    (v.version_no ≡ suc (length vs)) × (v.parent_version_id ≡ id_of (head vs)) × Chain vs

pub newest-Chain : (vs : List Version) → Chain vs → newest vs ≡ head vs
unfolding newest
newest-Chain [] c = refl
newest-Chain (v ∷ []) c = refl
newest-Chain (v ∷ w ∷ vs) c = rw (newest-Chain (w ∷ vs) c.2) (ground arith)

pub next_no-Chain : (vs : List Version) → Chain vs → next_no (head vs) ≡ suc (length vs)
next_no-Chain [] c = refl
next_no-Chain (v ∷ vs) c = ground arith

numbered : (n k : ℕ) → ((suc k == n) || (ltb 0 n && leb n k)) ≡ (ltb 0 n && leb n (suc k))
numbered n k = ground arith

pub any-Chain :
    (n : ℕ) (vs : List Version)
    → Chain vs
    → any (λ w. w.version_no == n) vs ≡ (ltb 0 n && leb n (length vs))
unfolding any
any-Chain n [] c = ground arith
any-Chain n (v ∷ vs) (number, parent, c) = rw (any-Chain n vs c, number) (numbered n (length vs))

pub taken-versions_of :
    (v : Version) (rows : List Version)
    → taken v rows ≡ any (λ w. w.version_no == v.version_no) (versions_of v.itinerary_id rows)
unfolding taken versions_of keep any
taken-versions_of v [] = refl
taken-versions_of v (w ∷ rows) = ground (arith, taken-versions_of v rows)

-- What a writer has read may be old: then its number is one that is taken.
abbrev pub Fits : List Version → Option Version → Type 0
Fits vs last =
    (1 ≤ next_no last)
    × (next_no last ≤ suc (length vs))
    × (next_no last ≡ suc (length vs) → id_of last ≡ id_of (head vs))

pub latest-Fits :
    (itinerary_id : ℕ) (rows : List Version)
    → Chain (versions_of itinerary_id rows)
    → Fits (versions_of itinerary_id rows) (latest itinerary_id rows)
unfolding latest
latest-Fits itinerary_id rows c =
    rw (latest, newest-Chain (versions_of itinerary_id rows) c)
      (let h = next_no-Chain (versions_of itinerary_id rows) c in
        (omega arith, omega arith, λ _. refl))

pub insert-Chain :
    (r : Request) (id : ℕ) (last : Option Version) (rows : List Version)
    → Chain (versions_of r.itinerary_id rows)
    → Fits (versions_of r.itinerary_id rows) last
    → taken (new_version r id last) rows ≡ false
    → Chain (new_version r id last ∷ versions_of r.itinerary_id rows)
unfolding new_version
insert-Chain r id last rows c fits free =
    let key = taken-versions_of (new_version r id last) rows in
    let there = any-Chain (next_no last) (versions_of r.itinerary_id rows) c in
    let number : next_no last ≡ suc (length (versions_of r.itinerary_id rows)) = ground (arith) in
    (number, fits.2 number, c)

-- The rows, and what each writer that is about to insert has read.
pub record Store : Type 0 where
  pub rows : List Version
  pub drafts : ℕ → Option (Request × Option Version)

pub data Event : Type 0 where
  reads : ℕ → Request → Event
  flushes : ℕ → ℕ → Event

abbrev set_draft :
    ℕ
    → Option (Request × Option Version)
    → (ℕ → Option (Request × Option Version))
    → ℕ
    → Option (Request × Option Version)
set_draft writer draft drafts w = if w == writer then draft else drafts w

-- The insert of a writer that has read; where the key is taken, nothing is inserted.
unfoldable pub flush : ℕ → Option (Request × Option Version) → List Version → List Version
unfolding taken new_version
flush id none rows = rows
flush id (some (r, last)) rows =
    if taken (new_version r id last) rows then rows else new_version r id last ∷ rows

unfoldable pub step : Event → Store → Store
unfolding latest flush
step (reads writer r) s = record s {
  drafts = set_draft writer (some (r, latest r.itinerary_id s.rows)) s.drafts;
}
step (flushes writer id) s = record {
  rows = flush id (s.drafts writer) s.rows;
  drafts = set_draft writer none s.drafts;
}

unfoldable pub run : List Event → Store → Store
unfolding step
run [] s = s
run (e ∷ es) s = run es (step e s)

abbrev pub Numbered : List Version → Type 0
Numbered rows = (itinerary_id : ℕ) → Chain (versions_of itinerary_id rows)

abbrev pub DraftFits : List Version → Option (Request × Option Version) → Type 0
DraftFits rows none = Unit
DraftFits rows (some (r, last)) = Fits (versions_of r.itinerary_id rows) last

abbrev pub IsOrderly : Store → Type 0
IsOrderly s = Numbered s.rows × ((w : ℕ) → DraftFits s.rows (s.drafts w))

pub versions_of_cons :
    (itinerary_id : ℕ) (v : Version) (rows : List Version)
    → versions_of itinerary_id (v ∷ rows) ≡ (
        if v.itinerary_id == itinerary_id
        then v ∷ versions_of itinerary_id rows
        else versions_of itinerary_id rows)
unfolding versions_of keep
versions_of_cons itinerary_id v rows = refl

Fits-cons :
    (v : Version) (vs : List Version) (last : Option Version) → Fits vs last → Fits (v ∷ vs) last
Fits-cons v vs last fits = (omega arith, omega arith, λ e. ground arith)

Numbered-insert :
    (r : Request) (id : ℕ) (last : Option Version) (rows : List Version)
    → Numbered rows
    → Fits (versions_of r.itinerary_id rows) last
    → taken (new_version r id last) rows ≡ false
    → Numbered (new_version r id last ∷ rows)
unfolding new_version
Numbered-insert r id last rows c fits free it = elim (Bool-cases (r.itinerary_id == it)) [
  | inl here ↦
      rw (versions_of_cons it (new_version r id last) rows, here)
        (subst (λ i. Chain (new_version r id last ∷ versions_of i rows))
          ((nat_eq.same_iff r.itinerary_id it).0 here)
          (insert-Chain r id last rows (c r.itinerary_id) fits free))
  | inr elsewhere ↦ rw (versions_of_cons it (new_version r id last) rows, elsewhere) (c it)
]

DraftFits-cons :
    (v : Version) (rows : List Version) (d : Option (Request × Option Version))
    → DraftFits rows d
    → DraftFits (v ∷ rows) d
DraftFits-cons v rows none f = f
DraftFits-cons v rows (some (r, last)) f = elim (Bool-cases (v.itinerary_id == r.itinerary_id)) [
  | inl here ↦
      rw (versions_of_cons r.itinerary_id v rows, here)
        (Fits-cons v (versions_of r.itinerary_id rows) last f)
  | inr elsewhere ↦ rw (versions_of_cons r.itinerary_id v rows, elsewhere) f
]

flush-Numbered :
    (id : ℕ) (d : Option (Request × Option Version)) (rows : List Version)
    → Numbered rows
    → DraftFits rows d
    → Numbered (flush id d rows)
unfolding flush
flush-Numbered id none rows c f = c
flush-Numbered id (some (r, last)) rows c f =
    elim (Bool-cases (taken (new_version r id last) rows)) [
      | inl there ↦ rw (flush, there) c
      | inr free ↦ rw (flush, free) (Numbered-insert r id last rows c f free)
    ]

flush-DraftFits :
    (id : ℕ) (d other : Option (Request × Option Version)) (rows : List Version)
    → DraftFits rows other
    → DraftFits (flush id d rows) other
unfolding flush
flush-DraftFits id none other rows f = f
flush-DraftFits id (some (r, last)) other rows f =
    elim (Bool-cases (taken (new_version r id last) rows)) [
      | inl there ↦ rw (flush, there) f
      | inr free ↦ rw (flush, free) (DraftFits-cons (new_version r id last) rows other f)
    ]

set_draft_lem :
    (rows : List Version) (writer : ℕ) (d : Option (Request × Option Version))
    (drafts : ℕ → Option (Request × Option Version))
    → DraftFits rows d
    → ((w : ℕ) → DraftFits rows (drafts w))
    → (w : ℕ) → DraftFits rows (set_draft writer d drafts w)
set_draft_lem rows writer d drafts f fs w = elim (Bool-cases (w == writer)) [
  | inl here ↦ rw (here) f
  | inr elsewhere ↦ rw (elsewhere) (fs w)
]

step-IsOrderly : (e : Event) (s : Store) → IsOrderly s → IsOrderly (step e s)
unfolding step
step-IsOrderly (reads writer r) s (c, fs) = (
  c,
  set_draft_lem s.rows writer (some (r, latest r.itinerary_id s.rows)) s.drafts
      (latest-Fits r.itinerary_id s.rows (c r.itinerary_id)) fs,
)
step-IsOrderly (flushes writer id) s (c, fs) = (
  flush-Numbered id (s.drafts writer) s.rows c (fs writer),
  set_draft_lem (flush id (s.drafts writer) s.rows) writer none s.drafts tt
      (λ w. flush-DraftFits id (s.drafts writer) (s.drafts w) s.rows (fs w)),
)

-- However the reads and the inserts of any number of writers follow each other, the versions of each
-- trip, from the newest to the oldest, stay numbered down to 1 without a gap or a double, and each names
-- the version before it as its parent; so an insert after another writer's is refused by the unique
-- key, or starts from what that writer inserted.
pub run-IsOrderly : (es : List Event) (s : Store) → IsOrderly s → IsOrderly (run es s)
unfolding run
run-IsOrderly [] s v = v
run-IsOrderly (e ∷ es) s v = run-IsOrderly es (step e s) (step-IsOrderly e s v)
