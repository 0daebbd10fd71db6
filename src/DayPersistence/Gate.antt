-- ===== src/DayPersistence/Gate.antt =====
-- The gate in front of a day's writes, and the two readings of a trip's progress.
use travel_assistant.Base.{
  ℕ, suc, ◌≡◌, ◌≢◌, ◌↔◌, ◌∙◌, refl, sym, ap, String, Bool, true, false, not, ◌&&◌, Option, none,
  some, List, [], ◌∷◌, map, arith, string_eq, nat_eq, keep, all, length,
}
use travel_assistant.Dict.Evict.{sort_by, length-sort_by}
use travel_assistant.GenerationGate.{verify_action, other_action}
use travel_assistant.DayPersistence.{
  Texts, Day, Plan, Database, refused, raised, returned, after, is_succeeded, find_day, day_by_id,
  update_day,
}
use travel_assistant.DayPersistence.Writes.{
  persist, written_day, hard_delivery_blockers, write_day, all_days_succeeded, unfinished_day_nos,
  days_of, mark_running, mark_failed, reset_day_pending,
}
use travel_assistant.DayPersistence.Items.{persist_writes}

-- A change of a day's columns that leaves its keys.
pub record KeepsKeys (f : Day → Day) : Type 0 where
  pub same_trip : (day : Day) → (f day).itinerary_id ≡ day.itinerary_id
  pub same_no : (day : Day) → (f day).day_no ≡ day.day_no
  pub same_id : (day : Day) → (f day).id ≡ day.id

find_day-update_day :
    (f : Day → Day) (itinerary_id day_no : ℕ) (days : List Day) (day : Day)
    → KeepsKeys f
    → find_day itinerary_id day_no days ≡ some day
    → find_day itinerary_id day_no (update_day day.id f days) ≡ some (f day)
unfolding find_day update_day keep
find_day-update_day f itinerary_id day_no [] day k h = ground arith
find_day-update_day f itinerary_id day_no (d ∷ days) day k h = ground (
  arith,
  find_day-update_day f itinerary_id day_no days day k,
  k.same_trip d,
  k.same_no d,
  nat_eq.same_iff d.id day.id,
  nat_eq.same_iff d.itinerary_id itinerary_id,
  nat_eq.same_iff d.day_no day_no,
)

day_by_id-update_day :
    (f : Day → Day) (day_id : ℕ) (days : List Day) (day : Day)
    → KeepsKeys f
    → day_by_id day_id days ≡ some day
    → day_by_id day_id (update_day day_id f days) ≡ some (f day)
unfolding day_by_id update_day keep
day_by_id-update_day f day_id [] day k h = ground arith
day_by_id-update_day f day_id (d ∷ days) day k h =
    ground
      (arith, day_by_id-update_day f day_id days day k, k.same_id d, nat_eq.same_iff d.id day_id)

module _ {R : Type 0} (texts : Texts) (validate_plans : ℕ → Plan R → List String) where
  written_day-KeepsKeys :
      (day_no : ℕ) (plan : Plan R) (action_id fingerprint : String)
      → KeepsKeys (written_day texts validate_plans day_no plan action_id fingerprint)
  unfolding written_day
  written_day-KeepsKeys day_no plan action_id fingerprint = record {
    same_trip = λ day. ground arith;
    same_no = λ day. ground arith;
    same_id = λ day. ground arith;
  }

  written_day-gate :
      (day_no : ℕ) (plan : Plan R) (action_id fingerprint : String) (day : Day)
      → ((written_day texts validate_plans day_no plan action_id fingerprint
            day).generation_action_id
          ≡ some action_id)
        × ((written_day texts validate_plans day_no plan action_id fingerprint
              day).generation_fingerprint
            ≡ some fingerprint)
  unfolding written_day
  written_day-gate day_no plan action_id fingerprint day = ground arith

  written_day_clean :
      (day_no : ℕ) (plan : Plan R) (action_id fingerprint : String) (day : Day)
      → hard_delivery_blockers texts validate_plans day_no plan ≡ []
      → is_succeeded
          (written_day texts validate_plans day_no plan action_id fingerprint day).generation_status
        ≡ true
  unfolding written_day is_succeeded
  written_day_clean day_no plan action_id fingerprint day clean = rw (written_day, clean) refl

verify_action_same :
    (given given' : Option String) (action_id fingerprint : String)
    → given ≡ some action_id
    → given' ≡ some fingerprint
    → verify_action given given' action_id fingerprint ≡ none
unfolding verify_action
verify_action_same given given' action_id fingerprint h h' =
    rw (h, h')
      (ground
        (arith, string_eq.same_iff action_id action_id, string_eq.same_iff fingerprint fingerprint))

verify_action_other :
    (given given' : Option String) (action_id other fingerprint : String)
    → given ≡ some action_id
    → action_id ≢ other
    → verify_action given given' other fingerprint ≡ some other_action
unfolding verify_action
verify_action_other given given' action_id other fingerprint h new =
    rw h (ground (arith, string_eq.same_iff other action_id))

-- A write that the gate lets through, and its database.
module _ {R : Type 0} (texts : Texts) (validate_plans : ℕ → Plan R → List String) (itinerary_id : ℕ)
    (nights request_days : Option ℕ) (day_no : ℕ) (plan : Plan R) (action_id fingerprint : String)
    (allow_overwrite : Bool) (db : Database R) (day : Day) where
  abbrev pub written : Database R
  written =
      after
        (persist texts validate_plans itinerary_id nights request_days day_no plan action_id
          fingerprint allow_overwrite db)
        db

  -- The day is there, the gate lets the action in, and the day is not done or may be overwritten.
  pub record Open : Type 0 where
    pub found : find_day itinerary_id day_no db.days ≡ some day
    pub by_id : day_by_id day.id db.days ≡ some day
    pub let_in :
        verify_action day.generation_action_id day.generation_fingerprint action_id fingerprint
        ≡ none
    pub undone : (is_succeeded day.generation_status && not allow_overwrite) ≡ false

  abbrev pub new_day : Day
  new_day = written_day texts validate_plans day_no plan action_id fingerprint day

  written-days :
      Open
      → written.days
        ≡ update_day day.id
            (written_day texts validate_plans day_no plan action_id fingerprint)
            db.days
  written-days o =
      ap (λ r. (after r db).days)
        (persist_writes texts validate_plans itinerary_id nights request_days day_no plan action_id
          fingerprint allow_overwrite db day o.found o.let_in o.undone)

  pub persist-written :
      Open
      → persist texts validate_plans itinerary_id nights request_days day_no plan action_id
          fingerprint allow_overwrite db
        ≡ returned written
  persist-written o =
      let wrote =
        persist_writes texts validate_plans itinerary_id nights request_days day_no plan action_id
          fingerprint allow_overwrite db day o.found o.let_in o.undone in
      wrote ∙ ap returned (sym (ap (λ r. after r db) wrote))

  pub find-written : Open → find_day itinerary_id day_no written.days ≡ some new_day
  find-written o =
      ap (λ days. find_day itinerary_id day_no days) (written-days o)
      ∙ find_day-update_day (written_day texts validate_plans day_no plan action_id fingerprint)
          itinerary_id day_no db.days day
          (written_day-KeepsKeys texts validate_plans day_no plan action_id fingerprint) o.found

  by_id-written : Open → day_by_id day.id written.days ≡ some new_day
  by_id-written o =
      ap (λ days. day_by_id day.id days) (written-days o)
      ∙ day_by_id-update_day (written_day texts validate_plans day_no plan action_id fingerprint)
          day.id db.days day
          (written_day-KeepsKeys texts validate_plans day_no plan action_id fingerprint) o.by_id

  -- After a write of a day that is there, that the gate lets in and that was not done or may be
  -- overwritten, and which finds no hard blocker, writing the day again for the same action and the
  -- same parameters, without leave to overwrite, changes nothing, whatever the second plan.
  pub persist-persist :
      (plan' : Plan R)
      → Open
      → hard_delivery_blockers texts validate_plans day_no plan ≡ []
      → persist texts validate_plans itinerary_id nights request_days day_no plan' action_id
          fingerprint false written
        ≡ returned written
  unfolding persist
  persist-persist plan' o clean =
      let (action, print) =
        written_day-gate texts validate_plans day_no plan action_id fingerprint day in
      let done =
        written_day_clean texts validate_plans day_no plan action_id fingerprint day clean in
      rw
        (
          persist,
          find-written o,
          verify_action_same new_day.generation_action_id new_day.generation_fingerprint action_id
              fingerprint action print,
          done,
        )
        refl

  -- A day that was written for one action is out of reach of another: the other can neither write a
  -- plan there nor set the day's status, and gets the error of a conflict. The write went through:
  -- the day is there, by its trip and number and by its id, the gate let the action in, and the day
  -- was not done or could be overwritten.
  pub persist-other_action :
      (plan' : Plan R) (other fingerprint' : String) (overwrite' : Bool) (error : Option String)
      → Open
      → action_id ≢ other
      → (persist texts validate_plans itinerary_id nights request_days day_no plan' other
            fingerprint' overwrite' written
          ≡ raised (refused other_action))
        × ((mark_running day.id other fingerprint' written ≡ raised (refused other_action))
            × ((mark_failed day.id other fingerprint' error written ≡ raised (refused other_action))
                × (reset_day_pending texts day.id other fingerprint' error written
                    ≡ raised (refused other_action))))
  unfolding persist write_day mark_running mark_failed reset_day_pending
  persist-other_action plan' other fingerprint' overwrite' error o new =
      let (action, print) =
        written_day-gate texts validate_plans day_no plan action_id fingerprint day in
      let shut =
        verify_action_other new_day.generation_action_id new_day.generation_fingerprint action_id
          other fingerprint' action new in
      (
        rw (persist, find-written o, shut) refl,
        (
          rw (write_day, by_id-written o, shut) refl,
          (rw (write_day, by_id-written o, shut) refl, rw (write_day, by_id-written o, shut) refl),
        ),
      )

all-keep :
    (p : Day → Bool) (days : List Day)
    → (all p days ≡ true) ↔ (length (keep (λ d. not (p d)) days) ≡ 0)
unfolding all keep
all-keep p [] = ground arith
all-keep p (d ∷ days) = ground (arith, all-keep p days)

length-nil : (xs : List ℕ) → (length xs ≡ 0) ↔ (xs ≡ [])
length-nil [] = ground arith
length-nil (x ∷ xs) = ground arith

length-map : (f : Day → ℕ) (days : List Day) → length (map f days) ≡ length days
length-map f [] = refl
length-map f (d ∷ days) = ap suc (length-map f days)

-- A trip's days are all done exactly when no day is left to do.
pub all_days_succeeded-unfinished :
    {R : Type 0} (itinerary_id : ℕ) (db : Database R)
    → (all_days_succeeded itinerary_id db ≡ true) ↔ (unfinished_day_nos itinerary_id db ≡ [])
unfolding all_days_succeeded unfinished_day_nos
all_days_succeeded-unfinished itinerary_id db =
    let days = days_of itinerary_id db in
    let left = keep (λ day. not (is_succeeded day.generation_status)) days in
    let nos = map (λ day. day.day_no) left in
    let count = length-sort_by (λ day_no. day_no) nos ∙ length-map (λ day. day.day_no) left in
    let every = all-keep (λ day. is_succeeded day.generation_status) days in
    let none_left = length-nil (sort_by (λ day_no. day_no) nos) in
    (λ h. none_left.0 (count ∙ every.0 h), λ h. every.1 (sym count ∙ none_left.1 h))
