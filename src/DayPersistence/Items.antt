-- ===== src/DayPersistence/Items.antt =====
-- What a day holds after `persist`: the entries of the new plan in their order, numbered without gaps.
use travel_assistant.Base.{
  ℕ, suc, ◌≡◌, ◌∙◌, refl, ap, String, Bool, false, not, ◌&&◌, if◌then◌else◌, Option, none, some,
  List, [], ◌∷◌, ◌++◌, arith, ltb, ◌==◌, string_eq, nat_eq, keep, keep-append, append_nil,
}
use travel_assistant.GenerationGate.{verify_action}
use travel_assistant.DayPersistence.{
  Texts, Day, PlanItem, Item, Plan, Database, returned, after, is_succeeded, stay_nights, find_day,
  update_day, clear_items, default_str, build_item, new_items,
}
use travel_assistant.DayPersistence.Writes.{persist, written_day}

abbrev pub or_careful : Texts → String → Option String → String
or_careful texts careful none = careful
or_careful texts careful (some value) = if texts.strip value == "" then careful else value

default_str-or_careful :
    (texts : Texts) (careful : String) (value : Option String)
    → default_str texts value careful ≡ or_careful texts careful value
unfolding default_str
default_str-or_careful texts careful none = refl
default_str-or_careful texts careful (some value) = refl

module _ {R : Type 0} (texts : Texts) (itinerary_id day_id : ℕ) where
  -- The entries of a day that the trip shows.
  abbrev pub live : List (Item R) → List (Item R)
  live items = keep (λ item. item.day_id == day_id && not item.deleted) items

  abbrev pub elsewhere : List (Item R) → List (Item R)
  elsewhere items = keep (λ item. not (item.day_id == day_id)) items

  -- The rows of the plan's entries, column by column, at the positions from `n` on. A blank column of
  -- the evidence has the most careful value.
  unfoldable pub numbered : ℕ → List (PlanItem R) → List (Item R)
  numbered n [] = []
  numbered n (item ∷ items) =
      record {
        day_id = day_id;
        itinerary_id = itinerary_id;
        item_type = item.item_type;
        poi_name = item.poi_name;
        why_note = item.why_this;
        image_url = item.image;
        verification_status = or_careful texts "unverified" item.verification_status;
        value_kind = or_careful texts "generated" item.value_kind;
        freshness_status = or_careful texts "unknown" item.freshness_status;
        review_requirement = or_careful texts "before_departure" item.review_requirement;
        rest = item.rest;
        sort_no = n;
        deleted = false;
      }
      ∷ numbered (suc n) items

  -- What stays of a plan: on a day after the last night, no hotel.
  abbrev pub stays : ℕ → ℕ → PlanItem R → Bool
  stays day_no nights item = not (item.item_type == "hotel" && ltb nights day_no)

  live-clear_items : (items : List (Item R)) → live (clear_items day_id items) ≡ []
  unfolding clear_items keep
  live-clear_items [] = refl
  live-clear_items (item ∷ items) =
      ground (arith, live-clear_items items, nat_eq.same_iff item.day_id day_id)

  elsewhere-clear_items :
      (items : List (Item R)) → elsewhere (clear_items day_id items) ≡ elsewhere items
  unfolding clear_items keep
  elsewhere-clear_items [] = refl
  elsewhere-clear_items (item ∷ items) =
      ground (arith, elsewhere-clear_items items, nat_eq.same_iff item.day_id day_id)

  live-numbered : (n : ℕ) (items : List (PlanItem R)) → live (numbered n items) ≡ numbered n items
  unfolding numbered keep
  live-numbered n [] = refl
  live-numbered n (item ∷ items) =
      ground (arith, live-numbered (suc n) items, nat_eq.same_iff day_id day_id)

  elsewhere-numbered : (n : ℕ) (items : List (PlanItem R)) → elsewhere (numbered n items) ≡ []
  unfolding numbered keep
  elsewhere-numbered n [] = refl
  elsewhere-numbered n (item ∷ items) =
      ground (arith, elsewhere-numbered (suc n) items, nat_eq.same_iff day_id day_id)

  new_items-numbered :
      (day_no nights : ℕ) (items : List (PlanItem R)) (n : ℕ)
      → new_items texts itinerary_id day_id day_no nights items n
        ≡ numbered n (keep (stays day_no nights) items)
  unfolding new_items numbered keep build_item
  new_items-numbered day_no nights [] n = refl
  new_items-numbered day_no nights (item ∷ items) n = ground (
    arith,
    default_str-or_careful texts "unverified" item.verification_status,
    default_str-or_careful texts "generated" item.value_kind,
    default_str-or_careful texts "unknown" item.freshness_status,
    default_str-or_careful texts "before_departure" item.review_requirement,
    new_items-numbered day_no nights items n,
    new_items-numbered day_no nights items (suc n),
  )

module _ {R : Type 0} (texts : Texts) (validate_plans : ℕ → Plan R → List String) where
  pub persist_writes :
      (itinerary_id : ℕ) (nights request_days : Option ℕ) (day_no : ℕ) (plan : Plan R)
      (action_id fingerprint : String) (allow_overwrite : Bool) (db : Database R) (day : Day)
      → find_day itinerary_id day_no db.days ≡ some day
      → verify_action day.generation_action_id day.generation_fingerprint action_id fingerprint
        ≡ none
      → (is_succeeded day.generation_status && not allow_overwrite) ≡ false
      → persist texts validate_plans itinerary_id nights request_days day_no plan action_id
          fingerprint allow_overwrite db
        ≡ returned (record db {
          days =
              update_day day.id
                (written_day texts validate_plans day_no plan action_id fingerprint)
                db.days;
          items =
              clear_items day.id db.items
              ++ new_items texts itinerary_id day.id day_no
                  (stay_nights nights request_days)
                  plan.items
                  0;
        })
  unfolding persist
  persist_writes itinerary_id nights request_days day_no plan action_id fingerprint allow_overwrite
        db day found let_in open_day =
      rw (persist, found, let_in, open_day) refl

  -- Where `persist` finds the day, is let through by the gate, and the day is not done or may be
  -- overwritten, the trip then shows on that day exactly the plan's entries, without hotels on a day
  -- after the last night, in the plan's order and at the positions 0, 1, 2, …, each with the columns
  -- that `numbered` writes out; whatever the day held before is gone, and the rows of the other days
  -- are the same.
  pub persist-live :
      (itinerary_id : ℕ) (nights request_days : Option ℕ) (day_no : ℕ) (plan : Plan R)
      (action_id fingerprint : String) (allow_overwrite : Bool) (db : Database R) (day : Day)
      → find_day itinerary_id day_no db.days ≡ some day
      → verify_action day.generation_action_id day.generation_fingerprint action_id fingerprint
        ≡ none
      → (is_succeeded day.generation_status && not allow_overwrite) ≡ false
      → (live texts itinerary_id day.id
            (after
              (persist texts validate_plans itinerary_id nights request_days day_no plan action_id
                fingerprint allow_overwrite db)
              db).items
          ≡ numbered texts itinerary_id day.id 0 (
              keep
                (stays texts itinerary_id day.id day_no (stay_nights nights request_days))
                plan.items))
        × (elsewhere texts itinerary_id day.id
              (after
                (persist texts validate_plans itinerary_id nights request_days day_no plan action_id
                  fingerprint allow_overwrite db)
                db).items
            ≡ elsewhere texts itinerary_id day.id db.items)
  persist-live itinerary_id nights request_days day_no plan action_id fingerprint allow_overwrite db
        day found let_in open_day =
      let wrote =
        ap (λ r. (after r db).items)
          (persist_writes itinerary_id nights request_days day_no plan action_id fingerprint
            allow_overwrite db day found let_in open_day) in
      let old = clear_items day.id db.items in
      let stay = stay_nights nights request_days in
      let new =
        numbered texts itinerary_id day.id 0
          (keep (stays texts itinerary_id day.id day_no stay) plan.items) in
      let all_rows =
        wrote
        ∙ ap (λ l. old ++ l)
            (new_items-numbered texts itinerary_id day.id day_no stay plan.items 0) in
      (
        ap (live texts itinerary_id day.id) all_rows
            ∙ keep-append (λ item. item.day_id == day.id && not item.deleted) old new
            ∙ rw (live-clear_items texts itinerary_id day.id db.items) (
                live-numbered texts itinerary_id day.id 0
                  (keep (stays texts itinerary_id day.id day_no stay) plan.items)),
        ap (elsewhere texts itinerary_id day.id) all_rows
            ∙ keep-append (λ item. not (item.day_id == day.id)) old new
            ∙ rw
                (
                  elsewhere-clear_items texts itinerary_id day.id db.items,
                  elsewhere-numbered texts itinerary_id day.id 0
                      (keep (stays texts itinerary_id day.id day_no stay) plan.items),
                )
                (append_nil (elsewhere texts itinerary_id day.id db.items)),
      )
