-- ===== src/DayPersistence.antt =====
-- travel-agent-python/app/services/day_persistence.py with day_delivery_gate.py: a day's result and a
-- trip's final state in the database. A session is a transaction: where an operation raises, the
-- database stays as it was. The methods of Python's `str` and `validate_plans` are parameters.
pub mod Writes
pub mod Items
pub mod Gate
mod Tests
use Prim.Native.String
use travel_assistant.Base.{
  ℕ, zero, suc, ◌+◌, ◌-◌, String, Bool, true, false, not, ◌&&◌, ◌||◌, Option, none, some, List, [],
  ◌∷◌, ◌++◌, map, ltb, if◌then◌else◌, ◌==◌, ◌+ₛ◌, string_eq, nat_eq, str, keep, any, all,
}
use travel_assistant.Dict.Evict.{sort_by}
use travel_assistant.GenerationGate.{
  Status, pending, running, succeeded, failed, unknown, Conflict, verify_action, join,
}

abbrev pub max_error_length : ℕ
max_error_length = 500

abbrev pub fallback_day_error : String
fallback_day_error = "每日生成失败"

abbrev pub legacy_resume_marker : String
legacy_resume_marker = "[已自动续跑一次]"

-- `text[:n]`
unfoldable pub first_chars : ℕ → String → String
first_chars zero s = ""
first_chars (suc n) String.[] = ""
first_chars (suc n) (String.◌∷◌ c s) = String.◌∷◌ c (first_chars n s)

-- What the code uses of Python's `str`.
pub record Texts : Type 0 where
  pub strip : String → String
  pub contains : String → String → Bool
  pub remove : String → String → String

abbrev pub or_none : String → Option String
or_none text = if text == "" then none else some text

abbrev pub text_or : String → Option String → String
text_or fallback none = fallback
text_or fallback (some text) = if text == "" then fallback else text

-- A row of `itinerary_day`.
pub record Day : Type 0 where
  pub id : ℕ
  pub itinerary_id : ℕ
  pub day_no : ℕ
  pub note : Option String
  pub metadata_json : Option String
  pub generation_action_id : Option String
  pub generation_fingerprint : Option String
  pub generation_status : Option Status
  pub generation_error : Option String

-- An entry of the model's plan; `rest` is what is copied, or parsed by the library, into its columns.
pub record PlanItem (R : Type 0) : Type 0 where
  pub item_type : String
  pub poi_name : Option String
  pub why_this : Option String
  pub image : Option String
  pub verification_status : Option String
  pub value_kind : Option String
  pub freshness_status : Option String
  pub review_requirement : Option String
  pub rest : R

-- A row of `itinerary_item`.
pub record Item (R : Type 0) : Type 0 where
  pub day_id : ℕ
  pub itinerary_id : ℕ
  pub item_type : String
  pub poi_name : Option String
  pub why_note : Option String
  pub image_url : Option String
  pub verification_status : String
  pub value_kind : String
  pub freshness_status : String
  pub review_requirement : String
  pub rest : R
  pub sort_no : ℕ
  pub deleted : Bool

-- `metadata` is the text of `_day_metadata_json`.
pub record Plan (R : Type 0) : Type 0 where
  pub note : Option String
  pub metadata : Option String
  pub items : List (PlanItem R)

pub data GenState : Type 0 where
  generating completed partly failed_state : GenState

-- A row of `itinerary_main`, the columns that the generation reads or writes.
pub record Main : Type 0 where
  pub id : ℕ
  pub user_id : ℕ
  pub city : String
  pub days : ℕ
  pub status : ℕ
  pub gen_state : Option GenState
  pub gen_resumed : Bool
  pub gen_started_at : Option ℕ
  pub gen_finished_at : Option ℕ
  pub title : Option String
  pub plan_note : Option String
  pub trip_theme : Option String
  pub origin_city : Option String

-- The rows that a session shows: its filter hides deleted trips and days.
pub record Database (R : Type 0) : Type 0 where
  pub mains : List Main
  pub days : List Day
  pub items : List (Item R)

-- The errors of the two services.
pub data Failure : Type 0 where
  no_such_day : Failure
  refused : Conflict → Failure

pub data Outcome {ℓ} (A : Type ℓ) : Type ℓ where
  raised : Failure → Outcome A
  returned : A → Outcome A

-- The database after an operation: what it committed, or what was there before.
abbrev pub after {ℓ} : {A : Type ℓ} → Outcome A → A → A
after (raised e) before = before
after (returned db) before = db

abbrev pub head {ℓ} : {A : Type ℓ} → List A → Option A
head [] = none
head (x ∷ xs) = some x

unfoldable pub is_succeeded : Option Status → Bool
is_succeeded (some succeeded) = true
is_succeeded _ = false

-- `nights` and `days` are the request's.
unfoldable pub stay_nights : Option ℕ → Option ℕ → ℕ
stay_nights (some nights) days = nights
stay_nights none none = 0
stay_nights none (some days) = days - 1

unfoldable pub find_day : ℕ → ℕ → List Day → Option Day
unfolding keep
find_day itinerary_id day_no days =
    head (keep (λ day. day.itinerary_id == itinerary_id && day.day_no == day_no) days)

unfoldable pub day_by_id : ℕ → List Day → Option Day
unfolding keep
day_by_id day_id days = head (keep (λ day. day.id == day_id) days)

-- The row with this id, changed.
unfoldable pub update_day : ℕ → (Day → Day) → List Day → List Day
update_day day_id f days = map (λ day. if day.id == day_id then f day else day) days

unfoldable pub update_main : ℕ → (Main → Main) → List Main → List Main
update_main itinerary_id f mains =
    map (λ main. if main.id == itinerary_id then f main else main) mains

unfoldable pub default_str : Texts → Option String → String → String
default_str texts none fallback = fallback
default_str texts (some value) fallback = if texts.strip value == "" then fallback else value

module _ {R : Type 0} where
  -- `update(ItineraryItem).where(day_id, deleted == 0).values(deleted=1)`
  unfoldable pub clear_items : ℕ → List (Item R) → List (Item R)
  clear_items day_id items =
      map (λ item. if item.day_id == day_id then record item { deleted = true } else item) items

  module _ (texts : Texts) where
    unfoldable pub build_item : ℕ → ℕ → PlanItem R → ℕ → Item R
    unfolding default_str
    build_item itinerary_id day_id item sort_no = record {
      day_id = day_id;
      itinerary_id = itinerary_id;
      item_type = item.item_type;
      poi_name = item.poi_name;
      why_note = item.why_this;
      image_url = item.image;
      verification_status = default_str texts item.verification_status "unverified";
      value_kind = default_str texts item.value_kind "generated";
      freshness_status = default_str texts item.freshness_status "unknown";
      review_requirement = default_str texts item.review_requirement "before_departure";
      rest = item.rest;
      sort_no = sort_no;
      deleted = false;
    }

    -- The loop over the plan's entries with its counter `sort_no`.
    unfoldable pub new_items : ℕ → ℕ → ℕ → ℕ → List (PlanItem R) → ℕ → List (Item R)
    new_items itinerary_id day_id day_no nights [] sort_no = []
    new_items itinerary_id day_id day_no nights (item ∷ items) sort_no =
        let skipped = item.item_type == "hotel" && ltb nights day_no in
        let rest =
          new_items itinerary_id day_id day_no nights items
            (if skipped then sort_no else suc sort_no) in
        if skipped then rest else build_item itinerary_id day_id item sort_no ∷ rest
