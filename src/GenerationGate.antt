-- ===== src/GenerationGate.antt =====
-- travel-agent-python/app/services/generation_gate.py: the locks of the generation, the check that an
-- action may write a day, and the fingerprint of the parameters.
mod Laws
mod Tests
use travel_assistant.Base.{
  ℕ, ◌+◌, ◌*◌, ◌-◌, ◌/◌, ◌%◌, ◌^◌, String, Bool, true, false, not, ◌&&◌, Option, none, some, List,
  [], ◌∷◌, map, ltb, leb, if◌then◌else◌, ◌==◌, ◌+ₛ◌, string_eq, str, Bool,
}
use travel_assistant.RedisClient.{Moment}
use travel_assistant.StateAndSessions.Marks.{Locks, try_mark, unmark}

abbrev pub day_lock_ttl_seconds : ℕ
day_lock_ttl_seconds = 5 * 60

abbrev pub resume_lock_ttl_seconds : ℕ
resume_lock_ttl_seconds = 10 * 60

unfoldable pub day_lock_key : ℕ → ℕ → String
unfolding str
day_lock_key itinerary_id day_no = "gen:day:" +ₛ str itinerary_id +ₛ ":" +ₛ str day_no

unfoldable pub resume_lock_key : ℕ → String
unfolding str
resume_lock_key itinerary_id = "gen:resume:" +ₛ str itinerary_id

unfoldable pub try_day_lock : Moment → Option (Option Bool) → ℕ → ℕ → Locks → Bool × Locks
unfolding try_mark day_lock_key
try_day_lock at reply itinerary_id day_no locks =
    try_mark at reply (day_lock_key itinerary_id day_no) day_lock_ttl_seconds locks

unfoldable pub release_day_lock : Moment → Option (Unit {0}) → ℕ → ℕ → Locks → Locks
unfolding unmark day_lock_key
release_day_lock at reply itinerary_id day_no locks =
    unmark at reply (day_lock_key itinerary_id day_no) locks

unfoldable pub try_resume_lock : Moment → Option (Option Bool) → ℕ → Locks → Bool × Locks
unfolding try_mark resume_lock_key
try_resume_lock at reply itinerary_id locks =
    try_mark at reply (resume_lock_key itinerary_id) resume_lock_ttl_seconds locks

unfoldable pub release_resume_lock : Moment → Option (Unit {0}) → ℕ → Locks → Locks
unfolding unmark resume_lock_key
release_resume_lock at reply itinerary_id locks =
    unmark at reply (resume_lock_key itinerary_id) locks

-- `generation_status`, with `unknown` for a text that the program does not write.
pub data Status : Type 0 where
  pending running succeeded failed unknown : Status

-- The two messages of `ApiError(409, …)`.
pub data Conflict : Type 0 where
  other_action parameters_changed : Conflict

-- `value is not None and given != value`
abbrev pub differs : Option String → String → Bool
differs none given = false
differs (some value) given = not (given == value)

-- `none` where the action may write the day with this action id and fingerprint.
unfoldable pub verify_action : Option String → Option String → String → String → Option Conflict
verify_action generation_action_id generation_fingerprint action_id fingerprint =
    if differs generation_action_id action_id
    then some other_action
    else if differs generation_fingerprint fingerprint
    then some parameters_changed
    else none

-- A value of a request: `None`, a truth value, or the text that `str` gives of any other.
pub data Value : Type 0 where
  null : Value
  bool : Bool → Value
  text : String → Value

unfoldable pub java_string : Bool → Value → String
java_string empty_is_null null = if empty_is_null then "" else "null"
java_string empty_is_null (bool b) = if b then "true" else "false"
java_string empty_is_null (text s) = s

-- The budget: absent, a `Decimal` of `coefficient / 10 ^ scale`, or the text of another value.
pub data Budget : Type 0 where
  missing : Budget
  decimal : (coefficient scale : ℕ) → Budget
  plain : String → Budget

-- `quantize(Decimal("0.01"), rounding=ROUND_HALF_UP)`, in hundredths.
unfoldable pub cents : ℕ → ℕ → ℕ
cents coefficient scale =
    if leb scale 2
    then coefficient * 10 ^ (2 - scale)
    else (coefficient + 10 ^ (scale - 2) / 2) / 10 ^ (scale - 2)

-- `str` of a `Decimal` with two places.
unfoldable pub two_places : ℕ → String
unfolding str
two_places hundredths =
    str (hundredths / 100) +ₛ "." +ₛ str (hundredths / 10 % 10) +ₛ str (hundredths % 10)

unfoldable pub budget_value : Budget → Value
unfolding cents two_places
budget_value missing = null
budget_value (decimal coefficient scale) = text (two_places (cents coefficient scale))
budget_value (plain s) = text s

-- What `field` finds of a request, model or dict, by the first of its names that is not `None`.
pub record Request : Type 0 where
  pub city : Value
  pub days : Value
  pub persons : Value
  pub stay_nights : Value
  pub budget : Budget
  pub start_date : Value
  pub end_date : Value
  pub hotel_tier : Value
  pub preferences : List String

-- `separator.join(texts)`
unfoldable pub join : String → List String → String
join separator [] = ""
join separator (s ∷ []) = s
join separator (s ∷ t ∷ rest) = s +ₛ separator +ₛ join separator (t ∷ rest)

unfoldable pub fingerprint_parts : Request → List String
unfolding java_string budget_value join
fingerprint_parts r =
    java_string true r.city
    ∷ java_string false r.days
    ∷ java_string false r.persons
    ∷ java_string false r.stay_nights
    ∷ java_string false (budget_value r.budget)
    ∷ java_string false r.start_date
    ∷ java_string false r.end_date
    ∷ java_string true r.hotel_tier
    ∷ join "," r.preferences
    ∷ []

-- `digest` is the hexadecimal SHA-256 of hashlib.
unfoldable pub request_fingerprint : (String → String) → Request → String
unfolding fingerprint_parts
request_fingerprint digest r = digest (join "|" (fingerprint_parts r))
