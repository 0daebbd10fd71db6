-- ===== src/ItineraryVersion.antt =====
-- travel-agent-python/app/services/itinerary_version.py: the snapshots of a trip, what differs between two
-- of them, and the return to one. The text of a snapshot is `json.dumps` of the trip's details; ids of new
-- rows are the database's.
pub mod Numbering
pub mod Retry
pub mod Diff
pub mod Restore
mod Tests
use travel_assistant.Base.{
  ℕ, zero, suc, ◌+◌, String, Bool, true, false, ◌&&◌, Option, none, some, List, [], ◌∷◌, ◌++◌, ltb,
  if◌then◌else◌, ◌==◌, string_eq, nat_eq, keep, any,
}
use travel_assistant.DayPersistence.{Main, text_or, first_chars}
use travel_assistant.CollaborationService.{
  Team, Denied, Answer, denied, done, require_main, require_writable_main,
}

abbrev pub max_summary : ℕ
max_summary = 255

abbrev pub max_snapshot_attempts : ℕ
max_snapshot_attempts = 3

-- A row of `itinerary_version`; the newest stands first in a table.
pub record Version : Type 0 where
  pub id : ℕ
  pub itinerary_id : ℕ
  pub user_id : ℕ
  pub parent_version_id : Option ℕ
  pub version_no : ℕ
  pub operation : String
  pub summary : String
  pub snapshot_json : String

unfoldable pub versions_of : ℕ → List Version → List Version
unfolding keep
versions_of itinerary_id rows = keep (λ v. v.itinerary_id == itinerary_id) rows

-- The row of the highest number.
unfoldable pub newest : List Version → Option Version
newest [] = none
newest (v ∷ vs) = elim (newest vs) [
  | none ↦ some v
  | some w ↦ if ltb v.version_no w.version_no then some w else some v
]

unfoldable pub latest : ℕ → List Version → Option Version
unfolding newest versions_of
latest itinerary_id rows = newest (versions_of itinerary_id rows)

abbrev pub id_of : Option Version → Option ℕ
id_of none = none
id_of (some v) = some v.id

abbrev pub next_no : Option Version → ℕ
next_no none = 1
next_no (some v) = suc v.version_no

-- The request of a snapshot: `snapshot_json` is the text of the details that the writer reads.
pub record Request : Type 0 where
  pub user_id : ℕ
  pub itinerary_id : ℕ
  pub operation : Option String
  pub summary : Option String
  pub snapshot_json : String

-- The new row as `_write_snapshot` builds it from what it has read.
unfoldable pub new_version : Request → ℕ → Option Version → Version
unfolding first_chars
new_version r id last = record {
  id = id;
  itinerary_id = r.itinerary_id;
  user_id = r.user_id;
  parent_version_id = id_of last;
  version_no = next_no last;
  operation = text_or "snapshot" r.operation;
  summary = first_chars max_summary (text_or "行程快照" r.summary);
  snapshot_json = r.snapshot_json;
}

-- The unique key `uk_itinerary_version`.
unfoldable pub taken : Version → List Version → Bool
unfolding any
taken v rows = any (λ w. w.itinerary_id == v.itinerary_id && w.version_no == v.version_no) rows

-- What an attempt ends with; `collided` is the `IntegrityError`.
pub data Attempt : Type 0 where
  refused : Denied → Attempt
  collided : Attempt
  written : Version → Attempt

-- `seen` are the rows that the attempt reads, `rows` those that are there when it is flushed.
unfoldable pub write_snapshot : Request → ℕ → Team → List Version → List Version → Attempt
unfolding latest new_version taken
write_snapshot r id team seen rows = elim (require_writable_main r.user_id r.itinerary_id team) [
  | denied e ↦ refused e
  | done main ↦
      if taken (new_version r id (latest r.itinerary_id seen)) rows
      then collided
      else written (new_version r id (latest r.itinerary_id seen))
]

-- What a call of `create_snapshot` ends with, and the rows that it leaves.
pub data Created : Type 0 where
  no_access : Denied → List Version → Created
  conflict : List Version → Created
  created : Version → List Version → Created

-- `others n rows` is the table after what other writers commit between the read and the flush of the
-- attempt that has `n` attempts after it.
unfoldable pub attempts :
    Request → ℕ → Team → (ℕ → List Version → List Version) → ℕ → List Version → Created
unfolding write_snapshot
attempts r id team others zero rows = conflict rows
attempts r id team others (suc left) rows =
    elim (write_snapshot r id team rows (others left rows)) [
      | refused e ↦ no_access e (others left rows)
      | collided ↦ attempts r id team others left (others left rows)
      | written v ↦ created v (v ∷ others left rows)
    ]

unfoldable pub create_snapshot :
    Request → ℕ → Team → (ℕ → List Version → List Version) → List Version → Created
unfolding attempts
create_snapshot r id team others rows = attempts r id team others max_snapshot_attempts rows

abbrev pub rows_of : Created → List Version
rows_of (no_access e after) = after
rows_of (conflict after) = after
rows_of (created v after) = after

-- The rows after `record_snapshot_or_log`, which only logs an error of `create_snapshot`.
unfoldable pub record_snapshot_or_log :
    Request → ℕ → Team → (ℕ → List Version → List Version) → List Version → List Version
unfolding create_snapshot
record_snapshot_or_log r id team others rows = rows_of (create_snapshot r id team others rows)
