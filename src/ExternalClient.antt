-- ===== src/ExternalClient.antt =====
-- travel-agent-python/app/common/external_client.py: the client of one outside source, with its cache,
-- its throttle by lanes, its breaker and its retries. Instants and durations are milliseconds.
-- The loader is a parameter: it takes the instant at which it is asked, and gives its value, `none`
-- where it raises, and the time it takes. `time.sleep` sleeps for what it is told.
mod Slots
mod Outcomes
mod Failures
mod Tests
use travel_assistant.Base.{
  ℕ, zero, suc, ◌+◌, ◌-◌, String, Bool, true, false, ◌||◌, Option, none, some, List, [], ◌∷◌, max,
  leb, ltb, if◌then◌else◌, ◌==◌, string_eq,
}
use travel_assistant.Dict.{lookup, insert, erase}
use travel_assistant.Dict.Bounded.{put_bounded}

abbrev pub interactive : String
interactive = "interactive"

abbrev pub background : String
background = "background"

unfoldable pub lane_min_interval : String → ℕ
lane_min_interval lane = if lane == "interactive" then 200 else 1000

pub record Settings : Type 0 where
  pub ttl : ℕ
  pub negative_ttl : ℕ
  pub max_response_bytes : ℕ
  pub max_entries : ℕ
  pub max_wait : ℕ
  pub min_interval : Option ℕ
  pub retry_attempts : ℕ
  pub retry_backoff : ℕ
  pub circuit_failure_threshold : ℕ
  pub circuit_cooldown : ℕ

-- What a loader returns: `None`, a list, or another value.
pub data Answer {ℓ} (T : Type ℓ) : Type ℓ where
  null : Answer T
  items : List T → Answer T
  one : T → Answer T

pub record Client {ℓ} (T : Type ℓ) : Type ℓ where
  pub cache : List (String × (Answer T × ℕ))
  pub lane_last : List (String × ℕ)
  pub consecutive_failures : ℕ
  pub breaker_open_until : ℕ

abbrev pub present : Option String → String
present none = ""
present (some text) = text

-- `strip` is Python's.
unfoldable pub resolve_key : (String → String) → List (Option String) → Option String
resolve_key strip [] = none
resolve_key strip (candidate ∷ candidates) =
    let rest = resolve_key strip candidates in
    if strip (present candidate) == "" then rest else some (strip (present candidate))

-- `self.min_interval_seconds or …`
unfoldable pub interval : Settings → String → ℕ
unfolding lane_min_interval
interval s lane = elim s.min_interval [
  | none ↦ lane_min_interval lane
  | some zero ↦ lane_min_interval lane
  | some (suc n) ↦ suc n
]

abbrev pub or_never : Option ℕ → ℕ
or_never none = 0
or_never (some t) = t

-- A call through the clock: the instants at which the loader was asked, the instant at the end, and
-- the client.
pub record Trace {ℓ} (T : Type ℓ) : Type ℓ where
  pub asked : List ℕ
  pub ended : ℕ
  pub client : Client T

module _ {ℓ} {T : Type ℓ} (s : Settings) where
  unfoldable pub is_negative : Answer T → Bool
  is_negative null = true
  is_negative (items []) = true
  is_negative (items (x ∷ xs)) = false
  is_negative (one x) = false

  unfoldable pub cached : ℕ → String → Client T → Option (Answer T) × Client T
  cached now cache_key c = elim (lookup cache_key c.cache) [
    | none ↦ (none, c)
    | some (value, expires_at) ↦
        if leb expires_at now
        then (none, record c { cache = erase cache_key c.cache })
        else (some value, c)
  ]

  unfoldable pub store : ℕ → String → Answer T → Client T → Client T
  unfolding is_negative
  store now cache_key value c =
      let ttl = (if is_negative value then s.negative_ttl else s.ttl) in
      if leb ttl 0 then c else record c {
        cache =
            put_bounded (λ entry. entry.1) s.max_entries now cache_key (value, now + ttl) c.cache;
      }

  -- The wait until the slot that the call got, or `none` where it gives up.
  unfoldable pub acquire_slot : ℕ → String → Client T → Option ℕ × Client T
  acquire_slot now lane c =
      let scheduled = max now (or_never (lookup lane c.lane_last) + interval s lane) in
      if ltb s.max_wait (scheduled - now)
      then (none, c)
      else (some (scheduled - now), record c { lane_last = insert lane scheduled c.lane_last })

  unfoldable pub breaker_open : ℕ → Client T → Bool
  breaker_open now c = ltb now c.breaker_open_until

  unfoldable pub record_outcome : ℕ → Bool → Client T → Client T
  record_outcome now false c = record c { consecutive_failures = 0 }
  record_outcome now true c =
      if ltb (suc c.consecutive_failures) s.circuit_failure_threshold
      then record c { consecutive_failures = suc c.consecutive_failures }
      else if ltb now c.breaker_open_until
      then record c { consecutive_failures = suc c.consecutive_failures }
      else record c { consecutive_failures = 0; breaker_open_until = now + s.circuit_cooldown }

  unfoldable pub clear_cache : Client T → Client T
  clear_cache c = record c { cache = [] }

  unfoldable pub reset_runtime_state : Client T → Client T
  reset_runtime_state c = record c {
    lane_last = [];
    consecutive_failures = 0;
    breaker_open_until = 0;
  }

  -- `loader()` once, then the attempts that are left.
  unfoldable pub attempts :
      (ℕ → Option (Answer T) × ℕ) → String → ℕ → ℕ → Client T → (Answer T × Bool) × Trace T
  attempts loader lane zero now c = elim (loader now).0 [
    | some value ↦
        ((value, false), record { asked = now ∷ []; ended = now + (loader now).1; client = c })
    | none ↦ ((null, true), record { asked = now ∷ []; ended = now + (loader now).1; client = c })
  ]
  attempts loader lane (suc left) now c =
      let later = now + (loader now).1 + s.retry_backoff in
      let (slot, c') = acquire_slot later lane c in
      let wait = or_never slot in
      let (answer, rest) = attempts loader lane left (later + wait) c' in
      elim (loader now).0 [
        | some value ↦
            ((value, false), record { asked = now ∷ []; ended = now + (loader now).1; client = c })
        | none ↦ elim slot [
          | none ↦ ((null, true), record { asked = now ∷ []; ended = later; client = c' })
          | some _ ↦ (answer, record rest { asked = now ∷ rest.asked })
        ]
      ]

  unfoldable pub call_with_retry :
      (ℕ → Option (Answer T) × ℕ) → String → ℕ → Client T → (Answer T × Bool) × Trace T
  unfolding attempts
  call_with_retry loader lane now c = attempts loader lane s.retry_attempts now c

  unfoldable pub call :
      (ℕ → Option (Answer T) × ℕ) → String → String → ℕ → Client T → Answer T × Trace T
  unfolding breaker_open call_with_retry
  call loader lane cache_key now c =
      let (hit, c1) = cached now cache_key c in
      elim hit [
        | some value ↦ (value, record { asked = []; ended = now; client = c1 })
        | none ↦
            if breaker_open now c1
            then (null, record { asked = []; ended = now; client = c1 })
            else (let (slot, c2) = acquire_slot now lane c1 in
                elim slot [
                  | none ↦ (null, record { asked = []; ended = now; client = c2 })
                  | some wait ↦
                      let ((result, failed), t) = call_with_retry loader lane (now + wait) c2 in
                      let c3 = record_outcome t.ended failed t.client in
                      (result, record t { client = store t.ended cache_key result c3 })
                ])
      ]

-- `payload` is absent, or has this many bytes.
unfoldable pub clamp_bytes : Settings → Option ℕ → Option ℕ
clamp_bytes s none = none
clamp_bytes s (some bytes) = if ltb s.max_response_bytes bytes then none else some bytes
