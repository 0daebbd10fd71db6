-- ===== src/CacheStore/Laws.antt =====
-- What the cache gives back, and that its table stays within its limit.
use travel_assistant.Base.{
  ℕ, ◌+◌, ◌*◌, ◌≤◌, ◌<◌, ◌≡◌, ◌≢◌, String, Bool, true, false, Option, none, some, List, [], ◌∷◌,
  arith, leb, length, if◌then◌else◌, string_eq,
}
use travel_assistant.Dict.{lookup, erase, length-erase}
use travel_assistant.Dict.Distinct.{Distinct, Distinct-erase}
use travel_assistant.Dict.Bounded.{length-put_bounded, lookup-put_bounded, Distinct-put_bounded}
use travel_assistant.RedisClient.{Moment, try_redis, try_redis_raised}
use travel_assistant.CacheStore.{
  Entries, Cache, full_key, local_put, local_get, local_cache_max_entries, clear_lapsed, encode,
  get_json, set_json, reserve, delete,
}

lookup-local_put :
    (now : ℕ) (full : String) (expires_at : ℕ) (raw : String) (es : Entries)
    → Distinct es
    → now < expires_at
    → lookup full (local_put now full expires_at raw es) ≡ some (expires_at, raw)
unfolding local_put
lookup-local_put now full expires_at raw es d later =
    lookup-put_bounded (λ entry. entry.0) local_cache_max_entries now full (expires_at, raw) es d
      later

-- The table is a dictionary within its limit.
pub record IsBounded (es : Entries) : Type 0 where
  pub distinct : Distinct es
  pub within : length es ≤ local_cache_max_entries

local_put-IsBounded :
    (now : ℕ) (full : String) (expires_at : ℕ) (raw : String) (es : Entries)
    → IsBounded es
    → IsBounded (local_put now full expires_at raw es)
unfolding local_put
local_put-IsBounded now full expires_at raw es h = record {
  distinct =
      Distinct-put_bounded (λ entry. entry.0) local_cache_max_entries now full (expires_at, raw) es
        h.distinct;
  within =
      length-put_bounded (λ entry. entry.0) local_cache_max_entries now full (expires_at, raw) es
        (omega arith) h.distinct h.within;
}

erase-IsBounded : (full : String) (es : Entries) → IsBounded es → IsBounded (erase full es)
erase-IsBounded full es h = record {
  distinct = Distinct-erase full es h.distinct;
  within = omega (arith, length-erase full es, h.within);
}

module _ {V : Type 0} (dumps : V → String) (loads : String → Option V) (sentinel : String) where
  -- With Redis away, what was cached is read until its time to live is over, and not after; the
  -- value has to come back from its text, and its text must not be the sentinel. The time to live
  -- is not zero, and the table has one entry to a key.
  pub get_json-set_json :
      (at later : Moment) (namespace key : String) (v : V) (ttl_seconds : ℕ) (c : Cache)
      → Distinct c.1
      → 0 < ttl_seconds
      → loads (dumps v) ≡ some v
      → dumps v ≢ sentinel
      → (get_json dumps loads sentinel later none namespace key
          (set_json dumps loads sentinel at none namespace key (some v) ttl_seconds c)).0
        ≡ (if leb later.wall (at.wall + ttl_seconds * 1000) then some v else none)
  unfolding get_json set_json
  get_json-set_json at later namespace key v ttl (b, es) d pos back plain =
      let full = full_key namespace key in
      let expiry = at.wall + ttl * 1000 in
      let b' = (try_redis {A = Unit {0}} at none b).1 in
      ground (
        arith,
        try_redis_raised {A = Unit {0}} at b,
        try_redis_raised {A = Option String} later b',
        lookup-local_put at.wall full expiry (dumps v) es d (omega arith),
        string_eq.same_iff (dumps v) sentinel,
      )

  -- With Redis away, a key that was reserved is not reserved again before its time to live is over,
  -- which is not zero; the table has one entry to a key before.
  pub reserve-reserve :
      (at later : Moment) (namespace key : String) (v w : Option V) (ttl_seconds ttl' : ℕ)
      (c : Cache)
      → Distinct c.1
      → (reserve dumps loads sentinel at none namespace key v ttl_seconds c).0 ≡ true
      → later.wall < at.wall + ttl_seconds * 1000
      → 0 < ttl_seconds
      → (reserve dumps loads sentinel later none namespace key w ttl'
          (reserve dumps loads sentinel at none namespace key v ttl_seconds c).1).0
        ≡ false
  unfolding reserve clear_lapsed
  reserve-reserve at later namespace key v w ttl ttl' (b, es) d won before pos =
      let full = full_key namespace key in
      let expiry = at.wall + ttl * 1000 in
      let raw = encode dumps loads sentinel v in
      ground (
        arith,
        try_redis_raised {A = Option Bool} at b,
        try_redis_raised {A = Option Bool} later (try_redis {A = Option Bool} at none b).1,
        lookup-local_put at.wall full expiry raw es d (omega arith),
        lookup-local_put at.wall full expiry raw (erase full es) (Distinct-erase full es d)
            (omega arith),
      )

  -- A call of the public functions, with the readings of the clock and the server's reply.
  pub data Call : Type 0 where
    get : Moment → Option (Option String) → String → String → Call
    set : Moment → Option (Unit {0}) → String → String → Option V → ℕ → Call
    claim : Moment → Option (Option Bool) → String → String → Option V → ℕ → Call
    drop : Moment → Option (Unit {0}) → String → String → Call

  unfoldable pub step : Call → Cache → Cache
  step (get at reply namespace key) c = (get_json dumps loads sentinel at reply namespace key c).1
  step (set at reply namespace key v ttl) c =
      set_json dumps loads sentinel at reply namespace key v ttl c
  step (claim at reply namespace key v ttl) c =
      (reserve dumps loads sentinel at reply namespace key v ttl c).1
  step (drop at reply namespace key) c = delete at reply namespace key c

  unfoldable pub run : List Call → Cache → Cache
  run [] c = c
  run (call ∷ calls) c = run calls (step call c)

  step-IsBounded : (call : Call) (c : Cache) → IsBounded c.1 → IsBounded (step call c).1
  unfolding step get_json set_json reserve delete local_get clear_lapsed
  step-IsBounded (get at reply namespace key) (b, es) h =
      ground (arith, erase-IsBounded (full_key namespace key) es h)
  step-IsBounded (set at reply namespace key v ttl) (b, es) h = ground (
    arith,
    local_put-IsBounded at.wall (full_key namespace key) (at.wall + ttl * 1000)
        (encode dumps loads sentinel v) es h,
  )
  step-IsBounded (claim at reply namespace key v ttl) (b, es) h =
      let full = full_key namespace key in
      let expiry = at.wall + ttl * 1000 in
      let raw = encode dumps loads sentinel v in
      ground (
        arith,
        erase-IsBounded full es h,
        local_put-IsBounded at.wall full expiry raw es h,
        local_put-IsBounded at.wall full expiry raw (erase full es) (erase-IsBounded full es h),
      )
  step-IsBounded (drop at reply namespace key) (b, es) h =
      ground (arith, erase-IsBounded (full_key namespace key) es h)

  -- Whatever the calls, the keys, the clock and the server's replies, the table of this process stays
  -- a dictionary of at most `LOCAL_CACHE_MAX_ENTRIES` keys, if it was one before.
  pub run-IsBounded : (calls : List Call) (c : Cache) → IsBounded c.1 → IsBounded (run calls c).1
  unfolding run
  run-IsBounded [] c h = h
  run-IsBounded (call ∷ calls) c h = run-IsBounded calls (step call c) (step-IsBounded call c h)
