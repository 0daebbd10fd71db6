-- ===== src/CacheStore.antt =====
-- travel-agent-python/app/common/cache_store.py: the namespaced cache, in Redis or in the table of this
-- process. The JSON form of a value is `dumps`, with `loads` its reader: both are the json module's,
-- parameters here. Instants are milliseconds.
mod Laws
mod Tests
use travel_assistant.Base.{
  ℕ, ◌+◌, ◌-◌, ◌*◌, String, Bool, true, false, not, ◌||◌, Option, none, some, List, [], ◌∷◌, ltb,
  leb, if◌then◌else◌, ◌==◌, ◌+ₛ◌, string_eq, length, keep, is_none,
}
use travel_assistant.Dict.{lookup, insert, erase}
use travel_assistant.Dict.Bounded.{put_bounded}
use travel_assistant.RedisClient.{Breaker, Moment, try_redis, reset_for_tests as reset_client}

abbrev pub local_cache_max_entries : ℕ
local_cache_max_entries = 4096

-- Each key with the instant when its entry lapses and the raw text.
abbrev pub Entries : Type 0
Entries = List (String × (ℕ × String))

abbrev pub Cache : Type 0
Cache = Breaker × Entries

unfoldable pub full_key : String → String → String
full_key namespace key = "py:" +ₛ namespace +ₛ ":" +ₛ key

-- `_local_put`: lapsed entries go first, then those that lapse first, never the one just written.
unfoldable pub local_put : ℕ → String → ℕ → String → Entries → Entries
unfolding put_bounded
local_put now full expires_at raw es =
    put_bounded (λ entry. entry.0) local_cache_max_entries now full (expires_at, raw) es

-- `_local_get`
unfoldable pub local_get : ℕ → String → Entries → Option String × Entries
unfolding lookup erase
local_get now full es = elim (lookup full es) [
  | none ↦ (none, es)
  | some (expires_at, raw) ↦ if ltb expires_at now then (none, erase full es) else (some raw, es)
]

-- The lapsed entry of the key goes before a reservation.
clear_lapsed : ℕ → String → Entries → Entries
unfolding lookup erase
clear_lapsed now full es = elim (lookup full es) [
  | none ↦ es
  | some (expires_at, raw) ↦ if leb expires_at now then erase full es else es
]

module _ {V : Type 0} (dumps : V → String) (loads : String → Option V) where
  -- The sentinel of an empty result, `"\x00empty"` in the source.
  module _ (empty_sentinel : String) where
    unfoldable pub encode : Option V → String
    encode none = empty_sentinel
    encode (some v) = dumps v

    unfoldable pub decode : Option String → Option V
    decode none = none
    decode (some raw) = if raw == empty_sentinel then none else loads raw

    unfoldable pub get_json :
        Moment → Option (Option String) → String → String → Cache → Option V × Cache
    unfolding full_key try_redis local_get decode
    get_json at reply namespace key (b, es) =
        let (answer, b') = try_redis at reply b in
        elim answer [
          | some raw ↦ (decode raw, (b', es))
          | none ↦
              let (raw, es') = local_get at.wall (full_key namespace key) es in
              (decode raw, (b', es'))
        ]

    unfoldable pub set_json :
        Moment → Option (Unit {0}) → String → String → Option V → ℕ → Cache → Cache
    unfolding full_key try_redis local_put encode
    set_json at reply namespace key value ttl_seconds (b, es) =
        let (answer, b') = try_redis at reply b in
        elim answer [
          | some _ ↦ (b', es)
          | none ↦ (
            b',
            local_put at.wall (full_key namespace key) (at.wall + ttl_seconds * 1000) (encode value)
                es,
          )
        ]

    -- `claimed`: `bool` of the reply to `SET … NX EX`, which is null where the key is there.
    unfoldable pub reserve :
        Moment → Option (Option Bool) → String → String → Option V → ℕ → Cache → Bool × Cache
    unfolding full_key try_redis local_put encode lookup clear_lapsed
    reserve at reply namespace key value ttl_seconds (b, es) =
        let (answer, b') = try_redis at reply b in
        elim answer [
          | some (some claimed) ↦ (claimed, (b', es))
          | some none ↦ (false, (b', es))
          | none ↦
              let full = full_key namespace key in
              let es' = clear_lapsed at.wall full es in
              if is_none (lookup full es')
              then (
                true,
                (b', local_put at.wall full (at.wall + ttl_seconds * 1000) (encode value) es'),
              )
              else (false, (b', es'))
        ]

unfoldable pub delete : Moment → Option (Unit {0}) → String → String → Cache → Cache
unfolding full_key try_redis erase
delete at reply namespace key (b, es) =
    let (answer, b') = try_redis at reply b in (b', erase (full_key namespace key) es)

unfoldable pub reset_for_tests : Cache → Cache
unfolding reset_client
reset_for_tests (b, es) = (reset_client b, [])
