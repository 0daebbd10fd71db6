-- ===== src/TokenRevocation.antt =====
-- travel-agent-python/app/common/token_revocation.py: the blacklist of revoked tokens. The digest of a
-- token (hashlib's SHA-256) and `settings.jwt_revocation_prefer_redis` are parameters. Instants are
-- milliseconds; the local table holds whole seconds, as the source does.
mod Tests
use travel_assistant.Base.{
  ℕ, ◌+◌, ◌*◌, ◌/◌, ◌≤◌, ◌≡◌, ◌≢◌, ◌∙◌, String, Bool, true, false, ◌||◌, Option, none, some, List,
  [], ◌∷◌, arith, ltb, leb, if◌then◌else◌, ◌==◌, string_eq, nat_eq,
}
use travel_assistant.Dict.{lookup, insert, erase, lookup-insert}
use travel_assistant.RedisClient.{
  Breaker, Moment, try_redis, try_redis_raised, reset_for_tests as reset_client,
}

abbrev pub Blacklist : Type 0
Blacklist = List (String × ℕ)

unfoldable pub reset_for_tests : Breaker × Blacklist → Breaker × Blacklist
unfolding reset_client
reset_for_tests (b, bl) = (reset_client b, [])

module _ (token_hash : String → String) (prefer_redis : Bool) where
  -- `reply` is the server's to `SET … EX`.
  unfoldable pub revoke :
      Moment → Option (Unit {0}) → String → ℕ → Breaker × Blacklist → Breaker × Blacklist
  unfolding try_redis insert
  revoke at reply token ttl_seconds (b, bl) =
      if token == "" || ttl_seconds == 0
      then (b, bl)
      else let store = insert (token_hash token) (at.wall / 1000 + ttl_seconds) bl in
        if prefer_redis
        then (let (answer, b') = try_redis at reply b in
            elim answer [ some _ ↦ (b', bl) | none ↦ (b', store) ])
        else (b, store)

  is_revoked_local : ℕ → String → Blacklist → Bool × Blacklist
  unfolding lookup erase
  is_revoked_local now key bl = elim (lookup key bl) [
    | none ↦ (false, bl)
    | some expires_at ↦ if ltb (expires_at * 1000) now then (false, erase key bl) else (true, bl)
  ]

  -- `reply` is the server's to `EXISTS`.
  unfoldable pub is_revoked :
      Moment → Option Bool → String → Breaker × Blacklist → Bool × (Breaker × Blacklist)
  unfolding try_redis is_revoked_local
  is_revoked at reply token (b, bl) =
      if token == ""
      then (false, (b, bl))
      else if prefer_redis
      then (let (answer, b') = try_redis at reply b in
          elim answer [
            | some true ↦ (true, (b', bl))
            | _ ↦
                let (found, bl') = is_revoked_local at.wall (token_hash token) bl in
                (found, (b', bl'))
          ])
      else (let (found, bl') = is_revoked_local at.wall (token_hash token) bl in (found, (b, bl')))

  -- Without Redis (not preferred, or it raises) a revoked token is revoked until its time to live has
  -- passed since the start of the whole second in which it was revoked, this instant included, and
  -- after that it is not: up to a second before its time to live is over.
  pub is_revoked-revoke :
      (at later : Moment) (token : String) (ttl_seconds : ℕ) (s : Breaker × Blacklist)
      → token ≢ ""
      → ttl_seconds ≢ 0
      → (is_revoked later none token (revoke at none token ttl_seconds s)).0
        ≡ leb later.wall ((at.wall / 1000 + ttl_seconds) * 1000)
  unfolding revoke is_revoked
  is_revoked-revoke at later token ttl (b, bl) named pos =
      let expiry = at.wall / 1000 + ttl in
      ground (
        arith,
        string_eq.same_iff token "",
        string_eq.same_iff (token_hash token) (token_hash token),
        try_redis_raised {A = Unit {0}} at b,
        lookup-insert (token_hash token) (token_hash token) expiry bl,
        try_redis_raised {A = Bool} later (try_redis {A = Unit {0}} at none b).1,
      )
