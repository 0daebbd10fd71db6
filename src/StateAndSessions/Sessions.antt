-- ===== src/StateAndSessions/Sessions.antt =====
-- The registered sessions of state_and_sessions.py: `register_session`, `revoke_current` and
-- `revoke_all`. The Redis side is what the server replies; the tables are those of this process.
mod LogoutAll
mod Tests
use travel_assistant.Base.{
  ℕ, suc, ◌+◌, String, Bool, true, false, not, ◌||◌, Option, none, some, List, [], ◌∷◌, ◌++◌, keep,
  if◌then◌else◌, ◌==◌, string_eq, nat_eq,
}
use travel_assistant.Dict.{lookup, insert, erase, contains}
use travel_assistant.RedisClient.{
  Breaker, Moment, client, note_failure, try_redis, reset_for_tests as reset_client,
}
use travel_assistant.TokenRevocation.{Blacklist, revoke}

-- `session_sets` holds the ids of a user's sessions, each once; the blacklist is that of
-- token_revocation.py, which shares the breaker.
pub record Sessions : Type 0 where
  pub breaker : Breaker
  pub session_sets : List (String × List String)
  pub jti_to_token : List (String × String)
  pub blacklist : Blacklist

abbrev jtis : Option (List String) → List String
jtis none = []
jtis (some ids) = ids

abbrev text_or_empty : Option String → String
text_or_empty none = ""
text_or_empty (some t) = t

abbrev is_ok : Option (Unit {0}) → Bool
is_ok none = false
is_ok (some _) = true

-- `set.add`
unfoldable pub add : String → List String → List String
unfolding contains
add jti ids = if contains jti ids then ids else ids ++ jti ∷ []

-- `set.discard`
unfoldable pub discard : String → List String → List String
unfolding keep
discard jti ids = keep (λ j. not (j == jti)) ids

unfoldable pub register_session :
    Moment → Option (Unit {0}) → String → String → String → ℕ → Sessions → Sessions
unfolding try_redis lookup insert add
register_session at reply username jti token ttl_seconds s =
    if username == "" || jti == "" || token == "" || ttl_seconds == 0
    then s
    else let (answer, b) = try_redis at reply s.breaker in
      elim answer [
        | some _ ↦ record s { breaker = b }
        | none ↦ record s {
          breaker = b;
          session_sets =
              insert username (add jti (jtis (lookup username s.session_sets))) s.session_sets;
          jti_to_token = insert jti token s.jti_to_token;
        }
      ]

-- The time to live where the rest of a token's life is unknown.
abbrev pub day : ℕ
day = 86_400

-- What the server says in one `revoke_all`: the members of the user's set, the token of an id, and
-- whether the deletions raise; and the clock and the server's reply when the blacklist asks.
pub record Server : Type 0 where
  pub members : Option (List String)
  pub token_of : String → Option (Option String)
  pub deleted : String → Option (Unit {0})
  pub key_deleted : Option (Unit {0})
  pub revoke_at : String → Moment
  pub revoke_reply : String → Option (Unit {0})

module _ (token_hash : String → String) (prefer_redis : Bool) where
  abbrev pub revoke_in : Moment → Option (Unit {0}) → String → ℕ → Sessions → Sessions
  revoke_in at reply token ttl_seconds s =
      let (b, bl) =
        revoke token_hash prefer_redis at reply token ttl_seconds (s.breaker, s.blacklist) in
      record s { breaker = b; blacklist = bl }

  -- The set of an unknown user is a fresh one, which is not stored.
  abbrev discard_in : String → String → Option (List String) → Sessions → Sessions
  discard_in username jti none s = s
  discard_in username jti (some ids) s = record s {
    session_sets = insert username (discard jti ids) s.session_sets;
  }

  unfoldable pub revoke_current :
      Moment
      → Option (Unit {0})
      → Moment
      → Option (Unit {0})
      → String
      → String
      → String
      → ℕ
      → Sessions
      → Sessions
  unfolding revoke try_redis lookup insert erase discard
  revoke_current revoked_at revoke_reply at reply username jti token ttl_seconds s0 =
      let s = revoke_in revoked_at revoke_reply token ttl_seconds s0 in
      let (answer, b) = try_redis at reply s.breaker in
      elim answer [
        | some _ ↦ record s { breaker = b }
        | none ↦
            let s' =
              discard_in username jti (lookup username s.session_sets) (record s { breaker = b }) in
            record s' { jti_to_token = erase jti s'.jti_to_token }
      ]

  -- The loop over the members: whether it came to its end, what was revoked, and the state.
  revoke_members : Server → List String → ℕ → Sessions → Bool × ℕ × Sessions
  unfolding revoke
  revoke_members sv [] revoked s = (is_ok sv.key_deleted, revoked, s)
  revoke_members sv (jti ∷ rest) revoked s = elim (sv.token_of jti) [
    | none ↦ (false, revoked, s)
    | some found ↦
        let token = text_or_empty found in
        let s' =
          if token == ""
          then s
          else revoke_in (sv.revoke_at jti) (sv.revoke_reply jti) token day s in
        let revoked' = if token == "" then revoked else revoked + 1 in
        elim (sv.deleted jti) [
          | none ↦ (false, revoked', s')
          | some _ ↦ revoke_members sv rest revoked' s'
        ]
  ]

  -- The part of `revoke_all` that talks to Redis; `false` stands for a client that is not there.
  revoke_remote : Server → Bool → Sessions → Bool × ℕ × Sessions
  unfolding revoke_members
  revoke_remote sv false s = (false, 0, s)
  revoke_remote sv true s = elim sv.members [
    | none ↦ (false, 0, s)
    | some ids ↦ revoke_members sv ids 0 s
  ]

  -- The part of `revoke_all` under the lock.
  unfoldable pub revoke_local : Server → List String → ℕ → Sessions → ℕ × Sessions
  unfolding revoke lookup erase
  revoke_local sv [] revoked s = (revoked, s)
  revoke_local sv (jti ∷ rest) revoked s =
      let token = text_or_empty (lookup jti s.jti_to_token) in
      let popped : Sessions = record s { jti_to_token = erase jti s.jti_to_token } in
      revoke_local sv rest (if token == "" then revoked else revoked + 1) (
        if token == ""
        then popped
        else revoke_in (sv.revoke_at jti) (sv.revoke_reply jti) token day popped)

  -- The local half starts from the count of the half that failed.
  unfoldable pub revoke_all_local : Server → String → ℕ → Sessions → ℕ × Sessions
  unfolding revoke_local lookup erase
  revoke_all_local sv username revoked s =
      revoke_local sv (jtis (lookup username s.session_sets)) revoked
        (record s { session_sets = erase username s.session_sets })

  unfoldable pub revoke_all : Moment → Server → String → Sessions → ℕ × Sessions
  unfolding client note_failure revoke_remote revoke_all_local
  revoke_all at sv username s0 =
      let (available, b) = client at.asked s0.breaker in
      let s : Sessions = record s0 { breaker = b } in
      let (done, revoked, s') = revoke_remote sv available s in
      if done
      then (revoked, s')
      else revoke_all_local sv username revoked
          (record s' { breaker = note_failure at.failed s'.breaker })

-- The part of `reset_for_tests` for the sessions; the blacklist stays.
unfoldable pub reset_for_tests : Sessions → Sessions
unfolding reset_client
reset_for_tests s = record s {
  breaker = reset_client s.breaker;
  session_sets = [];
  jti_to_token = [];
}
