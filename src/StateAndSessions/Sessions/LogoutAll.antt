-- ===== src/StateAndSessions/Sessions/LogoutAll.antt =====
-- What `revoke_all` does to the tokens of a user.
use travel_assistant.Base.{
  ℕ, ◌+◌, ◌*◌, ◌/◌, ◌≤◌, ◌≡◌, ◌≢◌, ◌∙◌, refl, String, Bool, true, false, Option, none, some, List,
  [], ◌∷◌, arith, if◌then◌else◌, ◌==◌, string_eq, nat_eq, Bool-cases, inl, inr, Option-cases,
  ==_refl, ==_false,
}
use travel_assistant.Dict.{lookup, insert, erase, contains, lookup-insert, lookup-erase}
use travel_assistant.RedisClient.{Moment, client, note_failure, try_redis_raised, is_down}
use travel_assistant.TokenRevocation.{revoke, is_revoked}
use travel_assistant.StateAndSessions.Sessions.{
  Sessions, Server, revoke_all, revoke_local, revoke_all_local, revoke_in, revoke_members,
  revoke_remote, text_or_empty, day,
}

module _ (token_hash : String → String) (prefer_redis : Bool) where
  -- While Redis answers, the sessions in the tables of this process stay: they are not revoked and
  -- not forgotten, whoever they belong to.
  members_keep_local :
      (sv : Server) (ids : List String) (n : ℕ) (s : Sessions)
      → ((revoke_members token_hash prefer_redis sv ids n s).2.session_sets ≡ s.session_sets)
        × ((revoke_members token_hash prefer_redis sv ids n s).2.jti_to_token ≡ s.jti_to_token)
  unfolding revoke_members
  members_keep_local sv [] n s = (refl, refl)
  members_keep_local sv (jti ∷ rest) n s = elim (Option-cases (sv.token_of jti)) [
    | inl lost ↦ ground arith
    | inr (found, given) ↦
        let gone = text_or_empty found == "" in
        ground (
          arith,
          members_keep_local sv rest (if gone then n else n + 1) (
              if gone
              then s
              else revoke_in token_hash prefer_redis (sv.revoke_at jti) (sv.revoke_reply jti)
                  (text_or_empty found) day s),
        )
  ]

  -- The loop comes to its end where the server raises nowhere.
  members_done :
      (sv : Server) (ids : List String) (n : ℕ) (s : Sessions)
      → ((jti : String) → sv.token_of jti ≢ none)
      → ((jti : String) → sv.deleted jti ≢ none)
      → sv.key_deleted ≢ none
      → (revoke_members token_hash prefer_redis sv ids n s).0 ≡ true
  unfolding revoke_members
  members_done sv [] n s given gone key = ground arith
  members_done sv (jti ∷ rest) n s given gone key = elim (Option-cases (sv.token_of jti)) [
    | inl lost ↦ absurd (given jti lost)
    | inr (found, e) ↦
        let empty = text_or_empty found == "" in
        ground (
          arith,
          gone jti,
          members_done sv rest (if empty then n else n + 1)
              (if empty
                then s
                else revoke_in token_hash prefer_redis (sv.revoke_at jti) (sv.revoke_reply jti)
                    (text_or_empty found) day s)
              given gone key,
        )
  ]

  -- Where Redis is up and answers every command, `revoke_all` leaves the sessions that this process
  -- registered in its own tables as they are: their ids and their tokens stay registered.
  pub revoke_all_keeps_local :
      (at : Moment) (sv : Server) (ids : List String) (username : String) (s : Sessions)
      → is_down at.asked s.breaker ≡ false
      → sv.members ≡ some ids
      → ((jti : String) → sv.token_of jti ≢ none)
      → ((jti : String) → sv.deleted jti ≢ none)
      → sv.key_deleted ≢ none
      → ((revoke_all token_hash prefer_redis at sv username s).1.session_sets ≡ s.session_sets)
        × ((revoke_all token_hash prefer_redis at sv username s).1.jti_to_token ≡ s.jti_to_token)
  unfolding revoke_all is_down
  revoke_all_keeps_local at sv ids username s up members given gone key =
      let s' : Sessions = record s { breaker = (client at.asked s.breaker).1 } in
      ground (arith, members_done sv ids 0 s' given gone key, members_keep_local sv ids 0 s')

  abbrev AtLeast : ℕ → Option ℕ → Type 0
  AtLeast bound none = ⊥
  AtLeast bound (some expires_at) = bound ≤ expires_at

  AtLeast-some : (bound : ℕ) (o : Option ℕ) → AtLeast bound o → (e : ℕ) × (o ≡ some e) × (bound ≤ e)
  AtLeast-some bound none h = elim h [ ]
  AtLeast-some bound (some e) h = (e, refl, h)

  -- The token is in the local blacklist until the second `bound` at least.
  abbrev Blocked : ℕ → String → Sessions → Type 0
  Blocked bound token s = AtLeast bound (lookup (token_hash token) s.blacklist)

  module _ (bound : ℕ) (token : String) where
    AtLeast-if :
        (b : Bool) (e : ℕ) (o : Option ℕ)
        → bound ≤ e
        → AtLeast bound o
        → AtLeast bound (if b then some e else o)
    AtLeast-if true e o le h = le
    AtLeast-if false e o le h = h

    revoke_in-blacklist :
        (at : Moment) (t : String) (s : Sessions)
        → (revoke_in token_hash prefer_redis at none t day s).blacklist ≡ (
            if t == ""
            then s.blacklist
            else insert (token_hash t) (at.wall / 1000 + day) s.blacklist)
    unfolding revoke
    revoke_in-blacklist at t s = ground (arith, try_redis_raised {A = Unit {0}} at s.breaker)

    -- A further revocation does not shorten the time.
    revoke_in-Blocked :
        (at : Moment) (t : String) (s : Sessions)
        → bound ≤ at.wall / 1000 + day
        → Blocked bound token s
        → Blocked bound token (revoke_in token_hash prefer_redis at none t day s)
    revoke_in-Blocked at t s le h = elim (Bool-cases (t == "")) [
      | inl empty ↦ rw (revoke_in-blacklist at t s, empty) h
      | inr named ↦
          rw
            (
              revoke_in-blacklist at t s,
              named,
              lookup-insert (token_hash t) (token_hash token) (at.wall / 1000 + day) s.blacklist,
            )
            (AtLeast-if _ _ _ le h)
    ]

    revoke_in_blocks :
        (at : Moment) (s : Sessions)
        → token ≢ ""
        → bound ≤ at.wall / 1000 + day
        → Blocked bound token (revoke_in token_hash prefer_redis at none token day s)
    revoke_in_blocks at s named le =
        rw
          (
            revoke_in-blacklist at token s,
            ==_false token "" named,
            lookup-insert (token_hash token) (token_hash token) (at.wall / 1000 + day) s.blacklist,
            ==_refl (token_hash token),
          )
          le

    module _ (sv : Server) (away : (jti : String) → sv.revoke_reply jti ≡ none)
        (late : (jti : String) → bound ≤ (sv.revoke_at jti).wall / 1000 + day) where
      -- One round of the local loop.
      visit : String → Sessions → Sessions
      visit jti s =
          let t = text_or_empty (lookup jti s.jti_to_token) in
          let popped : Sessions = record s { jti_to_token = erase jti s.jti_to_token } in
          if t == ""
          then popped
          else revoke_in token_hash prefer_redis (sv.revoke_at jti) (sv.revoke_reply jti) t day
              popped

      revoke_local-visit :
          (jti : String) (rest : List String) (n : ℕ) (s : Sessions)
          → (revoke_local token_hash prefer_redis sv (jti ∷ rest) n s).1
            ≡ (revoke_local token_hash prefer_redis sv rest
                (if text_or_empty (lookup jti s.jti_to_token) == "" then n else n + 1)
                (visit jti s)).1
      unfolding revoke_local visit
      revoke_local-visit jti rest n s = refl

      visit-Blocked :
          (jti : String) (s : Sessions) → Blocked bound token s → Blocked bound token (visit jti s)
      unfolding visit
      visit-Blocked jti s h =
          let t = text_or_empty (lookup jti s.jti_to_token) in
          let popped : Sessions = record s { jti_to_token = erase jti s.jti_to_token } in
          elim (Bool-cases (t == "")) [
            | inl empty ↦ rw empty h
            | inr named ↦
                rw (named, away jti) (revoke_in-Blocked (sv.revoke_at jti) t popped (late jti) h)
          ]

      revoke_local-Blocked :
          (ids : List String) (n : ℕ) (s : Sessions)
          → Blocked bound token s
          → Blocked bound token (revoke_local token_hash prefer_redis sv ids n s).1
      revoke_local-Blocked [] n s h = unfold revoke_local in h
      revoke_local-Blocked (jti ∷ rest) n s h =
          rw (revoke_local-visit jti rest n s)
            (revoke_local-Blocked rest _ (visit jti s) (visit-Blocked jti s h))

      visit_blocks :
          (jti : String) (s : Sessions)
          → token ≢ ""
          → lookup jti s.jti_to_token ≡ some token
          → Blocked bound token (visit jti s)
      unfolding visit
      visit_blocks jti s named has =
          rw (has, ==_false token "" named, away jti)
            (revoke_in_blocks (sv.revoke_at jti)
              (record s { jti_to_token = erase jti s.jti_to_token }) named (late jti))

      tokens_visit :
          (jti j : String) (s : Sessions)
          → lookup j (visit jti s).jti_to_token
            ≡ (if jti == j then none else lookup j s.jti_to_token)
      unfolding visit
      tokens_visit jti j s = ground (arith, lookup-erase jti j s.jti_to_token)

      revoke_local_blocks :
          (jti : String) (ids : List String) (n : ℕ) (s : Sessions)
          → token ≢ ""
          → contains jti ids ≡ true
          → lookup jti s.jti_to_token ≡ some token
          → Blocked bound token (revoke_local token_hash prefer_redis sv ids n s).1
      unfolding contains
      revoke_local_blocks jti [] n s named inside has = absurd (cc)
      revoke_local_blocks jti (j ∷ rest) n s named inside has =
          rw (revoke_local-visit j rest n s) (elim (Bool-cases (j == jti)) [
            | inl same ↦
                revoke_local-Blocked rest _ (visit j s)
                  (visit_blocks j s named (rw ((string_eq.same_iff j jti).0 same) has))
            | inr other ↦
                revoke_local_blocks jti rest _ (visit j s) named (ground arith)
                  (tokens_visit j jti s ∙ rw other has)
          ])

  is_revoked-Blocked :
      (bound : ℕ) (token : String) (later : Moment) (s : Sessions)
      → token ≢ ""
      → later.wall ≤ bound * 1000
      → Blocked bound token s
      → (is_revoked token_hash prefer_redis later none token (s.breaker, s.blacklist)).0 ≡ true
  unfolding is_revoked
  is_revoked-Blocked bound token later s named before h = ground (
    arith,
    string_eq.same_iff token "",
    try_redis_raised {A = Bool} later s.breaker,
    AtLeast-some bound (lookup (token_hash token) s.blacklist) h,
  )

  -- With Redis away the whole of `revoke_all` is the local loop.
  revoke_all_away :
      (at : Moment) (sv : Server) (username : String) (ids : List String) (s : Sessions)
      → sv.members ≡ none
      → lookup username s.session_sets ≡ some ids
      → (s0 : Sessions) × (s0.jti_to_token ≡ s.jti_to_token)
        × (revoke_all token_hash prefer_redis at sv username s
            ≡ revoke_local token_hash prefer_redis sv ids 0 s0)
  unfolding revoke_all revoke_all_local
  revoke_all_away at sv username ids s away user = (
    record s {
      breaker = note_failure at.failed (client at.asked s.breaker).1;
      session_sets = erase username s.session_sets;
    },
    refl,
    elim (Bool-cases (client at.asked s.breaker).0) [
      | inl up ↦ rw (up, revoke_remote, away, user)
      | inr down ↦ rw (down, revoke_remote, user)
    ],
  )

  -- A user's session that is registered in the tables of this process is revoked by `revoke_all` while
  -- Redis is away: its token counts as revoked from then on until a day has passed since the start of
  -- the whole second of `start`, this instant included. `start` is an instant that is not after the
  -- readings of the clock in the call.
  pub is_revoked-revoke_all :
      (start : ℕ) (at later : Moment) (sv : Server) (username jti token : String)
      (ids : List String) (s : Sessions)
      → sv.members ≡ none
      → ((j : String) → sv.revoke_reply j ≡ none)
      → ((j : String) → start ≤ (sv.revoke_at j).wall)
      → lookup username s.session_sets ≡ some ids
      → contains jti ids ≡ true
      → lookup jti s.jti_to_token ≡ some token
      → token ≢ ""
      → later.wall ≤ (start / 1000 + day) * 1000
      → let s' = (revoke_all token_hash prefer_redis at sv username s).1 in
        (is_revoked token_hash prefer_redis later none token (s'.breaker, s'.blacklist)).0 ≡ true
  is_revoked-revoke_all start at later sv username jti token ids s away no_reply late user inside
        has named before =
      let (s0, tokens, same) = revoke_all_away at sv username ids s away user in
      let bound = start / 1000 + day in
      is_revoked-Blocked bound token later (revoke_all token_hash prefer_redis at sv username s).1
        named before
        (rw same (
          revoke_local_blocks bound token sv no_reply (λ j. omega (arith, late j)) jti ids 0 s0
            named inside (rw tokens has)))
