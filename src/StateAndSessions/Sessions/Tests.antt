-- ===== src/StateAndSessions/Sessions/Tests.antt =====
-- Witnesses and tests for the sessions.
use travel_assistant.Base.{
  ℕ, ◌≡◌, ◌≢◌, refl, String, Option, true, false, some, none, List, [], ◌∷◌, arith, string_eq,
}
use travel_assistant.Dict.{lookup, contains}
use travel_assistant.RedisClient.{Moment, closed, is_down}
use travel_assistant.TokenRevocation.{is_revoked}
use travel_assistant.StateAndSessions.Sessions.{Sessions, Server, revoke_all, register_session}
use travel_assistant.StateAndSessions.Sessions.LogoutAll.{
  revoke_all_keeps_local, is_revoked-revoke_all,
}

abbrev at_wall : ℕ → Moment
at_wall t = record { wall = t; asked = t; failed = t }

abbrev same : String → String
same token = token

-- What `register_session` leaves for one session while Redis is away.
abbrev logged_in : Sessions
logged_in = record {
  breaker = record { built = true; down_until = 6000 };
  session_sets = ("ann", "j1" ∷ []) ∷ [];
  jti_to_token = ("j1", "jwt") ∷ [];
  blacklist = [];
}

register_session_local :
    register_session
      (at_wall 1000)
      none
      "ann"
      "j1"
      "jwt"
      3600
      (record { breaker = closed; session_sets = []; jti_to_token = []; blacklist = [] })
    ≡ logged_in
unfolding register_session
register_session_local = refl

abbrev server : Option (List String) → Server
server members = record {
  members = members;
  token_of = λ _. some none;
  deleted = λ _. some tt;
  key_deleted = some tt;
  revoke_at = λ _. at_wall 8000;
  revoke_reply = λ _. none;
}

revoke_all_keeps_local_example :
    ((revoke_all same true (at_wall 8000) (server (some [])) "ann" logged_in).1.session_sets
      ≡ ("ann", "j1" ∷ []) ∷ [])
    × ((revoke_all same true (at_wall 8000) (server (some [])) "ann" logged_in).1.jti_to_token
        ≡ ("j1", "jwt") ∷ [])
revoke_all_keeps_local_example =
    revoke_all_keeps_local same true (at_wall 8000) (server (some [])) [] "ann" logged_in up refl
      (λ jti e. cc) (λ jti e. cc) (λ e. cc)
  where
    up : is_down 8000 logged_in.breaker ≡ false
    up = unfold is_down in refl

is_revoked-revoke_all_example :
    let s' = (revoke_all same true (at_wall 8000) (server none) "ann" logged_in).1 in
    (is_revoked same true (at_wall 86_408_000) none "jwt" (s'.breaker, s'.blacklist)).0 ≡ true
is_revoked-revoke_all_example =
    is_revoked-revoke_all same true 8000 (at_wall 8000) (at_wall 86_408_000) (server none) "ann"
      "j1" "jwt" ("j1" ∷ []) logged_in refl (λ _. refl) (λ _. omega arith) user inside has named
      (omega arith)
  where
    user : lookup "ann" logged_in.session_sets ≡ some ("j1" ∷ [])
    user = unfold lookup in refl

    inside : contains {K = String} "j1" ("j1" ∷ []) ≡ true
    inside = unfold contains in refl

    has : lookup "j1" logged_in.jti_to_token ≡ some "jwt"
    has = unfold lookup in refl

    named : ◌≢◌ {A = String} "jwt" ""
    named = ground (arith, string_eq.same_iff "jwt" "")
