-- ===== src/TokenRevocation/Tests.antt =====
-- Witnesses and tests for the blacklist.
use travel_assistant.Base.{ℕ, ◌≡◌, ◌≢◌, String, true, none, [], arith, string_eq, nat_eq}
use travel_assistant.RedisClient.{Moment, closed}
use travel_assistant.TokenRevocation.{revoke, is_revoked, is_revoked-revoke}

abbrev at_wall : ℕ → Moment
at_wall t = record { wall = t; asked = t; failed = t }

abbrev same : String → String
same token = token

-- Revoked at 1.5 s for 60 s: still revoked at 61 s.
is_revoked-revoke_example :
    (is_revoked same true
      (at_wall 61_000)
      none
      "jwt"
      (revoke same true (at_wall 1500) none "jwt" 60 (closed, []))).0
    ≡ true
is_revoked-revoke_example =
    is_revoked-revoke same true (at_wall 1500) (at_wall 61_000) "jwt" 60 (closed, []) named
      (omega arith)
  where
    named : ◌≢◌ {A = String} "jwt" ""
    named = ground (arith, string_eq.same_iff "jwt" "")
