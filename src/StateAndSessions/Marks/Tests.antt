-- ===== src/StateAndSessions/Marks/Tests.antt =====
-- Witnesses and tests for the marks.
use travel_assistant.Base.{
  ℕ, ◌≡◌, refl, String, true, false, none, some, List, [], ◌∷◌, arith, ◌≢◌, string_eq,
}
use travel_assistant.RedisClient.{Moment, closed, is_down}
use travel_assistant.Dict.{lookup}
use travel_assistant.StateAndSessions.Marks.{try_mark, bound_marks, Call, mark, ask, release, run}
use travel_assistant.StateAndSessions.Marks.Answers.{try_mark_null_twice}
use travel_assistant.StateAndSessions.Marks.Exclusion.{try_mark_excludes}

abbrev at_wall : ℕ → Moment
at_wall t = record { wall = t; asked = t; failed = t }

abbrev calls : List Call
calls =
    mark (at_wall 2000) none "gen:day:1:1" 300
    ∷ ask (at_wall 3000) (some true) "gen:day:1:2"
    ∷ release (at_wall 4000) none "gen:day:1:2"
    ∷ []

try_mark_excludes_example :
    (try_mark
      (at_wall 300_999)
      none
      "gen:day:1:1"
      60
      (run calls (try_mark (at_wall 1000) none "gen:day:1:1" 300 (closed, [])).1)).0
    ≡ false
try_mark_excludes_example =
    try_mark_excludes (at_wall 1000) (at_wall 300_999) "gen:day:1:1" 300 60 calls (closed, []) tt
      won (omega arith, (omega arith, (other, tt))) (omega arith)
  where
    won : (try_mark (at_wall 1000) none "gen:day:1:1" 300 (closed, [])).0 ≡ true
    won = unfold try_mark in refl

    other : ◌≢◌ {A = String} "gen:day:1:2" "gen:day:1:1"
    other = ground (arith, string_eq.same_iff "gen:day:1:2" "gen:day:1:1")

try_mark_null_twice_example :
    ((try_mark (at_wall 1000) (some (some true)) "gen:resume:7" 600 (closed, [])).0 ≡ true)
    × ((try_mark
          (at_wall 2000)
          (some none)
          "gen:resume:7"
          600
          (try_mark (at_wall 1000) (some (some true)) "gen:resume:7" 600 (closed, [])).1).0
        ≡ true)
try_mark_null_twice_example =
    try_mark_null_twice (at_wall 1000) (at_wall 2000) "gen:resume:7" 600 600 (closed, []) up1 up2
      free (unfold bound_marks in omega arith)
  where
    up1 : is_down 1000 closed ≡ false
    up1 = unfold is_down in refl

    up2 : is_down 2000 closed ≡ false
    up2 = unfold is_down in refl

    free : lookup "gen:resume:7" (bound_marks 2000 []).1 ≡ none
    free = unfold bound_marks lookup in refl
