-- ===== src/CollaborationService/Tests.antt =====
-- Witnesses and tests for the collaboration.
use travel_assistant.Base.{
  ◌≡◌, refl, string_eq, nat_eq, String, true, false, none, [], ◌∷◌, arith, keep,
}
use travel_assistant.DayPersistence.{Main}
use travel_assistant.CollaborationService.{
  Invitation, Member, Team, no_trip, read_only, denied, done, after, accept_invitation,
  remove_member, require_main, require_writable_main, require_owned_main, require_member, by_token,
  find_main, member_of, invitation_status, was_expired,
}
use travel_assistant.CollaborationService.Invitations.{
  is_denied, accept_invitation_once, accepts, removes, revokes, run,
}
use travel_assistant.CollaborationService.Access.{OneEach, run-OneEach, remove_member-require}

abbrev trip : Main
trip = record {
  id = 7;
  user_id = 1;
  city = "成都";
  days = 2;
  status = 2;
  gen_state = none;
  gen_resumed = false;
  gen_started_at = none;
  gen_finished_at = none;
  title = none;
  plan_note = none;
  trip_theme = none;
  origin_city = none;
}

abbrev ticket : Invitation
ticket = record {
  id = 3;
  itinerary_id = 7;
  role = "viewer";
  token_hash = "t";
  expires_at = 5000;
  accepted_at = none;
  accepted_by = none;
  revoked_at = none;
}

abbrev friend : Member
friend = record { id = 9; itinerary_id = 7; user_id = 4; role = "viewer" }

abbrev team : Team
team = record { mains = trip ∷ []; invitations = ticket ∷ []; members = friend ∷ [] }

abbrev digest : String → String
digest s = s

accept_invitation_once_example :
    is_denied (
      accept_invitation digest 2000 11 true 6 "t" (
        run digest
          (removes 1 7 10 ∷ revokes 1500 1 7 3 ∷ [])
          (after (accept_invitation digest 1000 10 true 5 "t" team) team)))
    ≡ true
accept_invitation_once_example =
    accept_invitation_once digest "t" 1000 10 5 team (removes 1 7 10 ∷ revokes 1500 1 7 3 ∷ []) 2000
      11 6 true true won
  where
    won : is_denied (accept_invitation digest 1000 10 true 5 "t" team) ≡ false
    won = unfold accept_invitation by_token find_main member_of keep in refl

run-OneEach_example :
    OneEach (run digest (accepts 1000 10 true 4 "t" ∷ accepts 1001 11 true 5 "t" ∷ []) team).members
run-OneEach_example =
    run-OneEach digest (accepts 1000 10 true 4 "t" ∷ accepts 1001 11 true 5 "t" ∷ []) team
      (unfold member_of keep in refl, tt)

remove_member-require_example :
    (require_main 4 7 (after (remove_member 1 7 9 team) team) ≡ denied no_trip)
    × (require_writable_main 4 7 (after (remove_member 1 7 9 team) team) ≡ denied no_trip)
remove_member-require_example =
    remove_member-require 1 7 9 team friend trip (unfold member_of keep in refl, tt)
      (unfold require_owned_main find_main keep in refl) (unfold require_member keep in refl)
      (ground arith)

viewer_only : require_writable_main 4 7 team ≡ denied read_only
unfolding require_writable_main
viewer_only = refl

viewer_reads : require_main 4 7 team ≡ done trip
unfolding require_main
viewer_reads = refl

lapsed : invitation_status ticket 5000 ≡ was_expired
unfolding invitation_status
lapsed = refl
