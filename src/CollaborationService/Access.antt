-- ===== src/CollaborationService/Access.antt =====
-- Who is in a trip: one membership to a user, and none after the removal.
use travel_assistant.Base.{
  ℕ, ◌≡◌, ◌≢◌, refl, String, true, false, not, ◌&&◌, Option, none, some, List, [], ◌∷◌, ◌++◌, map,
  arith, if◌then◌else◌, ◌==◌, string_eq, nat_eq, keep, is_some, Option-cases, inl, inr,
}
use travel_assistant.DayPersistence.{Main, head}
use travel_assistant.CollaborationService.{
  Member, Team, no_trip, denied, done, after, as_owner, revoke_invitation, update_member_role,
  remove_member, create_invitation, accept_invitation, by_token, find_main, member_of, member_role,
  require_member, require_main, require_writable_main, require_owned_main,
}
use travel_assistant.CollaborationService.Invitations.{
  Op, creates, revokes, accepts, sets_role, removes, answer, run,
}

-- The unique key of the table: no user twice in a trip.
abbrev pub OneEach : List Member → Type 0
OneEach [] = Unit
OneEach (m ∷ ms) = (member_of m.itinerary_id m.user_id ms ≡ none) × OneEach ms

member_of-append :
    (i u : ℕ) (ms : List Member) (m : Member)
    → member_of i u ms ≡ none
    → (m.itinerary_id == i && m.user_id == u) ≡ false
    → member_of i u (ms ++ m ∷ []) ≡ none
unfolding member_of keep
member_of-append i u [] m h k = ground arith
member_of-append i u (n ∷ ms) m h k = ground (arith, member_of-append i u ms m)

OneEach-append :
    (ms : List Member) (m : Member)
    → OneEach ms
    → member_of m.itinerary_id m.user_id ms ≡ none
    → OneEach (ms ++ m ∷ [])
unfolding member_of keep
OneEach-append [] m o h = (refl, tt)
OneEach-append (n ∷ ms) m (one, o) h = (
  member_of-append n.itinerary_id n.user_id ms m one (
      ground (
        arith,
        nat_eq.same_iff m.itinerary_id n.itinerary_id,
        nat_eq.same_iff m.user_id n.user_id,
        nat_eq.same_iff n.itinerary_id m.itinerary_id,
        nat_eq.same_iff n.user_id m.user_id,
        h,
      )),
  OneEach-append ms m o (ground (arith, h)),
)

abbrev set_role : ℕ → String → Member → Member
set_role id role n = if n.id == id then record n { role = role } else n

member_of-set_role :
    (i u id : ℕ) (role : String) (ms : List Member)
    → member_of i u ms ≡ none
    → member_of i u (map (set_role id role) ms) ≡ none
unfolding member_of keep
member_of-set_role i u id role [] h = refl
member_of-set_role i u id role (n ∷ ms) h = ground (arith, member_of-set_role i u id role ms)

OneEach-set_role :
    (id : ℕ) (role : String) (ms : List Member) → OneEach ms → OneEach (map (set_role id role) ms)
OneEach-set_role id role [] o = tt
OneEach-set_role id role (n ∷ ms) (one, o) = ground (
  arith,
  member_of-set_role n.itinerary_id n.user_id id role ms one,
  OneEach-set_role id role ms o,
)

abbrev without : ℕ → List Member → List Member
without id ms = keep (λ n. not (n.id == id)) ms

member_of-without :
    (i u id : ℕ) (ms : List Member) → member_of i u ms ≡ none → member_of i u (without id ms) ≡ none
unfolding member_of keep
member_of-without i u id [] h = refl
member_of-without i u id (n ∷ ms) h = ground (arith, member_of-without i u id ms)

OneEach-without : (id : ℕ) (ms : List Member) → OneEach ms → OneEach (without id ms)
unfolding keep
OneEach-without id [] o = tt
OneEach-without id (n ∷ ms) (one, o) =
    ground (arith, member_of-without n.itinerary_id n.user_id id ms one, OneEach-without id ms o)

module _ (hash_token : String → String) where
  OneEach-answer :
      (op : Op hash_token) (t : Team)
      → OneEach t.members
      → OneEach (after (answer hash_token op t) t).members
  unfolding answer create_invitation revoke_invitation update_member_role remove_member
      accept_invitation as_owner
  OneEach-answer (creates now new_id token user_id itinerary_id role) t o = ground (arith, o)
  OneEach-answer (revokes now user_id itinerary_id invitation_id) t o = ground (arith, o)
  OneEach-answer (accepts now new_id flushes user_id token) t o =
      elim (Option-cases (by_token hash_token token t.invitations)) [
        | inl gone ↦ ground (arith, gone, o)
        | inr (row, e) ↦ elim (Option-cases (member_of row.itinerary_id user_id t.members)) [
          | inr (m, there) ↦ ground (arith, e, there, o)
          | inl free ↦
              let joined : Member = record {
                id = new_id;
                itinerary_id = row.itinerary_id;
                user_id = user_id;
                role = row.role;
              } in
              ground (arith, e, o, OneEach-append t.members joined o free)
        ]
      ]
  OneEach-answer (sets_role user_id itinerary_id member_id role) t o =
      elim (Option-cases (require_member itinerary_id member_id t)) [
        | inl gone ↦ ground (arith, gone, o)
        | inr (m, e) ↦ ground (arith, e, o, OneEach-set_role m.id role t.members o)
      ]
  OneEach-answer (removes user_id itinerary_id member_id) t o =
      elim (Option-cases (require_member itinerary_id member_id t)) [
        | inl gone ↦ ground (arith, gone, o)
        | inr (m, e) ↦ ground (arith, e, o, OneEach-without m.id t.members o)
      ]

  -- Whatever is asked of the service, no user is twice a member of one trip, if none was before.
  pub run-OneEach :
      (ops : List (Op hash_token)) (t : Team)
      → OneEach t.members
      → OneEach (run hash_token ops t).members
  unfolding run
  run-OneEach [] t o = o
  run-OneEach (op ∷ ops) t o =
      run-OneEach ops (after (answer hash_token op t) t) (OneEach-answer op t o)

abbrev with_id : ℕ → ℕ → List Member → Option Member
with_id i id ms = head (keep (λ m. m.id == id && m.itinerary_id == i) ms)

member_of-with_id :
    (i id : ℕ) (ms : List Member) (m : Member)
    → with_id i id ms ≡ some m
    → is_some (member_of i m.user_id ms) ≡ true
unfolding member_of keep
member_of-with_id i id [] m h = ground arith
member_of-with_id i id (n ∷ ms) m h = ground (
  arith,
  member_of-with_id i id ms m,
  nat_eq.same_iff n.user_id m.user_id,
  nat_eq.same_iff n.itinerary_id i,
)

with_id-keys :
    (i id : ℕ) (ms : List Member) (m : Member)
    → with_id i id ms ≡ some m
    → (m.id ≡ id) × (m.itinerary_id ≡ i)
unfolding keep
with_id-keys i id [] m h = ground arith
with_id-keys i id (n ∷ ms) m h =
    ground
      (arith, with_id-keys i id ms m, nat_eq.same_iff n.id id, nat_eq.same_iff n.itinerary_id i)

member_of-removed :
    (i id : ℕ) (ms : List Member) (m : Member)
    → OneEach ms
    → with_id i id ms ≡ some m
    → member_of i m.user_id (without m.id ms) ≡ none
unfolding member_of keep
member_of-removed i id [] m o h = ground arith
member_of-removed i id (n ∷ ms) m (one, o) h = ground (
  arith,
  member_of-removed i id ms m o,
  member_of-without i m.user_id m.id ms,
  member_of-with_id i id ms m,
  with_id-keys i id ms m,
  one,
  nat_eq.same_iff n.id id,
  nat_eq.same_iff n.id m.id,
  nat_eq.same_iff n.itinerary_id i,
  nat_eq.same_iff n.user_id m.user_id,
)

find_main-owned :
    (user_id itinerary_id : ℕ) (t : Team) (main : Main)
    → require_owned_main user_id itinerary_id t ≡ done main
    → find_main itinerary_id t ≡ some main
unfolding require_owned_main
find_main-owned user_id itinerary_id t main owns = ground (arith, owns)

outsider :
    (user_id itinerary_id : ℕ) (t : Team) (main : Main)
    → find_main itinerary_id t ≡ some main
    → user_id ≢ main.user_id
    → member_of itinerary_id user_id t.members ≡ none
    → (require_main user_id itinerary_id t ≡ denied no_trip)
      × (require_writable_main user_id itinerary_id t ≡ denied no_trip)
unfolding require_main require_writable_main member_role
outsider user_id itinerary_id t main here other nobody =
    ground (arith, here, nobody, nat_eq.same_iff main.user_id user_id, other)

remove_member_writes :
    (user_id itinerary_id member_id : ℕ) (t : Team) (m : Member) (main : Main)
    → require_owned_main user_id itinerary_id t ≡ done main
    → require_member itinerary_id member_id t ≡ some m
    → after (remove_member user_id itinerary_id member_id t) t
      ≡ record t { members = without m.id t.members }
unfolding remove_member as_owner
remove_member_writes user_id itinerary_id member_id t m main owns here =
    rw (remove_member, as_owner, owns, here) refl

-- A member that the owner removes, and who does not own the trip, can from then on neither read nor
-- write it: both checks answer as if the trip did not exist. No user is twice a member of the trip
-- before.
pub remove_member-require :
    (user_id itinerary_id member_id : ℕ) (t : Team) (m : Member) (main : Main)
    → OneEach t.members
    → require_owned_main user_id itinerary_id t ≡ done main
    → require_member itinerary_id member_id t ≡ some m
    → m.user_id ≢ main.user_id
    → (require_main m.user_id itinerary_id
          (after (remove_member user_id itinerary_id member_id t) t)
        ≡ denied no_trip)
      × (require_writable_main m.user_id itinerary_id
            (after (remove_member user_id itinerary_id member_id t) t)
          ≡ denied no_trip)
unfolding require_member find_main
remove_member-require user_id itinerary_id member_id t m main o owns here other =
    rw (remove_member_writes user_id itinerary_id member_id t m main owns here) (
      outsider m.user_id itinerary_id (record t { members = without m.id t.members }) main
        (find_main-owned user_id itinerary_id t main owns) other
        (member_of-removed itinerary_id member_id t.members m o here))
