-- ===== src/CollaborationService.antt =====
-- travel-agent-python/app/services/collaboration_service.py with the access checks of
-- services/itinerary_query.py: who may see and change a trip, and the invitations. The digest of a token
-- (hashlib's SHA-256) is a parameter; the ids of new rows are the database's.
mod Invitations
mod Access
mod Tests
use travel_assistant.Base.{
  ℕ, ◌+◌, ◌*◌, String, Bool, true, false, not, ◌&&◌, ◌||◌, Option, none, some, List, [], ◌∷◌, ◌++◌,
  map, leb, if◌then◌else◌, ◌==◌, string_eq, nat_eq, keep, is_some, is_none,
}
use travel_assistant.DayPersistence.{Main, head}

-- Seven days, in milliseconds.
abbrev pub invitation_ttl : ℕ
invitation_ttl = 7 * 86_400_000

pub record Invitation : Type 0 where
  pub id : ℕ
  pub itinerary_id : ℕ
  pub role : String
  pub token_hash : String
  pub expires_at : ℕ
  pub accepted_at : Option ℕ
  pub accepted_by : Option ℕ
  pub revoked_at : Option ℕ

pub record Member : Type 0 where
  pub id : ℕ
  pub itinerary_id : ℕ
  pub user_id : ℕ
  pub role : String

-- The rows that a session shows.
pub record Team : Type 0 where
  pub mains : List Main
  pub invitations : List Invitation
  pub members : List Member

-- The messages of `ApiError`.
pub data Denied : Type 0 where
  bad_role no_trip read_only no_invitation used_before revoked used expired already_member
        no_member :
      Denied

pub data Answer {ℓ} (A : Type ℓ) : Type ℓ where
  denied : Denied → Answer A
  done : A → Answer A

-- The rows after an operation: a transaction that raises changes nothing.
abbrev pub after : Answer Team → Team → Team
after (denied e) before = before
after (done t) before = t

unfoldable pub find_main : ℕ → Team → Option Main
unfolding keep
find_main itinerary_id t = head (keep (λ main. main.id == itinerary_id) t.mains)

unfoldable pub member_of : ℕ → ℕ → List Member → Option Member
unfolding keep
member_of itinerary_id user_id members =
    head (keep (λ m. m.itinerary_id == itinerary_id && m.user_id == user_id) members)

abbrev pub role_of : Option Member → Option String
role_of none = none
role_of (some m) = some m.role

-- `_member_role`
unfoldable pub member_role : ℕ → ℕ → Team → Option String
unfolding member_of
member_role itinerary_id user_id t = role_of (member_of itinerary_id user_id t.members)

unfoldable pub require_main : ℕ → ℕ → Team → Answer Main
unfolding find_main member_role
require_main user_id itinerary_id t = elim (find_main itinerary_id t) [
  | none ↦ denied no_trip
  | some main ↦
      if not (main.user_id == user_id) && is_none (member_role itinerary_id user_id t)
      then denied no_trip
      else done main
]

abbrev pub is_editor : Option String → Bool
is_editor none = false
is_editor (some role) = role == "editor"

unfoldable pub require_writable_main : ℕ → ℕ → Team → Answer Main
unfolding find_main member_role
require_writable_main user_id itinerary_id t = elim (find_main itinerary_id t) [
  | none ↦ denied no_trip
  | some main ↦
      if not (main.user_id == user_id) && not (is_editor (member_role itinerary_id user_id t))
      then (if is_none (member_role itinerary_id user_id t)
          then denied no_trip
          else denied read_only)
      else done main
]

unfoldable pub require_owned_main : ℕ → ℕ → Team → Answer Main
unfolding find_main
require_owned_main user_id itinerary_id t = elim (find_main itinerary_id t) [
  | none ↦ denied no_trip
  | some main ↦ if main.user_id == user_id then done main else denied no_trip
]

pub data Stage : Type 0 where
  was_accepted was_revoked was_expired is_pending : Stage

unfoldable pub invitation_status : Invitation → ℕ → Stage
invitation_status row now =
    if is_some row.accepted_at
    then was_accepted
    else if is_some row.revoked_at
    then was_revoked
    else if leb row.expires_at now
    then was_expired
    else is_pending

unfoldable pub is_role : String → Bool
is_role role = role == "editor" || role == "viewer"

unfoldable pub update_invitation : ℕ → (Invitation → Invitation) → List Invitation → List Invitation
update_invitation id f rows = map (λ row. if row.id == id then f row else row) rows

-- The guard that the owner's operations share.
unfoldable pub as_owner : ℕ → ℕ → Answer Team → Team → Answer Team
as_owner user_id itinerary_id result t = elim (require_owned_main user_id itinerary_id t) [
  | denied e ↦ denied e
  | done main ↦ result
]

unfoldable pub revoke_invitation : ℕ → ℕ → ℕ → ℕ → Team → Answer Team
unfolding update_invitation keep
revoke_invitation now user_id itinerary_id invitation_id t =
    as_owner user_id itinerary_id
      (elim (head
        (keep (λ row. row.id == invitation_id && row.itinerary_id == itinerary_id) t.invitations)) [
          | none ↦ denied no_invitation
          | some row ↦
              if is_some row.accepted_at
              then denied used_before
              else done (record t {
                invitations =
                    update_invitation row.id (λ row. record row { revoked_at = some now })
                      t.invitations;
              })
        ])
      t

unfoldable pub require_member : ℕ → ℕ → Team → Option Member
unfolding keep
require_member itinerary_id member_id t =
    head (keep (λ m. m.id == member_id && m.itinerary_id == itinerary_id) t.members)

unfoldable pub update_member_role : ℕ → ℕ → ℕ → String → Team → Answer Team
update_member_role user_id itinerary_id member_id role t =
    if not (is_role role)
    then denied bad_role
    else as_owner user_id itinerary_id
        (elim (require_member itinerary_id member_id t) [
          | none ↦ denied no_member
          | some m ↦ done (record t {
            members = map (λ n. if n.id == m.id then record n { role = role } else n) t.members;
          })
        ])
        t

unfoldable pub remove_member : ℕ → ℕ → ℕ → Team → Answer Team
unfolding keep
remove_member user_id itinerary_id member_id t =
    as_owner user_id itinerary_id
      (elim (require_member itinerary_id member_id t) [
        | none ↦ denied no_member
        | some m ↦ done (record t { members = keep (λ n. not (n.id == m.id)) t.members })
      ])
      t

module _ (hash_token : String → String) where
  unfoldable pub create_invitation : ℕ → ℕ → String → ℕ → ℕ → String → Team → Answer Team
  create_invitation now new_id token user_id itinerary_id role t =
      if not (is_role role)
      then denied bad_role
      else as_owner user_id itinerary_id
          (done (record t {
            invitations =
                t.invitations
                ++ record {
                  id = new_id;
                  itinerary_id = itinerary_id;
                  role = role;
                  token_hash = hash_token token;
                  expires_at = now + invitation_ttl;
                  accepted_at = none;
                  accepted_by = none;
                  revoked_at = none;
                }
                  ∷ [];
          }))
          t

  unfoldable pub by_token : String → List Invitation → Option Invitation
  unfolding keep
  by_token token rows = head (keep (λ row. row.token_hash == hash_token token) rows)

  -- `flushes` is false where the database reports a violated unique key.
  unfoldable pub accept_invitation : ℕ → ℕ → Bool → ℕ → String → Team → Answer Team
  unfolding update_invitation
  accept_invitation now new_id flushes user_id token t = elim (by_token token t.invitations) [
    | none ↦ denied no_invitation
    | some row ↦ elim (find_main row.itinerary_id t) [
      | none ↦ denied no_trip
      | some main ↦
          if is_some row.revoked_at
          then denied revoked
          else if is_some row.accepted_at
          then denied used
          else if leb row.expires_at now
          then denied expired
          else if is_some (member_of row.itinerary_id user_id t.members)
          then denied already_member
          else if flushes
          then done (record t {
            members =
                t.members
                ++ record {
                  id = new_id;
                  itinerary_id = row.itinerary_id;
                  user_id = user_id;
                  role = row.role;
                }
                  ∷ [];
            invitations =
                update_invitation row.id
                  (λ row. record row { accepted_at = some now; accepted_by = some user_id })
                  t.invitations;
          })
          else denied already_member
    ]
  ]
