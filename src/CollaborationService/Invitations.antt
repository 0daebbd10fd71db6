-- ===== src/CollaborationService/Invitations.antt =====
-- An invitation lets one member in, once.
use travel_assistant.Base.{
  ℕ, ◌≡◌, ◌+◌, String, Bool, true, false, ◌&&◌, Option, none, some, List, [], ◌∷◌, ◌++◌, arith,
  ◌==◌, string_eq, nat_eq, keep, is_some, Option-cases, inl, inr,
}
use travel_assistant.DayPersistence.{head}
use travel_assistant.CollaborationService.{
  Invitation, Team, Answer, denied, done, after, update_invitation, as_owner, revoke_invitation,
  update_member_role, remove_member, create_invitation, by_token, accept_invitation, invitation_ttl,
}

abbrev pub is_denied : Answer Team → Bool
is_denied (denied e) = true
is_denied (done t) = false

module _ (hash_token : String → String) where
  -- One call of the service, with the reading of the clock and the ids of the database.
  pub data Op : Type 0 where
    creates : (now new_id : ℕ) (token : String) (user_id itinerary_id : ℕ) (role : String) → Op
    revokes : (now user_id itinerary_id invitation_id : ℕ) → Op
    accepts : (now new_id : ℕ) (flushes : Bool) (user_id : ℕ) (token : String) → Op
    sets_role : (user_id itinerary_id member_id : ℕ) (role : String) → Op
    removes : (user_id itinerary_id member_id : ℕ) → Op

  unfoldable pub answer : Op → Team → Answer Team
  answer (creates now new_id token user_id itinerary_id role) t =
      create_invitation hash_token now new_id token user_id itinerary_id role t
  answer (revokes now user_id itinerary_id invitation_id) t =
      revoke_invitation now user_id itinerary_id invitation_id t
  answer (accepts now new_id flushes user_id token) t =
      accept_invitation hash_token now new_id flushes user_id token t
  answer (sets_role user_id itinerary_id member_id role) t =
      update_member_role user_id itinerary_id member_id role t
  answer (removes user_id itinerary_id member_id) t = remove_member user_id itinerary_id member_id t

  unfoldable pub run : List Op → Team → Team
  run [] t = t
  run (op ∷ ops) t = run ops (after (answer op t) t)

  abbrev accepted : Option Invitation → Bool
  accepted none = false
  accepted (some row) = is_some row.accepted_at

  -- The invitation of a token is used up.
  unfoldable pub is_spent : String → List Invitation → Bool
  unfolding by_token
  is_spent token rows = accepted (by_token hash_token token rows)

  is_spent-append :
      (token : String) (rows : List Invitation) (row : Invitation)
      → is_spent token rows ≡ true
      → is_spent token (rows ++ row ∷ []) ≡ true
  unfolding is_spent keep
  is_spent-append token [] row h = ground arith
  is_spent-append token (r ∷ rows) row h = ground (arith, is_spent-append token rows row)

  is_spent-revoke :
      (token : String) (now id : ℕ) (rows : List Invitation)
      → is_spent token rows ≡ true
      → is_spent token (update_invitation id (λ row. record row { revoked_at = some now }) rows)
        ≡ true
  unfolding is_spent keep update_invitation
  is_spent-revoke token now id [] h = ground arith
  is_spent-revoke token now id (r ∷ rows) h = ground (arith, is_spent-revoke token now id rows)

  is_spent-accept :
      (token : String) (now user_id id : ℕ) (rows : List Invitation)
      → is_spent token rows ≡ true
      → is_spent token (
          update_invitation id
            (λ row. record row { accepted_at = some now; accepted_by = some user_id })
            rows)
        ≡ true
  unfolding is_spent keep update_invitation
  is_spent-accept token now user_id id [] h = ground arith
  is_spent-accept token now user_id id (r ∷ rows) h =
      ground (arith, is_spent-accept token now user_id id rows)

  is_spent-answer :
      (token : String) (op : Op) (t : Team)
      → is_spent token t.invitations ≡ true
      → is_spent token (after (answer op t) t).invitations ≡ true
  unfolding answer create_invitation revoke_invitation accept_invitation update_member_role
      remove_member as_owner
  is_spent-answer token (creates now new_id given user_id itinerary_id role) t h = ground (
    arith,
    h,
    is_spent-append token t.invitations
        (record {
          id = new_id;
          itinerary_id = itinerary_id;
          role = role;
          token_hash = hash_token given;
          expires_at = now + invitation_ttl;
          accepted_at = none;
          accepted_by = none;
          revoked_at = none;
        })
        h,
  )
  is_spent-answer token (revokes now user_id itinerary_id invitation_id) t h =
      let here =
        head (
          keep (λ row. row.id == invitation_id && row.itinerary_id == itinerary_id)
            t.invitations) in
      elim (Option-cases here) [
        | inl gone ↦ ground (arith, gone, h)
        | inr (row, e) ↦ ground (arith, e, h, is_spent-revoke token now row.id t.invitations h)
      ]
  is_spent-answer token (accepts now new_id flushes user_id given) t h =
      elim (Option-cases (by_token hash_token given t.invitations)) [
        | inl gone ↦ ground (arith, gone, h)
        | inr (row, e) ↦
            ground (arith, e, h, is_spent-accept token now user_id row.id t.invitations h)
      ]
  is_spent-answer token (sets_role user_id itinerary_id member_id role) t h = ground (arith, h)
  is_spent-answer token (removes user_id itinerary_id member_id) t h = ground (arith, h)

  is_spent-run :
      (token : String) (ops : List Op) (t : Team)
      → is_spent token t.invitations ≡ true
      → is_spent token (run ops t).invitations ≡ true
  unfolding run
  is_spent-run token [] t h = h
  is_spent-run token (op ∷ ops) t h =
      is_spent-run token ops (after (answer op t) t) (is_spent-answer token op t h)

  accept-is_spent :
      (token : String) (now id user_id : ℕ) (rows : List Invitation) (row : Invitation)
      → by_token hash_token token rows ≡ some row
      → is_spent token (
          update_invitation row.id
            (λ r. record r { accepted_at = some now; accepted_by = some user_id })
            rows)
        ≡ true
  unfolding is_spent keep update_invitation by_token
  accept-is_spent token now id user_id [] row h = ground arith
  accept-is_spent token now id user_id (r ∷ rows) row h =
      ground (arith, accept-is_spent token now id user_id rows row, nat_eq.same_iff r.id row.id)

  accepted-is_spent :
      (token : String) (now new_id user_id : ℕ) (flushes : Bool) (t : Team)
      → is_denied (accept_invitation hash_token now new_id flushes user_id token t) ≡ false
      → is_spent token
          (after (accept_invitation hash_token now new_id flushes user_id token t) t).invitations
        ≡ true
  unfolding accept_invitation
  accepted-is_spent token now new_id user_id flushes t won =
      elim (Option-cases (by_token hash_token token t.invitations)) [
        | inl gone ↦ ground (arith, gone, won)
        | inr (row, e) ↦
            ground (arith, e, won, accept-is_spent token now new_id user_id t.invitations row e)
      ]

  is_denied-is_spent :
      (token : String) (now new_id user_id : ℕ) (flushes : Bool) (t : Team)
      → is_spent token t.invitations ≡ true
      → is_denied (accept_invitation hash_token now new_id flushes user_id token t) ≡ true
  unfolding accept_invitation is_spent
  is_denied-is_spent token now new_id user_id flushes t h =
      elim (Option-cases (by_token hash_token token t.invitations)) [
        | inl gone ↦ ground (arith, gone, h)
        | inr (row, e) ↦ ground (arith, e, h)
      ]

  -- An invitation is used once: after an accepted one, whatever else is asked of the service, every
  -- attempt with the same token is denied.
  pub accept_invitation_once :
      (token : String) (now new_id user_id : ℕ) (t : Team) (ops : List Op) (later id other : ℕ)
      (flushes flushes' : Bool)
      → is_denied (accept_invitation hash_token now new_id flushes user_id token t) ≡ false
      → is_denied (
          accept_invitation hash_token later id flushes' other token
            (run ops (after (accept_invitation hash_token now new_id flushes user_id token t) t)))
        ≡ true
  accept_invitation_once token now new_id user_id t ops later id other flushes flushes' won =
      let t' = after (accept_invitation hash_token now new_id flushes user_id token t) t in
      is_denied-is_spent token later id other flushes' (run ops t')
        (is_spent-run token ops t' (accepted-is_spent token now new_id user_id flushes t won))
