-- ===== src/ExternalClient/Slots.antt =====
-- The throttle: the slots of a lane, and the instants at which the loader of a call is asked.
use travel_assistant.Base.{
  ℕ, zero, suc, ◌+◌, ◌≤◌, ◌≡◌, ◌∙◌, sym, ap, String, Option, none, some, List, [], ◌∷◌, arith, max,
  if◌then◌else◌, ◌==◌, string_eq, inl, inr, Option-cases,
}
use travel_assistant.Dict.{lookup, lookup-insert}
use travel_assistant.ExternalClient.{
  Settings, Answer, Client, interval, or_never, acquire_slot, attempts, call_with_retry, call,
  cached,
}

-- Instants from `earliest` on, each at least `gap` after the one before.
abbrev pub Spaced : ℕ → ℕ → List ℕ → Type 0
Spaced gap earliest [] = Unit
Spaced gap earliest (t ∷ ts) = (earliest ≤ t) × Spaced gap (t + gap) ts

Spaced-earlier : (gap a b : ℕ) (ts : List ℕ) → a ≤ b → Spaced gap b ts → Spaced gap a ts
Spaced-earlier gap a b [] le h = tt
Spaced-earlier gap a b (t ∷ ts) le (h, rest) = (omega arith, rest)

module _ {ℓ} {T : Type ℓ} (s : Settings) (lane : String) where
  abbrev pub last : Client T → ℕ
  last c = or_never (lookup lane c.lane_last)

  -- The slots that requests on several lanes, each at its instant, get on this one.
  unfoldable pub granted : List (String × ℕ) → Client T → List ℕ
  unfolding acquire_slot
  granted [] c = []
  granted ((l, now) ∷ requests) c =
      let (slot, c') = acquire_slot s now l c in
      let rest = granted requests c' in
      elim slot [ none ↦ rest | some wait ↦ if l == lane then (now + wait) ∷ rest else rest ]

  -- Whatever the clock reads and the other lanes do, two slots of a lane are at least its interval
  -- apart, and the first is that long after the last slot before.
  pub granted-Spaced :
      (requests : List (String × ℕ)) (c : Client T)
      → Spaced (interval s lane) (last c + interval s lane) (granted requests c)
  unfolding granted acquire_slot
  granted-Spaced [] c = tt
  granted-Spaced ((l, now) ∷ requests) c = ground (
    arith,
    string_eq.same_iff l lane,
    granted-Spaced requests c,
    granted-Spaced requests (acquire_slot s now l c).1,
    lookup-insert l lane (max now (or_never (lookup l c.lane_last) + interval s l)) c.lane_last,
  )

  acquire_slot-last :
      (now wait : ℕ) (c : Client T)
      → (acquire_slot s now lane c).0 ≡ some wait
      → (last (acquire_slot s now lane c).1 ≡ now + wait)
        × ((last c + interval s lane ≤ now + wait) × (wait ≤ s.max_wait))
  unfolding acquire_slot
  acquire_slot-last now wait c h = ground (
    arith,
    string_eq.same_iff lane lane,
    lookup-insert lane lane (max now (last c + interval s lane)) c.lane_last,
  )

  attempts-Spaced :
      (loader : ℕ → Option (Answer T) × ℕ) (left now : ℕ) (c : Client T)
      → last c ≡ now
      → Spaced (interval s lane) now (attempts s loader lane left now c).1.asked
  unfolding attempts
  attempts-Spaced loader zero now c h = ground arith
  attempts-Spaced loader (suc left) now c h =
      let later = now + (loader now).1 + s.retry_backoff in
      let got = acquire_slot s later lane c in
      elim (Option-cases got.0) [
        | inl e ↦ ground (arith, e)
        | inr (wait, e) ↦
            let (l, (n, _)) = acquire_slot-last later wait c e in
            let wait_of = ap or_never e in
            let step = l ∙ ap (λ w. later + w) (sym wait_of) in
            let rest = (attempts s loader lane left (later + or_never got.0) got.1).1.asked in
            ground (
              arith,
              e,
              Spaced-earlier (interval s lane) (now + interval s lane) (later + or_never got.0) rest
                  (omega (arith, n, wait_of, h))
                  (attempts-Spaced loader left (later + or_never got.0) got.1 step),
            )
      ]

  cached-lane_last :
      (cache_key : String) (now : ℕ) (c : Client T)
      → (cached s now cache_key c).1.lane_last ≡ c.lane_last
  unfolding cached
  cached-lane_last cache_key now c = ground arith

  -- However often a call retries, it asks the loader at instants that are the interval of its lane
  -- apart, and at the earliest that long after the last slot that the lane gave.
  pub call-Spaced :
      (loader : ℕ → Option (Answer T) × ℕ) (cache_key : String) (now : ℕ) (c : Client T)
      → Spaced
          (interval s lane)
          (last c + interval s lane)
          (call s loader lane cache_key now c).1.asked
  unfolding call call_with_retry
  call-Spaced loader cache_key now c =
      let c1 = (cached s now cache_key c).1 in
      let got = acquire_slot s now lane c1 in
      let same =
        ap {A = List (String × ℕ)} (λ ls. or_never (lookup lane ls))
          (cached-lane_last cache_key now c) in
      elim (Option-cases got.0) [
        | inl e ↦ ground (arith, e)
        | inr (wait, e) ↦
            let (l, (n, _)) = acquire_slot-last now wait c1 e in
            let asked = (attempts s loader lane s.retry_attempts (now + wait) got.1).1.asked in
            ground (
              arith,
              e,
              Spaced-earlier (interval s lane) (last c + interval s lane) (now + wait) asked
                  (omega (arith, n, same))
                  (attempts-Spaced loader s.retry_attempts (now + wait) got.1 l),
            )
      ]
