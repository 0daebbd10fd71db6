-- ===== src/ExternalClient/Failures.antt =====
-- The breaker of an outside source: calls that fail trip it, and it then keeps calls from the source.
use travel_assistant.Base.{
  ℕ, zero, suc, ◌+◌, ◌≤◌, ◌<◌, ◌≡◌, ◌≢◌, ◌∙◌, refl, sym, ap, String, true, false, Option, none,
  some, List, [], ◌∷◌, arith, length, string_eq, inl, inr, Bool-cases, Option-cases,
}
use travel_assistant.ExternalClient.{
  Settings, Answer, null, Client, acquire_slot, attempts, call_with_retry, call, cached,
  breaker_open, record_outcome, store, or_never,
}

abbrev pub or_null {ℓ} : {T : Type ℓ} → Option (Answer T) → Answer T
or_null none = null
or_null (some value) = value

-- What a caller asks for, and when. The loader is the caller's.
pub record Request {ℓ} (T : Type ℓ) : Type ℓ where
  pub loader : ℕ → Option (Answer T) × ℕ
  pub lane : String
  pub cache_key : String
  pub now : ℕ

module _ {ℓ} {T : Type ℓ} (s : Settings) where
  acquire_slot-breaker :
      (lane : String) (now : ℕ) (c : Client T)
      → ((acquire_slot s now lane c).1.consecutive_failures ≡ c.consecutive_failures)
        × ((acquire_slot s now lane c).1.breaker_open_until ≡ c.breaker_open_until)
  unfolding acquire_slot
  acquire_slot-breaker lane now c = ground arith

  cached-breaker :
      (cache_key : String) (now : ℕ) (c : Client T)
      → ((cached s now cache_key c).1.consecutive_failures ≡ c.consecutive_failures)
        × ((cached s now cache_key c).1.breaker_open_until ≡ c.breaker_open_until)
  unfolding cached
  cached-breaker cache_key now c = ground arith

  call_open :
      (loader : ℕ → Option (Answer T) × ℕ) (lane cache_key : String) (now : ℕ) (c : Client T)
      → now < c.breaker_open_until
      → ((call s loader lane cache_key now c).1.asked ≡ [])
        × ((call s loader lane cache_key now c).0 ≡ or_null (cached s now cache_key c).0)
  unfolding call breaker_open
  call_open loader lane cache_key now c before =
      let c1 = (cached s now cache_key c).1 in ground (arith, cached-breaker cache_key now c)

  store-breaker :
      (now : ℕ) (cache_key : String) (value : Answer T) (c : Client T)
      → ((store s now cache_key value c).consecutive_failures ≡ c.consecutive_failures)
        × ((store s now cache_key value c).breaker_open_until ≡ c.breaker_open_until)
  unfolding store
  store-breaker now cache_key value c = ground arith

  -- With a loader that always raises, the attempts end with a failure and leave the breaker alone.
  attempts_raise :
      (loader : ℕ → Option (Answer T) × ℕ) (lane : String) (left now : ℕ) (c : Client T)
      → ((n : ℕ) → (loader n).0 ≡ none)
      → ((attempts s loader lane left now c).0.1 ≡ true)
        × ((attempts s loader lane left now c).1.client.consecutive_failures
            ≡ c.consecutive_failures)
        × ((attempts s loader lane left now c).1.client.breaker_open_until ≡ c.breaker_open_until)
        × (now ≤ (attempts s loader lane left now c).1.ended)
  unfolding attempts
  attempts_raise loader lane zero now c raises = ground (arith, raises now)
  attempts_raise loader lane (suc left) now c raises =
      let later = now + (loader now).1 + s.retry_backoff in
      let got = acquire_slot s later lane c in
      ground (
        arith,
        raises now,
        acquire_slot-breaker lane later c,
        attempts_raise loader lane left (later + or_never got.0) got.1 raises,
      )

  abbrev pub asking : Request T → Client T → Client T
  asking r c = (call s r.loader r.lane r.cache_key r.now c).1.client

  -- When the call returns.
  abbrev pub return_of : Request T → Client T → ℕ
  return_of r c = (call s r.loader r.lane r.cache_key r.now c).1.ended

  -- The call reaches the loader, which raises whenever it is asked.
  abbrev pub Fails : Request T → Client T → Type ℓ
  Fails r c =
      ((n : ℕ) → (r.loader n).0 ≡ none)
      × ((call s r.loader r.lane r.cache_key r.now c).1.asked ≢ [])

  -- The client after some calls, one after the other.
  unfoldable pub asking_all : List (Request T) → Client T → Client T
  asking_all [] c = c
  asking_all (r ∷ rs) c = asking_all rs (asking r c)

  abbrev pub AllFail : List (Request T) → Client T → Type ℓ
  AllFail [] c = Unit
  AllFail (r ∷ rs) c = Fails r c × AllFail rs (asking r c)

  shut_since : (now : ℕ) (c : Client T) → breaker_open s now c ≡ false → c.breaker_open_until ≤ now
  unfolding breaker_open
  shut_since now c e = ground arith

  -- A call that got a slot.
  call_slot :
      (loader : ℕ → Option (Answer T) × ℕ) (lane cache_key : String) (now wait : ℕ) (c : Client T)
      → (cached s now cache_key c).0 ≡ none
      → breaker_open s now (cached s now cache_key c).1 ≡ false
      → (acquire_slot s now lane (cached s now cache_key c).1).0 ≡ some wait
      → let t =
          attempts s loader lane s.retry_attempts
            (now + wait)
            (acquire_slot s now lane (cached s now cache_key c).1).1 in
        ((call s loader lane cache_key now c).1.client
          ≡ store s t.1.ended cache_key t.0.0 (record_outcome s t.1.ended t.0.1 t.1.client))
        × ((call s loader lane cache_key now c).1.ended ≡ t.1.ended)
  unfolding call call_with_retry
  call_slot loader lane cache_key now wait c e shut slot =
      (rw (call, e, shut, slot) refl, rw (call, e, shut, slot) refl)

  -- A call that failed counts as one failure, as it ends.
  call-Fails :
      (r : Request T) (c : Client T)
      → Fails r c
      → (c' : Client T) × (c'.consecutive_failures ≡ c.consecutive_failures)
        × (c'.breaker_open_until ≤ return_of r c)
        × ((asking r c).consecutive_failures
            ≡ (record_outcome s (return_of r c) true c').consecutive_failures)
        × ((asking r c).breaker_open_until
            ≡ (record_outcome s (return_of r c) true c').breaker_open_until)
  unfolding call call_with_retry
  call-Fails r c (raises, asked) =
      let c1 = (cached s r.now r.cache_key c).1 in
      let got = acquire_slot s r.now r.lane c1 in
      elim (Option-cases (cached s r.now r.cache_key c).0) [
        | inr (value, e) ↦ absurd (asked (rw (call, e) refl))
        | inl e ↦ elim (Bool-cases (breaker_open s r.now c1)) [
          | inl open_now ↦ absurd (asked (rw (call, e, open_now) refl))
          | inr shut ↦ elim (Option-cases got.0) [
            | inl none_left ↦ absurd (asked (rw (call, e, shut, none_left) refl))
            | inr (wait, slot) ↦
                let t = attempts s r.loader r.lane s.retry_attempts (r.now + wait) got.1 in
                let tried =
                  attempts_raise r.loader r.lane s.retry_attempts (r.now + wait) got.1 raises in
                let from_slot = acquire_slot-breaker r.lane r.now c1 in
                let from_cache = cached-breaker r.cache_key r.now c in
                let made : asking r c
                    ≡ store s t.1.ended r.cache_key t.0.0
                        (record_outcome s t.1.ended t.0.1 t.1.client) =
                  (call_slot r.loader r.lane r.cache_key r.now wait c e shut slot).0 in
                let at_end : return_of r c ≡ t.1.ended =
                  (call_slot r.loader r.lane r.cache_key r.now wait c e shut slot).1 in
                let outcome : asking r c
                    ≡ store s t.1.ended r.cache_key t.0.0
                        (record_outcome s (return_of r c) true t.1.client) =
                  made
                  ∙ ap
                      (λ b.
                        store s t.1.ended r.cache_key t.0.0
                          (record_outcome s t.1.ended b t.1.client))
                      tried.0
                  ∙ ap
                      (λ n.
                        store s t.1.ended r.cache_key t.0.0 (record_outcome s n true t.1.client))
                      (sym at_end) in
                let kept =
                  store-breaker t.1.ended r.cache_key t.0.0
                    (record_outcome s (return_of r c) true t.1.client) in
                (
                  t.1.client,
                  omega (arith, tried.1, from_slot.0, from_cache.0),
                  omega (
                    arith,
                    shut_since r.now c1 shut,
                    tried.2,
                    tried.3,
                    from_slot.1,
                    from_cache.1,
                    at_end,
                  ),
                  ap (λ c. c.consecutive_failures) outcome ∙ kept.0,
                  ap (λ c. c.breaker_open_until) outcome ∙ kept.1,
                )
          ]
        ]
      ]

  failures-count :
      (rs : List (Request T)) (c : Client T)
      → AllFail rs c
      → c.consecutive_failures + length rs < s.circuit_failure_threshold
      → (asking_all rs c).consecutive_failures ≡ c.consecutive_failures + length rs
  unfolding asking_all record_outcome
  failures-count [] c all_fail h = omega arith
  failures-count (r ∷ rs) c (fails, all_fail) h =
      let (c', same, shut, count, until) = call-Fails r c fails in
      let more : (asking r c).consecutive_failures ≡ suc c.consecutive_failures =
        ground (arith, same, count, h) in
      omega (arith, more, failures-count rs (asking r c) all_fail (omega (arith, more, h)))

  tripped :
      (rs : List (Request T)) (last : Request T) (c : Client T)
      → c.consecutive_failures ≡ 0
      → suc (length rs) ≡ s.circuit_failure_threshold
      → AllFail rs c
      → Fails last (asking_all rs c)
      → (asking last (asking_all rs c)).breaker_open_until
        ≡ return_of last (asking_all rs c) + s.circuit_cooldown
  unfolding record_outcome
  tripped rs last c clear enough all_fail fails =
      let (c', same, shut, count, until) = call-Fails last (asking_all rs c) fails in
      let so_far = failures-count rs c all_fail (omega (arith, clear, enough)) in
      ground (arith, same, shut, until, so_far, clear, enough)

  -- As many calls in a row as the threshold says, counted from no failure, each of which reaches its
  -- loader, on any lane and for any key, and whose loaders always raise: they trip the breaker. From
  -- the return of the last of them until the cooldown is over, a call does not ask its loader, and
  -- gives what is cached or nothing.
  pub call-failures :
      (rs : List (Request T)) (last next : Request T) (c : Client T)
      → c.consecutive_failures ≡ 0
      → suc (length rs) ≡ s.circuit_failure_threshold
      → AllFail rs c
      → Fails last (asking_all rs c)
      → next.now < return_of last (asking_all rs c) + s.circuit_cooldown
      → let tripped_client = asking last (asking_all rs c) in
        ((call s next.loader next.lane next.cache_key next.now tripped_client).1.asked ≡ [])
        × ((call s next.loader next.lane next.cache_key next.now tripped_client).0
            ≡ or_null (cached s next.now next.cache_key tripped_client).0)
  call-failures rs last next c clear enough all_fail fails before =
      call_open next.loader next.lane next.cache_key next.now (asking last (asking_all rs c))
        (omega (arith, before, tripped rs last c clear enough all_fail fails))
