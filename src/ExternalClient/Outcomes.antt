-- ===== src/ExternalClient/Outcomes.antt =====
-- What a call leaves behind: a cache that stays within its limit and answers the next call.
use travel_assistant.Base.{
  ℕ, zero, suc, ◌+◌, ◌≤◌, ◌<◌, ◌≡◌, ◌≢◌, ◌∙◌, refl, sym, ap, subst, ◌⊎◌, min, String, Bool, true,
  false, Option, some, List, [], arith, length, if◌then◌else◌, string_eq, inl, inr, Bool-cases,
  Option-cases,
}
use travel_assistant.Dict.{length-erase}
use travel_assistant.Dict.Distinct.{Distinct, Distinct-erase}
use travel_assistant.Dict.Bounded.{length-put_bounded, lookup-put_bounded, Distinct-put_bounded}
use travel_assistant.ExternalClient.{
  Settings, Answer, Client, acquire_slot, attempts, call_with_retry, call, cached, breaker_open,
  record_outcome, store, is_negative, or_never,
}

module _ {ℓ} {T : Type ℓ} (s : Settings) where
  -- A cache with one entry per key, within its limit.
  pub record IsBounded (es : List (String × (Answer T × ℕ))) : Type ℓ where
    pub distinct : Distinct es
    pub within : length es ≤ s.max_entries

  cached-IsBounded :
      (cache_key : String) (now : ℕ) (c : Client T)
      → IsBounded c.cache
      → IsBounded (cached s now cache_key c).1.cache
  unfolding cached
  cached-IsBounded cache_key now c h = record {
    distinct = ground (arith, h.distinct, Distinct-erase cache_key c.cache h.distinct);
    within = ground (arith, h.within, length-erase cache_key c.cache);
  }

  acquire_slot-cache :
      (lane : String) (now : ℕ) (c : Client T) → (acquire_slot s now lane c).1.cache ≡ c.cache
  unfolding acquire_slot
  acquire_slot-cache lane now c = ground arith

  attempts-cache :
      (loader : ℕ → Option (Answer T) × ℕ) (lane : String) (left now : ℕ) (c : Client T)
      → (attempts s loader lane left now c).1.client.cache ≡ c.cache
  unfolding attempts
  attempts-cache loader lane zero now c = ground arith
  attempts-cache loader lane (suc left) now c =
      let later = now + (loader now).1 + s.retry_backoff in
      let got = acquire_slot s later lane c in
      ground (
        arith,
        acquire_slot-cache lane later c,
        attempts-cache loader lane left (later + or_never got.0) got.1,
      )

  record_outcome-cache :
      (now : ℕ) (failed : Bool) (c : Client T) → (record_outcome s now failed c).cache ≡ c.cache
  unfolding record_outcome
  record_outcome-cache now true c = ground arith
  record_outcome-cache now false c = refl

  store-IsBounded :
      (now : ℕ) (cache_key : String) (value : Answer T) (c : Client T)
      → 0 < s.max_entries
      → IsBounded c.cache
      → IsBounded (store s now cache_key value c).cache
  unfolding store
  store-IsBounded now cache_key value c pos h =
      let ttl = (if is_negative s value then s.negative_ttl else s.ttl) in
      let written : Answer T × ℕ = (value, now + ttl) in
      record {
        distinct = ground (
          arith,
          h.distinct,
          Distinct-put_bounded (λ entry. entry.1) s.max_entries now cache_key written c.cache
              h.distinct,
        );
        within = ground (
          arith,
          h.within,
          length-put_bounded (λ entry. entry.1) s.max_entries now cache_key written c.cache pos
              h.distinct h.within,
        );
      }

  -- A call leaves the cache alone, or stores its result as it ends.
  call-store :
      (loader : ℕ → Option (Answer T) × ℕ) (lane cache_key : String) (now : ℕ) (c : Client T)
      → (((call s loader lane cache_key now c).1.asked ≡ [])
          × ((call s loader lane cache_key now c).1.client.cache
              ≡ (cached s now cache_key c).1.cache))
        ⊎ ((c' : Client T) × ((c'.cache ≡ (cached s now cache_key c).1.cache)
              × ((call s loader lane cache_key now c).1.client
                  ≡ store s
                      (call s loader lane cache_key now c).1.ended
                      cache_key
                      (call s loader lane cache_key now c).0
                      c')))
  unfolding call call_with_retry
  call-store loader lane cache_key now c =
      let c1 = (cached s now cache_key c).1 in
      let got = acquire_slot s now lane c1 in
      let slot_cache = acquire_slot-cache lane now c1 in
      elim (Option-cases (cached s now cache_key c).0) [
        | inr (value, e) ↦ inl (rw (call, e) refl, rw (call, e) refl)
        | inl e ↦ elim (Bool-cases (breaker_open s now c1)) [
          | inl open_now ↦ inl (rw (call, e, open_now) refl, rw (call, e, open_now) refl)
          | inr shut ↦ elim (Option-cases got.0) [
            | inl none_left ↦
                inl (rw (call, e, shut, none_left) refl, rw (call, e, shut, none_left) slot_cache)
            | inr (wait, slot) ↦
                let tried = attempts s loader lane s.retry_attempts (now + wait) got.1 in
                inr (
                  record_outcome s tried.1.ended tried.0.1 tried.1.client,
                  (
                    record_outcome-cache tried.1.ended tried.0.1 tried.1.client
                        ∙ attempts-cache loader lane s.retry_attempts (now + wait) got.1
                        ∙ slot_cache,
                    rw (call, e, shut, slot) refl,
                  ),
                )
          ]
        ]
      ]

  -- Whatever the loader does, a call keeps the cache within its limit, which is not zero, and with
  -- one entry to a key, if it was so before.
  pub call-IsBounded :
      (loader : ℕ → Option (Answer T) × ℕ) (lane cache_key : String) (now : ℕ) (c : Client T)
      → 0 < s.max_entries
      → IsBounded c.cache
      → IsBounded (call s loader lane cache_key now c).1.client.cache
  call-IsBounded loader lane cache_key now c pos h =
      let r = call s loader lane cache_key now c in
      let start = cached-IsBounded cache_key now c h in
      elim (call-store loader lane cache_key now c) [
        | inl (_, e) ↦ subst IsBounded (sym e) start
        | inr (c', (same, e)) ↦
            subst (λ c. IsBounded c.cache) (sym e)
              (store-IsBounded r.1.ended cache_key r.0 c' pos (subst IsBounded (sym same) start))
      ]

  cached-store :
      (now later : ℕ) (cache_key : String) (value : Answer T) (c : Client T)
      → Distinct c.cache
      → later < now + s.ttl
      → later < now + s.negative_ttl
      → now ≤ later
      → (cached s later cache_key (store s now cache_key value c)).0 ≡ some value
  unfolding store cached
  cached-store now later cache_key value c d fresh fresh' after =
      let ttl = (if is_negative s value then s.negative_ttl else s.ttl) in
      let written : Answer T × ℕ = (value, now + ttl) in
      ground
        (arith, lookup-put_bounded (λ entry. entry.1) s.max_entries now cache_key written c.cache d)

  answered :
      (loader : ℕ → Option (Answer T) × ℕ) (lane cache_key : String) (now : ℕ) (c : Client T)
      (value : Answer T)
      → (cached s now cache_key c).0 ≡ some value
      → ((call s loader lane cache_key now c).0 ≡ value)
        × ((call s loader lane cache_key now c).1.asked ≡ [])
  unfolding call
  answered loader lane cache_key now c value hit = (rw (call, hit) refl, rw (call, hit) refl)

  -- What a call got from the loader answers the next call with its key, on any lane, while the
  -- shorter of the two times to live lasts: that call gets the same result and does not ask. The
  -- cache is within its limit, which is not zero, with one entry to a key.
  pub call-call :
      (loader loader' : ℕ → Option (Answer T) × ℕ) (lane lane' cache_key : String) (now later : ℕ)
      (c : Client T)
      → 0 < s.max_entries
      → IsBounded c.cache
      → (call s loader lane cache_key now c).1.asked ≢ []
      → (call s loader lane cache_key now c).1.ended ≤ later
      → later < (call s loader lane cache_key now c).1.ended + min s.ttl s.negative_ttl
      → ((call s loader' lane' cache_key later (call s loader lane cache_key now c).1.client).0
          ≡ (call s loader lane cache_key now c).0)
        × ((call s loader' lane' cache_key later
              (call s loader lane cache_key now c).1.client).1.asked
            ≡ [])
  call-call loader loader' lane lane' cache_key now later c pos h asked after before =
      let r = call s loader lane cache_key now c in
      elim (call-store loader lane cache_key now c) [
        | inl (e, _) ↦ absurd (asked e)
        | inr (c', (same, e)) ↦
            let hit =
              ap (λ c. (cached s later cache_key c).0) e
              ∙ cached-store r.1.ended later cache_key r.0 c'
                  (subst Distinct (sym same) (cached-IsBounded cache_key now c h).distinct)
                  (omega (arith, before)) (omega (arith, before)) after in
            answered loader' lane' cache_key later r.1.client r.0 hit
      ]
