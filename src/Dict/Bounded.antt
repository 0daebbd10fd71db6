-- ===== src/Dict/Bounded.antt =====
-- A bounded table of entries that lapse: a write clears the lapsed entries when the table is over its
-- limit, and then evicts those that lapse first, never the one just written. cache_store.py and
-- external_client.py both keep such a table.
use travel_assistant.Base.{
  ℕ, ◌-◌, ◌≤◌, ◌<◌, ◌≡◌, ◌∙◌, ap, true, some, List, arith, leb, ltb, length, if◌then◌else◌,
  string_eq, ◌==◌, keep, keep-true, ==_refl, lt→leb_false, Compared,
}
use travel_assistant.Dict.{lookup, insert, length-insert-le, lookup-insert}
use travel_assistant.Dict.Distinct.{
  drop_where, lookup-drop_where, length-drop_where, Distinct, Distinct-drop_where, Distinct-insert,
  length-same_key,
}
use travel_assistant.Dict.Evict.{
  evict_first_but, length-evict_first_but, lookup-evict_first_but, length-others, others,
  Distinct-evict_first_but,
}

module _ {ℓ κ} {K : Type ℓ} {V : Type κ} ⦃e : Compared K⦄ where
  unfoldable pub put_bounded : (V → ℕ) → ℕ → ℕ → K → V → List (K × V) → List (K × V)
  unfolding insert drop_where evict_first_but
  put_bounded expiry limit now key value m =
      let m' = insert key value m in
      if leb (length m') limit
      then m'
      else let live = drop_where (λ entry. leb (expiry entry.1) now) m' in
        if ltb limit (length live)
        then evict_first_but key (λ entry. expiry entry.1) (length live - limit) live
        else live

module _ {ℓ κ} {K : Type ℓ} {V : Type κ} ⦃e : Compared K⦄ (expiry : V → ℕ) (limit now : ℕ) (key : K)
    (value : V) (m : List (K × V)) where
  abbrev written : List (K × V)
  written = insert key value m

  abbrev live : List (K × V)
  live = drop_where (λ entry. leb (expiry entry.1) now) written

  Distinct-live : Distinct m → Distinct live
  Distinct-live d = Distinct-drop_where _ written (Distinct-insert key value m d)

  overflow-le-others : 0 < limit → Distinct m → length live - limit ≤ length (others key live)
  overflow-le-others pos d = omega (
    arith,
    length-others key (λ _. true) live,
    ap length (keep-true live),
    ap length (keep-true (others key live)),
    ap length (keep-true (keep (λ entry. entry.0 == key) live)),
    length-same_key key live (Distinct-live d),
  )

  pub length-put_bounded :
      0 < limit
      → Distinct m
      → length m ≤ limit
      → length (put_bounded expiry limit now key value m) ≤ limit
  unfolding put_bounded
  length-put_bounded pos d h = ground (
    arith,
    length-insert-le key value m,
    length-drop_where (λ entry. leb (expiry entry.1) now) written,
    length-evict_first_but key (λ entry. expiry entry.1) (length live - limit) live
        (overflow-le-others pos d),
  )

  lookup-live : Distinct m → now < expiry value → lookup key live ≡ some value
  lookup-live d later =
      lookup-drop_where (λ entry. leb (expiry entry.1) now) key written
        (Distinct-insert key value m d)
      ∙ rw (lookup-insert key key value m, ==_refl key, lt→leb_false (expiry value) now later)

  -- What was written is there, however full the table is.
  pub lookup-put_bounded :
      Distinct m
      → now < expiry value
      → lookup key (put_bounded expiry limit now key value m) ≡ some value
  unfolding put_bounded
  lookup-put_bounded d later = ground (
    arith,
    lookup-insert key key value m,
    e.same_iff key key,
    lookup-live d later,
    lookup-evict_first_but key (λ entry. expiry entry.1) (length live - limit) live,
  )

  pub Distinct-put_bounded : Distinct m → Distinct (put_bounded expiry limit now key value m)
  unfolding put_bounded
  Distinct-put_bounded d = ground (
    arith,
    Distinct-insert key value m d,
    Distinct-live d,
    Distinct-evict_first_but key (λ entry. expiry entry.1) (length live - limit) live
        (Distinct-live d),
  )
