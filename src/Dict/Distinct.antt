-- ===== src/Dict/Distinct.antt =====
-- A dictionary holds a key once, and what that says of a removal by a test on the entries.
use travel_assistant.Base.{
  ◌≡◌, refl, Bool, true, false, Option, none, some, List, [], ◌∷◌, arith, if◌then◌else◌, Compared,
  ◌==◌, keep, length, length-keep, ◌≤◌, ◌∙◌, ap,
}
use travel_assistant.Dict.{
  lookup, insert, erase, erase_all, erase_all-keep, lookup-erase_all, contains, keys,
}

module _ {ℓ κ} {K : Type ℓ} {V : Type κ} ⦃e : Compared K⦄ where
  abbrev pub Distinct : List (K × V) → Type 0
  Distinct [] = Unit
  Distinct ((k, v) ∷ m) = (contains k (keys m) ≡ false) × Distinct m

  -- The removal of `for key in [k for k, v in d.items() if p(k, v)]: d.pop(key, None)`.
  unfoldable pub drop_where : (K × V → Bool) → List (K × V) → List (K × V)
  unfolding erase_all keep
  drop_where p m = erase_all (keys (keep p m)) m

  pub length-drop_where : (p : K × V → Bool) (m : List (K × V)) → length (drop_where p m) ≤ length m
  unfolding drop_where
  length-drop_where p m = rw (erase_all-keep (keys (keep p m)) m) (length-keep _ m)

  abbrev pub test : (K × V → Bool) → K → Option V → Bool
  test p k none = false
  test p k (some v) = p (k, v)

  contains-keep :
      (p : K × V → Bool) (k : K) (m : List (K × V))
      → contains k (keys m) ≡ false
      → contains k (keys (keep p m)) ≡ false
  unfolding contains keep
  contains-keep p k [] h = refl
  contains-keep p k ((j, v) ∷ m) h = ground (arith, contains-keep p k m)

  contains-keep-lookup :
      (p : K × V → Bool) (k : K) (m : List (K × V))
      → Distinct m
      → contains k (keys (keep p m)) ≡ test p k (lookup k m)
  unfolding contains keep lookup
  contains-keep-lookup p k [] h = refl
  contains-keep-lookup p k ((j, v) ∷ m) h =
      ground (arith, e.same_iff j k, contains-keep p j m h.0, contains-keep-lookup p k m h.1)

  -- In a dictionary the removal takes a key away exactly if its entry passes the test.
  pub lookup-drop_where :
      (p : K × V → Bool) (k : K) (m : List (K × V))
      → Distinct m
      → lookup k (drop_where p m) ≡ (if test p k (lookup k m) then none else lookup k m)
  unfolding drop_where
  lookup-drop_where p k m h =
      lookup-erase_all (keys (keep p m)) k m
      ∙ ap (λ b. if b then none else lookup k m) (contains-keep-lookup p k m h)

  Distinct-keep : (p : K × V → Bool) (m : List (K × V)) → Distinct m → Distinct (keep p m)
  unfolding keep
  Distinct-keep p [] h = tt
  Distinct-keep p ((k, v) ∷ m) h = ground (arith, contains-keep p k m h.0, Distinct-keep p m h.1)

  pub Distinct-erase : (k : K) (m : List (K × V)) → Distinct m → Distinct (erase k m)
  unfolding erase
  Distinct-erase k m h = Distinct-keep _ m h

  pub Distinct-erase_all : (ks : List K) (m : List (K × V)) → Distinct m → Distinct (erase_all ks m)
  Distinct-erase_all ks m h = rw (erase_all-keep ks m) (Distinct-keep _ m h)

  pub Distinct-drop_where :
      (p : K × V → Bool) (m : List (K × V)) → Distinct m → Distinct (drop_where p m)
  unfolding drop_where
  Distinct-drop_where p m h = Distinct-erase_all (keys (keep p m)) m h

  contains-insert :
      (j k : K) (v : V) (m : List (K × V))
      → contains j (keys (insert k v m)) ≡ (if k == j then true else contains j (keys m))
  unfolding contains insert
  contains-insert j k v [] = refl
  contains-insert j k v ((i, w) ∷ m) =
      ground (arith, e.same_iff k j, e.same_iff i k, e.same_iff i j, contains-insert j k v m)

  pub Distinct-insert : (k : K) (v : V) (m : List (K × V)) → Distinct m → Distinct (insert k v m)
  unfolding insert
  Distinct-insert k v [] h = (unfold contains in refl, tt)
  Distinct-insert k v ((i, w) ∷ m) h =
      ground
        (arith, e.same_iff i k, e.same_iff k i, contains-insert i k v m, Distinct-insert k v m h.1)

  keep_absent :
      (key : K) (m : List (K × V))
      → contains key (keys m) ≡ false
      → keep (λ entry. entry.0 == key) m ≡ []
  unfolding contains keep
  keep_absent key [] h = refl
  keep_absent key (x ∷ m) h = ground (arith, keep_absent key m)

  -- At most one entry has the key.
  pub length-same_key :
      (key : K) (m : List (K × V)) → Distinct m → length (keep (λ entry. entry.0 == key) m) ≤ 1
  unfolding keep
  length-same_key key [] h = omega arith
  length-same_key key ((k, v) ∷ m) h = ground (
    arith,
    e.same_iff k key,
    length-same_key key m h.1,
    ap length (keep_absent k m h.0),
    ap (λ j. length (keep {A = K × V} (λ entry. entry.0 == j) m)),
  )
