-- ===== src/Dict/Evict.antt =====
-- `sorted(d.items(), key=…)[:n]` and the removal of its keys: how the bounded tables of the program
-- make room.
use travel_assistant.Base.{
  ℕ, zero, suc, ◌+◌, none, false, keep-true, ◌-◌, ◌≤◌, ◌≡◌, refl, ap, ◌∙◌, Bool, true, not, List,
  [], ◌∷◌, arith, leb, if◌then◌else◌, Compared, length, length-append, take, drop, take-append-drop,
  length-drop, keep, keep_cons, keep-append, length-keep, All, ◌==◌,
}
use travel_assistant.Dict.Distinct.{Distinct, Distinct-erase_all}
use travel_assistant.Dict.{erase_all, erase_all-keep, contains, keys, lookup, lookup-erase_all}

module _ {ℓ} {A : Type ℓ} (score : A → ℕ) where
  -- A stable insertion: before the entries of the same score, which follow in the list.
  insert_by : A → List A → List A
  insert_by x [] = x ∷ []
  insert_by x (y ∷ ys) = if leb (score x) (score y) then x ∷ y ∷ ys else y ∷ insert_by x ys

  -- Python's `sorted`, which is stable.
  unfoldable pub sort_by : List A → List A
  unfolding insert_by
  sort_by [] = []
  sort_by (x ∷ xs) = insert_by x (sort_by xs)

  -- Sorting keeps each entry as often as it was there.
  length-keep-insert_by :
      (p : A → Bool) (x : A) (ys : List A)
      → length (keep p (insert_by x ys)) ≡ length (keep p (x ∷ ys))
  unfolding insert_by keep
  length-keep-insert_by p x [] = refl
  length-keep-insert_by p x (y ∷ ys) = ground (arith, length-keep-insert_by p x ys)

  pub length-keep-sort_by :
      (p : A → Bool) (xs : List A) → length (keep p (sort_by xs)) ≡ length (keep p xs)
  unfolding sort_by
  length-keep-sort_by p [] = refl
  length-keep-sort_by p (x ∷ xs) =
      length-keep-insert_by p x (sort_by xs) ∙ keep_cons p x _ xs (length-keep-sort_by p xs)

  length-insert_by : (x : A) (ys : List A) → length (insert_by x ys) ≡ suc (length ys)
  unfolding insert_by
  length-insert_by x [] = refl
  length-insert_by x (y ∷ ys) = ground (arith, length-insert_by x ys)

  pub length-sort_by : (xs : List A) → length (sort_by xs) ≡ length xs
  unfolding sort_by
  length-sort_by [] = refl
  length-sort_by (x ∷ xs) = omega (arith, length-insert_by x (sort_by xs), length-sort_by xs)

module _ {ℓ κ} {K : Type ℓ} {V : Type κ} ⦃e : Compared K⦄ where
  -- `for key in sorted(d, key=score)[:n]: d.pop(key, None)`
  unfoldable pub evict_first : (K × V → ℕ) → ℕ → List (K × V) → List (K × V)
  unfolding sort_by erase_all
  evict_first score n m = erase_all (keys (take n (sort_by score m))) m

  keep_evicted :
      (front xs : List (K × V))
      → All (λ x. contains x.0 (keys front) ≡ true) xs
      → keep (λ x. not (contains x.0 (keys front))) xs ≡ []
  unfolding keep
  keep_evicted front [] h = refl
  keep_evicted front (x ∷ xs) h = ground (arith, h.0, keep_evicted front xs h.1)

  All-contains_weaken :
      (k : K) (ks : List K) (xs : List (K × V))
      → All (λ x. contains x.0 ks ≡ true) xs
      → All (λ x. contains x.0 (k ∷ ks) ≡ true) xs
  unfolding contains
  All-contains_weaken k ks [] h = tt
  All-contains_weaken k ks (x ∷ xs) h = (ground (arith, h.0), All-contains_weaken k ks xs h.1)

  All-contains-keys : (xs : List (K × V)) → All (λ x. contains x.0 (keys xs) ≡ true) xs
  unfolding contains
  All-contains-keys [] = tt
  All-contains-keys (x ∷ xs) = (
    ground (arith, e.same_iff x.0 x.0),
    All-contains_weaken x.0 (keys xs) xs (All-contains-keys xs),
  )

  -- The first `n` of the sorted entries are gone, whatever else shares their keys.
  length-keep_rest :
      (score : K × V → ℕ) (n : ℕ) (m : List (K × V))
      → length (keep (λ x. not (contains x.0 (keys (take n (sort_by score m))))) m) ≤ length m - n
  length-keep_rest score n m =
      let s = sort_by score m in
      let p : K × V → Bool = λ x. not (contains x.0 (keys (take n s))) in
      omega (
        arith,
        length-keep-sort_by score p m,
        ap (λ l. length (keep p l)) (take-append-drop n s),
        ap length (keep-append p (take n s) (drop n s)),
        length-append (keep p (take n s)) (keep p (drop n s)),
        ap length (keep_evicted (take n s) (take n s) (All-contains-keys (take n s))),
        length-keep p (drop n s),
        length-drop n s,
        length-sort_by score m,
      )

  -- Evicting `n` entries leaves at least `n` entries less (none if there are fewer).
  pub length-evict_first :
      (score : K × V → ℕ) (n : ℕ) (m : List (K × V)) → length (evict_first score n m) ≤ length m - n
  unfolding evict_first
  length-evict_first score n m =
      rw (erase_all-keep (keys (take n (sort_by score m))) m) (length-keep_rest score n m)

  -- The candidates of `sorted((k for k in d if k != key), key=score)`.
  abbrev pub others : K → List (K × V) → List (K × V)
  others key m = keep (λ entry. not (entry.0 == key)) m

  -- `for k in sorted((k for k in d if k != key), key=score)[:n]: d.pop(k, None)`
  unfoldable pub evict_first_but : K → (K × V → ℕ) → ℕ → List (K × V) → List (K × V)
  unfolding sort_by erase_all keep
  evict_first_but key score n m = erase_all (keys (take n (sort_by score (others key m)))) m

  pub length-others :
      (key : K) (p : K × V → Bool) (m : List (K × V))
      → length (keep p m)
        ≡ length (keep p (others key m)) + length (keep p (keep (λ entry. entry.0 == key) m))
  unfolding keep
  length-others key p [] = refl
  length-others key p (x ∷ m) = ground (arith, length-others key p m)

  -- Evicting `n` entries beside one key leaves at least `n` entries less, if there are so many.
  pub length-evict_first_but :
      (key : K) (score : K × V → ℕ) (n : ℕ) (m : List (K × V))
      → n ≤ length (others key m)
      → length (evict_first_but key score n m) ≤ length m - n
  unfolding evict_first_but
  length-evict_first_but key score n m fits =
      let front = keys (take n (sort_by score (others key m))) in
      let p : K × V → Bool = λ x. not (contains x.0 front) in
      omega (
        arith,
        ap length (erase_all-keep front m),
        length-others key p m,
        length-others key (λ _. true) m,
        ap length (keep-true m),
        ap length (keep-true (others key m)),
        ap length (keep-true (keep (λ entry. entry.0 == key) m)),
        length-keep_rest score n (others key m),
        length-keep p (keep (λ entry. entry.0 == key) m),
      )

  contains-insert_by :
      (key : K) (score : K × V → ℕ) (x : K × V) (ys : List (K × V))
      → contains key (keys (insert_by score x ys)) ≡ contains key (keys (x ∷ ys))
  unfolding contains insert_by
  contains-insert_by key score x [] = refl
  contains-insert_by key score x (y ∷ ys) = ground (arith, contains-insert_by key score x ys)

  contains-sort_by :
      (key : K) (score : K × V → ℕ) (xs : List (K × V))
      → contains key (keys (sort_by score xs)) ≡ contains key (keys xs)
  unfolding contains sort_by
  contains-sort_by key score [] = refl
  contains-sort_by key score (x ∷ xs) =
      contains-insert_by key score x (sort_by score xs)
      ∙ ap (λ b. if x.0 == key then true else b) (contains-sort_by key score xs)

  contains-take :
      (key : K) (n : ℕ) (xs : List (K × V))
      → contains key (keys xs) ≡ false
      → contains key (keys (take n xs)) ≡ false
  unfolding contains
  contains-take key zero xs h = refl
  contains-take key (suc n) [] h = refl
  contains-take key (suc n) (x ∷ xs) h = ground (arith, contains-take key n xs)

  contains-others : (key : K) (m : List (K × V)) → contains key (keys (others key m)) ≡ false
  unfolding contains keep
  contains-others key [] = refl
  contains-others key (x ∷ m) = ground (arith, contains-others key m)

  -- The key that is spared keeps its entry.
  pub lookup-evict_first_but :
      (key : K) (score : K × V → ℕ) (n : ℕ) (m : List (K × V))
      → lookup key (evict_first_but key score n m) ≡ lookup key m
  unfolding evict_first_but
  lookup-evict_first_but key score n m =
      let s = sort_by score (others key m) in
      lookup-erase_all (keys (take n s)) key m
      ∙ ap (λ b. if b then none else lookup key m)
          (contains-take key n s
            (contains-sort_by key score (others key m) ∙ contains-others key m))

  pub Distinct-evict_first_but :
      (key : K) (score : K × V → ℕ) (n : ℕ) (m : List (K × V))
      → Distinct m
      → Distinct (evict_first_but key score n m)
  unfolding evict_first_but
  Distinct-evict_first_but key score n m d =
      Distinct-erase_all (keys (take n (sort_by score (others key m)))) m d
