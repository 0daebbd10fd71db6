-- ===== src/ItineraryVersion/Diff/Laws.antt =====
-- What the changes that `diff` lists say of the two snapshots.
use travel_assistant.Base.{
  ℕ, String, ◌≡◌, refl, inl, inr, true, false, ◌&&◌, Compared, Option, none, some, List, [], ◌∷◌,
  ◌++◌, if◌then◌else◌, ◌==◌, string_eq, arith, is_none, is_some, Bool-cases, Option-cases,
}
use travel_assistant.Dict.{contains, lookup, insert, erase, keys, lookup-insert, lookup-erase}
use travel_assistant.Dict.Distinct.{Distinct, Distinct-insert}
use travel_assistant.ItineraryVersion.Diff.{
  ItemSnapshot, DaySnapshot, ChangeKind, updated, removed, added, Change, item_key, index_items,
  index_days, item_index, removals, additions, item_changes,
}

module _ {V : Type 0} where
  contains-lookup :
      (k : String) (m : List (String × V)) → contains k (keys m) ≡ is_some (lookup k m)
  unfolding contains lookup
  contains-lookup k [] = refl
  contains-lookup k ((j, v) ∷ m) = ground (arith, contains-lookup k m)

  index_items-Distinct :
      (day_no : Option ℕ) (items : List (ItemSnapshot V)) (index : List (String × V))
      → Distinct index
      → Distinct (index_items day_no items index)
  unfolding index_items
  index_items-Distinct day_no [] index d = d
  index_items-Distinct day_no (item ∷ items) index d =
      index_items-Distinct day_no items _
        (Distinct-insert (item_key day_no item) item.value index d)

  index_days-Distinct :
      (days : List (DaySnapshot V)) (index : List (String × V))
      → Distinct index
      → Distinct (index_days days index)
  unfolding index_days
  index_days-Distinct [] index d = d
  index_days-Distinct (day ∷ days) index d =
      index_days-Distinct days _ (index_items-Distinct day.day_no day.items index d)

  pub item_index-Distinct : (days : List (DaySnapshot V)) → Distinct (item_index days)
  unfolding item_index
  item_index-Distinct days = index_days-Distinct days [] tt

  -- A change made to a dictionary of entries.
  abbrev pub put_value : Option V → String → List (String × V) → List (String × V)
  put_value none key m = m
  put_value (some v) key m = insert key v m

  abbrev pub change : ChangeKind → Change V → List (String × V) → List (String × V)
  change removed c m = erase c.key m
  change added c m = put_value c.after c.key m
  change updated c m = put_value c.after c.key m

  unfoldable pub apply : List (Change V) → List (String × V) → List (String × V)
  unfolding insert erase
  apply [] m = m
  apply (c ∷ cs) m = apply cs (change c.kind c m)

  apply-append :
      (cs ds : List (Change V)) (m : List (String × V)) → apply (cs ++ ds) m ≡ apply ds (apply cs m)
  unfolding apply
  apply-append [] ds m = refl
  apply-append (c ∷ cs) ds m = apply-append cs ds (change c.kind c m)

  module _ ⦃c : Compared V⦄ where
    lookup-removals :
        (k : String) (before after m : List (String × V))
        → lookup k (apply (removals before after) m)
          ≡ (if contains k (keys before) && is_none (lookup k after) then none else lookup k m)
    unfolding removals apply contains
    lookup-removals k [] after m = refl
    lookup-removals k ((j, v) ∷ before) after m = elim (Option-cases (lookup j after)) [
      | inl e ↦
          rw (removals, e)
            (ground (
              arith,
              lookup-removals k before after (erase j m),
              lookup-erase j k m,
              string_eq.same_iff j k,
              e,
            ))
      | inr (w, e) ↦
          rw (removals, e)
            (ground (arith, lookup-removals k before after m, string_eq.same_iff j k, e))
    ]

    -- `m` has what `before` has at the keys of `after`.
    abbrev pub Agrees : List (String × V) → List (String × V) → List (String × V) → Type 0
    Agrees before after m =
        (k : String) → contains k (keys after) ≡ true → lookup k m ≡ lookup k before

    abbrev pub Brings : List (String × V) → List (String × V) → Type 0
    Brings before after =
        (m : List (String × V))
        → Agrees before after m
        → (k : String)
        → lookup k (apply (additions before after) m)
          ≡ (if contains k (keys after) then lookup k after else lookup k m)

    -- The step of the loop over the entries of `after`, with the change `n` that it makes.
    Brings-put :
        (before after : List (String × V)) (j : String) (v : V) (m n : List (String × V))
        → contains j (keys after) ≡ false
        → ((k : String) → lookup k n ≡ (if j == k then some v else lookup k m))
        → Agrees before ((j, v) ∷ after) m
        → Brings before after
        → (k : String)
        → lookup k (apply (additions before after) n)
          ≡ (if contains k (keys ((j, v) ∷ after)) then lookup k ((j, v) ∷ after) else lookup k m)
    unfolding contains lookup
    Brings-put before after j v m n fresh put_at agrees brings k = ground (
      arith,
      brings n
          (λ (i : String) (there : contains i (keys after) ≡ true).
            ground (arith, agrees i, put_at i, string_eq.same_iff j i, fresh, there))
          k,
      put_at k,
      string_eq.same_iff j k,
      fresh,
    )

    additions-Brings : (before after : List (String × V)) → Distinct after → Brings before after
    unfolding additions apply contains
    additions-Brings before [] d m agrees k = refl
    additions-Brings before ((j, v) ∷ after) d m agrees k = elim (Option-cases (lookup j before)) [
      | inl e ↦
          rw (additions, e)
            (Brings-put before after j v m (insert j v m) d.0 (λ i. lookup-insert j i v m) agrees
              (additions-Brings before after d.1) k)
      | inr (w, e) ↦ elim (Bool-cases (w == v)) [
        | inl same ↦
            rw (additions, e, same)
              (Brings-put before after j v m m d.0
                (λ i. ground (
                  arith,
                  agrees j,
                  string_eq.same_iff j j,
                  string_eq.same_iff j i,
                  c.same_iff w v,
                  e,
                ))
                agrees (additions-Brings before after d.1) k)
        | inr other ↦
            rw (additions, e, other)
              (Brings-put before after j v m (insert j v m) d.0 (λ i. lookup-insert j i v m) agrees
                (additions-Brings before after d.1) k)
      ]
    ]

    pub brought :
        (before after : List (String × V))
        → Distinct after
        → (k : String) → lookup k (apply (item_changes before after) before) ≡ lookup k after
    unfolding item_changes
    brought before after d k =
        let there = contains-lookup k after in
        let gone = lookup-removals k before after before in
        let was = contains-lookup k before in
        let brings =
          additions-Brings before after d (apply (removals before after) before)
            (λ i h.
              ground (arith, lookup-removals i before after before, contains-lookup i after, h))
            k in
        rw (item_changes, apply-append (removals before after) (additions before after) before)
          (ground (arith, brings, gone, was, there))
