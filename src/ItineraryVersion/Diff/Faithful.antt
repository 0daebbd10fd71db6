-- ===== src/ItineraryVersion/Diff/Faithful.antt =====
-- Each change that `diff` lists is one, and tells what both snapshots have at its key.
use travel_assistant.Base.{
  String, ◌≡◌, ◌≢◌, sym, inl, inr, false, Compared, some, List, [], ◌∷◌, ◌++◌, ◌==◌, string_eq,
  arith, All, Bool-cases, Option-cases,
}
use travel_assistant.Dict.{contains, lookup, keys}
use travel_assistant.Dict.Distinct.{Distinct}
use travel_assistant.ItineraryVersion.Diff.{
  DaySnapshot, Change, item_index, removals, additions, item_changes,
}
use travel_assistant.ItineraryVersion.Diff.Laws.{apply, brought, item_index-Distinct}

module _ {V : Type 0} ⦃c : Compared V⦄ where
  -- An entry that differs: what the two dictionaries have at its key.
  abbrev pub Faithful : List (String × V) → List (String × V) → Change V → Type 0
  Faithful before after x =
      (x.before ≡ lookup x.key before) × (x.after ≡ lookup x.key after) × (x.before ≢ x.after)

  abbrev Entries : List (String × V) → List (String × V) → Type 0
  Entries m = All (λ x. lookup x.0 m ≡ some x.1)

  Entries_cons :
      (k : String) (v : V) (m n : List (String × V))
      → contains k (keys n) ≡ false
      → Entries m n
      → Entries ((k, v) ∷ m) n
  unfolding contains lookup
  Entries_cons k v m [] fresh h = tt
  Entries_cons k v m ((i, w) ∷ n) fresh h = (
    ground (arith, string_eq.same_iff k i, string_eq.same_iff i k),
    Entries_cons k v m n (ground arith) h.1,
  )

  Distinct-Entries : (m : List (String × V)) → Distinct m → Entries m m
  unfolding lookup
  Distinct-Entries [] d = tt
  Distinct-Entries ((k, v) ∷ m) d =
      (ground (arith, string_eq.same_iff k k), Entries_cons k v m m d.0 (Distinct-Entries m d.1))

  removals-Faithful :
      (all_before before after : List (String × V))
      → Entries all_before before
      → All (Faithful all_before after) (removals before after)
  unfolding removals
  removals-Faithful all_before [] after h = tt
  removals-Faithful all_before ((k, v) ∷ before) after h = elim (Option-cases (lookup k after)) [
    | inl e ↦
        rw (removals, e)
          ((sym h.0, sym e, λ p. ground arith), removals-Faithful all_before before after h.1)
    | inr (w, e) ↦ rw (removals, e) (removals-Faithful all_before before after h.1)
  ]

  additions-Faithful :
      (before all_after after : List (String × V))
      → Entries all_after after
      → All (Faithful before all_after) (additions before after)
  unfolding additions
  additions-Faithful before all_after [] h = tt
  additions-Faithful before all_after ((k, v) ∷ after) h = elim (Option-cases (lookup k before)) [
    | inl e ↦
        rw (additions, e)
          ((sym e, sym h.0, λ p. ground arith), additions-Faithful before all_after after h.1)
    | inr (w, e) ↦ elim (Bool-cases (w == v)) [
      | inl same ↦ rw (additions, e, same) (additions-Faithful before all_after after h.1)
      | inr other ↦
          rw (additions, e, other)
            (
              (sym e, sym h.0, λ p. ground (arith, c.same_iff w v)),
              additions-Faithful before all_after after h.1,
            )
    ]
  ]

  All-append :
      (P : Change V → Type 0) (xs ys : List (Change V)) → All P xs → All P ys → All P (xs ++ ys)
  All-append P [] ys hx hy = hy
  All-append P (x ∷ xs) ys hx hy = (hx.0, All-append P xs ys hx.1 hy)

  -- The changes that `diff` lists for the entries of the days bring the older snapshot's entries to the
  -- newer one's, key by key, when they are made one after the other. Each of them names what the two
  -- snapshots have at its key, and these differ; so nothing that is the same on both sides is listed.
  pub item_changes-Faithful :
      (before after : List (DaySnapshot V))
      → ((k : String)
          → lookup k
              (apply (item_changes (item_index before) (item_index after)) (item_index before))
            ≡ lookup k (item_index after))
        × All
            (Faithful (item_index before) (item_index after))
            (item_changes (item_index before) (item_index after))
  unfolding item_changes
  item_changes-Faithful before after = (
    brought (item_index before) (item_index after) (item_index-Distinct after),
    All-append _ (removals (item_index before) (item_index after))
        (additions (item_index before) (item_index after))
        (removals-Faithful (item_index before) (item_index before) (item_index after)
          (Distinct-Entries (item_index before) (item_index-Distinct before)))
        (additions-Faithful (item_index before) (item_index after) (item_index after)
          (Distinct-Entries (item_index after) (item_index-Distinct after))),
  )
