-- ===== src/Dict.antt =====
-- Python's dictionaries as association lists in insertion order.
pub mod Evict
pub mod Distinct
pub mod Bounded
use travel_assistant.Base.{
  ℕ, zero, suc, ◌≤◌, ◌≡◌, refl, sym, ◌∙◌, Bool, true, false, not, ◌&&◌, Option, none, some, List,
  [], ◌∷◌, ◌++◌, map, arith, if◌then◌else◌, Compared, ◌==◌, length, keep, keep-keep, keep-true,
  keep_congr, length-keep, is_some,
}

-- `k in ks`
unfoldable pub contains {ℓ} : {K : Type ℓ} ⦃e : Compared K⦄ → K → List K → Bool
contains k [] = false
contains k (j ∷ ks) = if j == k then true else contains k ks

module _ {ℓ κ} {K : Type ℓ} {V : Type κ} ⦃e : Compared K⦄ where
  -- `d.get(k)`
  unfoldable pub lookup : K → List (K × V) → Option V
  lookup k [] = none
  lookup k ((at, found) ∷ rest) = if at == k then some found else lookup k rest

  -- `d.pop(k, None)`
  unfoldable pub erase : K → List (K × V) → List (K × V)
  unfolding keep
  erase k m = keep (λ entry. not (entry.0 == k)) m

  -- `d[k] = new`: in place where the key is there, else at the end.
  unfoldable pub insert : K → V → List (K × V) → List (K × V)
  insert k new [] = (k, new) ∷ []
  insert k new ((at, old) ∷ rest) =
      if at == k then (k, new) ∷ rest else (at, old) ∷ insert k new rest

  -- `for k in ks: d.pop(k, None)`
  unfoldable pub erase_all : List K → List (K × V) → List (K × V)
  unfolding erase
  erase_all [] m = m
  erase_all (k ∷ ks) m = erase_all ks (erase k m)

  abbrev pub keys : List (K × V) → List K
  keys d = map (λ item. item.0) d

  pub lookup-insert :
      (put asked : K) (new : V) (d : List (K × V))
      → lookup asked (insert put new d) ≡ (if put == asked then some new else lookup asked d)
  unfolding lookup insert
  lookup-insert put asked new [] = refl
  lookup-insert put asked new ((at, old) ∷ d) = ground (
    arith,
    lookup-insert put asked new d,
    e.same_iff at put,
    e.same_iff at asked,
    e.same_iff put asked,
  )

  pub lookup-erase :
      (k j : K) (m : List (K × V)) → lookup j (erase k m) ≡ (if k == j then none else lookup j m)
  unfolding lookup erase
  lookup-erase k j [] = ground arith
  lookup-erase k j ((i, w) ∷ m) =
      ground (arith, e.same_iff k j, e.same_iff i k, e.same_iff i j, lookup-erase k j m)

  pub lookup-erase_all :
      (ks : List K) (j : K) (m : List (K × V))
      → lookup j (erase_all ks m) ≡ (if contains j ks then none else lookup j m)
  unfolding erase_all contains
  lookup-erase_all [] j m = refl
  lookup-erase_all (k ∷ ks) j m =
      ground (arith, lookup-erase_all ks j (erase k m), lookup-erase k j m)

  pub length-insert :
      (k : K) (v : V) (m : List (K × V))
      → length (insert k v m) ≡ (if is_some (lookup k m) then length m else suc (length m))
  unfolding insert lookup
  length-insert k v [] = refl
  length-insert k v ((i, w) ∷ m) = ground (arith, length-insert k v m)

  pub length-erase : (k : K) (m : List (K × V)) → length (erase k m) ≤ length m
  unfolding erase
  length-erase k m = length-keep (λ entry. not (entry.0 == k)) m

  pub erase_all-keep :
      (ks : List K) (m : List (K × V))
      → erase_all ks m ≡ keep (λ entry. not (contains entry.0 ks)) m
  unfolding erase_all contains erase
  erase_all-keep [] m = sym (keep-true m)
  erase_all-keep (k ∷ ks) m =
      erase_all-keep ks (erase k m)
      ∙ keep-keep (λ entry. not (contains entry.0 ks)) (λ entry. not (entry.0 == k)) m
      ∙ keep_congr _ _ m (λ x. ground (arith, e.same_iff x.0 k, e.same_iff k x.0))

  pub length-insert-le : (k : K) (v : V) (m : List (K × V)) → length (insert k v m) ≤ suc (length m)
  length-insert-le k v m = ground (arith, length-insert k v m)
