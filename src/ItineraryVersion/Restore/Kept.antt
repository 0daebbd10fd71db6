-- ===== src/ItineraryVersion/Restore/Kept.antt =====
-- Comprehensions that keep everything or nothing.
use travel_assistant.Base.{
  ◌≡◌, refl, ap, Bool, true, false, not, List, [], ◌∷◌, ◌++◌, arith, keep, keep-append, append_nil,
  All, ◌∙◌, Bool-cases, inl, inr,
}

module _ {ℓ} {A : Type ℓ} where
  pub All-weaken {κ κ'} :
      (P : A → Type κ) (Q : A → Type κ') (xs : List A) → ((x : A) → P x → Q x) → All P xs → All Q xs
  All-weaken P Q [] f h = tt
  All-weaken P Q (x ∷ xs) f h = (f x h.0, All-weaken P Q xs f h.1)

  pub All-append {κ} : (P : A → Type κ) (xs ys : List A) → All P xs → All P ys → All P (xs ++ ys)
  All-append P [] ys h k = k
  All-append P (x ∷ xs) ys h k = (h.0, All-append P xs ys h.1 k)

  pub All-keep {κ} : (P : A → Type κ) (p : A → Bool) (xs : List A) → All P xs → All P (keep p xs)
  unfolding keep
  All-keep P p [] h = tt
  All-keep P p (x ∷ xs) h = elim (Bool-cases (p x)) [
    | inl stays ↦ rw (stays) (h.0, All-keep P p xs h.1)
    | inr goes ↦ rw (goes) (All-keep P p xs h.1)
  ]

  pub keep_whole : (p : A → Bool) (xs : List A) → All (λ x. p x ≡ true) xs → keep p xs ≡ xs
  unfolding keep
  keep_whole p [] h = refl
  keep_whole p (x ∷ xs) h = rw (h.0) (ap (λ l. x ∷ l) (keep_whole p xs h.1))

  pub keep_nothing : (p : A → Bool) (xs : List A) → All (λ x. p x ≡ false) xs → keep p xs ≡ []
  unfolding keep
  keep_nothing p [] h = refl
  keep_nothing p (x ∷ xs) h = rw (h.0) (keep_nothing p xs h.1)

  pub keep_both : (p : A → Bool) (xs : List A) → keep p (keep (λ x. not (p x)) xs) ≡ []
  unfolding keep
  keep_both p [] = refl
  keep_both p (x ∷ xs) = ground (arith, keep_both p xs)

  pub keep_twice : (p : A → Bool) (xs : List A) → keep p (keep p xs) ≡ keep p xs
  unfolding keep
  keep_twice p [] = refl
  keep_twice p (x ∷ xs) = ground (arith, keep_twice p xs)

  -- Old entries replaced by new ones: the new ones are found, and the others are those of before.
  pub keep_replaced :
      (p : A → Bool) (old new : List A)
      → All (λ x. p x ≡ true) new
      → keep p (keep (λ x. not (p x)) old ++ new) ≡ new
  keep_replaced p old new h =
      keep-append p (keep (λ x. not (p x)) old) new
      ∙ ap (λ l. l ++ keep p new) (keep_both p old)
      ∙ keep_whole p new h

  pub keep_unreplaced :
      (p : A → Bool) (old new : List A)
      → All (λ x. not (p x) ≡ false) new
      → keep (λ x. not (p x)) (keep (λ x. not (p x)) old ++ new) ≡ keep (λ x. not (p x)) old
  keep_unreplaced p old new h =
      keep-append (λ x. not (p x)) (keep (λ x. not (p x)) old) new
      ∙ ap (λ l. keep (λ x. not (p x)) (keep (λ x. not (p x)) old) ++ l)
          (keep_nothing (λ x. not (p x)) new h)
      ∙ append_nil _
      ∙ keep_twice (λ x. not (p x)) old
