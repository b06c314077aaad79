-- ===== src/Base/Search.antt =====
-- Laws of `any` and `keep_if`.
use kayak_python.Base.{
  suc, ◌≡◌, refl, Bool, true, false, not, ◌&&◌, List, [], ◌∷◌, All, any, keep_if, length, ltb,
  Bool-cases, inl, inr, arith,
}

module _ {ℓ} {A : Type ℓ} where
  pub ltb-length-keep_if :
      (p : A → Bool) (xs : List A) → ltb 1 (suc (length (keep_if p xs))) ≡ any p xs
  ltb-length-keep_if p [] = refl
  ltb-length-keep_if p (x ∷ xs) = elim (Bool-cases (p x)) [
    | inl e ↦ rw (e, keep_if) (ground arith)
    | inr e ↦ rw (e, keep_if) (ltb-length-keep_if p xs)
  ]

  pub any-keep_if : (p f : A → Bool) (xs : List A) → any p (keep_if f xs) ≡ any (λ x. f x && p x) xs
  any-keep_if p f [] = refl
  any-keep_if p f (x ∷ xs) = ground (arith, any-keep_if p f xs)

  pub any-ext : (p q : A → Bool) → ((x : A) → p x ≡ q x) → (xs : List A) → any p xs ≡ any q xs
  any-ext p q h [] = refl
  any-ext p q h (x ∷ xs) = ground (arith, h x, any-ext p q h xs)

  -- A test that has one value wherever another one holds.
  pub any-fixed :
      (p f : A → Bool) (b : Bool)
      → ((x : A) → p x ≡ true → f x ≡ b)
      → (xs : List A) → any (λ x. f x && p x) xs ≡ (any p xs && b)
  any-fixed p f b h [] = refl
  any-fixed p f b h (x ∷ xs) = ground (arith, h x, any-fixed p f b h xs)

  pub keep_if-keep_if :
      (p q : A → Bool) (xs : List A) → keep_if p (keep_if q xs) ≡ keep_if (λ x. q x && p x) xs
  keep_if-keep_if p q [] = refl
  keep_if-keep_if p q (x ∷ xs) = ground (arith, keep_if-keep_if p q xs)

  pub keep_if-ext :
      (p q : A → Bool) (xs : List A) → All (λ x. p x ≡ q x) xs → keep_if p xs ≡ keep_if q xs
  keep_if-ext p q [] h = refl
  keep_if-ext p q (x ∷ xs) h = ground (arith, h.0, keep_if-ext p q xs h.1)

  pub keep_if_pointwise :
      (p q : A → Bool) → ((x : A) → p x ≡ q x) → (xs : List A) → keep_if p xs ≡ keep_if q xs
  keep_if_pointwise p q h [] = refl
  keep_if_pointwise p q h (x ∷ xs) = ground (arith, h x, keep_if_pointwise p q h xs)

  pub keep_if-All : (p : A → Bool) (xs : List A) → All (λ x. p x ≡ true) xs → keep_if p xs ≡ xs
  keep_if-All p [] h = refl
  keep_if-All p (x ∷ xs) h = ground (arith, h.0, keep_if-All p xs h.1)

  pub keep_if-none_deleted :
      (p : A → Bool) (xs : List A)
      → ltb 0 (length (keep_if p xs)) ≡ false
      → keep_if (λ x. not (p x)) xs ≡ xs
  keep_if-none_deleted p [] h = refl
  keep_if-none_deleted p (x ∷ xs) h = ground (arith, keep_if-none_deleted p xs)

  pub All-mono {κ κ'} :
      {P : A → Type κ} {Q : A → Type κ'}
      → ((x : A) → P x → Q x)
      → (xs : List A) → All P xs
      → All Q xs
  All-mono f [] h = tt
  All-mono f (x ∷ xs) h = (f x h.0, All-mono f xs h.1)

  pub All-and :
      (p q : A → Bool) (xs : List A)
      → All (λ x. p x ≡ true) xs
      → All (λ x. q x ≡ true) xs
      → All (λ x. (p x && q x) ≡ true) xs
  All-and p q [] h k = tt
  All-and p q (x ∷ xs) h k = (ground (arith, h.0, k.0), All-and p q xs h.1 k.1)

  pub All-keep_if : (p : A → Bool) (xs : List A) → All (λ x. p x ≡ true) (keep_if p xs)
  All-keep_if p [] = tt
  All-keep_if p (x ∷ xs) = elim (Bool-cases (p x)) [
    | inl e ↦ rw (e, keep_if) (e, All-keep_if p xs)
    | inr e ↦ rw (e, keep_if) (All-keep_if p xs)
  ]

  any-skip :
      (r : A → A → Bool) (y : A) (ys xs : List A)
      → All (λ x. any (r x) ys ≡ true) xs
      → All (λ x. any (r x) (y ∷ ys) ≡ true) xs
  any-skip r y ys [] h = tt
  any-skip r y ys (x ∷ xs) h = (ground arith, any-skip r y ys xs h.1)

  -- Each item is found among the items by a test that relates it to itself.
  pub All-any :
      (r : A → A → Bool)
      → ((x : A) → r x x ≡ true)
      → (xs : List A) → All (λ x. any (r x) xs ≡ true) xs
  All-any r h [] = tt
  All-any r h (x ∷ xs) = (ground (arith, h x), any-skip r x xs xs (All-any r h xs))
