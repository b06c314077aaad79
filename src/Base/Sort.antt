-- ===== src/Base/Sort.antt =====
-- `sorted(xs, key=...)` as a stable insertion sort over a Boolean order.
use kayak_python.Base.{
  suc, refl, length, ◌||◌, All, Bool-cases, inl, inr, arith, ◌≡◌, Bool, true, List, [], ◌∷◌, String,
  str_leb, if◌then◌else◌, any,
}

module _ {ℓ} {A : Type ℓ} (le : A → A → Bool) where
  -- An item goes before the first one that it does not come after.
  unfoldable pub insert_sorted : A → List A → List A
  insert_sorted x [] = x ∷ []
  insert_sorted x (y ∷ ys) = if le x y then x ∷ y ∷ ys else y ∷ insert_sorted x ys

  unfoldable pub sort : List A → List A
  unfolding insert_sorted
  sort [] = []
  sort (x ∷ xs) = insert_sorted x (sort xs)

-- `sorted` on texts.
unfoldable pub sorted : List String → List String
unfolding sort
sorted = sort str_leb

-- Each item comes no later than the next.
abbrev pub IsSorted {ℓ} : {A : Type ℓ} → (A → A → Bool) → List A → Type 0
IsSorted le [] = Unit {0}
IsSorted le (x ∷ []) = Unit {0}
IsSorted le (x ∷ y ∷ ys) = (le x y ≡ true) × IsSorted le (y ∷ ys)

module _ {ℓ} {A : Type ℓ} (le : A → A → Bool) where
  pub length-insert_sorted :
      (x : A) (xs : List A) → length (insert_sorted le x xs) ≡ suc (length xs)
  unfolding insert_sorted
  length-insert_sorted x [] = refl
  length-insert_sorted x (y ∷ ys) = ground (arith, length-insert_sorted x ys)

  pub length-sort : (xs : List A) → length (sort le xs) ≡ length xs
  unfolding sort
  length-sort [] = refl
  length-sort (x ∷ xs) = omega (arith, length-insert_sorted x (sort le xs), length-sort xs)

  insert_sorted-IsSorted :
      ((a b : A) → (le a b || le b a) ≡ true)
      → (x : A) (xs : List A) → IsSorted le xs
      → IsSorted le (insert_sorted le x xs)
  unfolding insert_sorted
  insert_sorted-IsSorted total x [] h = tt
  insert_sorted-IsSorted total x (y ∷ []) h = ground (arith, total x y)
  insert_sorted-IsSorted total x (y ∷ z ∷ zs) h =
      ground (arith, total x y, total x z, insert_sorted-IsSorted total x (z ∷ zs) h.1)

  -- Under a total order the result is sorted.
  pub sort-IsSorted :
      ((a b : A) → (le a b || le b a) ≡ true) → (xs : List A) → IsSorted le (sort le xs)
  unfolding sort
  sort-IsSorted total [] = tt
  sort-IsSorted total (x ∷ xs) =
      insert_sorted-IsSorted total x (sort le xs) (sort-IsSorted total xs)

module _ {ℓ κ} {A : Type ℓ} (le : A → A → Bool) (P : A → Type κ) where
  insert_sorted-All : (x : A) (xs : List A) → P x → All P xs → All P (insert_sorted le x xs)
  unfolding insert_sorted
  insert_sorted-All x [] p h = (p, tt)
  insert_sorted-All x (y ∷ ys) p h = elim (Bool-cases (le x y)) [
    | inl e ↦ rw (e, All) (p, h)
    | inr e ↦ rw (e, All) (h.0, insert_sorted-All x ys p h.1)
  ]

  pub sort-All : (xs : List A) → All P xs → All P (sort le xs)
  unfolding sort
  sort-All [] h = tt
  sort-All (x ∷ xs) h = insert_sorted-All x (sort le xs) h.0 (sort-All xs h.1)

module _ {ℓ} {A : Type ℓ} (le : A → A → Bool) (p : A → Bool) where
  pub any-insert_sorted : (x : A) (xs : List A) → any p (insert_sorted le x xs) ≡ any p (x ∷ xs)
  unfolding insert_sorted
  any-insert_sorted x [] = refl
  any-insert_sorted x (y ∷ ys) = ground (arith, any-insert_sorted x ys)

  pub any-sort : (xs : List A) → any p (sort le xs) ≡ any p xs
  unfolding sort
  any-sort [] = refl
  any-sort (x ∷ xs) = ground (arith, any-insert_sorted x (sort le xs), any-sort xs)
