-- ===== src/Validate/Empty.antt =====
-- Lists of faults and of ids in src/kayak/cli/validate_dataset.py: when they are empty, and bounds.
use kayak_python.Base.{
  ◌≡◌, refl, ap, ◌∙◌, Bool, true, false, not, ◌&&◌, ◌||◌, List, [], ◌∷◌, ◌++◌, any, all, keep_if,
  is_empty, if◌then◌else◌, map, arith, Bool-cases, inl, inr,
}
use kayak_python.Base.Int.{ℤ, pos, negsuc}
use kayak_python.Base.Sort.{insert_sorted, sort}
use kayak_python.Validate.Counters.{leb_int, mem_int, repeated, unique, greatest, fault_if}

module _ {ℓ} {A : Type ℓ} where
  pub is_empty-append : (xs ys : List A) → is_empty (xs ++ ys) ≡ (is_empty xs && is_empty ys)
  is_empty-append [] ys = refl
  is_empty-append (x ∷ xs) ys = refl

  is_empty-insert_sorted :
      (le : A → A → Bool) (x : A) (xs : List A) → is_empty (insert_sorted le x xs) ≡ false
  unfolding insert_sorted
  is_empty-insert_sorted le x [] = refl
  is_empty-insert_sorted le x (y ∷ ys) = ground arith

  pub is_empty-sort : (le : A → A → Bool) (xs : List A) → is_empty (sort le xs) ≡ is_empty xs
  unfolding sort
  is_empty-sort le [] = refl
  is_empty-sort le (x ∷ xs) = is_empty-insert_sorted le x (sort le xs)

  pub is_empty-keep_if :
      (p : A → Bool) (xs : List A) → is_empty (keep_if p xs) ≡ all (λ x. not (p x)) xs
  is_empty-keep_if p [] = refl
  is_empty-keep_if p (x ∷ xs) = ground (arith, is_empty-keep_if p xs)

  pub is_empty-map : {B : Type 0} (f : A → B) (xs : List A) → is_empty (map f xs) ≡ is_empty xs
  is_empty-map f [] = refl
  is_empty-map f (x ∷ xs) = refl

  pub is_empty-fault_if : (b : Bool) (x : A) → is_empty (fault_if b x) ≡ not b
  is_empty-fault_if true x = refl
  is_empty-fault_if false x = refl

  all-insert_sorted :
      (le : A → A → Bool) (p : A → Bool) (x : A) (xs : List A)
      → all p (insert_sorted le x xs) ≡ (p x && all p xs)
  unfolding insert_sorted
  all-insert_sorted le p x [] = refl
  all-insert_sorted le p x (y ∷ ys) = ground (arith, all-insert_sorted le p x ys)

  pub all-sort : (le : A → A → Bool) (p : A → Bool) (xs : List A) → all p (sort le xs) ≡ all p xs
  unfolding sort
  all-sort le p [] = refl
  all-sort le p (x ∷ xs) =
      all-insert_sorted le p x (sort le xs) ∙ ap (λ b. p x && b) (all-sort le p xs)

pub is_empty-three :
    {A : Type 0} (xs ys zs : List A) (a b c : Bool)
    → is_empty xs ≡ a
    → is_empty ys ≡ b
    → is_empty zs ≡ c
    → is_empty (xs ++ (ys ++ zs)) ≡ (a && (b && c))
is_empty-three xs ys zs a b c p q r =
    rw (is_empty-append xs (ys ++ zs), is_empty-append ys zs, p, q, r) refl

-- No integer stands twice.
abbrev pub are_distinct : List ℤ → Bool
are_distinct [] = true
are_distinct (i ∷ is) = not (mem_int i is) && are_distinct is

not_empty_of_mem : (i : ℤ) (is : List ℤ) → mem_int i is ≡ true → is_empty is ≡ false
not_empty_of_mem i [] h = absurd (ground arith)
not_empty_of_mem i (j ∷ is) h = refl

pub is_empty-repeated : (is : List ℤ) → is_empty (repeated is) ≡ are_distinct is
unfolding repeated
is_empty-repeated [] = refl
is_empty-repeated (i ∷ is) = elim (Bool-cases (mem_int i is)) [
  | inl e ↦ elim (Bool-cases (mem_int i (repeated is))) [
    | inl k ↦ rw (e, k, if◌then◌else◌) (not_empty_of_mem i (repeated is) k)
    | inr k ↦ rw (e, k, if◌then◌else◌) refl
  ]
  | inr e ↦ rw (e, if◌then◌else◌) (is_empty-repeated is)
]

pub is_empty-unique : (is : List ℤ) → is_empty (unique is) ≡ is_empty is
unfolding unique
is_empty-unique [] = refl
is_empty-unique (i ∷ is) = elim (Bool-cases (mem_int i (unique is))) [
  | inl e ↦ rw (e, if◌then◌else◌) (not_empty_of_mem i (unique is) e)
  | inr e ↦ rw (e, if◌then◌else◌) refl
]

pub leb_int-total : (i j : ℤ) → leb_int i j ≡ false → leb_int j i ≡ true
leb_int-total (pos m) (pos n) h = ground arith
leb_int-total (pos m) (negsuc n) h = refl
leb_int-total (negsuc m) (pos n) h = absurd (ground arith)
leb_int-total (negsuc m) (negsuc n) h = ground arith

pub leb_int_trans : (i j k : ℤ) → leb_int i j ≡ true → leb_int j k ≡ true → leb_int i k ≡ true
leb_int_trans (pos m) (pos n) (pos o) h g = ground arith
leb_int_trans (negsuc m) (negsuc n) (negsuc o) h g = ground arith
leb_int_trans (negsuc m) _ (pos o) h g = refl
leb_int_trans (pos m) (pos n) (negsuc o) h g = absurd (ground arith)
leb_int_trans (pos m) (negsuc n) _ h g = absurd (ground arith)
leb_int_trans (negsuc m) (pos n) (negsuc o) h g = absurd (ground arith)

-- The greatest of the integers reaches a bound exactly when one of them does.
pub leb-greatest :
    (n m : ℤ) (is : List ℤ) → leb_int n (greatest m is) ≡ (leb_int n m || any (leb_int n) is)
leb-greatest n m [] = ground arith
leb-greatest n m (i ∷ is) = elim (Bool-cases (leb_int i m)) [
  | inl e ↦ rw (e, if◌then◌else◌, leb-greatest n m is) (ground (arith, leb_int_trans n i m, e))
  | inr e ↦
      rw (e, if◌then◌else◌, leb-greatest n i is)
        (ground (arith, leb_int_trans n m i, leb_int-total i m e))
]
