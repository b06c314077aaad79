-- ===== src/Base/Members.antt =====
-- What stands in a list, and what `any` and `keep_if` find there.
use kayak_python.Base.{
  ◌≡◌, refl, sym, ap, subst, Bool, true, false, List, [], ◌∷◌, All, any, keep_if, Bool-cases, inl,
  inr, arith,
}
use mathlib.Core.List.{Mem, mem-cons, mem-cons_self, mem-cons_of_mem, not-mem-nil}
use mathlib.Core.Logic.Or
use mathlib.Core.Bool.{Bool-set}

pub any_of_mem :
    {A : Type 0} (p : A → Bool) {x : A} (xs : List A) → Mem x xs → p x ≡ true → any p xs ≡ true
any_of_mem p [] m h = absurd (not-mem-nil m)
any_of_mem p (y ∷ xs) m h =
    Or.elim (Bool-set _ _) (mem-cons.0 m) (λ e. rw (sym e, h) refl)
      (λ k. ground (arith, any_of_mem p xs k h))

pub All-of_mem :
    {A : Type 0} (p : A → Bool) {x : A} (xs : List A)
    → Mem x xs
    → All (λ y. p y ≡ true) xs
    → p x ≡ true
All-of_mem p [] m h = absurd (not-mem-nil m)
All-of_mem p (y ∷ xs) m h =
    Or.elim (Bool-set _ _) (mem-cons.0 m) (λ e. rw e h.0) (λ k. All-of_mem p xs k h.1)

-- An item that a filter lets through passes its test and stood in the list.
pub mem-keep_if :
    {A : Type 0} (p : A → Bool) (x : A) (xs : List A)
    → Mem x (keep_if p xs)
    → (p x ≡ true) × Mem x xs
mem-keep_if p x [] m = absurd (not-mem-nil m)
mem-keep_if p x (y ∷ xs) m = elim (Bool-cases (p y)) [
  | inl e ↦
      (let k = subst (λ ys. Mem x ys) (kept e) m in
        (
          Or.elim (Bool-set _ _) (mem-cons.0 k) (λ q. rw q e) (λ n. (mem-keep_if p x xs n).0),
          Or.elim (hlevel) (mem-cons.0 k) (λ q. rw q mem-cons_self)
              (λ n. mem-cons_of_mem y (mem-keep_if p x xs n).1),
        ))
  | inr e ↦
      (let k = mem-keep_if p x xs (subst (λ ys. Mem x ys) (dropped e) m) in
        (k.0, mem-cons_of_mem y k.1))
]
  where
    kept : p y ≡ true → keep_if p (y ∷ xs) ≡ y ∷ keep_if p xs
    kept e = rw (e, keep_if) refl

    dropped : p y ≡ false → keep_if p (y ∷ xs) ≡ keep_if p xs
    dropped e = rw (e, keep_if) refl

-- A test that holds of some item holds of one that can be named.
pub any-witness :
    {A : Type 0} (p : A → Bool) (xs : List A) → any p xs ≡ true → (x : A) × Mem x xs × (p x ≡ true)
any-witness p [] h = absurd (ground arith)
any-witness p (y ∷ ys) h = elim (Bool-cases (p y)) [
  | inl e ↦ (y, mem-cons_self, e)
  | inr e ↦ (let (x, m, k) = any-witness p ys (ground (arith, h, e)) in (x, mem-cons_of_mem y m, k))
]

pub mem-kept :
    {A : Type 0} (p : A → Bool) (x : A) (xs : List A) → Mem x xs → p x ≡ true → Mem x (keep_if p xs)
mem-kept p x [] m h = absurd (not-mem-nil m)
mem-kept p x (y ∷ ys) m h = elim (Bool-cases (p y)) [
  | inl e ↦
      rw (e, keep_if)
        (Or.elim (hlevel) (mem-cons.0 m) (λ q. rw q mem-cons_self)
          (λ n. mem-cons_of_mem y (mem-kept p x ys n h)))
  | inr e ↦
      rw (e, keep_if)
        (Or.elim (hlevel) (mem-cons.0 m) (λ q. absurd (ground (arith, h, e, ap p q)))
          (λ n. mem-kept p x ys n h))
]
