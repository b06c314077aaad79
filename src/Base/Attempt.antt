-- ===== src/Base/Attempt.antt =====
-- What a call that may raise comes to: a value, or an exception of the kind `E`.
use kayak_python.Base.{◌≡◌, refl, ◌⊎◌, inl, inr, Bool, true, false}

pub data Attempt {ℓ} (E : Type 0) (A : Type ℓ) : Type ℓ where
  raised : E → Attempt E A
  ok : A → Attempt E A

module _ {ℓ κ} {E : Type 0} {A : Type ℓ} {B : Type κ} where
  infixl 5 ◌>>=◌
  abbrev pub ◌>>=◌ : Attempt E A → (A → Attempt E B) → Attempt E B
  raised e >>= next = raised e
  ok a >>= next = next a

  -- What is known when the chain gave a value.
  pub bind-ok :
      (first : Attempt E A) (next : A → Attempt E B) {b : B}
      → (first >>= next) ≡ ok b
      → (a : A) × (first ≡ ok a) × (next a ≡ ok b)
  bind-ok (raised e) next h = cc
  bind-ok (ok a) next h = (a, refl, h)

module _ {ℓ} {E : Type 0} {A : Type ℓ} where
  infixl 5 ◌>>◌
  abbrev pub ◌>>◌ : Attempt E (Unit {0}) → Attempt E A → Attempt E A
  raised e >> rest = raised e
  ok u >> rest = rest

  pub Attempt-cases : (m : Attempt E A) → ((a : A) × (m ≡ ok a)) ⊎ ((e : E) × (m ≡ raised e))
  Attempt-cases (raised e) = inr (e, refl)
  Attempt-cases (ok a) = inl (a, refl)

-- `if bad: raise e`
abbrev pub refuse_if : {E : Type 0} → Bool → E → Attempt E (Unit {0})
refuse_if false e = ok tt
refuse_if true e = raised e
