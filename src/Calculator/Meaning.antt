-- ===== src/Calculator/Meaning.antt =====
-- The value of an expression of src/kayak/cli/calculator.py, as a relation.
use kayak_python.Base.{
  String, ◌≡◌, ◌↔◌, ◌⊎◌, inl, inr, refl, sym, ap, ◌∙◌, Bool, true, false, not, Option, Bool-cases,
  none, some, List, [], ◌∷◌, arith, str_eq, eq_iff,
}
use kayak_python.Base.Dict.{Dict, get}
use kayak_python.Base.Attempt.{Attempt, ok, raised, ◌>>=◌, ◌>>◌, refuse_if, bind-ok}
use kayak_python.Calculator.Evaluate.{
  BinaryOperator, add, sub, mult, div, pow, other_operator, UnaryOperator, uadd, usub, other_unary,
  Node, number, constant, name, binary, unary, call, other, Nodes, end, node,
  exponent_out_of_bounds, problem, Result, NumberError, Numbers, of_numbers, safe_func, extreme,
  rounded, look_up, apply_func, apply_unary, apply_binary, check_exponent, known_binary, eval,
  eval_all, safe_eval,
}

module _ {V : Type 0} (n : Numbers V) where
  -- `u op v` is `w`; the exponent of a power lies in its bounds.
  abbrev pub IsOperation : BinaryOperator → V → V → V → Type 0
  IsOperation pow u v w = (n.within_32 v ≡ ok true) × (n.operate pow u v ≡ ok w)
  IsOperation (other_operator o) u v w = ⊥
  IsOperation op u v w = n.operate op u v ≡ ok w

  abbrev pub IsSigned : UnaryOperator → V → V → Type 0
  IsSigned uadd u w = n.positive u ≡ ok w
  IsSigned usub u w = n.negative u ≡ ok w
  IsSigned (other_unary o) u w = ⊥

  -- The function named `f` gives `w` for those arguments.
  abbrev pub IsCall : String → List V → V → Type 0
  IsCall f us w =
      ((f ≡ "max") × (extreme n n.greater us ≡ ok w))
      ⊎ (((f ≡ "min") × (extreme n n.less us ≡ ok w)) ⊎ ((f ≡ "round") × (rounded n us ≡ ok w)))

  module _ (values : Dict V) where
    unfoldable mutual
      -- The expression has the value.
      pub Gives : Node V → V → Type 0
      Gives (number v) w = n.to_float v ≡ ok w
      Gives (constant s) w = ⊥
      Gives (name x) w = (v : V) × (get x values ≡ some v) × (n.to_float v ≡ ok w)
      Gives (binary op x y) w = (u : V) × (v : V) × Gives x u × Gives y v × IsOperation op u v w
      Gives (unary op x) w = (u : V) × Gives x u × IsSigned op u w
      Gives (call (name f) args keywords) w = (us : List V) × AllGive args us × IsCall f us w
      Gives (call _ args keywords) w = ⊥
      Gives (other s) w = ⊥

      pub AllGive : Nodes V → List V → Type 0
      AllGive end us = us ≡ []
      AllGive (node x xs) us = (v : V) × (vs : List V) × Gives x v × AllGive xs vs × (us ≡ v ∷ vs)

of_numbers-ok : {A : Type 0} (m : Attempt NumberError A) (a : A) → of_numbers m ≡ ok a → m ≡ ok a
of_numbers-ok (ok b) a h = ground (arith, h)
of_numbers-ok (raised e) a h = absurd (ground arith)

module _ {V : Type 0} (n : Numbers V) where
  exponent_inside :
      (v : V) (x : Result V) (w : V)
      → (check_exponent n pow v >> x) ≡ ok w
      → (n.within_32 v ≡ ok true) × (x ≡ ok w)
  exponent_inside v x w h = inside (n.within_32 v) h
    where
      inside :
          (m : Attempt NumberError Bool)
          → (((of_numbers m >>= λ i. refuse_if (not i) (problem exponent_out_of_bounds)) >> x)
              ≡ ok w)
          → (m ≡ ok true) × (x ≡ ok w)
      inside (raised e) g = absurd (ground arith)
      inside (ok true) g = (refl, g)
      inside (ok false) g = absurd (ground arith)

  binary-IsOperation :
      (op : BinaryOperator) (x y : Result V) (w : V)
      → apply_binary n op x y ≡ ok w
      → (u : V) × (v : V) × (x ≡ ok u) × (y ≡ ok v) × IsOperation n op u v w
  binary-IsOperation op x y w h = by_operator op h
    where
      parts :
          (o : BinaryOperator)
          → known_binary n o x y ≡ ok w
          → (u : V) × (v : V) × (x ≡ ok u)
            × (y ≡ ok v)
            × ((check_exponent n o v >> of_numbers (n.operate o u v)) ≡ ok w)
      parts o g =
          let (u, p, g') = bind-ok x _ g in let (v, q, g'') = bind-ok y _ g' in (u, v, p, q, g'')

      plain :
          (o : BinaryOperator)
          → known_binary n o x y ≡ ok w
          → ((u v : V)
              → (check_exponent n o v >> of_numbers (n.operate o u v)) ≡ ok w
              → IsOperation n o u v w)
          → (u : V) × (v : V) × (x ≡ ok u) × (y ≡ ok v) × IsOperation n o u v w
      plain o g f = let (u, v, p, q, r) = parts o g in (u, v, p, q, f u v r)

      by_operator :
          (o : BinaryOperator)
          → apply_binary n o x y ≡ ok w
          → (u : V) × (v : V) × (x ≡ ok u) × (y ≡ ok v) × IsOperation n o u v w
      by_operator add g = plain add g (λ u v r. of_numbers-ok _ w r)
      by_operator sub g = plain sub g (λ u v r. of_numbers-ok _ w r)
      by_operator mult g = plain mult g (λ u v r. of_numbers-ok _ w r)
      by_operator div g = plain div g (λ u v r. of_numbers-ok _ w r)
      by_operator pow g =
          plain pow g (λ u v r. let (i, k) = exponent_inside v _ w r in (i, of_numbers-ok _ w k))
      by_operator (other_operator o) g = absurd (ground arith)

  IsOperation-binary :
      (op : BinaryOperator) (u v w : V)
      → IsOperation n op u v w
      → apply_binary n op (ok u) (ok v) ≡ ok w
  IsOperation-binary add u v w h = ap of_numbers h
  IsOperation-binary sub u v w h = ap of_numbers h
  IsOperation-binary mult u v w h = ap of_numbers h
  IsOperation-binary div u v w h = ap of_numbers h
  IsOperation-binary pow u v w (i, h) = rw (i, h) refl
  IsOperation-binary (other_operator o) u v w h = absurd h

  unary-IsSigned :
      (op : UnaryOperator) (x : Result V) (w : V)
      → apply_unary n op x ≡ ok w
      → (u : V) × (x ≡ ok u) × IsSigned n op u w
  unary-IsSigned uadd x w h =
      let (u, p, g) = bind-ok x _ h in (u, p, of_numbers-ok (n.positive u) w g)
  unary-IsSigned usub x w h =
      let (u, p, g) = bind-ok x _ h in (u, p, of_numbers-ok (n.negative u) w g)
  unary-IsSigned (other_unary o) x w h = absurd (ground arith)

  IsSigned-unary :
      (op : UnaryOperator) (u w : V) → IsSigned n op u w → apply_unary n op (ok u) ≡ ok w
  IsSigned-unary uadd u w h = ap of_numbers h
  IsSigned-unary usub u w h = ap of_numbers h
  IsSigned-unary (other_unary o) u w h = absurd h

  func-IsCall :
      (f : String) (args : Result (List V)) (w : V)
      → apply_func n (safe_func n f) f args ≡ ok w
      → (us : List V) × (args ≡ ok us) × IsCall n f us w
  unfolding safe_func
  func-IsCall f args w h = elim (Bool-cases (str_eq f "max")) [
    | inl e ↦
        (let (us, p, g) =
            bind-ok args (λ vs. of_numbers (extreme n n.greater vs)) (ground (arith, h, e)) in
          (us, p, inl ((eq_iff f "max").0 e, of_numbers-ok _ w g)))
    | inr e ↦ elim (Bool-cases (str_eq f "min")) [
      | inl e' ↦
          (let (us, p, g) =
              bind-ok args (λ vs. of_numbers (extreme n n.less vs)) (ground (arith, h, e, e')) in
            (us, p, inr (inl ((eq_iff f "min").0 e', of_numbers-ok _ w g))))
      | inr e' ↦ elim (Bool-cases (str_eq f "round")) [
        | inl e'' ↦
            (let (us, p, g) =
                bind-ok args (λ vs. of_numbers (rounded n vs)) (ground (arith, h, e, e', e'')) in
              (us, p, inr (inr ((eq_iff f "round").0 e'', of_numbers-ok _ w g))))
        | inr e'' ↦ absurd (ground (arith, h, e, e', e''))
      ]
    ]
  ]

  IsCall-func :
      (f : String) (us : List V) (w : V)
      → IsCall n f us w
      → apply_func n (safe_func n f) f (ok us) ≡ ok w
  unfolding safe_func
  IsCall-func f us w (inl (e, h)) = rw e (ap of_numbers h)
  IsCall-func f us w (inr (inl (e, h))) = rw e (ap of_numbers h)
  IsCall-func f us w (inr (inr (e, h))) = rw e (ap of_numbers h)

  module _ (values : Dict V) where
    known_name :
        (v : Option V) (x : String) (w : V)
        → look_up n v x ≡ ok w
        → (u : V) × (v ≡ some u) × (n.to_float u ≡ ok w)
    known_name none x w h = absurd (ground arith)
    known_name (some u) x w h = (u, refl, of_numbers-ok (n.to_float u) w h)

    mutual
      unfolding eval Gives

      eval-Gives : (e : Node V) (w : V) → eval n values e ≡ ok w → Gives n values e w
      eval-Gives (number v) w h = of_numbers-ok (n.to_float v) w h
      eval-Gives (constant s) w h = absurd (ground arith)
      eval-Gives (name x) w h = known_name (get x values) x w h
      eval-Gives (binary op x y) w h =
          let (u, v, p, q, r) = binary-IsOperation op (eval n values x) (eval n values y) w h in
          (u, v, eval-Gives x u p, eval-Gives y v q, r)
      eval-Gives (unary op x) w h =
          let (u, p, r) = unary-IsSigned op (eval n values x) w h in (u, eval-Gives x u p, r)
      eval-Gives (call (name f) args keywords) w h =
          let (us, p, r) = func-IsCall f (eval_all n values args) w h in
          (us, all-AllGive args us p, r)
      eval-Gives (call (number v) args keywords) w h = absurd (ground arith)
      eval-Gives (call (constant s) args keywords) w h = absurd (ground arith)
      eval-Gives (call (binary op x y) args keywords) w h = absurd (ground arith)
      eval-Gives (call (unary op x) args keywords) w h = absurd (ground arith)
      eval-Gives (call (call g xs ks) args keywords) w h = absurd (ground arith)
      eval-Gives (call (other s) args keywords) w h = absurd (ground arith)
      eval-Gives (other s) w h = absurd (ground arith)

      all-AllGive :
          (es : Nodes V) (us : List V) → eval_all n values es ≡ ok us → AllGive n values es us
      all-AllGive end us h = ground (arith, h)
      all-AllGive (node x xs) us h =
          let (v, p, g) = bind-ok (eval n values x) _ h in
          let (vs, q, k) = bind-ok (eval_all n values xs) _ g in
          (v, vs, eval-Gives x v p, all-AllGive xs vs q, ground (arith, k))

    mutual
      unfolding eval Gives

      Gives-eval : (e : Node V) (w : V) → Gives n values e w → eval n values e ≡ ok w
      Gives-eval (number v) w h = ap of_numbers h
      Gives-eval (constant s) w h = absurd h
      Gives-eval (name x) w (v, p, h) = ap (λ o. look_up n o x) p ∙ ap of_numbers h
      Gives-eval (binary op x y) w (u, v, p, q, h) =
          ap (λ r. apply_binary n op r (eval n values y)) (Gives-eval x u p)
          ∙ ap (apply_binary n op (ok u)) (Gives-eval y v q)
          ∙ IsOperation-binary op u v w h
      Gives-eval (unary op x) w (u, p, h) =
          ap (apply_unary n op) (Gives-eval x u p) ∙ IsSigned-unary op u w h
      Gives-eval (call (name f) args keywords) w (us, p, h) =
          ap (apply_func n (safe_func n f) f) (AllGive-all args us p) ∙ IsCall-func f us w h
      Gives-eval (call (number v) args keywords) w h = absurd h
      Gives-eval (call (constant s) args keywords) w h = absurd h
      Gives-eval (call (binary op x y) args keywords) w h = absurd h
      Gives-eval (call (unary op x) args keywords) w h = absurd h
      Gives-eval (call (call g xs ks) args keywords) w h = absurd h
      Gives-eval (call (other s) args keywords) w h = absurd h
      Gives-eval (other s) w h = absurd h

      AllGive-all :
          (es : Nodes V) (us : List V) → AllGive n values es us → eval_all n values es ≡ ok us
      AllGive-all end us h = ap ok (sym h)
      AllGive-all (node x xs) us (v, vs, p, q, h) =
          ap (λ r. r >>= λ a. eval_all n values xs >>= λ as'. ok (a ∷ as')) (Gives-eval x v p)
          ∙ ap (λ r. r >>= λ as'. ok (v ∷ as')) (AllGive-all xs vs q)
          ∙ ap ok (sym h)

    -- The evaluator gives a value exactly when the expression has one that `float` takes to it.
    pub safe_eval-Gives :
        (e : Node V) (w : V)
        → (safe_eval n values (ok e) ≡ ok w)
          ↔ ((v : V) × Gives n values e v × (n.to_float v ≡ ok w))
    unfolding safe_eval
    safe_eval-Gives e w = (
      (λ h.
          let (v, p, g) = bind-ok (eval n values e) _ h in
          (v, eval-Gives e v p, of_numbers-ok (n.to_float v) w g)),
      λ (v, p, h).
          ap (λ r. r >>= λ u. of_numbers (n.to_float u)) (Gives-eval e v p) ∙ ap of_numbers h,
    )
