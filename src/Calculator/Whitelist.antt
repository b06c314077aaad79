-- ===== src/Calculator/Whitelist.antt =====
-- Which expressions `_safe_eval` of src/kayak/cli/calculator.py computes.
use kayak_python.Base.{
  String, ◌≡◌, ◌↔◌, refl, subst, Bool, true, false, not, ◌&&◌, Option, none, some, List, [], ◌∷◌,
  arith, mem_str, Option-cases, inl, inr,
}
use kayak_python.Base.Dict.{Dict, get, has, has-get}
use kayak_python.Base.Attempt.{Attempt, ok, raised, ◌>>=◌, ◌>>◌, refuse_if}
use kayak_python.Calculator.Evaluate.{
  BinaryOperator, add, sub, mult, div, pow, other_operator, UnaryOperator, uadd, usub, other_unary,
  undefined_name, unsupported_operator, unsupported_unary, unsupported_call, unsupported_function,
  unsupported_expression, Node, number, constant, name, binary, unary, call, other, Nodes, end,
  node, exponent_out_of_bounds, Exception, problem, number_error, syntax_error, Result, NumberError,
  Numbers, of_numbers, safe_func, look_up, apply_func, apply_unary, apply_binary, check_exponent,
  known_binary, eval, eval_all, safe_eval,
}
use kayak_python.Calculator.Meaning.{Gives, safe_eval-Gives}

abbrev pub is_arithmetic : BinaryOperator → Bool
is_arithmetic (other_operator o) = false
is_arithmetic _ = true

abbrev pub is_sign : UnaryOperator → Bool
is_sign (other_unary o) = false
is_sign _ = true

module _ {V : Type 0} where
  -- The grammar: numbers, known names, `+ - * / **`, signs, and calls of `max`, `min` and `round` by
  -- their names, whose keyword arguments may be anything.
  unfoldable mutual
    unfolding has

    pub is_supported : Dict V → Node V → Bool
    is_supported values (number v) = true
    is_supported values (constant s) = false
    is_supported values (name x) = has x values
    is_supported values (binary op x y) =
        is_arithmetic op && is_supported values x && is_supported values y
    is_supported values (unary op x) = is_sign op && is_supported values x
    is_supported values (call (name f) args keywords) =
        mem_str f ("max" ∷ "min" ∷ "round" ∷ []) && are_supported values args
    is_supported values (call _ args keywords) = false
    is_supported values (other s) = false

    pub are_supported : Dict V → Nodes V → Bool
    are_supported values end = true
    are_supported values (node x xs) = is_supported values x && are_supported values xs

-- How an evaluation may end for an expression that is in the grammar, or is not: with a value only
-- for one that is, with a complaint about a construct only for one that is not. An exponent out of
-- bounds and an error of Python's numbers may come up for both.
abbrev pub Judged : {A : Type 0} → Bool → Result A → Type 0
Judged b (ok v) = b ≡ true
Judged b (raised (problem exponent_out_of_bounds)) = Unit
Judged b (raised (problem _)) = b ≡ false
Judged b (raised (number_error e)) = Unit
Judged b (raised syntax_error) = Unit

passed_on :
    (A B : Type 0) (a b : Bool) (e : Exception)
    → Judged {A = A} a (raised e)
    → (a ≡ false → b ≡ false)
    → Judged {A = B} b (raised e)
passed_on A B a b (problem (undefined_name x)) j h = h j
passed_on A B a b (problem (unsupported_operator x)) j h = h j
passed_on A B a b (problem (unsupported_unary x)) j h = h j
passed_on A B a b (problem exponent_out_of_bounds) j h = tt
passed_on A B a b (problem unsupported_call) j h = h j
passed_on A B a b (problem (unsupported_function x)) j h = h j
passed_on A B a b (problem unsupported_expression) j h = h j
passed_on A B a b (number_error e) j h = tt
passed_on A B a b syntax_error j h = tt

-- A step that comes after another one.
Judged-bind :
    {A B : Type 0} (a b : Bool) (x : Result A) (f : A → Result B)
    → Judged a x
    → (a ≡ false → b ≡ false)
    → ((v : A) → a ≡ true → Judged b (f v))
    → Judged b (x >>= f)
Judged-bind a b (ok v) f j h k = k v j
Judged-bind {A} {B} a b (raised e) f j h k = passed_on A B a b e j h

Judged-numbers :
    {A : Type 0} (b : Bool) (m : Attempt NumberError A) → b ≡ true → Judged b (of_numbers m)
Judged-numbers b (ok v) h = h
Judged-numbers b (raised e) h = tt

refuse-Judged :
    {A : Type 0} (b bad : Bool) (x : Result A)
    → Judged b x
    → Judged b (refuse_if bad (problem exponent_out_of_bounds) >> x)
refuse-Judged b false x j = j
refuse-Judged b true x j = tt

module _ {V : Type 0} (n : Numbers V) where
  exponent-Judged :
      (b : Bool) (op : BinaryOperator) (v : V) (x : Result V)
      → Judged b x
      → Judged b (check_exponent n op v >> x)
  exponent-Judged b add v x j = j
  exponent-Judged b sub v x j = j
  exponent-Judged b mult v x j = j
  exponent-Judged b div v x j = j
  exponent-Judged b (other_operator o) v x j = j
  exponent-Judged b pow v x j = inside (n.within_32 v)
    where
      inside :
          (m : Attempt NumberError Bool)
          → Judged b
              ((of_numbers m >>= λ i. refuse_if (not i) (problem exponent_out_of_bounds)) >> x)
      inside (raised e) = tt
      inside (ok i) = refuse-Judged b (not i) x j

  known_binary-Judged :
      (a b : Bool) (op : BinaryOperator) (x y : Result V)
      → Judged a x
      → Judged b y
      → Judged (a && b) (known_binary n op x y)
  known_binary-Judged a b op x y j k =
      Judged-bind a (a && b) x _ j (λ h. ground arith)
        (λ u p.
          Judged-bind b (a && b) y _ k (λ h. ground arith)
            (λ v q.
              exponent-Judged (a && b) op v _
                (Judged-numbers (a && b) (n.operate op u v) (ground arith))))

  apply_binary-Judged :
      (a b : Bool) (op : BinaryOperator) (x y : Result V)
      → Judged a x
      → Judged b y
      → Judged (is_arithmetic op && a && b) (apply_binary n op x y)
  apply_binary-Judged a b add x y j k = known_binary-Judged a b add x y j k
  apply_binary-Judged a b sub x y j k = known_binary-Judged a b sub x y j k
  apply_binary-Judged a b mult x y j k = known_binary-Judged a b mult x y j k
  apply_binary-Judged a b div x y j k = known_binary-Judged a b div x y j k
  apply_binary-Judged a b pow x y j k = known_binary-Judged a b pow x y j k
  apply_binary-Judged a b (other_operator o) x y j k = refl

  apply_unary-Judged :
      (a : Bool) (op : UnaryOperator) (x : Result V)
      → Judged a x
      → Judged (is_sign op && a) (apply_unary n op x)
  apply_unary-Judged a uadd x j =
      Judged-bind a a x _ j (λ h. h) (λ v p. Judged-numbers a (n.positive v) p)
  apply_unary-Judged a usub x j =
      Judged-bind a a x _ j (λ h. h) (λ v p. Judged-numbers a (n.negative v) p)
  apply_unary-Judged a (other_unary o) x j = refl

  abbrev is_known : {A : Type 0} → Option A → Bool
  is_known none = false
  is_known (some a) = true

  apply_func-Judged :
      (a : Bool) (fn : Option (List V → Attempt NumberError V)) (f : String)
      (args : Result (List V))
      → Judged a args
      → Judged (is_known fn && a) (apply_func n fn f args)
  apply_func-Judged a none f args j = refl
  apply_func-Judged a (some fn) f args j =
      Judged-bind a a args _ j (λ h. h) (λ vs p. Judged-numbers a (fn vs) p)

  safe_func-known :
      (f : String) → is_known (safe_func n f) ≡ mem_str f ("max" ∷ "min" ∷ "round" ∷ [])
  unfolding safe_func
  safe_func-known f = ground arith

  look_up-Judged : (v : Option V) (x : String) → Judged (is_known v) (look_up n v x)
  look_up-Judged none x = refl
  look_up-Judged (some v) x = Judged-numbers true (n.to_float v) refl

  module _ (values : Dict V) where
    known_get : (x : String) → is_known (get x values) ≡ has x values
    known_get x = elim (Option-cases (get x values)) [
      | inl e ↦ rw (has-get, e) refl
      | inr (v, e) ↦ rw (has-get, e) refl
    ]

    mutual
      unfolding eval is_supported

      eval-Judged : (e : Node V) → Judged (is_supported values e) (eval n values e)
      eval-Judged (number v) = Judged-numbers true (n.to_float v) refl
      eval-Judged (constant s) = refl
      eval-Judged (name x) =
          subst (λ b. Judged b (look_up n (get x values) x)) (known_get x)
            (look_up-Judged (get x values) x)
      eval-Judged (binary op x y) =
          apply_binary-Judged (is_supported values x) (is_supported values y) op _ _ (eval-Judged x)
            (eval-Judged y)
      eval-Judged (unary op x) = apply_unary-Judged (is_supported values x) op _ (eval-Judged x)
      eval-Judged (call (name f) args keywords) =
          subst
            (λ b.
              Judged (b && are_supported values args)
                (apply_func n (safe_func n f) f (eval_all n values args)))
            (safe_func-known f)
            (apply_func-Judged (are_supported values args) (safe_func n f) f _ (all-Judged args))
      eval-Judged (call (number v) args keywords) = refl
      eval-Judged (call (constant s) args keywords) = refl
      eval-Judged (call (binary op x y) args keywords) = refl
      eval-Judged (call (unary op x) args keywords) = refl
      eval-Judged (call (call g xs ks) args keywords) = refl
      eval-Judged (call (other s) args keywords) = refl
      eval-Judged (other s) = refl

      all-Judged : (es : Nodes V) → Judged (are_supported values es) (eval_all n values es)
      all-Judged end = refl
      all-Judged (node x xs) =
          Judged-bind (is_supported values x) _ (eval n values x) _ (eval-Judged x)
            (λ h. ground arith)
            (λ v p.
              Judged-bind (are_supported values xs) _ (eval_all n values xs) _ (all-Judged xs)
                (λ h. ground arith) (λ vs q. ground (arith, p, q)))

    grammar-Judged : (e : Node V) → Judged (is_supported values e) (safe_eval n values (ok e))
    unfolding safe_eval
    grammar-Judged e =
        Judged-bind (is_supported values e) (is_supported values e) (eval n values e) _
          (eval-Judged e) (λ h. h) (λ v p. Judged-numbers (is_supported values e) (n.to_float v) p)

    -- The evaluator returns a value exactly when the expression has it by the rules for numbers, known
    -- names, `+ - * / **` with a bounded exponent, signs, and calls of `max`, `min` and `round`. An
    -- expression with a value is in the grammar, and one that is in the grammar is never refused for
    -- one of its constructs, but may end with an exponent out of bounds or an error of the numbers.
    pub safe_eval-Judged :
        (e : Node V)
        → Judged (is_supported values e) (safe_eval n values (ok e))
          × ((w : V)
              → (safe_eval n values (ok e) ≡ ok w)
                ↔ ((v : V) × Gives n values e v × (n.to_float v ≡ ok w)))
    safe_eval-Judged e = (grammar-Judged e, safe_eval-Gives n values e)
