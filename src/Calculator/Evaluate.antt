-- ===== src/Calculator/Evaluate.antt =====
-- `_safe_eval` of src/kayak/cli/calculator.py over the tree that `ast.parse` gives. Python's numbers
-- are a parameter: a value `V` is what an `int`, a `float` or a `complex` is.
use kayak_python.Base.{String, Bool, not, Option, none, some, List, [], ◌∷◌, str_eq, if◌then◌else◌}
use kayak_python.Base.Int.{ℤ}
use kayak_python.Base.Dict.{Dict, get}
use kayak_python.Base.Attempt.{Attempt, ok, raised, ◌>>=◌, ◌>>◌, refuse_if}

pub data BinaryOperator : Type 0 where
  add sub mult div pow : BinaryOperator
  other_operator : String → BinaryOperator

pub data UnaryOperator : Type 0 where
  uadd usub : UnaryOperator
  other_unary : String → UnaryOperator

-- An expression: a constant is a number (a Boolean is an `int`) or not, a call has its function, its
-- arguments and the values of its keyword arguments, and `other` is every other kind of node.
mutual
  pub data Node (V : Type 0) : Type 0 where
    number : V → Node V
    constant : String → Node V
    name : String → Node V
    binary : BinaryOperator → Node V → Node V → Node V
    unary : UnaryOperator → Node V → Node V
    call : Node V → Nodes V → Nodes V → Node V
    other : String → Node V

  pub data Nodes (V : Type 0) : Type 0 where
    end : Nodes V
    node : Node V → Nodes V → Nodes V

-- The messages of the `ValueError`s that the function raises.
pub data Problem : Type 0 where
  undefined_name : String → Problem
  unsupported_operator : String → Problem
  unsupported_unary : String → Problem
  exponent_out_of_bounds : Problem
  unsupported_call : Problem
  unsupported_function : String → Problem
  unsupported_expression : Problem

-- The exceptions of Python's numbers: `ValueError`, `TypeError`, `ZeroDivisionError` and
-- `OverflowError`.
pub data NumberError : Type 0 where
  bad_number type_error zero_division overflow : NumberError

pub data Exception : Type 0 where
  problem : Problem → Exception
  number_error : NumberError → Exception
  syntax_error : Exception

abbrev pub Result : Type 0 → Type 0
Result A = Attempt Exception A

-- What the code asks of Python's numbers: the functions of the module `operator`, `float(x)`,
-- `int(x)`, `-32.0 <= x <= 32.0`, `x > y`, `x < y` and `round(x)` with and without digits.
pub record Numbers (V : Type 0) : Type 0 where
  pub operate : BinaryOperator → V → V → Attempt NumberError V
  pub positive : V → Attempt NumberError V
  pub negative : V → Attempt NumberError V
  pub to_float : V → Attempt NumberError V
  pub to_int : V → Attempt NumberError ℤ
  pub within_32 : V → Attempt NumberError Bool
  pub greater : V → V → Attempt NumberError Bool
  pub less : V → V → Attempt NumberError Bool
  pub round : V → Attempt NumberError V
  pub round_to : V → ℤ → Attempt NumberError V

abbrev pub of_numbers : {A : Type 0} → Attempt NumberError A → Result A
of_numbers (raised e) = raised (number_error e)
of_numbers (ok a) = ok a

module _ {V : Type 0} (n : Numbers V) where
  -- `_safe_round`
  abbrev pub safe_round : V → Option V → Attempt NumberError V
  safe_round x none = n.round x
  safe_round x (some digits) = n.to_int digits >>= n.round_to x

  abbrev keep : V → V → Bool → Attempt NumberError V
  keep best x better = ok (if better then x else best)

  -- `max` and `min` of the values, by the test that puts a value in the place of the best so far.
  abbrev pub best_of : (V → V → Attempt NumberError Bool) → V → List V → Attempt NumberError V
  best_of better best [] = ok best
  best_of better best (x ∷ xs) = better x best >>= keep best x >>= λ b. best_of better b xs

  -- A call with one argument that is a number, or with none, is a `TypeError`.
  abbrev pub extreme : (V → V → Attempt NumberError Bool) → List V → Attempt NumberError V
  extreme better (x ∷ y ∷ xs) = best_of better x (y ∷ xs)
  extreme better _ = raised type_error

  abbrev pub rounded : List V → Attempt NumberError V
  rounded (x ∷ []) = safe_round x none
  rounded (x ∷ y ∷ []) = safe_round x (some y)
  rounded _ = raised type_error

  -- `_SAFE_FUNCS.get(name)`
  unfoldable pub safe_func : String → Option (List V → Attempt NumberError V)
  safe_func f =
      if str_eq f "max"
      then some (extreme n.greater)
      else if str_eq f "min"
      then some (extreme n.less)
      else if str_eq f "round"
      then some rounded
      else none

  -- `_BINOPS` and the bound on an exponent.
  abbrev pub check_exponent : BinaryOperator → V → Result (Unit {0})
  check_exponent pow right = of_numbers (n.within_32 right) >>= λ inside.
      refuse_if (not inside) (problem exponent_out_of_bounds)
  check_exponent _ right = ok tt

  abbrev pub look_up : Option V → String → Result V
  look_up none x = raised (problem (undefined_name x))
  look_up (some v) x = of_numbers (n.to_float v)

  abbrev pub apply_func :
      Option (List V → Attempt NumberError V) → String → Result (List V) → Result V
  apply_func none f args = raised (problem (unsupported_function f))
  apply_func (some fn) f args = args >>= λ vs. of_numbers (fn vs)

  abbrev pub apply_unary : UnaryOperator → Result V → Result V
  apply_unary uadd x = x >>= λ v. of_numbers (n.positive v)
  apply_unary usub x = x >>= λ v. of_numbers (n.negative v)
  apply_unary (other_unary o) x = raised (problem (unsupported_unary o))

  abbrev pub known_binary : BinaryOperator → Result V → Result V → Result V
  known_binary op x y =
      x >>= λ left. y >>= λ right. check_exponent op right >> of_numbers (n.operate op left right)

  abbrev pub apply_binary : BinaryOperator → Result V → Result V → Result V
  apply_binary (other_operator o) x y = raised (problem (unsupported_operator o))
  apply_binary op x y = known_binary op x y

  module _ (values : Dict V) where
    -- `_eval`; the arguments are evaluated from the left, and keyword arguments are passed over.
    unfoldable mutual
      unfolding safe_func get

      pub eval : Node V → Result V
      eval (number v) = of_numbers (n.to_float v)
      eval (constant s) = raised (problem unsupported_expression)
      eval (name x) = look_up (get x values) x
      eval (binary op x y) = apply_binary op (eval x) (eval y)
      eval (unary op x) = apply_unary op (eval x)
      eval (call (name f) args keywords) = apply_func (safe_func f) f (eval_all args)
      eval (call _ args keywords) = raised (problem unsupported_call)
      eval (other s) = raised (problem unsupported_expression)

      pub eval_all : Nodes V → Result (List V)
      eval_all end = ok []
      eval_all (node x xs) = eval x >>= λ v. eval_all xs >>= λ vs. ok (v ∷ vs)

    -- `_safe_eval`, on the tree or the `SyntaxError` that `ast.parse` comes to.
    unfoldable pub safe_eval : Result (Node V) → Result V
    unfolding eval
    safe_eval tree = tree >>= eval >>= λ v. of_numbers (n.to_float v)
