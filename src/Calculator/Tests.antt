-- ===== src/Calculator/Tests.antt =====
-- src/kayak/cli/calculator.py on small inputs, with the theorems applied.
use kayak_python.Base.{
  decimal, ℕ, ◌+◌, ◌*◌, ◌≡◌, ◌↔◌, ◌↔◌, refl, String, List, [], ◌∷◌, codes, leb, ltb,
}
use kayak_python.Base.Int.{pos}
use kayak_python.Base.Chars.{Chars, replace_from, replace}
use kayak_python.Base.Dict.{Dict, get, put}
use kayak_python.Base.Sort.{insert_sorted, sort}
use kayak_python.Base.Attempt.{Attempt, ok, raised}
use kayak_python.Calculator.Order.{round, rounds, topo_sort}
use kayak_python.Calculator.Sorted.{Outcome, topo_sort-Outcome}
use kayak_python.Calculator.Solvable.{Order, topo_sort_iff}
use kayak_python.Calculator.Evaluate.{
  BinaryOperator, add, mult, pow, Node, number, name, binary, call, other, end, node, problem,
  exponent_out_of_bounds, unsupported_call, type_error, NumberError, Numbers, safe_func, eval,
  safe_eval,
}
use kayak_python.Calculator.Meaning.{Gives}
use kayak_python.Calculator.Whitelist.{is_supported, Judged, safe_eval-Judged}
use kayak_python.Calculator.Refs.{substitute_placeholders, put_placeholders, longest_first}

-- A source is its gauge and what it depends on.
abbrev Feed : Type 0
Feed = Chars × List Chars

abbrev feed : String → List String → Feed
feed s [] = (codes s, [])
feed s (d ∷ ds) = (codes s, codes d ∷ (feed s ds).1)

abbrev reads : Feed → List Chars
reads f = f.1

abbrev feeds_gauge : Feed → Chars
feeds_gauge f = f.0

abbrev chain : List Feed
chain = feed "c" ("b" ∷ []) ∷ feed "b" ("a" ∷ []) ∷ feed "a" [] ∷ []

chain_sorted :
    topo_sort reads feeds_gauge feeds_gauge chain
    ≡ ok (feed "a" [] ∷ feed "b" ("a" ∷ []) ∷ feed "c" ("b" ∷ []) ∷ [])
unfolding topo_sort rounds round
chain_sorted = refl

circle_refused :
    topo_sort reads feeds_gauge feeds_gauge
      (feed "a" [] ∷ feed "b" ("c" ∷ []) ∷ feed "c" ("b" ∷ []) ∷ [])
    ≡ raised (codes "b" ∷ codes "c" ∷ [])
unfolding topo_sort rounds round
circle_refused = refl

-- Two sources that feed the same gauge: the reader of the gauge comes before the second of them.
abbrev shared_gauge : List Feed
shared_gauge = feed "g" [] ∷ feed "x" ("g" ∷ []) ∷ feed "g" ("y" ∷ []) ∷ feed "y" [] ∷ []

reader_before_second_feed :
    topo_sort reads feeds_gauge feeds_gauge shared_gauge
    ≡ ok (feed "g" [] ∷ feed "x" ("g" ∷ []) ∷ feed "y" [] ∷ feed "g" ("y" ∷ []) ∷ [])
unfolding topo_sort rounds round
reader_before_second_feed = refl

topo_sort-Outcome_example :
    Outcome reads feeds_gauge feeds_gauge chain (topo_sort reads feeds_gauge feeds_gauge chain)
topo_sort-Outcome_example = topo_sort-Outcome reads feeds_gauge feeds_gauge chain

topo_sort_iff_example :
    ((out : List Feed) × (topo_sort reads feeds_gauge feeds_gauge chain ≡ ok out))
    ↔ Order reads feeds_gauge chain
topo_sort_iff_example = topo_sort_iff reads feeds_gauge feeds_gauge chain

-- Natural numbers stand for Python's; the powers and the divisions are left out.
abbrev operate : BinaryOperator → ℕ → ℕ → Attempt NumberError ℕ
operate add x y = ok (x + y)
operate mult x y = ok (x * y)
operate _ x y = raised type_error

abbrev pub numbers : Numbers ℕ
numbers = record {
  operate = operate;
  positive = λ x. ok x;
  negative = λ x. raised type_error;
  to_float = λ x. ok x;
  to_int = λ x. ok (pos x);
  within_32 = λ x. ok (leb x 32);
  greater = λ x y. ok (ltb y x);
  less = λ x y. ok (ltb x y);
  round = λ x. ok x;
  round_to = λ x d. ok x;
}

abbrev names : Dict ℕ
names = ("_v0", 40) ∷ ("_v1", 5) ∷ []

-- max(_v0, 3) + _v1 * 2
abbrev expression : Node ℕ
expression =
    binary add (call (name "max") (node (name "_v0") (node (number 3) end)) end)
      (binary mult (name "_v1") (number 2))

expression_value : safe_eval numbers names (ok expression) ≡ ok 50
unfolding safe_eval eval safe_func get
expression_value = refl

exponent_refused :
    safe_eval numbers names (ok (binary pow (number 2) (name "_v0")))
    ≡ raised (problem exponent_out_of_bounds)
unfolding safe_eval eval safe_func get
exponent_refused = refl

attribute_call_refused :
    safe_eval numbers names (ok (call (other "os.system") (node (number 1) end) end))
    ≡ raised (problem unsupported_call)
unfolding safe_eval eval safe_func get
attribute_call_refused = refl

-- round(7, ndigits=<anything>): the keyword argument is passed over.
keyword_ignored :
    safe_eval numbers names (ok (call (name "round") (node (number 7) end) (node (other "x") end)))
    ≡ ok 7
unfolding safe_eval eval safe_func get
keyword_ignored = refl

safe_eval-Judged_example :
    Judged (is_supported names expression) (safe_eval numbers names (ok expression))
    × ((w : ℕ)
        → (safe_eval numbers names (ok expression) ≡ ok w)
          ↔ ((v : ℕ) × Gives numbers names expression v × (numbers.to_float v ≡ ok w)))
safe_eval-Judged_example = safe_eval-Judged numbers names expression

-- A ref that is a part of another one is replaced after it.
longest_ref_first :
    substitute_placeholders {V = ℕ}
      (codes "a::flow + ba::flow")
      ((codes "a::flow", 1) ∷ (codes "ba::flow", 2) ∷ [])
    ≡ (codes "_v1 + _v0", ("_v0", 2) ∷ ("_v1", 1) ∷ [])
unfolding substitute_placeholders put_placeholders longest_first sort insert_sorted replace
    replace_from put decimal
longest_ref_first = refl
