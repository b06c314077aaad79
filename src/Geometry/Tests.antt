-- ===== src/Geometry/Tests.antt =====
-- Runs of `simplify` of src/kayak/utils/simplify.py.
use kayak_python.Base.{
  ℕ, ◌==◌, ◌+◌, ◌-◌, ◌*◌, ◌/◌, ◌≡◌, refl, Bool, some, List, [], ◌∷◌, ltb, arith,
}
use kayak_python.Geometry.{
  Floats, perpendicular_distance, distance_at, farthest, farthest_between, loop, simplify,
}
use kayak_python.Geometry.Split.{IsOrder}
use kayak_python.Geometry.Guarantee.{IsSimplified, simplify-IsSimplified}

-- Numbers without a sign or a fraction, and with squares for distances.
abbrev whole : Floats ℕ
whole = record {
  zero = 0;
  one = 1;
  plus = λ a b. a + b;
  minus = λ a b. (a - b) + (b - a);
  times = λ a b. a * b;
  over = λ a b. a / b;
  root = λ a. a;
  is_zero = λ a. a == 0;
  gt = λ a b. ltb b a;
}

abbrev line : List (ℕ × ℕ)
line = (0, 0) ∷ (1, 9) ∷ (2, 1) ∷ (3, 8) ∷ (4, 0) ∷ []

simplify_peak : simplify whole line 70 ≡ some ((0, 0) ∷ (1, 9) ∷ (4, 0) ∷ [])
unfolding simplify loop farthest_between farthest distance_at perpendicular_distance
simplify_peak = refl

simplify_all : simplify whole line 30 ≡ some line
unfolding simplify loop farthest_between farthest distance_at perpendicular_distance
simplify_all = refl

simplify_two : simplify whole ((3, 0) ∷ (4, 1) ∷ []) 4 ≡ some ((3, 0) ∷ (4, 1) ∷ [])
unfolding simplify
simplify_two = refl

whole-IsOrder : IsOrder whole 70
whole-IsOrder = record {
  irrefl = λ a. ground arith;
  cotrans = λ a b d p q. ground (arith, p, q);
  asym = λ a b p. ground (arith, p);
  not_negative = refl;
}

simplify-IsSimplified_example : (keep : List Bool) × IsSimplified whole 70 whole-IsOrder line keep
simplify-IsSimplified_example = simplify-IsSimplified whole 70 whole-IsOrder line (omega arith)
