-- ===== src/Geometry/Guarantee.antt =====
-- How near the points that `simplify` of src/kayak/utils/simplify.py drops are to the line it returns.
use kayak_python.Base.{
  ℕ, zero, suc, ◌+◌, ◌-◌, ◌*◌, ◌≤◌, ◌<◌, ◌≡◌, ◌⊎◌, refl, ap, ◌∙◌, Bool, true, false, ◌||◌, some,
  List, [], ◌∷◌, length, set, leb, if◌then◌else◌, ◌==◌, Bool-cases, inl, inr, arith,
}
use kayak_python.Geometry.{Floats, distance_at, loop, select, all_false, simplify}
use kayak_python.Geometry.Split.{IsOrder, mark, steps, loop-Tree}
use kayak_python.Geometry.Marks.{
  is_kept, is_kept-set, length-set, Segments, in_tree, length-mark, is_kept-mark, Gap, gap,
}

module _ {D : Type 0} (c : Floats D) (epsilon : D) (o : IsOrder c epsilon)
    (points : List (D × D)) where
  -- A point that is not kept, between the neighbours a and b that are.
  pub record IsNear (keep : List Bool) (i : ℕ) : Type 0 where
    pub a : ℕ
    pub b : ℕ
    pub a_before : a < i
    pub b_after : i < b
    pub keeps_a : is_kept keep a ≡ true
    pub keeps_b : is_kept keep b ≡ true
    pub none_between : (j : ℕ) → a < j → j < b → is_kept keep j ≡ false
    pub near : c.gt (distance_at c points a b i) epsilon ≡ false

  -- The marks before the loop: both ends.
  abbrev ends : List Bool
  ends = set (set (all_false points) 0 true) (length points - 1) true

  is_kept-all_false : (ps : List (D × D)) (i : ℕ) → is_kept (all_false ps) i ≡ false
  is_kept-all_false [] i = refl
  is_kept-all_false (p ∷ ps) zero = refl
  is_kept-all_false (p ∷ ps) (suc i) = is_kept-all_false ps i

  length-all_false : (ps : List (D × D)) → length (all_false ps) ≡ length ps
  length-all_false [] = refl
  length-all_false (p ∷ ps) = ap suc (length-all_false ps)

  length-ends : length ends ≡ length points
  length-ends =
      length-set (set (all_false points) 0 true) (length points - 1)
      ∙ length-set (all_false points) 0
      ∙ length-all_false points

  is_kept-ends : (i : ℕ) → i < length points → is_kept ends i ≡ ((length points - 1) == i || 0 == i)
  is_kept-ends i h = ground (
    arith,
    is_kept-set (set (all_false points) 0 true) (length points - 1) i,
    is_kept-set (all_false points) 0 i,
    length-set (all_false points) 0,
    length-all_false points,
    is_kept-all_false points i,
    h,
  )

  module _ (t : Segments c epsilon o points 0 (length points - 1)) where
    abbrev kept : List Bool
    kept = mark c epsilon o points t ends

    is_kept-kept :
        (i : ℕ)
        → i < length points
        → is_kept kept i ≡ (in_tree c epsilon o points t i || ((length points - 1) == i || 0 == i))
    is_kept-kept i h =
        is_kept-mark c epsilon o points t ends i (omega (arith, h, length-ends))
        ∙ ap (λ b. in_tree c epsilon o points t i || b) (is_kept-ends i h)

    IsNear-or_kept : (i : ℕ) → i < length points → (is_kept kept i ≡ true) ⊎ IsNear kept i
    IsNear-or_kept i h = elim (Bool-cases ((length points - 1) == i || 0 == i)) [
      | inl q ↦ inl (ground (arith, q, is_kept-kept i h))
      | inr q ↦ inside (gap c epsilon o points t i (ground (arith, q)) (ground (arith, q, h)))
    ]
      where
        inside :
            (in_tree c epsilon o points t i ≡ true) ⊎ Gap c epsilon o points t i
            → (is_kept kept i ≡ true) ⊎ IsNear kept i
        inside (inl k) = inl (ground (arith, k, is_kept-kept i h))
        inside (inr g) = inr record {
          a = g.a;
          b = g.b;
          a_before = g.before.1;
          b_after = g.after.0;
          keeps_a = ground (arith, g.keeps_a, is_kept-kept g.a, g.before.1, h);
          keeps_b = ground (arith, g.keeps_b, is_kept-kept g.b, g.after.1, h);
          none_between =
              λ j u v. ground (arith, g.none_between j u v, is_kept-kept j, g.after.1, h, u, v);
          near = g.near;
        }

  -- The run of `simplify` on more than two points, with the marks of the points that it keeps.
  pub record IsSimplified (keep : List Bool) : Type 0 where
    pub returns : simplify c points epsilon ≡ some (select points keep)
    pub marks_each : length keep ≡ length points
    pub keeps_first : is_kept keep 0 ≡ true
    pub keeps_last : is_kept keep (length points - 1) ≡ true
    pub near_or_kept : (i : ℕ) → i < length points → (is_kept keep i ≡ true) ⊎ IsNear keep i

  loop-ends :
      (t : Segments c epsilon o points 0 (length points - 1))
      → steps c epsilon o points t + 1 ≤ 2 * (length points - 1 - 0)
      → ((fuel : ℕ) (stack : List (ℕ × ℕ)) (keep : List Bool)
          → loop c points epsilon
              (steps c epsilon o points t + fuel)
              ((0, length points - 1) ∷ stack)
              keep
            ≡ loop c points epsilon fuel stack (mark c epsilon o points t keep))
      → loop c points epsilon (2 * length points) ((0, length points - 1) ∷ []) ends ≡ some (kept t)
  unfolding loop
  loop-ends t few runs =
      let rest = 2 * length points - steps c epsilon o points t in
      let enough : 2 * length points ≡ steps c epsilon o points t + rest = omega (arith, few) in
      ap (λ f. loop c points epsilon f ((0, length points - 1) ∷ []) ends) enough
      ∙ runs rest [] ends

  simplify_many :
      (keep : List Bool)
      → 2 < length points
      → loop c points epsilon (2 * length points) ((0, length points - 1) ∷ []) ends ≡ some keep
      → simplify c points epsilon ≡ some (select points keep)
  unfolding simplify
  simplify_many keep h q =
      let many : leb (length points) 2 ≡ false = ground (arith, h) in
      rw (many, if◌then◌else◌, q) refl

  -- For more than two points and an epsilon that is not negative, `simplify` returns within its fuel
  -- the points of some marks, one mark for each point: both ends are marked, and a point that is not
  -- stands between two neighbours that are and is not farther than epsilon from the segment between
  -- them.
  pub simplify-IsSimplified : 2 < length points → (keep : List Bool) × IsSimplified keep
  simplify-IsSimplified h =
      let (t, few, runs) =
        loop-Tree c epsilon o points (length points - 1) 0 (length points - 1) (omega (arith, h))
          (omega arith) in
      (
        kept t,
        record {
          returns = simplify_many (kept t) h (loop-ends t few runs);
          marks_each = length-mark c epsilon o points t ends ∙ length-ends;
          keeps_first = ground (arith, is_kept-kept t 0, h);
          keeps_last = ground (arith, is_kept-kept t (length points - 1), h);
          near_or_kept = IsNear-or_kept t;
        },
      )
