-- ===== src/Geometry.antt =====
-- `simplify` of src/kayak/utils/simplify.py: the points of a line that Douglas and Peucker keep. The
-- arithmetic of floating-point numbers is a parameter. The stack is a list whose first item is the last
-- one that was appended.
pub mod Split
mod Marks
pub mod Guarantee
mod Tests
use mathlib.Core.Option
use kayak_python.Base.{
  ℕ, zero, suc, ◌+◌, ◌-◌, ◌*◌, Bool, true, false, Option, none, some, List, [], ◌∷◌, length, set,
  map, leb, get_elem?, if◌then◌else◌, ◌&&◌,
}

-- The floating-point numbers that the code computes with, where no operation overflows and no square
-- of a difference that is not zero comes out as zero; `is_zero x` is `x == 0`, `root x` is
-- `x ** 0.5`, and `gt x y` is `x > y`.
pub record Floats (D : Type 0) : Type 0 where
  pub zero : D
  pub one : D
  pub plus : D → D → D
  pub minus : D → D → D
  pub times : D → D → D
  pub over : D → D → D
  pub root : D → D
  pub is_zero : D → Bool
  pub gt : D → D → Bool

-- `[p for i, p in enumerate(points) if keep[i]]`
abbrev pub select : {P : Type 0} → List P → List Bool → List P
select [] keep = []
select (p ∷ points) [] = []
select (p ∷ points) (k ∷ keep) = if k then p ∷ select points keep else select points keep

abbrev pub all_false : {P : Type 0} → List P → List Bool
all_false points = map (λ p. false) points

module _ {D : Type 0} (c : Floats D) where
  -- `max(0, min(1, u))`
  abbrev clamp : D → D
  clamp u = let low = if c.gt c.one u then u else c.one in if c.gt low c.zero then low else c.zero

  -- `((a[0] - x) ** 2 + (a[1] - y) ** 2) ** 0.5`
  abbrev distance_to : D × D → D × D → D
  distance_to (px, py) (x, y) =
      c.root
        (c.plus (c.times (c.minus px x) (c.minus px x)) (c.times (c.minus py y) (c.minus py y)))

  abbrev projection : D × D → D × D → D → D → D × D
  projection (px, py) (sx, sy) dx dy =
      let mag_sq = c.plus (c.times dx dx) (c.times dy dy) in
      let along = c.plus (c.times (c.minus px sx) dx) (c.times (c.minus py sy) dy) in
      let u = clamp (c.over along mag_sq) in (c.plus sx (c.times u dx), c.plus sy (c.times u dy))

  -- `_perpendicular_distance`
  unfoldable pub perpendicular_distance : D × D → D × D → D × D → D
  perpendicular_distance point start end =
      let dx = c.minus end.0 start.0 in
      let dy = c.minus end.1 start.1 in
      if c.is_zero dx && c.is_zero dy
      then distance_to point start
      else distance_to point (projection point start dx dy)

  abbrev pub distance_of : Option (D × D) → Option (D × D) → Option (D × D) → D
  distance_of (some point) (some start) (some end) = perpendicular_distance point start end
  distance_of _ _ _ = c.zero

  -- `_perpendicular_distance(points[i], points[start_idx], points[end_idx])`; the indices are in
  -- range.
  unfoldable pub distance_at : List (D × D) → ℕ → ℕ → ℕ → D
  distance_at points s e i =
      distance_of (get_elem? points i) (get_elem? points s) (get_elem? points e)

  -- `for i in range(start_idx + 1, end_idx)`, with `k` rounds left.
  unfoldable pub farthest : List (D × D) → ℕ → ℕ → ℕ → ℕ → D × ℕ → D × ℕ
  unfolding distance_at
  farthest points s e zero i best = best
  farthest points s e (suc k) i best =
      let d = distance_at points s e i in
      farthest points s e k (i + 1) (if c.gt d best.0 then (d, i) else best)

  unfoldable pub farthest_between : List (D × D) → ℕ → ℕ → D × ℕ
  unfolding farthest
  farthest_between points s e = farthest points s e (e - (s + 1)) (s + 1) (c.zero, s)

  -- The `while` loop on fuel; `none` when it is spent.
  unfoldable pub loop : List (D × D) → D → ℕ → List (ℕ × ℕ) → List Bool → Option (List Bool)
  unfolding farthest_between
  loop points epsilon fuel [] keep = some keep
  loop points epsilon zero (seg ∷ stack) keep = none
  loop points epsilon (suc fuel) ((s, e) ∷ stack) keep =
      let best = farthest_between points s e in
      elim (c.gt best.0 epsilon) [
        | true ↦
            loop points epsilon fuel ((best.1, e) ∷ ((s, best.1) ∷ stack)) (set keep best.1 true)
        | false ↦ loop points epsilon fuel stack keep
      ]

  -- `simplify`, with a fuel of twice the number of points.
  unfoldable pub simplify : List (D × D) → D → Option (List (D × D))
  unfolding loop
  simplify points epsilon =
      if leb (length points) 2
      then some points
      else let keep = set (set (all_false points) 0 true) (length points - 1) true in
        Option.map (select points)
          (loop points epsilon (2 * length points) ((0, length points - 1) ∷ []) keep)
