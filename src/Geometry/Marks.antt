-- ===== src/Geometry/Marks.antt =====
-- Which points the loop of `simplify` of src/kayak/utils/simplify.py marks, and what lies between two
-- neighbours of them.
use kayak_python.Base.{
  ℕ, zero, suc, ◌≤◌, ◌<◌, ◌≡◌, ◌⊎◌, refl, ap, ◌∙◌, Bool, true, false, ◌||◌, Option, none, some,
  List, [], ◌∷◌, length, set, ltb, get_elem?, ◌==◌, Bool-cases, inl, inr, arith,
}
use kayak_python.Geometry.{Floats, distance_at}
use kayak_python.Geometry.Split.{IsOrder, Tree, flat, split, mark}

abbrev is_marked : Option Bool → Bool
is_marked none = false
is_marked (some b) = b

abbrev pub is_kept : List Bool → ℕ → Bool
is_kept keep i = is_marked (get_elem? keep i)

pub is_kept-set :
    (keep : List Bool) (m i : ℕ)
    → i < length keep
    → is_kept (set keep m true) i ≡ (m == i || is_kept keep i)
is_kept-set [] m i h = absurd (omega (arith, h))
is_kept-set (k ∷ keep) zero zero h = refl
is_kept-set (k ∷ keep) zero (suc i) h = ground arith
is_kept-set (k ∷ keep) (suc m) zero h = ground arith
is_kept-set (k ∷ keep) (suc m) (suc i) h = ground (arith, is_kept-set keep m i)

pub length-set : (keep : List Bool) (m : ℕ) → length (set keep m true) ≡ length keep
length-set [] m = refl
length-set (k ∷ keep) zero = refl
length-set (k ∷ keep) (suc m) = ap suc (length-set keep m)

module _ {D : Type 0} (c : Floats D) (epsilon : D) (o : IsOrder c epsilon)
    (points : List (D × D)) where
  abbrev pub Segments : ℕ → ℕ → Type 0
  Segments = Tree c epsilon o points

  abbrev pub in_tree : {s e : ℕ} → Segments s e → ℕ → Bool
  in_tree (flat s e h f) i = false
  in_tree (split s m e l r) i = m == i || (in_tree l i || in_tree r i)

  pub length-mark :
      {s e : ℕ} (t : Segments s e) (keep : List Bool)
      → length (mark c epsilon o points t keep) ≡ length keep
  length-mark (flat s e h f) keep = refl
  length-mark (split s m e l r) keep =
      length-mark l (mark c epsilon o points r (set keep m true))
      ∙ length-mark r (set keep m true)
      ∙ length-set keep m

  pub is_kept-mark :
      {s e : ℕ} (t : Segments s e) (keep : List Bool) (i : ℕ)
      → i < length keep
      → is_kept (mark c epsilon o points t keep) i ≡ (in_tree t i || is_kept keep i)
  is_kept-mark (flat s e h f) keep i g = refl
  is_kept-mark (split s m e l r) keep i g =
      is_kept-mark l (mark c epsilon o points r (set keep m true)) i
        (omega (arith, g, length-mark r (set keep m true), length-set keep m))
      ∙ ap (λ b. in_tree l i || b)
          (is_kept-mark r (set keep m true) i (omega (arith, g, length-set keep m)))
      ∙ ground (arith, is_kept-set keep m i)

  tree_bounds :
      {s e : ℕ} (t : Segments s e) (i : ℕ) → (s < e) × (in_tree t i ≡ true → (s < i) × (i < e))
  tree_bounds (flat s e h f) i = (h, λ g. absurd (ground (arith, g)))
  tree_bounds (split s m e l r) i =
      let a = tree_bounds l i in
      let b = tree_bounds r i in
      (omega (arith, a.0, b.0), λ g. ground (arith, g, a.0, b.0, a.1, b.1))

  -- Between two neighbours a and b of the points that a tree keeps, with its ends.
  pub record Gap {s e : ℕ} (t : Segments s e) (i : ℕ) : Type 0 where
    pub a : ℕ
    pub b : ℕ
    pub before : (s ≤ a) × (a < i)
    pub after : (i < b) × (b ≤ e)
    pub keeps_a : (a == s || in_tree t a) ≡ true
    pub keeps_b : (b == e || in_tree t b) ≡ true
    pub none_between : (j : ℕ) → a < j → j < b → in_tree t j ≡ false
    pub near : c.gt (distance_at c points a b i) epsilon ≡ false

  pub gap : {s e : ℕ} (t : Segments s e) (i : ℕ) → s < i → i < e → (in_tree t i ≡ true) ⊎ Gap t i
  gap (flat s e h f) i p q = inr record {
    a = s;
    b = e;
    before = omega (arith, p);
    after = omega (arith, q);
    keeps_a = ground arith;
    keeps_b = ground arith;
    none_between = λ j u v. refl;
    near = f i p q;
  }
  gap (split s m e l r) i p q = elim (Bool-cases (ltb i m)) [
    | inl x ↦ low (gap l i p (ground (arith, x)))
    | inr x ↦ elim (Bool-cases (m == i)) [
      | inl y ↦ inl (ground (arith, y))
      | inr y ↦ high (gap r i (ground (arith, x, y)) q)
    ]
  ]
    where
      low :
          (in_tree l i ≡ true) ⊎ Gap l i
          → (in_tree (split s m e l r) i ≡ true) ⊎ Gap (split s m e l r) i
      low (inl k) = inl (ground (arith, k))
      low (inr g) = inr record {
        a = g.a;
        b = g.b;
        before = g.before;
        after = omega (arith, g.after.0, g.after.1, (tree_bounds r i).0);
        keeps_a = ground (arith, g.keeps_a);
        keeps_b = ground (arith, g.keeps_b);
        none_between = λ j u v. ground (arith, g.none_between j u v, tree_bounds r j, g.after.1, v);
        near = g.near;
      }

      high :
          (in_tree r i ≡ true) ⊎ Gap r i
          → (in_tree (split s m e l r) i ≡ true) ⊎ Gap (split s m e l r) i
      high (inl k) = inl (ground (arith, k))
      high (inr g) = inr record {
        a = g.a;
        b = g.b;
        before = omega (arith, g.before.0, g.before.1, (tree_bounds l i).0);
        after = g.after;
        keeps_a = ground (arith, g.keeps_a);
        keeps_b = ground (arith, g.keeps_b);
        none_between =
            λ j u v. ground (arith, g.none_between j u v, tree_bounds l j, g.before.0, u);
        near = g.near;
      }
