-- ===== src/Geometry/Split.antt =====
-- The loop of `simplify` of src/kayak/utils/simplify.py splits a segment until no point between its
-- ends is farther than epsilon.
use kayak_python.Base.{
  ℕ, zero, suc, ◌+◌, ◌-◌, ◌*◌, ◌≤◌, ◌<◌, ◌≡◌, ◌⊎◌, refl, sym, ap, ◌∙◌, subst, Bool, true, false,
  List, ◌∷◌, set, if◌then◌else◌, ◌==◌, Bool-cases, inl, inr, arith,
}
use kayak_python.Geometry.{Floats, distance_at, farthest, farthest_between, loop}

-- What the code relies on of `>` on distances, for an epsilon that is not negative.
pub record IsOrder {D : Type 0} (c : Floats D) (epsilon : D) : Type 0 where
  pub irrefl : (a : D) → c.gt a a ≡ false
  pub cotrans : (a b d : D) → c.gt a b ≡ false → c.gt b d ≡ false → c.gt a d ≡ false
  pub asym : (a b : D) → c.gt a b ≡ true → c.gt b a ≡ false
  pub not_negative : c.gt c.zero epsilon ≡ false

module _ {D : Type 0} (c : Floats D) (epsilon : D) (o : IsOrder c epsilon)
    (points : List (D × D)) where
  -- No point between is farther from the segment than epsilon.
  abbrev pub IsFlat : ℕ → ℕ → Type 0
  IsFlat s e = (i : ℕ) → s < i → i < e → c.gt (distance_at c points s e i) epsilon ≡ false

  -- A segment, split again and again at points between its ends.
  pub data Tree : ℕ → ℕ → Type 0 where
    flat : (s e : ℕ) → s < e → IsFlat s e → Tree s e
    split : (s m e : ℕ) → Tree s m → Tree m e → Tree s e

  -- The best point is not nearer than those seen, and is one of them unless none is off.
  module _ (s e : ℕ) where
    next_best : ℕ → D × ℕ → D × ℕ
    next_best i best =
        if c.gt (distance_at c points s e i) best.0 then (distance_at c points s e i, i) else best

    next_best_bounds :
        (i : ℕ) (best : D × ℕ)
        → (c.gt best.0 (next_best i best).0 ≡ false)
          × (c.gt (distance_at c points s e i) (next_best i best).0 ≡ false)
    unfolding next_best
    next_best_bounds i best = elim (Bool-cases (c.gt (distance_at c points s e i) best.0)) [
      | inl h ↦
          rw (h, if◌then◌else◌)
            (o.asym (distance_at c points s e i) best.0 h, o.irrefl (distance_at c points s e i))
      | inr h ↦ rw (h, if◌then◌else◌) (o.irrefl best.0, h)
    ]

    grows : (k i : ℕ) (best : D × ℕ) → c.gt best.0 (farthest c points s e k i best).0 ≡ false
    unfolding farthest next_best
    grows zero i best = o.irrefl best.0
    grows (suc k) i best =
        o.cotrans best.0 (next_best i best).0 _ (next_best_bounds i best).0
          (grows k (i + 1) (next_best i best))

    not_nearer :
        (k i : ℕ) (best : D × ℕ) (j : ℕ)
        → i ≤ j
        → j < i + k
        → c.gt (distance_at c points s e j) (farthest c points s e k i best).0 ≡ false
    unfolding farthest next_best
    not_nearer zero i best j h g = absurd (omega arith)
    not_nearer (suc k) i best j h g = elim (Bool-cases (i == j)) [
      | inl q ↦
          (let same : i ≡ j = ground arith in
            subst
              (λ n.
                c.gt (distance_at c points s e n) (farthest c points s e (suc k) i best).0 ≡ false)
              same
              (o.cotrans (distance_at c points s e i) (next_best i best).0 _
                (next_best_bounds i best).1 (grows k (i + 1) (next_best i best))))
      | inr q ↦ not_nearer k (i + 1) (next_best i best) j (ground arith) (omega (arith, g))
    ]

    abbrev IsFound : ℕ → ℕ → D × ℕ → D × ℕ → Type 0
    IsFound k i best b = (b ≡ best) ⊎ ((i ≤ b.1) × (b.1 < i + k))

    widen : (k i : ℕ) (best b : D × ℕ) → IsFound k (i + 1) best b → IsFound (suc k) i best b
    widen k i best b (inl q) = inl q
    widen k i best b (inr (p, q)) = inr (omega (arith, p), omega (arith, q))

    here :
        (k i : ℕ) (best b : D × ℕ) (d : D) → IsFound k (i + 1) (d, i) b → IsFound (suc k) i best b
    here k i best b d (inl q) =
        let a : b.1 ≡ i = ap (λ x. x.1) q in inr (omega (arith, a), omega (arith, a))
    here k i best b d (inr (p, q)) = inr (omega (arith, p), omega (arith, q))

    found : (k i : ℕ) (best : D × ℕ) → IsFound k i best (farthest c points s e k i best)
    unfolding farthest next_best
    found zero i best = inl refl
    found (suc k) i best = elim (Bool-cases (c.gt (distance_at c points s e i) best.0)) [
      | inr h ↦
          (let same : next_best i best ≡ best = rw (h, if◌then◌else◌) refl in
            subst (IsFound (suc k) i best) (ap (farthest c points s e k (i + 1)) (sym same))
              (widen k i best _ (found k (i + 1) best)))
      | inl h ↦
          (let moved : next_best i best ≡ (distance_at c points s e i, i) =
              rw (h, if◌then◌else◌) refl in
            subst (IsFound (suc k) i best) (ap (farthest c points s e k (i + 1)) (sym moved)) (
              here k i best _ (distance_at c points s e i)
                (found k (i + 1) (distance_at c points s e i, i))))
    ]

  -- The points that a tree keeps between its ends, marked in the order of the loop.
  abbrev pub mark : {s e : ℕ} → Tree s e → List Bool → List Bool
  mark (flat s e h f) keep = keep
  mark (split s m e l r) keep = mark l (mark r (set keep m true))

  abbrev pub steps : {s e : ℕ} → Tree s e → ℕ
  steps (flat s e h f) = 1
  steps (split s m e l r) = suc (steps r + steps l)

  flat_step :
      (fuel s e : ℕ) (stack : List (ℕ × ℕ)) (keep : List Bool)
      → c.gt (farthest_between c points s e).0 epsilon ≡ false
      → loop c points epsilon (suc fuel) ((s, e) ∷ stack) keep
        ≡ loop c points epsilon fuel stack keep
  unfolding loop
  flat_step fuel s e stack keep g = rw (g, loop) refl

  split_step :
      (fuel s e m : ℕ) (stack : List (ℕ × ℕ)) (keep : List Bool)
      → c.gt (farthest_between c points s e).0 epsilon ≡ true
      → (farthest_between c points s e).1 ≡ m
      → loop c points epsilon (suc fuel) ((s, e) ∷ stack) keep
        ≡ loop c points epsilon fuel ((m, e) ∷ ((s, m) ∷ stack)) (set keep m true)
  unfolding loop
  split_step fuel s e m stack keep g q = rw (g, q, loop) refl

  IsFlat-best :
      (s e : ℕ) → s < e → c.gt (farthest_between c points s e).0 epsilon ≡ false → IsFlat s e
  unfolding farthest_between
  IsFlat-best s e h g i p q =
      o.cotrans (distance_at c points s e i) (farthest_between c points s e).0 epsilon
        (not_nearer s e (e - (s + 1)) (s + 1) (c.zero, s) i (omega (arith, p))
          (omega (arith, p, q)))
        g

  split_between :
      (s e : ℕ)
      → s < e
      → c.gt (farthest_between c points s e).0 epsilon ≡ true
      → (s < (farthest_between c points s e).1) × ((farthest_between c points s e).1 < e)
  unfolding farthest_between
  split_between s e h g = between (found s e (e - (s + 1)) (s + 1) (c.zero, s))
    where
      absurd_gt : c.gt c.zero epsilon ≡ true → ⊥
      absurd_gt k = ground (arith, k, o.not_negative)

      between :
          IsFound s e (e - (s + 1)) (s + 1) (c.zero, s) (farthest_between c points s e)
          → (s < (farthest_between c points s e).1) × ((farthest_between c points s e).1 < e)
      between (inl q) = absurd (absurd_gt (ap (λ x. c.gt x.0 epsilon) (sym q) ∙ g))
      between (inr (p, q)) = (omega (arith, p), omega (arith, q, h))

  -- The loop, started on a segment, works off a tree of it, and then goes on with the stack.
  pub loop-Tree :
      (n s e : ℕ)
      → s < e
      → e ≤ s + n
      → (t : Tree s e) × (steps t + 1 ≤ 2 * (e - s))
        × ((fuel : ℕ) (stack : List (ℕ × ℕ)) (keep : List Bool)
            → loop c points epsilon (steps t + fuel) ((s, e) ∷ stack) keep
              ≡ loop c points epsilon fuel stack (mark t keep))
  loop-Tree zero s e h b = absurd (omega arith)
  loop-Tree (suc n) s e h b = elim (Bool-cases (c.gt (farthest_between c points s e).0 epsilon)) [
    | inr g ↦ (
      flat s e h (IsFlat-best s e h g),
      omega (arith, h),
      λ fuel stack keep.
          ap (λ f. loop c points epsilon f ((s, e) ∷ stack) keep) (omega arith)
          ∙ flat_step fuel s e stack keep g,
    )
    | inl g ↦
        (let m = (farthest_between c points s e).1 in
          let (low, high) = split_between s e h g in
          let (l, few_l, runs_l) = loop-Tree n s m low (omega (arith, high, b)) in
          let (r, few_r, runs_r) = loop-Tree n m e high (omega (arith, low, b)) in
          (
            split s m e l r,
            omega (arith, few_l, few_r, low, high),
            λ fuel stack keep.
                ap (λ f. loop c points epsilon f ((s, e) ∷ stack) keep) (omega arith)
                ∙ split_step (steps r + (steps l + fuel)) s e m stack keep g refl
                ∙ runs_r (steps l + fuel) ((s, m) ∷ stack) (set keep m true)
                ∙ runs_l fuel stack (mark r (set keep m true)),
          ))
  ]
