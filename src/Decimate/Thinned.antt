-- ===== src/Decimate/Thinned.antt =====
-- One thinning of src/kayak/cli/decimate.py: the rows that no other one beats.
use kayak_python.Base.{
  ℕ, ◌≡◌, refl, sym, ◌∙◌, Bool, true, false, not, ◌&&◌, ◌||◌, Option, List, [], ◌∷◌, All, any,
  keep_if, leb, ◌==◌, arith,
}
use mathlib.Core.List.{Mem}
use kayak_python.Base.Members.{any_of_mem, All-of_mem, mem-keep_if}
use kayak_python.Base.Search.{any-ext, any-keep_if}
use kayak_python.Observations.Store.{Observation}
use kayak_python.Cache.Newest.{First, no_row, first, first_row-First, same_type_self, same_type_sym}
use kayak_python.Decimate.Thin.{Thinning, beats, comes_before, same_partition, same_row}
use kayak_python.Decimate.Survivors.{is_beaten}

-- SQLite numbers the rows of a partition in some order: of two moments one comes first.
pub record IsOrder (tie : ℕ → ℕ → Bool) : Type 0 where
  pub asym : (a b : ℕ) → (tie a b && tie b a) ≡ false
  pub trans : (a b c : ℕ) → tie a b ≡ true → tie b c ≡ true → tie a c ≡ true
  pub connected : (a b : ℕ) → (tie a b || (tie b a || a == b)) ≡ true

module _ (tie : ℕ → ℕ → Bool) (o : IsOrder tie) (w : Thinning) where
  comes_before-asym : (a b : ℕ) → (comes_before tie w a b && comes_before tie w b a) ≡ false
  comes_before-asym a b = ground (arith, o.asym a b)

  comes_before-cotrans :
      (a b c : ℕ)
      → comes_before tie w b a ≡ false
      → comes_before tie w c b ≡ false
      → comes_before tie w c a ≡ false
  comes_before-cotrans a b c h k = ground (
    arith,
    o.connected a b,
    o.connected b c,
    o.trans c a b,
    o.asym a b,
    o.asym b c,
    o.trans a b c,
    o.asym a c,
  )

-- The buckets do not overlap.
pub record IsBucketing (w : Thinning) : Type 0 where
  pub self : (a : ℕ) → w.same_bucket a a ≡ true
  pub sym : (a b : ℕ) → w.same_bucket a b ≡ w.same_bucket b a
  pub trans :
      (a b c : ℕ) → w.same_bucket a b ≡ true → w.same_bucket b c ≡ true → w.same_bucket a c ≡ true

module _ {V : Type 0} (tie : ℕ → ℕ → Bool) (w : Thinning) where
  -- The rows that are left come from the table. Each row that the thinning is about has among them
  -- one of its partition that is no farther from the middle, and no partition has two.
  pub record IsThinned (before after : List (Observation ℕ V)) : Type 0 where
    pub nothing_new : (a : Observation ℕ V) → Mem a after → Mem a before
    pub nearest :
        (a : Observation ℕ V)
        → Mem a before
        → w.within a.observed_at ≡ true
        → any
            (λ q.
              w.within q.observed_at
              && (same_partition tie w q a
                  && leb (w.off_middle q.observed_at) (w.off_middle a.observed_at)))
            after
          ≡ true
    pub alone :
        (a b : Observation ℕ V)
        → Mem a after
        → Mem b after
        → (w.within a.observed_at && w.within b.observed_at && same_partition tie w a b) ≡ true
        → same_row a b ≡ true

module _ {V : Type 0} (tie : ℕ → ℕ → Bool) (o : IsOrder tie) (w : Thinning) where
  module _ (b : IsBucketing w) (obs : List (Observation ℕ V)) where
    open b use {self, trans}

    rivals : Observation ℕ V → Observation ℕ V → Bool
    rivals x q = w.within q.observed_at && same_partition tie w q x

    unbeaten :
        (x a : Observation ℕ V) (os : List (Observation ℕ V))
        → rivals x a ≡ true
        → All
            (λ q. (not (rivals x q) || not (comes_before tie w q.observed_at a.observed_at)) ≡ true)
            os
        → any (λ q. w.within q.observed_at && beats tie w q a) os ≡ false
    unfolding rivals
    unbeaten x a [] p h = refl
    unbeaten x a (q ∷ os) p h =
        ground
          (arith, p, h.0, unbeaten x a os p h.1, trans q.observed_at a.observed_at x.observed_at)

    All-false-any :
        (p : Observation ℕ V → Bool) (os : List (Observation ℕ V))
        → All (λ q. p q ≡ false) os
        → any p os ≡ false
    All-false-any p [] h = refl
    All-false-any p (q ∷ os) h = ground (arith, h.0, All-false-any p os h.1)

    -- A filter that lets the unbeaten rows of the thinning through, and no others of it.
    module _ (kept : Observation ℕ V → Bool)
        (keeps : (a : Observation ℕ V)
          → w.within a.observed_at ≡ true
          → kept a ≡ not (is_beaten tie w obs a)) where
      is_near : Observation ℕ V → Observation ℕ V → Bool
      is_near a q =
          w.within q.observed_at
          && (same_partition tie w q a
              && leb (w.off_middle q.observed_at) (w.off_middle a.observed_at))

      first-nearest :
          (a : Observation ℕ V) (r : Option (Observation ℕ V))
          → Mem a obs
          → w.within a.observed_at ≡ true
          → First (λ p q. not (comes_before tie w q.observed_at p.observed_at)) (rivals a) obs r
          → any (λ q. kept q && is_near a q) obs ≡ true
      unfolding rivals is_near
      first-nearest a _ m h (no_row n) = absurd (
          ground (
            arith,
            All-false-any (rivals a) obs n,
            any_of_mem (rivals a) obs m
                (ground (arith, h, self a.observed_at, same_type_self a.data_type)),
          ))
      first-nearest a _ m h (first q k p n) =
          any_of_mem (λ x. kept x && is_near a x) obs k
            (ground (
              arith,
              p,
              keeps q,
              unbeaten a q obs p n,
              self a.observed_at,
              same_type_self a.data_type,
              h,
              All-of_mem
                  (λ x. not (rivals a x) || not (comes_before tie w x.observed_at q.observed_at))
                  obs m n,
            ))

      rival_loses :
          (x y : Observation ℕ V)
          → Mem y obs
          → kept x ≡ true
          → (w.within x.observed_at && w.within y.observed_at) ≡ true
          → beats tie w y x ≡ false
      rival_loses x y m k h =
          ground (arith, keeps x, any_of_mem (λ q. w.within q.observed_at && beats tie w q x) obs m)

      alone_row :
          (x y : Observation ℕ V)
          → Mem x obs
          → Mem y obs
          → kept x ≡ true
          → kept y ≡ true
          → (w.within x.observed_at && w.within y.observed_at && same_partition tie w x y) ≡ true
          → same_row x y ≡ true
      alone_row x y m n k l h = ground (
        arith,
        rival_loses x y n k,
        rival_loses y x m l,
        o.connected x.observed_at y.observed_at,
        b.sym x.observed_at y.observed_at,
        same_type_sym x.data_type y.data_type,
      )

      pub keep_if-IsThinned : IsThinned tie w obs (keep_if kept obs)
      unfolding is_near rivals
      keep_if-IsThinned = record {
        nothing_new = λ a m. (mem-keep_if kept a obs m).1;
        nearest = λ a m h.
            any-keep_if (is_near a) kept obs
            ∙ first-nearest a _ m h (
                first_row-First (λ p q. not (comes_before tie w q.observed_at p.observed_at))
                  (rivals a)
                  (λ p q. ground (arith, comes_before-asym tie o w q.observed_at p.observed_at))
                  (λ p q r h k. ground (
                    arith,
                    comes_before-cotrans tie o w p.observed_at q.observed_at r.observed_at,
                    h,
                    k,
                  ))
                  obs);
        alone = λ x y m n h.
            alone_row x y (mem-keep_if kept x obs m).1 (mem-keep_if kept y obs n).1
              (mem-keep_if kept x obs m).0 (mem-keep_if kept y obs n).0 h;
      }

-- Two descriptions of one thinning: the same rows, the same buckets, and the same order in them.
module _ {V : Type 0} (tie : ℕ → ℕ → Bool) (w w' : Thinning)
    (within : (a : ℕ) → w'.within a ≡ w.within a)
    (bucket : (a b : ℕ) → w'.same_bucket a b ≡ w.same_bucket a b)
    (nearer : (a b : ℕ)
      → leb (w'.off_middle a) (w'.off_middle b) ≡ leb (w.off_middle a) (w.off_middle b)) where
  pub IsThinned-same :
      (before after : List (Observation ℕ V))
      → IsThinned tie w before after
      → IsThinned tie w' before after
  IsThinned-same before after t = record {
    nothing_new = t.nothing_new;
    nearest = λ a m h.
        any-ext _ _
          (λ q. ground (
            arith,
            within q.observed_at,
            bucket q.observed_at a.observed_at,
            nearer q.observed_at a.observed_at,
          ))
          after
        ∙ t.nearest a m (sym (within a.observed_at) ∙ h);
    alone = λ a b m n h. t.alone a b m n (
        ground (
          arith,
          h,
          within a.observed_at,
          within b.observed_at,
          bucket a.observed_at b.observed_at,
        ));
  }
