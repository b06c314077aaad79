-- ===== src/Decimate/Survivors.antt =====
-- Which rows the DELETE statements of src/kayak/cli/decimate.py leave.
use kayak_python.Base.{
  ℕ, ◌≡◌, refl, sym, ap, ◌∙◌, Bool, true, false, not, ◌&&◌, ◌||◌, List, [], ◌∷◌, All, any, keep_if,
  length, ltb, ◌==◌, Bool-cases, inl, inr, arith,
}
use kayak_python.Base.Search.{
  ltb-length-keep_if, any-keep_if, any-ext, any-fixed, keep_if-ext, All-mono, All-any,
}
use kayak_python.Observations.Store.{Observation}
use kayak_python.Cache.Newest.{same_type_self, same_type→≡}
use kayak_python.Decimate.Thin.{
  Thinning, beats, same_row, row_number, surplus, count_surplus, surplus_of, thin,
}

module _ {V : Type 0} (tie : ℕ → ℕ → Bool) (w : Thinning) where
  -- Another row of the same partition stands before the row.
  abbrev pub is_beaten : List (Observation ℕ V) → Observation ℕ V → Bool
  is_beaten obs o = any (λ q. w.within q.observed_at && beats tie w q o) obs

  abbrev pub stays : List (Observation ℕ V) → Observation ℕ V → Bool
  stays obs o = not (w.within o.observed_at) || not (is_beaten obs o)

  abbrev goes : List (Observation ℕ V) → Observation ℕ V → Bool
  goes obs o = w.within o.observed_at && is_beaten obs o

  beats-same_row :
      (o x q : Observation ℕ V) → same_row o x ≡ true → beats tie w q x ≡ beats tie w q o
  beats-same_row o x q h =
      let s : x.source_id ≡ o.source_id = ground arith in
      let a : x.observed_at ≡ o.observed_at = ground arith in
      let t : o.data_type ≡ x.data_type = same_type→≡ o.data_type x.data_type (ground arith) in
      rw (s, a, sym t) refl

  goes-same_row :
      (obs : List (Observation ℕ V)) (o x : Observation ℕ V)
      → same_row o x ≡ true
      → goes obs x ≡ goes obs o
  goes-same_row obs o x h =
      let a : x.observed_at ≡ o.observed_at = ground arith in
      let b : is_beaten obs x ≡ is_beaten obs o =
        any-ext _ _ (λ q. ap (λ c. w.within q.observed_at && c) (beats-same_row o x q h)) obs in
      ground (arith, a, b)

  is_surplus :
      (obs : List (Observation ℕ V)) (o : Observation ℕ V)
      → ltb 1 (row_number tie w (keep_if (λ q. w.within q.observed_at) obs) o) ≡ is_beaten obs o
  unfolding row_number
  is_surplus obs o =
      ltb-length-keep_if (λ q. beats tie w q o) (keep_if (λ q. w.within q.observed_at) obs)
      ∙ any-keep_if (λ q. beats tie w q o) (λ q. w.within q.observed_at) obs

  any-surplus :
      (obs : List (Observation ℕ V)) (o : Observation ℕ V)
      → any (same_row o) (surplus tie w obs) ≡ (any (same_row o) obs && goes obs o)
  unfolding surplus
  any-surplus obs o =
      let ranked = keep_if (λ q. w.within q.observed_at) obs in
      any-keep_if (same_row o) (λ r. ltb 1 (row_number tie w ranked r)) ranked
      ∙ any-ext _ _ (λ r. ap (λ b. b && same_row o r) (is_surplus obs r)) ranked
      ∙ any-keep_if (λ r. is_beaten obs r && same_row o r) (λ q. w.within q.observed_at) obs
      ∙ any-ext _ (λ r. goes obs r && same_row o r) (λ r. ground arith) obs
      ∙ any-fixed (same_row o) (goes obs) (goes obs o) (goes-same_row obs o) obs

  All-present : (obs : List (Observation ℕ V)) → All (λ o. any (same_row o) obs ≡ true) obs
  All-present = All-any same_row (λ o. ground (arith, same_type_self o.data_type))

  -- No row is surplus when none is counted.
  pub stays-no_surplus :
      (obs : List (Observation ℕ V))
      → count_surplus tie w obs ≡ 0
      → All (λ o. stays obs o ≡ true) obs
  unfolding count_surplus
  stays-no_surplus obs h =
      All-mono
        (λ o k. ground (arith, any-surplus obs o, any-empty (same_row o) (surplus tie w obs) h)) obs
        (All-present obs)
    where
      any-empty :
          (p : Observation ℕ V → Bool) (os : List (Observation ℕ V))
          → length os ≡ 0
          → any p os ≡ false
      any-empty p [] e = refl
      any-empty p (o ∷ os) e = absurd (omega arith)

  module _ (i : ℕ) where
    abbrev is_of_source : Observation ℕ V → Bool
    is_of_source o = o.source_id == i

    -- The rows of one source, of which those that are not beaten stay.
    abbrev pub stays_or_other : List (Observation ℕ V) → Observation ℕ V → Bool
    stays_or_other obs o = not (o.source_id == i) || stays obs o

    own_rows :
        (obs : List (Observation ℕ V)) (o : Observation ℕ V)
        → any (same_row o) (keep_if is_of_source obs) ≡ (any (same_row o) obs && o.source_id == i)
    own_rows obs o =
        any-keep_if (same_row o) is_of_source obs
        ∙ any-fixed (same_row o) is_of_source (o.source_id == i) (λ x h. ground arith) obs

    own_rivals :
        (obs : List (Observation ℕ V)) (o : Observation ℕ V)
        → (o.source_id == i) ≡ true
        → is_beaten (keep_if is_of_source obs) o ≡ is_beaten obs o
    own_rivals obs o e =
        any-keep_if (λ q. w.within q.observed_at && beats tie w q o) is_of_source obs
        ∙ any-ext _ _ (λ q. ground (arith, e)) obs

    thins_row :
        (obs : List (Observation ℕ V)) (o : Observation ℕ V)
        → any (same_row o) obs ≡ true
        → not (any (same_row o) (surplus_of tie w i obs)) ≡ stays_or_other obs o
    unfolding surplus_of
    thins_row obs o h =
        let a = any-surplus (keep_if is_of_source obs) o in
        elim (Bool-cases (o.source_id == i)) [
          | inl e ↦ ground (arith, a, own_rows obs o, own_rivals obs o e, e, h)
          | inr e ↦ ground (arith, a, own_rows obs o, e)
        ]

    -- The statement for a source keeps the rows that are not beaten, and those of other sources.
    pub thin-stays :
        (obs : List (Observation ℕ V)) → thin tie w i obs ≡ keep_if (stays_or_other obs) obs
    unfolding thin
    thin-stays obs = keep_if-ext _ _ obs (All-mono (λ o h. thins_row obs o h) obs (All-present obs))
