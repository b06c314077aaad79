-- ===== src/Cache/Newest.antt =====
-- What the rows of the two caches of src/kayak/db/cache.py stand for.
use kayak_python.Base.{
  ℕ, ◌-◌, ◌≡◌, refl, subst, sym, ◌∙◌, Bool, true, false, not, ◌&&◌, ◌||◌, Option, none, some, List,
  [], ◌∷◌, All, keep_if, ◌==◌, if◌then◌else◌, arith, Bool-cases, inl, inr,
}
use mathlib.Core.Option
use mathlib.Core.List.{Mem, mem-cons_self, mem-cons_of_mem}
use kayak_python.Observations.Store.{
  DataType, gauge, flow, inflow, temperature, same_type, Observation,
}
use kayak_python.Cache.Tables.{
  delta, LatestObservation, first_row, newer, is_of, is_before, has_key, find, save, delete,
  get_latest, latest_row, previous, save_latest, update_latest,
}

module _ {ℓ} {A : Type ℓ} (ge : A → A → Bool) (p : A → Bool) where
  -- The first of the rows that pass a test, in an order.
  pub data First (rows : List A) : Option A → Type ℓ where
    no_row : All (λ a. p a ≡ false) rows → First rows none
    first :
        (a : A)
        → Mem a rows
        → p a ≡ true
        → All (λ b. (not (p b) || ge a b) ≡ true) rows
        → First rows (some a)

  pub First-passes : (rows : List A) (r : Option A) (a : A) → First rows r → r ≡ some a → p a ≡ true
  First-passes rows _ a (no_row h) e = cc
  First-passes rows _ a (first b m k h) e = let q : b ≡ a = cc in subst (λ c. p c ≡ true) q k

  module _ (total : (a b : A) → (ge a b || ge b a) ≡ true)
      (trans : (a b c : A) → ge a b ≡ true → ge b c ≡ true → ge a c ≡ true) where
    below :
        (a b : A) (rows : List A)
        → ge a b ≡ true
        → All (λ c. (not (p c) || ge b c) ≡ true) rows
        → All (λ c. (not (p c) || ge a c) ≡ true) rows
    below a b [] g h = tt
    below a b (c ∷ rows) g h = (ground (arith, trans a b c g), below a b rows g h.1)

    outside :
        (a : A) (rows : List A)
        → All (λ c. p c ≡ false) rows
        → All (λ c. (not (p c) || ge a c) ≡ true) rows
    outside a [] h = tt
    outside a (c ∷ rows) h = (ground arith, outside a rows h.1)

    next-First :
        (a : A) (rows : List A) (r : Option A)
        → p a ≡ true
        → First rows r
        → First (a ∷ rows) (elim r [ none ↦ some a | some b ↦ some (if ge a b then a else b) ])
    next-First a rows _ q (no_row h) =
        first a mem-cons_self q (ground (arith, total a a), outside a rows h)
    next-First a rows _ q (first b m k h) = elim (Bool-cases (ge a b)) [
      | inl e ↦
          rw (e, if◌then◌else◌)
            (first a mem-cons_self q (ground (arith, total a a), below a b rows e h))
      | inr e ↦
          rw (e, if◌then◌else◌) (first b (mem-cons_of_mem a m) k (ground (arith, total a b), h))
    ]

    skip-First :
        (a : A) (rows : List A) (r : Option A) → p a ≡ false → First rows r → First (a ∷ rows) r
    skip-First a rows _ q (no_row h) = no_row (q, h)
    skip-First a rows _ q (first b m k h) = first b (mem-cons_of_mem a m) k (ground arith, h)

    pub first_row-First : (rows : List A) → First rows (first_row ge (keep_if p rows))
    unfolding first_row
    first_row-First [] = no_row tt
    first_row-First (a ∷ rows) = elim (Bool-cases (p a)) [
      | inl e ↦ rw (e, keep_if) (next-First a rows _ e (first_row-First rows))
      | inr e ↦ rw (e, keep_if) (skip-First a rows _ e (first_row-First rows))
    ]

pub same_type_self : (t : DataType) → same_type t t ≡ true
same_type_self gauge = refl
same_type_self flow = refl
same_type_self inflow = refl
same_type_self temperature = refl

pub same_type→≡ : (t u : DataType) → same_type t u ≡ true → t ≡ u
same_type→≡ gauge gauge h = refl
same_type→≡ flow flow h = refl
same_type→≡ inflow inflow h = refl
same_type→≡ temperature temperature h = refl
same_type→≡ _ _ h = absurd (ground arith)

module _ {ℓ} {A : Type ℓ} (p q : A → Bool) where
  pub find-save : (a : A) (rows : List A) → p a ≡ true → find p (save p a rows) ≡ some a
  unfolding save
  find-save a [] h = ground arith
  find-save a (b ∷ rows) h = ground (arith, find-save a rows h)

  pub find-delete : (rows : List A) → find p (delete p rows) ≡ none
  find-delete [] = refl
  find-delete (b ∷ rows) = ground (arith, find-delete rows)

  module _ (apart : (a : A) → p a ≡ true → q a ≡ false) where
    pub find-save_other :
        (a : A) (rows : List A) → p a ≡ true → find q (save p a rows) ≡ find q rows
    unfolding save
    find-save_other a [] h = ground (arith, apart a)
    find-save_other a (b ∷ rows) h = ground (arith, apart a, apart b, find-save_other a rows h)

    pub find-delete_other : (rows : List A) → find q (delete p rows) ≡ find q rows
    find-delete_other [] = refl
    find-delete_other (b ∷ rows) = ground (arith, apart b, find-delete_other rows)

pub same_type_sym : (t u : DataType) → same_type t u ≡ same_type u t
same_type_sym t u = elim (Bool-cases (same_type t u)) [
  | inl e ↦ rw (same_type→≡ t u e) refl
  | inr e ↦ elim (Bool-cases (same_type u t)) [
    | inl k ↦ rw (same_type→≡ u t k) refl
    | inr k ↦ e ∙ sym k
  ]
]

same_type_apart :
    (a t u : DataType) → same_type u t ≡ false → same_type a t ≡ true → same_type a u ≡ false
same_type_apart a t u e h = elim (Bool-cases (same_type a u)) [
  | inl k ↦ absurd (ground (arith, subst (λ x. same_type x t ≡ true) (same_type→≡ a u k) h))
  | inr k ↦ k
]

has_key-apart :
    {V : Type 0} (i : ℕ) (t : DataType) (j : ℕ) (u : DataType)
    → (j == i && same_type u t) ≡ false
    → (r : LatestObservation V) → has_key i t r ≡ true
    → has_key j u r ≡ false
has_key-apart i t j u e r h = ground (arith, same_type_apart r.data_type t u)

module _ {V : Type 0} (per_hour : V → V → ℕ → V) where
  -- What the cache ought to say of a source and a type: nothing without an observation, or else its
  -- newest one with the newest one that is at least six hours older, and the change per hour.
  pub data Shows (source_id : ℕ) (t : DataType) (obs : List (Observation ℕ V))
      : Option (LatestObservation V) → Type 0 where
    shows_nothing : All (λ o. is_of source_id t o ≡ false) obs → Shows source_id t obs none
    shows :
        (latest : Observation ℕ V) (prev : Option (Observation ℕ V))
        → First newer (is_of source_id t) obs (some latest)
        → First newer (λ o. is_of source_id t o && is_before latest o) obs prev
        → Shows source_id t obs (
            some record {
              source_id = source_id;
              data_type = t;
              observed_at = latest.observed_at;
              value = latest.value;
              prev_observed_at = Option.map (λ p. p.observed_at) prev;
              prev_value = Option.map (λ p. p.value) prev;
              delta_per_hour =
                  Option.map
                    (λ p. per_hour latest.value p.value (latest.observed_at - p.observed_at))
                    prev;
            })

  -- The test for a positive time between the two never fails.
  delta-First :
      (f : Observation ℕ V → Bool) (latest : Observation ℕ V) (obs : List (Observation ℕ V))
      (prev : Option (Observation ℕ V))
      → First newer (λ o. f o && is_before latest o) obs prev
      → delta per_hour latest prev
        ≡ Option.map (λ p. per_hour latest.value p.value (latest.observed_at - p.observed_at)) prev
  delta-First f latest obs _ (no_row h) = refl
  delta-First f latest obs _ (first p m k h) = ground (arith, k)

  newer-First :
      (p : Observation ℕ V → Bool) (obs : List (Observation ℕ V))
      → First newer p obs (first_row newer (keep_if p obs))
  newer-First p obs = first_row-First newer p (λ a b. ground arith) (λ a b c g h. ground arith) obs

  module _ (source_id : ℕ) (t : DataType) (obs : List (Observation ℕ V)) where
    save_latest-Shows :
        (latest : Option (Observation ℕ V)) (table : List (LatestObservation V))
        → First newer (is_of source_id t) obs latest
        → Shows source_id t obs
            (find (has_key source_id t) (save_latest per_hour source_id t obs latest table))
    save_latest-Shows _ table (no_row h) =
        rw (find-delete (has_key source_id t) (has_key source_id t) table) (shows_nothing h)
    save_latest-Shows _ table (first a m k h) =
        let prev = previous source_id t obs a in
        let found = newer-First (λ o. is_of source_id t o && is_before a o) obs in
        rw
          (
            find-save (has_key source_id t) (has_key source_id t)
                (latest_row per_hour source_id t a prev) table (ground (arith, same_type_self t)),
            delta-First (is_of source_id t) a obs prev found,
          )
          (shows a prev (first a m k h) found)

    save_latest-other :
        (latest : Option (Observation ℕ V)) (table : List (LatestObservation V)) (j : ℕ)
        (u : DataType)
        → (j == source_id && same_type u t) ≡ false
        → find (has_key j u) (save_latest per_hour source_id t obs latest table)
          ≡ find (has_key j u) table
    save_latest-other none table j u e =
        find-delete_other (has_key source_id t) (has_key j u) (has_key-apart source_id t j u e)
          table
    save_latest-other (some a) table j u e =
        find-save_other (has_key source_id t) (has_key j u) (has_key-apart source_id t j u e)
          (latest_row per_hour source_id t a (previous source_id t obs a)) table
          (ground (arith, same_type_self t))

    -- `update_latest` leaves the row that the observations call for, and every other row alone.
    pub update_latest-Shows :
        (j : ℕ) (u : DataType) (table : List (LatestObservation V))
        → Shows source_id t obs
            (get_latest source_id t (update_latest per_hour source_id t obs table))
          × (get_latest j u (update_latest per_hour source_id t obs table) ≡ (
              if j == source_id && same_type u t
              then get_latest source_id t (update_latest per_hour source_id t obs table)
              else get_latest j u table))
    unfolding update_latest get_latest
    update_latest-Shows j u table = (
      save_latest-Shows _ table (newer-First (is_of source_id t) obs),
      elim (Bool-cases (j == source_id && same_type u t)) [
        | inl e ↦
            (let k : j ≡ source_id = ground arith in
              let v : u ≡ t = same_type→≡ u t (ground arith) in rw (e, if◌then◌else◌, k, v) refl)
        | inr e ↦ rw (e, if◌then◌else◌) (save_latest-other _ table j u e)
      ],
    )
