-- ===== src/Calculator/InSync.antt =====
-- The cache of the latest readings against the observations, where src/kayak/cli/calculator.py stores
-- a reading.
use kayak_python.Base.{
  ℕ, ◌≡◌, refl, sym, ap, ◌∙◌, Bool, true, false, ◌&&◌, Option, none, some, List, [], ◌∷◌, ◌==◌,
  if◌then◌else◌, ◌+◌, leb, keep_if, arith, Bool-cases, inl, inr,
}
use mathlib.Core.Option
use kayak_python.Observations.Store.{DataType, same_type, Kinds, Observation, same_key, upsert}
use kayak_python.Cache.Tables.{
  LatestObservation, first_row, newer, is_of, is_before, has_key, find, get_latest,
  delta_lookback_window, latest_row, previous, save_latest, update_latest,
}
use kayak_python.Cache.Newest.{
  same_type_self, same_type_sym, same_type→≡, find-save, find-delete, update_latest-Shows,
}
use kayak_python.Calculator.Run.{Tables, Setting}

module _ {V : Type 0} (per_hour : V → V → ℕ → V) where
  -- The row of the cache that the observations call for.
  abbrev pub summary : ℕ → DataType → List (Observation ℕ V) → Option (LatestObservation V)
  summary i t obs =
      Option.map (λ l. latest_row per_hour i t l (previous i t obs l))
        (first_row newer (keep_if (is_of i t) obs))

  save_latest-summary :
      (i : ℕ) (t : DataType) (obs : List (Observation ℕ V)) (l : Option (Observation ℕ V))
      (table : List (LatestObservation V))
      → find (has_key i t) (save_latest per_hour i t obs l table)
        ≡ Option.map (λ l. latest_row per_hour i t l (previous i t obs l)) l
  save_latest-summary i t obs none table = find-delete (has_key i t) (has_key i t) table
  save_latest-summary i t obs (some l) table =
      find-save (has_key i t) (has_key i t) _ table (ground (arith, same_type_self t))

  pub get-update_latest :
      (i : ℕ) (t : DataType) (obs : List (Observation ℕ V)) (table : List (LatestObservation V))
      → get_latest i t (update_latest per_hour i t obs table) ≡ summary i t obs
  unfolding get_latest update_latest
  get-update_latest i t obs table = save_latest-summary i t obs _ table

module _ {V : Type 0} (k : Kinds ℕ V) where
  -- An upsert is not seen by a test that its key fails.
  keep_if-upsert :
      (p : Observation ℕ V → Bool) (o : Observation ℕ V)
      → p o ≡ false
      → ((q : Observation ℕ V) → same_key k q o ≡ true → p q ≡ false)
      → ((q : Observation ℕ V) → p q ≡ false → p (record q { value = o.value }) ≡ false)
      → (obs : List (Observation ℕ V)) → keep_if p (upsert k o obs) ≡ keep_if p obs
  unfolding upsert
  keep_if-upsert p o n same value [] = rw (n, keep_if) refl
  keep_if-upsert p o n same value (q ∷ obs) = elim (Bool-cases (same_key k q o)) [
    | inl e ↦ (let a = same q e in rw (e, if◌then◌else◌, keep_if, a, value q a) refl)
    | inr e ↦ rw (e, if◌then◌else◌) (ground (arith, keep_if-upsert p o n same value obs))
  ]

  same_key-is_of :
      (i : ℕ) (t : DataType) (q o : Observation ℕ V)
      → same_key k q o ≡ true
      → is_of i t q ≡ is_of i t o
  same_key-is_of i t q o e =
      let a : q.source_id ≡ o.source_id = ground arith in
      let b : q.data_type ≡ o.data_type = same_type→≡ q.data_type o.data_type (ground arith) in
      rw (a, b) refl

  keep_if-of :
      (i : ℕ) (t : DataType) (f : ℕ → Bool) (o : Observation ℕ V) (obs : List (Observation ℕ V))
      → is_of i t o ≡ false
      → keep_if (λ q. is_of i t q && f q.observed_at) (upsert k o obs)
        ≡ keep_if (λ q. is_of i t q && f q.observed_at) obs
  keep_if-of i t f o obs n =
      keep_if-upsert (λ q. is_of i t q && f q.observed_at) o (ground arith)
        (λ q e. ground (arith, same_key-is_of i t q o e)) (λ q e. e) obs

Option-map-ext :
    {A B : Type 0} (f g : A → B)
    → ((a : A) → f a ≡ g a)
    → (x : Option A) → Option.map f x ≡ Option.map g x
Option-map-ext f g h none = refl
Option-map-ext f g h (some a) = ap some (h a)

-- A row of the cache depends on the observations of its source and type only.
pub summary-ext :
    {V : Type 0} (per_hour : V → V → ℕ → V) (i : ℕ) (t : DataType)
    (before after : List (Observation ℕ V))
    → ((p : Observation ℕ V → Bool)
        → ((o : Observation ℕ V) → is_of i t o ≡ false → p o ≡ false)
        → keep_if p after ≡ keep_if p before)
    → summary per_hour i t after ≡ summary per_hour i t before
summary-ext per_hour i t before after h =
    ap
      (λ os.
        Option.map (λ l. latest_row per_hour i t l (previous i t after l)) (first_row newer os))
      (h (is_of i t) (λ o e. e))
    ∙ Option-map-ext _ _
        (λ l.
          ap (λ os. latest_row per_hour i t l (first_row newer os))
            (h (λ o. is_of i t o && is_before l o) (λ o e. ground (arith, e))))
        (first_row newer (keep_if (is_of i t) before))

module _ {V : Type 0} (c : Setting V) where
  -- To compute a row of the cache again from the observations would change nothing.
  abbrev pub IsInSync : Tables V → Type 0
  IsInSync db =
      (i : ℕ) (t : DataType)
      → get_latest i t (update_latest c.per_hour i t db.observations db.latest)
        ≡ get_latest i t db.latest

  summary-upsert :
      (i : ℕ) (t : DataType) (o : Observation ℕ V) (obs : List (Observation ℕ V))
      → is_of i t o ≡ false
      → summary c.per_hour i t (upsert c.kinds o obs) ≡ summary c.per_hour i t obs
  summary-upsert i t o obs n =
      ap
        (λ os.
          Option.map (λ l. latest_row c.per_hour i t l (previous i t (upsert c.kinds o obs) l))
            (first_row newer os))
        (keep_if-upsert c.kinds (is_of i t) o n (λ q e. same_key-is_of c.kinds i t q o e ∙ n)
          (λ q e. e) obs)
      ∙ Option-map-ext (λ l. latest_row c.per_hour i t l (previous i t (upsert c.kinds o obs) l))
          (λ l. latest_row c.per_hour i t l (previous i t obs l))
          (λ l.
            ap (λ os. latest_row c.per_hour i t l (first_row newer os))
              (keep_if-of c.kinds i t (λ at. leb (at + delta_lookback_window) l.observed_at) o obs
                n))
          (first_row newer (keep_if (is_of i t) obs))

  pub update_latest-InSync :
      (db : Tables V) (o : Observation ℕ V)
      → IsInSync db
      → IsInSync record db {
        observations = upsert c.kinds o db.observations;
        latest =
            update_latest c.per_hour o.source_id o.data_type
              (upsert c.kinds o db.observations)
              db.latest;
      }
  update_latest-InSync db o h i t =
      let obs = upsert c.kinds o db.observations in
      let at = o.source_id in
      let u = o.data_type in
      let kept = (update_latest-Shows c.per_hour at u obs i t db.latest).1 in
      get-update_latest c.per_hour i t obs (update_latest c.per_hour at u obs db.latest)
      ∙ elim (Bool-cases (i == at && same_type t u)) [
        | inl e ↦
            (let j : i ≡ at = ground arith in
              let v : t ≡ u = same_type→≡ t u (ground arith) in
              rw (j, v) (sym (get-update_latest c.per_hour at u obs db.latest)))
        | inr e ↦
            summary-upsert i t o db.observations (ground (arith, same_type_sym t u))
            ∙ sym (get-update_latest c.per_hour i t db.observations db.latest)
            ∙ h i t
            ∙ sym (kept ∙ rw (e, if◌then◌else◌) refl)
      ]
