-- ===== src/Observations/Accepted.antt =====
-- What the rows of the table are like that the two functions of observations.py fill.
use kayak_python.Base.{
  ℕ, ◌≡◌, refl, true, false, Option, none, some, List, [], ◌∷◌, All, arith, Bool-cases, inl, inr,
}
use kayak_python.Observations.Store.{
  DataType, data_type_of, Kinds, Reading, Observation, upsert, check_one, store_checked,
  store_observation, is_bad_flow, same_key, store_observations,
}
use kayak_python.Observations.Batches.{store_each, store_observations-each}

module _ {T V : Type 0} (k : Kinds T V) (now : ℕ) (allowed : List ℕ) where
  -- A finite value, and no negative flow of a source that is not allowed to have one.
  abbrev pub IsAcceptable : Observation T V → Type 0
  IsAcceptable o =
      (k.is_finite o.value ≡ true)
      × (is_bad_flow k now allowed o.source_id o.data_type o.value ≡ false)

  pub upsert-Acceptable :
      (o : Observation T V) (ps : List (Observation T V))
      → IsAcceptable o
      → All IsAcceptable ps
      → All IsAcceptable (upsert k o ps)
  unfolding upsert
  upsert-Acceptable o [] a h = (a, tt)
  upsert-Acceptable o (p ∷ ps) a h = elim (Bool-cases (same_key k p o)) [
    | inl e ↦ rw (e, All) ((a.0, ground arith), h.1)
    | inr e ↦ rw (e, All) (h.0, upsert-Acceptable o ps a h.1)
  ]

  pub check_one-Acceptable :
      (r : Reading T V) (t : Option DataType) (o : Observation T V)
      → check_one k now allowed r t ≡ some o
      → IsAcceptable o
  check_one-Acceptable r none o h = absurd (ground arith)
  check_one-Acceptable r (some t) o h = ground arith

  pub store_checked-Acceptable :
      (c : Option (Observation T V)) (table : List (Observation T V))
      → ((o : Observation T V) → c ≡ some o → IsAcceptable o)
      → All IsAcceptable table
      → All IsAcceptable (store_checked k now allowed c table).1
  store_checked-Acceptable none table a h = h
  store_checked-Acceptable (some o) table a h = upsert-Acceptable o table (a o refl) h

  store_each-Acceptable :
      (rs : List (Reading T V)) (table : List (Observation T V))
      → All IsAcceptable table
      → All IsAcceptable (store_each k now allowed rs table).1
  unfolding store_each store_observation
  store_each-Acceptable [] table h = h
  store_each-Acceptable (r ∷ rs) table h =
      let t = data_type_of r.data_type in
      store_each-Acceptable rs (store_checked k now allowed (check_one k now allowed r t) table).1
        (store_checked-Acceptable (check_one k now allowed r t) table (check_one-Acceptable r t) h)

  -- A table whose values are finite, and whose flows are not negative but for the allowed sources,
  -- stays such a table, whatever readings are handed in.
  pub store_observations-Acceptable :
      (rs : List (Reading T V)) (table : List (Observation T V))
      → All IsAcceptable table
      → All IsAcceptable (store_observations k now allowed rs table).1
  store_observations-Acceptable rs table h =
      rw (store_observations-each k now allowed rs table) (store_each-Acceptable rs table h)
