-- ===== src/Observations/Batches.antt =====
-- The batch of `store_observations` against one call of `store_observation` for each row.
use kayak_python.Base.{
  ℕ, zero, suc, ◌≤◌, ◌≡◌, refl, ap, sym, ◌∙◌, Bool, true, false, Option, none, some, List, [], ◌∷◌,
  length, All, if◌then◌else◌, is_empty, arith,
}
use kayak_python.Observations.Store.{
  DataType, data_type_of, Kinds, Reading, Observation, batch_size, upsert, check_one, check_row,
  store_checked, store_observation, and_valid, valid_rows, put_first, batched, insert_batch,
  insert_batches, store_observations,
}

module _ {T V : Type 0} (k : Kinds T V) where
  -- One call of `store_observation` for each row: how many returned true, and the table.
  abbrev pub count_true : Bool → ℕ → ℕ
  count_true true n = suc n
  count_true false n = n

  abbrev stored_pair : ℕ → List (Observation T V) → ℕ × List (Observation T V)
  stored_pair n table = (n, table)

  unfoldable pub store_each :
      ℕ → List ℕ → List (Reading T V) → List (Observation T V) → ℕ × List (Observation T V)
  store_each now allowed [] table = (0, table)
  store_each now allowed (r ∷ rs) table =
      let (stored, table') = store_observation k now allowed r table in
      let (n, table'') = store_each now allowed rs table' in (count_true stored n, table'')

  put_first-insert :
      (o : Observation T V) (bs : List (List (Observation T V))) (table : List (Observation T V))
      → insert_batches k (put_first k o bs) table ≡ insert_batches k bs (upsert k o table)
  unfolding insert_batches
  put_first-insert o [] table = refl
  put_first-insert o (b ∷ bs) table = refl

  -- Splitting the rows into batches does not change what is stored.
  insert_batches-batched :
      (room : ℕ) (os table : List (Observation T V))
      → insert_batches k (batched k room os) table ≡ insert_batch k os table
  unfolding insert_batches batched
  insert_batches-batched room [] table = refl
  insert_batches-batched zero (o ∷ os) table =
      put_first-insert o (batched k 199 os) table ∙ insert_batches-batched 199 os (upsert k o table)
  insert_batches-batched (suc room) (o ∷ os) table =
      put_first-insert o (batched k room os) table
      ∙ insert_batches-batched room os (upsert k o table)

  module _ (now : ℕ) (allowed : List ℕ) where
    -- The two functions check in different orders, to the same end.
    check_same :
        (r : Reading T V) (t : Option DataType)
        → check_row k now allowed r t ≡ check_one k now allowed r t
    check_same r none = refl
    check_same r (some t) = ground arith

    one-each :
        (rs : List (Reading T V)) (table : List (Observation T V)) (o : Option (Observation T V))
        → ((table : List (Observation T V))
            → store_each now allowed rs table ≡ (
              length (valid_rows k now allowed rs),
              insert_batch k (valid_rows k now allowed rs) table,
            ))
        → (let (stored, table') = store_checked k now allowed o table in
            let (n, table'') = store_each now allowed rs table' in
            stored_pair (count_true stored n) table'')
          ≡ stored_pair
              (length (and_valid k now allowed o (valid_rows k now allowed rs)))
              (insert_batch k (and_valid k now allowed o (valid_rows k now allowed rs)) table)
    unfolding insert_batch
    one-each rs table none h = rw (h table) refl
    one-each rs table (some o) h = rw (h (upsert k o table)) refl

    store_each-valid_rows :
        (rs : List (Reading T V)) (table : List (Observation T V))
        → store_each now allowed rs table ≡ (
          length (valid_rows k now allowed rs),
          insert_batch k (valid_rows k now allowed rs) table,
        )
    unfolding store_each store_observation valid_rows insert_batch
    store_each-valid_rows [] table = refl
    store_each-valid_rows (r ∷ rs) table = rw (check_same r (data_type_of r.data_type)) (
        one-each rs table (check_one k now allowed r (data_type_of r.data_type))
          (store_each-valid_rows rs))

    nothing_stored :
        (os table : List (Observation T V))
        → (if is_empty os
            then stored_pair 0 table
            else stored_pair (length os) (insert_batches k (batched k batch_size os) table))
          ≡ stored_pair (length os) (insert_batch k os table)
    unfolding insert_batch
    nothing_stored [] table = refl
    nothing_stored (o ∷ os) table =
        ap (λ t. (suc (length os), t)) (insert_batches-batched batch_size (o ∷ os) table)

    -- With the same reading of the clock, the batch stores what one call of `store_observation`
    -- for each row would, in order, and returns how many of those calls would return true.
    pub store_observations-each :
        (rs : List (Reading T V)) (table : List (Observation T V))
        → store_observations k now allowed rs table ≡ store_each now allowed rs table
    unfolding store_observations
    store_observations-each rs table =
        nothing_stored (valid_rows k now allowed rs) table ∙ sym (store_each-valid_rows rs table)

  -- The first batch has at most `room` rows, and the others at most a full batch.
  abbrev Sizes : ℕ → List (List (Observation T V)) → Type 0
  Sizes room [] = Unit {0}
  Sizes room (b ∷ bs) = (length b ≤ room) × All (λ b. length b ≤ batch_size) bs

  Sizes-put_first :
      (room : ℕ) (o : Observation T V) (bs : List (List (Observation T V)))
      → Sizes room bs
      → Sizes (suc room) (put_first k o bs)
  Sizes-put_first room o [] h = (ground arith, tt)
  Sizes-put_first room o (b ∷ bs) h = (ground arith, h.1)

  full_first :
      (bs : List (List (Observation T V)))
      → Sizes batch_size bs
      → All (λ b. length b ≤ batch_size) bs
  full_first [] h = tt
  full_first (b ∷ bs) h = h

  batched-Sizes : (room : ℕ) (os : List (Observation T V)) → Sizes room (batched k room os)
  unfolding batched
  batched-Sizes room [] = tt
  batched-Sizes zero (o ∷ os) = (
    omega arith,
    full_first (put_first k o (batched k 199 os))
        (Sizes-put_first 199 o (batched k 199 os) (batched-Sizes 199 os)),
  )
  batched-Sizes (suc room) (o ∷ os) =
      Sizes-put_first room o (batched k room os) (batched-Sizes room os)
