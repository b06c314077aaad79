-- ===== src/Cache/Agreement.antt =====
-- The bulk rebuild of src/kayak/db/cache.py against one call of `update_latest_gauge`.
use kayak_python.Base.{
  ℕ, ◌+◌, ◌/◌, ◌≡◌, refl, sym, ◌∙◌, ap, subst, Bool, true, false, ◌&&◌, Option, none, some, List,
  [], ◌∷◌, All, map, keep_if, is_empty, ◌==◌, if◌then◌else◌, arith, Bool-cases, inl, inr,
}
use mathlib.Core.Option
use kayak_python.Observations.Store.{DataType, same_type, Observation}
use kayak_python.Cache.Tables.{
  LatestGaugeObservation, GaugeSource, first_row, newer_or_higher, is_before, has_gauge, find,
  get_latest_gauge, gauge_row, source_ids, counts, previous_of_gauge, save_gauge,
  update_latest_gauge,
}
use kayak_python.Cache.Newest.{
  First-passes, first_row-First, same_type_self, same_type→≡, find-save, find-delete,
}
use kayak_python.Cache.Bulk.{
  same_partition, joined, ranked_before, pick, Julian, bulk_row, text_before, joins_latest,
  prev_rows, row_of, update_all_latest_gauges, second, six_hours_of_seconds,
}
use kayak_python.Cache.Picked.{
  find-pick, in_partition, partition-same, partition-out, at_gauge, best-joined,
}

module _ {ℓ} {A : Type ℓ} where
  find-ext : (p q : A → Bool) → ((a : A) → p a ≡ q a) → (rows : List A) → find p rows ≡ find q rows
  find-ext p q h [] = refl
  find-ext p q h (a ∷ rows) = ground (arith, h a, find-ext p q h rows)

  keep_if-twice :
      (p q r : A → Bool)
      → ((a : A) → p a ≡ true → q a ≡ r a)
      → (rows : List A) → keep_if p (keep_if q rows) ≡ keep_if (λ a. p a && r a) rows
  keep_if-twice p q r h [] = refl
  keep_if-twice p q r h (a ∷ rows) = ground (arith, h a, keep_if-twice p q r h rows)

  keep_if-both :
      (c p q : A → Bool) (rows : List A)
      → All (λ a. p a ≡ q a) (keep_if c rows)
      → keep_if (λ a. c a && p a) rows ≡ keep_if (λ a. c a && q a) rows
  keep_if-both c p q [] h = refl
  keep_if-both c p q (a ∷ rows) h = elim (Bool-cases (c a)) [
    | inl e ↦
        (let k : All (λ a. p a ≡ q a) (a ∷ keep_if c rows) =
            subst
              (λ b.
                All (λ a. p a ≡ q a)
                  (elim b [ true ↦ a ∷ keep_if c rows | false ↦ keep_if c rows ]))
              e h in
          ground (arith, e, k.0, keep_if-both c p q rows k.1))
    | inr e ↦
        (let k : All (λ a. p a ≡ q a) (keep_if c rows) =
            subst
              (λ b.
                All (λ a. p a ≡ q a)
                  (elim b [ true ↦ a ∷ keep_if c rows | false ↦ keep_if c rows ]))
              e h in
          ground (arith, e, keep_if-both c p q rows k))
  ]

All-map :
    {A : Type 0} {P Q : A → Type 0} (f : (a : A) → P a → Q a) (rows : List A)
    → All P rows
    → All Q rows
All-map f [] h = tt
All-map f (a ∷ rows) h = (f a h.0, All-map f rows h.1)

find-map :
    {A B : Type 0} (f : A → B) (p : B → Bool) (rows : List A)
    → find p (map f rows) ≡ Option.map f (find (λ a. p (f a)) rows)
find-map f p [] = refl
find-map f p (a ∷ rows) = ground (arith, find-map f p rows)

-- No row that counts lies in the second that is six hours before the latest one's.
abbrev pub IsApart : {V : Type 0} → Observation ℕ V → Observation ℕ V → Type 0
IsApart latest o =
    (o.observed_at / second + six_hours_of_seconds == latest.observed_at / second) ≡ false

text_before-is_before :
    {V : Type 0} (latest o : Observation ℕ V)
    → IsApart latest o
    → text_before latest o ≡ is_before latest o
text_before-is_before latest o h = ground arith

row_of-map :
    {V : Type 0} (gauge_id : ℕ) (o : Option (Observation ℕ V))
    → row_of (Option.map (at_gauge gauge_id) o) ≡ o
row_of-map gauge_id none = refl
row_of-map gauge_id (some o) = refl

no-source :
    {V : Type 0} (ids : List ℕ) (t : DataType) (since : ℕ) (obs : List (Observation ℕ V))
    → is_empty ids ≡ true
    → first_row newer_or_higher (keep_if (counts ids t since) obs) ≡ none
unfolding first_row
no-source [] t since [] e = refl
no-source [] t since (o ∷ obs) e = no-source [] t since obs e
no-source (i ∷ ids) t since obs e = absurd (ground arith)

module _ {V : Type 0} (gauge_id : ℕ) (t : DataType) (links : List GaugeSource) (since : ℕ) where
  -- The row that is picked as the latest.
  latest-pick :
      (obs : List (Observation ℕ V))
      → find (in_partition gauge_id t) (pick same_partition ranked_before (joined links since obs))
        ≡ Option.map
            (at_gauge gauge_id)
            (first_row newer_or_higher (keep_if (counts (source_ids gauge_id links) t since) obs))
  latest-pick obs =
      find-pick same_partition ranked_before (in_partition gauge_id t) (partition-same gauge_id t)
        (partition-out gauge_id t) (joined links since obs)
      ∙ best-joined gauge_id (in_partition gauge_id t) (λ o. same_type o.data_type t) (λ r. refl)
          links since (counts (source_ids gauge_id links) t since) (λ o. ground arith) obs

  -- The row that is picked as the previous one, for the latest row `l`.
  prev-pick :
      (l : Observation ℕ V) (obs : List (Observation ℕ V))
      → find (in_partition gauge_id t) (pick same_partition ranked_before (joined links since obs))
        ≡ some (at_gauge gauge_id l)
      → All (IsApart l) (keep_if (counts (source_ids gauge_id links) t since) obs)
      → find (in_partition gauge_id t) (
          pick same_partition ranked_before (
            prev_rows
              (pick same_partition ranked_before (joined links since obs))
              (joined links since obs)))
        ≡ Option.map
            (at_gauge gauge_id)
            (previous_of_gauge (source_ids gauge_id links) t since obs l)
  prev-pick l obs found h =
      let rows = joined links since obs in
      let picks = pick same_partition ranked_before rows in
      find-pick same_partition ranked_before (in_partition gauge_id t) (partition-same gauge_id t)
        (partition-out gauge_id t) (prev_rows picks rows)
      ∙ ap (first_row ranked_before) (
          keep_if-twice (in_partition gauge_id t)
            (λ r. joins_latest (find (same_partition r) picks) r) (λ r. text_before l r.row)
            (λ r e.
              ap (λ lp. joins_latest lp r)
                (find-ext (same_partition r) (in_partition gauge_id t)
                    (λ q. partition-same gauge_id t r q e) picks
                  ∙ found))
            rows)
      ∙ best-joined gauge_id (λ r. in_partition gauge_id t r && text_before l r.row)
          (λ o. same_type o.data_type t && text_before l o) (λ r. ground arith) links since
          (λ o. counts (source_ids gauge_id links) t since o && text_before l o) (λ o. ground arith)
          obs
      ∙ ap (λ os. Option.map (at_gauge gauge_id) (first_row newer_or_higher os))
          (keep_if-both (counts (source_ids gauge_id links) t since) (text_before l) (is_before l)
            obs (All-map (text_before-is_before l) _ h))

  module _ (j : Julian V) (per_hour : V → V → ℕ → V) where
    -- No counted row lies in the second that is six hours before that of the newest one.
    abbrev pub HasNoTie : Option (Observation ℕ V) → List (Observation ℕ V) → Type 0
    HasNoTie none obs = Unit
    HasNoTie (some l) obs =
        All (IsApart l) (keep_if (counts (source_ids gauge_id links) t since) obs)

    abbrev newest : List (Observation ℕ V) → Option (Observation ℕ V)
    newest obs =
        first_row newer_or_higher (keep_if (counts (source_ids gauge_id links) t since) obs)

    abbrev Row : Type 0
    Row = ℕ → DataType → Observation ℕ V → Option (Observation ℕ V) → LatestGaugeObservation V

    -- The row of a gauge, from its newest observation.
    abbrev row_for :
        Row → List (Observation ℕ V) → Option (Observation ℕ V) → Option (LatestGaugeObservation V)
    row_for make obs none = none
    row_for make obs (some l) =
        some (make gauge_id t l (previous_of_gauge (source_ids gauge_id links) t since obs l))

    -- A row without the rate, whose floating-point arithmetic differs.
    abbrev pub without_delta : LatestGaugeObservation V → LatestGaugeObservation V
    without_delta r = record r { delta_per_hour = none }

    same_but_delta :
        (obs : List (Observation ℕ V)) (l : Option (Observation ℕ V))
        → Option.map without_delta (row_for (bulk_row j) obs l)
          ≡ Option.map without_delta (row_for (gauge_row per_hour) obs l)
    same_but_delta obs none = refl
    same_but_delta obs (some l) = refl

    newest-type :
        (obs : List (Observation ℕ V)) (l : Observation ℕ V)
        → newest obs ≡ some l
        → same_type l.data_type t ≡ true
    newest-type obs l e =
        let c = counts (source_ids gauge_id links) t since in
        let k =
          First-passes newer_or_higher c obs (newest obs) l
            (first_row-First newer_or_higher c (λ a b. ground arith) (λ a b d g h. ground arith)
              obs)
            e in
        ground (arith, k)

    bulk-row :
        (obs : List (Observation ℕ V)) (l : Option (Observation ℕ V))
        → newest obs ≡ l
        → HasNoTie l obs
        → get_latest_gauge gauge_id t (update_all_latest_gauges j links since obs)
          ≡ row_for (bulk_row j) obs l
    unfolding get_latest_gauge update_all_latest_gauges
    bulk-row obs none e h =
        find-map _ (has_gauge gauge_id t)
          (pick same_partition ranked_before (joined links since obs))
        ∙ ap (Option.map _) (latest-pick obs ∙ ap (Option.map (at_gauge gauge_id)) e)
    bulk-row obs (some l) e h =
        let found = latest-pick obs ∙ ap (Option.map (at_gauge gauge_id)) e in
        let prev =
          ap row_of (
            find-ext _ (in_partition gauge_id t)
              (λ q.
                partition-same gauge_id t (at_gauge gauge_id l) q
                  (ground (arith, newest-type obs l e)))
              _
            ∙ prev-pick l obs found h)
          ∙ row_of-map gauge_id (previous_of_gauge (source_ids gauge_id links) t since obs l) in
        find-map _ (has_gauge gauge_id t)
          (pick same_partition ranked_before (joined links since obs))
        ∙ ap (Option.map _) found
        ∙ ap (λ o. some (bulk_row j gauge_id l.data_type l o)) prev
        ∙ ap
            (λ u. some (
              bulk_row j gauge_id u l
                (previous_of_gauge (source_ids gauge_id links) t since obs l)))
            (same_type→≡ l.data_type t (newest-type obs l e))

    save_gauge-row :
        (obs : List (Observation ℕ V)) (l : Option (Observation ℕ V))
        (table : List (LatestGaugeObservation V))
        → find
            (has_gauge gauge_id t)
            (save_gauge per_hour gauge_id (source_ids gauge_id links) t since obs l table)
          ≡ row_for (gauge_row per_hour) obs l
    save_gauge-row obs none table = find-delete (has_gauge gauge_id t) (has_gauge gauge_id t) table
    save_gauge-row obs (some l) table =
        find-save (has_gauge gauge_id t) (has_gauge gauge_id t) _ table
          (ground (arith, same_type_self t))

    -- The bulk rebuild gives a gauge and a type the row that `update_latest_gauge` gives them, but for
    -- its delta_per_hour, whatever the table held, when no counted observation lies in the second that
    -- is six hours before that of the newest one.
    pub bulk_is_loop :
        (obs : List (Observation ℕ V)) (table : List (LatestGaugeObservation V))
        → HasNoTie (newest obs) obs
        → Option.map without_delta
            (get_latest_gauge gauge_id t (update_all_latest_gauges j links since obs))
          ≡ Option.map without_delta (
              get_latest_gauge gauge_id t
                (update_latest_gauge per_hour links since gauge_id t obs table))
    unfolding get_latest_gauge update_latest_gauge
    bulk_is_loop obs table h = elim (Bool-cases (is_empty (source_ids gauge_id links))) [
      | inl e ↦ ap (Option.map without_delta) (
          bulk-row obs none (no-source (source_ids gauge_id links) t since obs e) tt
          ∙ sym (
              rw (e, if◌then◌else◌)
                (find-delete (has_gauge gauge_id t) (has_gauge gauge_id t) table)))
      | inr e ↦
          ap (Option.map without_delta) (bulk-row obs (newest obs) refl h)
          ∙ same_but_delta obs (newest obs)
          ∙ ap (Option.map without_delta)
              (sym (rw (e, if◌then◌else◌) (save_gauge-row obs (newest obs) table)))
    ]
