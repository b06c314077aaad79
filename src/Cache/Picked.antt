-- ===== src/Cache/Picked.antt =====
-- The bulk rebuild of src/kayak/db/cache.py against one call of `update_latest_gauge`.
use kayak_python.Base.{
  ℕ, ◌≡◌, refl, sym, subst, Bool, true, false, ◌&&◌, ◌||◌, Option, none, some, List, [], ◌∷◌, any,
  keep_if, leb, ◌==◌, if◌then◌else◌, arith, Bool-cases, inl, inr,
}
use mathlib.Core.Option
use kayak_python.Observations.Store.{DataType, same_type, Observation}
use kayak_python.Cache.Tables.{GaugeSource, first_row, newer_or_higher, find, source_ids}
use kayak_python.Cache.Newest.{same_type→≡}
use kayak_python.Cache.Bulk.{Joined, same_partition, join_links, joined, ranked_before, rank, pick}

-- The row that comes first of one more row and the first of the others.
abbrev merge {ℓ} : {A : Type ℓ} → (A → A → Bool) → A → Option A → Option A
merge ge a none = some a
merge ge a (some b) = some (if ge a b then a else b)

-- What the picked rows are, for a test that all rows of a partition pass or fail together.
module _ {ℓ} {A : Type ℓ} (same before : A → A → Bool) (p : A → Bool)
    (inside : (r q : A) → p r ≡ true → same r q ≡ p q)
    (outside : (r q : A) → p r ≡ false → same r q ≡ true → p q ≡ false) where
  find-rank_in :
      (r : A) (qs : List A)
      → p r ≡ true
      → find p (rank same before r qs) ≡ merge before r (find p qs)
  unfolding rank
  find-rank_in r [] h = ground arith
  find-rank_in r (q ∷ qs) h = ground (arith, inside r q h, find-rank_in r qs h)

  find-rank_out : (r : A) (qs : List A) → p r ≡ false → find p (rank same before r qs) ≡ find p qs
  unfolding rank
  find-rank_out r [] h = ground arith
  find-rank_out r (q ∷ qs) h = ground (arith, outside r q h, find-rank_out r qs h)

  -- The row that is picked for a partition is the first of its rows.
  pub find-pick : (rs : List A) → find p (pick same before rs) ≡ first_row before (keep_if p rs)
  unfolding pick first_row
  find-pick [] = refl
  find-pick (r ∷ rs) = elim (Bool-cases (p r)) [
    | inl e ↦ rw (e, keep_if, find-rank_in r (pick same before rs) e, find-pick rs) refl
    | inr e ↦ rw (e, keep_if, find-rank_out r (pick same before rs) e, find-pick rs) refl
  ]

module _ {V : Type 0} (gauge_id : ℕ) (t : DataType) where
  abbrev pub in_partition : Joined V → Bool
  in_partition r = r.gauge_id == gauge_id && same_type r.row.data_type t

  pub partition-same :
      (r q : Joined V) → in_partition r ≡ true → same_partition r q ≡ in_partition q
  partition-same r q h =
      let k : r.gauge_id ≡ gauge_id = ground arith in
      let u : r.row.data_type ≡ t = same_type→≡ r.row.data_type t (ground arith) in rw (k, u) refl

  pub same-partition :
      (r q : Joined V) → same_partition r q ≡ true → in_partition q ≡ in_partition r
  same-partition r q h =
      let k : q.gauge_id ≡ r.gauge_id = ground arith in
      let u : q.row.data_type ≡ r.row.data_type =
        same_type→≡ q.row.data_type r.row.data_type (ground arith) in
      rw (k, u) refl

  pub partition-out :
      (r q : Joined V) → in_partition r ≡ false → same_partition r q ≡ true → in_partition q ≡ false
  partition-out r q e h = ground (arith, same-partition r q h)

abbrev pub at_gauge : {V : Type 0} → ℕ → Observation ℕ V → Joined V
at_gauge gauge_id o = record { gauge_id = gauge_id; row = o }

merge-twice :
    {A : Type 0} (ge : A → A → Bool) (a : A) (x : Option A)
    → ge a a ≡ true
    → merge ge a (merge ge a x) ≡ merge ge a x
merge-twice ge a none h = ground arith
merge-twice ge a (some b) h = ground arith

module _ {V : Type 0} (gauge_id : ℕ) (f : Joined V → Bool) (base : Observation ℕ V → Bool)
    (same : (r : Joined V) → f r ≡ (r.gauge_id == gauge_id && base r.row)) where
  abbrev pub best : List (Joined V) → Option (Joined V)
  best rs = first_row ranked_before (keep_if f rs)

  first-one :
      (o : Observation ℕ V) (i : ℕ) (rest : List (Joined V))
      → (i == gauge_id && base o) ≡ true
      → best (record { gauge_id = i; row = o } ∷ rest)
        ≡ merge ranked_before record { gauge_id = i; row = o } (best rest)
  unfolding first_row
  first-one o i rest e = rw (keep_if, same, e) refl

  best-one :
      (o : Observation ℕ V) (i : ℕ) (rest : List (Joined V))
      → best (record { gauge_id = i; row = o } ∷ rest) ≡ (
          if i == gauge_id && base o
          then merge ranked_before (at_gauge gauge_id o) (best rest)
          else best rest)
  best-one o i rest = elim (Bool-cases (i == gauge_id && base o)) [
    | inl e ↦
        (let k : i ≡ gauge_id = ground arith in
          rw (e, if◌then◌else◌)
            (subst
              (λ j.
                best (record { gauge_id = i; row = o } ∷ rest)
                ≡ merge ranked_before record { gauge_id = j; row = o } (best rest))
              k (first-one o i rest e)))
    | inr e ↦ rw (keep_if, same, e, if◌then◌else◌) refl
  ]

  any-linked :
      (o : Observation ℕ V) (g : GaugeSource) (gs : List GaugeSource)
      → (g.source_id == o.source_id) ≡ true
      → any (λ i. o.source_id == i) (source_ids gauge_id (g ∷ gs))
        ≡ (g.gauge_id == gauge_id || any (λ i. o.source_id == i) (source_ids gauge_id gs))
  any-linked o g gs e = ground arith

  any-unlinked :
      (o : Observation ℕ V) (g : GaugeSource) (gs : List GaugeSource)
      → (g.source_id == o.source_id) ≡ false
      → any (λ i. o.source_id == i) (source_ids gauge_id (g ∷ gs))
        ≡ any (λ i. o.source_id == i) (source_ids gauge_id gs)
  any-unlinked o g gs e = ground arith

  merge-either :
      (a b c : Bool) (r : Joined V) (x : Option (Joined V))
      → (if b && c
          then merge ranked_before r (if a && c then merge ranked_before r x else x)
          else (if a && c then merge ranked_before r x else x))
        ≡ (if (b || a) && c then merge ranked_before r x else x)
  merge-either true true true r x = merge-twice ranked_before r x (ground arith)
  merge-either false true true r x = refl
  merge-either true false true r x = refl
  merge-either false false true r x = refl
  merge-either true true false r x = refl
  merge-either false true false r x = refl
  merge-either true false false r x = refl
  merge-either false false false r x = refl

  best-links :
      (o : Observation ℕ V) (gs : List GaugeSource) (rest : List (Joined V))
      → best (join_links o gs rest) ≡ (
          if any (λ i. o.source_id == i) (source_ids gauge_id gs) && base o
          then merge ranked_before (at_gauge gauge_id o) (best rest)
          else best rest)
  best-links o [] rest = refl
  best-links o (g ∷ gs) rest = elim (Bool-cases (g.source_id == o.source_id)) [
    | inl e ↦
        rw
          (
            e,
            join_links,
            best-one o g.gauge_id (join_links o gs rest),
            best-links o gs rest,
            any-linked o g gs e,
          )
          (merge-either (any (λ i. o.source_id == i) (source_ids gauge_id gs))
            (g.gauge_id == gauge_id) (base o) (at_gauge gauge_id o) (best rest))
    | inr e ↦ rw (e, join_links, best-links o gs rest, any-unlinked o g gs e) refl
  ]

  module _ (links : List GaugeSource) (since : ℕ) (keep : Observation ℕ V → Bool)
      (kept : (o : Observation ℕ V)
        → keep o ≡ (
            leb since o.observed_at
            && (any (λ i. o.source_id == i) (source_ids gauge_id links) && base o))) where
    first-kept :
        (o : Observation ℕ V) (os : List (Observation ℕ V))
        → first_row newer_or_higher (keep_if keep (o ∷ os)) ≡ (
            if keep o
            then merge newer_or_higher o (first_row newer_or_higher (keep_if keep os))
            else first_row newer_or_higher (keep_if keep os))
    unfolding first_row
    first-kept o os = elim (Bool-cases (keep o)) [
      | inl e ↦ rw (e, keep_if) refl
      | inr e ↦ rw (e, keep_if) refl
    ]

    map-merge :
        (o : Observation ℕ V) (x : Option (Observation ℕ V))
        → Option.map (at_gauge gauge_id) (merge newer_or_higher o x)
          ≡ merge ranked_before (at_gauge gauge_id o) (Option.map (at_gauge gauge_id) x)
    map-merge o none = refl
    map-merge o (some p) = elim (Bool-cases (newer_or_higher o p)) [
      | inl e ↦ rw (e, if◌then◌else◌) refl
      | inr e ↦ rw (e, if◌then◌else◌) refl
    ]

    -- The first of the joined rows is the first of the observations.
    pub best-joined :
        (obs : List (Observation ℕ V))
        → best (joined links since obs)
          ≡ Option.map (at_gauge gauge_id) (first_row newer_or_higher (keep_if keep obs))
    unfolding joined first_row
    best-joined [] = refl
    best-joined (o ∷ os) = elim (Bool-cases (leb since o.observed_at)) [
      | inl e ↦
          rw (e, joined, best-links o links (joined links since os), first-kept o os, kept o, e)
            (elim (Bool-cases (any (λ i. o.source_id == i) (source_ids gauge_id links) && base o)) [
              | inl k ↦
                  rw (k, if◌then◌else◌, best-joined os)
                    (sym (map-merge o (first_row newer_or_higher (keep_if keep os))))
              | inr k ↦ rw (k, if◌then◌else◌) (best-joined os)
            ])
      | inr e ↦ rw (e, joined, first-kept o os, kept o, e) (best-joined os)
    ]
