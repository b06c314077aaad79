-- ===== src/Sync/Needed.antt =====
-- When the plan of src/kayak/db/metadata_csv.py updates a row, in terms of the values.
use kayak_python.Base.{
  ℕ, ◌≡◌, ◌≢◌, ◌↔◌, refl, sym, ap, ◌∙◌, Bool, true, false, not, ◌&&◌, ◌||◌, Option, Option-cases,
  none, some, List, Bool-cases, inl, inr, arith,
}
use mathlib.Core.List.{Mem}
use kayak_python.Base.Chars.{Chars, eq_chars, mem_chars}
use kayak_python.Base.Assoc.{get_by}
use kayak_python.Base.Members.{any_of_mem, any-witness, mem-keep_if, mem-kept}
use kayak_python.Sync.Rows.{Cell, null, int, real, text, Numbers, pk_names, is_column, eq_cell}
use kayak_python.Sync.Plan.{
  optional_columns, Schema, or_null, or_equal, scaled_equal, sync_values_equal, differs, is_null,
  is_changed, is_reset, upsert_cols, reset_cols,
}

module _ {F : Type 0} (n : Numbers F) where
  -- Two values that count as the same: no value twice, or two values that are equal at the scale of
  -- the column, where it has one and both can be brought to it, and equal as they are otherwise.
  pub data IsSame (scale : Option ℕ) (a b : Cell F) : Type 0 where
    both_null : a ≡ null → b ≡ null → IsSame scale a b
    equal : a ≢ null → b ≢ null → scale ≡ none → eq_cell n a b ≡ true → IsSame scale a b
    equal_at_scale :
        (d : ℕ)
        → a ≢ null
        → b ≢ null
        → scale ≡ some d
        → n.quantized_equal d a b ≡ some true
        → IsSame scale a b
    not_scaled :
        (d : ℕ)
        → a ≢ null
        → b ≢ null
        → scale ≡ some d
        → n.quantized_equal d a b ≡ none
        → eq_cell n a b ≡ true
        → IsSame scale a b

null→≢ : {F : Type 0} (a : Cell F) → is_null a ≡ false → a ≢ null
null→≢ a h e = absurd (ground (arith, h, ap is_null e))

≢→null : {F : Type 0} (a : Cell F) → a ≢ null → is_null a ≡ false
≢→null null h = absurd (h refl)
≢→null (int i) h = refl
≢→null (real f) h = refl
≢→null (text t) h = refl

null→≡ : {F : Type 0} (a : Cell F) → is_null a ≡ true → a ≡ null
null→≡ null h = refl
null→≡ (int i) h = absurd (ground arith)
null→≡ (real f) h = absurd (ground arith)
null→≡ (text t) h = absurd (ground arith)

module _ {D F : Type 0} (s : Schema D F) where
  -- The comparison, by cases on which value is none.
  values-null :
      (a b : Cell F) (scale : Option ℕ)
      → (is_null a || is_null b) ≡ true
      → sync_values_equal s a b scale ≡ (is_null a && is_null b)
  unfolding sync_values_equal
  values-null null null scale h = refl
  values-null null (int i) scale h = refl
  values-null null (real f) scale h = refl
  values-null null (text t) scale h = refl
  values-null (int i) null scale h = refl
  values-null (real f) null scale h = refl
  values-null (text t) null scale h = refl
  values-null (int i) (int j) scale h = absurd (ground arith)
  values-null (int i) (real g) scale h = absurd (ground arith)
  values-null (int i) (text u) scale h = absurd (ground arith)
  values-null (real f) (int j) scale h = absurd (ground arith)
  values-null (real f) (real g) scale h = absurd (ground arith)
  values-null (real f) (text u) scale h = absurd (ground arith)
  values-null (text t) (int j) scale h = absurd (ground arith)
  values-null (text t) (real g) scale h = absurd (ground arith)
  values-null (text t) (text u) scale h = absurd (ground arith)

  values-scaled :
      (a b : Cell F) (scale : Option ℕ)
      → is_null a ≡ false
      → is_null b ≡ false
      → sync_values_equal s a b scale ≡ scaled_equal s a b scale
  unfolding sync_values_equal
  values-scaled null b scale h k = absurd (ground arith)
  values-scaled (int i) null scale h k = absurd (ground arith)
  values-scaled (real f) null scale h k = absurd (ground arith)
  values-scaled (text t) null scale h k = absurd (ground arith)
  values-scaled (int i) (int j) scale h k = refl
  values-scaled (int i) (real g) scale h k = refl
  values-scaled (int i) (text u) scale h k = refl
  values-scaled (real f) (int j) scale h k = refl
  values-scaled (real f) (real g) scale h k = refl
  values-scaled (real f) (text u) scale h k = refl
  values-scaled (text t) (int j) scale h k = refl
  values-scaled (text t) (real g) scale h k = refl
  values-scaled (text t) (text u) scale h k = refl

  scaled-IsSame :
      (a b : Cell F) (scale : Option ℕ)
      → a ≢ null
      → b ≢ null
      → scaled_equal s a b scale ≡ true
      → IsSame s.numbers scale a b
  scaled-IsSame a b none p q h = equal p q refl h
  scaled-IsSame a b (some d) p q h = elim (Option-cases (s.numbers.quantized_equal d a b)) [
    | inl e ↦ not_scaled d p q refl e (ground (arith, h, e))
    | inr (true, e) ↦ equal_at_scale d p q refl e
    | inr (false, e) ↦ absurd (ground (arith, h, e))
  ]

  -- The comparison says that two values are equal exactly when they count as the same.
  values_equal-IsSame :
      (a b : Cell F) (scale : Option ℕ)
      → (sync_values_equal s a b scale ≡ true) ↔ IsSame s.numbers scale a b
  values_equal-IsSame a b scale = (to, from)
    where
      to : sync_values_equal s a b scale ≡ true → IsSame s.numbers scale a b
      to h = elim (Bool-cases (is_null a || is_null b)) [
        | inl e ↦
            both_null (null→≡ a (ground (arith, h, values-null a b scale e)))
              (null→≡ b (ground (arith, h, values-null a b scale e)))
        | inr e ↦
            scaled-IsSame a b scale (null→≢ a (ground (arith, e))) (null→≢ b (ground (arith, e)))
              (sym (values-scaled a b scale (ground (arith, e)) (ground (arith, e))) ∙ h)
      ]

      from : IsSame s.numbers scale a b → sync_values_equal s a b scale ≡ true
      from (both_null p q) =
          let na : is_null a ≡ true = ap is_null p in
          let nb : is_null b ≡ true = ap is_null q in ground (arith, values-null a b scale, na, nb)
      from (equal p q e h) =
          values-scaled a b scale (≢→null a p) (≢→null b q) ∙ ap (scaled_equal s a b) e ∙ h
      from (equal_at_scale d p q e h) =
          values-scaled a b scale (≢→null a p) (≢→null b q)
          ∙ ap (scaled_equal s a b) e
          ∙ ap (or_equal s a b) h
      from (not_scaled d p q e h g) =
          values-scaled a b scale (≢→null a p) (≢→null b q)
          ∙ ap (scaled_equal s a b) e
          ∙ ap (or_equal s a b) h
          ∙ g

  -- The row of a key differs between the file and the database: in a column of the file that is no key
  -- column, or by a value in an optional column that the file leaves out.
  pub data NeedsUpdate (table : Chars) (header : List Chars)
      (csv_row : Option (List (Chars × Cell F))) (row : Option (Chars → Cell F)) : Type 0 where
    other_value :
        (c : Chars) (in_file : List (Chars × Cell F)) (in_db : Chars → Cell F)
        → csv_row ≡ some in_file
        → row ≡ some in_db
        → Mem c header
        → mem_chars c (pk_names (s.table_info table)) ≡ false
        → (IsSame s.numbers
              (s.decimal_scale table c)
              (or_null (get_by eq_chars c in_file))
              (in_db c)
            → ⊥)
        → NeedsUpdate table header csv_row row
    left_out :
        (c : Chars) (in_db : Chars → Cell F)
        → row ≡ some in_db
        → Mem c (optional_columns table)
        → mem_chars c header ≡ false
        → is_column (s.table_info table) c ≡ true
        → mem_chars c (pk_names (s.table_info table)) ≡ false
        → in_db c ≢ null
        → NeedsUpdate table header csv_row row

  module _ (table : Chars) (header : List Chars) where
    abbrev needs : Option (List (Chars × Cell F)) → Option (Chars → Cell F) → Bool
    needs csv_row row =
        is_changed s table (upsert_cols s table header) csv_row row
        || is_reset s (reset_cols s table header) row

    changed-NeedsUpdate :
        (csv_row : Option (List (Chars × Cell F))) (row : Option (Chars → Cell F))
        → is_changed s table (upsert_cols s table header) csv_row row ≡ true
        → NeedsUpdate table header csv_row row
    changed-NeedsUpdate none row h = absurd (ground arith)
    changed-NeedsUpdate (some r) none h = absurd (ground arith)
    changed-NeedsUpdate (some r) (some row) h =
        let (c, m, d) = any-witness (differs s table r row) (upsert_cols s table header) h in
        let (out, there) = mem-keep_if _ c header m in
        other_value c r row refl refl there (ground (arith, out)) (λ same. absurd (
          ground (
            arith,
            d,
            (values_equal-IsSame (or_null (get_by eq_chars c r)) (row c)
                  (s.decimal_scale table c)).1
                same,
          )))

    reset-NeedsUpdate :
        (csv_row : Option (List (Chars × Cell F))) (row : Option (Chars → Cell F))
        → is_reset s (reset_cols s table header) row ≡ true
        → NeedsUpdate table header csv_row row
    reset-NeedsUpdate csv_row none h = absurd (ground arith)
    reset-NeedsUpdate csv_row (some row) h =
        let (c, m, d) = any-witness (λ x. not (is_null (row x))) (reset_cols s table header) h in
        let (out, there) = mem-keep_if _ c (optional_columns table) m in
        left_out c row refl there (ground (arith, out)) (ground (arith, out)) (ground (arith, out))
          (null→≢ (row c) (ground (arith, d)))

    NeedsUpdate-needs :
        (csv_row : Option (List (Chars × Cell F))) (row : Option (Chars → Cell F))
        → NeedsUpdate table header csv_row row
        → needs csv_row row ≡ true
    NeedsUpdate-needs csv_row row (other_value c r in_db p q m k u) =
        ap (λ o. needs o row) p
        ∙ ap (needs (some r)) q
        ∙ ground (
          arith,
          any_of_mem (differs s table r in_db) (upsert_cols s table header)
              (mem-kept _ c header m (ground (arith, k)))
              (differing
                (sync_values_equal s (or_null (get_by eq_chars c r)) (in_db c)
                  (s.decimal_scale table c))
                (values_equal-IsSame (or_null (get_by eq_chars c r)) (in_db c)
                  (s.decimal_scale table c)).0
                u),
        )
      where
        differing :
            (b : Bool)
            → (b ≡ true
                → IsSame s.numbers
                    (s.decimal_scale table c)
                    (or_null (get_by eq_chars c r))
                    (in_db c))
            → (IsSame s.numbers (s.decimal_scale table c) (or_null (get_by eq_chars c r)) (in_db c)
                → ⊥)
            → not b ≡ true
        differing true f g = absurd (g (f refl))
        differing false f g = refl
    NeedsUpdate-needs csv_row row (left_out c in_db q m out col k v) =
        ap (needs csv_row) q
        ∙ ground (
          arith,
          any_of_mem (λ x. not (is_null (in_db x))) (reset_cols s table header)
              (mem-kept _ c (optional_columns table) m (ground (arith, out, col, k)))
              (ap not (≢→null (in_db c) v)),
        )

    -- The test of the plan holds exactly when the row has to be updated.
    pub needs-NeedsUpdate :
        (csv_row : Option (List (Chars × Cell F))) (row : Option (Chars → Cell F))
        → ((is_changed s table (upsert_cols s table header) csv_row row
              || is_reset s (reset_cols s table header) row)
            ≡ true)
          ↔ NeedsUpdate table header csv_row row
    needs-NeedsUpdate csv_row row = (to, NeedsUpdate-needs csv_row row)
      where
        to : needs csv_row row ≡ true → NeedsUpdate table header csv_row row
        to h = elim (Bool-cases (is_changed s table (upsert_cols s table header) csv_row row)) [
          | inl e ↦ changed-NeedsUpdate csv_row row e
          | inr e ↦ reset-NeedsUpdate csv_row row (ground (arith, h, e))
        ]
