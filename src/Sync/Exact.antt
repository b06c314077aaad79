-- ===== src/Sync/Exact.antt =====
-- What the plan of src/kayak/db/metadata_csv.py says of each key.
use kayak_python.Base.{
  ◌≡◌, ◌↔◌, refl, sym, ap, subst, ◌∙◌, Bool, true, false, not, ◌&&◌, ◌||◌, Option, none, some, List,
  [], ◌∷◌, All, keep_if, map, Bool-cases, inl, inr, arith,
}
use kayak_python.Base.Chars.{Chars}
use kayak_python.Base.Assoc.{get_by}
use kayak_python.Base.Attempt.{Attempt, ok, bind-ok}
use kayak_python.Base.Search.{any-keep_if, any-ext, any-fixed}
use kayak_python.Sync.Rows.{
  Cell, Numbers, ValueError, CsvFile, eq_cell, eq_key, has_key, csv_rows_by_pk,
}
use kayak_python.Sync.Needed.{NeedsUpdate, needs-NeedsUpdate}
use kayak_python.Sync.Plan.{
  load_order, Schema, TablePlan, db_pks, db_row, is_changed, is_reset, upsert_cols, reset_cols,
  update_pks, keys_of, plan_rows, plan_table, plan_next, plan_tables, compute_plan, key_of,
  later_row,
}

-- `==` of cells is symmetric and transitive.
pub record IsEquality {F : Type 0} (n : Numbers F) : Type 0 where
  pub eq_sym : (a b : Cell F) → eq_cell n a b ≡ eq_cell n b a
  pub eq_trans :
      (a b c : Cell F) → eq_cell n a b ≡ true → eq_cell n b c ≡ true → eq_cell n a c ≡ true

module _ {F : Type 0} (n : Numbers F) (e : IsEquality n) where
  eq_key_sym : (j k : List (Cell F)) → eq_key n j k ≡ eq_key n k j
  unfolding eq_key
  eq_key_sym [] [] = refl
  eq_key_sym [] (b ∷ k) = refl
  eq_key_sym (a ∷ j) [] = refl
  eq_key_sym (a ∷ j) (b ∷ k) = rw (e.eq_sym a b, eq_key_sym j k) refl

  eq_key_trans :
      (i j k : List (Cell F)) → eq_key n i j ≡ true → eq_key n j k ≡ true → eq_key n i k ≡ true
  unfolding eq_key
  eq_key_trans [] [] [] h g = refl
  eq_key_trans [] [] (c ∷ k) h g = g
  eq_key_trans [] (b ∷ j) k h g = absurd (ground arith)
  eq_key_trans (a ∷ i) [] k h g = absurd (ground arith)
  eq_key_trans (a ∷ i) (b ∷ j) [] h g = g
  eq_key_trans (a ∷ i) (b ∷ j) (c ∷ k) h g =
      ground (arith, h, g, e.eq_trans a b c, eq_key_trans i j k)

  -- Equal keys are equal to the same keys.
  same_key : (i j k : List (Cell F)) → eq_key n j k ≡ true → eq_key n i j ≡ eq_key n i k
  same_key i j k h = elim (Bool-cases (eq_key n i j)) [
    | inl p ↦ p ∙ sym (eq_key_trans i j k p h)
    | inr p ↦ elim (Bool-cases (eq_key n i k)) [
      | inl q ↦ absurd (ground (arith, p, eq_key_trans i k j q (sym (eq_key_sym j k) ∙ h)))
      | inr q ↦ p ∙ sym q
    ]
  ]

  has_key-same :
      (keys : List (List (Cell F))) (j k : List (Cell F))
      → eq_key n j k ≡ true
      → has_key n keys j ≡ has_key n keys k
  has_key-same keys j k h = any-ext _ _ (λ i. same_key i j k h) keys

  has_key-keep_if :
      (f : List (Cell F) → Bool) (keys : List (List (Cell F))) (k : List (Cell F))
      → ((j : List (Cell F)) → eq_key n j k ≡ true → f j ≡ f k)
      → has_key n (keep_if f keys) k ≡ (has_key n keys k && f k)
  has_key-keep_if f keys k h =
      any-keep_if (λ j. eq_key n j k) f keys ∙ any-fixed (λ j. eq_key n j k) f (f k) h keys

  get_by-same :
      {A : Type 0} (j k : List (Cell F)) (d : List (List (Cell F) × A))
      → eq_key n j k ≡ true
      → get_by (eq_key n) j d ≡ get_by (eq_key n) k d
  unfolding get_by
  get_by-same j k [] h = refl
  get_by-same j k ((i, a) ∷ d) h = rw (same_key i j k h, get_by-same j k d h) refl

all_three :
    {P : Type 0} (a b : Bool) {t u : Bool}
    → t ≡ (a && (b && u))
    → (u ≡ true) ↔ P
    → (t ≡ true) ↔ ((a ≡ true) × (b ≡ true) × P)
all_three a b h (to, from) = (
  λ g. (ground (arith, h, g), ground (arith, h, g), to (ground (arith, h, g))),
  λ (p, q, r). ground (arith, h, p, q, from r),
)

module _ {D F : Type 0} (s : Schema D F) (e : IsEquality s.numbers) where
  db_row-same :
      (table : Chars) (j k : List (Cell F)) (rows : List (Chars → Cell F))
      → eq_key s.numbers j k ≡ true
      → db_row s table j rows ≡ db_row s table k rows
  unfolding db_row
  db_row-same table j k [] h = refl
  db_row-same table j k (row ∷ rows) h =
      ap (λ b. later_row b row (db_row s table j rows))
        (same_key s.numbers e (key_of s table row) j k h)
      ∙ ap (later_row (eq_key s.numbers (key_of s table row) k) row) (db_row-same table j k rows h)

  -- The row of a key differs between the file and the database, in a column of the file or in an
  -- optional column that the file leaves out.
  abbrev needs_update :
      D → Chars → List Chars → List (List (Cell F) × List (Chars × Cell F)) → List (Cell F) → Bool
  needs_update db table header csv_rows k =
      is_changed s table (upsert_cols s table header) (get_by (eq_key s.numbers) k csv_rows)
        (db_row s table k (s.select db table))
      || is_reset s (reset_cols s table header) (db_row s table k (s.select db table))

  needs_update-same :
      (db : D) (table : Chars) (header : List Chars)
      (csv_rows : List (List (Cell F) × List (Chars × Cell F))) (j k : List (Cell F))
      → eq_key s.numbers j k ≡ true
      → needs_update db table header csv_rows j ≡ needs_update db table header csv_rows k
  needs_update-same db table header csv_rows j k h =
      rw (get_by-same s.numbers e j k csv_rows h, db_row-same table j k (s.select db table) h) refl

  -- The plan of a table, for the rows of its file and those of the database.
  pub record IsExact (db : D) (in_dir : Chars → Option CsvFile) (p : TablePlan F) : Type 0 where
    pub file : CsvFile
    pub header : List Chars
    pub csv_rows : List (List (Cell F) × List (Chars × Cell F))
    pub found : in_dir p.table ≡ some file
    pub read : csv_rows_by_pk s.numbers p.table (s.table_info p.table) file ≡ ok (header, csv_rows)
    pub inserted :
        (k : List (Cell F))
        → has_key s.numbers p.insert_pks k ≡ (
            has_key s.numbers (keys_of s csv_rows) k
            && not (has_key s.numbers (db_pks s db p.table) k))
    pub updated :
        (k : List (Cell F))
        → (has_key s.numbers p.update_pks k ≡ true) ↔ (
            (has_key s.numbers (keys_of s csv_rows) k ≡ true)
            × (has_key s.numbers (db_pks s db p.table) k ≡ true)
            × NeedsUpdate s p.table header
                (get_by (eq_key s.numbers) k csv_rows)
                (db_row s p.table k (s.select db p.table)))
    pub deleted :
        (k : List (Cell F))
        → has_key s.numbers p.delete_pks k ≡ (
            has_key s.numbers (db_pks s db p.table) k
            && not (has_key s.numbers (keys_of s csv_rows) k))

  module _ (db : D) (in_dir : Chars → Option CsvFile) where
    update_pks-keys :
        (table : Chars) (header : List Chars)
        (csv_rows : List (List (Cell F) × List (Chars × Cell F))) (shared : List (List (Cell F)))
        (k : List (Cell F))
        → has_key s.numbers (update_pks s db table header csv_rows shared) k
          ≡ (has_key s.numbers shared k && needs_update db table header csv_rows k)
    unfolding update_pks
    update_pks-keys table header csv_rows shared k =
        has_key-keep_if s.numbers e (needs_update db table header csv_rows) shared k
          (λ j h. needs_update-same db table header csv_rows j k h)

    plan_rows-IsExact :
        (table : Chars) (file : CsvFile) (header : List Chars)
        (csv_rows : List (List (Cell F) × List (Chars × Cell F)))
        → in_dir table ≡ some file
        → csv_rows_by_pk s.numbers table (s.table_info table) file ≡ ok (header, csv_rows)
        → IsExact db in_dir (plan_rows s db table (header, csv_rows))
    plan_rows-IsExact table file header csv_rows f r =
        let cpks = keys_of s csv_rows in
        let dpks = db_pks s db table in
        record {
          file = file;
          header = header;
          csv_rows = csv_rows;
          found = f;
          read = r;
          inserted = λ k.
              has_key-keep_if s.numbers e (λ j. not (has_key s.numbers dpks j)) cpks k
                (λ j h. ap not (has_key-same s.numbers e dpks j k h));
          updated = λ k.
              all_three (has_key s.numbers cpks k) (has_key s.numbers dpks k)
                (update_pks-keys table header csv_rows (keep_if (has_key s.numbers dpks) cpks) k
                  ∙ ap (λ b. b && needs_update db table header csv_rows k)
                      (has_key-keep_if s.numbers e (has_key s.numbers dpks) cpks k
                        (λ j h. has_key-same s.numbers e dpks j k h))
                  ∙ ground arith)
                (needs-NeedsUpdate s table header (get_by (eq_key s.numbers) k csv_rows)
                  (db_row s table k (s.select db table)));
          deleted = λ k.
              has_key-keep_if s.numbers e (λ j. not (has_key s.numbers cpks j)) dpks k
                (λ j h. ap not (has_key-same s.numbers e cpks j k h));
        }

    abbrev pub is_present : Option CsvFile → Bool
    is_present none = false
    is_present (some file) = true

    plan_next-Exact :
        (table : Chars) (file : Option CsvFile) (rest : Attempt ValueError (List (TablePlan F)))
        (tables : List Chars) (plan : List (TablePlan F))
        → in_dir table ≡ file
        → plan_next s db table file rest ≡ ok plan
        → ((ps : List (TablePlan F))
            → rest ≡ ok ps
            → All (IsExact db in_dir) ps
              × (map (λ p. p.table) ps ≡ keep_if (λ t. is_present (in_dir t)) tables))
        → All (IsExact db in_dir) plan
          × (map (λ p. p.table) plan ≡ keep_if (λ t. is_present (in_dir t)) (table ∷ tables))
    plan_next-Exact table none rest tables plan f h ih =
        let r = ih plan h in (r.0, r.1 ∙ rw (f, keep_if) refl)
    plan_next-Exact table (some file) rest tables plan f h ih =
        let (p, planned, q) = bind-ok (plan_table s db table file) _ h in
        let ((header, csv_rows), r, made) =
          bind-ok (csv_rows_by_pk s.numbers table (s.table_info table) file) _ planned in
        let (ps, rested, whole) = bind-ok rest _ q in
        let first : plan_rows s db table (header, csv_rows) ≡ p = cc in
        let all : p ∷ ps ≡ plan = cc in
        let exact = plan_rows-IsExact table file header csv_rows f r in
        subst
          (λ plan'.
            All (IsExact db in_dir) plan'
            × (map (λ p'. p'.table) plan' ≡ keep_if (λ t. is_present (in_dir t)) (table ∷ tables)))
          all
          (
            (subst (IsExact db in_dir) first exact, (ih ps rested).0),
            ap (λ p'. p'.table ∷ map (λ p''. p''.table) ps) (sym first)
                ∙ rw (f, keep_if) (ap (λ ts. table ∷ ts) (ih ps rested).1),
          )

    plan_tables-Exact :
        (tables : List Chars) (plan : List (TablePlan F))
        → plan_tables s db in_dir tables ≡ ok plan
        → All (IsExact db in_dir) plan
          × (map (λ p. p.table) plan ≡ keep_if (λ t. is_present (in_dir t)) tables)
    unfolding plan_tables
    plan_tables-Exact [] [] h = (tt, refl)
    plan_tables-Exact [] (p ∷ ps) h = cc
    plan_tables-Exact (t ∷ ts) plan h =
        plan_next-Exact t (in_dir t) (plan_tables s db in_dir ts) ts plan refl h
          (λ ps r. plan_tables-Exact ts ps r)

    -- A plan has one part for each table whose file is there, in the order of the loads. A key is
    -- inserted exactly when the file has it and the database does not, deleted exactly when the
    -- database has it and the file does not, and updated exactly when both have it and the two
    -- values of a column of the file other than the key do not count as the same, or there is a value
    -- in an optional column that the file leaves out.
    pub compute_plan-Exact :
        (plan : List (TablePlan F))
        → compute_plan s db in_dir ≡ ok plan
        → All (IsExact db in_dir) plan
          × (map (λ p. p.table) plan ≡ keep_if (λ t. is_present (in_dir t)) load_order)
    unfolding compute_plan
    compute_plan-Exact plan h = plan_tables-Exact load_order plan h
