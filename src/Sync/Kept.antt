-- ===== src/Sync/Kept.antt =====
-- A run of src/kayak/cli/sync_metadata.py that may not delete.
use kayak_python.Base.{
  ℕ, ◌≡◌, refl, Bool, true, false, not, Option, none, some, List, [], ◌∷◌, ◌++◌, All, all, keep_if,
  is_empty, if◌then◌else◌, map, arith, Bool-cases, inl, inr,
}
use kayak_python.Base.Chars.{Chars, mem_chars, leb_chars}
use kayak_python.Base.Sort.{sort}
use kayak_python.Base.Attempt.{ok}
use kayak_python.Sync.Rows.{Cell, CsvFile, is_column, has_key, pk_names}
use kayak_python.Sync.Plan.{
  compute_plan, upsert_cols, load_order, optional_columns, TablePlan, db_pks, keys_of, has_deletes,
}
use kayak_python.Sync.Exact.{is_present, IsEquality, IsExact, compute_plan-Exact}
use kayak_python.Sync.Apply.{
  insert_many, clear_column, info, Engine, Args, Dataset, batches, build_upsert_sql, import_table,
  import_present, reset_absent_optional_columns, upsert_csvs, statements, sync_metadata,
}
use kayak_python.Sync.Outcome.{
  Ran, Ends, aborted, dry, refused, applied, is_upsert, sync_metadata-Ends,
}

all-append :
    {A : Type 0} (p : A → Bool) (xs ys : List A)
    → all p xs ≡ true
    → all p ys ≡ true
    → all p (xs ++ ys) ≡ true
all-append p [] ys h k = k
all-append p (x ∷ xs) ys h k = ground (arith, h, all-append p xs ys)

all-map :
    {A B : Type 0} (p : B → Bool) (f : A → B)
    → ((a : A) → p (f a) ≡ true)
    → (xs : List A) → all p (map f xs) ≡ true
all-map p f h [] = refl
all-map p f h (x ∷ xs) = ground (arith, h x, all-map p f h xs)

module _ {D F : Type 0} (q : Engine D F) where
  resets-upserts :
      (t : Chars) (header : List Chars)
      → all (is_upsert q) (reset_absent_optional_columns q t header) ≡ true
  unfolding reset_absent_optional_columns
  resets-upserts t header =
      all-map (is_upsert q) (clear_column t) (λ c. refl)
        (sort leb_chars (
          keep_if (is_column (info q t))
            (keep_if (λ c. not (mem_chars c header)) (optional_columns t))))

  -- The table has a primary key.
  abbrev pub HasKey : Chars → Type 0
  HasKey t = is_empty (pk_names (info q t)) ≡ false

  insert_many-upserts :
      (t : Chars) (header : List Chars) (rows : List (List (Option Chars)))
      → HasKey t
      → is_upsert q (insert_many t header (build_upsert_sql q t header) rows) ≡ true
  unfolding build_upsert_sql
  insert_many-upserts t header rows k =
      elim (Bool-cases (is_empty (upsert_cols q.schema t header))) [
        | inl e ↦ rw (k, if◌then◌else◌, e) refl
        | inr e ↦ rw (k, if◌then◌else◌, e) refl
      ]

  import_table-upserts :
      (t : Chars) (file : CsvFile) → HasKey t → all (is_upsert q) (import_table q t file) ≡ true
  unfolding import_table
  import_table-upserts t [] k = refl
  import_table-upserts t ([] ∷ rows) k = refl
  import_table-upserts t ((c ∷ cs) ∷ rows) k =
      all-append (is_upsert q)
        (map (insert_many t (c ∷ cs) (build_upsert_sql q t (c ∷ cs))) (batches [] rows))
        (reset_absent_optional_columns q t (c ∷ cs))
        (all-map (is_upsert q) (insert_many t (c ∷ cs) (build_upsert_sql q t (c ∷ cs)))
          (λ b. insert_many-upserts t (c ∷ cs) b k) (batches [] rows))
        (resets-upserts t (c ∷ cs))

  import_present-upserts :
      (t : Chars) (file : Option CsvFile)
      → HasKey t
      → all (is_upsert q) (import_present q t file) ≡ true
  import_present-upserts t none k = refl
  import_present-upserts t (some file) k = import_table-upserts t file k

  upsert_csvs-upserts :
      (file : Chars → Option CsvFile) (ts : List Chars)
      → All HasKey ts
      → all (is_upsert q) (upsert_csvs q file ts) ≡ true
  unfolding upsert_csvs
  upsert_csvs-upserts file [] k = refl
  upsert_csvs-upserts file (t ∷ ts) k =
      all-append (is_upsert q) (import_present q t (file t)) (upsert_csvs q file ts)
        (import_present-upserts t (file t) k.0) (upsert_csvs-upserts file ts k.1)

  statements-upserts :
      (file : Chars → Option CsvFile) (plan : List (TablePlan F))
      → All HasKey load_order
      → has_deletes plan ≡ false
      → all (is_upsert q) (statements q file plan) ≡ true
  statements-upserts file plan k h =
      rw (h, if◌then◌else◌)
        (all-append (is_upsert q) (upsert_csvs q file load_order) []
          (upsert_csvs-upserts file load_order k) refl)

  module _ (e : IsEquality q.schema.numbers) (db : D) (d : Dataset) where
    -- Every key of the table in the database stands in its file.
    abbrev pub IsCovered : TablePlan F → Type 0
    IsCovered p =
        (x : IsExact q.schema e db d.file p) × ((k : List (Cell F))
          → has_key q.schema.numbers (db_pks q.schema db p.table) k ≡ true
          → has_key q.schema.numbers (keys_of q.schema x.csv_rows) k ≡ true)

    covered :
        (plan : List (TablePlan F))
        → has_deletes plan ≡ false
        → All (IsExact q.schema e db d.file) plan
        → All IsCovered plan
    covered [] h x = tt
    covered (p ∷ plan) h x = (
      (x.0, λ k m. ground (arith, m, x.0.deleted k, no_key p.delete_pks k (ground (arith, h)))),
      covered plan (ground (arith, h)) x.1,
    )
      where
        no_key :
            (keys : List (List (Cell F))) (k : List (Cell F))
            → is_empty keys ≡ true
            → has_key q.schema.numbers keys k ≡ false
        no_key [] k h' = refl
        no_key (j ∷ keys) k h' = absurd (ground arith)

    keeps_rows :
        (args : Args) {r : ℕ × D}
        → All HasKey load_order
        → Ends q args d db r
        → args.allow_deletes ≡ false
        → args.dry_run ≡ false
        → r.0 ≡ 0
        → (plan : List (TablePlan F)) × (compute_plan q.schema db d.file ≡ ok plan)
          × All IsCovered plan
          × (map (λ p. p.table) plan
              ≡ keep_if (λ t. is_present q.schema e db d.file (d.file t)) load_order)
          × (all (is_upsert q) (statements q d.file plan) ≡ true)
          × Ran q (statements q d.file plan) db r.1
    keeps_rows args k (aborted _) a y z = absurd (omega (arith, z))
    keeps_rows args k (dry plan p y') a y z = absurd (ground (arith, y', y))
    keeps_rows args k (refused plan p g a') a y z = absurd (omega (arith, z))
    keeps_rows args k (applied plan db' p u y' g run whole clean) a y z =
        let none_deleted : has_deletes plan ≡ false = ground (arith, g, a) in
        let exact = compute_plan-Exact q.schema e db d.file plan p in
        (
          plan,
          p,
          covered plan none_deleted exact.0,
          exact.1,
          statements-upserts d.file plan k none_deleted,
          run,
        )

    -- When every table has a primary key, a run that may not delete, is no dry run and ends with exit
    -- code 0 carried out the plan that was computed, which has a part for each table with a file; all
    -- keys of the database in those tables stand in their files, and none of the statements that ran
    -- deletes or replaces a row.
    pub sync_metadata-keeps_rows :
        (args : Args)
        → All HasKey load_order
        → args.allow_deletes ≡ false
        → args.dry_run ≡ false
        → (sync_metadata q args d db).0 ≡ 0
        → (plan : List (TablePlan F)) × (compute_plan q.schema db d.file ≡ ok plan)
          × All IsCovered plan
          × (map (λ p. p.table) plan
              ≡ keep_if (λ t. is_present q.schema e db d.file (d.file t)) load_order)
          × (all (is_upsert q) (statements q d.file plan) ≡ true)
          × Ran q (statements q d.file plan) db (sync_metadata q args d db).1
    sync_metadata-keeps_rows args k = keeps_rows args k (sync_metadata-Ends q args d db)
