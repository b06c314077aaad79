-- ===== src/Sync/Rows.antt =====
-- The rows of a table of src/kayak/db/metadata_csv.py, from its CSV file and from the database, keyed by
-- their primary key. A file is its records, as `csv.reader` gives them; what a number is (`int`,
-- `float`, `Decimal`) is a parameter.
use kayak_python.Base.{
  ℕ, ◌-◌, ◌+◌, Bool, true, false, not, ◌&&◌, Option, none, some, List, [], ◌∷◌, codes, any, keep_if,
  is_empty, map, leb, ◌==◌, if◌then◌else◌,
}
use kayak_python.Base.Int.{ℤ, pos}
use kayak_python.Base.Chars.{Chars, eq_chars, mem_chars, strip, contains}
use kayak_python.Base.Sort.{sort}
use kayak_python.Base.Assoc.{put_by}
use kayak_python.Base.Attempt.{Attempt, ok, raised, ◌>>=◌}
use kayak_python.Validate.Counters.{eq_int}

-- A value of SQLite as Python has it.
pub data Cell (F : Type 0) : Type 0 where
  null : Cell F
  int : ℤ → Cell F
  real : F → Cell F
  text : Chars → Cell F

-- `int` and `float` of a text, `==` of numbers, and `_quantized_decimal(a) == _quantized_decimal(b)`,
-- which is none where one of them raises.
pub record Numbers (F : Type 0) : Type 0 where
  pub to_int : Chars → Option ℤ
  pub to_real : Chars → Option F
  pub eq_real : F → F → Bool
  pub eq_int_real : ℤ → F → Bool
  pub quantized_equal : ℕ → Cell F → Cell F → Option Bool

-- A row of `PRAGMA table_info`; `pk` numbers the columns of the primary key from 1.
pub record ColumnInfo : Type 0 where
  pub name : Chars
  pub decl_type : Chars
  pub pk : ℕ

-- What the code refuses with a ValueError.
pub data ValueError : Type 0 where
  missing_key : Chars → List Chars → ValueError
  unknown_column : Chars → List Chars → ValueError
  not_a_number : Chars → ValueError

abbrev pub CsvFile : Type 0
CsvFile = List (List Chars)

abbrev pub upper : Chars → Chars
upper = map (λ c. if leb 97 c && leb c 122 then c - 32 else c)

abbrev pub lower : Chars → Chars
lower = map (λ c. if leb 65 c && leb c 90 then c + 32 else c)

-- `_pk_cols`
unfoldable pub pk_cols : List ColumnInfo → List ColumnInfo
unfolding sort
pk_cols info = sort (λ a b. leb a.pk b.pk) (keep_if (λ c. not (c.pk == 0)) info)

abbrev pub pk_names : List ColumnInfo → List Chars
pk_names info = map (λ c. c.name) (pk_cols info)

-- `_table_col_types(...)[name]`
unfoldable pub type_of : Chars → List ColumnInfo → Chars
type_of name [] = []
type_of name (c ∷ info) = if eq_chars c.name name then c.decl_type else type_of name info

abbrev pub is_column : List ColumnInfo → Chars → Bool
is_column info name = any (λ c. eq_chars c.name name) info

-- `row.get(name)` of `csv.DictReader`: a short row has no value there, and of two columns of one
-- name the last one counts.
unfoldable pub row_get : List Chars → List Chars → Chars → Option Chars
row_get [] row name = none
row_get (h ∷ hs) [] name = none
row_get (h ∷ hs) (v ∷ vs) name =
    let rest = row_get hs vs name in
    if mem_chars name hs then rest else if eq_chars h name then some v else none

module _ {F : Type 0} (n : Numbers F) where
  -- `a == b`
  unfoldable pub eq_cell : Cell F → Cell F → Bool
  eq_cell null null = true
  eq_cell (int i) (int j) = eq_int i j
  eq_cell (int i) (real f) = n.eq_int_real i f
  eq_cell (real f) (int j) = n.eq_int_real j f
  eq_cell (real f) (real g) = n.eq_real f g
  eq_cell (text s) (text t) = eq_chars s t
  eq_cell _ _ = false

  -- Tuples of a primary key.
  unfoldable pub eq_key : List (Cell F) → List (Cell F) → Bool
  unfolding eq_cell
  eq_key [] [] = true
  eq_key (a ∷ j) (b ∷ k) = eq_cell a b && eq_key j k
  eq_key _ _ = false

  -- `key in keys`
  abbrev pub has_key : List (List (Cell F)) → List (Cell F) → Bool
  has_key keys k = any (λ j. eq_key j k) keys

  abbrev pub or_value_error :
      {A : Type 0} → Chars → (A → Cell F) → Option A → Attempt ValueError (Cell F)
  or_value_error val c none = raised (not_a_number val)
  or_value_error val c (some a) = ok (c a)

  abbrev pub cast_text : Chars → Chars → Attempt ValueError (Cell F)
  cast_text val t =
      let low = lower (strip val) in
      if contains (codes "BOOL") t
      then (if mem_chars low (codes "true" ∷ codes "t" ∷ codes "yes" ∷ [])
          then ok (int (pos 1))
          else if mem_chars low (codes "false" ∷ codes "f" ∷ codes "no" ∷ [])
          then ok (int (pos 0))
          else or_value_error val int (n.to_int val))
      else if contains (codes "INT") t
      then or_value_error val int (n.to_int val)
      else if any (λ s. contains s t)
          (codes "REAL" ∷ codes "FLOA" ∷ codes "DOUB" ∷ codes "NUM" ∷ codes "DEC" ∷ [])
      then or_value_error val real (n.to_real val)
      else ok (text val)

  -- `_cast_sqlite_cell`
  unfoldable pub cast_sqlite_cell : Option Chars → Chars → Attempt ValueError (Cell F)
  unfolding contains strip
  cast_sqlite_cell none decl_type = ok null
  cast_sqlite_cell (some []) decl_type = ok null
  cast_sqlite_cell (some (c ∷ cs)) decl_type = cast_text (c ∷ cs) (upper decl_type)

  module _ (info : List ColumnInfo) (header : List Chars) where
    unfoldable pub cast_cells : List Chars → List Chars → Attempt ValueError (List (Chars × Cell F))
    unfolding cast_sqlite_cell row_get type_of
    cast_cells row [] = ok []
    cast_cells row (c ∷ cs) = cast_sqlite_cell (row_get header row c) (type_of c info) >>= λ v.
        cast_cells row cs >>= λ vs. ok ((c, v) ∷ vs)

    -- The loop over `csv.DictReader`, which skips records without a field; `out[pk_tuple] = {...}`.
    unfoldable pub read_rows :
        CsvFile
        → List (List (Cell F) × List (Chars × Cell F))
        → Attempt ValueError (List (List (Cell F) × List (Chars × Cell F)))
    unfolding cast_cells pk_cols put_by eq_key
    read_rows [] out = ok out
    read_rows ([] ∷ rows) out = read_rows rows out
    read_rows ((v ∷ vs) ∷ rows) out = cast_cells (v ∷ vs) (pk_names info) >>= λ key.
        cast_cells (v ∷ vs) header >>= λ cells.
        read_rows rows (put_by eq_key (map (λ e. e.1) key) cells out)

  -- `_csv_rows_by_pk`, for a file that is there.
  unfoldable pub csv_rows_by_pk :
      Chars
      → List ColumnInfo
      → CsvFile
      → Attempt ValueError (List Chars × List (List (Cell F) × List (Chars × Cell F)))
  unfolding read_rows pk_cols
  csv_rows_by_pk table info [] = ok ([], [])
  csv_rows_by_pk table info (header ∷ rows) =
      let missing = keep_if (λ c. not (mem_chars c header)) (pk_names info) in
      let unknown = keep_if (λ c. not (is_column info c)) header in
      if is_empty (pk_names info)
      then ok ([], [])
      else if not (is_empty missing)
      then raised (missing_key table missing)
      else if not (is_empty unknown)
      then raised (unknown_column table unknown)
      else read_rows info header rows [] >>= λ out. ok (header, out)
