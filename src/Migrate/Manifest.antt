-- ===== src/Migrate/Manifest.antt =====
-- `discover_migrations` of src/kayak/cli/migrate.py: the manifest against the directory.
use kayak_python.Base.{
  ℕ, Bool, true, not, ◌&&◌, ◌||◌, Option, none, some, List, [], ◌∷◌, keep_if, is_empty,
  if◌then◌else◌, ◌==◌, map,
}
use kayak_python.Base.Attempt.{Attempt, ok, raised, ◌>>=◌, ◌>>◌, refuse_if}
use kayak_python.Base.Sort.{sort}
use kayak_python.Base.Chars.{mem_chars, Chars, eq_chars, leb_chars, strip}

-- A row of the manifest as `csv.DictReader` gives it; a missing cell is `none`.
pub record Row : Type 0 where
  pub version : Option Chars
  pub filename : Option Chars
  pub sha256 : Option Chars

-- `name` and `path` are told by the file's name.
pub record Migration : Type 0 where
  pub version : Chars
  pub filename : Chars
  pub digest : Chars

pub data Refusal : Type 0 where
  no_manifest : Refusal
  malformed_row : Row → Refusal
  version_mismatch : Chars → Chars → Refusal
  duplicate_version : Chars → Chars → Refusal
  duplicate_filename : Chars → Refusal
  missing_file : Chars → Refusal
  sha_mismatch : Chars → Refusal
  orphans : List Chars → Refusal

abbrev pub Result {ℓ} : Type ℓ → Type ℓ
Result A = Attempt Refusal A

-- The migrations directory, with the `*.sql` names that it lists.
pub record Directory : Type 0 where
  pub is_dir : Bool
  pub manifest : Option (List Row)
  pub content : Chars → Option Chars
  pub sql_names : List Chars

-- `(row.get(k) or "").strip()`
abbrev pub column : Option Chars → Chars
column none = []
column (some t) = strip t

-- `is_decimal` is `\d`, and `file_sha256` hashes the content of a file.
module _ (is_decimal : ℕ → Bool) (file_sha256 : Chars → Chars) where
  -- `_VERSION_RE.match(filename)`, group 1
  unfoldable pub version_prefix : Chars → Option Chars
  version_prefix (a ∷ b ∷ c ∷ d ∷ e ∷ rest) =
      if is_decimal a && is_decimal b && is_decimal c && is_decimal d && e == b'_'
      then some (a ∷ b ∷ c ∷ d ∷ [])
      else none
  version_prefix _ = none

  abbrev pub prefix_differs : Chars → Chars → Bool
  prefix_differs version filename = elim (version_prefix filename) [
    | none ↦ true
    | some p ↦ not (eq_chars p version)
  ]

  abbrev pub check_file : Directory → Chars → Chars → Chars → Result Migration
  check_file dir version filename sha = elim (dir.content filename) [
    | none ↦ raised (missing_file filename)
    | some body ↦
        if eq_chars (file_sha256 body) sha
        then ok (record { version = version; filename = filename; digest = sha })
        else raised (sha_mismatch filename)
  ]

  -- `_manifest_migration`: `seen` are the versions and `listed` the names of the rows before.
  unfoldable pub manifest_migration : Directory → Row → List Chars → List Chars → Result Migration
  manifest_migration dir row seen listed =
      let version = column row.version in
      let filename = column row.filename in
      let sha = column row.sha256 in
      do
        refuse_if (is_empty version || is_empty filename || is_empty sha) (malformed_row row)
        refuse_if (prefix_differs version filename) (version_mismatch version filename)
        refuse_if (mem_chars version seen) (duplicate_version version filename)
        refuse_if (mem_chars filename listed) (duplicate_filename filename)
        check_file dir version filename sha

  -- The loop over the rows.
  unfoldable pub read_rows :
      Directory → List Row → List Chars → List Chars → Result (List Migration)
  unfolding manifest_migration
  read_rows dir [] seen listed = ok []
  read_rows dir (row ∷ rows) seen listed = do
    m ← manifest_migration dir row seen listed
    rest ← read_rows dir rows (m.version ∷ seen) (m.filename ∷ listed)
    ok (m ∷ rest)

  abbrev pub filenames : List Migration → List Chars
  filenames = map (λ m. m.filename)

  abbrev pub discover_rows : Directory → List Row → Result (List Migration)
  discover_rows dir rows = do
    out ← read_rows dir rows [] []
    let left_out = keep_if (λ n. not (mem_chars n (filenames out))) dir.sql_names
    refuse_if (not (is_empty left_out)) (orphans (sort leb_chars left_out))
    ok (sort (λ a b. leb_chars a.version b.version) out)

  -- `discover_migrations`
  unfoldable pub discover_migrations : Directory → Result (List Migration)
  unfolding read_rows sort
  discover_migrations dir =
      if dir.is_dir
      then elim dir.manifest [ none ↦ raised no_manifest | some rows ↦ discover_rows dir rows ]
      else ok []
