-- ===== src/EditorBridge/Patch/Rows.antt =====
-- How src/kayak/editor_bridge/dataset_patch.py reads the file: physical lines, header, row, drift.
use kayak_python.Base.{
  ℕ, suc, String, true, false, not, Option, none, some, List, [], ◌∷◌, length, get_elem?, drop,
  keep_if, is_empty, mem_str, if◌then◌else◌, str_eq, ◌==◌, decimal,
}
use mathlib.Core.List.{map}
use kayak_python.Base.Dict.{Dict, get, put, has, keys}
use kayak_python.Base.Sort.{sorted}
use kayak_python.EditorBridge.Json.{Json}
use kayak_python.EditorBridge.Patch.Types.{
  Text, Result, ◌>>=◌, ◌>>◌, refuse_if, empty_file, no_id_column, unknown_columns, ragged_row,
  id_not_found, no_reviewed_base, drifted, patch_error, conflict_error, index_error, key_error, ok,
  raised,
}
use kayak_python.EditorBridge.Patch.Diff.{cell}

-- `read_text` with universal newlines: CR LF and CR become LF.
unfoldable pub universal_newlines : Text → Text
universal_newlines [] = []
universal_newlines (c ∷ []) = (if c == 13 then 10 else c) ∷ []
universal_newlines (c ∷ d ∷ cs) = elim (c == 13) [
  | true ↦ elim (d == 10) [
    | true ↦ universal_newlines (d ∷ cs)
    | false ↦ 10 ∷ universal_newlines (d ∷ cs)
  ]
  | false ↦ c ∷ universal_newlines (d ∷ cs)
]

abbrev pub onto_line : ℕ → List Text → List Text
onto_line c [] = (c ∷ []) ∷ []
onto_line c (l ∷ ls) = (c ∷ l) ∷ ls

-- `_physical_lines`: each line keeps its line feed, and an empty last piece is no line.
unfoldable pub physical_lines : Text → List Text
physical_lines [] = []
physical_lines (c ∷ cs) = elim (c == 10) [
  | true ↦ (c ∷ []) ∷ physical_lines cs
  | false ↦ onto_line c (physical_lines cs)
]

-- A logical record, and the physical lines consumed through it (`reader.line_num`).
abbrev pub CsvReader : Type 0
CsvReader = Text → List (List String × ℕ)

abbrev pub spans_from : ℕ → List (List String × ℕ) → List (ℕ × ℕ)
spans_from prev [] = []
spans_from prev ((cs, line_num) ∷ rest) = (prev, line_num) ∷ spans_from line_num rest

abbrev pub records : List (List String × ℕ) → List (List String)
records = map (λ r. r.0)

-- `_validated_header`
unfoldable pub validated_header : String → List (List String) → List String → Result (List String)
validated_header file [] cols_used = raised (patch_error (empty_file file))
validated_header file (header ∷ rows) cols_used =
    if mem_str "id" header
    then (let unknown = keep_if (λ c. not (mem_str c header)) (sorted cols_used) in
        if is_empty unknown then ok header else raised (patch_error (unknown_columns file unknown)))
    else raised (patch_error (no_id_column file))

-- `xs.index(x)`, for an item that is there
abbrev pub index_of : String → List String → ℕ
index_of x [] = 0
index_of x (y ∷ ys) = if str_eq y x then 0 else suc (index_of x ys)

-- `dict(zip(header, cells))`: of a column that is named twice the last cell stays.
unfoldable pub row_dict : Dict String → List String → List String → Dict String
row_dict d [] cs = d
row_dict d (h ∷ hs) [] = d
row_dict d (h ∷ hs) (c ∷ cs) = row_dict (put h c d) hs cs

-- The loop of `_locate_row`, from row `j` on.
unfoldable pub locate_from :
    String → List String → ℕ → ℕ → List (List String) → Result (ℕ × Dict String)
unfolding row_dict
locate_from file header target_id j [] = raised (patch_error (id_not_found file target_id))
locate_from file header target_id j ([] ∷ rows) = locate_from file header target_id (suc j) rows
locate_from file header target_id j ((c ∷ cs) ∷ rows) =
    let rest = locate_from file header target_id (suc j) rows in
    elim (get_elem? (c ∷ cs) (index_of "id" header)) [
      | none ↦ raised index_error
      | some v ↦
          if str_eq v (decimal target_id)
          then if length (c ∷ cs) == length header
            then ok (j, row_dict [] header (c ∷ cs))
            else raised (patch_error (ragged_row file target_id (length (c ∷ cs)) (length header)))
          else rest
    ]

unfoldable pub locate_row : String → List (List String) → List String → ℕ → Result (ℕ × Dict String)
unfolding locate_from
locate_row file rows header target_id = locate_from file header target_id 1 (drop 1 rows)

-- `row.get(f, "")`
abbrev pub get_cell : String → Dict String → String
get_cell f row = elim (get f row) [ none ↦ "" | some v ↦ v ]

-- The loop of `_ensure_no_drift` that collects the drifted fields.
unfoldable pub drift :
    Dict String → Dict String → Dict Json → String → Result (Dict (String × String))
unfolding cell
drift row [] base label = ok []
drift row ((f, new) ∷ updates) base label = elim (get f base) [
  | none ↦ raised key_error
  | some b ↦ do
    c ← cell f b label
    rest ← drift row updates base label
    ok (if str_eq (get_cell f row) c then rest else (f, (c, get_cell f row)) ∷ rest)
]

-- `_ensure_no_drift`
unfoldable pub ensure_no_drift :
    String → ℕ → Dict String → Dict String → Option (Dict Json) → String → Result (Unit {0})
unfolding drift
ensure_no_drift file target_id row updates none label = ok tt
ensure_no_drift file target_id row updates (some base) label =
    let missing = keep_if (λ f. not (has f base)) (keys updates) in
    do
      refuse_if (not (is_empty missing))
          (conflict_error (no_reviewed_base file target_id (sorted missing)))
      moved ← drift row updates base label
      refuse_if (not (is_empty moved)) (conflict_error (drifted file target_id moved))
