-- ===== src/EditorBridge/Patch/Apply.antt =====
-- `_patch_row` and `apply_change` of src/kayak/editor_bridge/dataset_patch.py.
-- The dataset directory is a dictionary from file names to texts.
use kayak_python.Base.{ℕ, String, Option, none, some, List, [], ◌∷◌, ◌++◌, if◌then◌else◌, str_eq}
use kayak_python.Base.Dict.{Dict, get, put, has, keys}
use kayak_python.EditorBridge.Json.{Json}
use kayak_python.EditorBridge.Patch.Types.{
  Text, Result, ◌>>=◌, ◌>>◌, PatchResult, reach_class_unsupported, no_diff, unsupported_target_type,
  patch_error, file_not_found, ok, raised,
}
use kayak_python.EditorBridge.Patch.Diff.{
  reach_allowed_fields, gauge_allowed_fields, reach_stamp_column, validate_diff,
}
use kayak_python.EditorBridge.Patch.Rows.{
  universal_newlines, physical_lines, CsvReader, spans_from, records, validated_header, locate_row,
  ensure_no_drift,
}
use kayak_python.EditorBridge.Patch.Write.{write_row}

abbrev pub Dataset : Type 0
Dataset = Dict Text

module _ (csv_reader : CsvReader) (csv_writerow : List String → Text) where
  -- `_patch_row` on the text of the file; `stamp=None` is the empty dictionary.
  unfoldable pub patch_text :
      String
      → ℕ
      → Dict String
      → Option (Dict Json)
      → Dict String
      → String
      → Text
      → Result (PatchResult × Option Text)
  patch_text file target_id updates expected_base stamp label content = do
    let lines = physical_lines content
    let rows = csv_reader content
    header ← validated_header file (records rows) (keys updates ++ keys stamp)
    found ← locate_row file (records rows) header target_id
    ensure_no_drift file target_id found.1 updates expected_base label
    write_row csv_writerow file target_id lines (spans_from 0 rows) header found.0 found.1 updates
        stamp

  abbrev pub written : String → Dataset → PatchResult × Option Text → PatchResult × Dataset
  written file d (r, none) = (r, d)
  written file d (r, some new_text) = (r, put file new_text d)

  -- `_patch_row`, the file read and written
  unfoldable pub patch_row :
      String
      → ℕ
      → Dict String
      → Option (Dict Json)
      → Dict String
      → String
      → Dataset
      → Result (PatchResult × Dataset)
  patch_row file target_id updates expected_base stamp label d = elim (get file d) [
    | none ↦ raised (file_not_found file)
    | some raw ↦ do
      r ← patch_text file target_id updates expected_base stamp label (universal_newlines raw)
      ok (written file d r)
  ]

  unfoldable pub apply_reach :
      Dataset → ℕ → Json → String → Option (Dict Json) → Result (PatchResult × Dataset)
  apply_reach d target_id diff updated_at expected_base = do
    updates ← validate_diff diff reach_allowed_fields "reach"
    patch_row "reach.csv" target_id updates expected_base ((reach_stamp_column, updated_at) ∷ [])
        "reach" d

  unfoldable pub apply_gauge :
      Dataset → ℕ → Json → Option (Dict Json) → Result (PatchResult × Dataset)
  apply_gauge d target_id diff expected_base = do
    updates ← validate_diff diff gauge_allowed_fields "gauge"
    patch_row "gauge.csv" target_id updates expected_base [] "gauge" d

  -- `apply_change`; a call that raises leaves the dataset as it was.
  unfoldable pub apply_change :
      Dataset
      → String
      → ℕ
      → Dict Json
      → String
      → Option (Dict Json)
      → Result (PatchResult × Dataset)
  apply_change d target_type target_id applied_json updated_at expected_base =
      if str_eq target_type "reach"
      then if has "reach_class" applied_json
        then raised (patch_error reach_class_unsupported)
        else elim (get "reach" applied_json) [
          | none ↦ raised (patch_error (no_diff "reach"))
          | some diff ↦ apply_reach d target_id diff updated_at expected_base
        ]
      else if str_eq target_type "gauge"
      then elim (get "gauge" applied_json) [
        | none ↦ raised (patch_error (no_diff "gauge"))
        | some diff ↦ apply_gauge d target_id diff expected_base
      ]
      else raised (patch_error (unsupported_target_type target_type))
