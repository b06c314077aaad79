-- ===== src/EditorBridge/Patch/Tests.antt =====
-- src/kayak/editor_bridge/dataset_patch.py on a dataset of one reach, with the theorems applied.
use kayak_python.Base.{String, ◌≡◌, refl, inl, some, List, [], ◌∷◌, ◌++◌, ◌↔◌, All, codes, decimal}
use mathlib.Core.List.{flatten}
use kayak_python.Base.Dict.{Dict, get, put, has, keys}
use kayak_python.Base.Sort.{sort, sorted}
use kayak_python.EditorBridge.Json.{Json, text, object, end, field, to_dict}
use kayak_python.EditorBridge.Patch.Types.{Text, ok, PatchResult}
use kayak_python.EditorBridge.Patch.Diff.{cell, cells, validate_diff, reach_allowed_fields}
use kayak_python.EditorBridge.Patch.Rows.{
  universal_newlines, physical_lines, CsvReader, spans_from, validated_header, row_dict, locate_row,
  drift, ensure_no_drift,
}
use kayak_python.EditorBridge.Patch.Write.{
  apply_updates, update, row_cells, rstrip_newlines, rewrite_row, write_row,
}
use kayak_python.EditorBridge.Patch.Apply.{
  Dataset, patch_text, patch_row, apply_reach, apply_change,
}
use kayak_python.EditorBridge.Patch.Drift.{Certified, ensure_no_drift_iff}
use kayak_python.EditorBridge.Patch.Scope.{Splice, Patched, patch_row-Patched}
use kayak_python.EditorBridge.Patch.Applied.{Applied, apply_change-Applied}

abbrev old_file : Text
old_file = codes "id,notes,updated_at\n7,low,2020\n8,,2021\n"

abbrev new_file : Text
new_file = codes "id,notes,updated_at\n7,high,2026\n8,,2021\n"

abbrev header : List String
header = "id" ∷ "notes" ∷ "updated_at" ∷ []

abbrev seven : Dict String
seven = ("id", "7") ∷ ("notes", "low") ∷ ("updated_at", "2020") ∷ []

-- A reader that knows this one file, and a writer that quotes nothing.
abbrev pub reader : CsvReader
reader t = (header, 1) ∷ ("7" ∷ "low" ∷ "2020" ∷ [], 2) ∷ ("8" ∷ "" ∷ "2021" ∷ [], 3) ∷ []

abbrev pub writerow : List String → Text
writerow [] = 10 ∷ []
writerow (c ∷ []) = codes c ++ 10 ∷ []
writerow (c ∷ d ∷ cs) = codes c ++ 44 ∷ writerow (d ∷ cs)

abbrev pub dataset : Dataset
dataset = ("reach.csv", old_file) ∷ []

abbrev new_dataset : Dataset
new_dataset = ("reach.csv", new_file) ∷ []

abbrev notes_high : Dict String
notes_high = ("notes", "high") ∷ []

abbrev stamp_2026 : Dict String
stamp_2026 = ("updated_at", "2026") ∷ []

abbrev reviewed : Dict Json
reviewed = ("notes", text "low") ∷ []

abbrev pub diff : Json
diff = object (field "notes" (text "high") end)

abbrev pub payload : Dict Json
payload = ("reach", diff) ∷ []

abbrev report : PatchResult
report = record {
  file = "reach.csv";
  target_id = 7;
  changed = ("notes", ("low", "high")) ∷ ("updated_at", ("2020", "2026")) ∷ [];
}

ensure_no_drift_iff_example :
    (ensure_no_drift "reach.csv" 7 seven notes_high (some reviewed) "reach" ≡ ok tt)
    ↔ All (λ u. Certified seven reviewed "reach" u.0) notes_high
ensure_no_drift_iff_example = ensure_no_drift_iff "reach.csv" 7 seven notes_high reviewed "reach"

diff_passes : validate_diff diff reach_allowed_fields "reach" ≡ ok notes_high
unfolding validate_diff to_dict keys cells cell
diff_passes = refl

row_patched :
    patch_row reader writerow "reach.csv" 7 notes_high (some reviewed) stamp_2026 "reach" dataset
    ≡ ok (report, new_dataset)
unfolding patch_row patch_text universal_newlines physical_lines validated_header locate_row
    row_dict ensure_no_drift drift cell write_row apply_updates update row_cells rstrip_newlines
    rewrite_row get put has keys sort sorted decimal flatten
row_patched = refl

patch_row-Patched_example :
    Patched reader writerow "reach.csv" 7 notes_high stamp_2026
      (some reviewed)
      "reach"
      dataset
      report
      new_dataset
patch_row-Patched_example =
    patch_row-Patched reader writerow "reach.csv" 7 notes_high (some reviewed) stamp_2026 "reach"
      dataset report new_dataset row_patched

change_applied :
    apply_change reader writerow dataset "reach" 7 payload "2026" (some reviewed)
    ≡ ok (report, new_dataset)
unfolding apply_change apply_reach validate_diff to_dict keys cells cell get has patch_row
    patch_text universal_newlines physical_lines validated_header locate_row row_dict
    ensure_no_drift drift write_row apply_updates update row_cells rstrip_newlines rewrite_row put
    sort sorted decimal flatten
change_applied = refl

apply_change-Applied_example :
    Applied reader writerow dataset "reach" 7 payload "2026" (some reviewed) report new_dataset
apply_change-Applied_example =
    apply_change-Applied reader writerow dataset "reach" 7 payload "2026" (some reviewed) report
      new_dataset change_applied

abbrev new_seven : Dict String
new_seven = ("id", "7") ∷ ("notes", "high") ∷ ("updated_at", "2026") ∷ []

splice :
    Splice writerow
      (physical_lines old_file)
      (spans_from 0 (reader old_file))
      1
      header
      new_seven
      new_file
unfolding physical_lines row_cells get flatten
splice = record {
  cells = "7" ∷ "high" ∷ "2026" ∷ [];
  start = 1;
  stop = 2;
  line = codes "7,high,2026\n";
  cells_of_row = refl;
  span_of_row = refl;
  line_of_cells = inl refl;
  joined = refl;
}
