-- ===== src/EditorBridge/Patch/Diff.antt =====
-- The allowlists, `_cell` and `_validate_diff` of src/kayak/editor_bridge/dataset_patch.py.
use kayak_python.Base.{String, not, List, [], ◌∷◌, ◌++◌, keep_if, is_empty, mem_str, if◌then◌else◌}
use kayak_python.Base.Dict.{Dict, keys}
use kayak_python.Base.Sort.{sorted}
use kayak_python.EditorBridge.Json.{Json, null, boolean, number, text, array, object, to_dict}
use kayak_python.EditorBridge.Patch.Types.{
  Result, ◌>>=◌, diff_not_object, fields_not_allowed, boolean_value, unsupported_value, patch_error,
  ok, raised,
}

abbrev pub reach_propose_fields : List String
reach_propose_fields =
    "description" ∷ "features" ∷ "display_name" ∷ "latitude_start" ∷ "longitude_start"
    ∷ "latitude_end" ∷ "longitude_end" ∷ []

abbrev pub reach_edit_fields : List String
reach_edit_fields =
    "display_name" ∷ "sort_name" ∷ "description" ∷ "difficulties" ∷ "basin" ∷ "region" ∷ "length"
    ∷ "gradient" ∷ "elevation_lost" ∷ "season" ∷ "scenery" ∷ "features" ∷ "remoteness" ∷ "nature"
    ∷ "watershed_type" ∷ "optimal_flow" ∷ "notes" ∷ []

-- Only membership in the union is ever asked.
abbrev pub reach_allowed_fields : List String
reach_allowed_fields = reach_propose_fields ++ reach_edit_fields

abbrev pub gauge_allowed_fields : List String
gauge_allowed_fields =
    "name" ∷ "location" ∷ "latitude" ∷ "longitude" ∷ "elevation" ∷ "drainage_area" ∷ "bank_full"
    ∷ "flood_stage" ∷ "huc" ∷ "station_id" ∷ "usgs_id" ∷ "cbtt_id" ∷ "geos_id" ∷ "nws_id"
    ∷ "nwsli_id" ∷ "snotel_id" ∷ []

abbrev pub reach_stamp_column : String
reach_stamp_column = "updated_at"

-- `_cell`
unfoldable pub cell : String → Json → String → Result String
cell field null label = ok ""
cell field (boolean b) label = raised (patch_error (boolean_value label field))
cell field (text s) label = ok s
cell field (number s) label = ok s
cell field array label = raised (patch_error (unsupported_value label field))
cell field (object fs) label = raised (patch_error (unsupported_value label field))

-- The dictionary comprehension over the diff: it stops at the first value that raises.
unfoldable pub cells : Dict Json → String → Result (Dict String)
unfolding cell
cells [] label = ok []
cells ((field, value) ∷ diff) label = do
  c ← cell field value label
  rest ← cells diff label
  ok ((field, c) ∷ rest)

abbrev pub validate_dict : Dict Json → List String → String → Result (Dict String)
validate_dict diff allowed label =
    if is_empty diff
    then raised (patch_error (diff_not_object label))
    else let bad = keep_if (λ f. not (mem_str f allowed)) (keys diff) in
      if is_empty bad
      then cells diff label
      else raised (patch_error (fields_not_allowed label (sorted bad)))

-- `_validate_diff`
unfoldable pub validate_diff : Json → List String → String → Result (Dict String)
unfolding cells to_dict keys
validate_diff (object fs) allowed label = validate_dict (to_dict fs) allowed label
validate_diff _ allowed label = raised (patch_error (diff_not_object label))
