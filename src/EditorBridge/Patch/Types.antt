-- ===== src/EditorBridge/Patch/Types.antt =====
-- The errors and the result of src/kayak/editor_bridge/dataset_patch.py.
use kayak_python.Base.{ℕ, String, Bool, List, is_empty}
use kayak_python.Base.Dict.{Dict}
pub use kayak_python.Base.Attempt.{Attempt, ok, raised, ◌>>=◌, ◌>>◌, refuse_if}

abbrev pub Text : Type 0
Text = List ℕ

-- The messages of `DatasetPatchError` and `ConflictError`, with what they name.
pub data Problem : Type 0 where
  reach_class_unsupported : Problem
  no_diff : String → Problem
  unsupported_target_type : String → Problem
  diff_not_object : String → Problem
  fields_not_allowed : String → List String → Problem
  boolean_value : String → String → Problem
  unsupported_value : String → String → Problem
  empty_file : String → Problem
  no_id_column : String → Problem
  unknown_columns : String → List String → Problem
  ragged_row : String → ℕ → ℕ → ℕ → Problem
  id_not_found : String → ℕ → Problem
  no_reviewed_base : String → ℕ → List String → Problem
  drifted : String → ℕ → Dict (String × String) → Problem

-- What a call may raise. The last three are not errors of this module's own classes.
pub data Raised : Type 0 where
  patch_error : Problem → Raised
  conflict_error : Problem → Raised
  file_not_found : String → Raised
  index_error : Raised
  key_error : Raised

abbrev pub Result {ℓ} : Type ℓ → Type ℓ
Result A = Attempt Raised A

pub record PatchResult : Type 0 where
  pub file : String
  pub target_id : ℕ
  pub changed : Dict (String × String)

abbrev pub is_noop : PatchResult → Bool
is_noop r = is_empty r.changed
