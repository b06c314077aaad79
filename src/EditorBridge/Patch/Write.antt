-- ===== src/EditorBridge/Patch/Write.antt =====
-- How src/kayak/editor_bridge/dataset_patch.py changes the row and rewrites its span of lines.
use kayak_python.Base.{
  ℕ, zero, suc, String, Bool, false, Option, none, some, List, [], ◌∷◌, ◌++◌, get_elem?, take, drop,
  is_empty, if◌then◌else◌, str_eq, ◌==◌, get_last?,
}
use mathlib.Core.List.{flatten}
use kayak_python.Base.Dict.{Dict, get, put}
use kayak_python.EditorBridge.Patch.Types.{
  Text, Result, ◌>>=◌, PatchResult, index_error, key_error, ok, raised,
}
use kayak_python.EditorBridge.Patch.Rows.{get_cell}

-- `_apply_updates`: the new row, and the fields that changed with their values before and after.
unfoldable pub apply_updates : Dict String → Dict String → Dict String × Dict (String × String)
unfolding get put
apply_updates row [] = (row, [])
apply_updates row ((field, new) ∷ updates) =
    let before = get_cell field row in
    if str_eq before new
    then apply_updates row updates
    else let (row', changed) = apply_updates (put field new row) updates in
      (row', (field, (before, new)) ∷ changed)

-- `changed.update(more)`
unfoldable pub update {ℓ} : {V : Type ℓ} → Dict V → Dict V → Dict V
unfolding put
update d [] = d
update d ((k, v) ∷ more) = update (put k v d) more

-- `[row[c] for c in header]`
unfoldable pub row_cells : Dict String → List String → Result (List String)
row_cells row [] = ok []
row_cells row (c ∷ cs) = elim (get c row) [
  | none ↦ raised key_error
  | some v ↦ do rest ← row_cells row cs; ok (v ∷ rest)
]

abbrev pub ends_with_newline : Text → Bool
ends_with_newline l = elim (get_last? l) [ none ↦ false | some c ↦ c == 10 ]

-- `line.rstrip("\n")`
unfoldable pub rstrip_newlines : Text → Text
rstrip_newlines [] = []
rstrip_newlines (c ∷ cs) = elim (rstrip_newlines cs) [
  | [] ↦ if c == 10 then [] else c ∷ []
  | d ∷ ds ↦ c ∷ d ∷ ds
]

-- `lines[end - 1]`, where -1 is the last line
abbrev pub last_of_span : List Text → ℕ → Option Text
last_of_span lines zero = get_last? lines
last_of_span lines (suc n) = get_elem? lines n

module _ (csv_writerow : List String → Text) where
  -- `_rewrite_row` as the new text of the file
  unfoldable pub rewrite_row :
      List Text → List (ℕ × ℕ) → ℕ → List String → Dict String → Result Text
  unfolding row_cells
  rewrite_row lines spans target_j header row = do
    cs ← row_cells row header
    let new_line = csv_writerow cs
    elim (get_elem? spans target_j) [
      | none ↦ raised index_error
      | some (start, stop) ↦ elim (last_of_span lines stop) [
        | none ↦ raised index_error
        | some last ↦
            let kept = if ends_with_newline last then new_line else rstrip_newlines new_line in
            ok (flatten (take start lines ++ (kept ∷ drop stop lines)))
      ]
    ]

  -- The end of `_patch_row`, from the located row on: the new text of the file, if it is written.
  unfoldable pub write_row :
      String
      → ℕ
      → List Text
      → List (ℕ × ℕ)
      → List String
      → ℕ
      → Dict String
      → Dict String
      → Dict String
      → Result (PatchResult × Option Text)
  write_row file target_id lines spans header target_j row updates stamp =
      let (row', changed) = apply_updates row updates in
      if is_empty changed
      then ok (record { file = file; target_id = target_id; changed = [] }, none)
      else let (row'', stamped) = apply_updates row' stamp in
        do
          new_text ← rewrite_row lines spans target_j header row''
          ok (
            record { file = file; target_id = target_id; changed = update changed stamped },
            some new_text,
          )
