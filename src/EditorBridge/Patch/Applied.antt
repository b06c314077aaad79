-- ===== src/EditorBridge/Patch/Applied.antt =====
-- What a successful `apply_change` of dataset_patch.py may have changed.
use kayak_python.Base.{
  ℕ, String, ◌≡◌, List-cases, true, not, Option, none, some, List, [], ◌∷◌, arith, str_eq, eq_iff,
  Bool-cases, inl, inr, All, is_empty, Option-cases, mem_str, keep_if,
}
use kayak_python.Base.Dict.{Dict, get, has-get, keys}
use kayak_python.EditorBridge.Json.{Json, null, boolean, number, text, array, object, to_dict}
use kayak_python.EditorBridge.Patch.Types.{Text, ok, PatchResult}
use kayak_python.Base.Attempt.{Attempt-cases}
use kayak_python.EditorBridge.Patch.Diff.{
  cells, validate_diff, reach_allowed_fields, gauge_allowed_fields, reach_stamp_column,
}
use kayak_python.EditorBridge.Patch.Rows.{CsvReader}
use kayak_python.EditorBridge.Patch.Apply.{Dataset, apply_reach, apply_gauge, apply_change}
use kayak_python.EditorBridge.Patch.Scope.{Patched, patch_row-Patched}

abbrev pub Allowed : List String → Dict String → Type 0
Allowed fields updates = All (λ u. mem_str u.0 fields ≡ true) updates

cells-Allowed :
    (d : Dict Json) (allowed : List String) (label : String) (ups : Dict String)
    → keep_if (λ f. not (mem_str f allowed)) (keys d) ≡ []
    → cells d label ≡ ok ups
    → Allowed allowed ups
unfolding keys cells
cells-Allowed [] allowed label [] h e = tt
cells-Allowed [] allowed label (u ∷ ups) h e = absurd (ground arith)
cells-Allowed ((f, v) ∷ d) allowed label [] h e = absurd (ground arith)
cells-Allowed ((f, v) ∷ d) allowed label ((g, c) ∷ ups) h e =
    (ground arith, cells-Allowed d allowed label ups (ground arith) (ground arith))

-- A diff that passes has only allowed fields.
pub validate_diff-Allowed :
    (diff : Json) (allowed : List String) (label : String) (ups : Dict String)
    → validate_diff diff allowed label ≡ ok ups
    → Allowed allowed ups
unfolding validate_diff
validate_diff-Allowed (object fs) allowed label ups h = elim (Bool-cases (is_empty (to_dict fs))) [
  | inl e ↦ absurd (ground arith)
  | inr e ↦ elim (List-cases (keep_if (λ f. not (mem_str f allowed)) (keys (to_dict fs)))) [
    | inl none_bad ↦ cells-Allowed (to_dict fs) allowed label ups none_bad (ground arith)
    | inr (x, xs, bad) ↦ absurd (ground arith)
  ]
]
validate_diff-Allowed null allowed label ups h = absurd (ground arith)
validate_diff-Allowed (boolean b) allowed label ups h = absurd (ground arith)
validate_diff-Allowed (number s) allowed label ups h = absurd (ground arith)
validate_diff-Allowed (text s) allowed label ups h = absurd (ground arith)
validate_diff-Allowed array allowed label ups h = absurd (ground arith)

-- A successful `apply_change` names `reach` or `gauge`, found a diff for it whose fields all stand
-- in the allowlist of that table, and patched that table's file; only a reach row is stamped.
pub data Applied (reader : CsvReader) (w : List String → Text) (d : Dataset) (target_type : String)
    (target_id : ℕ) (json : Dict Json) (updated_at : String) (base : Option (Dict Json))
    (r : PatchResult) (d' : Dataset) : Type 0 where
  reach_applied :
      (diff : Json) (ups : Dict String)
      → target_type ≡ "reach"
      → get "reach_class" json ≡ none
      → get "reach" json ≡ some diff
      → validate_diff diff reach_allowed_fields "reach" ≡ ok ups
      → Allowed reach_allowed_fields ups
      → Patched reader w "reach.csv" target_id ups
          ((reach_stamp_column, updated_at) ∷ [])
          base
          "reach"
          d
          r
          d'
      → Applied reader w d target_type target_id json updated_at base r d'
  gauge_applied :
      (diff : Json) (ups : Dict String)
      → target_type ≡ "gauge"
      → get "gauge" json ≡ some diff
      → validate_diff diff gauge_allowed_fields "gauge" ≡ ok ups
      → Allowed gauge_allowed_fields ups
      → Patched reader w "gauge.csv" target_id ups [] base "gauge" d r d'
      → Applied reader w d target_type target_id json updated_at base r d'

module _ (reader : CsvReader) (w : List String → Text) where
  pub apply_change-Applied :
      (d : Dataset) (target_type : String) (target_id : ℕ) (json : Dict Json) (updated_at : String)
      (base : Option (Dict Json)) (r : PatchResult) (d' : Dataset)
      → apply_change reader w d target_type target_id json updated_at base ≡ ok (r, d')
      → Applied reader w d target_type target_id json updated_at base r d'
  unfolding apply_change apply_reach apply_gauge
  apply_change-Applied d tt_ target_id json updated_at base r d' h =
      elim (Bool-cases (str_eq tt_ "reach")) [
        | inl is_reach ↦ elim (Option-cases (get "reach" json)) [
          | inl e ↦ absurd (ground arith)
          | inr (diff, e) ↦ elim (Attempt-cases (validate_diff diff reach_allowed_fields "reach")) [
            | inr (x, ex) ↦ absurd (ground arith)
            | inl (ups, eu) ↦
                reach_applied diff ups (ground (arith, eq_iff tt_ "reach"))
                  (ground (arith, has-get "reach_class" json)) e eu
                  (validate_diff-Allowed diff reach_allowed_fields "reach" ups eu)
                  (patch_row-Patched reader w "reach.csv" target_id ups base _ "reach" d r d'
                    (ground arith))
          ]
        ]
        | inr not_reach ↦ elim (Bool-cases (str_eq tt_ "gauge")) [
          | inr not_gauge ↦ absurd (ground arith)
          | inl is_gauge ↦ elim (Option-cases (get "gauge" json)) [
            | inl e ↦ absurd (ground arith)
            | inr (diff, e) ↦
                elim (Attempt-cases (validate_diff diff gauge_allowed_fields "gauge")) [
                  | inr (x, ex) ↦ absurd (ground arith)
                  | inl (ups, eu) ↦
                      gauge_applied diff ups (ground (arith, eq_iff tt_ "gauge")) e eu
                        (validate_diff-Allowed diff gauge_allowed_fields "gauge" ups eu)
                        (patch_row-Patched reader w "gauge.csv" target_id ups base _ "gauge" d r d'
                          (ground arith))
                ]
          ]
        ]
      ]
