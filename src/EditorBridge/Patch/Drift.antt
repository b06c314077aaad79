-- ===== src/EditorBridge/Patch/Drift.antt =====
-- The drift check of dataset_patch.py against its specification.
use kayak_python.Base.{
  ℕ, String, ◌≡◌, refl, not, some, [], ◌∷◌, arith, eq_iff, str_eq_self, inl, inr, All, keep_if, ◌↔◌,
  Option-cases,
}
use kayak_python.Base.Dict.{Dict, get, has, has-get, keys}
use kayak_python.EditorBridge.Json.{Json}
use kayak_python.EditorBridge.Patch.Types.{ok}
use kayak_python.Base.Attempt.{Attempt-cases}
use kayak_python.EditorBridge.Patch.Diff.{cell}
use kayak_python.EditorBridge.Patch.Rows.{get_cell, drift, ensure_no_drift}

-- The cell of the row is what the reviewed base says, for one updated field.
abbrev pub Certified : Dict String → Dict Json → String → String → Type 0
Certified row base label f =
    (b : Json) × (get f base ≡ some b) × (cell f b label ≡ ok (get_cell f row))

drift-Certified :
    (row updates : Dict String) (base : Dict Json) (label : String)
    → drift row updates base label ≡ ok []
    → All (λ u. Certified row base label u.0) updates
unfolding drift
drift-Certified row [] base label h = tt
drift-Certified row ((f, new) ∷ updates) base label h = elim (Option-cases (get f base)) [
  | inl e ↦ absurd (ground arith)
  | inr (b, e) ↦ (elim (Attempt-cases (cell f b label)) [
    | inl (c, ec) ↦ (
      (b, e, ground (arith, eq_iff (get_cell f row) c)),
      drift-Certified row updates base label (ground (arith, eq_iff (get_cell f row) c)),
    )
    | inr (x, ex) ↦ absurd (ground arith)
  ])
]

Certified-drift :
    (row updates : Dict String) (base : Dict Json) (label : String)
    → All (λ u. Certified row base label u.0) updates
    → drift row updates base label ≡ ok []
unfolding drift
Certified-drift row [] base label h = refl
Certified-drift row ((f, new) ∷ updates) base label ((b, e, c), rest) =
    ground (arith, Certified-drift row updates base label rest, str_eq_self (get_cell f row))

no_missing :
    (row updates : Dict String) (base : Dict Json) (label : String)
    → All (λ u. Certified row base label u.0) updates
    → keep_if (λ f. not (has f base)) (keys updates) ≡ []
unfolding keys
no_missing row [] base label h = refl
no_missing row ((f, new) ∷ updates) base label ((b, e, c), rest) =
    ground (arith, has-get f base, no_missing row updates base label rest)

-- With a reviewed base the drift check passes exactly when every updated field has a base value
-- whose cell is the field's current cell.
pub ensure_no_drift_iff :
    (file : String) (target_id : ℕ) (row updates : Dict String) (base : Dict Json) (label : String)
    → (ensure_no_drift file target_id row updates (some base) label ≡ ok tt)
      ↔ All (λ u. Certified row base label u.0) updates
unfolding ensure_no_drift
ensure_no_drift_iff file target_id row updates base label = (
  λ h. drift-Certified row updates base label (ground arith),
  λ h.
      ground (arith, no_missing row updates base label h, Certified-drift row updates base label h),
)
