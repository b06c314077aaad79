-- ===== src/EditorBridge/Patch/Updates.antt =====
-- What `_apply_updates` does to a row, and what it reports.
use kayak_python.Base.{
  String, ◌≡◌, refl, ◌∙◌, true, false, none, some, [], ◌∷◌, arith, str_eq, eq_iff, if◌then◌else◌,
  Bool-cases, inl, inr,
}
use kayak_python.Base.Dict.{Dict, get, put, has, has-get, get-put}
use kayak_python.EditorBridge.Patch.Rows.{get_cell}
use kayak_python.EditorBridge.Patch.Write.{apply_updates, update}

-- No key is bound twice, as in every Python dictionary.
abbrev pub IsDistinct {ℓ} : {V : Type ℓ} → Dict V → Type 0
IsDistinct [] = Unit
IsDistinct ((k, v) ∷ d) = (has k d ≡ false) × IsDistinct d

get_cell-put :
    (f j new : String) (row : Dict String)
    → get_cell j (put f new row) ≡ (if str_eq f j then new else get_cell j row)
get_cell-put f j new row = ground (arith, get-put f j new row)

pub update_congr :
    (ups a b : Dict String)
    → ((j : String) → get_cell j a ≡ get_cell j b)
    → (j : String) → get_cell j (update a ups) ≡ get_cell j (update b ups)
unfolding update
update_congr [] a b h j = h j
update_congr ((f, new) ∷ ups) a b h j =
    update_congr ups (put f new a) (put f new b)
      (λ i. ground (arith, get_cell-put f i new a, get_cell-put f i new b, h i)) j

-- Every cell of the new row is what writing all the updates into the old row would give.
pub get-apply_updates :
    (j : String) (row updates : Dict String)
    → get_cell j (apply_updates row updates).0 ≡ get_cell j (update row updates)
unfolding apply_updates update
get-apply_updates j row [] = refl
get-apply_updates j row ((f, new) ∷ updates) = elim (Bool-cases (str_eq (get_cell f row) new)) [
  | inl e ↦
      rw (e, apply_updates)
        (get-apply_updates j row updates
          ∙ update_congr updates row (put f new row) (λ i. same e i) j)
  | inr e ↦ rw (e, apply_updates) (get-apply_updates j (put f new row) updates)
]
  where
    same :
        str_eq (get_cell f row) new ≡ true
        → (i : String) → get_cell i row ≡ get_cell i (put f new row)
    same e i = ground (arith, get_cell-put f i new row, eq_iff (get_cell f row) new, eq_iff f i)

-- An update is reported, with the value before and after it, exactly when it changes the cell.
pub changed-apply_updates :
    (f : String) (row updates : Dict String)
    → IsDistinct updates
    → get f (apply_updates row updates).1 ≡ elim (get f updates) [
      | none ↦ none
      | some new ↦ if str_eq (get_cell f row) new then none else some (get_cell f row, new)
    ]
unfolding apply_updates get
changed-apply_updates f row [] d = refl
changed-apply_updates f row ((k, new) ∷ updates) d = ground (
  arith,
  changed-apply_updates f row updates d.1,
  changed-apply_updates f (put k new row) updates d.1,
  get_cell-put k f new row,
  has-get k updates,
  eq_iff k f,
)
