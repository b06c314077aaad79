-- ===== src/EditorBridge/Patch/Scope.antt =====
-- What `_patch_row` of dataset_patch.py leaves untouched: all but one span of lines of one file.
use kayak_python.Base.{
  ℕ, String, ◌≡◌, ◌≢◌, refl, sym, ◌∙◌, true, false, Option, none, some, List, [], ◌∷◌, ◌++◌, arith,
  if◌then◌else◌, Bool-cases, inl, inr, ◌⊎◌, is_empty, take, drop, get_elem?, Option-cases,
}
use mathlib.Core.List.{flatten}
use kayak_python.Base.Dict.{Dict, get, put, keys}
use kayak_python.EditorBridge.Json.{Json}
use kayak_python.EditorBridge.Patch.Types.{Text, ok, ◌>>=◌, PatchResult}
use kayak_python.Base.Attempt.{bind-ok, Attempt-cases}
use kayak_python.EditorBridge.Patch.Rows.{
  CsvReader, physical_lines, universal_newlines, spans_from, records, validated_header, locate_row,
  ensure_no_drift, get_cell,
}
use kayak_python.EditorBridge.Patch.Write.{
  apply_updates, update, row_cells, rewrite_row, write_row, ends_with_newline, rstrip_newlines,
  last_of_span,
}
use kayak_python.EditorBridge.Patch.Apply.{Dataset, patch_text, patch_row, written}
use kayak_python.EditorBridge.Patch.Lines.{flatten-append}
use kayak_python.EditorBridge.Patch.Updates.{update_congr, get-apply_updates}
use kayak_python.EditorBridge.Patch.Located.{IsRowOf, locate_row-IsRowOf, header-has_id}

-- How a text arises from the lines of another: one span is replaced by the line of a row.
pub record Splice (w : List String → Text) (lines : List Text) (spans : List (ℕ × ℕ)) (j : ℕ)
    (header : List String) (row : Dict String) (new : Text) : Type 0 where
  pub cells : List String
  pub start : ℕ
  pub stop : ℕ
  pub line : Text
  pub cells_of_row : row_cells row header ≡ ok cells
  pub span_of_row : get_elem? spans j ≡ some (start, stop)
  pub line_of_cells : (line ≡ w cells) ⊎ (line ≡ rstrip_newlines (w cells))
  pub joined : new ≡ flatten (take start lines) ++ (line ++ flatten (drop stop lines))

module _ (w : List String → Text) where
  spliced :
      (start stop : ℕ) (lines : List Text) (cs : List String) (last : Text) {new : Text}
      → flatten (
          take start lines
          ++ ((if ends_with_newline last then w cs else rstrip_newlines (w cs)) ∷ drop stop lines))
        ≡ new
      → new
        ≡ flatten (take start lines)
          ++ ((if ends_with_newline last then w cs else rstrip_newlines (w cs))
              ++ flatten (drop stop lines))
  unfolding flatten
  spliced start stop lines cs last h = sym h ∙ flatten-append (take start lines) _

  rewrite_row-Splice :
      (lines : List Text) (spans : List (ℕ × ℕ)) (j : ℕ) (header : List String) (row : Dict String)
      (new : Text)
      → rewrite_row w lines spans j header row ≡ ok new
      → Splice w lines spans j header row new
  unfolding rewrite_row
  rewrite_row-Splice lines spans j header row new h = elim (Attempt-cases (row_cells row header)) [
    | inr (e, ee) ↦ absurd (ground arith)
    | inl (cs, ec) ↦ elim (Option-cases (get_elem? spans j)) [
      | inl e ↦ absurd (ground arith)
      | inr ((start, stop), es) ↦ elim (Option-cases (last_of_span lines stop)) [
        | inl e ↦ absurd (ground arith)
        | inr (last, el) ↦ (record {
          cells = cs;
          start = start;
          stop = stop;
          line = if ends_with_newline last then w cs else rstrip_newlines (w cs);
          cells_of_row = ec;
          span_of_row = es;
          line_of_cells = ground arith;
          joined = spliced start stop lines cs last (ground arith);
        })
      ]
    ]
  ]

is_empty→≡ {ℓ} : {A : Type ℓ} (xs : List A) → is_empty xs ≡ true → xs ≡ []
is_empty→≡ [] h = refl
is_empty→≡ (x ∷ xs) h = cc

is_empty→≢ {ℓ} : {A : Type ℓ} (xs : List A) → is_empty xs ≡ false → xs ≢ []
is_empty→≢ xs h e = absurd (ground arith)

-- The two ways in which the end of `_patch_row` returns.
data Wrote (w : List String → Text) (lines : List Text) (spans : List (ℕ × ℕ))
    (header : List String) (j : ℕ) (row updates stamp : Dict String) (r : PatchResult)
    (o : Option Text) : Type 0 where
  nothing :
      (apply_updates row updates).1 ≡ []
      → r.changed ≡ []
      → o ≡ none
      → Wrote w lines spans header j row updates stamp r o
  one_row :
      (new : Text)
      → (apply_updates row updates).1 ≢ []
      → r.changed
        ≡ update (apply_updates row updates).1 (apply_updates (apply_updates row updates).0 stamp).1
      → Splice w lines spans j header (apply_updates (apply_updates row updates).0 stamp).0 new
      → o ≡ some new
      → Wrote w lines spans header j row updates stamp r o

write_row-Wrote :
    (w : List String → Text) (file : String) (target_id : ℕ) (lines : List Text)
    (spans : List (ℕ × ℕ)) (header : List String) (j : ℕ) (row updates stamp : Dict String)
    (r : PatchResult) (o : Option Text)
    → write_row w file target_id lines spans header j row updates stamp ≡ ok (r, o)
    → Wrote w lines spans header j row updates stamp r o
unfolding write_row
write_row-Wrote w file target_id lines spans header j row updates stamp r o h =
    let row'' = (apply_updates (apply_updates row updates).0 stamp).0 in
    elim (Bool-cases (is_empty (apply_updates row updates).1)) [
      | inl e ↦ nothing (is_empty→≡ _ e) (ground arith) (ground arith)
      | inr e ↦ elim (Attempt-cases (rewrite_row w lines spans j header row'')) [
        | inr (x, ex) ↦ absurd (ground arith)
        | inl (new, en) ↦
            one_row new (is_empty→≢ _ e) (ground arith)
              (rewrite_row-Splice w lines spans j header row'' new en) (ground arith)
      ]
    ]

-- The outcome of a successful `_patch_row`: which row was found, and what became of the file.
pub data Patched (reader : CsvReader) (w : List String → Text) (file : String) (target_id : ℕ)
    (updates stamp : Dict String) (base : Option (Dict Json)) (label : String) (d : Dataset)
    (r : PatchResult) (d' : Dataset) : Type 0 where
  no_change :
      (raw : Text) (header : List String) (j : ℕ) (row : Dict String)
      → get file d ≡ some raw
      → validated_header file
          (records (reader (universal_newlines raw)))
          (keys updates ++ keys stamp)
        ≡ ok header
      → IsRowOf header (records (reader (universal_newlines raw))) target_id j row
      → ensure_no_drift file target_id row updates base label ≡ ok tt
      → (apply_updates row updates).1 ≡ []
      → r.changed ≡ []
      → d' ≡ d
      → Patched reader w file target_id updates stamp base label d r d'
  spliced_row :
      (raw : Text) (header : List String) (j : ℕ) (row : Dict String) (new : Text)
      → get file d ≡ some raw
      → validated_header file
          (records (reader (universal_newlines raw)))
          (keys updates ++ keys stamp)
        ≡ ok header
      → IsRowOf header (records (reader (universal_newlines raw))) target_id j row
      → ensure_no_drift file target_id row updates base label ≡ ok tt
      → (apply_updates row updates).1 ≢ []
      → r.changed
        ≡ update (apply_updates row updates).1 (apply_updates (apply_updates row updates).0 stamp).1
      → Splice w
          (physical_lines (universal_newlines raw))
          (spans_from 0 (reader (universal_newlines raw)))
          j
          header
          (apply_updates (apply_updates row updates).0 stamp).0
          new
      → ((f : String)
          → get_cell f (apply_updates (apply_updates row updates).0 stamp).0
            ≡ get_cell f (update (update row updates) stamp))
      → d' ≡ put file new d
      → Patched reader w file target_id updates stamp base label d r d'

module _ (reader : CsvReader) (w : List String → Text) where
  finish :
      (file : String) (target_id : ℕ) (updates : Dict String) (base : Option (Dict Json))
      (stamp : Dict String) (label : String) (d : Dataset) (r : PatchResult) (d' : Dataset)
      (raw : Text) (header : List String) (j : ℕ) (row : Dict String)
      → get file d ≡ some raw
      → validated_header file
          (records (reader (universal_newlines raw)))
          (keys updates ++ keys stamp)
        ≡ ok header
      → locate_row file (records (reader (universal_newlines raw))) header target_id ≡ ok (j, row)
      → ensure_no_drift file target_id row updates base label ≡ ok tt
      → (write_row w file target_id
            (physical_lines (universal_newlines raw))
            (spans_from 0 (reader (universal_newlines raw)))
            header
            j
            row
            updates
            stamp
          >>= λ q. ok (written reader w file d q))
        ≡ ok (r, d')
      → Patched reader w file target_id updates stamp base label d r d'
  finish file target_id updates base stamp label d r d' raw header j row er eh el ed h =
      let (q, eq, e) = bind-ok _ _ h in
      let (r', o) = q in
      let row_found =
        locate_row-IsRowOf file header target_id (records (reader (universal_newlines raw))) j row
          (header-has_id file header target_id _ _ eh) el in
      elim (write_row-Wrote w file target_id _ _ header j row updates stamp r' o eq) [
        | nothing e1 e2 e3 ↦
            no_change raw header j row er eh row_found ed e1 (ground arith) (ground arith)
        | one_row new e1 e2 sp e3 ↦
            spliced_row raw header j row new er eh row_found ed e1 (ground arith) sp
              (λ f.
                get-apply_updates f (apply_updates row updates).0 stamp
                ∙ update_congr stamp (apply_updates row updates).0 (update row updates)
                    (λ i. get-apply_updates i row updates) f)
              (ground arith)
      ]

  -- A successful `_patch_row` found the first record with the given id in the column named "id",
  -- passed the drift check on its row, and either changed nothing and wrote nothing, or wrote the same
  -- file with exactly the span of physical lines of that record replaced by the serialised row, whose
  -- cells are those of the stamp, else of the updates, else of the row that was found.
  pub patch_row-Patched :
      (file : String) (target_id : ℕ) (updates : Dict String) (base : Option (Dict Json))
      (stamp : Dict String) (label : String) (d : Dataset) (r : PatchResult) (d' : Dataset)
      → patch_row reader w file target_id updates base stamp label d ≡ ok (r, d')
      → Patched reader w file target_id updates stamp base label d r d'
  unfolding patch_row patch_text
  patch_row-Patched file target_id updates base stamp label d r d' h =
      elim (Option-cases (get file d)) [
        | inl e ↦ absurd (ground arith)
        | inr (raw, er) ↦
            let content = universal_newlines raw in
            let rows = reader content in
            elim (Attempt-cases
              (validated_header file (records rows) (keys updates ++ keys stamp))) [
                | inr (x, ex) ↦ absurd (ground arith)
                | inl (header, eh) ↦
                    elim (Attempt-cases (locate_row file (records rows) header target_id)) [
                      | inr (x, ex) ↦ absurd (ground arith)
                      | inl ((j, row), el) ↦
                          elim (Attempt-cases
                            (ensure_no_drift file target_id row updates base label)) [
                              | inr (x, ex) ↦ absurd (ground arith)
                              | inl (u, ed) ↦
                                  finish file target_id updates base stamp label d r d' raw header j
                                    row er eh el ed (ground arith)
                            ]
                    ]
              ]
      ]
