-- ===== src/EditorBridge/Patch/Located.antt =====
-- Which row `_locate_row` of dataset_patch.py finds, as against the records of the file.
use kayak_python.Base.{
  ℕ, zero, suc, ◌+◌, ◌≤◌, ◌<◌, String, ◌≡◌, ◌≢◌, ◌⊎◌, inl, inr, refl, sym, ap, subst, ◌∙◌, true,
  Bool-cases, Option-cases, some, List, [], ◌∷◌, drop, length, get_elem?, mem_str, str_eq, eq_iff,
  decimal, if◌then◌else◌, ◌==◌, arith,
}
use kayak_python.Base.Dict.{Dict}
use kayak_python.EditorBridge.Patch.Types.{ok}
use kayak_python.EditorBridge.Patch.Rows.{
  index_of, row_dict, locate_from, locate_row, validated_header,
}

-- A record without the id in the given column: an empty one, or one with another text there.
abbrev pub IsOther : ℕ → ℕ → List String → Type 0
IsOther column target_id cells =
    (cells ≡ []) ⊎ ((v : String) × (get_elem? cells column ≡ some v) × (v ≢ decimal target_id))

-- The record number `j` of the file, counted from the header, is the first after it with the id in
-- the column named "id"; it is as long as the header, and the row maps the header to its cells.
pub record IsRowOf (header : List String) (rows : List (List String)) (target_id j : ℕ)
    (row : Dict String) : Type 0 where
  pub column : ℕ
  pub cells : List String
  pub column_name : get_elem? header column ≡ some "id"
  pub after_header : 1 ≤ j
  pub at_j : get_elem? rows j ≡ some cells
  pub has_id : get_elem? cells column ≡ some (decimal target_id)
  pub same_length : length cells ≡ length header
  pub row_of_cells : row ≡ row_dict [] header cells
  pub first :
      (i : ℕ) (cs : List String)
      → 1 ≤ i
      → i < j
      → get_elem? rows i ≡ some cs
      → IsOther column target_id cs

get_elem-index_of :
    (x : String) (xs : List String) → mem_str x xs ≡ true → get_elem? xs (index_of x xs) ≡ some x
get_elem-index_of x [] h = absurd (ground arith)
get_elem-index_of x (y ∷ ys) h = elim (Bool-cases (str_eq y x)) [
  | inl e ↦ rw (e, if◌then◌else◌) (ap some ((eq_iff y x).0 e))
  | inr e ↦
      rw (e, if◌then◌else◌) (get_elem-index_of x ys (ground (arith, h, e, eq_iff y x, eq_iff x y)))
]

-- What the loop found in the records from number `k` on.
record Found (file : String) (header : List String) (target_id k : ℕ) (rows : List (List String))
    (j : ℕ) (row : Dict String) : Type 0 where
  offset : ℕ
  cells : List String
  counted : j ≡ k + offset
  here : get_elem? rows offset ≡ some cells
  has_id : get_elem? cells (index_of "id" header) ≡ some (decimal target_id)
  same_length : length cells ≡ length header
  row_of_cells : row ≡ row_dict [] header cells
  first :
      (i : ℕ) (cs : List String)
      → i < offset
      → get_elem? rows i ≡ some cs
      → IsOther (index_of "id" header) target_id cs

module _ (file : String) (header : List String) (target_id : ℕ) where
  later :
      (k : ℕ) (cells : List String) (rows : List (List String)) (j : ℕ) (row : Dict String)
      → IsOther (index_of "id" header) target_id cells
      → Found file header target_id (suc k) rows j row
      → Found file header target_id k (cells ∷ rows) j row
  later k cells rows j row o f = record {
    offset = suc f.offset;
    cells = f.cells;
    counted = omega (arith, f.counted);
    here = f.here;
    has_id = f.has_id;
    same_length = f.same_length;
    row_of_cells = f.row_of_cells;
    first = passed;
  }
    where
      passed :
          (i : ℕ) (cs : List String)
          → i < suc f.offset
          → get_elem? (cells ∷ rows) i ≡ some cs
          → IsOther (index_of "id" header) target_id cs
      passed zero cs h e = subst (IsOther (index_of "id" header) target_id) (cc) o
      passed (suc i) cs h e = f.first i cs (omega (arith, h)) e

  locate_from-Found :
      (k : ℕ) (rows : List (List String)) (j : ℕ) (row : Dict String)
      → locate_from file header target_id k rows ≡ ok (j, row)
      → Found file header target_id k rows j row
  unfolding locate_from
  locate_from-Found k [] j row h = absurd (ground arith)
  locate_from-Found k ([] ∷ rows) j row h =
      later k [] rows j row (inl refl) (locate_from-Found (suc k) rows j row h)
  locate_from-Found k ((c ∷ cs) ∷ rows) j row h =
      elim (Option-cases (get_elem? (c ∷ cs) (index_of "id" header))) [
        | inl e ↦ absurd (ground arith)
        | inr (v, e) ↦ elim (Bool-cases (str_eq v (decimal target_id))) [
          | inr n ↦
              later k (c ∷ cs) rows j row
                (inr (v, e, λ q. absurd (ground (arith, n, q, eq_iff v (decimal target_id)))))
                (locate_from-Found (suc k) rows j row (ground arith))
          | inl y ↦ elim (Bool-cases (length (c ∷ cs) == length header)) [
            | inr n ↦ absurd (ground arith)
            | inl l ↦ (record {
              offset = 0;
              cells = c ∷ cs;
              counted = ground arith;
              here = refl;
              has_id = e ∙ ap some ((eq_iff v (decimal target_id)).0 y);
              same_length = ground (arith, l);
              row_of_cells = ground arith;
              first = λ i cs' g q. absurd (omega (arith, g));
            })
          ]
        ]
      ]

  get_elem-drop :
      (rows : List (List String)) (i : ℕ) → get_elem? (drop 1 rows) i ≡ get_elem? rows (suc i)
  get_elem-drop [] i = refl
  get_elem-drop (r ∷ rows) i = refl

  -- A row that `_locate_row` gives, under a header that was checked.
  pub locate_row-IsRowOf :
      (rows : List (List String)) (j : ℕ) (row : Dict String)
      → mem_str "id" header ≡ true
      → locate_row file rows header target_id ≡ ok (j, row)
      → IsRowOf header rows target_id j row
  unfolding locate_row
  locate_row-IsRowOf rows j row m h =
      let f = locate_from-Found 1 (drop 1 rows) j row h in
      let shift : j ≡ suc f.offset = omega (arith, f.counted) in
      record {
        column = index_of "id" header;
        cells = f.cells;
        column_name = get_elem-index_of "id" header m;
        after_header = omega (arith, shift);
        at_j = ap (get_elem? rows) shift ∙ sym (get_elem-drop rows f.offset) ∙ f.here;
        has_id = f.has_id;
        same_length = f.same_length;
        row_of_cells = f.row_of_cells;
        first = passed f.offset shift f.first;
      }
    where
      passed :
          (offset : ℕ)
          → j ≡ suc offset
          → ((i : ℕ) (cs : List String)
              → i < offset
              → get_elem? (drop 1 rows) i ≡ some cs
              → IsOther (index_of "id" header) target_id cs)
          → (i : ℕ) (cs : List String) → 1 ≤ i
          → i < j
          → get_elem? rows i ≡ some cs
          → IsOther (index_of "id" header) target_id cs
      passed offset q f zero cs a b e = absurd (omega (arith, a))
      passed offset q f (suc i) cs a b e = f i cs (omega (arith, b, q)) (get_elem-drop rows i ∙ e)

  -- A header that passes has a column named "id".
  pub header-has_id :
      (rows : List (List String)) (cols_used : List String)
      → validated_header file rows cols_used ≡ ok header
      → mem_str "id" header ≡ true
  unfolding validated_header
  header-has_id [] cols_used h = absurd (ground arith)
  header-has_id (r ∷ rows) cols_used h = elim (Bool-cases (mem_str "id" r)) [
    | inl e ↦ ground arith
    | inr e ↦ absurd (ground arith)
  ]
