-- ===== src/Validate/Counters.antt =====
-- `_int_ids`, `_parse_retired_id_list`, `_check_one_counter` and `_check_id_counters` of
-- src/kayak/cli/validate_dataset.py on the cells of the files. The tables that have ids, which the
-- layout derives from the models, are an argument.
use kayak_python.Base.{
  Bool, true, false, not, ◌&&◌, Option, none, some, List, [], ◌∷◌, ◌++◌, any, keep_if, is_empty,
  leb, ◌==◌, if◌then◌else◌, map,
}
use kayak_python.Base.Int.{ℤ, pos, negsuc}
use kayak_python.Base.Chars.{Chars, eq_chars, mem_chars, leb_chars, strip}
use kayak_python.Base.Assoc.{get_by, put_by}
use kayak_python.Base.Sort.{sort}
use kayak_python.Base.Attempt.{Attempt, ok, ◌>>=◌}
use kayak_python.Validate.Ints.{ValueError, int64_max, bounded_int}

abbrev pub eq_int : ℤ → ℤ → Bool
eq_int (pos m) (pos n) = m == n
eq_int (negsuc m) (negsuc n) = m == n
eq_int _ _ = false

abbrev pub leb_int : ℤ → ℤ → Bool
leb_int (pos m) (pos n) = leb m n
leb_int (pos m) (negsuc n) = false
leb_int (negsuc m) (pos n) = true
leb_int (negsuc m) (negsuc n) = leb n m

abbrev pub mem_int : ℤ → List ℤ → Bool
mem_int i is = any (eq_int i) is

-- The messages, by what they name.
pub data Fault : Type 0 where
  duplicate_counter missing_counter not_an_id_table : Chars → Fault
  invalid_next_id bad_id : Chars → Chars → Fault
  next_id_below_one : Chars → ℤ → Fault
  duplicate_ids reused_ids : Chars → List ℤ → Fault
  stale_counter : Chars → ℤ → ℤ → Fault
  not_a_list : Chars → Fault
  retired_not_integer : Chars → Fault
  retired_out_of_range : Chars → ℤ → Fault
  duplicate_retired : Chars → List ℤ → Fault

-- `(r.get(column) or "").strip()`
abbrev pub cell_text : Option Chars → Chars
cell_text none = []
cell_text (some s) = strip s

-- The ids of a column, or the first cell that is not one.
pub data Ids : Type 0 where
  parsed : List ℤ → Ids
  refused : Chars → Ids

abbrev pub and_id : ℤ → Ids → Ids
and_id i (parsed is) = parsed (i ∷ is)
and_id i (refused raw) = refused raw

abbrev pub or_refused : Chars → Option ℤ → Attempt ValueError Ids → Attempt ValueError Ids
or_refused raw none rest = ok (refused raw)
or_refused raw (some i) rest = rest >>= λ is. ok (and_id i is)

-- `_int_ids`
unfoldable pub int_ids : List (Option Chars) → Attempt ValueError Ids
unfolding bounded_int strip
int_ids [] = ok (parsed [])
int_ids (cell ∷ cells) =
    let rest = int_ids cells in
    let raw = cell_text cell in
    if is_empty raw then rest else bounded_int raw >>= λ v. or_refused raw v rest

-- `{i for i, c in Counter(is).items() if c > 1}`
unfoldable pub repeated : List ℤ → List ℤ
repeated [] = []
repeated (i ∷ is) =
    let rest = repeated is in if mem_int i is && not (mem_int i rest) then i ∷ rest else rest

-- `set(is)`
unfoldable pub unique : List ℤ → List ℤ
unique [] = []
unique (i ∷ is) = let rest = unique is in if mem_int i rest then rest else i ∷ rest

-- `max(is)`, from a first one.
abbrev pub greatest : ℤ → List ℤ → ℤ
greatest m [] = m
greatest m (i ∷ is) = greatest (if leb_int i m then m else i) is

abbrev pub peak : List ℤ → ℤ
peak [] = pos 0
peak (i ∷ is) = greatest i is

abbrev pub fault_if {ℓ} : {A : Type ℓ} → Bool → A → List A
fault_if false f = []
fault_if true f = f ∷ []

abbrev pub fault_of : (List ℤ → Fault) → List ℤ → List Fault
fault_of f is = fault_if (not (is_empty is)) (f is)

abbrev pub id_faults : Chars → ℤ → List ℤ → List ℤ → List Fault
id_faults table next ids retired =
    fault_of (duplicate_ids table) (sort leb_int (repeated ids))
    ++ (fault_of (reused_ids table) (sort leb_int (unique (keep_if (λ i. mem_int i retired) ids)))
        ++ fault_if (leb_int next (peak (ids ++ retired)))
            (stale_counter table next (peak (ids ++ retired))))

abbrev pub with_ids : Chars → ℤ → List ℤ → Ids → List Fault
with_ids table next retired (refused raw) = bad_id table raw ∷ []
with_ids table next retired (parsed ids) = id_faults table next ids retired

abbrev pub with_next :
    Chars → Chars → List (Option Chars) → List ℤ → Option ℤ → Attempt ValueError (List Fault)
with_next table raw cells retired none = ok (invalid_next_id table raw ∷ [])
with_next table raw cells retired (some next) =
    if leb_int (pos 1) next
    then (int_ids cells >>= λ ids. ok (with_ids table next retired ids))
    else ok (next_id_below_one table next ∷ [])

-- `_check_one_counter`, on the cells of the column `id` of the table.
unfoldable pub check_one_counter :
    Chars → Chars → List (Option Chars) → List ℤ → Attempt ValueError (List Fault)
unfolding bounded_int int_ids repeated unique sort
check_one_counter table raw cells retired = bounded_int raw >>= with_next table raw cells retired

-- The counters that were read, by table, with the faults.
pub record Counters : Type 0 where
  pub next_ids : List (Chars × Chars)
  pub faults : List Fault

abbrev pub has_counter : List (Chars × Chars) → Chars → Bool
has_counter d t = any (λ e. eq_chars t e.0) d

abbrev pub add_counter : Chars → Chars → Counters → Counters
add_counter table next acc = record {
  next_ids = put_by eq_chars table next acc.next_ids;
  faults = acc.faults ++ fault_if (has_counter acc.next_ids table) (duplicate_counter table);
}

-- A row without a table is passed over.
abbrev pub add_row : Chars → Chars → Counters → Counters
add_row [] next acc = acc
add_row (c ∷ cs) next acc = add_counter (c ∷ cs) next acc

-- The loop over id_counters.csv, on the cells of `table` and `next_id`.
unfoldable pub read_counters : List (Option Chars × Option Chars) → Counters → Counters
unfolding put_by strip
read_counters [] acc = acc
read_counters ((t, n) ∷ rows) acc = read_counters rows (add_row (cell_text t) (cell_text n) acc)

abbrev pub next_of : Option Chars → Chars
next_of none = []
next_of (some raw) = raw

module _ (cells_of : Chars → List (Option Chars)) (retired_of : Chars → List ℤ) where
  unfoldable pub check_each : List (Chars × Chars) → List Chars → Attempt ValueError (List Fault)
  unfolding check_one_counter get_by
  check_each d [] = ok []
  check_each d (t ∷ ts) =
      check_one_counter t (next_of (get_by eq_chars t d)) (cells_of t) (retired_of t) >>= λ fs.
      check_each d ts >>= λ gs. ok (fs ++ gs)

  -- `_check_id_counters`
  unfoldable pub check_id_counters :
      List Chars → List (Option Chars × Option Chars) → Attempt ValueError (List Fault)
  unfolding check_each read_counters sort
  check_id_counters id_tables rows =
      let read = read_counters rows record { next_ids = []; faults = [] } in
      let tables = map (λ e. e.0) read.next_ids in
      let missing = sort leb_chars (keep_if (λ t. not (mem_chars t tables)) id_tables) in
      let foreign = sort leb_chars (keep_if (λ t. not (mem_chars t id_tables)) tables) in
      let both = sort leb_chars (keep_if (λ t. mem_chars t tables) id_tables) in
      check_each read.next_ids both >>= λ fs.
      ok (read.faults ++ (map missing_counter missing ++ (map not_an_id_table foreign ++ fs)))

-- An item of a list of retired_ids.yaml: an integer, or the text of anything else (a Boolean too).
pub data Item : Type 0 where
  integer : ℤ → Item
  not_integer : Chars → Item

-- A value of retired_ids.yaml: a list, or anything else.
pub data Value : Type 0 where
  items : List Item → Value
  not_items : Value

abbrev pub is_id : ℤ → Bool
is_id i = leb_int (pos 1) i && leb_int i (pos int64_max)

abbrev pub add_item : Chars → Item → List Fault × List ℤ → List Fault × List ℤ
add_item table (not_integer text) (fs, is) = (retired_not_integer table ∷ fs, is)
add_item table (integer i) (fs, is) =
    if is_id i then (fs, i ∷ is) else (retired_out_of_range table i ∷ fs, is)

unfoldable pub read_items : Chars → List Item → List Fault × List ℤ
read_items table [] = ([], [])
read_items table (i ∷ is) = add_item table i (read_items table is)

abbrev pub with_duplicates : Chars → List Fault × List ℤ → List Fault × List ℤ
with_duplicates table (fs, is) =
    (fs ++ fault_of (duplicate_retired table) (sort leb_int (repeated is)), unique is)

-- `_parse_retired_id_list`
unfoldable pub parse_retired_id_list : Chars → Value → List Fault × List ℤ
unfolding read_items sort repeated unique
parse_retired_id_list table not_items = (not_a_list table ∷ [], [])
parse_retired_id_list table (items is) = with_duplicates table (read_items table is)

abbrev pub add_table :
    List Chars
    → Chars
    → Value
    → List Fault × List (Chars × List ℤ)
    → List Fault × List (Chars × List ℤ)
add_table id_tables table value (fs, retired) =
    let (gs, is) = parse_retired_id_list table value in
    if mem_chars table id_tables
    then (gs ++ fs, (table, is) ∷ retired)
    else (not_an_id_table table ∷ fs, retired)

unfoldable pub read_retired : List Chars → List (Chars × Value) → List Fault × List (Chars × List ℤ)
unfolding parse_retired_id_list
read_retired id_tables [] = ([], [])
read_retired id_tables ((table, value) ∷ rest) =
    add_table id_tables table value (read_retired id_tables rest)

abbrev pub all_or_nothing : List Fault × List (Chars × List ℤ) → List Fault × List (Chars × List ℤ)
all_or_nothing ([], retired) = ([], retired)
all_or_nothing (f ∷ fs, retired) = (f ∷ fs, [])

-- `_check_retired_ids`, on the mapping that retired_ids.yaml holds.
unfoldable pub check_retired_ids :
    List Chars → List (Chars × Value) → List Fault × List (Chars × List ℤ)
unfolding read_retired
check_retired_ids id_tables meta = all_or_nothing (read_retired id_tables meta)
