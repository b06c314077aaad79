-- ===== src/Sync/Contract.antt =====
-- src/kayak/dataset/contract.py: the manifest of a dataset. YAML is decoded by a library; a file that
-- cannot be read or decoded is one case, and a decoded mapping has no key twice.
use kayak_python.Base.{
  ℕ, Bool, false, not, ◌&&◌, ◌||◌, Option, none, some, List, [], ◌∷◌, ◌++◌, String, codes, all,
  keep_if, is_empty, map, length, leb, ◌==◌, if◌then◌else◌,
}
use kayak_python.Base.Int.{ℤ, pos, negsuc}
use kayak_python.Base.Chars.{Chars, eq_chars, mem_chars, leb_chars, strip}
use kayak_python.Base.Sort.{sort}
use kayak_python.Validate.Ints.{drop_newline}

-- A decoded value, as far as the checks tell values apart.
pub data Yaml : Type 0 where
  text : Chars → Yaml
  int : ℤ → Yaml
  other : Yaml

-- A key is a text, or anything else that can be a key, with its `str`.
pub record Key : Type 0 where
  pub is_text : Bool
  pub shown : Chars

abbrev pub Meta : Type 0
Meta = List (Key × Yaml)

-- What is at `dataset.yaml`.
pub data Manifest : Type 0 where
  absent : Manifest
  corrupt : Chars → Manifest
  mapping : Meta → Manifest

pub data Problem : Type 0 where
  unreadable : Chars → Problem
  contract_zero : Problem
  unknown_keys : List Chars → Problem
  version_not_integer : Problem
  version_unsupported : ℤ → Problem
  empty_field : Chars → Problem
  bad_status : Problem
  bad_engine_ref : Problem
  scaffold_refused : Problem

abbrev pub known_keys : List Chars
known_keys =
    codes "contract_version"
    ∷ codes "dataset_id"
    ∷ codes "name"
    ∷ codes "status"
    ∷ codes "license"
    ∷ codes "engine_test_ref"
    ∷ codes "provenance"
    ∷ []

-- `MIN_CONTRACT <= ver <= MAX_CONTRACT`
abbrev pub is_supported : ℤ → Bool
is_supported (pos n) = leb 1 n && leb n 1
is_supported (negsuc n) = false

abbrev pub is_hex : ℕ → Bool
is_hex c = (leb 48 c && leb c 57) || (leb 97 c && leb c 102)

-- `^[0-9a-f]{40}$`, where `$` also matches before a line feed at the end.
abbrev pub engine_ref_re : Chars → Bool
engine_ref_re s = length (drop_newline s) == 40 && all is_hex (drop_newline s)

-- `key in KNOWN_KEYS`
abbrev pub is_known : Key → Bool
is_known k = k.is_text && mem_chars k.shown known_keys

-- `meta.get(name)`
unfoldable pub get : String → Meta → Option Yaml
get name [] = none
get name ((k, v) ∷ meta) =
    if k.is_text && eq_chars k.shown (codes name) then some v else get name meta

abbrev pub problem_if : Bool → Problem → List Problem
problem_if b p = if b then p ∷ [] else []

abbrev pub check_version : Option Yaml → List Problem
check_version (some (int v)) = problem_if (not (is_supported v)) (version_unsupported v)
check_version _ = version_not_integer ∷ []

-- A text that is not blank.
abbrev pub is_filled : Option Yaml → Bool
is_filled (some (text s)) = not (is_empty (strip s))
is_filled _ = false

-- `status in STATUSES`
abbrev pub is_status : Option Yaml → Bool
is_status (some (text s)) = eq_chars s (codes "scaffold") || eq_chars s (codes "publishable")
is_status _ = false

abbrev pub is_engine_ref : Option Yaml → Bool
is_engine_ref (some (text s)) = engine_ref_re s
is_engine_ref _ = false

abbrev pub check_field : Meta → String → List Problem
check_field meta name = problem_if (not (is_filled (get name meta))) (empty_field (codes name))

abbrev pub check_keys : List Chars → List Problem
check_keys [] = []
check_keys (k ∷ ks) = unknown_keys (sort leb_chars (k ∷ ks)) ∷ []

-- `validate_dataset_meta`
unfoldable pub validate_dataset_meta : Meta → List Problem
unfolding get sort
validate_dataset_meta meta =
    let keys = map (λ e. e.0) meta in
    let unknown = map (λ k. k.shown) (keep_if (λ k. not (is_known k)) keys) in
    check_keys unknown
    ++ (check_version (get "contract_version" meta)
        ++ (check_field meta "dataset_id"
            ++ (check_field meta "name"
                ++ (check_field meta "license"
                    ++ (problem_if (not (is_status (get "status" meta))) bad_status
                        ++ problem_if (not (is_engine_ref (get "engine_test_ref" meta)))
                            bad_engine_ref)))))

-- `_contract_problems`, and `check_contract`, its first part.
unfoldable pub contract_problems : Manifest → List Problem × Option Meta
unfolding validate_dataset_meta
contract_problems absent = (contract_zero ∷ [], none)
contract_problems (corrupt e) = (unreadable e ∷ [], none)
contract_problems (mapping meta) = (validate_dataset_meta meta, some meta)

abbrev pub is_scaffold : Option Yaml → Bool
is_scaffold (some (text s)) = eq_chars s (codes "scaffold")
is_scaffold _ = false

abbrev pub after_contract : Bool → List Problem × Option Meta → List Problem
after_contract allow_scaffold (p ∷ ps, meta) = p ∷ ps
after_contract allow_scaffold ([], none) = []
after_contract allow_scaffold ([], some meta) =
    problem_if (is_scaffold (get "status" meta) && not allow_scaffold) scaffold_refused

-- `gate_for_use`. No problems always come with a mapping, which the source asserts.
unfoldable pub gate_for_use : Bool → Manifest → List Problem
unfolding contract_problems get
gate_for_use allow_scaffold manifest = after_contract allow_scaffold (contract_problems manifest)
