-- ===== src/Sync/Usable.antt =====
-- When the gate of src/kayak/dataset/contract.py lets a dataset through.
use kayak_python.Base.{
  ◌≡◌, refl, ◌∙◌, Bool, true, false, not, ◌&&◌, ◌||◌, Option, none, some, List, [], ◌∷◌, String,
  codes, all, keep_if, is_empty, map, ◌==◌, Bool-cases, inl, inr, arith,
}
use kayak_python.Base.Int.{pos, negsuc}
use kayak_python.Base.Chars.{Chars, eq_chars, eq_chars→≡}
use kayak_python.Validate.Empty.{is_empty-append, is_empty-map}
use kayak_python.Sync.Contract.{
  Yaml, text, int, other, Meta, Manifest, absent, corrupt, mapping, Problem, is_known, get,
  check_keys, problem_if, check_version, check_field, is_filled, is_status, is_engine_ref,
  is_scaffold, validate_dataset_meta, contract_problems, after_contract, gate_for_use,
}

abbrev pub is_version_one : Option Yaml → Bool
is_version_one (some (int (pos n))) = n == 1
is_version_one _ = false

abbrev pub has_text : String → Option Yaml → Bool
has_text t (some (text s)) = eq_chars s (codes t)
has_text t _ = false

-- The manifest has only known keys, names version 1, has the three texts, a commit to test against,
-- and is publishable, or a scaffold where those are allowed.
abbrev pub is_usable : Bool → Manifest → Bool
is_usable allow_scaffold absent = false
is_usable allow_scaffold (corrupt e) = false
is_usable allow_scaffold (mapping meta) =
    all (λ e. is_known e.0) meta
    && (is_version_one (get "contract_version" meta)
        && (is_filled (get "dataset_id" meta)
            && (is_filled (get "name" meta)
                && (is_filled (get "license" meta)
                    && ((has_text "publishable" (get "status" meta)
                          || (has_text "scaffold" (get "status" meta) && allow_scaffold))
                        && is_engine_ref (get "engine_test_ref" meta))))))

is_empty-problem_if : (b : Bool) (p : Problem) → is_empty (problem_if b p) ≡ not b
is_empty-problem_if true p = refl
is_empty-problem_if false p = refl

is_empty-check_version : (v : Option Yaml) → is_empty (check_version v) ≡ is_version_one v
is_empty-check_version none = refl
is_empty-check_version (some (text s)) = refl
is_empty-check_version (some (int (pos n))) = ground arith
is_empty-check_version (some (int (negsuc n))) = refl
is_empty-check_version (some other) = refl

is_empty-check_keys : (ks : List Chars) → is_empty (check_keys ks) ≡ is_empty ks
is_empty-check_keys [] = refl
is_empty-check_keys (k ∷ ks) = refl

all_known :
    (meta : Meta)
    → is_empty (keep_if (λ k. not (is_known k)) (map (λ e. e.0) meta))
      ≡ all (λ e. is_known e.0) meta
all_known [] = refl
all_known (e ∷ meta) = elim (Bool-cases (is_known e.0)) [
  | inl h ↦ rw (h, keep_if) (all_known meta)
  | inr h ↦ rw (h, keep_if) refl
]

unknown_keys_of :
    (meta : Meta)
    → is_empty
        (check_keys (map (λ k. k.shown) (keep_if (λ k. not (is_known k)) (map (λ e. e.0) meta))))
      ≡ all (λ e. is_known e.0) meta
unknown_keys_of meta =
    let unknown = keep_if (λ k. not (is_known k)) (map (λ e. e.0) meta) in
    is_empty-check_keys (map (λ k. k.shown) unknown)
    ∙ is_empty-map (λ k. k.shown) unknown
    ∙ all_known meta

is_status-texts :
    (v : Option Yaml) → is_status v ≡ (has_text "publishable" v || has_text "scaffold" v)
is_status-texts none = refl
is_status-texts (some (text s)) = ground arith
is_status-texts (some (int n)) = refl
is_status-texts (some other) = refl

-- A text is not both.
scaffold_only : (v : Option Yaml) → (has_text "publishable" v && is_scaffold v) ≡ false
scaffold_only none = refl
scaffold_only (some (text s)) = elim (Bool-cases (eq_chars s (codes "scaffold"))) [
  | inl e ↦ rw (eq_chars→≡ s (codes "scaffold") e) refl
  | inr e ↦ rw e (ground arith)
]
scaffold_only (some (int n)) = refl
scaffold_only (some other) = refl

scaffold_text : (v : Option Yaml) → is_scaffold v ≡ has_text "scaffold" v
scaffold_text none = refl
scaffold_text (some (text s)) = refl
scaffold_text (some (int n)) = refl
scaffold_text (some other) = refl

is_empty-check_field :
    (meta : Meta) (name : String) → is_empty (check_field meta name) ≡ is_filled (get name meta)
is_empty-check_field meta name =
    is_empty-problem_if (not (is_filled (get name meta))) _ ∙ ground arith

-- The manifest is valid, without regard to what is done with scaffolds.
abbrev is_valid : Meta → Bool
is_valid meta =
    all (λ e. is_known e.0) meta
    && (is_version_one (get "contract_version" meta)
        && (is_filled (get "dataset_id" meta)
            && (is_filled (get "name" meta)
                && (is_filled (get "license" meta)
                    && (is_status (get "status" meta)
                        && is_engine_ref (get "engine_test_ref" meta))))))

is_empty-validate : (meta : Meta) → is_empty (validate_dataset_meta meta) ≡ is_valid meta
unfolding validate_dataset_meta
is_empty-validate meta =
    is_empty-append (check_keys _) _
    ∙ and_eq (unknown_keys_of meta) (
        is_empty-append (check_version (get "contract_version" meta)) _
        ∙ and_eq (is_empty-check_version (get "contract_version" meta)) (
            is_empty-append (check_field meta "dataset_id") _
            ∙ and_eq (is_empty-check_field meta "dataset_id") (
                is_empty-append (check_field meta "name") _
                ∙ and_eq (is_empty-check_field meta "name") (
                    is_empty-append (check_field meta "license") _
                    ∙ and_eq (is_empty-check_field meta "license") (
                        is_empty-append (problem_if (not (is_status (get "status" meta))) _) _
                        ∙ and_eq (if_not (is_status (get "status" meta)) _)
                            (if_not (is_engine_ref (get "engine_test_ref" meta)) _))))))
  where
    and_eq : {a b c d : Bool} → a ≡ c → b ≡ d → (a && b) ≡ (c && d)
    and_eq h k = rw (h, k) refl

    if_not : (b : Bool) (p : Problem) → is_empty (problem_if (not b) p) ≡ b
    if_not b p = is_empty-problem_if (not b) p ∙ ground arith

-- The gate has nothing to report exactly when the manifest is usable.
pub gate_for_use-is_usable :
    (allow_scaffold : Bool) (manifest : Manifest)
    → is_empty (gate_for_use allow_scaffold manifest) ≡ is_usable allow_scaffold manifest
unfolding gate_for_use contract_problems
gate_for_use-is_usable allow absent = refl
gate_for_use-is_usable allow (corrupt e) = refl
gate_for_use-is_usable allow (mapping meta) =
    after_problems (validate_dataset_meta meta) (is_empty-validate meta)
  where
    after_problems :
        (ps : List Problem)
        → is_empty ps ≡ is_valid meta
        → is_empty (after_contract allow (ps, some meta)) ≡ is_usable allow (mapping meta)
    after_problems (p ∷ ps) h = ground (arith, h, is_status-texts (get "status" meta))
    after_problems [] h =
        is_empty-problem_if (is_scaffold (get "status" meta) && not allow) _
        ∙ ground (
          arith,
          h,
          is_status-texts (get "status" meta),
          scaffold_only (get "status" meta),
          scaffold_text (get "status" meta),
        )
