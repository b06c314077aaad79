-- ===== src/Validate/Measure.antt =====
-- The bound on the rounds of `_regression_closure` of src/kayak/cli/validate_dataset.py: the links of
-- the reports that were not seen yet.
use kayak_python.Base.{
  ℕ, ◌+◌, ◌≤◌, ◌≡◌, sym, subst, true, false, not, ◌&&◌, List, [], ◌∷◌, length, if◌then◌else◌, arith,
  Bool-cases, inl, inr,
}
use kayak_python.Base.Chars.{Chars, mem_chars, eq_chars→≡}
use kayak_python.Validate.Regression.{
  md, same_extension, File, same_file, report, read_text, refs_of,
}
use kayak_python.Validate.Closure.{count_refs}

-- The links of a file that a walk may still follow.
abbrev cost : List Chars → File → ℕ
cost seen f =
    if same_extension f.name.extension md && not (mem_chars f.name.stem seen)
    then length (refs_of f.text)
    else 0

abbrev pub weight : List Chars → List File → ℕ
weight seen [] = 0
weight seen (f ∷ fs) = cost seen f + weight seen fs

cost-less : (s : Chars) (seen : List Chars) (f : File) → cost (s ∷ seen) f ≤ cost seen f
cost-less s seen f = ground arith

weight-less :
    (s : Chars) (seen : List Chars) (fs : List File) → weight (s ∷ seen) fs ≤ weight seen fs
weight-less s seen [] = omega arith
weight-less s seen (f ∷ fs) = omega (arith, cost-less s seen f, weight-less s seen fs)

pub weight-count_refs : (seen : List Chars) (fs : List File) → weight seen fs ≤ count_refs fs
unfolding count_refs
weight-count_refs seen [] = omega arith
weight-count_refs seen (f ∷ fs) =
    let c : cost seen f ≤ length (refs_of f.text) = ground arith in
    omega (arith, c, weight-count_refs seen fs)

cost-read :
    (s : Chars) (seen : List Chars) (f : File)
    → mem_chars s seen ≡ false
    → same_file f.name (report s) ≡ true
    → length (refs_of f.text) + cost (s ∷ seen) f ≤ cost seen f
cost-read s seen f n h =
    let k : f.name.stem ≡ s = eq_chars→≡ f.name.stem s (ground arith) in
    let out : mem_chars f.name.stem seen ≡ false =
      subst (λ x. mem_chars x seen ≡ false) (sym k) n in
    ground arith

-- To see a report takes its links out of the weight.
pub weight-seen :
    (s : Chars) (seen : List Chars) (fs : List File)
    → mem_chars s seen ≡ false
    → length (refs_of (read_text fs (report s))) + weight (s ∷ seen) fs ≤ weight seen fs
unfolding read_text refs_of
weight-seen s seen [] n = omega arith
weight-seen s seen (f ∷ fs) n = elim (Bool-cases (same_file f.name (report s))) [
  | inl e ↦ rw (e, if◌then◌else◌) (omega (arith, cost-read s seen f n e, weight-less s seen fs))
  | inr e ↦ rw (e, if◌then◌else◌) (omega (arith, cost-less s seen f, weight-seen s seen fs n))
]
