-- ===== src/EditorBridge/Patch/Lines.antt =====
-- The physical lines of a text.
use kayak_python.Base.{
  ℕ, ◌≡◌, refl, ap, ◌∙◌, sym, false, List, [], ◌∷◌, ◌++◌, ◌==◌, Bool-cases, inl, inr, All,
}
use mathlib.Core.List.{flatten, append_assoc}
use kayak_python.EditorBridge.Patch.Types.{Text}
use kayak_python.EditorBridge.Patch.Rows.{physical_lines, onto_line}

flatten-onto_line : (c : ℕ) (ls : List Text) → flatten (onto_line c ls) ≡ c ∷ flatten ls
unfolding flatten
flatten-onto_line c [] = refl
flatten-onto_line c (l ∷ ls) = refl

-- Joining the physical lines of a text gives the text back.
pub flatten-physical_lines : (t : Text) → flatten (physical_lines t) ≡ t
unfolding physical_lines flatten
flatten-physical_lines [] = refl
flatten-physical_lines (c ∷ cs) = elim (Bool-cases (c == 10)) [
  | inl e ↦ rw (e, flatten) (ap (λ t. c ∷ t) (flatten-physical_lines cs))
  | inr e ↦
      rw (e, flatten)
        (flatten-onto_line c (physical_lines cs) ∙ ap (λ t. c ∷ t) (flatten-physical_lines cs))
]

-- A line: some characters that are no line feed, then at most one line feed, and not empty.
abbrev pub IsLine : Text → Type 0
IsLine [] = ⊥
IsLine (c ∷ []) = Unit
IsLine (c ∷ d ∷ cs) = ((c == 10) ≡ false) × IsLine (d ∷ cs)

All-IsLine-onto_line :
    (c : ℕ) (ls : List Text) → (c == 10) ≡ false → All IsLine ls → All IsLine (onto_line c ls)
All-IsLine-onto_line c [] h ls = (tt, tt)
All-IsLine-onto_line c ([] ∷ ls) h (l, rest) = absurd l
All-IsLine-onto_line c ((d ∷ ds) ∷ ls) h (l, rest) = ((h, l), rest)

-- Every physical line is such a line.
pub physical_lines-IsLine : (t : Text) → All IsLine (physical_lines t)
unfolding physical_lines
physical_lines-IsLine [] = tt
physical_lines-IsLine (c ∷ cs) = elim (Bool-cases (c == 10)) [
  | inl e ↦ rw (e, All) (tt, physical_lines-IsLine cs)
  | inr e ↦ rw (e, All) (All-IsLine-onto_line c (physical_lines cs) e (physical_lines-IsLine cs))
]

pub flatten-append : (xs ys : List Text) → flatten (xs ++ ys) ≡ flatten xs ++ flatten ys
unfolding flatten
flatten-append [] ys = refl
flatten-append (x ∷ xs) ys =
    rw (flatten-append xs ys) (sym (append_assoc x (flatten xs) (flatten ys)))
