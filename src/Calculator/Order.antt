-- ===== src/Calculator/Order.antt =====
-- `_topo_sort_calc_sources` of src/kayak/cli/calculator.py: the rounds that order the calculated
-- sources, over the gauges that a source reads and the gauge that it feeds.
use kayak_python.Base.{
  ℕ, zero, suc, Bool, List, [], ◌∷◌, ◌++◌, all, length, map, if◌then◌else◌, is_empty,
}
use kayak_python.Base.Chars.{mem_chars, Chars}
use kayak_python.Base.Attempt.{Attempt, ok, raised}

-- What a round leaves: the sources that it appends, those that wait, and the resolved gauges.
pub record Round {ℓ} (A : Type ℓ) : Type ℓ where
  pub ready : List A
  pub waiting : List A
  pub resolved : List Chars

module _ {ℓ} {A : Type ℓ} (deps : A → List Chars) (gauge_of : A → Chars) where
  -- `all(d in resolved for d in deps)`
  abbrev pub is_ready : List Chars → A → Bool
  is_ready resolved s = all (λ d. mem_chars d resolved) (deps s)

  -- `if src_gauge_name: resolved.add(src_gauge_name)`
  abbrev pub resolve : A → List Chars → List Chars
  resolve s resolved = if is_empty (gauge_of s) then resolved else gauge_of s ∷ resolved

  abbrev pub put_ready : A → Round A → Round A
  put_ready s r = record r { ready = s ∷ r.ready }

  abbrev pub put_waiting : A → Round A → Round A
  put_waiting s r = record r { waiting = s ∷ r.waiting }

  -- The `for` loop: a source that is appended counts as resolved for the sources after it.
  unfoldable pub round : List A → List Chars → Round A
  round [] resolved = record { ready = []; waiting = []; resolved = resolved }
  round (s ∷ ss) resolved =
      let yes = put_ready s (round ss (resolve s resolved)) in
      let no = put_waiting s (round ss resolved) in if is_ready resolved s then yes else no

  -- What follows a round: the next one, or the error when nothing was appended.
  abbrev pub after_round :
      (A → Chars)
      → (List A → List A → List Chars → Attempt (List Chars) (List A))
      → List A
      → List A
      → List A
      → List Chars
      → Attempt (List Chars) (List A)
  after_round label again sorted [] waiting resolved = raised (map label waiting)
  after_round label again sorted (s ∷ ss) waiting resolved =
      again (sorted ++ s ∷ ss) waiting resolved

  -- The `while` loop, with `max_iterations` as the fuel: it ends when nothing remains or the fuel is
  -- spent, and raises with the names of the sources that wait when a round appends none.
  unfoldable pub rounds :
      (A → Chars) → ℕ → List A → List A → List Chars → Attempt (List Chars) (List A)
  rounds label fuel sorted [] resolved = ok sorted
  rounds label zero sorted (s ∷ ss) resolved = ok sorted
  rounds label (suc fuel) sorted (s ∷ ss) resolved =
      let r = round (s ∷ ss) resolved in
      after_round label (rounds label fuel) sorted r.ready r.waiting r.resolved

  unfoldable pub topo_sort : (A → Chars) → List A → Attempt (List Chars) (List A)
  unfolding rounds
  topo_sort label sources = rounds label (suc (length sources)) [] sources []
