-- ===== src/EditorBridge/Worker/Valid.antt =====
-- The invariant of a bridge row, for the passes over queued rows.
use kayak_python.Base.{
  ℕ, ◌+◌, ◌<◌, String, ◌≡◌, refl, subst, sym, true, Option, none, some, List, [], ◌∷◌, arith,
  if◌then◌else◌, All, inl, inr, Bool-cases, ◌==◌, leb,
}
use kayak_python.EditorBridge.Patch.Types.{Problem}
use kayak_python.EditorBridge.Worker.Model.{
  Bridge, BridgeState, queued, pr_open, merged, deployed, pr_closed, conflict, worker_error,
  ChangeRequest, Call, done, trouble, infra, unexpected, adapter_bug, Detail, Services, Config,
  is_queued,
}
use kayak_python.EditorBridge.Worker.Rows.{
  max_infra_retries, is_ready, claim_row, terminal_row, save, find_bridge, holds,
}
use kayak_python.EditorBridge.Worker.Prepare.{Preparation, ready, recorded, prepare}
use kayak_python.EditorBridge.Worker.Checked.{Checked, row_refused, passed, prepare-Checked}
use kayak_python.EditorBridge.Worker.Process.{
  Body, conflicted, refused, no_op, opened, settle, infra_failure, process_row, process_prepared,
  work, branch_of,
}
use kayak_python.EditorBridge.Worker.Passes.{
  Pass, has_text, claim, claim_found, process_claimed, run_rows,
}

abbrev pub Unleased : Bridge → Type 0
Unleased b = (b.lease_owner ≡ none) × (b.lease_expires_at ≡ none)

-- What holds of a row in each state.
abbrev pub Valid : BridgeState → Bridge → Type 0
Valid queued b = (b.retry_count < max_infra_retries) × (b.conflict_json ≡ none)
Valid pr_open b = Unleased b × (b.conflict_json ≡ none) × ((n : ℕ) × (b.pr_number ≡ some n))
Valid merged b = Unleased b × (b.conflict_json ≡ none) × (has_text b.pr_merge_sha ≡ true)
Valid deployed b = Unleased b × (b.conflict_json ≡ none) × (has_text b.pr_merge_sha ≡ true)
Valid pr_closed b = Unleased b × (b.conflict_json ≡ none)
Valid conflict b = Unleased b × ((p : Problem) × (b.conflict_json ≡ some p))
Valid worker_error b = Unleased b × (b.conflict_json ≡ none)

abbrev pub IsValid : Bridge → Type 0
IsValid b = Valid b.state b

-- The invariant at a known state, both ways.
pub at_state : {s : BridgeState} (b : Bridge) → b.state ≡ s → IsValid b → Valid s b
at_state b e v = subst (λ s. Valid s b) e v

pub from_state : {s : BridgeState} (b : Bridge) → b.state ≡ s → Valid s b → IsValid b
from_state b e v = subst (λ s. Valid s b) (sym e) v

pub is_queued→≡ : (s : BridgeState) → is_queued s ≡ true → s ≡ queued
is_queued→≡ s h = ground arith

pub error-IsValid : (b : Bridge) (e : Detail) → IsValid (terminal_row b worker_error e none)
unfolding terminal_row
error-IsValid b e = ((refl, refl), refl)

claim_row-IsValid :
    (owner : String) (now : ℕ) (b : Bridge) → IsValid b → IsValid (claim_row owner now b)
unfolding claim_row
claim_row-IsValid owner now b v = elim (Bool-cases (is_ready b now)) [
  | inl e ↦ let q = is_queued→≡ b.state (ground arith) in rw e (from_state _ q (at_state b q v))
  | inr e ↦ rw e v
]

module _ {W : Type 0} (sv : Services W) (cfg : Config) where
  settle-IsValid :
      (b : Bridge) (branch : String) (r : Call Body) (w : W)
      → b.state ≡ queued
      → IsValid b
      → IsValid (settle sv cfg b branch r w).0.0
  unfolding infra_failure terminal_row
  settle-IsValid b branch (done (conflicted p)) w q v = ((refl, refl), (p, refl))
  settle-IsValid b branch (done (refused p)) w q v = ((refl, refl), refl)
  settle-IsValid b branch (done no_op) w q v = ((refl, refl), refl)
  settle-IsValid b branch (done (opened head pr)) w q v = ((refl, refl), refl, (pr.number, refl))
  settle-IsValid b branch (trouble (infra e)) w q v =
      elim (Bool-cases (leb max_infra_retries (b.retry_count + 1))) [
        | inl e ↦ rw e ((refl, refl), refl)
        | inr e ↦ rw e (from_state _ q (ground arith, (at_state b q v).1))
      ]
  settle-IsValid b branch (trouble (unexpected e)) w q v = ((refl, refl), refl)
  settle-IsValid b branch (trouble (adapter_bug e)) w q v = ((refl, refl), refl)

  prepared-IsValid :
      (requests : List ChangeRequest) (b : Bridge) (pr : Preparation) (w : W)
      → b.state ≡ queued
      → IsValid b
      → Checked sv requests b pr
      → IsValid (process_prepared sv cfg b (pr, w)).0.0
  prepared-IsValid requests b (recorded b' o) w q v (row_refused e x a) = error-IsValid b e
  prepared-IsValid requests b (ready p) w q v (passed p' c) =
      settle-IsValid b (branch_of sv cfg p.cr b) (work sv cfg p (branch_of sv cfg p.cr b) w).0
        (work sv cfg p (branch_of sv cfg p.cr b) w).1 q v

  process_row-IsValid :
      (requests : List ChangeRequest) (b : Bridge) (w : W)
      → b.state ≡ queued
      → IsValid b
      → IsValid (process_row sv cfg requests b w).0.0
  unfolding process_row
  process_row-IsValid requests b w q v =
      prepared-IsValid requests b (prepare sv requests b w).0 (prepare sv requests b w).1 q v
        (prepare-Checked sv requests b w)

-- Every row of the table is valid.
abbrev pub AllValid : List Bridge → Type 0
AllValid bs = All IsValid bs

pub save-AllValid : (b : Bridge) (bs : List Bridge) → IsValid b → AllValid bs → AllValid (save b bs)
unfolding save
save-AllValid b [] v vs = tt
save-AllValid b (c ∷ bs) v vs = elim (Bool-cases (c.id == b.id)) [
  | inl e ↦ rw (e, All) (v, vs.1)
  | inr e ↦ rw (e, All) (vs.0, save-AllValid b bs v vs.1)
]

find_bridge-IsValid :
    (i : ℕ) (bs : List Bridge) (b : Bridge) → AllValid bs → find_bridge i bs ≡ some b → IsValid b
unfolding find_bridge
find_bridge-IsValid i [] b vs e = absurd (ground arith)
find_bridge-IsValid i (c ∷ bs) b vs e = elim (Bool-cases (c.id == i)) [
  | inl h ↦ (let same : c ≡ b = ground arith in subst IsValid same vs.0)
  | inr h ↦ find_bridge-IsValid i bs b vs.1 (ground arith)
]

module _ {W : Type 0} (sv : Services W) (cfg : Config) (owner : String) where
  claim_found-AllValid :
      (now : ℕ) (w : W) (s : Pass W) (o : Option Bridge)
      → ((b : Bridge) → o ≡ some b → IsValid b)
      → AllValid s.tables.bridges
      → AllValid (process_claimed sv cfg owner (claim_found sv cfg owner now w s o)).tables.bridges
  claim_found-AllValid now w s none found vs = vs
  claim_found-AllValid now w s (some b) found vs =
      let b' = claim_row owner now b in
      let v = claim_row-IsValid owner now b (found b refl) in
      let vs' = save-AllValid b' s.tables.bridges v vs in
      elim (Bool-cases (holds owner b')) [
        | inr h ↦ rw (h, if◌then◌else◌) vs'
        | inl h ↦
            rw (h, if◌then◌else◌)
              (save-AllValid _ _
                (process_row-IsValid sv cfg s.tables.requests b' w
                  (is_queued→≡ b'.state (ground arith)) v)
                vs')
      ]

  pub run_rows-AllValid :
      (bs : List Bridge) (s : Pass W)
      → AllValid s.tables.bridges
      → AllValid (run_rows sv cfg owner bs s).tables.bridges
  unfolding run_rows claim
  run_rows-AllValid [] s vs = vs
  run_rows-AllValid (b ∷ bs) s vs = run_rows-AllValid bs _ (
      claim_found-AllValid (sv.clock s.world).0 (sv.clock s.world).1 s
        (find_bridge b.id s.tables.bridges)
        (λ c e. find_bridge-IsValid b.id s.tables.bridges c vs e) vs)
