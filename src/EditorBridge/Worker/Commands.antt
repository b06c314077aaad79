-- ===== src/EditorBridge/Worker/Commands.antt =====
-- Sequences of calls of the entry points of worker.py, and the invariant of the rows.
use kayak_python.Base.{
  ℕ, zero, suc, String, ◌≡◌, refl, Bool, true, false, ◌&&◌, Option, none, some, List, [], ◌∷◌,
  arith, if◌then◌else◌, All, inl, inr, ◌⊎◌, Bool-cases, keep_if, take, str_eq,
}
use kayak_python.EditorBridge.Worker.Model.{
  Bridge, BridgeState, queued, pr_open, merged, deployed, pr_closed, conflict, worker_error,
  ChangeRequest, Services, Config, is_pr_open, is_merged, Tables, PullRequest, no_pr_number,
  is_approved,
}
use kayak_python.EditorBridge.Worker.Rows.{find_request}
use kayak_python.EditorBridge.Worker.Passes.{
  Pass, has_text, run_once, reconcile_row, reconcile_rows, reconcile, reconcile_read,
  reconcile_answer, mark_answer, deploy_found, requeue_at, mark_row, mark_rows, mark_deployed,
  mark_at, reconcile_at, requeue_parent, requeue_found, resolve_parent, requeue, bridge_of_request,
  requeued_row,
}
use kayak_python.EditorBridge.Worker.Valid.{
  IsValid, AllValid, at_state, error-IsValid, save-AllValid, run_rows-AllValid,
}

is_pr_open→≡ : (s : BridgeState) → is_pr_open s ≡ true → s ≡ pr_open
is_pr_open→≡ s h = ground arith

is_merged→≡ : (s : BridgeState) → is_merged s ≡ true → s ≡ merged
is_merged→≡ s h = ground arith

module _ (P : Bridge → Type 0) (p : Bridge → Bool) where
  All-keep_if : (bs : List Bridge) → All P bs → All (λ b. P b × (p b ≡ true)) (keep_if p bs)
  All-keep_if [] h = tt
  All-keep_if (b ∷ bs) h = elim (Bool-cases (p b)) [
    | inl e ↦ rw (e, All) ((h.0, e), All-keep_if bs h.1)
    | inr e ↦ rw (e, All) (All-keep_if bs h.1)
  ]

All-take : (P : Bridge → Type 0) (n : ℕ) (bs : List Bridge) → All P bs → All P (take n bs)
All-take P zero bs h = tt
All-take P (suc n) [] h = tt
All-take P (suc n) (b ∷ bs) h = (h.0, All-take P n bs h.1)

module _ {W : Type 0} (sv : Services W) where
  reconcile_read-AllValid :
      (b : Bridge) (pr : PullRequest) (w : W) (s : Pass W)
      → IsValid b
      → b.state ≡ pr_open
      → AllValid s.tables.bridges
      → AllValid (reconcile_read sv b pr w s).tables.bridges
  reconcile_read-AllValid b pr w s v q vs =
      let o = at_state b q v in
      elim (Bool-cases (pr.is_merged && has_text pr.merge_commit_sha)) [
        | inl e ↦ rw (e, if◌then◌else◌) (save-AllValid _ _ (o.0, o.1, ground arith) vs)
        | inr e ↦ elim (Bool-cases pr.is_merged) [
          | inl m ↦ rw (e, m, if◌then◌else◌) vs
          | inr m ↦ elim (Bool-cases pr.is_closed) [
            | inl c ↦ rw (e, m, c, if◌then◌else◌) (save-AllValid _ _ (o.0, o.1) vs)
            | inr c ↦ rw (e, m, c, if◌then◌else◌) vs
          ]
        ]
      ]

  answer-AllValid :
      (b : Bridge) (s : Pass W) (r : String ⊎ PullRequest) (w : W)
      → IsValid b
      → b.state ≡ pr_open
      → AllValid s.tables.bridges
      → AllValid (reconcile_answer sv b s r w).tables.bridges
  answer-AllValid b s (inl x) w v q vs = vs
  answer-AllValid b s (inr pr) w v q vs = reconcile_read-AllValid b pr w s v q vs

  reconcile_at-AllValid :
      (b : Bridge) (s : Pass W) (o : Option ℕ)
      → IsValid b
      → b.state ≡ pr_open
      → AllValid s.tables.bridges
      → AllValid (reconcile_at sv b s o).tables.bridges
  reconcile_at-AllValid b s none v q vs = save-AllValid _ _ (error-IsValid b no_pr_number) vs
  reconcile_at-AllValid b s (some n) v q vs =
      answer-AllValid b s (sv.get_pr n s.world).0 (sv.get_pr n s.world).1 v q vs

  reconcile_rows-AllValid :
      (bs : List Bridge) (s : Pass W)
      → All (λ b. IsValid b × (is_pr_open b.state ≡ true)) bs
      → AllValid s.tables.bridges
      → AllValid (reconcile_rows sv bs s).tables.bridges
  unfolding reconcile_rows reconcile_row
  reconcile_rows-AllValid [] s h vs = vs
  reconcile_rows-AllValid (b ∷ bs) s h vs =
      reconcile_rows-AllValid bs (reconcile_row sv b s) h.1
        (reconcile_at-AllValid b s b.pr_number h.0.0 (is_pr_open→≡ b.state h.0.1) vs)

  deploy_row-AllValid :
      (b : Bridge) (ref : String) (w : W) (s : Pass W) (o : Option ChangeRequest)
      → IsValid b
      → b.state ≡ merged
      → AllValid s.tables.bridges
      → AllValid (deploy_found sv b ref w s o).tables.bridges
  deploy_row-AllValid b ref w s none v q vs = save-AllValid _ _ (at_state b q v) vs
  deploy_row-AllValid b ref w s (some cr) v q vs = save-AllValid _ _ (at_state b q v) vs

  mark_answer-AllValid :
      (ref : String) (b : Bridge) (s : Pass W) (r : String ⊎ Bool) (w : W)
      → IsValid b
      → b.state ≡ merged
      → AllValid s.tables.bridges
      → AllValid (mark_answer sv ref b s r w).tables.bridges
  mark_answer-AllValid ref b s (inl x) w v q vs = vs
  mark_answer-AllValid ref b s (inr true) w v q vs =
      deploy_row-AllValid b ref w s (resolve_parent b ref s.tables.requests) v q vs
  mark_answer-AllValid ref b s (inr false) w v q vs = vs

  mark_at-AllValid :
      (ref : String) (b : Bridge) (s : Pass W) (o : Option String)
      → IsValid b
      → b.state ≡ merged
      → AllValid s.tables.bridges
      → AllValid (mark_at sv ref b s o).tables.bridges
  mark_at-AllValid ref b s none v q vs = vs
  mark_at-AllValid ref b s (some sha) v q vs = elim (Bool-cases (str_eq sha "")) [
    | inl x ↦ rw (x, if◌then◌else◌) vs
    | inr x ↦
        rw (x, if◌then◌else◌)
          (mark_answer-AllValid ref b s (sv.is_ancestor sha ref s.world).0
            (sv.is_ancestor sha ref s.world).1 v q vs)
  ]

  mark_rows-AllValid :
      (ref : String) (bs : List Bridge) (s : Pass W)
      → All (λ b. IsValid b × (is_merged b.state ≡ true)) bs
      → AllValid s.tables.bridges
      → AllValid (mark_rows sv ref bs s).tables.bridges
  unfolding mark_rows mark_row
  mark_rows-AllValid ref [] s h vs = vs
  mark_rows-AllValid ref (b ∷ bs) s h vs =
      mark_rows-AllValid ref bs (mark_row sv ref b s) h.1
        (mark_at-AllValid ref b s b.pr_merge_sha h.0.0 (is_merged→≡ b.state h.0.1) vs)

requeued-IsValid : (b : Bridge) → IsValid (requeued_row b)
requeued-IsValid b = (omega arith, refl)

requeue_at-AllValid :
    (b : Bridge) (t : Tables) (s : BridgeState)
    → AllValid t.bridges
    → AllValid (requeue_at b t s).1.bridges
requeue_at-AllValid b t queued vs = vs
requeue_at-AllValid b t pr_open vs = vs
requeue_at-AllValid b t merged vs = vs
requeue_at-AllValid b t deployed vs = vs
requeue_at-AllValid b t pr_closed vs =
    save-AllValid (requeued_row b) t.bridges (requeued-IsValid b) vs
requeue_at-AllValid b t conflict vs = vs
requeue_at-AllValid b t worker_error vs =
    save-AllValid (requeued_row b) t.bridges (requeued-IsValid b) vs

requeue_parent-AllValid :
    (b : Bridge) (t : Tables) (o : Option ChangeRequest)
    → AllValid t.bridges
    → AllValid (requeue_parent b t o).1.bridges
requeue_parent-AllValid b t none vs = vs
requeue_parent-AllValid b t (some cr) vs = elim (Bool-cases (is_approved cr.status)) [
  | inl a ↦ rw (a, if◌then◌else◌) (requeue_at-AllValid b t b.state vs)
  | inr a ↦ rw (a, if◌then◌else◌) vs
]

requeue_found-AllValid :
    (i : ℕ) (t : Tables) (o : Option Bridge)
    → AllValid t.bridges
    → AllValid (requeue_found i t o).1.bridges
requeue_found-AllValid i t none vs = vs
requeue_found-AllValid i t (some b) vs = requeue_parent-AllValid b t (find_request i t.requests) vs

-- A call of one of the four entry points of worker.py, with its arguments.
pub data Command : Type 0 where
  run_once_with : (lease_owner : String) (limit : ℕ) → Command
  reconcile_with : (limit : ℕ) → Command
  mark_deployed_with : (dataset_ref : String) (limit : ℕ) → Command
  requeue_with : (change_request_id : ℕ) → Command

module _ {W : Type 0} (sv : Services W) (cfg : Config) where
  pub execute : Command → Tables × W → Tables × W
  execute (run_once_with owner limit) (t, w) =
      let s = run_once sv cfg owner limit t w in (s.tables, s.world)
  execute (reconcile_with limit) (t, w) = let s = reconcile sv limit t w in (s.tables, s.world)
  execute (mark_deployed_with ref limit) (t, w) =
      let s = mark_deployed sv ref limit t w in (s.tables, s.world)
  execute (requeue_with i) (t, w) = ((requeue i t).1, w)

  pub run_commands : List Command → Tables × W → Tables × W
  run_commands [] s = s
  run_commands (c ∷ cs) s = run_commands cs (execute c s)

  execute-AllValid :
      (c : Command) (s : Tables × W) → AllValid s.0.bridges → AllValid (execute c s).0.bridges
  unfolding execute run_once reconcile mark_deployed requeue
  execute-AllValid (run_once_with owner limit) (t, w) vs = run_rows-AllValid sv cfg owner _ _ vs
  execute-AllValid (reconcile_with limit) (t, w) vs =
      reconcile_rows-AllValid sv _ _ (All-take _ limit _ (All-keep_if IsValid _ t.bridges vs)) vs
  execute-AllValid (mark_deployed_with ref limit) (t, w) vs =
      mark_rows-AllValid sv ref _ _ (All-take _ limit _ (All-keep_if IsValid _ t.bridges vs)) vs
  execute-AllValid (requeue_with i) (t, w) vs =
      requeue_found-AllValid i t (bridge_of_request i t.bridges) vs

  -- Whatever the services answer, any sequence of commands keeps every row valid: a queued row
  -- has fewer than five retries and no conflict, an open row has its pull request's number, a
  -- merged or deployed row has a merge commit, only a row in conflict has a conflict report, and
  -- a row that is not queued holds no lease.
  pub run_commands-AllValid :
      (cs : List Command) (s : Tables × W)
      → AllValid s.0.bridges
      → AllValid (run_commands cs s).0.bridges
  unfolding run_commands
  run_commands-AllValid [] s vs = vs
  run_commands-AllValid (c ∷ cs) s vs =
      run_commands-AllValid cs (execute c s) (execute-AllValid c s vs)
