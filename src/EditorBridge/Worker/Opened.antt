-- ===== src/EditorBridge/Worker/Opened.antt =====
-- What stands behind an open pull request.
use kayak_python.Base.{String, ◌≡◌, refl, ap, false, some, List, arith, inl, inr, Bool-cases}
use kayak_python.EditorBridge.Json.{
  Json, null, boolean, number, text, array, object, Fields, to_dict,
}
use kayak_python.EditorBridge.Patch.Types.{
  Result, ok, raised, PatchResult, is_noop, patch_error, conflict_error, file_not_found,
  index_error, key_error,
}
use kayak_python.EditorBridge.Patch.Apply.{Dataset, apply_change}
use kayak_python.EditorBridge.Patch.Applied.{Applied, apply_change-Applied}
use kayak_python.EditorBridge.Worker.Model.{
  Bridge, queued, pr_open, ChangeRequest, Services, Config, Call, done, trouble, infra, unexpected,
  adapter_bug, Act, ◌>>=◌, ◌>>◌, PullRequest,
}
use kayak_python.EditorBridge.Worker.Rows.{terminal_row}
use kayak_python.EditorBridge.Worker.Prepare.{Prepared, Preparation, ready, recorded, prepare}
use kayak_python.EditorBridge.Worker.Checked.{Checks, Checked, row_refused, passed, prepare-Checked}
use kayak_python.EditorBridge.Worker.Process.{
  Body, conflicted, refused, no_op, opened, settle, infra_failure, process_row, process_prepared,
  work, branch_of, run_adapter, after_adapter,
}

bind-done :
    {W A B : Type 0} (m : Act W A) (f : A → Act W B) (w w' : W) (b : B)
    → (m >>= f) w ≡ (done b, w')
    → (a : A) × (w1 : W) × (m w ≡ (done a, w1)) × (f a w1 ≡ (done b, w'))
bind-done {W} {A} {B} m f w w' b h = go (m w) refl h
  where
    go :
        (p : Call A × W)
        → m w ≡ p
        → (let (r, w1) = p in elim r [ done a ↦ f a w1 | trouble t ↦ (trouble t, w1) ])
          ≡ (done b, w')
        → (a : A) × (w1 : W) × (m w ≡ (done a, w1)) × (f a w1 ≡ (done b, w'))
    go (done a, w1) e h = (a, w1, e, h)
    go (trouble t, w1) e h = absurd (ground arith)

module _ {W : Type 0} (sv : Services W) (cfg : Config) where
  -- What was applied to the clone before anything was pushed: a real change, which the adapter
  -- made under the reviewed base.
  pub record Published (p : Prepared) : Type 0 where
    pub before : W
    pub after : W
    pub dataset : Dataset
    pub cloned : sv.clone cfg.base_branch before ≡ (done dataset, after)
    pub diff : Fields
    pub payload : p.applied ≡ object diff
    pub result : PatchResult
    pub patched : Dataset
    pub changes : is_noop result ≡ false
    pub applied :
        Applied sv.csv_reader sv.csv_writerow dataset p.target_type p.target_id
          (to_dict diff)
          p.updated_at
          (some p.expected_base)
          result
          patched

  payload_object :
      (d : Dataset) (p : Prepared) (j : Json) (r : PatchResult) (d' : Dataset)
      → p.applied ≡ j
      → run_adapter sv cfg d p ≡ ok (r, d')
      → (fs : Fields) × (p.applied ≡ object fs)
        × (apply_change sv.csv_reader sv.csv_writerow d p.target_type p.target_id
              (to_dict fs)
              p.updated_at
              (some p.expected_base)
            ≡ ok (r, d'))
  payload_object d p (object fs) r d' e h = (fs, e, ground arith)
  payload_object d p null r d' e h = absurd (ground arith)
  payload_object d p (boolean b) r d' e h = absurd (ground arith)
  payload_object d p (number s) r d' e h = absurd (ground arith)
  payload_object d p (text s) r d' e h = absurd (ground arith)
  payload_object d p array r d' e h = absurd (ground arith)

  adapter-opened :
      (p : Prepared) (branch head : String) (pr : PullRequest)
      (res : Result (PatchResult × Dataset)) (w w' : W)
      → after_adapter sv cfg p branch res w ≡ (done (opened head pr), w')
      → (r : PatchResult) × (d' : Dataset) × (res ≡ ok (r, d')) × (is_noop r ≡ false)
  adapter-opened p branch head pr (ok (r, d')) w w' h = elim (Bool-cases (is_noop r)) [
    | inl e ↦ absurd (ground arith)
    | inr e ↦ (r, d', refl, e)
  ]
  adapter-opened p branch head pr (raised (patch_error e)) w w' h = absurd (ground arith)
  adapter-opened p branch head pr (raised (conflict_error e)) w w' h = absurd (ground arith)
  adapter-opened p branch head pr (raised (file_not_found e)) w w' h = absurd (ground arith)
  adapter-opened p branch head pr (raised index_error) w w' h = absurd (ground arith)
  adapter-opened p branch head pr (raised key_error) w w' h = absurd (ground arith)

  work-Published :
      (p : Prepared) (branch head : String) (pr : PullRequest) (w w' : W)
      → work sv cfg p branch w ≡ (done (opened head pr), w')
      → Published p
  unfolding work
  work-Published p branch head pr w w' h =
      let rest = λ (d : Dataset). after_adapter sv cfg p branch (run_adapter sv cfg d p) in
      let (d, w1, cloned, h1) =
        bind-done (sv.clone cfg.base_branch) (λ d. sv.checkout_branch branch >> rest d) w w'
          (opened head pr) h in
      let (u, w2, out, h2) =
        bind-done (sv.checkout_branch branch) (λ _. rest d) w1 w' (opened head pr) h1 in
      let (r, d', ok_r, real) = adapter-opened p branch head pr (run_adapter sv cfg d p) w2 w' h2 in
      let (fs, payload, applied) = payload_object d p p.applied r d' refl ok_r in
      record {
        before = w;
        after = w1;
        dataset = d;
        cloned = cloned;
        diff = fs;
        payload = payload;
        result = r;
        patched = d';
        changes = real;
        applied =
            apply_change-Applied sv.csv_reader sv.csv_writerow d p.target_type p.target_id
              (to_dict fs) p.updated_at (some p.expected_base) r d' applied;
      }

  settle-opened :
      (b : Bridge) (branch : String) (r : Call Body) (w : W)
      → b.state ≡ queued
      → (settle sv cfg b branch r w).0.0.state ≡ pr_open
      → (head : String) × (pr : PullRequest) × (r ≡ done (opened head pr))
  unfolding terminal_row infra_failure
  settle-opened b branch (done (opened head pr)) w q h = (head, pr, refl)
  settle-opened b branch (done (conflicted e)) w q h = absurd (ground arith)
  settle-opened b branch (done (refused e)) w q h = absurd (ground arith)
  settle-opened b branch (done no_op) w q h = absurd (ground arith)
  settle-opened b branch (trouble (infra e)) w q h = absurd (ground arith)
  settle-opened b branch (trouble (unexpected e)) w q h = absurd (ground arith)
  settle-opened b branch (trouble (adapter_bug e)) w q h = absurd (ground arith)

  prepared-opened :
      (requests : List ChangeRequest) (b : Bridge) (pr : Preparation) (w : W)
      → b.state ≡ queued
      → Checked sv requests b pr
      → (process_prepared sv cfg b (pr, w)).0.0.state ≡ pr_open
      → (p : Prepared) × Checks sv requests b p × Published p
  unfolding terminal_row
  prepared-opened requests b (recorded b' o) w q (row_refused e x a) h = absurd (ground arith)
  prepared-opened requests b (ready p) w q (passed p' c) h =
      let branch = branch_of sv cfg p.cr b in
      let (head, pr, e) =
        settle-opened b branch (work sv cfg p branch w).0 (work sv cfg p branch w).1 q h in
      (
        p,
        c,
        work-Published p branch head pr w (work sv cfg p branch w).1
            (ap (λ r. (r, (work sv cfg p branch w).1)) e),
      )

  -- A queued row becomes `pr_open` only if its request is approved and has a target, its diff is
  -- the one that was queued, a reviewed base is there, and the adapter made a real change to the
  -- cloned dataset under that base.
  pub process_row-Published :
      (requests : List ChangeRequest) (b : Bridge) (w : W)
      → b.state ≡ queued
      → (process_row sv cfg requests b w).0.0.state ≡ pr_open
      → (p : Prepared) × Checks sv requests b p × Published p
  unfolding process_row
  process_row-Published requests b w q h =
      prepared-opened requests b (prepare sv requests b w).0 (prepare sv requests b w).1 q
        (prepare-Checked sv requests b w) h
