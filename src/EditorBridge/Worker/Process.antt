-- ===== src/EditorBridge/Worker/Process.antt =====
-- `_process_row`, with the texts that it writes and `_open_or_update_pr`.
use kayak_python.Base.{
  ℕ, ◌+◌, String, ◌&◌, true, false, Option, none, some, List, [], ◌∷◌, if◌then◌else◌, leb, decimal,
  ◌==◌,
}
use Prim.Native.Char.{code}
use kayak_python.EditorBridge.Json.{object, to_dict}
use kayak_python.EditorBridge.Patch.Types.{
  Problem, patch_error, conflict_error, Result, ok, raised, PatchResult, is_noop,
}
use kayak_python.EditorBridge.Patch.Apply.{Dataset, apply_change}
use kayak_python.EditorBridge.Worker.Model.{
  ChangeRequest, Bridge, pr_open, conflict, worker_error, Trouble, infra, unexpected, adapter_bug,
  conflict_with, adapter_rejected, no_op_change, gave_up, retrying, infra_error, unexpected_error,
  pr_opened, RowOutcome, PullRequest, Config, Call, done, trouble, Act, ◌>>=◌, ◌>>◌, pure, raise,
  Services,
}
use kayak_python.EditorBridge.Worker.Rows.{max_infra_retries, retry_backoff, terminal, outcome_of}
use kayak_python.EditorBridge.Worker.Prepare.{Prepared, Preparation, ready, recorded, prepare}

-- `str(cr.target_id)`
abbrev pub id_text : Option ℕ → String
id_text none = "None"
id_text (some n) = decimal n

unfoldable pub pr_title : ChangeRequest → String
pr_title cr =
    "Editor proposal: "
    & (cr.target_type
        & (" " & (id_text cr.target_id & (" (change_request " & (decimal cr.id & ")")))))

-- `text.rstrip("/")`
unfoldable pub rstrip_slashes : String → String
rstrip_slashes String.[] = ""
rstrip_slashes (String.◌∷◌ c s) = elim (rstrip_slashes s) [
  | String.[] ↦ if code c == 47 then "" else String.◌∷◌ c String.[]
  | String.◌∷◌ d t ↦ String.◌∷◌ c (String.◌∷◌ d t)
]

abbrev pub review_line : Option String → ChangeRequest → String
review_line none cr = ""
review_line (some url) cr =
    "\n- review: " & (rstrip_slashes url & ("/review.php?id=" & decimal cr.id))

-- `_pr_body`: the lines joined by line feeds.
unfoldable pub pr_body : Config → ChangeRequest → String
unfolding rstrip_slashes
pr_body cfg cr =
    "Automated proposal from the editor → kayak_data bridge.\n\n- target: `"
    & (cr.target_type
        & ("` id `"
            & (id_text cr.target_id
                & ("`\n- change_request: `"
                    & (decimal cr.id
                        & ("`"
                            & (review_line cfg.review_url cr
                                & ("\n\nEndorsed by a maintainer in the web editor and frozen for data review. "
                                    & ("Validate via the dataset CI, then a human reviewer approves + merges "
                                        & "(this bot cannot merge its own PR). Mark the request resolved once it deploys.")))))))))

-- `_commit_message`; the adapter returns one result, so there is one file.
unfoldable pub commit_message : ChangeRequest → String → String
commit_message cr file =
    "editor-bridge: "
    & (cr.target_type
        & (" "
            & (id_text cr.target_id
                & (" (change_request "
                    & (decimal cr.id
                        & (")\n\nEndorsed editor proposal applied to "
                            & (file & ". See the linked review page.")))))))

-- What the `try` block comes to when no exception of the services ends it.
pub data Body : Type 0 where
  conflicted : Problem → Body
  refused : Problem → Body
  no_op : Body
  opened : String → PullRequest → Body

module _ {W : Type 0} (sv : Services W) (cfg : Config) where
  -- `_open_or_update_pr`
  unfoldable pub open_or_update_pr : ChangeRequest → String → Act W PullRequest
  open_or_update_pr cr branch = do
    existing ← sv.find_open_pr branch cfg.base_branch
    elim existing [
      | some pr ↦ sv.update_pr pr.number (pr_title cr) (pr_body cfg cr)
      | none ↦ sv.create_pr branch cfg.base_branch (pr_title cr) (pr_body cfg cr)
    ]

  unfoldable pub branch_of : ChangeRequest → Bridge → String
  branch_of cr b = cfg.branch_prefix & (decimal cr.id & ("-" & decimal b.attempt))

  abbrev pub run_adapter : Dataset → Prepared → Result (PatchResult × Dataset)
  run_adapter d p = elim p.applied [
    | object fs ↦
        apply_change sv.csv_reader sv.csv_writerow d p.target_type p.target_id (to_dict fs)
          p.updated_at (some p.expected_base)
    | other ↦ raised (sv.untyped_diff p.applied p.target_type)
  ]

  abbrev pub publish : Prepared → String → PatchResult → Dataset → Act W Body
  publish p branch r d = do
    sv.stage (r.file ∷ []) d
    head ← sv.commit (commit_message p.cr r.file) p.commit_date
    sv.push branch
    pr ← open_or_update_pr p.cr branch
    pure (opened head pr)

  abbrev pub after_adapter : Prepared → String → Result (PatchResult × Dataset) → Act W Body
  after_adapter p branch (raised (conflict_error e)) = pure (conflicted e)
  after_adapter p branch (raised (patch_error e)) = pure (refused e)
  after_adapter p branch (raised e) = raise (adapter_bug e)
  after_adapter p branch (ok (r, d)) = if is_noop r then pure no_op else publish p branch r d

  -- The `try` block.
  unfoldable pub work : Prepared → String → Act W Body
  work p branch = do
    d ← sv.clone cfg.base_branch
    sv.checkout_branch branch
    after_adapter p branch (run_adapter d p)

  -- The handler of the infrastructure errors.
  unfoldable pub infra_failure : Bridge → Trouble → W → (Bridge × RowOutcome) × W
  infra_failure b t w =
      let n = b.retry_count + 1 in
      let b' : Bridge = record b { retry_count = n } in
      let (now, w') = sv.clock w in
      if leb max_infra_retries n then (terminal b' worker_error (gave_up n t) none true, w) else (
        (
          record b' {
            last_error = some (retrying n (retry_backoff n) t);
            lease_owner = none;
            lease_expires_at = some (now + retry_backoff n);
          },
          outcome_of b' b'.state (infra_error t) false,
        ),
        w',
      )

  abbrev pub open_row : Bridge → String → String → PullRequest → Bridge
  open_row b branch head pr = record b {
    state = pr_open;
    branch_name = some branch;
    pr_number = some pr.number;
    pr_url = some pr.html_url;
    pr_head_sha = some head;
    last_error = none;
    conflict_json = none;
    retry_count = 0;
    lease_owner = none;
    lease_expires_at = none;
  }

  abbrev pub settle : Bridge → String → Call Body → W → (Bridge × RowOutcome) × W
  settle b branch (done (conflicted p)) w =
      (terminal b conflict (conflict_with p) (some p) false, w)
  settle b branch (done (refused p)) w =
      (terminal b worker_error (adapter_rejected p) none false, w)
  settle b branch (done no_op) w = (terminal b worker_error no_op_change none false, w)
  settle b branch (done (opened head pr)) w = (
    (
      open_row b branch head pr,
      record {
        bridge_id = b.id;
        change_request_id = b.change_request_id;
        state = pr_open;
        detail = pr_opened;
        pr_number = some pr.number;
        pr_url = some pr.html_url;
        escalate = false;
      },
    ),
    w,
  )
  settle b branch (trouble (infra e)) w = infra_failure b (infra e) w
  settle b branch (trouble (unexpected e)) w =
      (terminal b worker_error (unexpected_error (unexpected e)) none true, w)
  settle b branch (trouble (adapter_bug e)) w =
      (terminal b worker_error (unexpected_error (adapter_bug e)) none true, w)

  abbrev pub process_prepared : Bridge → Preparation × W → (Bridge × RowOutcome) × W
  process_prepared b (recorded b' o, w) = ((b', o), w)
  process_prepared b (ready p, w) =
      let branch = branch_of p.cr b in let (r, w') = work p branch w in settle b branch r w'

  -- `_process_row`: the row as it is written at the end, and the outcome.
  unfoldable pub process_row : List ChangeRequest → Bridge → W → (Bridge × RowOutcome) × W
  process_row requests b w = process_prepared b (prepare sv requests b w)
