-- ===== src/EditorBridge/Worker/Tests.antt =====
-- src/kayak/editor_bridge/worker.py on one queued row, with the theorems applied.
-- The outside world is a clock.
use kayak_python.Base.{
  ℕ, suc, ◌+◌, ◌≤◌, ◌<◌, ◌*◌, ◌^◌, ◌≡◌, refl, inr, true, false, none, some, List, [], ◌∷◌, arith,
  str_eq, if◌then◌else◌, decimal,
}
use mathlib.Core.List.{flatten}
use kayak_python.Base.Sort.{sort, sorted}
use kayak_python.Base.Dict.{get, put, has, keys}
use kayak_python.EditorBridge.Json.{Json, text, object, end, field, to_dict}
use kayak_python.EditorBridge.Patch.Types.{patch_error, diff_not_object}
use kayak_python.EditorBridge.Patch.Apply.{apply_change, apply_reach, patch_row, patch_text}
use kayak_python.EditorBridge.Patch.Diff.{cell, cells, validate_diff}
use kayak_python.EditorBridge.Patch.Rows.{
  universal_newlines, physical_lines, validated_header, row_dict, locate_row, drift,
  ensure_no_drift,
}
use kayak_python.EditorBridge.Patch.Write.{
  apply_updates, update, row_cells, rstrip_newlines, rewrite_row, write_row,
}
use kayak_python.EditorBridge.Patch.Tests.{reader, writerow, dataset}
use kayak_python.EditorBridge.Worker.Model.{
  queued, pr_open, worker_error, approved, resolved, Bridge, ChangeRequest, Tables, PullRequest,
  Config, Services, done, infra,
}
use kayak_python.EditorBridge.Worker.Rows.{
  max_infra_retries, retry_backoff, retry_backoff_base, retry_backoff_cap, is_ready, find_bridge,
  find_request, claim_row,
}
use kayak_python.EditorBridge.Worker.Prepare.{Prepared, prepare, expected_base_of}
use kayak_python.EditorBridge.Worker.Process.{process_row, infra_failure, work, open_or_update_pr}
use kayak_python.EditorBridge.Worker.Passes.{Pass, claim, resolve_parent, append_note, prefix}
use kayak_python.EditorBridge.Worker.Checked.{Checks, Checked, prepare-Checked}
use kayak_python.EditorBridge.Worker.Valid.{AllValid}
use kayak_python.EditorBridge.Worker.Commands.{
  Command, run_once_with, reconcile_with, mark_deployed_with, requeue_with, run_commands,
  run_commands-AllValid,
}
use kayak_python.EditorBridge.Worker.Lease.{claim_exclusive}
use kayak_python.EditorBridge.Worker.Retry.{
  max_timedelta, retry_backoff_schedule, infra_failure_policy,
}
use kayak_python.EditorBridge.Worker.Opened.{Published, process_row-Published}

abbrev payload : Json
payload = object (field "reach" (object (field "notes" (text "high") end)) end)

abbrev base : Json
base = object (field "reach" (object (field "notes" (text "low") end)) end)

abbrev request : ChangeRequest
request = record {
  id = 3;
  target_type = "reach";
  target_id = some 7;
  submitted_at = some 10;
  status = approved;
  reviewed_at = some 20;
  reviewer_note = none;
  applied_json = some "payload";
}

abbrev row : Bridge
row = record {
  id = 1;
  change_request_id = 3;
  state = queued;
  attempt = 1;
  retry_count = 0;
  reviewed_base_json = some "base";
  applied_json_sha256 = some "payload";
  branch_name = none;
  pr_number = none;
  pr_url = none;
  pr_head_sha = none;
  pr_merge_sha = none;
  queued_at = 20;
  last_error = none;
  conflict_json = none;
  lease_owner = none;
  lease_expires_at = none;
  heartbeat_at = none;
}

abbrev tables : Tables
tables = record { bridges = row ∷ []; requests = request ∷ [] }

abbrev pull_request : PullRequest
pull_request = record {
  number = 12;
  html_url = "https://github.com/pull/12";
  is_closed = true;
  is_merged = true;
  merge_commit_sha = some "abc";
}

abbrev config : Config
config = record { branch_prefix = "editor/"; base_branch = "main"; review_url = none }

-- Texts are their own digests, and every call succeeds.
abbrev services : Services ℕ
services = record {
  loads = λ t. some (if str_eq t "base" then base else payload);
  sha256 = λ t. t;
  strftime = λ n. "2026";
  csv_reader = reader;
  csv_writerow = writerow;
  untyped_diff = λ j t. patch_error (diff_not_object t);
  clock = λ w. (w, w);
  clone = λ branch w. (done dataset, suc w);
  checkout_branch = λ branch w. (done tt, w);
  stage = λ files d w. (done tt, w);
  commit = λ message date w. (done "head", w);
  push = λ branch w. (done tt, w);
  find_open_pr = λ branch to w. (done none, w);
  update_pr = λ n title body w. (done pull_request, w);
  create_pr = λ branch to title body w. (done pull_request, w);
  get_pr = λ n w. (inr pull_request, w);
  is_ancestor = λ sha ref w. (inr true, w);
  notify_proposer = λ cr ref w. w;
}

row-AllValid : AllValid (row ∷ [])
row-AllValid = ((ground arith, refl), tt)

abbrev commands : List Command
commands =
    run_once_with "w1" 5 ∷ reconcile_with 5 ∷ mark_deployed_with "ref" 5 ∷ requeue_with 3 ∷ []

run_commands-AllValid_example :
    AllValid (run_commands services config commands (tables, 100)).0.bridges
run_commands-AllValid_example =
    run_commands-AllValid services config commands (tables, 100) row-AllValid

row_opens : (process_row services config (request ∷ []) row 100).0.0.state ≡ pr_open
unfolding process_row prepare find_request expected_base_of work open_or_update_pr apply_change
    apply_reach validate_diff to_dict keys cells cell get has patch_row patch_text
    universal_newlines physical_lines validated_header locate_row row_dict ensure_no_drift drift
    write_row apply_updates update row_cells rstrip_newlines rewrite_row put sort sorted decimal
    flatten
row_opens = refl

process_row-Published_example :
    (p : Prepared) × Checks services (request ∷ []) row p × Published services config p
process_row-Published_example =
    process_row-Published services config (request ∷ []) row 100 refl row_opens

prepare-Checked_example :
    Checked services (request ∷ []) row (prepare services (request ∷ []) row 100).0
prepare-Checked_example = prepare-Checked services (request ∷ []) row 100

retry_backoff_schedule_example :
    (retry_backoff_base * 2 ^ 4 ≤ max_timedelta)
    × (retry_backoff 1 ≡ retry_backoff_base)
    × (retry_backoff 3 ≤ retry_backoff 4)
    × (retry_backoff 5 ≤ 2 * retry_backoff 4)
    × (2 * retry_backoff 4 ≤ retry_backoff_cap → retry_backoff 5 ≡ 2 * retry_backoff 4)
    × (retry_backoff_base ≤ retry_backoff 3)
    × (retry_backoff 3 ≤ retry_backoff_cap)
retry_backoff_schedule_example = retry_backoff_schedule 3 (omega arith)

infra_failure_policy_example :
    let ((b', o), w') = infra_failure services config row (infra "503") 100 in
    (b'.retry_count ≡ row.retry_count + 1)
    × (b'.lease_owner ≡ none)
    × (row.retry_count + 1 < max_infra_retries
        → (b'.state ≡ queued)
          × (o.escalate ≡ false)
          × (b'.lease_expires_at
              ≡ some ((services.clock 100).0 + retry_backoff (row.retry_count + 1)))
          × ((now : ℕ)
              → now ≤ (services.clock 100).0 + retry_backoff (row.retry_count + 1)
              → is_ready b' now ≡ false))
    × (max_infra_retries ≤ row.retry_count + 1
        → (b'.state ≡ worker_error) × (o.escalate ≡ true) × (b'.lease_expires_at ≡ none))
infra_failure_policy_example = infra_failure_policy services config row (infra "503") 100 refl

-- The row as "w1" has claimed it at 90, in the tables at 100.
abbrev leased : Pass ℕ
leased = record {
  tables = record { bridges = claim_row "w1" 90 row ∷ []; requests = request ∷ [] };
  outcomes = [];
  world = 100;
}

leased_row : find_bridge 1 leased.tables.bridges ≡ some (claim_row "w1" 90 row)
unfolding find_bridge claim_row
leased_row = refl

claim_exclusive_example : (claim services config "w2" 1 leased).0 ≡ none
claim_exclusive_example =
    claim_exclusive services config "w1" "w2" 1 90 row leased refl refl leased_row (ground arith)

abbrev fresh : Pass ℕ
fresh = record { tables = tables; outcomes = []; world = 100 }

fresh_row : find_bridge 1 fresh.tables.bridges ≡ some row
unfolding find_bridge
fresh_row = refl

abbrev closed : ChangeRequest
closed = record request {
  status = resolved;
  reviewer_note = some "[editor-bridge] deployed in dataset 0123456789ab";
}

request_closes : resolve_parent row "0123456789abcdef" (request ∷ []) ≡ some closed
unfolding resolve_parent find_request append_note prefix
request_closes = refl
