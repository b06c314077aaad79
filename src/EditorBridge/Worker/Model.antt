-- ===== src/EditorBridge/Worker/Model.antt =====
-- The tables, the outcomes and the outside services of src/kayak/editor_bridge/worker.py.
use kayak_python.Base.{ℕ, String, Bool, true, false, Option, List, ◌⊎◌}
use kayak_python.EditorBridge.Json.{Json}
use kayak_python.EditorBridge.Patch.Types.{Text, Problem, Raised}
use kayak_python.EditorBridge.Patch.Rows.{CsvReader}
use kayak_python.EditorBridge.Patch.Apply.{Dataset}

pub data BridgeState : Type 0 where
  queued pr_open merged deployed pr_closed conflict worker_error : BridgeState

pub data ChangeStatus : Type 0 where
  pending approved rejected resolved auto_applied : ChangeStatus

abbrev pub is_queued : BridgeState → Bool
is_queued queued = true
is_queued _ = false

abbrev pub is_pr_open : BridgeState → Bool
is_pr_open pr_open = true
is_pr_open _ = false

abbrev pub is_merged : BridgeState → Bool
is_merged merged = true
is_merged _ = false

abbrev pub is_approved : ChangeStatus → Bool
is_approved approved = true
is_approved _ = false

abbrev pub is_resolved : ChangeStatus → Bool
is_resolved resolved = true
is_resolved _ = false

-- What an exception of the services says: an infrastructure error (`GitOpError`,
-- `GitHubApiError`, `GitHubAuthError`) or another one.
pub data Trouble : Type 0 where
  infra : String → Trouble
  unexpected : String → Trouble
  adapter_bug : Raised → Trouble

-- The `detail` of an outcome and the `last_error` of a row.
pub data Detail : Type 0 where
  request_gone : Detail
  parent_not_approved : ChangeStatus → Detail
  no_target_id : Detail
  sha_mismatch : Detail
  applied_not_json : Detail
  base_not_json : Detail
  no_base : String → Detail
  conflict_with : Problem → Detail
  adapter_rejected : Problem → Detail
  no_op_change : Detail
  gave_up : ℕ → Trouble → Detail
  retrying : ℕ → ℕ → Trouble → Detail
  infra_error : Trouble → Detail
  unexpected_error : Trouble → Detail
  pr_opened : Detail
  no_pr_number : Detail
  pr_read_failed : String → Detail
  pr_merged : Detail
  pr_closed_unmerged : Detail
  is_deployed : Detail

-- `change_request_bridge`
pub record Bridge : Type 0 where
  pub id : ℕ
  pub change_request_id : ℕ
  pub state : BridgeState
  pub attempt : ℕ
  pub retry_count : ℕ
  pub reviewed_base_json : Option String
  pub applied_json_sha256 : Option String
  pub branch_name : Option String
  pub pr_number : Option ℕ
  pub pr_url : Option String
  pub pr_head_sha : Option String
  pub pr_merge_sha : Option String
  pub queued_at : ℕ
  pub last_error : Option Detail
  pub conflict_json : Option Problem
  pub lease_owner : Option String
  pub lease_expires_at : Option ℕ
  pub heartbeat_at : Option ℕ

-- `change_request`
pub record ChangeRequest : Type 0 where
  pub id : ℕ
  pub target_type : String
  pub target_id : Option ℕ
  pub submitted_at : Option ℕ
  pub status : ChangeStatus
  pub reviewed_at : Option ℕ
  pub reviewer_note : Option String
  pub applied_json : Option String

pub record Tables : Type 0 where
  pub bridges : List Bridge
  pub requests : List ChangeRequest

pub record RowOutcome : Type 0 where
  pub bridge_id : ℕ
  pub change_request_id : ℕ
  pub state : BridgeState
  pub detail : Detail
  pub pr_number : Option ℕ
  pub pr_url : Option String
  pub escalate : Bool

pub record PullRequest : Type 0 where
  pub number : ℕ
  pub html_url : String
  pub is_closed : Bool
  pub is_merged : Bool
  pub merge_commit_sha : Option String

pub record Config : Type 0 where
  pub branch_prefix : String
  pub base_branch : String
  pub review_url : Option String

pub data Call {ℓ} (A : Type ℓ) : Type ℓ where
  done : A → Call A
  trouble : Trouble → Call A

-- An action on the outside world that may raise.
abbrev pub Act {ℓ} : Type ℓ → Type ℓ → Type ℓ
Act W A = W → Call A × W

module _ {ℓ} {W A B : Type ℓ} where
  infixl 5 ◌>>=◌ ◌>>◌
  abbrev pub ◌>>=◌ : Act W A → (A → Act W B) → Act W B
  ◌>>=◌ m f w = let (r, w') = m w in elim r [ done a ↦ f a w' | trouble t ↦ (trouble t, w') ]

  abbrev pub ◌>>◌ : Act W A → Act W B → Act W B
  m >> n = m >>= λ _. n

abbrev pub pure {ℓ} : {W A : Type ℓ} → A → Act W A
pure a w = (done a, w)

abbrev pub raise {ℓ} : {W A : Type ℓ} → Trouble → Act W A
raise t w = (trouble t, w)

-- git_ops.py, github_client.py and the clock as the worker calls them, and what it uses of Python's
-- library: `json.loads`, `sha256`, `strftime`, the csv module. `untyped_diff` is what the adapter
-- raises on a payload that is not an object.
pub record Services (W : Type 0) : Type 0 where
  pub loads : String → Option Json
  pub sha256 : String → String
  pub strftime : ℕ → String
  pub csv_reader : CsvReader
  pub csv_writerow : List String → Text
  pub untyped_diff : Json → String → Raised
  pub clock : W → ℕ × W
  pub clone : String → Act W Dataset
  pub checkout_branch : String → Act W (Unit {0})
  pub stage : List String → Dataset → Act W (Unit {0})
  pub commit : String → String → Act W String
  pub push : String → Act W (Unit {0})
  pub find_open_pr : String → String → Act W (Option PullRequest)
  pub update_pr : ℕ → String → String → Act W PullRequest
  pub create_pr : String → String → String → String → Act W PullRequest
  pub get_pr : ℕ → W → (String ⊎ PullRequest) × W
  pub is_ancestor : String → String → W → (String ⊎ Bool) × W
  pub notify_proposer : ChangeRequest → String → W → W
