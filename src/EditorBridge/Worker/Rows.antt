-- ===== src/EditorBridge/Worker/Rows.antt =====
-- Single rows: the retry backoff, the lease, `_terminal`, and how a row is found and saved.
use kayak_python.Base.{
  ℕ, ◌+◌, ◌-◌, ◌*◌, ◌^◌, min, String, Bool, true, false, ◌&&◌, Option, none, some, List, [], ◌∷◌,
  ltb, ◌==◌, if◌then◌else◌, str_eq,
}
use kayak_python.EditorBridge.Patch.Types.{Problem}
use kayak_python.EditorBridge.Worker.Model.{
  BridgeState, is_queued, Detail, Bridge, ChangeRequest, RowOutcome,
}

abbrev pub max_infra_retries : ℕ
max_infra_retries = 5

-- All times are in seconds.
abbrev pub lease_ttl : ℕ
lease_ttl = 15 * 60

abbrev pub retry_backoff_base : ℕ
retry_backoff_base = 5 * 60

abbrev pub retry_backoff_cap : ℕ
retry_backoff_cap = 60 * 60

-- `_retry_backoff`, for fewer than 40 retries: from 40 on `timedelta` raises an OverflowError, and the
-- worker asks only below `max_infra_retries`.
unfoldable pub retry_backoff : ℕ → ℕ
retry_backoff retry_count = min (retry_backoff_base * 2 ^ (retry_count - 1)) retry_backoff_cap

-- `session.get(ChangeRequest, id)`
unfoldable pub find_request : ℕ → List ChangeRequest → Option ChangeRequest
find_request i [] = none
find_request i (cr ∷ crs) = if cr.id == i then some cr else find_request i crs

unfoldable pub find_bridge : ℕ → List Bridge → Option Bridge
find_bridge i [] = none
find_bridge i (b ∷ bs) = if b.id == i then some b else find_bridge i bs

-- The row of that id is written; ids are primary keys.
unfoldable pub save : Bridge → List Bridge → List Bridge
save b [] = []
save b (c ∷ cs) = if c.id == b.id then b ∷ cs else c ∷ save b cs

unfoldable pub save_request : ChangeRequest → List ChangeRequest → List ChangeRequest
save_request r [] = []
save_request r (c ∷ cs) = if c.id == r.id then r ∷ cs else c ∷ save_request r cs

-- `lease_expires_at IS NULL OR lease_expires_at < now`
abbrev pub lease_free : Option ℕ → ℕ → Bool
lease_free none now = true
lease_free (some t) now = ltb t now

abbrev pub is_ready : Bridge → ℕ → Bool
is_ready b now = is_queued b.state && lease_free b.lease_expires_at now

-- The conditional UPDATE of `_claim`, on the row that its id selects.
unfoldable pub claim_row : String → ℕ → Bridge → Bridge
claim_row owner now b =
    if is_ready b now
    then record b {
      lease_owner = some owner;
      lease_expires_at = some (now + lease_ttl);
      heartbeat_at = some now;
    }
    else b

abbrev pub owned_by : String → Option String → Bool
owned_by owner none = false
owned_by owner (some o) = str_eq o owner

-- The test at the end of `_claim`, on the refreshed row.
abbrev pub holds : String → Bridge → Bool
holds owner b = is_queued b.state && owned_by owner b.lease_owner

-- `_terminal`: the row as it is written, and the outcome.
unfoldable pub terminal_row : Bridge → BridgeState → Detail → Option Problem → Bridge
terminal_row b state detail conflict_json = record b {
  state = state;
  last_error = some detail;
  conflict_json = conflict_json;
  lease_owner = none;
  lease_expires_at = none;
}

abbrev pub outcome_of : Bridge → BridgeState → Detail → Bool → RowOutcome
outcome_of b state detail escalate = record {
  bridge_id = b.id;
  change_request_id = b.change_request_id;
  state = state;
  detail = detail;
  pr_number = none;
  pr_url = none;
  escalate = escalate;
}

abbrev pub terminal : Bridge → BridgeState → Detail → Option Problem → Bool → Bridge × RowOutcome
terminal b state detail conflict_json escalate =
    (terminal_row b state detail conflict_json, outcome_of b state detail escalate)
