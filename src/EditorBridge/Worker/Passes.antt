-- ===== src/EditorBridge/Worker/Passes.antt =====
-- The four commands of the bridge: `run_once`, `reconcile`, `mark_deployed` and `requeue`.
use kayak_python.Base.{
  ℕ, zero, suc, ◌+◌, String, ◌&◌, Bool, true, false, not, ◌&&◌, Option, none, some, List, [], ◌∷◌,
  ◌++◌, if◌then◌else◌, leb, ◌==◌, take, keep_if, str_eq, inl, inr, ◌⊎◌,
}
use kayak_python.Base.Sort.{sort}
use kayak_python.EditorBridge.Worker.Model.{
  ChangeRequest, Bridge, BridgeState, queued, merged, deployed, pr_closed, conflict, worker_error,
  ChangeStatus, resolved, is_pr_open, is_merged, is_approved, is_resolved, no_pr_number,
  pr_read_failed, pr_merged, pr_closed_unmerged, is_deployed, RowOutcome, PullRequest, Tables,
  Config, Services,
}
use kayak_python.EditorBridge.Worker.Rows.{
  find_request, find_bridge, save, save_request, is_ready, claim_row, holds, terminal, outcome_of,
}
use kayak_python.EditorBridge.Worker.Process.{process_row}

-- `x is not None and x`, for a text
abbrev pub has_text : Option String → Bool
has_text none = false
has_text (some t) = not (str_eq t "")

-- What a pass has done so far.
pub record Pass (W : Type 0) : Type 0 where
  pub tables : Tables
  pub outcomes : List RowOutcome
  pub world : W

-- A row is written back, and an outcome is appended.
abbrev pub record_row : {W : Type 0} → Pass W → Bridge → RowOutcome → W → Pass W
record_row s b o w = record {
  tables = record s.tables { bridges = save b s.tables.bridges };
  outcomes = s.outcomes ++ o ∷ [];
  world = w;
}

module _ {W : Type 0} (sv : Services W) (cfg : Config) (lease_owner : String) where
  abbrev pub claim_found : ℕ → W → Pass W → Option Bridge → Option Bridge × Pass W
  claim_found now w s none = (none, record s { world = w })
  claim_found now w s (some b) =
      let b' = claim_row lease_owner now b in
      (
        if holds lease_owner b' then some b' else none,
        record s { tables = record s.tables { bridges = save b' s.tables.bridges }; world = w },
      )

  -- `_claim`, and the test of the refreshed row.
  unfoldable pub claim : ℕ → Pass W → Option Bridge × Pass W
  claim i s =
      let (now, w) = sv.clock s.world in claim_found now w s (find_bridge i s.tables.bridges)

  abbrev pub process_claimed : Option Bridge × Pass W → Pass W
  process_claimed (none, s) = s
  process_claimed (some b, s) =
      let ((b', o), w) = process_row sv cfg s.tables.requests b s.world in record_row s b' o w

  -- The loop of `run_once`.
  unfoldable pub run_rows : List Bridge → Pass W → Pass W
  run_rows [] s = s
  run_rows (b ∷ bs) s = run_rows bs (process_claimed (claim b.id s))

  abbrev pub selected : ℕ → ℕ → List Bridge → List Bridge
  selected limit now bs =
      take limit (sort (λ a b. leb a.queued_at b.queued_at) (keep_if (λ b. is_ready b now) bs))

  -- `run_once` with a client and a clone URL at hand.
  unfoldable pub run_once : ℕ → Tables → W → Pass W
  run_once limit t w =
      let (now, w') = sv.clock w in
      run_rows (selected limit now t.bridges) (record { tables = t; outcomes = []; world = w' })

-- `dataset_ref[:12]`
unfoldable pub prefix : ℕ → String → String
prefix zero s = ""
prefix (suc n) String.[] = ""
prefix (suc n) (String.◌∷◌ c s) = String.◌∷◌ c (prefix n s)

unfoldable pub append_note : Option String → String → String
append_note none note = note
append_note (some t) note = if str_eq t "" then note else t & ("\n\n" & note)

-- `_resolve_parent`: the request as it is written, or `none` where nothing is to be done.
unfoldable pub resolve_parent : Bridge → String → List ChangeRequest → Option ChangeRequest
unfolding append_note prefix
resolve_parent b dataset_ref requests = elim (find_request b.change_request_id requests) [
  | none ↦ none
  | some cr ↦
      if is_resolved cr.status
      then none
      else some (record cr {
        status = resolved;
        reviewer_note = some (
            append_note cr.reviewer_note
              ("[editor-bridge] deployed in dataset " & prefix 12 dataset_ref));
      })
]

module _ {W : Type 0} (sv : Services W) where
  abbrev pub reconcile_read : Bridge → PullRequest → W → Pass W → Pass W
  reconcile_read b pr w s =
      if pr.is_merged && has_text pr.merge_commit_sha
      then record_row s (record b { state = merged; pr_merge_sha = pr.merge_commit_sha })
          (outcome_of b merged pr_merged false) w
      else if pr.is_merged
      then record s { world = w }
      else if pr.is_closed
      then record_row s (record b { state = pr_closed })
          (outcome_of b pr_closed pr_closed_unmerged false) w
      else record s { world = w }

  abbrev pub reconcile_answer : Bridge → Pass W → String ⊎ PullRequest → W → Pass W
  reconcile_answer b s (inl e) w = record s {
    outcomes = s.outcomes ++ outcome_of b b.state (pr_read_failed e) true ∷ [];
    world = w;
  }
  reconcile_answer b s (inr pr) w = reconcile_read b pr w s

  abbrev pub reconcile_at : Bridge → Pass W → Option ℕ → Pass W
  reconcile_at b s none =
      let (b', o) = terminal b worker_error no_pr_number none false in record_row s b' o s.world
  reconcile_at b s (some n) = let (r, w) = sv.get_pr n s.world in reconcile_answer b s r w

  -- The body of the loop of `reconcile`.
  unfoldable pub reconcile_row : Bridge → Pass W → Pass W
  reconcile_row b s = reconcile_at b s b.pr_number

  unfoldable pub reconcile_rows : List Bridge → Pass W → Pass W
  unfolding reconcile_row
  reconcile_rows [] s = s
  reconcile_rows (b ∷ bs) s = reconcile_rows bs (reconcile_row b s)

  unfoldable pub reconcile : ℕ → Tables → W → Pass W
  unfolding reconcile_rows
  reconcile limit t w =
      reconcile_rows (take limit (keep_if (λ b. is_pr_open b.state) t.bridges))
        (record { tables = t; outcomes = []; world = w })

  abbrev pub deploy_found : Bridge → String → W → Pass W → Option ChangeRequest → Pass W
  deploy_found b dataset_ref w s none =
      record_row s (record b { state = deployed }) (outcome_of b deployed is_deployed false) w
  deploy_found b dataset_ref w s (some cr) = record {
    tables = record {
      bridges = save (record b { state = deployed }) s.tables.bridges;
      requests = save_request cr s.tables.requests;
    };
    outcomes = s.outcomes ++ outcome_of b deployed is_deployed false ∷ [];
    world = sv.notify_proposer cr dataset_ref w;
  }

  abbrev pub mark_answer : String → Bridge → Pass W → String ⊎ Bool → W → Pass W
  mark_answer dataset_ref b s (inr true) w =
      deploy_found b dataset_ref w s (resolve_parent b dataset_ref s.tables.requests)
  mark_answer dataset_ref b s _ w = record s { world = w }

  abbrev pub mark_at : String → Bridge → Pass W → Option String → Pass W
  mark_at dataset_ref b s none = s
  mark_at dataset_ref b s (some sha) =
      if str_eq sha ""
      then s
      else (let (r, w) = sv.is_ancestor sha dataset_ref s.world in mark_answer dataset_ref b s r w)

  -- The body of the loop of `mark_deployed`.
  unfoldable pub mark_row : String → Bridge → Pass W → Pass W
  unfolding resolve_parent
  mark_row dataset_ref b s = mark_at dataset_ref b s b.pr_merge_sha

  unfoldable pub mark_rows : String → List Bridge → Pass W → Pass W
  unfolding mark_row
  mark_rows dataset_ref [] s = s
  mark_rows dataset_ref (b ∷ bs) s = mark_rows dataset_ref bs (mark_row dataset_ref b s)

  unfoldable pub mark_deployed : String → ℕ → Tables → W → Pass W
  unfolding mark_rows
  mark_deployed dataset_ref limit t w =
      mark_rows dataset_ref (take limit (keep_if (λ b. is_merged b.state) t.bridges))
        (record { tables = t; outcomes = []; world = w })

-- `bridge.state in _REQUEUEABLE`
abbrev pub is_requeueable : BridgeState → Bool
is_requeueable worker_error = true
is_requeueable pr_closed = true
is_requeueable _ = false

-- The status and the reason that `requeue` returns.
pub data Requeue : Type 0 where
  requeued : ℕ → Requeue
  refused_parent : Option ChangeStatus → Requeue
  refused_conflict : Requeue
  refused_state : BridgeState → Requeue
  not_found : Requeue

abbrev pub requeued_row : Bridge → Bridge
requeued_row b = record b {
  attempt = b.attempt + 1;
  state = queued;
  retry_count = 0;
  last_error = none;
  conflict_json = none;
  lease_owner = none;
  lease_expires_at = none;
}

-- `select(...).where(change_request_id == cr_id)`
unfoldable pub bridge_of_request : ℕ → List Bridge → Option Bridge
bridge_of_request i [] = none
bridge_of_request i (b ∷ bs) = if b.change_request_id == i then some b else bridge_of_request i bs

abbrev pub requeue_at : Bridge → Tables → BridgeState → Requeue × Tables
requeue_at b t conflict = (refused_conflict, t)
requeue_at b t other =
    if is_requeueable other
    then (requeued (b.attempt + 1), record t { bridges = save (requeued_row b) t.bridges })
    else (refused_state other, t)

abbrev pub requeue_state : Bridge → Tables → Requeue × Tables
requeue_state b t = requeue_at b t b.state

abbrev pub requeue_parent : Bridge → Tables → Option ChangeRequest → Requeue × Tables
requeue_parent b t none = (refused_parent none, t)
requeue_parent b t (some cr) =
    if is_approved cr.status then requeue_state b t else (refused_parent (some cr.status), t)

abbrev pub requeue_found : ℕ → Tables → Option Bridge → Requeue × Tables
requeue_found cr_id t none = (not_found, t)
requeue_found cr_id t (some b) = requeue_parent b t (find_request cr_id t.requests)

unfoldable pub requeue : ℕ → Tables → Requeue × Tables
requeue cr_id t = requeue_found cr_id t (bridge_of_request cr_id t.bridges)
