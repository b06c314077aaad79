-- ===== src/EditorBridge/Worker/Alerts.antt =====
-- The closing of the request of a deployed row.
use kayak_python.Base.{ℕ, String, ◌≡◌, none, some, List, [], ◌∷◌, arith, inl, inr, Option-cases}
use kayak_python.EditorBridge.Worker.Model.{Bridge, ChangeRequest, resolved}
use kayak_python.EditorBridge.Worker.Rows.{find_request, save_request}
use kayak_python.EditorBridge.Worker.Passes.{resolve_parent}

find_request-save :
    (i : ℕ) (rs : List ChangeRequest) (old new : ChangeRequest)
    → find_request i rs ≡ some old
    → new.id ≡ i
    → find_request i (save_request new rs) ≡ some new
unfolding find_request save_request
find_request-save i [] old new e h = absurd (ground arith)
find_request-save i (c ∷ rs) old new e h = ground (arith, find_request-save i rs old new)

find_request-id :
    (i : ℕ) (rs : List ChangeRequest) (cr : ChangeRequest) → find_request i rs ≡ some cr → cr.id ≡ i
unfolding find_request
find_request-id i [] cr e = absurd (ground arith)
find_request-id i (c ∷ rs) cr e = ground (arith, find_request-id i rs cr)

-- Closing the request of a deployed row marks it resolved, and a second closing over the written
-- request does nothing.
pub resolve_parent_once :
    (b : Bridge) (ref later : String) (requests : List ChangeRequest) (cr : ChangeRequest)
    → resolve_parent b ref requests ≡ some cr
    → (cr.status ≡ resolved) × (resolve_parent b later (save_request cr requests) ≡ none)
unfolding resolve_parent
resolve_parent_once b ref later requests cr h =
    elim (Option-cases (find_request b.change_request_id requests)) [
      | inl e ↦ absurd (ground arith)
      | inr (old, e) ↦
          let s : cr.status ≡ resolved = ground arith in
          let i : cr.id ≡ b.change_request_id =
            ground (arith, find_request-id b.change_request_id requests old e) in
          (s, ground (arith, find_request-save b.change_request_id requests old cr e i))
    ]
