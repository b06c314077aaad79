-- ===== src/EditorBridge/Worker/Lease.antt =====
-- The lease of a bridge row: who gets the row when two `run_once` calls overlap.
use kayak_python.Base.{
  ℕ, ◌+◌, ◌≤◌, String, ◌≡◌, refl, true, false, none, some, arith, if◌then◌else◌, str_eq,
  str_eq_self,
}
use kayak_python.EditorBridge.Worker.Model.{Bridge, Services, Config}
use kayak_python.EditorBridge.Worker.Rows.{lease_ttl, is_ready, claim_row, holds, find_bridge}
use kayak_python.EditorBridge.Worker.Passes.{Pass, claim, claim_found}

row_exclusive :
    (owner other : String) (now later : ℕ) (b : Bridge)
    → str_eq owner other ≡ false
    → is_ready b now ≡ true
    → later ≤ now + lease_ttl
    → (holds other (claim_row other later (claim_row owner now b)) ≡ false)
unfolding claim_row
row_exclusive owner other now later b ne r h = ground arith

row_retaken :
    (other : String) (later : ℕ) (b : Bridge)
    → is_ready b later ≡ true
    → holds other (claim_row other later b) ≡ true
unfolding claim_row
row_retaken other later b r = ground (arith, str_eq_self other)

module _ {W : Type 0} (sv : Services W) (cfg : Config) where
  -- A worker that finds a row leased by another worker, whose claim of a ready row was at most
  -- the lease's length ago, does not get the row.
  pub claim_exclusive :
      (owner other : String) (i now : ℕ) (b : Bridge) (s : Pass W)
      → str_eq owner other ≡ false
      → is_ready b now ≡ true
      → find_bridge i s.tables.bridges ≡ some (claim_row owner now b)
      → (sv.clock s.world).0 ≤ now + lease_ttl
      → (claim sv cfg other i s).0 ≡ none
  unfolding claim
  claim_exclusive owner other i now b s ne r e h =
      rw (e, claim_found)
        (rw (row_exclusive owner other now (sv.clock s.world).0 b ne r h, if◌then◌else◌) refl)
