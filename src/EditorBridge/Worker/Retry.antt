-- ===== src/EditorBridge/Worker/Retry.antt =====
-- The retry policy of the infrastructure errors.
use native.Mathlib.Nat.{pow-suc}
use kayak_python.Base.{
  ℕ, zero, suc, ◌+◌, ◌-◌, ◌*◌, ◌^◌, ◌≤◌, ◌<◌, ◌≡◌, refl, subst, true, false, none, some, arith,
  if◌then◌else◌, inl, inr, Bool-cases, leb, min,
}
use kayak_python.EditorBridge.Worker.Model.{Bridge, queued, worker_error, Services, Config, Trouble}
use kayak_python.EditorBridge.Worker.Rows.{
  max_infra_retries, retry_backoff, retry_backoff_base, retry_backoff_cap, is_ready, terminal_row,
}
use kayak_python.EditorBridge.Worker.Process.{infra_failure}

two-pow-pos : (n : ℕ) → 1 ≤ 2 ^ n
two-pow-pos zero = omega arith
two-pow-pos (suc n) = omega (arith, two-pow-pos n, pow-suc 2 n)

backoff-zero : retry_backoff 0 ≡ 300
unfolding retry_backoff
backoff-zero = refl

backoff-suc : (n : ℕ) → retry_backoff (suc n) ≡ min (300 * 2 ^ n) 3600
unfolding retry_backoff
backoff-suc n = (let e : suc n - 1 ≡ n = omega arith in rw e refl)

two-pow-le : (n k : ℕ) → 2 ^ n ≤ 2 ^ (k + n)
two-pow-le n zero = (let e : 0 + n ≡ n = omega arith in rw e (omega arith))
two-pow-le n (suc k) =
    (let e : suc k + n ≡ suc (k + n) = omega arith in
      rw e (omega (arith, two-pow-le n k, pow-suc 2 (k + n))))

-- `timedelta.max`, in whole seconds
abbrev pub max_timedelta : ℕ
max_timedelta = 86399999999999

fits_timedelta : (n : ℕ) → n < 39 → retry_backoff_base * 2 ^ n ≤ max_timedelta
fits_timedelta n h =
    let k : ℕ = 38 - n in
    let last : k + n ≡ 38 = omega (arith, h) in
    let bound : 2 ^ n ≤ 2 ^ 38 = subst (λ j. 2 ^ n ≤ 2 ^ j) last (two-pow-le n k) in
    let power : 2 ^ 38 ≡ 274877906944 = refl in omega (arith, bound, power)

-- The wait after a retry and after the next one.
abbrev IsSchedule : ℕ → Type 0
IsSchedule n =
    (retry_backoff 1 ≡ retry_backoff_base)
    × (retry_backoff n ≤ retry_backoff (suc n))
    × (retry_backoff (suc (suc n)) ≤ 2 * retry_backoff (suc n))
    × (2 * retry_backoff (suc n) ≤ retry_backoff_cap
        → retry_backoff (suc (suc n)) ≡ 2 * retry_backoff (suc n))
    × (retry_backoff_base ≤ retry_backoff n)
    × (retry_backoff n ≤ retry_backoff_cap)

waits : (n : ℕ) → IsSchedule n
waits zero = omega (arith, backoff-zero, backoff-suc 0, backoff-suc 1)
waits (suc n) = omega (
  arith,
  backoff-suc 0,
  backoff-suc n,
  backoff-suc (suc n),
  backoff-suc (suc (suc n)),
  pow-suc 2 n,
  pow-suc 2 (suc n),
  two-pow-pos n,
)

-- Below 40 retries the product fits a `timedelta`. The wait starts at five minutes, never falls from
-- one retry to the next, doubles until it meets the cap, and never passes one hour.
pub retry_backoff_schedule :
    (n : ℕ)
    → n + 2 < 40
    → (retry_backoff_base * 2 ^ suc n ≤ max_timedelta)
      × (retry_backoff 1 ≡ retry_backoff_base)
      × (retry_backoff n ≤ retry_backoff (suc n))
      × (retry_backoff (suc (suc n)) ≤ 2 * retry_backoff (suc n))
      × (2 * retry_backoff (suc n) ≤ retry_backoff_cap
          → retry_backoff (suc (suc n)) ≡ 2 * retry_backoff (suc n))
      × (retry_backoff_base ≤ retry_backoff n)
      × (retry_backoff n ≤ retry_backoff_cap)
retry_backoff_schedule n h =
    let (first, rises, twice, doubles, low, high) = waits n in
    (fits_timedelta (suc n) (omega (arith, h)), first, rises, twice, doubles, low, high)

module _ {W : Type 0} (sv : Services W) (cfg : Config) where
  -- An infrastructure error raises the count by one. Below the fifth the row keeps its state
  -- without an alert and cannot be claimed before the backoff is over; from the fifth on it is
  -- parked as `worker_error` with an alert.
  pub infra_failure_policy :
      (b : Bridge) (t : Trouble) (w : W)
      → b.state ≡ queued
      → let ((b', o), w') = infra_failure sv cfg b t w in
        (b'.retry_count ≡ b.retry_count + 1)
        × (b'.lease_owner ≡ none)
        × (b.retry_count + 1 < max_infra_retries
            → (b'.state ≡ queued)
              × (o.escalate ≡ false)
              × (b'.lease_expires_at ≡ some ((sv.clock w).0 + retry_backoff (b.retry_count + 1)))
              × ((now : ℕ)
                  → now ≤ (sv.clock w).0 + retry_backoff (b.retry_count + 1)
                  → is_ready b' now ≡ false))
        × (max_infra_retries ≤ b.retry_count + 1
            → (b'.state ≡ worker_error) × (o.escalate ≡ true) × (b'.lease_expires_at ≡ none))
  unfolding infra_failure terminal_row
  infra_failure_policy b t w q = elim (Bool-cases (leb max_infra_retries (b.retry_count + 1))) [
    | inl e ↦
        rw (e, if◌then◌else◌) (refl, refl, (λ h. absurd (ground arith)), (λ h. (refl, refl, refl)))
    | inr e ↦
        rw (e, if◌then◌else◌)
          (
            refl,
            refl,
            (λ h. (q, refl, refl, (λ now le. ground arith))),
            (λ h. absurd (ground arith)),
          )
  ]
