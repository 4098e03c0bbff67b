-- ===== src/Daemon/Orchestrator/Retries/Backoff.antt =====
-- The bounds and the growth of the backoff.
use native.Mathlib.Nat.{pow-suc}
use sinfonia.Base.{ℕ, zero, suc, ◌-◌, ◌*◌, ◌^◌, ◌≤◌, ◌≡◌, min, max, arith}
use sinfonia.Daemon.Orchestrator.Retries.{backoff_ms}

pow_pos : (n : ℕ) → 1 ≤ 2 ^ n
pow_pos zero = omega arith
pow_pos (suc n) = simp pow-suc (omega (arith, pow_pos n))

pow_mono : (a b : ℕ) → a ≤ b → 2 ^ a ≤ 2 ^ b
pow_mono zero b h = omega (arith, pow_pos b)
pow_mono (suc a) zero h = absurd (omega arith)
pow_mono (suc a) (suc b) h = simp pow-suc (omega (arith, pow_mono a b (omega arith)))

-- The documented formula: min(10000 * 2 ^ (attempt - 1), max_backoff) for the attempts up to 21,
-- where the limit is at least a second.
pub backoff_formula :
    (attempt max_backoff : ℕ)
    → attempt ≤ 21
    → 1000 ≤ max_backoff
    → backoff_ms attempt max_backoff ≡ min (10000 * 2 ^ (attempt - 1)) max_backoff
unfolding backoff_ms
backoff_formula attempt max_backoff h k =
    let exact : min (attempt - 1) 20 ≡ attempt - 1 = omega arith in
    rw exact (omega (arith, pow_mono (attempt - 1) 20 (omega arith)))

-- A retry waits at least a second and at most max(limit, 1000) and 2 ^ 20 * 10 seconds, so that the
-- conversion to `i64` is exact.
pub backoff_bounds :
    (attempt max_backoff : ℕ)
    → (1000 ≤ backoff_ms attempt max_backoff)
      × (backoff_ms attempt max_backoff ≤ max max_backoff 1000)
      × (backoff_ms attempt max_backoff ≤ 10485760000)
unfolding backoff_ms
backoff_bounds attempt max_backoff =
    let low : 1 ≤ 2 ^ min (attempt - 1) 20 = pow_pos (min (attempt - 1) 20) in
    let high : 2 ^ min (attempt - 1) 20 ≤ 2 ^ 20 =
      pow_mono (min (attempt - 1) 20) 20 (omega arith) in
    (omega arith, omega arith, omega arith)

-- A later attempt waits no shorter.
pub backoff_mono :
    (a b max_backoff : ℕ) → a ≤ b → backoff_ms a max_backoff ≤ backoff_ms b max_backoff
unfolding backoff_ms
backoff_mono a b max_backoff h =
    let grows : 2 ^ min (a - 1) 20 ≤ 2 ^ min (b - 1) 20 =
      pow_mono (min (a - 1) 20) (min (b - 1) 20) (omega arith) in
    omega arith
