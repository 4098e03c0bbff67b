-- ===== src/Bridge/Feedback/Attempts/Cap.antt =====
-- The cap on attempts: how often a ticket is retried.
use sinfonia.Base.{
  ℕ, zero, suc, ◌+◌, ◌≤◌, ◌<◌, ◌≡◌, refl, ltb, some, min, u32_max, arith, unwrap_or, if◌then◌else◌,
}
use sinfonia.Domain.{CustomFieldValue, null, number}
use sinfonia.Bridge.Feedback.Attempts.{
  AttemptDecision, continue_retrying, cap_hit, decide, f64_of, as_u32, field_u32,
}

-- A count that was written is read.
pub as_u32-f64_of : (n : ℕ) → n ≤ u32_max → as_u32 (f64_of n) ≡ some n
unfolding as_u32
as_u32-f64_of n h = ground (arith, h)

-- What the field holds after a red run: `apply_red_below_cap` writes the next count, `apply_cap_hit`
-- writes none.
unfoldable pub field_after : CustomFieldValue → AttemptDecision → CustomFieldValue
field_after v (continue_retrying next) = number (f64_of next)
field_after v (cap_hit stayed_at max) = v

-- The field after a number of red runs, each of which reads it
unfoldable pub field_at : ℕ → ℕ → CustomFieldValue
unfolding field_after decide field_u32
field_at max zero = null
field_at max (suc n) =
    let v = field_at max n in field_after v (decide (unwrap_or (field_u32 v) 0) max)

-- One more red run, after a count of `k`
after_decide :
    (v : CustomFieldValue) (k n max : ℕ)
    → max < u32_max
    → unwrap_or (field_u32 v) 0 ≡ k
    → k ≡ min n max
    → unwrap_or (field_u32 (field_after v (decide k max))) 0 ≡ min (suc n) max
unfolding field_after decide field_u32 as_u32
after_decide v k n max h e m = ground (arith, h, e, m)

field_at-count : (max n : ℕ) → max < u32_max → unwrap_or (field_u32 (field_at max n)) 0 ≡ min n max
unfolding field_at field_u32
field_at-count max zero h = ground (arith, h)
field_at-count max (suc n) h =
    rw (field_at-count max n h)
      (after_decide (field_at max n) (min n max) n max h (field_at-count max n h) refl)

-- With a cap below `u32::MAX` and a field that starts empty, the red run after `n` others retries with
-- the count n + 1 where n is below the cap, and is a cap hit from then on.
pub retries_up_to_cap :
    (max n : ℕ)
    → max < u32_max
    → decide (unwrap_or (field_u32 (field_at max n)) 0) max
      ≡ (if ltb n max then continue_retrying (n + 1) else cap_hit max max)
unfolding decide
retries_up_to_cap max n h = rw (field_at-count max n h) (ground (arith, h))
