-- ===== src/Bridge/Feedback/Attempts.antt =====
-- crates/sinfonia-bridge/src/feedback/attempts.rs: the count of attempts on a ticket and its cap.
pub mod Cap
use Prim.Native.Char.{code}
use sinfonia.Base.{
  ℕ, zero, suc, ◌+◌, ◌-◌, ◌*◌, ◌/◌, ◌^◌, ◌==◌, ltb, leb, String, Bool, true, false, ◌&&◌, Option,
  none, some, ℤ, pos, negsuc, min, u32_max, parse_unsigned, u32_saturating_add, unwrap_or,
  if◌then◌else◌,
}
use sinfonia.Domain.{CustomFieldValue, null, number, string, F64, nan, infinity, finite}
use sinfonia.Bridge.World.{Environment, Action, ask_field, ◌>>=◌, ◌>>◌, pure}

pub data AttemptDecision : Type 0 where
  continue_retrying : ℕ → AttemptDecision
  cap_hit : ℕ → ℕ → AttemptDecision

unfoldable pub is_cap_hit : AttemptDecision → Bool
is_cap_hit (continue_retrying next) = false
is_cap_hit (cap_hit stayed_at max) = true

unfoldable pub decide : ℕ → ℕ → AttemptDecision
decide prior max =
    let next = u32_saturating_add prior 1 in
    if ltb max next
    then cap_hit prior max
    else if next == max
    then continue_retrying next
    else continue_retrying next

-- `str::parse::<u32>`
abbrev parse_u32 : String → Option ℕ
parse_u32 s = parse_unsigned u32_max s

-- The whole part of mantissa * 2 ^ exponent
abbrev truncate : ℕ → ℤ → ℕ
truncate mantissa (pos e) = mantissa * 2 ^ e
truncate mantissa (negsuc e) = mantissa / 2 ^ (e + 1)

-- `n >= 0.0`, then `n as u32`, which saturates
unfoldable pub as_u32 : F64 → Option ℕ
as_u32 nan = none
as_u32 (infinity negative) = if negative then none else some u32_max
as_u32 (finite negative mantissa exponent) =
    if negative
    then if mantissa == 0 then some 0 else none
    else some (min (truncate mantissa exponent) u32_max)

-- `n as f64`, exact on `u32`
abbrev pub f64_of : ℕ → F64
f64_of n = finite false n (pos 0)

unfoldable pub field_u32 : CustomFieldValue → Option ℕ
field_u32 null = none
field_u32 (number n) = as_u32 n
field_u32 (string s) = parse_u32 s

-- A cap of zero on the ticket means the cap of the process.
unfoldable pub effective_max : Option ℕ → ℕ → ℕ
effective_max none config_max = config_max
effective_max (some v) config_max = if v == 0 then config_max else v

module _ (env : Environment) where
  unfoldable pub read_u32 : String → String → Action (Option ℕ)
  read_u32 issue_id key = do v ← ask_field env issue_id key; pure (field_u32 v)

  unfoldable pub read_and_decide : String → String → String → ℕ → Action (ℕ × ℕ × AttemptDecision)
  read_and_decide issue_id attempt_count_key max_attempts_key config_max = do
    count ← read_u32 issue_id attempt_count_key
    per_ticket ← read_u32 issue_id max_attempts_key
    let prior = unwrap_or count 0
    let max = effective_max per_ticket config_max
    pure (prior, max, decide prior max)
