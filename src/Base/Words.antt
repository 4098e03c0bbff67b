-- ===== src/Base/Words.antt =====
-- Rust's `u32` and `u64` as natural numbers, with saturating and wrapping operations, and `i64`.
use Prim.Native.Nat.{ℕ, ◌+◌, ◌*◌, ◌%◌, min, compare, Ordering}
use mathlib.Core.Bool.{Bool, false}
use sinfonia.Base.Tests.{ltb}

abbrev pub u32_max : ℕ
u32_max = 4294967295

abbrev pub u64_max : ℕ
u64_max = 18446744073709551615

-- `a + 1` on `u32` in a release build: it wraps.
abbrev pub u32_succ : ℕ → ℕ
u32_succ n = (n + 1) % 4294967296

-- `u32::saturating_add`, `u64::saturating_add`, `u64::saturating_mul`
abbrev pub u32_saturating_add : ℕ → ℕ → ℕ
u32_saturating_add a b = min (a + b) 4294967295

abbrev pub u64_saturating_add : ℕ → ℕ → ℕ
u64_saturating_add a b = min (a + b) 18446744073709551615

abbrev pub u64_saturating_mul : ℕ → ℕ → ℕ
u64_saturating_mul a b = min (a * b) 18446744073709551615

-- `i64`: `negsuc n` is -(n + 1).
pub data ℤ : Type 0 where
  pos : ℕ → ℤ
  negsuc : ℕ → ℤ

abbrev pub compare_int : ℤ → ℤ → Ordering
compare_int (pos a) (pos b) = compare a b
compare_int (pos a) (negsuc b) = Ordering.gt
compare_int (negsuc a) (pos b) = Ordering.lt
compare_int (negsuc a) (negsuc b) = compare b a

-- `n > 0`
abbrev pub is_positive : ℤ → Bool
is_positive (pos n) = ltb 0 n
is_positive (negsuc n) = false

abbrev pub to_nat : ℤ → ℕ
to_nat (pos n) = n
to_nat (negsuc n) = 0
