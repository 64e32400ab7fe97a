-- ===== src/Base/Signed.antt =====
-- Signed machine integers (`i32`, `i64`): integers over the native numbers, and the casts of Rust.
use Prim.Native.Nat.{ℕ, suc, zero, ◌-◌, ◌%◌, ◌^◌, ◌≤◌}
use mathlib.Core.Bool.{Bool, true, false}
use sys_tester.Base.Tests.{◌==◌, if◌then◌else◌}

pub data ℤ : Type 0 where
  pos : ℕ → ℤ
  negsuc : ℕ → ℤ

abbrev pub is_negative : ℤ → Bool
is_negative (pos n) = false
is_negative (negsuc n) = true

abbrev pub IsNegative : ℤ → Type 0
IsNegative (pos n) = ⊥
IsNegative (negsuc n) = Unit {0}

-- `-x` of an `i32`, which wraps around at `i32::MIN`.
abbrev pub neg_i32 : ℤ → ℤ
neg_i32 (pos zero) = pos zero
neg_i32 (pos (suc n)) = negsuc n
neg_i32 (negsuc n) = if n == 2 ^ 31 - 1 then negsuc n else pos (suc n)

-- `x as u32` and `x as u64` of a signed integer: its bit pattern, after sign extension.
abbrev pub cast_u32 : ℤ → ℕ
cast_u32 (pos n) = n % 2 ^ 32
cast_u32 (negsuc n) = 2 ^ 32 - 1 - n % 2 ^ 32

abbrev pub cast_u64 : ℤ → ℕ
cast_u64 (pos n) = n % 2 ^ 64
cast_u64 (negsuc n) = 2 ^ 64 - 1 - n % 2 ^ 64

-- The values of an `i32`.
abbrev pub IsI32 : ℤ → Type 0
IsI32 (pos n) = n ≤ 2 ^ 31 - 1
IsI32 (negsuc n) = n ≤ 2 ^ 31 - 1

abbrev pub same : ℤ → ℤ → Bool
same (pos a) (pos b) = a == b
same (negsuc a) (negsuc b) = a == b
same _ _ = false
