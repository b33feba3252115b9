-- ===== src/Base/Int.antt =====
-- Signed integers over the native numbers, under the library's names, with the ranges of `i32` and
-- `i64` and the casts between them and `u64`.
use Prim.Native.Nat.{ℕ, suc, ◌+◌, ◌-◌, ◌%◌, ◌^◌, ◌≤◌, ◌<◌, compare, Ordering}
use mathlib.Core.Path.{◌≡◌}
use native.Mathlib.Omega.{arith}

-- `negsuc n` is -(n + 1).
pub data ℤ : Type 0 where
  pos : ℕ → ℤ
  negsuc : ℕ → ℤ

abbrev pub pos_part : ℤ → ℕ
pos_part (pos n) = n
pos_part (negsuc n) = 0

abbrev pub neg_part : ℤ → ℕ
neg_part (pos n) = 0
neg_part (negsuc n) = suc n

-- The numbers of the two's complement types.
abbrev pub IsI32 : ℤ → Type 0
IsI32 z = (pos_part z < 2 ^ 31) × (neg_part z ≤ 2 ^ 31)

abbrev pub IsI64 : ℤ → Type 0
IsI64 z = (pos_part z < 2 ^ 63) × (neg_part z ≤ 2 ^ 63)

abbrev signed : ℕ → ℕ → ℤ
signed w half = elim (compare w half) [ Ordering.lt ↦ pos w | _ ↦ negsuc (half + half - 1 - w) ]

-- `v as u64`, for a value of `i32` or `i64`: the sign is extended.
unfoldable pub as_u64 : ℤ → ℕ
as_u64 (pos n) = n
as_u64 (negsuc n) = 2 ^ 64 - 1 - n

-- `v as i32`, for a value of `u64`: the low 32 bits.
unfoldable pub u64_as_i32 : ℕ → ℤ
u64_as_i32 v = signed (v % 2 ^ 32) (2 ^ 31)

-- `v as i32`, for a value of `i64`.
unfoldable pub i64_as_i32 : ℤ → ℤ
i64_as_i32 z = u64_as_i32 (as_u64 z)

pub as_u64-lt : (z : ℤ) → IsI64 z → as_u64 z < 2 ^ 64
unfolding as_u64
as_u64-lt (pos n) h = omega arith
as_u64-lt (negsuc n) h = omega arith

pub IsI32→IsI64 : (z : ℤ) → IsI32 z → IsI64 z
IsI32→IsI64 z h = omega arith

-- The casts to `u64` and back lose nothing of an `i32`.
pub u64_as_i32-as_u64 : (z : ℤ) → IsI32 z → u64_as_i32 (as_u64 z) ≡ z
unfolding u64_as_i32 as_u64
u64_as_i32-as_u64 (pos n) h = ground arith
u64_as_i32-as_u64 (negsuc n) h = ground arith

pub u64_as_i32-IsI32 : (v : ℕ) → IsI32 (u64_as_i32 v)
unfolding u64_as_i32
u64_as_i32-IsI32 v = ground arith

pub i64_as_i32_lem : (z : ℤ) → IsI32 z → i64_as_i32 z ≡ z
unfolding i64_as_i32
i64_as_i32_lem z h = u64_as_i32-as_u64 z h
