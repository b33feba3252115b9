-- ===== src/Proto/Varint.antt =====
-- `write_varint` and `read_varint` of src/proto.rs: a `u64` in one to ten bytes, seven bits in each,
-- the lowest first. A buffer is a list of numbers, and a write appends to it.
pub mod Groups
pub mod RoundTrip
pub mod Bounds
use mathlib.Core.Logic.{dite}
use mathlib.Core.WellFounded.{Acc, WellFounded}
use native.Mathlib.Decide.{dec_le}
use eternal_terminal_client.Base.{
  ℕ, zero, suc, ◌+◌, ◌*◌, ◌/◌, ◌%◌, ◌^◌, ◌≤◌, ◌<◌, bit_and, bit_or, List, [], ◌∷◌, ◌++◌, arith,
  ◌==◌, if◌then◌else◌, ok, err,
}
use eternal_terminal_client.Proto.Error.{ProtoError, truncated, invalid_varint, Result}

abbrev pub IsU64 : ℕ → Type 0
IsU64 v = v < 2 ^ 64

Acc-upto : (k n : ℕ) → n < k → Acc ◌<◌ n
Acc-upto zero n h = absurd (omega arith)
Acc-upto (suc k) n h = Acc.intro n (λ m lt. Acc-upto k m (omega arith))

-- The shift is smaller as long as the loop goes on.
shift_falls : (v : ℕ) → 0x80 ≤ v → v / 128 < v
shift_falls v h = omega arith

-- `while v >= 0x80 { .. }`; `v >> 7` is `v / 128`, and `v as u8` is `v % 256`.
write_varint_loop : List ℕ → (v : ℕ) → Acc ◌<◌ v → List ℕ
write_varint_loop out v (Acc.intro _ below) =
    dite (dec_le 0x80 v)
      (λ more.
        write_varint_loop (out ++ bit_or (v % 256) 0x80 ∷ []) (v / 128)
          (below _ (shift_falls v more)))
      (λ _. out ++ (v % 256) ∷ [])

pub write_varint : List ℕ → ℕ → List ℕ
write_varint out v = write_varint_loop out v (Acc-upto (suc v) v (omega arith))

-- The values of `(start..).step_by(step)`, `count` of them.
abbrev pub step_by : ℕ → ℕ → ℕ → List ℕ
step_by zero start step = []
step_by (suc count) start step = start ∷ step_by count (start + step) step

-- `(0..64).step_by(7)`: 0, 7, .., 63.
abbrev pub varint_shifts : List ℕ
varint_shifts = step_by 10 0 7

-- The loop over the shifts that are left, the bytes that are left and the bits read so far.
pub read_varint_loop : List ℕ → List ℕ → ℕ → Result (ℕ × List ℕ)
read_varint_loop [] buf result = err invalid_varint
read_varint_loop (shift ∷ shifts) [] result = err truncated
read_varint_loop (shift ∷ shifts) (b ∷ buf) result =
    let result' = bit_or result (bit_and b 0x7f * 2 ^ shift % 2 ^ 64) in
    let rest = read_varint_loop shifts buf result' in
    if bit_and b 0x80 == 0 then ok (result', buf) else rest

-- The value, and the bytes behind it.
pub read_varint : List ℕ → Result (ℕ × List ℕ)
read_varint buf = read_varint_loop varint_shifts buf 0
