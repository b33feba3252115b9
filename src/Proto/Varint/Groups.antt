-- ===== src/Proto/Varint/Groups.antt =====
-- What `write_varint` appends, in plain arithmetic: the digits of the number to the base 128.
use mathlib.Core.WellFounded.{Acc}
use eternal_terminal_client.Base.{
  ℕ, zero, suc, ◌+◌, ◌/◌, ◌%◌, ◌^◌, ◌≤◌, ◌<◌, bit_or, ◌≡◌, List, [], ◌∷◌, ◌++◌, append_assoc, arith,
  ltb, if◌then◌else◌, length, All, IsByte,
}
use eternal_terminal_client.Base.Bits.{bit_or_top}
use eternal_terminal_client.Proto.Varint.{IsU64, write_varint_loop, write_varint}

-- At most `k + 1` digits; all but the last are marked by 128.
unfoldable pub groups : ℕ → ℕ → List ℕ
groups zero v = v ∷ []
groups (suc k) v =
    let more = groups k (v / 128) in if ltb v 128 then v ∷ [] else (v % 128 + 128) ∷ more

marked : (v : ℕ) → bit_or (v % 256) 0x80 ≡ v % 128 + 128
marked v = omega (arith, bit_or_top (v % 256) (omega arith))

write_varint_loop-groups :
    (k : ℕ) (out : List ℕ) (v : ℕ) (w : Acc ◌<◌ v)
    → v < 128 ^ suc k
    → write_varint_loop out v w ≡ out ++ groups k v
unfolding write_varint_loop groups
write_varint_loop-groups zero out v (Acc.intro _ below) h = ground arith
write_varint_loop-groups (suc k) out v (Acc.intro _ below) h =
    let head : List ℕ = (v % 128 + 128) ∷ [] in
    grind (
      arith,
      marked v,
      λ (w : Acc ◌<◌ (v / 128)). write_varint_loop-groups k (out ++ head) (v / 128) w (omega arith),
      append_assoc out head (groups k (v / 128)),
    )

-- A write keeps what is in the buffer and appends the digits, for every `u64`.
pub write_varint-groups : (out : List ℕ) (v : ℕ) → IsU64 v → write_varint out v ≡ out ++ groups 9 v
unfolding write_varint
write_varint-groups out v h = write_varint_loop-groups 9 out v _ (omega arith)

pub groups-IsByte : (k v : ℕ) → v < 128 ^ suc k → All IsByte (groups k v)
unfolding groups
groups-IsByte zero v h = omega arith
groups-IsByte (suc k) v h = ground (arith, groups-IsByte k (v / 128) (omega arith))

pub length-groups : (k v : ℕ) → (1 ≤ length (groups k v)) × (length (groups k v) ≤ k + 1)
unfolding groups
length-groups zero v = omega arith
length-groups (suc k) v = ground (arith, length-groups k (v / 128))
