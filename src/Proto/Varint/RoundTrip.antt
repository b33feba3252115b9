-- ===== src/Proto/Varint/RoundTrip.antt =====
-- `read_varint` reads back what `write_varint` wrote.
use native.Mathlib.Numerals.{towards_suc}
use eternal_terminal_client.Base.{
  ℕ, zero, suc, ◌+◌, ◌*◌, ◌/◌, ◌%◌, ◌^◌, ◌<◌, ◌≡◌, ap, List, [], ◌∷◌, ◌++◌, arith, ok, bit_or,
}
use eternal_terminal_client.Base.Bits.{bit_or_above, bit_and_low_seven, bit_and_top}
use eternal_terminal_client.Proto.Varint.{
  IsU64, write_varint, step_by, read_varint_loop, read_varint,
}
use eternal_terminal_client.Proto.Varint.Groups.{groups, write_varint-groups}

two-pow-add_seven : (s : ℕ) → 2 ^ (s + 7) ≡ 128 * 2 ^ s
two-pow-add_seven s = simp towards_suc (omega arith)

-- The digit `x` lands on the bits from `s` on.
digit_lands :
    (s low x : ℕ)
    → low < 2 ^ s
    → low + x * 2 ^ s < 2 ^ 64
    → bit_or low (x * 2 ^ s % 2 ^ 64) ≡ low + x * 2 ^ s
digit_lands s low x h fits = ground (arith, bit_or_above s low x)

last_digit :
    (n w low s : ℕ) (rest : List ℕ)
    → w < 128
    → low < 2 ^ s
    → IsU64 (low + w * 2 ^ s)
    → read_varint_loop (step_by (suc n) s 7) (w ∷ rest) low ≡ ok (low + w * 2 ^ s, rest)
unfolding read_varint_loop
last_digit n w low s rest hw hl fits =
    ground (arith, bit_and_low_seven w, bit_and_top w, digit_lands s low w)

inner_digit :
    (n x low s : ℕ) (rest : List ℕ)
    → x < 128
    → low < 2 ^ s
    → IsU64 (low + x * 2 ^ s)
    → read_varint_loop (step_by (suc n) s 7) ((x + 128) ∷ rest) low
      ≡ read_varint_loop (step_by n (s + 7) 7) rest (low + x * 2 ^ s)
unfolding read_varint_loop
inner_digit n x low s rest hx hl fits =
    ground (arith, bit_and_low_seven (x + 128), bit_and_top (x + 128), digit_lands s low x)

split_digit : (w s : ℕ) → w * 2 ^ s ≡ w % 128 * 2 ^ s + w / 128 * 2 ^ (s + 7)
split_digit w s = omega (
  arith,
  ap (λ (t : ℕ). t * 2 ^ s) (let e : w ≡ w / 128 * 128 + w % 128 = omega arith in e),
  ap (λ (t : ℕ). w / 128 * t) (two-pow-add_seven s),
)

-- The bits read so far stay below the next shift.
low_fits : (x low s : ℕ) → x < 128 → low < 2 ^ s → low + x * 2 ^ s < 2 ^ (s + 7)
low_fits x low s hx hl = grind (arith, two-pow-add_seven s)

-- `w` is what is still to be read, from bit `s` on.
read_varint_loop-groups :
    (k n w low s : ℕ) (rest : List ℕ)
    → k < n
    → w < 128 ^ suc k
    → low < 2 ^ s
    → IsU64 (low + w * 2 ^ s)
    → read_varint_loop (step_by n s 7) (groups k w ++ rest) low ≡ ok (low + w * 2 ^ s, rest)
unfolding groups
read_varint_loop-groups k zero w low s rest kn hw hl fits = absurd (omega arith)
read_varint_loop-groups zero (suc n) w low s rest kn hw hl fits =
    last_digit n w low s rest (omega arith) hl fits
read_varint_loop-groups (suc k) (suc n) w low s rest kn hw hl fits = ground (
  arith,
  last_digit n w low s rest,
  split_digit w s,
  low_fits (w % 128) low s (omega arith) hl,
  inner_digit n (w % 128) low s (groups k (w / 128) ++ rest),
  read_varint_loop-groups k n (w / 128) (low + w % 128 * 2 ^ s) (s + 7) rest (omega arith)
      (omega arith),
)

-- For every `u64` and every rest, `read_varint` returns the number that `write_varint` wrote, and
-- the rest of the bytes.
pub read_varint-write_varint :
    (v : ℕ) (rest : List ℕ) → IsU64 v → read_varint (write_varint [] v ++ rest) ≡ ok (v, rest)
unfolding read_varint
read_varint-write_varint v rest h =
    rw (write_varint-groups [] v h)
      (ground (arith, read_varint_loop-groups 9 10 v 0 0 rest (omega arith) (omega arith)))
