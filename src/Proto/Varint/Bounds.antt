-- ===== src/Proto/Varint/Bounds.antt =====
-- `read_varint` on any bytes, well formed or not: how many it takes, the range of what it returns,
-- and which error it gives.
use eternal_terminal_client.Base.{
  ℕ, ◌+◌, ◌*◌, ◌%◌, ◌^◌, ◌≤◌, ◌<◌, bit_and, bit_or, ◌≡◌, ◌↔◌, inl, inr, refl, subst, Bool-cases,
  List, [], ◌∷◌, ◌++◌, arith, ◌==◌, ok, err, length, length-append, append-nil, take, All, IsByte,
}
use eternal_terminal_client.Base.Bits.{bit_or-lt, bit_and_top}
use eternal_terminal_client.Proto.Error.{Result, truncated, invalid_varint}
use eternal_terminal_client.Proto.Varint.{
  IsU64, write_varint, varint_shifts, read_varint_loop, read_varint,
}
use eternal_terminal_client.Proto.Varint.RoundTrip.{read_varint-write_varint}

-- A number that is read takes at least one byte and at most one for each shift.
read_varint_loop_takes :
    (shifts buf : List ℕ) (low v : ℕ) (rest : List ℕ)
    → read_varint_loop shifts buf low ≡ ok (v, rest)
    → (length rest < length buf) × (length buf ≤ length rest + length shifts)
unfolding read_varint_loop
read_varint_loop_takes [] buf low v rest e = cc
read_varint_loop_takes (s ∷ shifts) [] low v rest e = cc
read_varint_loop_takes (s ∷ shifts) (b ∷ buf) low v rest e =
    ground (
      arith,
      read_varint_loop_takes shifts buf (bit_or low (bit_and b 0x7f * 2 ^ s % 2 ^ 64)) v rest,
    )

pub read_varint_takes :
    (buf : List ℕ) (v : ℕ) (rest : List ℕ)
    → read_varint buf ≡ ok (v, rest)
    → (length rest < length buf) × (length buf ≤ length rest + 10)
unfolding read_varint
read_varint_takes buf v rest e = read_varint_loop_takes varint_shifts buf 0 v rest e

-- `read_varint` does not look past the number.
read_varint_loop-append :
    (shifts buf more : List ℕ) (low v : ℕ) (rest : List ℕ)
    → read_varint_loop shifts buf low ≡ ok (v, rest)
    → read_varint_loop shifts (buf ++ more) low ≡ ok (v, rest ++ more)
unfolding read_varint_loop
read_varint_loop-append [] buf more low v rest e = cc
read_varint_loop-append (s ∷ shifts) [] more low v rest e = cc
read_varint_loop-append (s ∷ shifts) (b ∷ buf) more low v rest e = ground (
  arith,
  read_varint_loop-append shifts buf more (bit_or low (bit_and b 0x7f * 2 ^ s % 2 ^ 64)) v rest,
)

read_varint_loop-append_invalid :
    (shifts buf more : List ℕ) (low : ℕ)
    → read_varint_loop shifts buf low ≡ err invalid_varint
    → read_varint_loop shifts (buf ++ more) low ≡ err invalid_varint
unfolding read_varint_loop
read_varint_loop-append_invalid [] buf more low e = refl
read_varint_loop-append_invalid (s ∷ shifts) [] more low e = cc
read_varint_loop-append_invalid (s ∷ shifts) (b ∷ buf) more low e = ground (
  arith,
  read_varint_loop-append_invalid shifts buf more (bit_or low (bit_and b 0x7f * 2 ^ s % 2 ^ 64)),
)

pub read_varint-append :
    (buf more : List ℕ) (v : ℕ) (rest : List ℕ)
    → read_varint buf ≡ ok (v, rest)
    → read_varint (buf ++ more) ≡ ok (v, rest ++ more)
unfolding read_varint
read_varint-append buf more v rest e = read_varint_loop-append varint_shifts buf more 0 v rest e

read_varint-append_invalid :
    (buf more : List ℕ)
    → read_varint buf ≡ err invalid_varint
    → read_varint (buf ++ more) ≡ err invalid_varint
unfolding read_varint
read_varint-append_invalid buf more e = read_varint_loop-append_invalid varint_shifts buf more 0 e

-- The three outcomes of a read.
pub data ReadCases (r : Result (ℕ × List ℕ)) : Type 0 where
  value : (v : ℕ) (rest : List ℕ) → r ≡ ok (v, rest) → ReadCases r
  short : r ≡ err truncated → ReadCases r
  long : r ≡ err invalid_varint → ReadCases r

read_varint_loop-cases :
    (shifts buf : List ℕ) (low : ℕ) → ReadCases (read_varint_loop shifts buf low)
unfolding read_varint_loop
read_varint_loop-cases [] buf low = long refl
read_varint_loop-cases (s ∷ shifts) [] low = short refl
read_varint_loop-cases (s ∷ shifts) (b ∷ buf) low = elim (Bool-cases (bit_and b 0x80 == 0)) [
  | inl e ↦ rw e (value _ buf refl)
  | inr e ↦ rw e (read_varint_loop-cases shifts buf (bit_or low (bit_and b 0x7f * 2 ^ s % 2 ^ 64)))
]

pub read_varint-cases : (buf : List ℕ) → ReadCases (read_varint buf)
unfolding read_varint
read_varint-cases buf = read_varint_loop-cases varint_shifts buf 0

read_varint_loop-IsU64 :
    (shifts buf : List ℕ) (low v : ℕ) (rest : List ℕ)
    → IsU64 low
    → read_varint_loop shifts buf low ≡ ok (v, rest)
    → IsU64 v
unfolding read_varint_loop
read_varint_loop-IsU64 [] buf low v rest h e = cc
read_varint_loop-IsU64 (s ∷ shifts) [] low v rest h e = cc
read_varint_loop-IsU64 (s ∷ shifts) (b ∷ buf) low v rest h e =
    let low' = bit_or low (bit_and b 0x7f * 2 ^ s % 2 ^ 64) in
    let h' : IsU64 low' = bit_or-lt 64 low (bit_and b 0x7f * 2 ^ s % 2 ^ 64) h (omega arith) in
    elim (Bool-cases (bit_and b 0x80 == 0)) [
      | inl t ↦ subst (λ (n : ℕ). IsU64 n) (value_of (rw t at e)) h'
      | inr t ↦ read_varint_loop-IsU64 shifts buf low' v rest h' (rw t at e)
    ]
  where
    value_of :
        {m n : ℕ} {xs ys : List ℕ} → ◌≡◌ {A = Result (ℕ × List ℕ)} (ok (m, xs)) (ok (n, ys)) → m ≡ n
    value_of q = cc

-- Whatever number `read_varint` returns, from any list of numbers, is a `u64`.
pub read_varint-IsU64 :
    (buf : List ℕ) (v : ℕ) (rest : List ℕ) → read_varint buf ≡ ok (v, rest) → IsU64 v
unfolding read_varint
read_varint-IsU64 buf v rest e = read_varint_loop-IsU64 varint_shifts buf 0 v rest (omega arith) e

-- Where `read_varint` returns a number, from any list of numbers, it is a `u64`, and at least one byte
-- and at most ten were taken for it.
pub read_varint_bounds :
    (buf : List ℕ) (v : ℕ) (rest : List ℕ)
    → read_varint buf ≡ ok (v, rest)
    → IsU64 v × (length rest < length buf) × (length buf ≤ length rest + 10)
read_varint_bounds buf v rest e =
    let (few, many) = read_varint_takes buf v rest e in (read_varint-IsU64 buf v rest e, few, many)

-- A byte whose top bit says that more bytes follow.
abbrev pub IsMarked : ℕ → Type 0
IsMarked b = 128 ≤ b

read_varint_loop-invalid :
    (shifts buf : List ℕ) (low : ℕ)
    → All IsByte buf
    → read_varint_loop shifts buf low ≡ err invalid_varint
    → (length shifts ≤ length buf) × All IsMarked (take (length shifts) buf)
unfolding read_varint_loop
read_varint_loop-invalid [] buf low h e = (omega arith, tt)
read_varint_loop-invalid (s ∷ shifts) [] low h e = cc
read_varint_loop-invalid (s ∷ shifts) (b ∷ buf) low h e = ground (
  arith,
  bit_and_top b,
  read_varint_loop-invalid shifts buf (bit_or low (bit_and b 0x7f * 2 ^ s % 2 ^ 64)),
)

invalid-read_varint_loop :
    (shifts buf : List ℕ) (low : ℕ)
    → All IsByte buf
    → length shifts ≤ length buf
    → All IsMarked (take (length shifts) buf)
    → read_varint_loop shifts buf low ≡ err invalid_varint
unfolding read_varint_loop
invalid-read_varint_loop [] buf low h n m = refl
invalid-read_varint_loop (s ∷ shifts) [] low h n m = absurd (omega arith)
invalid-read_varint_loop (s ∷ shifts) (b ∷ buf) low h n m = ground (
  arith,
  bit_and_top b,
  invalid-read_varint_loop shifts buf (bit_or low (bit_and b 0x7f * 2 ^ s % 2 ^ 64)),
)

read_varint_loop-truncated :
    (shifts buf : List ℕ) (low : ℕ)
    → All IsByte buf
    → read_varint_loop shifts buf low ≡ err truncated
    → (length buf < length shifts) × All IsMarked buf
unfolding read_varint_loop
read_varint_loop-truncated [] buf low h e = cc
read_varint_loop-truncated (s ∷ shifts) [] low h e = (omega arith, tt)
read_varint_loop-truncated (s ∷ shifts) (b ∷ buf) low h e = ground (
  arith,
  bit_and_top b,
  read_varint_loop-truncated shifts buf (bit_or low (bit_and b 0x7f * 2 ^ s % 2 ^ 64)),
)

truncated-read_varint_loop :
    (shifts buf : List ℕ) (low : ℕ)
    → All IsByte buf
    → length buf < length shifts
    → All IsMarked buf
    → read_varint_loop shifts buf low ≡ err truncated
unfolding read_varint_loop
truncated-read_varint_loop [] buf low h n m = absurd (omega arith)
truncated-read_varint_loop (s ∷ shifts) [] low h n m = refl
truncated-read_varint_loop (s ∷ shifts) (b ∷ buf) low h n m = ground (
  arith,
  bit_and_top b,
  truncated-read_varint_loop shifts buf (bit_or low (bit_and b 0x7f * 2 ^ s % 2 ^ 64)),
)

-- On bytes, `read_varint` answers `InvalidVarint` exactly when the first ten bytes are there and
-- all have the top bit, and `Truncated` exactly when there are fewer than ten and all have it.
pub read_varint_errors :
    (buf : List ℕ)
    → All IsByte buf
    → ((read_varint buf ≡ err invalid_varint) ↔ ((10 ≤ length buf) × All IsMarked (take 10 buf)))
      × ((read_varint buf ≡ err truncated) ↔ ((length buf < 10) × All IsMarked buf))
unfolding read_varint
read_varint_errors buf h = (
  (
    read_varint_loop-invalid varint_shifts buf 0 h,
    λ (p : (10 ≤ length buf) × All IsMarked (take 10 buf)).
        invalid-read_varint_loop varint_shifts buf 0 h p.0 p.1,
  ),
  (
    read_varint_loop-truncated varint_shifts buf 0 h,
    λ (p : (length buf < 10) × All IsMarked buf).
        truncated-read_varint_loop varint_shifts buf 0 h p.0 p.1,
  ),
)

-- Every proper prefix of a number that `write_varint` wrote reads as `Truncated`.
pub read_varint_prefix :
    (v x : ℕ) (front back : List ℕ)
    → IsU64 v
    → write_varint [] v ≡ front ++ x ∷ back
    → read_varint front ≡ err truncated
read_varint_prefix v x front back h e = elim (read_varint-cases front) [
  | value u rest r ↦ absurd (too_short u rest (read_varint-append front (x ∷ back) u rest r))
  | short r ↦ r
  | long r ↦ cc (whole, read_varint-append_invalid front (x ∷ back) r)
]
  where
    whole : read_varint (front ++ x ∷ back) ≡ ok (v, [])
    whole = rw (append-nil, e) at (read_varint-write_varint v [] h)

    too_short :
        (u : ℕ) (rest : List ℕ) → read_varint (front ++ x ∷ back) ≡ ok (u, rest ++ x ∷ back) → ⊥
    too_short u rest q = ground (arith, length-append rest (x ∷ back), whole)
