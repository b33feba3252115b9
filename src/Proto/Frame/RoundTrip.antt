-- ===== src/Proto/Frame/RoundTrip.antt =====
-- `read_proto` on what `write_proto` wrote, and on a length out of bounds.
use eternal_terminal_client.Base.{
  ℕ, ◌-◌, ◌^◌, ◌≤◌, ◌<◌, ◌≡◌, refl, sym, ap, none, List, [], ◌∷◌, ◌++◌, append-nil, append_assoc,
  arith, ltb, if◌then◌else◌, Bool-cases, inl, inr, ok, err, ◌>>=◌, length, length-append,
  take-append, drop-append, All, IsByte,
}
use eternal_terminal_client.Base.Int.{pos, negsuc}
use eternal_terminal_client.Base.Bytes.{le_bytes, le_value, length-le_bytes, le_value-le_bytes}
use eternal_terminal_client.Base.Io.{Writer, write_all, read_exact}
use eternal_terminal_client.Proto.Message.{ProtoMessage}
use eternal_terminal_client.Proto.Frame.{
  invalid_length, i64_of, max_proto, checked_length, then_payload, write_proto, read_body,
  read_proto,
}

read_exact-append :
    (n : ℕ) (b rest : List ℕ) → length b ≡ n → read_exact n (b ++ rest) ≡ ok (b, rest)
unfolding read_exact
read_exact-append n b rest e =
    rw (← e) (ground (arith, length-append b rest, take-append b rest, drop-append b rest))

-- The stream as it grows while it does not fail.
abbrev pub open_writer : List ℕ → Writer
open_writer b = record { written = b; room = none }

length_checked : (n : ℕ) → n ≤ max_proto → checked_length (i64_of (le_bytes 8 n)) ≡ ok n
length_checked n h = rw (le_value-le_bytes 8 n (omega arith)) (ground arith)

module _ {M : Type 0} ⦃p : ProtoMessage M⦄ where
  -- The bytes of a message on a stream.
  abbrev pub packed : M → List ℕ
  packed m = le_bytes 8 (length (p.encode m)) ++ p.encode m

  pub write_proto-written :
      (b : List ℕ) (m : M) → write_proto (open_writer b) m ≡ (ok tt, open_writer (b ++ packed m))
  unfolding write_proto write_all
  write_proto-written b m = payload (p.encode m) (le_bytes 8 (length (p.encode m)))
    where
      payload :
          (e l : List ℕ)
          → then_payload (write_all (open_writer b) l) e ≡ (ok tt, open_writer (b ++ (l ++ e)))
      payload [] l = ap (λ t. (ok tt, open_writer (b ++ t))) (sym (append-nil l))
      payload (x ∷ xs) l = ap (λ t. (ok tt, open_writer t)) (append_assoc b l (x ∷ xs))

  read_body-encoded :
      (e rest : List ℕ) (m : M)
      → p.decode e ≡ ok m
      → read_body (length e) (e ++ rest) ≡ ok (m, rest)
  unfolding read_body
  read_body-encoded [] rest m d = rw d
  read_body-encoded (x ∷ xs) rest m d =
      rw (read_exact-append _ (x ∷ xs) rest refl, d) (ground arith)

  pub read_proto-frame :
      (e rest : List ℕ) (m : M)
      → length e ≤ max_proto
      → p.decode e ≡ ok m
      → read_proto (le_bytes 8 (length e) ++ (e ++ rest)) ≡ ok (m, rest)
  unfolding read_proto
  read_proto-frame e rest m h d = rw (
    read_exact-append 8 (le_bytes 8 (length e)) (e ++ rest) (length-le_bytes 8 (length e)),
    length_checked (length e) h,
    read_body-encoded e rest m d,
  )

  -- For every message type: if a message decodes from its encoding as `m'`, and the encoding has at
  -- most 128 MiB, then what `write_proto` puts on an open stream is read by `read_proto` as `m'`,
  -- and what follows in the stream is left.
  pub read_proto-write_proto :
      (m m' : M) (rest : List ℕ)
      → p.decode (p.encode m) ≡ ok m'
      → length (p.encode m) ≤ max_proto
      → let (r, w) = write_proto (open_writer []) m in
        (r ≡ ok tt) × (read_proto (w.written ++ rest) ≡ ok (m', rest))
  read_proto-write_proto m m' rest d h =
      rw (write_proto-written [] m, append_assoc (le_bytes 8 (length (p.encode m))))
        (refl, read_proto-frame (p.encode m) rest m' h d)

  -- On every stream that begins with eight bytes which, read as a `u64`, are above 128 MiB,
  -- `read_proto` fails with their value as an `i64` (negative from 2^63 on), whatever follows.
  pub read_proto-length :
      (len_buf rest : List ℕ)
      → All IsByte len_buf
      → length len_buf ≡ 8
      → max_proto < le_value len_buf
      → read_proto {M = M} (len_buf ++ rest) ≡ err (invalid_length (i64_of len_buf))
  unfolding read_proto
  read_proto-length len_buf rest bytes eight big =
      rw (read_exact-append 8 len_buf rest eight) (too_long (le_value len_buf) big)
    where
      too_long :
          (v : ℕ)
          → max_proto < v
          → (do
            len ← checked_length (if ltb v (2 ^ 63) then pos v else negsuc (2 ^ 64 - 1 - v))
            read_body {M = M} len rest)
            ≡ err (invalid_length (if ltb v (2 ^ 63) then pos v else negsuc (2 ^ 64 - 1 - v)))
      too_long v h = elim (Bool-cases (ltb v (2 ^ 63))) [
        | inl e ↦ rw e (ground arith)
        | inr e ↦ rw e
      ]
