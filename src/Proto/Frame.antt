-- ===== src/Proto/Frame.antt =====
-- `write_proto` and `read_proto` of src/proto.rs: a message behind its length, an `i64` of eight
-- bytes, the lowest first (`to_ne_bytes` on the supported platforms).
pub mod RoundTrip
use eternal_terminal_client.Base.{
  ℕ, ◌+◌, ◌-◌, ◌*◌, ◌^◌, Bool, true, false, List, [], ◌∷◌, leb, ltb, ◌==◌, if◌then◌else◌, Outcome,
  ok, err, ◌>>=◌, map_err, length,
}
use eternal_terminal_client.Base.Int.{ℤ, pos, negsuc}
use eternal_terminal_client.Base.Bytes.{le_bytes, le_value}
use eternal_terminal_client.Base.Io.{IoError, Writer, write_all, read_exact}
use eternal_terminal_client.Proto.Error.{ProtoError}
use eternal_terminal_client.Proto.Message.{ProtoMessage}

-- The `anyhow::Error` of `read_proto`.
pub data ReadError : Type 0 where
  io : IoError → ReadError
  invalid_length : ℤ → ReadError
  proto : ProtoError → ReadError

-- `if !payload.is_empty()`
write_payload : Writer → List ℕ → Outcome IoError (Unit {0}) × Writer
write_payload w [] = (ok tt, w)
write_payload w (b ∷ bs) = write_all w (b ∷ bs)

-- The payload is written only if the length was.
then_payload : Outcome IoError (Unit {0}) × Writer → List ℕ → Outcome IoError (Unit {0}) × Writer
then_payload (ok _, w) payload = write_payload w payload
then_payload (r, w) payload = (r, w)

-- `i64::from_ne_bytes`
abbrev pub i64_of : List ℕ → ℤ
i64_of b = let v = le_value b in if ltb v (2 ^ 63) then pos v else negsuc (2 ^ 64 - 1 - v)

abbrev pub max_proto : ℕ
max_proto = 128 * 1024 * 1024

-- The bounds check on the length, and what it leaves of it.
abbrev pub checked_length : ℤ → Outcome ReadError ℕ
checked_length (pos n) = if leb n max_proto then ok n else err (invalid_length (pos n))
checked_length (negsuc n) = err (invalid_length (negsuc n))

module _ {M : Type 0} ⦃p : ProtoMessage M⦄ where
  pub write_proto : Writer → M → Outcome IoError (Unit {0}) × Writer
  unfolding write_payload then_payload
  write_proto w msg =
      let payload = p.encode msg in then_payload (write_all w (le_bytes 8 (length payload))) payload

  read_body : ℕ → List ℕ → Outcome ReadError (M × List ℕ)
  read_body len r = if len == 0 then (do m ← map_err proto (p.decode []); ok (m, r)) else do
    (buf, rest) ← map_err io (read_exact len r)
    m ← map_err proto (p.decode buf)
    ok (m, rest)

  -- The message, and what is behind it in the stream.
  pub read_proto : List ℕ → Outcome ReadError (M × List ℕ)
  unfolding read_body
  read_proto r = do
    (len_buf, rest) ← map_err io (read_exact 8 r)
    len ← checked_length (i64_of len_buf)
    read_body len rest
