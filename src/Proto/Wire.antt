-- ===== src/Proto/Wire.antt =====
-- The codec helpers of src/proto.rs: tagged fields written to a buffer, and a message parsed into its
-- fields. A string is its bytes.
pub mod Items
pub mod Parse
pub mod Total
pub mod Panic
use mathlib.Core.Option
use eternal_terminal_client.Base.{
  ℕ, zero, suc, ◌+◌, ◌-◌, ◌*◌, ◌/◌, ◌%◌, ◌^◌, bit_and, bit_or, Bool, true, false, Option, none,
  some, List, [], ◌∷◌, ◌++◌, arith, ltb, ◌==◌, if◌then◌else◌, ok, err, panic, stuck, ◌>>=◌, length,
  take, drop,
}
use eternal_terminal_client.Base.Int.{ℤ, as_u64}
use eternal_terminal_client.Base.Utf8.{from_utf8}
use eternal_terminal_client.Proto.Error.{ProtoError, io, invalid_wire_type, Result}
use eternal_terminal_client.Proto.Varint.{write_varint, read_varint}

-- `(field << 3) | wire_type`
pub write_tag : List ℕ → ℕ → ℕ → List ℕ
write_tag out field wire_type = write_varint out (bit_or (field * 2 ^ 3) wire_type)

pub write_bytes : List ℕ → ℕ → List ℕ → List ℕ
write_bytes out field b = write_varint (write_tag out field 2) (length b) ++ b

pub write_string : List ℕ → ℕ → List ℕ → List ℕ
write_string out field s = write_varint (write_tag out field 2) (length s) ++ s

pub write_embedded : List ℕ → ℕ → List ℕ → List ℕ
write_embedded out field payload = write_varint (write_tag out field 2) (length payload) ++ payload

pub write_int32 : List ℕ → ℕ → ℤ → List ℕ
write_int32 out field v = write_varint (write_tag out field 0) (as_u64 v)

pub write_bool : List ℕ → ℕ → Bool → List ℕ
write_bool out field v = write_varint (write_tag out field 0) (if v then 1 else 0)

unfoldable pub write_map_entry_string_string : List ℕ → ℕ → List ℕ → List ℕ → List ℕ
write_map_entry_string_string out field k v =
    write_embedded out field (write_string (write_string [] 1 k) 2 v)

-- `data` of the source is `payload` here.
pub record Field : Type 0 where
  pub number : ℕ
  pub wire_type : ℕ
  pub payload : List ℕ

-- `Cursor::read_exact` into `n` bytes: what was read, and what is behind it.
pub read_exact : ℕ → List ℕ → Result (List ℕ × List ℕ)
read_exact n buf = if ltb (length buf) n then err io else ok (take n buf, drop n buf)

-- `vec![0u8; len]`: a length above `isize::MAX` panics. (That there is memory for a smaller one is
-- not modelled.)
pub alloc : ℕ → Result (Unit {0})
alloc len = if ltb len (2 ^ 63) then ok tt else panic

-- The `match wire_type`: the field's bytes, and what is behind them.
pub read_payload : ℕ → List ℕ → Result (List ℕ × List ℕ)
read_payload wire_type buf =
    if wire_type == 0
    then (do (v, rest) ← read_varint buf; ok (write_varint [] v, rest))
    else if wire_type == 1
    then read_exact 8 buf
    else if wire_type == 2
    then (do (len, rest) ← read_varint buf; _ ← alloc len; read_exact len rest)
    else if wire_type == 5
    then read_exact 4 buf
    else err invalid_wire_type

-- One round of the loop of `parse_message`.
pub parse_field : List ℕ → Result (Field × List ℕ)
parse_field buf = do
  (tag, rest) ← read_varint buf
  (payload, rest') ← read_payload (bit_and tag 7) rest
  ok (record { number = tag / 2 ^ 3 % 2 ^ 32; wire_type = bit_and tag 7; payload = payload }, rest')

-- `while cursor.position() < buf.len()`, with the fields so far. Each round takes at least one byte,
-- so the number of bytes is enough fuel.
pub parse_loop : ℕ → List ℕ → List Field → Result (List Field)
parse_loop fuel [] fields = ok fields
parse_loop zero (b ∷ bs) fields = stuck
parse_loop (suc fuel) (b ∷ bs) fields = do
  (f, rest) ← parse_field (b ∷ bs)
  parse_loop fuel rest (fields ++ f ∷ [])

pub parse_message : List ℕ → Result (List Field)
parse_message buf = parse_loop (length buf) buf []

unfoldable pub field_as_string : Field → Option (List ℕ)
field_as_string f = if f.wire_type == 2 then from_utf8 f.payload else none

unfoldable pub field_as_bytes : Field → Option (List ℕ)
field_as_bytes f = if f.wire_type == 2 then some f.payload else none

-- The `ok()` of a result of `read_varint`.
abbrev pub value_of : Result (ℕ × List ℕ) → Option ℕ
value_of (ok (v, rest)) = some v
value_of _ = none

unfoldable pub field_as_varint : Field → Option ℕ
field_as_varint f = if f.wire_type == 0 then value_of (read_varint f.payload) else none
