-- ===== src/Proto/Error.antt =====
-- `ProtoError` of src/proto.rs. The only I/O error of the codec is a read past the end of a slice,
-- `UnexpectedEof` of `Cursor::read_exact`.
use eternal_terminal_client.Base.{Outcome}

pub data ProtoError : Type 0 where
  io invalid_varint truncated invalid_wire_type : ProtoError

abbrev pub Result {ℓ} : Type ℓ → Type ℓ
Result A = Outcome ProtoError A
