-- ===== src/Proto/Codec/SequenceHeader.antt =====
-- `impl ProtoMessage for SequenceHeader`, and that it decodes what it encodes.
use mathlib.Core.Option
use mathlib.Core.List.{foldl}
use eternal_terminal_client.Base.{
  ℕ, ◌≡◌, refl, ap, Option, none, some, List, [], map, arith, All, ok, ◌>>=◌, ◌==◌, if◌then◌else◌,
}
use eternal_terminal_client.Base.Int.{ℤ, IsI32, as_u64, u64_as_i32, as_u64-lt, IsI32→IsI64}
use eternal_terminal_client.Proto.Error.{Result}
use eternal_terminal_client.Proto.Wire.{write_int32, Field, parse_message, field_as_varint}
use eternal_terminal_client.Proto.Wire.Items.{Item, varint, items_bytes, item_field, IsItem}
use eternal_terminal_client.Proto.Wire.Parse.{parse_message-items}
use eternal_terminal_client.Proto.Messages.{SequenceHeader}
use eternal_terminal_client.Proto.Message.{
  ProtoMessage, if_some, AllSome, opt, opt-IsItem, if_some_int32, field_as_i32-item,
}

unfoldable pub encode : SequenceHeader → List ℕ
encode m = if_some m.sequence_number [] (λ v. write_int32 [] 1 v)

abbrev pub default : SequenceHeader
default = record { sequence_number = none }

-- What the loop of `decode` does with a field: the last one of a number counts.
pub set_field : SequenceHeader → Field → SequenceHeader
set_field msg f =
    if f.number == 1
    then record msg { sequence_number = Option.map u64_as_i32 (field_as_varint f) }
    else msg

pub decode : List ℕ → Result SequenceHeader
decode bytes = do fields ← parse_message bytes; ok (foldl set_field default fields)

instance abbrev pub sequence_header_message : ProtoMessage SequenceHeader
sequence_header_message = record { encode = encode; decode = decode }

-- The values that the Rust types allow.
abbrev pub IsValid : SequenceHeader → Type 0
IsValid m = AllSome IsI32 m.sequence_number

abbrev items : SequenceHeader → List Item
items m = opt (λ v. varint 1 (as_u64 v)) m.sequence_number

encode-items : (m : SequenceHeader) → IsValid m → encode m ≡ items_bytes (items m)
unfolding encode items_bytes
encode-items m h = if_some_int32 [] [] 1 (omega arith) refl m.sequence_number h

items-IsItem : (m : SequenceHeader) → IsValid m → All IsItem (items m)
items-IsItem m h =
    opt-IsItem (λ v. varint 1 (as_u64 v)) IsI32 m.sequence_number
      (λ v q. (omega arith, as_u64-lt v (IsI32→IsI64 v q))) h

set-sequence_number :
    (msg : SequenceHeader) (o : Option ℤ)
    → msg.sequence_number ≡ none
    → AllSome IsI32 o
    → foldl set_field msg (map item_field (opt (λ v. varint 1 (as_u64 v)) o))
      ≡ record msg { sequence_number = o }
unfolding set_field
set-sequence_number msg none e h = ap (λ t. record msg { sequence_number = t }) e
set-sequence_number msg (some v) e h =
    ap (λ t. record msg { sequence_number = t }) (field_as_i32-item 1 v h)

items-decode :
    (m : SequenceHeader) → IsValid m → foldl set_field default (map item_field (items m)) ≡ m
items-decode m h = set-sequence_number default m.sequence_number refl h

-- Decoding an encoded `SequenceHeader` gives it back, for every `i32`, negative ones too, and
-- without one.
pub decode-encode_sequence_header : (m : SequenceHeader) → IsValid m → decode (encode m) ≡ ok m
unfolding decode
decode-encode_sequence_header m h =
    rw (encode-items m h, parse_message-items (items m) (items-IsItem m h))
      (ap ok (items-decode m h))
