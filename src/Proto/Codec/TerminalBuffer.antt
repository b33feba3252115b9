-- ===== src/Proto/Codec/TerminalBuffer.antt =====
-- `impl ProtoMessage for TerminalBuffer`, and that it decodes what it encodes.
use mathlib.Core.List.{foldl}
use eternal_terminal_client.Base.{
  ℕ, ◌≡◌, refl, ap, Option, none, some, List, [], map, arith, All, ok, ◌>>=◌, ◌==◌, if◌then◌else◌,
}
use eternal_terminal_client.Proto.Error.{Result}
use eternal_terminal_client.Proto.Wire.{write_bytes, Field, parse_message, field_as_bytes}
use eternal_terminal_client.Proto.Wire.Items.{Item, delimited, items_bytes, item_field, IsItem}
use eternal_terminal_client.Proto.Wire.Parse.{parse_message-items}
use eternal_terminal_client.Proto.Messages.{TerminalBuffer}
use eternal_terminal_client.Proto.Message.{
  ProtoMessage, if_some, AllSome, opt, opt-IsItem, IsVec, if_some_bytes, field_as_bytes-item,
}

pub encode : TerminalBuffer → List ℕ
encode m = if_some m.buffer [] (λ v. write_bytes [] 1 v)

abbrev pub default : TerminalBuffer
default = record { buffer = none }

-- What the loop of `decode` does with a field: the last one of a number counts.
pub set_field : TerminalBuffer → Field → TerminalBuffer
set_field msg f = if f.number == 1 then record msg { buffer = field_as_bytes f } else msg

pub decode : List ℕ → Result TerminalBuffer
decode bytes = do fields ← parse_message bytes; ok (foldl set_field default fields)

instance abbrev pub terminal_buffer_message : ProtoMessage TerminalBuffer
terminal_buffer_message = record { encode = encode; decode = decode }

-- The values that the Rust types allow.
abbrev pub IsValid : TerminalBuffer → Type 0
IsValid m = AllSome IsVec m.buffer

abbrev items : TerminalBuffer → List Item
items m = opt (delimited 1) m.buffer

encode-items : (m : TerminalBuffer) → IsValid m → encode m ≡ items_bytes (items m)
unfolding encode items_bytes
encode-items m h = if_some_bytes [] [] 1 (omega arith) refl m.buffer h

items-IsItem : (m : TerminalBuffer) → IsValid m → All IsItem (items m)
items-IsItem m h = opt-IsItem (delimited 1) IsVec m.buffer (λ s q. (omega arith, q)) h

set-buffer :
    (msg : TerminalBuffer) (o : Option (List ℕ))
    → msg.buffer ≡ none
    → AllSome IsVec o
    → foldl set_field msg (map item_field (opt (delimited 1) o)) ≡ record msg { buffer = o }
unfolding set_field
set-buffer msg none e h = ap (λ t. record msg { buffer = t }) e
set-buffer msg (some v) e h = ap (λ t. record msg { buffer = t }) (field_as_bytes-item 1 v)

items-decode :
    (m : TerminalBuffer) → IsValid m → foldl set_field default (map item_field (items m)) ≡ m
items-decode m h = set-buffer default m.buffer refl h

-- Decoding an encoded `TerminalBuffer` gives it back, with its bytes (less than 2^63) or without.
pub decode-encode_terminal_buffer : (m : TerminalBuffer) → IsValid m → decode (encode m) ≡ ok m
unfolding decode
decode-encode_terminal_buffer m h =
    rw (encode-items m h, parse_message-items (items m) (items-IsItem m h))
      (ap ok (items-decode m h))
