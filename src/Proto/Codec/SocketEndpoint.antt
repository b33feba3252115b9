-- ===== src/Proto/Codec/SocketEndpoint.antt =====
-- `impl ProtoMessage for SocketEndpoint`, and that it decodes what it encodes.
use mathlib.Core.Option
use mathlib.Core.List.{foldl, foldl-append, map-append}
use eternal_terminal_client.Base.{
  ℕ, ◌≡◌, refl, ap, Option, none, some, List, [], ◌++◌, map, arith, All, ok, ◌>>=◌, ◌==◌,
  if◌then◌else◌, All-append,
}
use eternal_terminal_client.Base.Int.{ℤ, IsI32, as_u64, u64_as_i32, as_u64-lt, IsI32→IsI64}
use eternal_terminal_client.Proto.Error.{Result}
use eternal_terminal_client.Proto.Wire.{
  write_int32, write_string, Field, parse_message, field_as_string, field_as_varint,
}
use eternal_terminal_client.Proto.Wire.Items.{
  Item, varint, delimited, items_bytes, item_field, IsItem,
}
use eternal_terminal_client.Proto.Wire.Parse.{parse_message-items}
use eternal_terminal_client.Proto.Messages.{SocketEndpoint}
use eternal_terminal_client.Proto.Message.{
  ProtoMessage, if_some, AllSome, opt, opt-IsItem, IsStr, if_some_int32, if_some_string,
  field_as_i32-item, field_as_string-item,
}

pub encode : SocketEndpoint → List ℕ
encode m =
    let out = if_some m.name [] (λ v. write_string [] 1 v) in
    if_some m.port out (λ v. write_int32 out 2 v)

abbrev pub default : SocketEndpoint
default = record { name = none; port = none }

-- What the loop of `decode` does with a field: the last one of a number counts.
pub set_field : SocketEndpoint → Field → SocketEndpoint
set_field msg f =
    if f.number == 1
    then record msg { name = field_as_string f }
    else if f.number == 2
    then record msg { port = Option.map u64_as_i32 (field_as_varint f) }
    else msg

pub decode : List ℕ → Result SocketEndpoint
decode bytes = do fields ← parse_message bytes; ok (foldl set_field default fields)

instance abbrev pub socket_endpoint_message : ProtoMessage SocketEndpoint
socket_endpoint_message = record { encode = encode; decode = decode }

-- The values that the Rust types allow.
abbrev pub IsValid : SocketEndpoint → Type 0
IsValid m = AllSome IsStr m.name × AllSome IsI32 m.port

abbrev items : SocketEndpoint → List Item
items m = opt (delimited 1) m.name ++ opt (λ v. varint 2 (as_u64 v)) m.port

pub encode-items : (m : SocketEndpoint) → IsValid m → encode m ≡ items_bytes (items m)
unfolding encode items_bytes
encode-items m h =
    if_some_int32 _ _ 2 (omega arith) (if_some_string [] [] 1 (omega arith) refl m.name h.0) m.port
      h.1

items-IsItem : (m : SocketEndpoint) → IsValid m → All IsItem (items m)
items-IsItem m h =
    All-append IsItem _ _ (opt-IsItem (delimited 1) IsStr m.name (λ s q. (omega arith, q.1)) h.0) (
      opt-IsItem (λ v. varint 2 (as_u64 v)) IsI32 m.port
        (λ v q. (omega arith, as_u64-lt v (IsI32→IsI64 v q))) h.1)

set-name :
    (msg : SocketEndpoint) (o : Option (List ℕ))
    → msg.name ≡ none
    → AllSome IsStr o
    → foldl set_field msg (map item_field (opt (delimited 1) o)) ≡ record msg { name = o }
unfolding set_field
set-name msg none e h = ap (λ t. record msg { name = t }) e
set-name msg (some v) e h = ap (λ t. record msg { name = t }) (field_as_string-item 1 v h)

set-port :
    (msg : SocketEndpoint) (o : Option ℤ)
    → msg.port ≡ none
    → AllSome IsI32 o
    → foldl set_field msg (map item_field (opt (λ v. varint 2 (as_u64 v)) o))
      ≡ record msg { port = o }
unfolding set_field
set-port msg none e h = ap (λ t. record msg { port = t }) e
set-port msg (some v) e h = ap (λ t. record msg { port = t }) (field_as_i32-item 2 v h)

items-decode :
    (m : SocketEndpoint) → IsValid m → foldl set_field default (map item_field (items m)) ≡ m
items-decode m h =
    simp (map-append, foldl-append)
      (rw (
        set-name default m.name refl h.0,
        set-port (record default { name = m.name }) m.port refl h.1,
      ))

-- Decoding an encoded `SocketEndpoint` gives it back, whatever its name (UTF-8 of less than 2^63
-- bytes) and its port (an `i32`), each present or absent.
pub decode-encode_socket_endpoint : (m : SocketEndpoint) → IsValid m → decode (encode m) ≡ ok m
unfolding decode
decode-encode_socket_endpoint m h =
    rw (encode-items m h, parse_message-items (items m) (items-IsItem m h))
      (ap ok (items-decode m h))
