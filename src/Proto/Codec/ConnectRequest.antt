-- ===== src/Proto/Codec/ConnectRequest.antt =====
-- `impl ProtoMessage for ConnectRequest`, and that it decodes what it encodes.
use mathlib.Core.Option
use mathlib.Core.List.{foldl, foldl-append, map-append}
use eternal_terminal_client.Base.{
  ℕ, ◌≡◌, refl, ap, Option, none, some, List, [], ◌++◌, map, arith, All, ok, ◌>>=◌, ◌==◌,
  if◌then◌else◌, All-append,
}
use eternal_terminal_client.Base.Int.{ℤ, IsI32, as_u64, u64_as_i32, as_u64-lt, IsI32→IsI64}
use eternal_terminal_client.Proto.Error.{Result}
use eternal_terminal_client.Proto.Wire.{
  write_int32, write_string, Field, parse_message, field_as_string, field_as_varint,
}
use eternal_terminal_client.Proto.Wire.Items.{
  Item, varint, delimited, items_bytes, item_field, IsItem,
}
use eternal_terminal_client.Proto.Wire.Parse.{parse_message-items}
use eternal_terminal_client.Proto.Messages.{ConnectRequest}
use eternal_terminal_client.Proto.Message.{
  ProtoMessage, if_some, AllSome, opt, opt-IsItem, IsStr, if_some_int32, if_some_string,
  field_as_i32-item, field_as_string-item,
}

pub encode : ConnectRequest → List ℕ
encode m =
    let out = if_some m.client_id [] (λ v. write_string [] 1 v) in
    if_some m.version out (λ v. write_int32 out 2 v)

abbrev pub default : ConnectRequest
default = record { client_id = none; version = none }

-- What the loop of `decode` does with a field: the last one of a number counts.
pub set_field : ConnectRequest → Field → ConnectRequest
set_field msg f =
    if f.number == 1
    then record msg { client_id = field_as_string f }
    else if f.number == 2
    then record msg { version = Option.map u64_as_i32 (field_as_varint f) }
    else msg

pub decode : List ℕ → Result ConnectRequest
decode bytes = do fields ← parse_message bytes; ok (foldl set_field default fields)

instance abbrev pub connect_request_message : ProtoMessage ConnectRequest
connect_request_message = record { encode = encode; decode = decode }

-- The values that the Rust types allow.
abbrev pub IsValid : ConnectRequest → Type 0
IsValid m = AllSome IsStr m.client_id × AllSome IsI32 m.version

abbrev items : ConnectRequest → List Item
items m = opt (delimited 1) m.client_id ++ opt (λ v. varint 2 (as_u64 v)) m.version

pub encode-items : (m : ConnectRequest) → IsValid m → encode m ≡ items_bytes (items m)
unfolding encode items_bytes
encode-items m h =
    if_some_int32 _ _ 2 (omega arith) (if_some_string [] [] 1 (omega arith) refl m.client_id h.0)
      m.version h.1

items-IsItem : (m : ConnectRequest) → IsValid m → All IsItem (items m)
items-IsItem m h =
    All-append IsItem _ _
      (opt-IsItem (delimited 1) IsStr m.client_id (λ s q. (omega arith, q.1)) h.0)
      (opt-IsItem (λ v. varint 2 (as_u64 v)) IsI32 m.version
        (λ v q. (omega arith, as_u64-lt v (IsI32→IsI64 v q))) h.1)

set-client_id :
    (msg : ConnectRequest) (o : Option (List ℕ))
    → msg.client_id ≡ none
    → AllSome IsStr o
    → foldl set_field msg (map item_field (opt (delimited 1) o)) ≡ record msg { client_id = o }
unfolding set_field
set-client_id msg none e h = ap (λ t. record msg { client_id = t }) e
set-client_id msg (some v) e h = ap (λ t. record msg { client_id = t }) (field_as_string-item 1 v h)

set-version :
    (msg : ConnectRequest) (o : Option ℤ)
    → msg.version ≡ none
    → AllSome IsI32 o
    → foldl set_field msg (map item_field (opt (λ v. varint 2 (as_u64 v)) o))
      ≡ record msg { version = o }
unfolding set_field
set-version msg none e h = ap (λ t. record msg { version = t }) e
set-version msg (some v) e h = ap (λ t. record msg { version = t }) (field_as_i32-item 2 v h)

items-decode :
    (m : ConnectRequest) → IsValid m → foldl set_field default (map item_field (items m)) ≡ m
items-decode m h =
    simp (map-append, foldl-append)
      (rw (
        set-client_id default m.client_id refl h.0,
        set-version (record default { client_id = m.client_id }) m.version refl h.1,
      ))

-- Decoding an encoded `ConnectRequest` gives it back, whatever its id (UTF-8 of less than 2^63 bytes)
-- and its version (an `i32`, negative ones too), each present or absent.
pub decode-encode_connect_request : (m : ConnectRequest) → IsValid m → decode (encode m) ≡ ok m
unfolding decode
decode-encode_connect_request m h =
    rw (encode-items m h, parse_message-items (items m) (items-IsItem m h))
      (ap ok (items-decode m h))
