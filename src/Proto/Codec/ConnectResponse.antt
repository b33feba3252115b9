-- ===== src/Proto/Codec/ConnectResponse.antt =====
-- `impl ProtoMessage for ConnectResponse`, and that it decodes what it encodes.
use mathlib.Core.List.{foldl, foldl-append, map-append}
use eternal_terminal_client.Base.{
  ℕ, ◌<◌, ◌^◌, ◌≡◌, refl, ap, Option, none, some, List, [], ◌++◌, map, arith, All, ok, ◌>>=◌, ◌==◌,
  if◌then◌else◌, All-append,
}
use eternal_terminal_client.Base.Int.{as_u64, u64_as_i32}
use eternal_terminal_client.Proto.Error.{Result}
use eternal_terminal_client.Proto.Wire.{
  write_int32, write_string, Field, parse_message, field_as_string, field_as_varint,
}
use eternal_terminal_client.Proto.Wire.Items.{
  Item, varint, delimited, items_bytes, item_field, IsItem,
}
use eternal_terminal_client.Proto.Wire.Parse.{parse_message-items}
use eternal_terminal_client.Proto.Messages.{
  ConnectResponse, ConnectStatus, new_client, returning_client, invalid_key, mismatched_protocol,
  as_i32, from_i32,
}
use eternal_terminal_client.Proto.Message.{
  ProtoMessage, if_some, AllSome, opt, opt-IsItem, IsStr, if_some_number, if_some_string,
  field_as_string-item, field_as_varint-item,
}

pub encode : ConnectResponse → List ℕ
encode m =
    let out = if_some m.status [] (λ s. write_int32 [] 1 (as_i32 s)) in
    if_some m.error out (λ e. write_string out 2 e)

abbrev pub default : ConnectResponse
default = record { status = none; error = none }

-- `if let Some(v) = field_as_varint(&f)`: a status that is no number leaves the old one.
set_status : ConnectResponse → Option ℕ → ConnectResponse
set_status msg none = msg
set_status msg (some v) = record msg { status = from_i32 (u64_as_i32 v) }

-- What the loop of `decode` does with a field.
pub set_field : ConnectResponse → Field → ConnectResponse
unfolding set_status
set_field msg f =
    if f.number == 1
    then set_status msg (field_as_varint f)
    else if f.number == 2
    then record msg { error = field_as_string f }
    else msg

pub decode : List ℕ → Result ConnectResponse
decode bytes = do fields ← parse_message bytes; ok (foldl set_field default fields)

instance abbrev pub connect_response_message : ProtoMessage ConnectResponse
connect_response_message = record { encode = encode; decode = decode }

-- The values that the Rust types allow.
abbrev pub IsValid : ConnectResponse → Type 0
IsValid m = AllSome IsStr m.error

abbrev items : ConnectResponse → List Item
items m = opt (λ s. varint 1 (as_u64 (as_i32 s))) m.status ++ opt (delimited 2) m.error

status_word : (s : ConnectStatus) → as_u64 (as_i32 s) < 2 ^ 64
unfolding as_u64
status_word new_client = omega arith
status_word returning_client = omega arith
status_word invalid_key = omega arith
status_word mismatched_protocol = omega arith

-- The cast to `u64` and back, and `from_i32` of that.
from_i32-as_i32 : (s : ConnectStatus) → from_i32 (u64_as_i32 (as_u64 (as_i32 s))) ≡ some s
unfolding as_u64 u64_as_i32
from_i32-as_i32 new_client = refl
from_i32-as_i32 returning_client = refl
from_i32-as_i32 invalid_key = refl
from_i32-as_i32 mismatched_protocol = refl

pub encode-items : (m : ConnectResponse) → IsValid m → encode m ≡ items_bytes (items m)
unfolding encode items_bytes
encode-items m h =
    if_some_string _ _ 2 (omega arith)
      (if_some_number [] [] 1 (omega arith) refl as_i32 status_word m.status) m.error h

items-IsItem : (m : ConnectResponse) → IsValid m → All IsItem (items m)
items-IsItem m h =
    All-append IsItem _ _
      (opt-IsItem (λ s. varint 1 (as_u64 (as_i32 s))) (λ _. Unit {0}) m.status
        (λ s _. (omega arith, status_word s)) (all_some m.status))
      (opt-IsItem (delimited 2) IsStr m.error (λ s q. (omega arith, q.1)) h)
  where
    all_some : (o : Option ConnectStatus) → AllSome (λ _. Unit {0}) o
    all_some none = tt
    all_some (some s) = tt

set-status :
    (msg : ConnectResponse) (o : Option ConnectStatus)
    → msg.status ≡ none
    → foldl set_field msg (map item_field (opt (λ s. varint 1 (as_u64 (as_i32 s))) o))
      ≡ record msg { status = o }
unfolding set_field
set-status msg none e = ap (λ t. record msg { status = t }) e
set-status msg (some s) e =
    rw (field_as_varint-item 1 (as_u64 (as_i32 s)) (status_word s))
      (ap (λ t. record msg { status = t }) (from_i32-as_i32 s))

set-error :
    (msg : ConnectResponse) (o : Option (List ℕ))
    → msg.error ≡ none
    → AllSome IsStr o
    → foldl set_field msg (map item_field (opt (delimited 2) o)) ≡ record msg { error = o }
unfolding set_field
set-error msg none e h = ap (λ t. record msg { error = t }) e
set-error msg (some v) e h = ap (λ t. record msg { error = t }) (field_as_string-item 2 v h)

items-decode :
    (m : ConnectResponse) → IsValid m → foldl set_field default (map item_field (items m)) ≡ m
items-decode m h =
    simp (map-append, foldl-append)
      (rw (
        set-status default m.status refl,
        set-error (record default { status = m.status }) m.error refl h,
      ))

-- Decoding an encoded `ConnectResponse` gives it back, for every status and every error text (UTF-8
-- of less than 2^63 bytes), each present or absent.
pub decode-encode_connect_response : (m : ConnectResponse) → IsValid m → decode (encode m) ≡ ok m
unfolding decode
decode-encode_connect_response m h =
    rw (encode-items m h, parse_message-items (items m) (items-IsItem m h))
      (ap ok (items-decode m h))
