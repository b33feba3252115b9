-- ===== src/Proto/Codec/InitialResponse.antt =====
-- `impl ProtoMessage for InitialResponse`, and that it decodes what it encodes.
use mathlib.Core.List.{foldl}
use eternal_terminal_client.Base.{
  ℕ, ◌≡◌, refl, ap, Option, none, some, List, [], map, arith, All, ok, ◌>>=◌, ◌==◌, if◌then◌else◌,
}
use eternal_terminal_client.Proto.Error.{Result}
use eternal_terminal_client.Proto.Wire.{write_string, Field, parse_message, field_as_string}
use eternal_terminal_client.Proto.Wire.Items.{Item, delimited, items_bytes, item_field, IsItem}
use eternal_terminal_client.Proto.Wire.Parse.{parse_message-items}
use eternal_terminal_client.Proto.Messages.{InitialResponse}
use eternal_terminal_client.Proto.Message.{
  ProtoMessage, if_some, AllSome, opt, opt-IsItem, IsStr, if_some_string, field_as_string-item,
}

pub encode : InitialResponse → List ℕ
encode m = if_some m.error [] (λ v. write_string [] 1 v)

abbrev pub default : InitialResponse
default = record { error = none }

-- What the loop of `decode` does with a field: the last one of a number counts.
pub set_field : InitialResponse → Field → InitialResponse
set_field msg f = if f.number == 1 then record msg { error = field_as_string f } else msg

pub decode : List ℕ → Result InitialResponse
decode bytes = do fields ← parse_message bytes; ok (foldl set_field default fields)

instance abbrev pub initial_response_message : ProtoMessage InitialResponse
initial_response_message = record { encode = encode; decode = decode }

-- The values that the Rust types allow.
abbrev pub IsValid : InitialResponse → Type 0
IsValid m = AllSome IsStr m.error

abbrev items : InitialResponse → List Item
items m = opt (delimited 1) m.error

encode-items : (m : InitialResponse) → IsValid m → encode m ≡ items_bytes (items m)
unfolding encode items_bytes
encode-items m h = if_some_string [] [] 1 (omega arith) refl m.error h

items-IsItem : (m : InitialResponse) → IsValid m → All IsItem (items m)
items-IsItem m h = opt-IsItem (delimited 1) IsStr m.error (λ s q. (omega arith, q.1)) h

set-error :
    (msg : InitialResponse) (o : Option (List ℕ))
    → msg.error ≡ none
    → AllSome IsStr o
    → foldl set_field msg (map item_field (opt (delimited 1) o)) ≡ record msg { error = o }
unfolding set_field
set-error msg none e h = ap (λ t. record msg { error = t }) e
set-error msg (some v) e h = ap (λ t. record msg { error = t }) (field_as_string-item 1 v h)

items-decode :
    (m : InitialResponse) → IsValid m → foldl set_field default (map item_field (items m)) ≡ m
items-decode m h = set-error default m.error refl h

-- Decoding an encoded `InitialResponse` gives it back, with an error text (UTF-8 of less than 2^63
-- bytes) or without.
pub decode-encode_initial_response : (m : InitialResponse) → IsValid m → decode (encode m) ≡ ok m
unfolding decode
decode-encode_initial_response m h =
    rw (encode-items m h, parse_message-items (items m) (items-IsItem m h))
      (ap ok (items-decode m h))
