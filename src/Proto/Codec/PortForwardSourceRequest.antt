-- ===== src/Proto/Codec/PortForwardSourceRequest.antt =====
-- `impl ProtoMessage for PortForwardSourceRequest`, and that it decodes what it encodes.
use mathlib.Core.List.{map-append}
use eternal_terminal_client.Base.{
  ℕ, ◌≡◌, refl, ap, ◌∙◌, Option, none, some, List, [], ◌++◌, map, arith, All, All-append, ok, ◌>>=◌,
  ◌==◌, if◌then◌else◌,
}
use eternal_terminal_client.Proto.Error.{Result}
use eternal_terminal_client.Proto.Wire.{
  write_string, write_embedded, Field, parse_message, field_as_string, field_as_bytes,
}
use eternal_terminal_client.Proto.Wire.Items.{Item, delimited, items_bytes, item_field, IsItem}
use eternal_terminal_client.Proto.Wire.Parse.{parse_message-items}
use eternal_terminal_client.Proto.Messages.{PortForwardSourceRequest, SocketEndpoint}
use eternal_terminal_client.Proto.Message.{
  ProtoMessage, if_some, AllSome, opt, opt-IsItem, IsStr, IsVec, if_some_string, if_some_embedded,
  fold_result, fold_result-append, field_as_string-item, field_as_bytes-item,
}
use eternal_terminal_client.Proto.Codec.SocketEndpoint

pub encode : PortForwardSourceRequest → List ℕ
encode m =
    let out = if_some m.source [] (λ s. write_embedded [] 1 (SocketEndpoint.encode s)) in
    let out = if_some m.destination out (λ d. write_embedded out 2 (SocketEndpoint.encode d)) in
    if_some m.environment_variable out (λ e. write_string out 3 e)

abbrev pub default : PortForwardSourceRequest
default = record { source = none; destination = none; environment_variable = none }

-- `SocketEndpoint::decode(&b)?` of a field that has bytes.
set_source : PortForwardSourceRequest → Option (List ℕ) → Result PortForwardSourceRequest
set_source msg none = ok msg
set_source msg (some b) = do e ← SocketEndpoint.decode b; ok (record msg { source = some e })

set_destination : PortForwardSourceRequest → Option (List ℕ) → Result PortForwardSourceRequest
set_destination msg none = ok msg
set_destination msg (some b) = do
  e ← SocketEndpoint.decode b
  ok (record msg { destination = some e })

-- What the loop of `decode` does with a field.
pub set_field : PortForwardSourceRequest → Field → Result PortForwardSourceRequest
unfolding set_source set_destination
set_field msg f =
    if f.number == 1
    then set_source msg (field_as_bytes f)
    else if f.number == 2
    then set_destination msg (field_as_bytes f)
    else if f.number == 3
    then ok (record msg { environment_variable = field_as_string f })
    else ok msg

pub decode : List ℕ → Result PortForwardSourceRequest
decode bytes = do fields ← parse_message bytes; fold_result set_field default fields

instance abbrev pub port_forward_source_request_message : ProtoMessage PortForwardSourceRequest
port_forward_source_request_message = record { encode = encode; decode = decode }

-- An endpoint that can stand in a message: its own encoding is a `Vec`.
abbrev pub IsEndpoint : SocketEndpoint → Type 0
IsEndpoint s = SocketEndpoint.IsValid s × IsVec (SocketEndpoint.encode s)

abbrev pub IsValid : PortForwardSourceRequest → Type 0
IsValid m =
    AllSome IsEndpoint m.source
    × AllSome IsEndpoint m.destination
    × AllSome IsStr m.environment_variable

abbrev endpoint_item : ℕ → SocketEndpoint → Item
endpoint_item n s = delimited n (SocketEndpoint.encode s)

abbrev items : PortForwardSourceRequest → List Item
items m =
    (opt (endpoint_item 1) m.source ++ opt (endpoint_item 2) m.destination)
    ++ opt (delimited 3) m.environment_variable

is_vec :
    (o : Option SocketEndpoint)
    → AllSome IsEndpoint o
    → AllSome (λ s. IsVec (SocketEndpoint.encode s)) o
is_vec none h = tt
is_vec (some s) h = h.1

pub encode-items : (m : PortForwardSourceRequest) → IsValid m → encode m ≡ items_bytes (items m)
unfolding encode items_bytes
encode-items m h =
    if_some_string _ _ 3 (omega arith)
      (if_some_embedded _ _ 2 (omega arith)
        (if_some_embedded [] [] 1 (omega arith) refl SocketEndpoint.encode m.source
          (is_vec m.source h.0))
        SocketEndpoint.encode m.destination (is_vec m.destination h.1))
      m.environment_variable h.2

items-IsItem : (m : PortForwardSourceRequest) → IsValid m → All IsItem (items m)
items-IsItem m h =
    All-append IsItem _ _
      (All-append IsItem _ _
        (opt-IsItem (endpoint_item 1) IsEndpoint m.source (λ s q. (omega arith, q.1)) h.0)
        (opt-IsItem (endpoint_item 2) IsEndpoint m.destination (λ s q. (omega arith, q.1)) h.1))
      (opt-IsItem (delimited 3) IsStr m.environment_variable (λ s q. (omega arith, q.1)) h.2)

set-source :
    (msg : PortForwardSourceRequest) (o : Option SocketEndpoint)
    → msg.source ≡ none
    → AllSome IsEndpoint o
    → fold_result set_field msg (map item_field (opt (endpoint_item 1) o))
      ≡ ok (record msg { source = o })
unfolding set_field fold_result
set-source msg none e h = ap (λ t. ok (record msg { source = t })) e
set-source msg (some s) e h = rw (
  field_as_bytes-item 1 (SocketEndpoint.encode s),
  SocketEndpoint.decode-encode_socket_endpoint s h.0,
)

set-destination :
    (msg : PortForwardSourceRequest) (o : Option SocketEndpoint)
    → msg.destination ≡ none
    → AllSome IsEndpoint o
    → fold_result set_field msg (map item_field (opt (endpoint_item 2) o))
      ≡ ok (record msg { destination = o })
unfolding set_field fold_result
set-destination msg none e h = ap (λ t. ok (record msg { destination = t })) e
set-destination msg (some s) e h = rw (
  field_as_bytes-item 2 (SocketEndpoint.encode s),
  SocketEndpoint.decode-encode_socket_endpoint s h.0,
)

set-environment_variable :
    (msg : PortForwardSourceRequest) (o : Option (List ℕ))
    → msg.environment_variable ≡ none
    → AllSome IsStr o
    → fold_result set_field msg (map item_field (opt (delimited 3) o))
      ≡ ok (record msg { environment_variable = o })
unfolding set_field fold_result
set-environment_variable msg none e h = ap (λ t. ok (record msg { environment_variable = t })) e
set-environment_variable msg (some s) e h =
    ap (λ t. ok (record msg { environment_variable = t })) (field_as_string-item 3 s h)

items-decode :
    (m : PortForwardSourceRequest)
    → IsValid m
    → fold_result set_field default (map item_field (items m)) ≡ ok m
items-decode m h = simp (map-append) (
    fold_result-append set_field default _ _ with_both (
      fold_result-append set_field default _ _ with_source (set-source default m.source refl h.0)
      ∙ set-destination with_source m.destination refl h.1)
    ∙ set-environment_variable with_both m.environment_variable refl h.2)
  where
    with_source : PortForwardSourceRequest
    with_source = record default { source = m.source }

    with_both : PortForwardSourceRequest
    with_both = record default { source = m.source; destination = m.destination }

-- Decoding an encoded `PortForwardSourceRequest` gives it back, its endpoints included, where its
-- strings are UTF-8 and each string and encoded endpoint has less than 2^63 bytes.
pub decode-encode_port_forward_source_request :
    (m : PortForwardSourceRequest) → IsValid m → decode (encode m) ≡ ok m
unfolding decode
decode-encode_port_forward_source_request m h =
    rw (encode-items m h, parse_message-items (items m) (items-IsItem m h)) (items-decode m h)
