-- ===== src/Proto/Codec/InitialPayload.antt =====
-- `impl ProtoMessage for InitialPayload`.
pub mod Entry
pub mod RoundTrip
use mathlib.Core.Option
use mathlib.Core.List.{foldl}
use eternal_terminal_client.Base.{
  ℕ, Bool, true, false, not, Option, none, some, List, [], ◌∷◌, ◌++◌, ok, ◌>>=◌, ◌==◌,
  if◌then◌else◌,
}
use eternal_terminal_client.Base.HashMap.{insert}
use eternal_terminal_client.Proto.Error.{Result}
use eternal_terminal_client.Proto.Wire.{
  write_bool, write_embedded, write_map_entry_string_string, Field, parse_message, field_as_string,
  field_as_bytes, field_as_varint,
}
use eternal_terminal_client.Proto.Messages.{InitialPayload}
use eternal_terminal_client.Proto.Message.{ProtoMessage, fold_result}
use eternal_terminal_client.Proto.Codec.PortForwardSourceRequest

-- `self.jumphost == Some(true)`
abbrev is_true : Option Bool → Bool
is_true none = false
is_true (some b) = b

pub encode : InitialPayload → List ℕ
encode m =
    let out = if is_true m.jumphost then write_bool [] 1 true else [] in
    let out =
      foldl (λ out rt. write_embedded out 2 (PortForwardSourceRequest.encode rt)) out
        m.reverse_tunnels in
    foldl (λ out e. write_map_entry_string_string out 3 e.0 e.1) out m.environment_variables

abbrev pub default : InitialPayload
default = record { jumphost = none; reverse_tunnels = []; environment_variables = [] }

push_tunnel : InitialPayload → Option (List ℕ) → Result InitialPayload
push_tunnel msg none = ok msg
push_tunnel msg (some b) = do
  rt ← PortForwardSourceRequest.decode b
  ok (record msg { reverse_tunnels = msg.reverse_tunnels ++ rt ∷ [] })

-- The `key` and the `val` of an entry so far.
abbrev KeyVal : Type 0
KeyVal = Option (List ℕ) × Option (List ℕ)

set_pair : KeyVal → Field → KeyVal
set_pair (key, val) ef =
    if ef.number == 1
    then (field_as_string ef, val)
    else if ef.number == 2
    then (key, field_as_string ef)
    else (key, val)

-- `if let (Some(k), Some(v)) = (key, val)`
add_pair : InitialPayload → KeyVal → InitialPayload
add_pair msg (some k, some v) = record msg {
  environment_variables = insert k v msg.environment_variables;
}
add_pair msg (some k, none) = msg
add_pair msg (none, val) = msg

pub add_entry : InitialPayload → Option (List ℕ) → Result InitialPayload
add_entry msg none = ok msg
add_entry msg (some b) = do
  fields ← parse_message b
  ok (add_pair msg (foldl set_pair (none, none) fields))

-- What the loop of `decode` does with a field.
pub set_field : InitialPayload → Field → Result InitialPayload
unfolding push_tunnel add_entry
set_field msg f =
    if f.number == 1
    then ok (record msg { jumphost = Option.map (λ v. not (v == 0)) (field_as_varint f) })
    else if f.number == 2
    then push_tunnel msg (field_as_bytes f)
    else if f.number == 3
    then add_entry msg (field_as_bytes f)
    else ok msg

pub decode : List ℕ → Result InitialPayload
decode bytes = do fields ← parse_message bytes; fold_result set_field default fields

instance abbrev pub initial_payload_message : ProtoMessage InitialPayload
initial_payload_message = record { encode = encode; decode = decode }
