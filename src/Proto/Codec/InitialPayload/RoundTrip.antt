-- ===== src/Proto/Codec/InitialPayload/RoundTrip.antt =====
-- `InitialPayload` decodes what it encodes.
use mathlib.Core.List.{map-append}
use eternal_terminal_client.Base.{
  ℕ, Bool, true, false, ◌≡◌, refl, sym, ap, ◌∙◌, Option, none, some, List, [], ◌∷◌, ◌++◌,
  append_assoc, append-nil, map, arith, All, All-append, ok, ◌>>=◌, if◌then◌else◌,
}
use eternal_terminal_client.Base.HashMap.{
  Entries, insert, insert_all, HasDistinctKeys, insert_all-HasDistinctKeys,
}
use eternal_terminal_client.Proto.Wire.{write_bool, write_map_entry_string_string}
use eternal_terminal_client.Proto.Wire.Items.{
  Item, varint, delimited, items_bytes, items_bytes_one, item_field, IsItem, write_bool-item,
}
use eternal_terminal_client.Proto.Wire.Parse.{parse_message-items}
use eternal_terminal_client.Proto.Messages.{InitialPayload, PortForwardSourceRequest}
use eternal_terminal_client.Proto.Message.{
  IsVec, foldl_embedded, map-IsItem, fold_result, fold_result-append, field_as_bytes-item,
  field_as_varint-item,
}
use eternal_terminal_client.Proto.Codec.PortForwardSourceRequest
use eternal_terminal_client.Proto.Codec.InitialPayload.{
  is_true, encode, default, push_tunnel, add_entry, set_field, decode,
}
use eternal_terminal_client.Proto.Codec.InitialPayload.Entry.{entry_bytes, IsEntry, add_entry-entry}

-- A tunnel that can stand in a message.
abbrev pub IsTunnel : PortForwardSourceRequest → Type 0
IsTunnel rt = PortForwardSourceRequest.IsValid rt × IsVec (PortForwardSourceRequest.encode rt)

abbrev pub IsValid : InitialPayload → Type 0
IsValid m =
    All IsTunnel m.reverse_tunnels
    × All IsEntry m.environment_variables
    × HasDistinctKeys m.environment_variables

-- The flag as the peer sees it: `Some(false)` is not written.
abbrev pub sent : Option Bool → Option Bool
sent none = none
sent (some false) = none
sent (some true) = some true

abbrev jumphost_items : Option Bool → List Item
jumphost_items o = if is_true o then varint 1 1 ∷ [] else []

abbrev tunnel_item : PortForwardSourceRequest → Item
tunnel_item rt = delimited 2 (PortForwardSourceRequest.encode rt)

abbrev entry_item : List ℕ × List ℕ → Item
entry_item e = delimited 3 (entry_bytes e)

abbrev items : InitialPayload → List Item
items m =
    (jumphost_items m.jumphost ++ map tunnel_item m.reverse_tunnels)
    ++ map entry_item m.environment_variables

jumphost-items :
    (b : Bool)
    → (if b then write_bool [] 1 true else []) ≡ items_bytes (if b then varint 1 1 ∷ [] else [])
jumphost-items true = write_bool-item [] 1 (omega arith) ∙ sym (items_bytes_one (varint 1 1))
jumphost-items false = unfold items_bytes in refl

tunnel-IsVec :
    (rts : List PortForwardSourceRequest)
    → All IsTunnel rts
    → All (λ rt. IsVec (PortForwardSourceRequest.encode rt)) rts
tunnel-IsVec [] h = tt
tunnel-IsVec (rt ∷ rts) h = (h.0.1, tunnel-IsVec rts h.1)

entry-IsVec : (es : Entries) → All IsEntry es → All (λ e. IsVec (entry_bytes e)) es
entry-IsVec [] h = tt
entry-IsVec (e ∷ es) h = (h.0.2, entry-IsVec es h.1)

encode-items : (m : InitialPayload) → IsValid m → encode m ≡ items_bytes (items m)
unfolding encode write_map_entry_string_string
encode-items m h =
    foldl_embedded _ _ 3 (omega arith)
      (foldl_embedded _ _ 2 (omega arith) (jumphost-items (is_true m.jumphost))
        PortForwardSourceRequest.encode m.reverse_tunnels (tunnel-IsVec m.reverse_tunnels h.0))
      entry_bytes m.environment_variables (entry-IsVec m.environment_variables h.1)

jumphost-IsItem : (b : Bool) → All IsItem (if b then varint 1 1 ∷ [] else [])
jumphost-IsItem true = omega arith
jumphost-IsItem false = tt

items-IsItem : (m : InitialPayload) → IsValid m → All IsItem (items m)
items-IsItem m h =
    All-append IsItem _ _
      (All-append IsItem _ _ (jumphost-IsItem (is_true m.jumphost))
        (map-IsItem tunnel_item IsTunnel m.reverse_tunnels (λ rt q. (omega arith, q.1)) h.0))
      (map-IsItem entry_item IsEntry m.environment_variables (λ e q. (omega arith, q.2)) h.1)

set-jumphost :
    (msg : InitialPayload) (o : Option Bool)
    → msg.jumphost ≡ none
    → fold_result set_field msg (map item_field (jumphost_items o))
      ≡ ok (record msg { jumphost = sent o })
unfolding fold_result set_field
set-jumphost msg none e = ap (λ t. ok (record msg { jumphost = t })) e
set-jumphost msg (some false) e = ap (λ t. ok (record msg { jumphost = t })) e
set-jumphost msg (some true) e = rw (field_as_varint-item 1 1 (omega arith))

set_field_tunnel :
    (msg : InitialPayload) (rt : PortForwardSourceRequest)
    → IsTunnel rt
    → set_field msg (item_field (tunnel_item rt))
      ≡ ok (record msg { reverse_tunnels = msg.reverse_tunnels ++ rt ∷ [] })
unfolding set_field push_tunnel
set_field_tunnel msg rt h = rw (
  field_as_bytes-item 2 (PortForwardSourceRequest.encode rt),
  PortForwardSourceRequest.decode-encode_port_forward_source_request rt h.0,
)

set-tunnels :
    (msg : InitialPayload) (rts : List PortForwardSourceRequest)
    → All IsTunnel rts
    → fold_result set_field msg (map item_field (map tunnel_item rts))
      ≡ ok (record msg { reverse_tunnels = msg.reverse_tunnels ++ rts })
unfolding fold_result
set-tunnels msg [] h = ap (λ t. ok (record msg { reverse_tunnels = t })) (sym (append-nil _))
set-tunnels msg (rt ∷ rts) h =
    ap (λ r. do m ← r; fold_result set_field m (map item_field (map tunnel_item rts)))
      (set_field_tunnel msg rt h.0)
    ∙ set-tunnels (record msg { reverse_tunnels = msg.reverse_tunnels ++ rt ∷ [] }) rts h.1
    ∙ ap (λ t. ok (record msg { reverse_tunnels = t })) (append_assoc _ (rt ∷ []) rts)

set_field_entry :
    (msg : InitialPayload) (e : List ℕ × List ℕ)
    → IsEntry e
    → set_field msg (item_field (entry_item e))
      ≡ ok (record msg { environment_variables = insert e.0 e.1 msg.environment_variables })
unfolding set_field
set_field_entry msg e h =
    ap (add_entry msg) (field_as_bytes-item 3 (entry_bytes e)) ∙ add_entry-entry msg e h

set-entries :
    (msg : InitialPayload) (es : Entries)
    → All IsEntry es
    → fold_result set_field msg (map item_field (map entry_item es))
      ≡ ok (record msg { environment_variables = insert_all msg.environment_variables es })
unfolding fold_result
set-entries msg [] h = refl
set-entries msg (e ∷ es) h =
    ap (λ r. do m ← r; fold_result set_field m (map item_field (map entry_item es)))
      (set_field_entry msg e h.0)
    ∙ set-entries (record msg { environment_variables = insert e.0 e.1 msg.environment_variables })
        es h.1

items-decode :
    (m : InitialPayload)
    → IsValid m
    → fold_result set_field default (map item_field (items m))
      ≡ ok (record m { jumphost = sent m.jumphost })
items-decode m h = simp (map-append) (
    fold_result-append set_field default _ _ with_tunnels (
      fold_result-append set_field default _ _ with_jumphost (set-jumphost default m.jumphost refl)
      ∙ set-tunnels with_jumphost m.reverse_tunnels h.0)
    ∙ set-entries with_tunnels m.environment_variables h.1
    ∙ ap (λ t. ok (record with_tunnels { environment_variables = t }))
        (insert_all-HasDistinctKeys m.environment_variables h.2))
  where
    with_jumphost : InitialPayload
    with_jumphost = record default { jumphost = sent m.jumphost }

    with_tunnels : InitialPayload
    with_tunnels = record with_jumphost { reverse_tunnels = m.reverse_tunnels }

-- Decoding an encoded `InitialPayload` gives it back with all its tunnels and all its environment
-- variables, but for a jumphost flag `Some(false)`, which comes back absent. Its strings are UTF-8,
-- its environment variables have distinct names, and each string, encoded tunnel and encoded entry
-- has less than 2^63 bytes.
pub decode-encode_initial_payload :
    (m : InitialPayload)
    → IsValid m
    → decode (encode m) ≡ ok (record m { jumphost = sent m.jumphost })
unfolding decode
decode-encode_initial_payload m h =
    rw (encode-items m h, parse_message-items (items m) (items-IsItem m h)) (items-decode m h)
