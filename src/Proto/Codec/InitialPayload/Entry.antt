-- ===== src/Proto/Codec/InitialPayload/Entry.antt =====
-- One entry of the map of `InitialPayload`: what is written for it, and that it is read back.
use mathlib.Core.List.{foldl}
use eternal_terminal_client.Base.{
  ℕ, ◌≡◌, ap₂, ◌∙◌, some, none, List, [], ◌∷◌, append-nil, map, arith, ok,
}
use eternal_terminal_client.Base.HashMap.{insert}
use eternal_terminal_client.Proto.Wire.{write_string}
use eternal_terminal_client.Proto.Wire.Items.{
  Item, delimited, items_bytes, item_bytes, item_field, write_string-item,
}
use eternal_terminal_client.Proto.Wire.Parse.{parse_message-items}
use eternal_terminal_client.Proto.Messages.{InitialPayload}
use eternal_terminal_client.Proto.Message.{IsStr, IsVec, field_as_string-item}
use eternal_terminal_client.Proto.Codec.InitialPayload.{set_pair, add_pair, add_entry}

-- The bytes of the entry's own message.
abbrev pub entry_bytes : List ℕ × List ℕ → List ℕ
entry_bytes e = write_string (write_string [] 1 e.0) 2 e.1

-- A key and a value that can stand in a message.
abbrev pub IsEntry : List ℕ × List ℕ → Type 0
IsEntry e = IsStr e.0 × IsStr e.1 × IsVec (entry_bytes e)

abbrev pub entry_items : List ℕ × List ℕ → List Item
entry_items e = delimited 1 e.0 ∷ delimited 2 e.1 ∷ []

pub entry_bytes-items :
    (e : List ℕ × List ℕ) → IsStr e.0 → IsStr e.1 → entry_bytes e ≡ items_bytes (entry_items e)
unfolding items_bytes
entry_bytes-items e hk hv =
    write_string-item _ 2 (omega arith) e.1 hv.1
    ∙ rw (write_string-item [] 1 (omega arith) e.0 hk.1, append-nil (item_bytes (delimited 2 e.1)))

entry_pair :
    (e : List ℕ × List ℕ)
    → IsEntry e
    → foldl set_pair (none, none) (map item_field (entry_items e)) ≡ (some e.0, some e.1)
unfolding set_pair
entry_pair e h =
    ap₂ (λ k v. (k, v)) (field_as_string-item 1 e.0 h.0) (field_as_string-item 2 e.1 h.1)

pub add_entry-entry :
    (msg : InitialPayload) (e : List ℕ × List ℕ)
    → IsEntry e
    → add_entry msg (some (entry_bytes e))
      ≡ ok (record msg { environment_variables = insert e.0 e.1 msg.environment_variables })
unfolding add_entry add_pair
add_entry-entry msg e h = rw (
  entry_bytes-items e h.0 h.1,
  parse_message-items (entry_items e) ((omega arith, h.0.1), ((omega arith, h.1.1), tt)),
  entry_pair e h,
)
