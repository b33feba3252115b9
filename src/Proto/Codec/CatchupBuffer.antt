-- ===== src/Proto/Codec/CatchupBuffer.antt =====
-- `impl ProtoMessage for CatchupBuffer`, and that it decodes what it encodes.
use mathlib.Core.List.{foldl}
use eternal_terminal_client.Base.{
  ℕ, ◌≡◌, refl, sym, ap, ◌∙◌, Option, none, some, List, [], ◌∷◌, ◌++◌, map, append_assoc,
  append-nil, arith, All, ok, ◌>>=◌, ◌==◌, if◌then◌else◌,
}
use eternal_terminal_client.Proto.Error.{Result}
use eternal_terminal_client.Proto.Wire.{write_bytes, Field, parse_message, field_as_bytes}
use eternal_terminal_client.Proto.Wire.Items.{Item, delimited, items_bytes, item_field}
use eternal_terminal_client.Proto.Wire.Parse.{parse_message-items}
use eternal_terminal_client.Proto.Messages.{CatchupBuffer}
use eternal_terminal_client.Proto.Message.{
  ProtoMessage, IsVec, foldl_bytes, map-IsItem, field_as_bytes-item,
}

unfoldable pub encode : CatchupBuffer → List ℕ
encode m = foldl (λ out b. write_bytes out 1 b) [] m.buffer

abbrev pub default : CatchupBuffer
default = record { buffer = [] }

push : CatchupBuffer → Option (List ℕ) → CatchupBuffer
push msg none = msg
push msg (some b) = record msg { buffer = msg.buffer ++ b ∷ [] }

-- What the loop of `decode` does with a field.
pub set_field : CatchupBuffer → Field → CatchupBuffer
unfolding push
set_field msg f = if f.number == 1 then push msg (field_as_bytes f) else msg

pub decode : List ℕ → Result CatchupBuffer
decode bytes = do fields ← parse_message bytes; ok (foldl set_field default fields)

instance abbrev pub catchup_buffer_message : ProtoMessage CatchupBuffer
catchup_buffer_message = record { encode = encode; decode = decode }

-- The values that the Rust type allows.
abbrev pub IsValid : CatchupBuffer → Type 0
IsValid m = All IsVec m.buffer

abbrev items : CatchupBuffer → List Item
items m = map (delimited 1) m.buffer

push_one :
    (msg : CatchupBuffer) (b : List ℕ)
    → set_field msg (item_field (delimited 1 b)) ≡ record { buffer = msg.buffer ++ b ∷ [] }
unfolding set_field
push_one msg b = rw (field_as_bytes-item 1 b)

push_all :
    (msg : CatchupBuffer) (bs : List (List ℕ))
    → foldl set_field msg (map item_field (map (delimited 1) bs))
      ≡ record { buffer = msg.buffer ++ bs }
push_all msg [] = ap (λ t. record { buffer = t }) (sym (append-nil msg.buffer))
push_all msg (b ∷ bs) =
    ap (λ t. foldl set_field t (map item_field (map (delimited 1) bs))) (push_one msg b)
    ∙ push_all (record { buffer = msg.buffer ++ b ∷ [] }) bs
    ∙ ap (λ t. record { buffer = t }) (append_assoc msg.buffer (b ∷ []) bs)

-- Decoding an encoded `CatchupBuffer` gives back its packets (of less than 2^63 bytes each), all of
-- them and in their order.
pub decode-encode_catchup_buffer : (m : CatchupBuffer) → IsValid m → decode (encode m) ≡ ok m
unfolding encode decode items_bytes
decode-encode_catchup_buffer m h =
    rw
      (
        foldl_bytes [] [] 1 (omega arith) refl m.buffer h,
        parse_message-items (items m)
            (map-IsItem (delimited 1) IsVec m.buffer (λ b q. (omega arith, q)) h),
      )
      (ap ok (push_all default m.buffer))
