-- ===== src/Proto/Codec/TerminalInfo.antt =====
-- `impl ProtoMessage for TerminalInfo`, and that it decodes what it encodes.
use mathlib.Core.Option
use mathlib.Core.List.{foldl, foldl-append, map-append}
use eternal_terminal_client.Base.{
  ℕ, ◌≡◌, refl, ap, Option, none, some, List, [], ◌++◌, map, arith, All, ok, ◌>>=◌, ◌==◌,
  if◌then◌else◌, All-append,
}
use eternal_terminal_client.Base.Int.{ℤ, IsI32, as_u64, u64_as_i32, as_u64-lt, IsI32→IsI64}
use eternal_terminal_client.Proto.Error.{Result}
use eternal_terminal_client.Proto.Wire.{
  write_int32, write_string, Field, parse_message, field_as_string, field_as_varint,
}
use eternal_terminal_client.Proto.Wire.Items.{
  Item, varint, delimited, items_bytes, item_field, IsItem,
}
use eternal_terminal_client.Proto.Wire.Parse.{parse_message-items}
use eternal_terminal_client.Proto.Messages.{TerminalInfo}
use eternal_terminal_client.Proto.Message.{
  ProtoMessage, if_some, AllSome, opt, opt-IsItem, IsStr, if_some_int32, if_some_string,
  field_as_i32-item, field_as_string-item,
}

pub encode : TerminalInfo → List ℕ
encode m =
    let out = if_some m.id [] (λ v. write_string [] 1 v) in
    let out = if_some m.row out (λ v. write_int32 out 2 v) in
    let out = if_some m.column out (λ v. write_int32 out 3 v) in
    let out = if_some m.width out (λ v. write_int32 out 4 v) in
    if_some m.height out (λ v. write_int32 out 5 v)

abbrev pub default : TerminalInfo
default = record { id = none; row = none; column = none; width = none; height = none }

-- What the loop of `decode` does with a field: the last one of a number counts.
pub set_field : TerminalInfo → Field → TerminalInfo
set_field msg f =
    if f.number == 1
    then record msg { id = field_as_string f }
    else if f.number == 2
    then record msg { row = Option.map u64_as_i32 (field_as_varint f) }
    else if f.number == 3
    then record msg { column = Option.map u64_as_i32 (field_as_varint f) }
    else if f.number == 4
    then record msg { width = Option.map u64_as_i32 (field_as_varint f) }
    else if f.number == 5
    then record msg { height = Option.map u64_as_i32 (field_as_varint f) }
    else msg

pub decode : List ℕ → Result TerminalInfo
decode bytes = do fields ← parse_message bytes; ok (foldl set_field default fields)

instance abbrev pub terminal_info_message : ProtoMessage TerminalInfo
terminal_info_message = record { encode = encode; decode = decode }

-- The values that the Rust types allow.
abbrev pub IsValid : TerminalInfo → Type 0
IsValid m =
    AllSome IsStr m.id
    × AllSome IsI32 m.row
    × AllSome IsI32 m.column
    × AllSome IsI32 m.width
    × AllSome IsI32 m.height

abbrev items : TerminalInfo → List Item
items m =
    (((opt (delimited 1) m.id ++ opt (λ v. varint 2 (as_u64 v)) m.row)
        ++ opt (λ v. varint 3 (as_u64 v)) m.column)
      ++ opt (λ v. varint 4 (as_u64 v)) m.width)
    ++ opt (λ v. varint 5 (as_u64 v)) m.height

encode-items : (m : TerminalInfo) → IsValid m → encode m ≡ items_bytes (items m)
unfolding encode items_bytes
encode-items m h =
    if_some_int32 _ _ 5 (omega arith)
      (if_some_int32 _ _ 4 (omega arith)
        (if_some_int32 _ _ 3 (omega arith)
          (if_some_int32 _ _ 2 (omega arith) (if_some_string [] [] 1 (omega arith) refl m.id h.0)
            m.row h.1)
          m.column h.2)
        m.width h.3)
      m.height h.4

items-IsItem : (m : TerminalInfo) → IsValid m → All IsItem (items m)
items-IsItem m h =
    All-append IsItem _ _
      (All-append IsItem _ _
        (All-append IsItem _ _
          (All-append IsItem _ _
            (opt-IsItem (delimited 1) IsStr m.id (λ s q. (omega arith, q.1)) h.0)
            (opt-IsItem (λ v. varint 2 (as_u64 v)) IsI32 m.row
              (λ v q. (omega arith, as_u64-lt v (IsI32→IsI64 v q))) h.1))
          (opt-IsItem (λ v. varint 3 (as_u64 v)) IsI32 m.column
            (λ v q. (omega arith, as_u64-lt v (IsI32→IsI64 v q))) h.2))
        (opt-IsItem (λ v. varint 4 (as_u64 v)) IsI32 m.width
          (λ v q. (omega arith, as_u64-lt v (IsI32→IsI64 v q))) h.3))
      (opt-IsItem (λ v. varint 5 (as_u64 v)) IsI32 m.height
        (λ v q. (omega arith, as_u64-lt v (IsI32→IsI64 v q))) h.4)

set-id :
    (msg : TerminalInfo) (o : Option (List ℕ))
    → msg.id ≡ none
    → AllSome IsStr o
    → foldl set_field msg (map item_field (opt (delimited 1) o)) ≡ record msg { id = o }
unfolding set_field
set-id msg none e h = ap (λ t. record msg { id = t }) e
set-id msg (some v) e h = ap (λ t. record msg { id = t }) (field_as_string-item 1 v h)

set-row :
    (msg : TerminalInfo) (o : Option ℤ)
    → msg.row ≡ none
    → AllSome IsI32 o
    → foldl set_field msg (map item_field (opt (λ v. varint 2 (as_u64 v)) o))
      ≡ record msg { row = o }
unfolding set_field
set-row msg none e h = ap (λ t. record msg { row = t }) e
set-row msg (some v) e h = ap (λ t. record msg { row = t }) (field_as_i32-item 2 v h)

set-column :
    (msg : TerminalInfo) (o : Option ℤ)
    → msg.column ≡ none
    → AllSome IsI32 o
    → foldl set_field msg (map item_field (opt (λ v. varint 3 (as_u64 v)) o))
      ≡ record msg { column = o }
unfolding set_field
set-column msg none e h = ap (λ t. record msg { column = t }) e
set-column msg (some v) e h = ap (λ t. record msg { column = t }) (field_as_i32-item 3 v h)

set-width :
    (msg : TerminalInfo) (o : Option ℤ)
    → msg.width ≡ none
    → AllSome IsI32 o
    → foldl set_field msg (map item_field (opt (λ v. varint 4 (as_u64 v)) o))
      ≡ record msg { width = o }
unfolding set_field
set-width msg none e h = ap (λ t. record msg { width = t }) e
set-width msg (some v) e h = ap (λ t. record msg { width = t }) (field_as_i32-item 4 v h)

set-height :
    (msg : TerminalInfo) (o : Option ℤ)
    → msg.height ≡ none
    → AllSome IsI32 o
    → foldl set_field msg (map item_field (opt (λ v. varint 5 (as_u64 v)) o))
      ≡ record msg { height = o }
unfolding set_field
set-height msg none e h = ap (λ t. record msg { height = t }) e
set-height msg (some v) e h = ap (λ t. record msg { height = t }) (field_as_i32-item 5 v h)

items-decode :
    (m : TerminalInfo) → IsValid m → foldl set_field default (map item_field (items m)) ≡ m
items-decode m h =
    simp (map-append, foldl-append)
      (rw (
        set-id default m.id refl h.0,
        set-row (record default { id = m.id }) m.row refl h.1,
        set-column (record default { id = m.id; row = m.row }) m.column refl h.2,
        set-width (record default { id = m.id; row = m.row; column = m.column }) m.width refl h.3,
        set-height (record default { id = m.id; row = m.row; column = m.column; width = m.width })
            m.height refl h.4,
      ))

-- Decoding an encoded `TerminalInfo` gives it back, whatever its id (UTF-8 of less than 2^63 bytes)
-- and its four `i32` values, each present or absent.
pub decode-encode_terminal_info : (m : TerminalInfo) → IsValid m → decode (encode m) ≡ ok m
unfolding decode
decode-encode_terminal_info m h =
    rw (encode-items m h, parse_message-items (items m) (items-IsItem m h))
      (ap ok (items-decode m h))
