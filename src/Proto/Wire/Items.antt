-- ===== src/Proto/Wire/Items.antt =====
-- What the codec helpers append, as a list of items, and that each `write_` appends one item.
use eternal_terminal_client.Base.{
  ℕ, ◌+◌, ◌*◌, ◌^◌, ◌<◌, ◌≡◌, refl, ap, true, List, [], ◌∷◌, ◌++◌, append_assoc, append-nil, arith,
  length,
}
use eternal_terminal_client.Base.Bits.{bit_or_below}
use eternal_terminal_client.Base.Int.{ℤ, as_u64}
use eternal_terminal_client.Proto.Varint.{IsU64, write_varint}
use eternal_terminal_client.Proto.Varint.Groups.{groups, write_varint-groups}
use eternal_terminal_client.Proto.Wire.{
  write_tag, write_bytes, write_string, write_embedded, write_int32, write_bool, Field,
}

-- A field as it is meant: a number, or bytes behind their length.
pub data Item : Type 0 where
  varint : (number v : ℕ) → Item
  delimited : (number : ℕ) (b : List ℕ) → Item

abbrev pub item_bytes : Item → List ℕ
item_bytes (varint n v) = groups 9 (n * 8) ++ groups 9 v
item_bytes (delimited n b) = groups 9 (n * 8 + 2) ++ (groups 9 (length b) ++ b)

unfoldable pub items_bytes : List Item → List ℕ
items_bytes [] = []
items_bytes (i ∷ is) = item_bytes i ++ items_bytes is

-- The field that the parser makes of an item.
abbrev pub item_field : Item → Field
item_field (varint n v) = record { number = n; wire_type = 0; payload = groups 9 v }
item_field (delimited n b) = record { number = n; wire_type = 2; payload = b }

-- Field numbers are `u32`, and a length is at most `isize::MAX`.
abbrev pub IsItem : Item → Type 0
IsItem (varint n v) = (n < 2 ^ 32) × IsU64 v
IsItem (delimited n b) = (n < 2 ^ 32) × (length b < 2 ^ 63)

pub items_bytes-append :
    (is js : List Item) → items_bytes (is ++ js) ≡ items_bytes is ++ items_bytes js
unfolding items_bytes
items_bytes-append [] js = refl
items_bytes-append (i ∷ is) js = rw (items_bytes-append is js, append_assoc)

pub items_bytes_one : (i : Item) → items_bytes (i ∷ []) ≡ item_bytes i
unfolding items_bytes
items_bytes_one i = append-nil (item_bytes i)

module _ (out : List ℕ) (n : ℕ) (fits : n < 2 ^ 32) where
  pub write_tag-groups : (w : ℕ) → w < 8 → write_tag out n w ≡ out ++ groups 9 (n * 8 + w)
  unfolding write_tag
  write_tag-groups w h =
      rw (bit_or_below 3 n w h) (write_varint-groups out (n * 8 + w) (omega arith))

  write_number :
      (v : ℕ) → IsU64 v → write_varint (write_tag out n 0) v ≡ out ++ item_bytes (varint n v)
  write_number v h =
      rw
        (
          write_varint-groups (write_tag out n 0) v h,
          write_tag-groups 0 (omega arith),
          append_assoc,
        )
        (ap (λ (t : ℕ). out ++ (groups 9 t ++ groups 9 v)) (omega arith))

  write_delimited :
      (b : List ℕ)
      → length b < 2 ^ 63
      → write_varint (write_tag out n 2) (length b) ++ b ≡ out ++ item_bytes (delimited n b)
  write_delimited b h =
      rw
        (
          write_varint-groups (write_tag out n 2) (length b) (omega arith),
          write_tag-groups 2 (omega arith),
        )
        (simp append_assoc)

  pub write_bytes-item :
      (b : List ℕ) → length b < 2 ^ 63 → write_bytes out n b ≡ out ++ item_bytes (delimited n b)
  unfolding write_bytes
  write_bytes-item = write_delimited

  pub write_string-item :
      (s : List ℕ) → length s < 2 ^ 63 → write_string out n s ≡ out ++ item_bytes (delimited n s)
  unfolding write_string
  write_string-item = write_delimited

  pub write_embedded-item :
      (b : List ℕ) → length b < 2 ^ 63 → write_embedded out n b ≡ out ++ item_bytes (delimited n b)
  unfolding write_embedded
  write_embedded-item = write_delimited

  pub write_int32-item :
      (v : ℤ) → IsU64 (as_u64 v) → write_int32 out n v ≡ out ++ item_bytes (varint n (as_u64 v))
  unfolding write_int32
  write_int32-item v h = write_number (as_u64 v) h

  pub write_bool-item : write_bool out n true ≡ out ++ item_bytes (varint n 1)
  unfolding write_bool
  write_bool-item = write_number 1 (omega arith)
