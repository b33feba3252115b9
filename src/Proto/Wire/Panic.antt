-- ===== src/Proto/Wire/Panic.antt =====
-- The panic of `parse_message`: `vec![0u8; len]` with a length that the peer declared.
use eternal_terminal_client.Base.{
  ℕ, zero, suc, ◌+◌, ◌*◌, ◌^◌, ◌≤◌, ◌<◌, ◌≡◌, ◌∙◌, List, [], ◌∷◌, ◌++◌, append_assoc, arith, panic,
  length, length-append, All,
}
use eternal_terminal_client.Proto.Varint.{IsU64, write_varint}
use eternal_terminal_client.Proto.Varint.Groups.{groups, write_varint-groups, length-groups}
use eternal_terminal_client.Proto.Wire.{
  Field, write_tag, alloc, read_payload, parse_field, parse_loop, parse_message,
}
use eternal_terminal_client.Proto.Wire.Items.{
  Item, item_bytes, items_bytes, item_field, IsItem, write_tag-groups,
}
use eternal_terminal_client.Proto.Wire.Parse.{
  read_varint-groups, parse_field-item, parse_loop_step, length-item_bytes, parse_field_tag,
}

-- A length-delimited field's tag and length, with nothing yet of its bytes.
abbrev pub announced : ℕ → ℕ → List ℕ
announced n len = write_varint (write_tag [] n 2) len

module _ (n len : ℕ) (rest : List ℕ) (fits : n < 2 ^ 32) (huge : 2 ^ 63 ≤ len)
    (word : IsU64 len) where
  announced-groups : announced n len ≡ groups 9 (n * 8 + 2) ++ groups 9 len
  announced-groups =
      write_varint-groups (write_tag [] n 2) len word
      ∙ rw (write_tag-groups [] n fits 2 (omega arith))

  read_payload_panics : read_payload 2 (groups 9 len ++ rest) ≡ panic
  unfolding read_payload alloc
  read_payload_panics = rw (read_varint-groups len rest word) (ground arith)

  parse_field_panics : parse_field (announced n len ++ rest) ≡ panic
  parse_field_panics = rw (
    announced-groups,
    append_assoc,
    parse_field_tag n 2 (groups 9 len ++ rest) fits (omega arith),
    read_payload_panics,
  )

  length-announced : 1 ≤ length (announced n len ++ rest)
  length-announced = rw announced-groups (
      omega (
        arith,
        length-append (groups 9 (n * 8 + 2) ++ groups 9 len) rest,
        length-append (groups 9 (n * 8 + 2)) (groups 9 len),
        length-groups 9 len,
      ))

  parse_loop_panic :
      (fuel : ℕ) (fields : List Field)
      → parse_loop (suc fuel) (announced n len ++ rest) fields ≡ panic
  parse_loop_panic fuel fields = at_head _ length-announced parse_field_panics
    where
      at_head :
          (buf : List ℕ)
          → 1 ≤ length buf
          → parse_field buf ≡ panic
          → parse_loop (suc fuel) buf fields ≡ panic
      at_head [] h e = absurd (omega arith)
      at_head (b ∷ bs) h e = unfold parse_loop in rw e

  parse_loop_panics :
      (is : List Item) (fuel : ℕ) (fields : List Field)
      → All IsItem is
      → length (items_bytes is) < fuel
      → parse_loop fuel (items_bytes is ++ (announced n len ++ rest)) fields ≡ panic
  unfolding items_bytes
  parse_loop_panics is zero fields h f = absurd (omega arith)
  parse_loop_panics [] (suc fuel) fields h f = parse_loop_panic fuel fields
  parse_loop_panics (i ∷ is) (suc fuel) fields (hi, his) f = rw (append_assoc (item_bytes i)) (
      parse_loop_step fuel _ tail (item_field i) fields (parse_field-item i tail hi) some_bytes
      ∙ parse_loop_panics is fuel (fields ++ item_field i ∷ []) his (omega (arith, longer)))
    where
      tail : List ℕ
      tail = items_bytes is ++ (announced n len ++ rest)

      longer : length (items_bytes is) < length (item_bytes i ++ items_bytes is)
      longer = omega (arith, length-item_bytes i, length-append (item_bytes i) (items_bytes is))

      some_bytes : 1 ≤ length (item_bytes i ++ tail)
      some_bytes = omega (arith, length-item_bytes i, length-append (item_bytes i) tail)

-- After any well-formed fields, a length-delimited field whose declared length is 2^63 or more makes
-- `parse_message` panic, whatever follows: no error is returned.
pub parse_message_panics :
    (is : List Item) (n len : ℕ) (rest : List ℕ)
    → All IsItem is
    → n < 2 ^ 32
    → 2 ^ 63 ≤ len
    → IsU64 len
    → parse_message (items_bytes is ++ (announced n len ++ rest)) ≡ panic
unfolding parse_message
parse_message_panics is n len rest h fits huge word =
    parse_loop_panics n len rest fits huge word is _ [] h (
      omega (
        arith,
        length-append (items_bytes is) (announced n len ++ rest),
        length-announced n len rest fits huge word,
      ))
