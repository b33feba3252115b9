-- ===== src/Proto/Wire/Parse.antt =====
-- `parse_message` on the bytes of items gives their fields.
use eternal_terminal_client.Base.{
  ℕ, zero, suc, ◌+◌, ◌*◌, ◌/◌, ◌%◌, ◌^◌, ◌≤◌, ◌<◌, ◌≡◌, refl, ◌∙◌, ap, List, [], ◌∷◌, ◌++◌, map,
  append_assoc, append-nil, arith, ok, ◌>>=◌, length, length-append, take-append, drop-append, All,
  bit_and,
}
use eternal_terminal_client.Base.Bits.{bit_and_seven}
use eternal_terminal_client.Proto.Varint.{IsU64, read_varint}
use eternal_terminal_client.Proto.Varint.Groups.{groups, write_varint-groups, length-groups}
use eternal_terminal_client.Proto.Varint.RoundTrip.{read_varint-write_varint}
use eternal_terminal_client.Proto.Wire.{
  Field, read_exact, alloc, read_payload, parse_field, parse_loop, parse_message,
}
use eternal_terminal_client.Proto.Wire.Items.{
  Item, varint, delimited, item_bytes, items_bytes, item_field, IsItem,
}

pub read_varint-groups :
    (v : ℕ) (rest : List ℕ) → IsU64 v → read_varint (groups 9 v ++ rest) ≡ ok (v, rest)
read_varint-groups v rest h = rw (write_varint-groups [] v h) at (read_varint-write_varint v rest h)

read_exact-append : (b rest : List ℕ) → read_exact (length b) (b ++ rest) ≡ ok (b, rest)
unfolding read_exact
read_exact-append b rest =
    ground (arith, length-append b rest, take-append b rest, drop-append b rest)

read_payload_varint :
    (v : ℕ) (rest : List ℕ) → IsU64 v → read_payload 0 (groups 9 v ++ rest) ≡ ok (groups 9 v, rest)
unfolding read_payload
read_payload_varint v rest h = rw (read_varint-groups v rest h, write_varint-groups [] v h)

alloc_fits : (n : ℕ) → n < 2 ^ 63 → alloc n ≡ ok tt
unfolding alloc
alloc_fits n h = ground arith

read_payload_delimited :
    (b rest : List ℕ)
    → length b < 2 ^ 63
    → read_payload 2 (groups 9 (length b) ++ (b ++ rest)) ≡ ok (b, rest)
unfolding read_payload
read_payload_delimited b rest h = rw (
  read_varint-groups (length b) (b ++ rest) (omega arith),
  alloc_fits (length b) h,
  read_exact-append b rest,
)

-- One round behind a tag.
pub parse_field_tag :
    (n w : ℕ) (buf : List ℕ)
    → n < 2 ^ 32
    → w < 8
    → parse_field (groups 9 (n * 8 + w) ++ buf) ≡ (do
      (payload, rest) ← read_payload w buf
      ok (record { number = n; wire_type = w; payload = payload }, rest))
unfolding parse_field
parse_field_tag n w buf hn hw = rw (read_varint-groups (n * 8 + w) buf (omega arith), wire, number)
  where
    wire : bit_and (n * 8 + w) 7 ≡ w
    wire = omega (arith, bit_and_seven (n * 8 + w))

    number : (n * 8 + w) / 2 ^ 3 % 2 ^ 32 ≡ n
    number = omega arith

parse_field_tagged :
    (n w : ℕ) (payload buf rest : List ℕ)
    → n < 2 ^ 32
    → w < 8
    → read_payload w buf ≡ ok (payload, rest)
    → parse_field (groups 9 (n * 8 + w) ++ buf)
      ≡ ok (record { number = n; wire_type = w; payload = payload }, rest)
parse_field_tagged n w payload buf rest hn hw e = rw (parse_field_tag n w buf hn hw, e)

pub parse_field-item :
    (i : Item) (rest : List ℕ)
    → IsItem i
    → parse_field (item_bytes i ++ rest) ≡ ok (item_field i, rest)
parse_field-item (varint n v) rest (hn, hv) =
    rw (append_assoc, tag)
      (parse_field_tagged n 0 (groups 9 v) (groups 9 v ++ rest) rest hn (omega arith)
        (read_payload_varint v rest hv))
  where
    tag : n * 8 ≡ n * 8 + 0
    tag = omega arith
parse_field-item (delimited n b) rest (hn, hb) =
    rw (append_assoc (groups 9 (n * 8 + 2)), append_assoc (groups 9 (length b)))
      (parse_field_tagged n 2 b (groups 9 (length b) ++ (b ++ rest)) rest hn (omega arith)
        (read_payload_delimited b rest hb))

-- A round of the loop on a message that is not at its end.
pub parse_loop_step :
    (fuel : ℕ) (buf rest : List ℕ) (f : Field) (fields : List Field)
    → parse_field buf ≡ ok (f, rest)
    → 1 ≤ length buf
    → parse_loop (suc fuel) buf fields ≡ parse_loop fuel rest (fields ++ f ∷ [])
unfolding parse_loop
parse_loop_step fuel [] rest f fields e h = absurd (omega arith)
parse_loop_step fuel (b ∷ bs) rest f fields e h = rw e

pub length-item_bytes : (i : Item) → 1 ≤ length (item_bytes i)
length-item_bytes (varint n v) =
    omega (arith, length-append (groups 9 (n * 8)) (groups 9 v), length-groups 9 (n * 8))
length-item_bytes (delimited n b) = omega (
  arith,
  length-append (groups 9 (n * 8 + 2)) (groups 9 (length b) ++ b),
  length-groups 9 (n * 8 + 2),
)

parse_loop-items :
    (is : List Item) (fuel : ℕ) (fields : List Field)
    → All IsItem is
    → length (items_bytes is) ≤ fuel
    → parse_loop fuel (items_bytes is) fields ≡ ok (fields ++ map item_field is)
unfolding items_bytes
parse_loop-items [] fuel fields h f = rw append-nil (unfold parse_loop in refl)
parse_loop-items (i ∷ is) zero fields h f =
    absurd (omega (arith, length-item_bytes i, length-append (item_bytes i) (items_bytes is)))
parse_loop-items (i ∷ is) (suc fuel) fields (hi, his) f =
    parse_loop_step fuel _ (items_bytes is) (item_field i) fields
      (parse_field-item i (items_bytes is) hi)
      (omega (arith, length-item_bytes i, length-append (item_bytes i) (items_bytes is)))
    ∙ parse_loop-items is fuel (fields ++ item_field i ∷ []) his
        (omega (arith, length-item_bytes i, length-append (item_bytes i) (items_bytes is)))
    ∙ ap ok (append_assoc fields (item_field i ∷ []) (map item_field is))

-- Parsing what was written for items gives the field of each, in order, and no error.
pub parse_message-items :
    (is : List Item) → All IsItem is → parse_message (items_bytes is) ≡ ok (map item_field is)
unfolding parse_message
parse_message-items is h = parse_loop-items is (length (items_bytes is)) [] h (omega arith)
