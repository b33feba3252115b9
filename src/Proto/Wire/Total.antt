-- ===== src/Proto/Wire/Total.antt =====
-- `parse_message` on any bytes: it ends, what its fields look like, and the panic that a declared
-- length can cause.
use eternal_terminal_client.Base.{
  ℕ, zero, suc, ◌+◌, ◌^◌, ◌≤◌, ◌<◌, ◌≡◌, inl, inr, Bool-cases, List, [], ◌∷◌, ◌++◌, arith, ok, err,
  panic, stuck, ◌>>=◌, length, length-drop, length-take_of_le, All, All-append, bit_and, take, drop,
  ltb, ◌==◌,
}
use eternal_terminal_client.Proto.Error.{ProtoError, io, invalid_wire_type, Result}
use eternal_terminal_client.Proto.Varint.{IsU64, read_varint, write_varint}
use eternal_terminal_client.Proto.Varint.Groups.{groups, write_varint-groups}
use eternal_terminal_client.Proto.Varint.Bounds.{
  value, short, long, read_varint-cases, read_varint_takes, read_varint-IsU64,
}
use eternal_terminal_client.Proto.Wire.{
  Field, read_exact, alloc, read_payload, parse_field, parse_loop, parse_message,
}

-- A payload as its wire type wants it: a number in its shortest form, eight bytes, any bytes, or
-- four bytes.
pub data IsPayload (w : ℕ) (b : List ℕ) : Type 0 where
  number : (v : ℕ) → w ≡ 0 → IsU64 v → b ≡ groups 9 v → IsPayload w b
  eight : w ≡ 1 → length b ≡ 8 → IsPayload w b
  any : w ≡ 2 → length b < 2 ^ 63 → IsPayload w b
  four : w ≡ 5 → length b ≡ 4 → IsPayload w b

abbrev pub IsParsed : Field → Type 0
IsParsed f = (f.number < 2 ^ 32) × IsPayload f.wire_type f.payload

-- What is known of a step of the parser that takes at least `k` bytes of `buf`.
data Parsed {A : Type 0} (P : A → Type 0) (k : ℕ) (buf : List ℕ)
    : Result (A × List ℕ) → Type 0 where
  done :
      (a : A) (rest : List ℕ) → P a → k + length rest ≤ length buf → Parsed P k buf (ok (a, rest))
  failed : (e : ProtoError) → Parsed P k buf (err e)
  panicked : Parsed P k buf panic

read_varint-Parsed : (buf : List ℕ) → Parsed IsU64 1 buf (read_varint buf)
read_varint-Parsed buf = elim (read_varint-cases buf) [
  | value v rest e ↦
      rw e (
        done v rest (read_varint-IsU64 buf v rest e)
          (omega (arith, read_varint_takes buf v rest e)))
  | short e ↦ rw e (failed _)
  | long e ↦ rw e (failed _)
]

read_exact-Parsed : (n : ℕ) (buf : List ℕ) → Parsed (λ b. length b ≡ n) 0 buf (read_exact n buf)
unfolding read_exact
read_exact-Parsed n buf = elim (Bool-cases (ltb (length buf) n)) [
  | inl e ↦ rw e (failed io)
  | inr e ↦ rw e (
      done (take n buf) (drop n buf) (length-take_of_le n buf (ground arith))
        (omega (arith, length-drop n buf)))
]

module _ {A : Type 0} {P Q : A → Type 0} (j k : ℕ) (buf : List ℕ) where
  -- A weaker claim of the same step.
  weaken :
      (r : Result (A × List ℕ))
      → ((a : A) → P a → Q a)
      → j ≤ k
      → Parsed P k buf r
      → Parsed Q j buf r
  weaken _ f h (done a rest p q) = done a rest (f a p) (omega arith)
  weaken _ f h (failed e) = failed e
  weaken _ f h panicked = panicked

-- A step behind a step.
bind-Parsed :
    {A B : Type 0} (P : A → Type 0) (Q : B → Type 0) (j k : ℕ) (buf : List ℕ)
    (m : Result (A × List ℕ)) (f : A × List ℕ → Result (B × List ℕ))
    → Parsed P j buf m
    → ((a : A) (rest : List ℕ) → P a → Parsed Q k rest (f (a, rest)))
    → Parsed Q (j + k) buf (m >>= f)
bind-Parsed P Q j k buf _ f (done a rest p h) g = closer (f (a, rest)) (g a rest p)
  where
    closer : (r : Result (_ × List ℕ)) → Parsed Q k rest r → Parsed Q (j + k) buf r
    closer _ (done b rest' q h') = done b rest' q (omega arith)
    closer _ (failed e) = failed e
    closer _ panicked = panicked
bind-Parsed P Q j k buf _ f (failed e) g = failed e
bind-Parsed P Q j k buf _ f panicked g = panicked

number-IsPayload :
    (w : ℕ) (buf : List ℕ)
    → w ≡ 0
    → Parsed (IsPayload w) 0 buf (do (v, rest) ← read_varint buf; ok (write_varint [] v, rest))
number-IsPayload w buf e =
    weaken 0 1 buf _ (λ _ h. h) (omega arith)
      (bind-Parsed IsU64 (IsPayload w) 1 0 buf (read_varint buf) _ (read_varint-Parsed buf)
        (λ v rest h. done _ rest (number v e h (write_varint-groups [] v h)) (omega arith)))

any-IsPayload :
    (w : ℕ) (buf : List ℕ)
    → w ≡ 2
    → Parsed
        (IsPayload w)
        0
        buf
        (do (len, rest) ← read_varint buf; _ ← alloc len; read_exact len rest)
any-IsPayload w buf e =
    weaken 0 1 buf _ (λ _ h. h) (omega arith)
      (bind-Parsed IsU64 (IsPayload w) 1 0 buf (read_varint buf) _ (read_varint-Parsed buf)
        (λ len rest h. allocated len rest))
  where
    allocated :
        (len : ℕ) (rest : List ℕ)
        → Parsed (IsPayload w) 0 rest (do _ ← alloc len; read_exact len rest)
    allocated len rest =
        unfold alloc in
        elim (Bool-cases (ltb len (2 ^ 63))) [
          | inl t ↦ rw t (
              weaken 0 0 rest _ (λ b q. any e (ground arith)) (omega arith)
                (read_exact-Parsed len rest))
          | inr t ↦ rw t panicked
        ]

-- Each wire type reads a payload of its own kind, or fails.
read_payload-Parsed : (w : ℕ) (buf : List ℕ) → Parsed (IsPayload w) 0 buf (read_payload w buf)
unfolding read_payload
read_payload-Parsed w buf = elim (Bool-cases (w == 0)) [
  | inl e ↦ rw e (number-IsPayload w buf (ground arith))
  | inr e ↦ rw e (elim (Bool-cases (w == 1)) [
    | inl f ↦
        rw f
          (weaken 0 0 buf _ (λ b q. eight (ground arith) q) (omega arith) (read_exact-Parsed 8 buf))
    | inr f ↦ rw f (elim (Bool-cases (w == 2)) [
      | inl g ↦ rw g (any-IsPayload w buf (ground arith))
      | inr g ↦ rw g (elim (Bool-cases (w == 5)) [
        | inl h ↦ rw h (
            weaken 0 0 buf _ (λ b q. four (ground arith) q) (omega arith) (read_exact-Parsed 4 buf))
        | inr h ↦ rw h (failed invalid_wire_type)
      ])
    ])
  ])
]

parse_field-Parsed : (buf : List ℕ) → Parsed IsParsed 1 buf (parse_field buf)
unfolding parse_field
parse_field-Parsed buf =
    bind-Parsed IsU64 IsParsed 1 0 buf (read_varint buf) _ (read_varint-Parsed buf) (λ tag rest _.
      bind-Parsed (IsPayload (bit_and tag 7)) IsParsed 0 0 rest (read_payload (bit_and tag 7) rest)
        _ (read_payload-Parsed (bit_and tag 7) rest)
        (λ b rest' p. done _ rest' (omega arith, p) (omega arith)))

-- What is known of a whole parse: it is not stuck, and its fields are well formed.
abbrev pub IsParse : Result (List Field) → Type 0
IsParse (ok fs) = All IsParsed fs
IsParse (err e) = Unit
IsParse panic = Unit
IsParse stuck = ⊥

parse_loop-IsParse :
    (fuel : ℕ) (buf : List ℕ) (fields : List Field)
    → All IsParsed fields
    → length buf ≤ fuel
    → IsParse (parse_loop fuel buf fields)
unfolding parse_loop
parse_loop-IsParse fuel [] fields h f = h
parse_loop-IsParse zero (b ∷ bs) fields h f = absurd (omega arith)
parse_loop-IsParse (suc fuel) (b ∷ bs) fields h f =
    after (parse_field (b ∷ bs)) (parse_field-Parsed (b ∷ bs)) (λ x rest p q.
      parse_loop-IsParse fuel rest (fields ++ x ∷ [])
        (All-append IsParsed fields (x ∷ []) h (p, tt)) (omega arith))
  where
    after :
        (r : Result (Field × List ℕ))
        → Parsed IsParsed 1 (b ∷ bs) r
        → ((x : Field) (rest : List ℕ)
            → IsParsed x
            → 1 + length rest ≤ length (b ∷ bs)
            → IsParse (parse_loop fuel rest (fields ++ x ∷ [])))
        → IsParse (do (x, rest) ← r; parse_loop fuel rest (fields ++ x ∷ []))
    after _ (done (x) rest p q) go = go x rest p q
    after _ (failed e) go = tt
    after _ panicked go = tt

-- On any bytes `parse_message` ends within its fuel: it returns fields, an error or a panic. In
-- every field that it returns the number is a `u32`, and the payload fits the wire type: a number in
-- its shortest form, eight bytes, at most `isize::MAX` bytes, or four bytes.
pub parse_message_total : (buf : List ℕ) → IsParse (parse_message buf)
unfolding parse_message
parse_message_total buf = parse_loop-IsParse (length buf) buf [] tt (omega arith)
