-- ===== src/Proto/Message.antt =====
-- The trait `ProtoMessage`, and what the `encode` functions share: `if let Some(..)` around a write,
-- and that it appends at most one item.
use mathlib.Core.Option
use mathlib.Core.List.{foldl}
use eternal_terminal_client.Base.{
  ℕ, ◌^◌, ◌<◌, ◌≡◌, refl, ◌∙◌, ap, Option, none, some, List, [], ◌∷◌, ◌++◌, append-nil,
  append_assoc, true, length, All, ok, map, err, panic, stuck, ◌>>=◌,
}
use eternal_terminal_client.Base.Int.{
  ℤ, IsI32, as_u64, u64_as_i32, u64_as_i32-as_u64, as_u64-lt, IsI32→IsI64,
}
use eternal_terminal_client.Base.Utf8.{is_utf8}
use eternal_terminal_client.Proto.Error.{Result}
use eternal_terminal_client.Proto.Varint.{IsU64}
use eternal_terminal_client.Proto.Varint.Groups.{groups}
use eternal_terminal_client.Proto.Wire.{
  write_string, write_bytes, write_int32, write_embedded, Field, field_as_string, field_as_bytes,
  field_as_varint, value_of,
}
use eternal_terminal_client.Proto.Wire.Items.{
  Item, varint, delimited, item_bytes, items_bytes, items_bytes-append, items_bytes_one, item_field,
  IsItem, write_string-item, write_bytes-item, write_int32-item, write_embedded-item,
}
use eternal_terminal_client.Proto.Wire.Parse.{read_varint-groups}

pub record ProtoMessage (M : Type 0) : Type 0 where
  pub encode : M → List ℕ
  pub decode : List ℕ → Result M

-- `if let Some(a) = o { .. }` around what changes `out`
abbrev pub if_some : {A : Type 0} → Option A → List ℕ → (A → List ℕ) → List ℕ
if_some none out f = out
if_some (some a) out f = f a

-- What a string of the program is: valid UTF-8 of at most `isize::MAX` bytes.
abbrev pub IsStr : List ℕ → Type 0
IsStr s = (is_utf8 s ≡ true) × (length s < 2 ^ 63)

abbrev pub IsVec : List ℕ → Type 0
IsVec b = length b < 2 ^ 63

abbrev pub AllSome {ℓ} : {A : Type 0} → (A → Type ℓ) → Option A → Type ℓ
AllSome P none = Unit
AllSome P (some a) = P a

abbrev pub opt : {A : Type 0} → (A → Item) → Option A → List Item
opt g none = []
opt g (some a) = g a ∷ []

pub opt-IsItem :
    {A : Type 0} (g : A → Item) (P : A → Type 0) (o : Option A)
    → ((a : A) → P a → IsItem (g a))
    → AllSome P o
    → All IsItem (opt g o)
opt-IsItem g P none f h = tt
opt-IsItem g P (some a) f h = (f a h, tt)

append_one :
    (is : List Item) (i : Item) (out out' : List ℕ)
    → out ≡ items_bytes is
    → out' ≡ out ++ item_bytes i
    → out' ≡ items_bytes (is ++ i ∷ [])
append_one is i out out' e f = f ∙ rw (e, items_bytes-append is (i ∷ []), items_bytes_one i)

foldl_items :
    {A : Type 0} (write : List ℕ → A → List ℕ) (g : A → Item) (P : A → Type 0)
    → ((out : List ℕ) (a : A) → P a → write out a ≡ out ++ item_bytes (g a))
    → (xs : List A) (out : List ℕ) (is : List Item) → out ≡ items_bytes is
    → All P xs
    → foldl write out xs ≡ items_bytes (is ++ map g xs)
foldl_items write g P w [] out is e h = rw (append-nil is) e
foldl_items write g P w (a ∷ xs) out is e h =
    foldl_items write g P w xs (write out a) (is ++ g a ∷ [])
      (append_one is (g a) out _ e (w out a h.0)) h.1
    ∙ ap items_bytes (append_assoc is (g a ∷ []) (map g xs))

pub map-IsItem :
    {A : Type 0} (g : A → Item) (P : A → Type 0) (xs : List A)
    → ((a : A) → P a → IsItem (g a))
    → All P xs
    → All IsItem (map g xs)
map-IsItem g P [] f h = tt
map-IsItem g P (a ∷ xs) f h = (f a h.0, map-IsItem g P xs f h.1)

module _ (out : List ℕ) (is : List Item) (n : ℕ) (fits : n < 2 ^ 32)
    (e : out ≡ items_bytes is) where
  pub if_some_string :
      (o : Option (List ℕ))
      → AllSome IsStr o
      → if_some o out (λ s. write_string out n s) ≡ items_bytes (is ++ opt (delimited n) o)
  if_some_string none h = rw (append-nil is) e
  if_some_string (some s) h =
      append_one is (delimited n s) out _ e (write_string-item out n fits s h.1)

  pub if_some_bytes :
      (o : Option (List ℕ))
      → AllSome IsVec o
      → if_some o out (λ s. write_bytes out n s) ≡ items_bytes (is ++ opt (delimited n) o)
  if_some_bytes none h = rw (append-nil is) e
  if_some_bytes (some s) h = append_one is (delimited n s) out _ e (write_bytes-item out n fits s h)

  pub if_some_int32 :
      (o : Option ℤ)
      → AllSome IsI32 o
      → if_some o out (λ v. write_int32 out n v)
        ≡ items_bytes (is ++ opt (λ v. varint n (as_u64 v)) o)
  if_some_int32 none h = rw (append-nil is) e
  if_some_int32 (some v) h =
      append_one is (varint n (as_u64 v)) out _ e
        (write_int32-item out n fits v (as_u64-lt v (IsI32→IsI64 v h)))

  -- An enumeration is written as the number of each of its values.
  pub if_some_number :
      {A : Type 0} (as_i32 : A → ℤ)
      → ((a : A) → IsU64 (as_u64 (as_i32 a)))
      → (o : Option A)
      → if_some o out (λ a. write_int32 out n (as_i32 a))
        ≡ items_bytes (is ++ opt (λ a. varint n (as_u64 (as_i32 a))) o)
  if_some_number as_i32 w none = rw (append-nil is) e
  if_some_number as_i32 w (some a) =
      append_one is (varint n (as_u64 (as_i32 a))) out _ e
        (write_int32-item out n fits (as_i32 a) (w a))

  pub if_some_embedded :
      {A : Type 0} (encode : A → List ℕ) (o : Option A)
      → AllSome (λ a. IsVec (encode a)) o
      → if_some o out (λ a. write_embedded out n (encode a))
        ≡ items_bytes (is ++ opt (λ a. delimited n (encode a)) o)
  if_some_embedded encode none h = rw (append-nil is) e
  if_some_embedded encode (some a) h =
      append_one is (delimited n (encode a)) out _ e (write_embedded-item out n fits (encode a) h)

  -- A loop that writes one item for each element.
  pub foldl_embedded :
      {A : Type 0} (encode : A → List ℕ) (xs : List A)
      → All (λ a. IsVec (encode a)) xs
      → foldl (λ out a. write_embedded out n (encode a)) out xs
        ≡ items_bytes (is ++ map (λ a. delimited n (encode a)) xs)
  foldl_embedded encode xs h =
      foldl_items (λ out a. write_embedded out n (encode a)) _ _
        (λ out a q. write_embedded-item out n fits (encode a) q) xs out is e h

  pub foldl_bytes :
      (bs : List (List ℕ))
      → All IsVec bs
      → foldl (λ out b. write_bytes out n b) out bs ≡ items_bytes (is ++ map (delimited n) bs)
  foldl_bytes bs h =
      foldl_items (λ out b. write_bytes out n b) _ _ (λ out b q. write_bytes-item out n fits b q) bs
        out is e h

-- The loop over the fields where a field can fail.
unfoldable pub fold_result : {M : Type 0} → (M → Field → Result M) → M → List Field → Result M
fold_result step msg [] = ok msg
fold_result step msg (f ∷ fs) = do msg' ← step msg f; fold_result step msg' fs

pub fold_result-append :
    {M : Type 0} (step : M → Field → Result M) (msg : M) (fs gs : List Field) (msg' : M)
    → fold_result step msg fs ≡ ok msg'
    → fold_result step msg (fs ++ gs) ≡ fold_result step msg' gs
unfolding fold_result
fold_result-append step msg [] gs msg' e = cc
fold_result-append {M} step msg (f ∷ fs) gs msg' e =
    after (step msg f) e (λ m q. fold_result-append step m fs gs msg' q)
  where
    after :
        (r : Result M)
        → (do m ← r; fold_result step m fs) ≡ ok msg'
        → ((m : M)
            → fold_result step m fs ≡ ok msg'
            → fold_result step m (fs ++ gs) ≡ fold_result step msg' gs)
        → (do m ← r; fold_result step m (fs ++ gs)) ≡ fold_result step msg' gs
    after (ok m) q go = go m q
    after (err x) q go = cc
    after panic q go = cc
    after stuck q go = cc

-- What the readers of a field make of an item.
pub field_as_string-item :
    (n : ℕ) (s : List ℕ) → IsStr s → field_as_string (item_field (delimited n s)) ≡ some s
unfolding field_as_string
field_as_string-item n s h = rw (h.0)

pub field_as_bytes-item :
    (n : ℕ) (b : List ℕ) → field_as_bytes (item_field (delimited n b)) ≡ some b
unfolding field_as_bytes
field_as_bytes-item n b = refl

pub field_as_varint-item : (n v : ℕ) → IsU64 v → field_as_varint (item_field (varint n v)) ≡ some v
unfolding field_as_varint
field_as_varint-item n v h =
    ap value_of (rw (append-nil (groups 9 v)) at (read_varint-groups v [] h))

-- A number that was written for an `i32` is read as that `i32`.
pub field_as_i32-item :
    (n : ℕ) (v : ℤ)
    → IsI32 v
    → Option.map u64_as_i32 (field_as_varint (item_field (varint n (as_u64 v)))) ≡ some v
field_as_i32-item n v h =
    rw (field_as_varint-item n (as_u64 v) (as_u64-lt v (IsI32→IsI64 v h)), u64_as_i32-as_u64 v h)
