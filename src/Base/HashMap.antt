-- ===== src/Base/HashMap.antt =====
-- `HashMap<String, String>` as the list of its entries in the order of iteration; a string is its
-- bytes. A new key goes to the end, an old one keeps its place.
use Prim.Native.Nat.{ℕ}
use mathlib.Core.Path.{◌≡◌, refl, ap, ◌∙◌}
use mathlib.Core.Bool.{Bool, true, false, ◌&&◌}
use mathlib.Core.List.{List, [], ◌∷◌, ◌++◌, foldl, append-nil, append_assoc}
use eternal_terminal_client.Base.Tests.{◌==◌, if◌then◌else◌}
use eternal_terminal_client.Base.Lists.{All, All-append}

abbrev pub Entries : Type 0
Entries = List (List ℕ × List ℕ)

unfoldable pub bytes_eq : List ℕ → List ℕ → Bool
bytes_eq [] [] = true
bytes_eq [] (b ∷ bs) = false
bytes_eq (a ∷ xs) [] = false
bytes_eq (a ∷ xs) (b ∷ bs) = a == b && bytes_eq xs bs

unfoldable pub insert : List ℕ → List ℕ → Entries → Entries
insert k v [] = (k, v) ∷ []
insert k v ((j, w) ∷ m) = if bytes_eq j k then (j, v) ∷ m else (j, w) ∷ insert k v m

-- `k` is no key of `m`.
abbrev pub IsFresh : List ℕ → Entries → Type 0
IsFresh k m = All (λ e. bytes_eq e.0 k ≡ false) m

-- No two entries have one key.
abbrev pub HasDistinctKeys : Entries → Type 0
HasDistinctKeys [] = Unit
HasDistinctKeys ((k, v) ∷ m) = All (λ e. bytes_eq k e.0 ≡ false) m × HasDistinctKeys m

pub insert-IsFresh : (k v : List ℕ) (m : Entries) → IsFresh k m → insert k v m ≡ m ++ (k, v) ∷ []
unfolding insert
insert-IsFresh k v [] h = refl
insert-IsFresh k v ((j, w) ∷ m) h = rw (h.0) (ap (λ t. (j, w) ∷ t) (insert-IsFresh k v m h.1))

abbrev pub insert_all : Entries → Entries → Entries
insert_all m es = foldl (λ m e. insert e.0 e.1 m) m es

-- `k` of the first list is fresh in the second, for each `k`.
abbrev AllFresh : Entries → Entries → Type 0
AllFresh m es = All (λ e. IsFresh e.0 m) es

AllFresh-snoc :
    (m : Entries) (k v : List ℕ) (es : Entries)
    → AllFresh m es
    → All (λ e. bytes_eq k e.0 ≡ false) es
    → AllFresh (m ++ (k, v) ∷ []) es
AllFresh-snoc m k v [] h d = tt
AllFresh-snoc m k v (e ∷ es) h d =
    (All-append (λ x. bytes_eq x.0 e.0 ≡ false) m _ h.0 (d.0, tt), AllFresh-snoc m k v es h.1 d.1)

insert_all-append :
    (m es : Entries) → AllFresh m es → HasDistinctKeys es → insert_all m es ≡ m ++ es
insert_all-append m [] h d = rw (append-nil m)
insert_all-append m ((k, v) ∷ es) h d = rw (insert-IsFresh k v m h.0) (
    insert_all-append (m ++ (k, v) ∷ []) es (AllFresh-snoc m k v es h.1 d.0) d.1
    ∙ append_assoc m ((k, v) ∷ []) es)

AllFresh-in_nil : (es : Entries) → AllFresh [] es
AllFresh-in_nil [] = tt
AllFresh-in_nil (e ∷ es) = (tt, AllFresh-in_nil es)

-- Entries with distinct keys, inserted one by one into the empty map, come back in their order.
pub insert_all-HasDistinctKeys : (es : Entries) → HasDistinctKeys es → insert_all [] es ≡ es
insert_all-HasDistinctKeys es d = insert_all-append [] es (AllFresh-in_nil es) d
