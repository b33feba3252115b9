-- ===== src/SshSetup/Parse.antt =====
-- `parse_idpasskey` of what `etterminal` prints.
use mathlib.Core.List.{reverse, reverse-cons, reverse-reverse}
use eternal_terminal_client.Base.{
  ℕ, suc, ◌-◌, ◌≡◌, refl, sym, ap, subst, ◌∙◌, true, false, none, some, List, [], ◌∷◌, ◌++◌, length,
  take, arith, ltb, leb, if◌then◌else◌, ok, err, All, All-append, length-append,
}
use eternal_terminal_client.Host.Parse.{IsWithout, split_first-append}
use eternal_terminal_client.SshSetup.{
  no_idpasskey, codes, is_whitespace, trim_start, trim, is_ascii_alphanumeric, alphanumerics,
  len_utf8, get_bytes, marker, id_and_passkey, payload, after_marker, parse_idpasskey,
}
use eternal_terminal_client.SshSetup.Find.{Contains, find-Contains, find-append}

abbrev pub IsAscii : List ℕ → Type 0
IsAscii = All (λ c. ltb c 0x80 ≡ true)

abbrev pub IsAlphanumeric : List ℕ → Type 0
IsAlphanumeric = All (λ c. is_ascii_alphanumeric c ≡ true)

is_whitespace-alphanumeric : (c : ℕ) → is_ascii_alphanumeric c ≡ true → is_whitespace c ≡ false
unfolding is_ascii_alphanumeric is_whitespace
is_whitespace-alphanumeric c h = ground arith

ascii-alphanumeric : (c : ℕ) → is_ascii_alphanumeric c ≡ true → ltb c 0x80 ≡ true
unfolding is_ascii_alphanumeric
ascii-alphanumeric c h = ground arith

IsAlphanumeric-IsAscii : (s : List ℕ) → IsAlphanumeric s → IsAscii s
IsAlphanumeric-IsAscii [] h = tt
IsAlphanumeric-IsAscii (c ∷ s) h = (ascii-alphanumeric c h.0, IsAlphanumeric-IsAscii s h.1)

reverse-IsAlphanumeric : (s : List ℕ) → IsAlphanumeric s → IsAlphanumeric (reverse s)
reverse-IsAlphanumeric [] h = tt
reverse-IsAlphanumeric (c ∷ s) h = subst IsAlphanumeric (sym (reverse-cons c s)) (
    All-append (λ c. is_ascii_alphanumeric c ≡ true) (reverse s) (c ∷ [])
      (reverse-IsAlphanumeric s h.1) (h.0, tt))

trim_start-alphanumeric : (s : List ℕ) → IsAlphanumeric s → trim_start s ≡ s
unfolding trim_start
trim_start-alphanumeric [] h = refl
trim_start-alphanumeric (c ∷ s) h = rw (is_whitespace-alphanumeric c h.0)

trim-alphanumeric : (s : List ℕ) → IsAlphanumeric s → trim s ≡ s
unfolding trim
trim-alphanumeric s h = rw (
  trim_start-alphanumeric s h,
  trim_start-alphanumeric (reverse s) (reverse-IsAlphanumeric s h),
  reverse-reverse s,
)

alphanumerics-IsAlphanumeric : (s : List ℕ) → IsAlphanumeric s → alphanumerics s ≡ s
unfolding alphanumerics
alphanumerics-IsAlphanumeric [] h = refl
alphanumerics-IsAlphanumeric (c ∷ s) h = rw (h.0, alphanumerics-IsAlphanumeric s h.1)

len_utf8-ascii : (c : ℕ) → ltb c 0x80 ≡ true → len_utf8 c ≡ 1
unfolding len_utf8
len_utf8-ascii c h = rw (h)

suc-sub_one : (n : ℕ) → suc n - 1 ≡ n
suc-sub_one n = omega arith

leb-one : (n : ℕ) → leb 1 (suc n) ≡ true
leb-one n = ground arith

get_bytes-step :
    (n c : ℕ) (s : List ℕ)
    → get_bytes (suc n) (c ∷ s) ≡ elim (get_bytes (suc n - len_utf8 c) s) [
      | none ↦ none
      | some front ↦ if leb (len_utf8 c) (suc n) then some (c ∷ front) else none
    ]
unfolding get_bytes
get_bytes-step n c s = refl

-- ASCII characters are counted one by one.
get_bytes-append : (s back : List ℕ) → IsAscii s → get_bytes (length s) (s ++ back) ≡ some s
unfolding get_bytes
get_bytes-append [] back h = refl
get_bytes-append (c ∷ s) back h =
    get_bytes-step (length s) c (s ++ back)
    ∙ rw (
      len_utf8-ascii c h.0,
      suc-sub_one (length s),
      get_bytes-append s back h.1,
      len_utf8-ascii c h.0,
      leb-one (length s),
    )

take-length : (s : List ℕ) → take (length s) s ≡ s
take-length [] = refl
take-length (c ∷ s) = ap (λ t. c ∷ t) (take-length s)

id_and_passkey_lem :
    (id passkey : List ℕ)
    → length passkey ≡ 32
    → IsAlphanumeric passkey
    → id_and_passkey (some (id, passkey)) ≡ ok (id, passkey)
unfolding id_and_passkey
id_and_passkey_lem id passkey n h =
    rw (trim-alphanumeric passkey h, alphanumerics-IsAlphanumeric passkey h, sym n)
      (ap (λ t. ok (id, t)) (take-length passkey))

-- Output without the marker is an error that quotes it.
pub parse_idpasskey-unmarked :
    (output : List ℕ)
    → ¬ Contains marker output
    → parse_idpasskey output ≡ err (no_idpasskey output)
unfolding parse_idpasskey after_marker
parse_idpasskey-unmarked output h = ap (λ r. after_marker r output) (find-Contains marker output h)

module _ (noise id passkey rest : List ℕ) (fresh : ¬ Contains marker noise) (n : length id ≡ 16)
    (ascii : IsAscii id) (no_slash : IsWithout b'/' id) (m : length passkey ≡ 32)
    (alphanumeric : IsAlphanumeric passkey) where
  abbrev printed : List ℕ
  printed = noise ++ (marker ++ ((id ++ b'/' ∷ passkey) ++ rest))

  cut : get_bytes 49 ((id ++ b'/' ∷ passkey) ++ rest) ≡ some (id ++ b'/' ∷ passkey)
  cut =
      subst (λ k. get_bytes k ((id ++ b'/' ∷ passkey) ++ rest) ≡ some (id ++ b'/' ∷ passkey))
        (omega (arith, length-append id (b'/' ∷ passkey), n, m))
        (get_bytes-append (id ++ b'/' ∷ passkey) rest (
          All-append (λ c. ltb c 0x80 ≡ true) id (b'/' ∷ passkey) ascii
            (refl, IsAlphanumeric-IsAscii passkey alphanumeric)))

  pub parse_idpasskey_lem : parse_idpasskey printed ≡ ok (id, passkey)
  unfolding parse_idpasskey after_marker payload
  parse_idpasskey_lem =
      ap (λ r. after_marker r printed)
        (find-append b'I' (codes "DPASSKEY:") noise ((id ++ b'/' ∷ passkey) ++ rest)
          (refl, (refl, (refl, (refl, (refl, (refl, (refl, (refl, (refl, tt))))))))) fresh)
      ∙ ap payload cut
      ∙ ap id_and_passkey (split_first-append b'/' id passkey no_slash)
      ∙ id_and_passkey_lem id passkey m alphanumeric
