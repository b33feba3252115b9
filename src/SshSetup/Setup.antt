-- ===== src/SshSetup/Setup.antt =====
-- `setup_ssh`: whose keys it returns.
use mathlib.Core.List.{reverse, reverse-append, reverse-cons}
use eternal_terminal_client.Base.{
  ℕ, suc, ◌≡◌, refl, ap, ◌∙◌, Bool, true, false, Option, some, List, [], ◌∷◌, ◌++◌, append_assoc,
  length, arith, if◌then◌else◌, ok,
}
use eternal_terminal_client.Host.Parse.{IsWithout}
use eternal_terminal_client.SshSetup.{
  SshSetupOptions, Child, gen_random_alphanum, mark_id, remote_cmd, ssh_args, is_empty, collect,
  collect_child, run_ssh_interactive, is_whitespace, trim_start, trim, codes, marker, session_keys,
  keys_of, setup_ssh,
}
use eternal_terminal_client.SshSetup.Find.{Contains}
use eternal_terminal_client.SshSetup.Parse.{IsAscii, IsAlphanumeric, parse_idpasskey_lem}

is_empty-append : (front : List ℕ) (c : ℕ) (back : List ℕ) → is_empty (front ++ c ∷ back) ≡ false
unfolding is_empty
is_empty-append [] c back = refl
is_empty-append (b ∷ front) c back = refl

-- Trimming stops at a character that is no space.
trim_start-stops :
    (front : List ℕ) (c : ℕ) (back : List ℕ)
    → is_whitespace c ≡ false
    → (kept : List ℕ) × (trim_start (front ++ c ∷ back) ≡ kept ++ c ∷ back)
unfolding trim_start
trim_start-stops [] c back h = ([], rw (h))
trim_start-stops (b ∷ front) c back h = by_test (is_whitespace b) (trim_start-stops front c back h)
  where
    by_test :
        (t : Bool)
        → (kept : List ℕ) × (trim_start (front ++ c ∷ back) ≡ kept ++ c ∷ back)
        → (kept : List ℕ) × ((if t then trim_start (front ++ c ∷ back) else b ∷ (front ++ c ∷ back))
            ≡ kept ++ c ∷ back)
    by_test true ih = ih
    by_test false ih = (b ∷ front, refl)

reverse-middle :
    (front : List ℕ) (c : ℕ) (back : List ℕ)
    → reverse (front ++ c ∷ back) ≡ reverse back ++ c ∷ reverse front
reverse-middle front c back =
    reverse-append front (c ∷ back)
    ∙ ap (λ t. t ++ reverse front) (reverse-cons c back)
    ∙ append_assoc (reverse back) (c ∷ []) (reverse front)

trim-nonempty :
    (front : List ℕ) (c : ℕ) (back : List ℕ)
    → is_whitespace c ≡ false
    → is_empty (trim (front ++ c ∷ back)) ≡ false
unfolding trim
trim-nonempty front c back h =
    let (kept, e) = trim_start-stops front c back h in
    let (kept', e') = trim_start-stops (reverse back) c (reverse kept) h in
    rw (e, reverse-middle kept c back, e', reverse-middle kept' c (reverse kept))
      (is_empty-append (reverse (reverse kept)) c (reverse kept'))

is_empty-length : (s : List ℕ) (n : ℕ) → length s ≡ suc n → is_empty s ≡ false
unfolding is_empty
is_empty-length [] n h = absurd (omega (arith, h))
is_empty-length (c ∷ s) n h = refl

run_ssh-output :
    (spawn : List (List ℕ) → Option Child) (args : List (List ℕ)) (out : List ℕ) (success : Bool)
    → spawn args ≡ some (record { stdout = some out; status = some success })
    → is_empty out ≡ false
    → run_ssh_interactive spawn args ≡ ok out
unfolding run_ssh_interactive collect_child collect
run_ssh-output spawn args out true e h = rw (e)
run_ssh-output spawn args out false e h = rw (e, h)

session_keys_lem :
    (id passkey : List ℕ)
    → is_empty id ≡ false
    → is_empty passkey ≡ false
    → session_keys (id, passkey) ≡ ok (record { id = id; passkey = passkey })
unfolding session_keys
session_keys_lem id passkey h k = rw (h, k)

module _ (noise id passkey rest : List ℕ) (fresh : ¬ Contains marker noise) (n : length id ≡ 16)
    (ascii : IsAscii id) (no_slash : IsWithout b'/' id) (m : length passkey ≡ 32)
    (alphanumeric : IsAlphanumeric passkey) where
  keys_of_lem :
      keys_of (noise ++ (marker ++ ((id ++ b'/' ∷ passkey) ++ rest)))
      ≡ ok (record { id = id; passkey = passkey })
  unfolding keys_of is_whitespace
  keys_of_lem =
      rw
        (
          trim-nonempty noise b'I' (codes "DPASSKEY:" ++ ((id ++ b'/' ∷ passkey) ++ rest)) refl,
          parse_idpasskey_lem noise id passkey rest fresh n ascii no_slash m alphanumeric,
        )
        (session_keys_lem id passkey (is_empty-length id 15 n) (is_empty-length passkey 31 m))

  -- When the child that `setup_ssh` starts with its arguments, its id with the mark XXX among them, prints
  -- anything without the marker, then the marker, an ASCII id of 16 characters without a slash, the slash and a
  -- passkey of 32 letters and digits, then `setup_ssh` returns that id and passkey, whatever is printed
  -- behind them, whether or not `ssh` succeeds, and not the id and passkey that it sent.
  pub setup_ssh_lem :
      (spawn : List (List ℕ) → Option Child) (a b c : ℕ) (id_indices passkey_indices term : List ℕ)
      (opts : SshSetupOptions) (success : Bool)
      → spawn (
          ssh_args opts (
            remote_cmd opts
              (b'X' ∷ b'X' ∷ b'X' ∷ gen_random_alphanum id_indices)
              (gen_random_alphanum passkey_indices)
              term))
        ≡ some (record {
          stdout = some (noise ++ (marker ++ ((id ++ b'/' ∷ passkey) ++ rest)));
          status = some success;
        })
      → setup_ssh spawn (a ∷ b ∷ c ∷ id_indices) passkey_indices term opts
        ≡ ok (record { id = id; passkey = passkey })
  unfolding setup_ssh mark_id gen_random_alphanum
  setup_ssh_lem spawn a b c id_indices passkey_indices term opts success e =
      rw
        (run_ssh-output spawn
          (ssh_args opts (
            remote_cmd opts (b'X' ∷ b'X' ∷ b'X' ∷ gen_random_alphanum id_indices)
              (gen_random_alphanum passkey_indices) term))
          (noise ++ (marker ++ ((id ++ b'/' ∷ passkey) ++ rest))) success e
          (is_empty-append noise b'I' (codes "DPASSKEY:" ++ ((id ++ b'/' ∷ passkey) ++ rest))))
        keys_of_lem
