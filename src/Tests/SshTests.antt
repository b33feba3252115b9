-- ===== src/Tests/SshTests.antt =====
-- src/ssh_setup.rs on the output of a server.
use eternal_terminal_client.Base.{
  ℕ, zero, suc, ◌≡◌, refl, true, none, some, List, [], ◌∷◌, ◌++◌, length, length-append, replicate,
  All, ltb, ◌==◌, false, ap, arith, ok,
}
use eternal_terminal_client.SshSetup.{
  SshSetupOptions, codes, is_ascii_alphanumeric, marker, setup_ssh,
}
use eternal_terminal_client.SshSetup.Find.{Contains}
use eternal_terminal_client.SshSetup.Setup.{setup_ssh_lem}

replicate-All : (P : ℕ → Type 0) (n c : ℕ) → P c → All P (replicate n c)
replicate-All P zero c h = tt
replicate-All P (suc n) c h = (h, replicate-All P n c h)

abbrev options : SshSetupOptions
options = record {
  user = codes "me";
  host_alias = codes "h";
  kill_other_sessions = true;
  verbose = 0;
  etterminal_path = none;
  server_fifo = none;
  ssh_options = [];
  jumphost = none;
}

abbrev banner : List ℕ
banner = codes "hi "

banner-Contains : ¬ Contains marker banner
unfolding Contains
banner-Contains (front, back, at) =
    absurd
      (omega (arith, ap length at, length-append front (marker ++ back), length-append marker back))

abbrev server_id : List ℕ
server_id = replicate 16 b'X'

abbrev server_passkey : List ℕ
server_passkey = replicate 32 b'k'

abbrev output : List ℕ
output = banner ++ (marker ++ ((server_id ++ b'/' ∷ server_passkey) ++ codes " bye"))

setup_ssh_lem_example :
    setup_ssh
      (λ args. some (record { stdout = some output; status = some true }))
      (1 ∷ 2 ∷ 3 ∷ 4 ∷ [])
      (5 ∷ 6 ∷ [])
      (codes "xterm")
      options
    ≡ ok (record { id = server_id; passkey = server_passkey })
unfolding is_ascii_alphanumeric
setup_ssh_lem_example =
    setup_ssh_lem banner server_id server_passkey (codes " bye") banner-Contains refl
      (replicate-All (λ c. ltb c 0x80 ≡ true) 16 b'X' refl)
      (replicate-All (λ c. (c == b'/') ≡ false) 16 b'X' refl) refl
      (replicate-All (λ c. is_ascii_alphanumeric c ≡ true) 32 b'k' refl)
      (λ args. some (record { stdout = some output; status = some true })) 1 2 3 (4 ∷ [])
      (5 ∷ 6 ∷ []) (codes "xterm") options true refl
