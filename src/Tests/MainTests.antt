-- ===== src/Tests/MainTests.antt =====
-- src/main.rs with a server that answers the second attempt.
use eternal_terminal_client.Base.{
  ℕ, ◌≤◌, ◌≡◌, inl, refl, true, false, none, List, [], ◌∷◌, ◌++◌, Bool, replicate, ok, err, map_err,
}
use eternal_terminal_client.Host.{Destination, count_of}
use eternal_terminal_client.Host.Parse.{found}
use eternal_terminal_client.Main.{destination}
use eternal_terminal_client.Main.Port.{destination_port}
use eternal_terminal_client.SshSetup.{SessionKeys, SshError}
use eternal_terminal_client.Main.Start.{
  Cli, Answers, ping_server, setup_ssh, connect, run_session, shutdown, unreachable, ssh,
  no_connection, session, ssh_options, client_options, real_main,
}
use eternal_terminal_client.Main.Start.Order.{failed_attempts, real_main_lem}
use eternal_terminal_client.Tests.HostTests.{port_text, port_number}

abbrev cli : Cli
cli = record {
  host = b'm' ∷ [] ++ b'@' ∷ (b'h' ∷ [] ++ b':' ∷ port_text);
  username = none;
  port = 22;
  command = none;
  noexit = false;
  terminal_path = none;
  macserver = false;
  kill_other_sessions = false;
  jumphost = none;
  jport = 2022;
  keepalive = 5;
  no_terminal = false;
  verbose = 0;
  ssh_option = [];
  server_fifo = none;
}

abbrev keys : SessionKeys
keys = record { id = replicate 16 b'X'; passkey = replicate 32 b'k' }

abbrev answers : Answers
answers = record {
  local_name = b'x' ∷ [];
  reachable = true;
  keys = ok keys;
  connects = false ∷ true ∷ [];
  ended = ok tt;
}

abbrev dest : Destination
dest = found (b'm' ∷ []) (b'h' ∷ []) 2022

parsed : destination cli.host none 22 answers.local_name ≡ ok dest
unfolding count_of
parsed =
    (destination_port none 22 (b'x' ∷ []) b'm' [] (b'h' ∷ []) port_text 2022 (refl, tt)
        port_number).0
      (refl, tt) (inl refl)

real_main_lem_example :
    (answers.reachable ≡ false
      → real_main cli answers ≡ (ping_server (b'h' ∷ []) 2022 ∷ [], err unreachable))
    × ((e : SshError)
        → answers.reachable ≡ true
        → answers.keys ≡ err e
        → real_main cli answers
          ≡ (ping_server (b'h' ∷ []) 2022 ∷ setup_ssh (ssh_options cli dest) ∷ [], err (ssh e)))
    × ((keys : SessionKeys) (k : ℕ) (rest : List Bool)
        → answers.reachable ≡ true
        → answers.keys ≡ ok keys
        → k ≤ 2
        → answers.connects ≡ replicate k false ++ true ∷ rest
        → real_main cli answers ≡ (
          ping_server (b'h' ∷ []) 2022
              ∷ setup_ssh (ssh_options cli dest)
              ∷ ((failed_attempts k (connect (b'h' ∷ []) 2022 keys)
                    ++ connect (b'h' ∷ []) 2022 keys ∷ [])
                  ++ run_session (client_options cli false) ∷ shutdown ∷ shutdown ∷ []),
          map_err session answers.ended,
        ))
    × ((keys : SessionKeys) (rest : List Bool)
        → answers.reachable ≡ true
        → answers.keys ≡ ok keys
        → answers.connects ≡ false ∷ false ∷ false ∷ rest
        → real_main cli answers ≡ (
          ping_server (b'h' ∷ []) 2022
              ∷ setup_ssh (ssh_options cli dest)
              ∷ (failed_attempts 2 (connect (b'h' ∷ []) 2022 keys)
                  ++ connect (b'h' ∷ []) 2022 keys ∷ shutdown ∷ []),
          err no_connection,
        ))
real_main_lem_example = real_main_lem cli answers dest parsed
