-- ===== src/Main/Start.antt =====
-- src/main.rs: `real_main`, as the calls that it makes of the other parts and what it returns. What those calls
-- answer is an argument.
pub mod Order
use eternal_terminal_client.Base.{
  ℕ, zero, suc, ◌+◌, Bool, true, false, not, ◌&&◌, Option, none, some, List, [], ◌∷◌, ◌++◌, leb,
  if◌then◌else◌, Outcome, ok, err, panic, stuck, map_err,
}
use eternal_terminal_client.Client.{ClientOptions, SessionError}
use eternal_terminal_client.Host.{Destination, HostError}
use eternal_terminal_client.Main.{destination, connect_to}
use eternal_terminal_client.SshSetup.{SessionKeys, SshSetupOptions, SshError, codes}

pub record Cli : Type 0 where
  pub host : List ℕ
  pub username : Option (List ℕ)
  pub port : ℕ
  pub command : Option (List ℕ)
  pub noexit : Bool
  pub terminal_path : Option (List ℕ)
  pub macserver : Bool
  pub kill_other_sessions : Bool
  pub jumphost : Option (List ℕ)
  pub jport : ℕ
  pub keepalive : ℕ
  pub no_terminal : Bool
  pub verbose : ℕ
  pub ssh_option : List (List ℕ)
  pub server_fifo : Option (List ℕ)

pub data Level : Type 0 where
  warn info debug trace : Level

-- The level of `init_logging`, where the environment has none.
pub log_level : ℕ → Level
log_level zero = warn
log_level (suc zero) = info
log_level (suc (suc zero)) = debug
log_level (suc (suc (suc n))) = trace

-- The `anyhow::Error` of `real_main`.
pub data MainError : Type 0 where
  host : HostError → MainError
  unreachable : MainError
  ssh : SshError → MainError
  no_connection : MainError
  session : SessionError → MainError

-- The calls: `ping_server`, `setup_ssh`, `conn.connect` of a connection with its address and keys, `sleep`,
-- `run_session` and `conn.shutdown`.
pub data Call : Type 0 where
  ping_server : List ℕ → ℕ → Call
  setup_ssh : SshSetupOptions → Call
  connect : List ℕ → ℕ → SessionKeys → Call
  sleep : Call
  run_session : ClientOptions → Call
  shutdown : Call

abbrev has : Option (List ℕ) → Bool
has none = false
has (some path) = true

abbrev pub etterminal_path : Cli → Option (List ℕ)
etterminal_path cli =
    if cli.macserver && not (has cli.terminal_path)
    then some (codes "/usr/local/bin/etterminal")
    else cli.terminal_path

abbrev pub ssh_options : Cli → Destination → SshSetupOptions
ssh_options cli dest = record {
  user = dest.user;
  host_alias = dest.host_alias;
  kill_other_sessions = cli.kill_other_sessions;
  verbose = cli.verbose;
  etterminal_path = etterminal_path cli;
  server_fifo = cli.server_fifo;
  ssh_options = cli.ssh_option;
  jumphost = cli.jumphost;
}

abbrev pub client_options : Cli → Bool → ClientOptions
client_options cli jumphost_mode = record {
  command = cli.command;
  no_exit = cli.noexit;
  keepalive_secs = cli.keepalive;
  jumphost = jumphost_mode;
  no_terminal = cli.no_terminal;
}

abbrev pub Run : Type 0
Run = List Call × Outcome MainError (Unit {0})

abbrev pub before : List Call → Run → Run
before calls (calls', end) = (calls ++ calls', end)

-- The loop, with the answers of `connect`; where they end, the last call has not returned.
unfoldable pub connect_loop : Call → (attempts : ℕ) → List Bool → (Unit {0} → Run) → Run
connect_loop call attempts [] next = (call ∷ [], stuck)
connect_loop call attempts (true ∷ answers) next = before (call ∷ []) (next tt)
connect_loop call attempts (false ∷ answers) next =
    let again = connect_loop call (attempts + 1) answers next in
    if leb 3 (attempts + 1)
    then (call ∷ [], err no_connection)
    else before (call ∷ sleep ∷ []) again

-- What the other parts answer.
pub record Answers : Type 0 where
  pub local_name : List ℕ
  pub reachable : Bool
  pub keys : Outcome SshError SessionKeys
  pub connects : List Bool
  pub ended : Outcome SessionError (Unit {0})

-- What is behind `run_session`, which a panic skips.
abbrev pub shut_down : Outcome SessionError (Unit {0}) → List Call
shut_down (ok _) = shutdown ∷ []
shut_down (err e) = shutdown ∷ []
shut_down panic = []
shut_down stuck = []

-- The connection is dropped where `real_main` ends, also in a panic: its `Drop` calls `shutdown`.
abbrev pub dropped : Outcome MainError (Unit {0}) → List Call
dropped (ok _) = shutdown ∷ []
dropped (err e) = shutdown ∷ []
dropped panic = shutdown ∷ []
dropped stuck = []

abbrev pub and_drop : Run → Run
and_drop (calls, end) = (calls ++ dropped end, end)

abbrev with_session : Cli → Answers → Bool → Run
with_session cli answers jumphost_mode = (
  run_session (client_options cli jumphost_mode) ∷ shut_down answers.ended,
  map_err session answers.ended,
)

abbrev pub with_keys : Cli → Answers → List ℕ × ℕ × Bool → Outcome SshError SessionKeys → Run
with_keys cli answers (connect_host, connect_port, jumphost_mode) (ok keys) = and_drop (
    connect_loop (connect connect_host connect_port keys) 0 answers.connects
      (λ _. with_session cli answers jumphost_mode))
with_keys cli answers to (err e) = ([], err (ssh e))
with_keys cli answers to panic = ([], panic)
with_keys cli answers to stuck = ([], stuck)

abbrev pub with_server : Cli → Answers → Destination → List ℕ × ℕ × Bool → Run
with_server cli answers dest (connect_host, connect_port, jumphost_mode) =
    before (ping_server connect_host connect_port ∷ []) (
      if answers.reachable
      then before (setup_ssh (ssh_options cli dest) ∷ [])
          (with_keys cli answers (connect_host, connect_port, jumphost_mode) answers.keys)
      else ([], err unreachable))

abbrev pub with_destination : Cli → Answers → Outcome HostError Destination → Run
with_destination cli answers (ok dest) =
    with_server cli answers dest (connect_to cli.jumphost cli.jport dest)
with_destination cli answers (err e) = ([], err (host e))
with_destination cli answers panic = ([], panic)
with_destination cli answers stuck = ([], stuck)

unfoldable pub real_main : Cli → Answers → Run
real_main cli answers =
    with_destination cli answers (destination cli.host cli.username cli.port answers.local_name)
