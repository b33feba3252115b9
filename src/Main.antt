-- ===== src/Main.antt =====
-- src/main.rs: the host and the port that the client connects to.
pub mod Port
pub mod Start
use eternal_terminal_client.Base.{
  ℕ, ◌+◌, Bool, true, false, not, ◌&&◌, ◌||◌, Option, none, some, List, [], ◌∷◌, ◌++◌, leb, ◌==◌,
  if◌then◌else◌, Outcome, ok, err, ◌>>=◌,
}
use eternal_terminal_client.Host.{
  Destination, HostError, split_first, split_last, count_of, has_pair, parse_u16, parse_destination,
}

pub cli_host_has_explicit_port : List ℕ → Bool
cli_host_has_explicit_port host =
    let colons = count_of b':' host in
    if colons == 1 then true else if colons == 8 then true else false

-- `!cli.host.contains(':') || cli.host.matches(':').count() >= 2 && cli.host.contains("::")`
is_simple : List ℕ → Bool
is_simple host = (count_of b':' host == 0) || leb 2 (count_of b':' host) && has_pair b':' host

-- The port, after `-p` was applied again.
pub override_port : List ℕ → ℕ → Destination → Destination
unfolding is_simple
override_port host port dest =
    if is_simple host
    then if not (cli_host_has_explicit_port host) then record dest { et_port = port } else dest
    else if not (cli_host_has_explicit_port host)
    then record dest { et_port = port }
    else dest

-- The destination of `real_main`.
pub destination : List ℕ → Option (List ℕ) → ℕ → List ℕ → Outcome HostError Destination
destination host username port local_name = do
  dest ← parse_destination host username port local_name
  ok (override_port host port dest)

-- What stands behind the `@`.
behind_at : Option (List ℕ × List ℕ) → List ℕ → List ℕ
behind_at none s = s
behind_at (some (user, rest)) s = rest

abbrev is_port : Option ℕ → Bool
is_port none = false
is_port (some n) = true

without_port : Option (List ℕ × List ℕ) → List ℕ → List ℕ
without_port none s = s
without_port (some (host, port)) s = if is_port (parse_u16 port) then host else s

pub jump_hostname : List ℕ → List ℕ
unfolding behind_at without_port
jump_hostname jump =
    let s = behind_at (split_first b'@' jump) jump in
    if count_of b':' s == 1 then without_port (split_last b':' s) s else s

-- `(connect_host, connect_port, jumphost_mode)`
abbrev pub connect_to : Option (List ℕ) → ℕ → Destination → List ℕ × ℕ × Bool
connect_to none jport dest = (dest.host, dest.et_port, false)
connect_to (some jump) jport dest = (jump_hostname jump, jport, true)
