-- ===== src/SshSetup.antt =====
-- src/ssh_setup.rs. A string is the list of its characters here: `get` counts their bytes and `trim`
-- looks at the characters. The child process is what `spawn` gives.
use Prim.Native.Char.{code}
use Prim.Native.String.{String}
use mathlib.Core.List.{reverse}
use eternal_terminal_client.Base.{
  ℕ, zero, suc, ◌+◌, ◌-◌, ◌/◌, ◌%◌, Bool, true, false, not, ◌&&◌, ◌||◌, Option, none, some, List,
  [], ◌∷◌, ◌++◌, map, length, take, drop, ltb, leb, ◌==◌, if◌then◌else◌, Outcome, ok, err, panic,
  ◌>>=◌,
}
use eternal_terminal_client.Host.{split_first}
pub mod Find
pub mod Parse
pub mod Setup

abbrev pub codes : String → List ℕ
codes String.[] = []
codes (String.◌∷◌ c s) = code c ∷ codes s

pub record SessionKeys : Type 0 where
  pub id : List ℕ
  pub passkey : List ℕ

pub record SshSetupOptions : Type 0 where
  pub user : List ℕ
  pub host_alias : List ℕ
  pub kill_other_sessions : Bool
  pub verbose : ℕ
  pub etterminal_path : Option (List ℕ)
  pub server_fifo : Option (List ℕ)
  pub ssh_options : List (List ℕ)
  pub jumphost : Option (List ℕ)

-- The messages of the `anyhow::Error`s.
pub data SshError : Type 0 where
  spawn_failed : SshError
  io_failed : SshError
  ssh_exited : SshError
  no_output : SshError
  no_idpasskey : List ℕ → SshError
  truncated_idpasskey : SshError
  missing_passkey : SshError
  missing_keys : SshError

-- `ALPHANUM[i]`, for the random indices below 62.
letter : ℕ → ℕ
letter i = if ltb i 10 then b'0' + i else if ltb i 36 then b'A' + (i - 10) else b'a' + (i - 36)

pub gen_random_alphanum : List ℕ → List ℕ
gen_random_alphanum = map letter

-- `id_bytes[0]` to `id_bytes[2]`
pub mark_id : List ℕ → Outcome SshError (List ℕ)
mark_id (a ∷ b ∷ c ∷ cs) = ok (b'X' ∷ b'X' ∷ b'X' ∷ cs)
mark_id [] = panic
mark_id (a ∷ []) = panic
mark_id (a ∷ b ∷ []) = panic

-- A `u8` in decimal.
decimal : ℕ → List ℕ
decimal n =
    if ltb n 10
    then (b'0' + n) ∷ []
    else if ltb n 100
    then (b'0' + n / 10) ∷ (b'0' + n % 10) ∷ []
    else (b'0' + n / 100) ∷ (b'0' + n / 10 % 10) ∷ (b'0' + n % 10) ∷ []

unwrap_or : Option (List ℕ) → List ℕ → List ℕ
unwrap_or none s = s
unwrap_or (some t) s = t

server_fifo_option : Option (List ℕ) → List ℕ
server_fifo_option none = []
server_fifo_option (some fifo) = codes " --serverfifo=" ++ fifo

kill_cmd : Bool → List ℕ → List ℕ
kill_cmd true user = codes "pkill etterminal -u " ++ user ++ codes "; sleep 0.5; "
kill_cmd false user = []

pub remote_cmd : SshSetupOptions → (id passkey term : List ℕ) → List ℕ
remote_cmd opts id passkey term =
    kill_cmd opts.kill_other_sessions opts.user
    ++ codes "echo '"
    ++ id
    ++ codes "/"
    ++ passkey
    ++ codes "_"
    ++ term
    ++ codes "' | "
    ++ unwrap_or opts.etterminal_path (codes "etterminal")
    ++ codes " "
    ++ codes "--verbose="
    ++ decimal opts.verbose
    ++ server_fifo_option opts.server_fifo

jump_args : Option (List ℕ) → List (List ℕ)
jump_args none = []
jump_args (some jump) = codes "-J" ∷ jump ∷ []

ssh_dest : List ℕ → List ℕ → List ℕ
ssh_dest [] host_alias = host_alias
ssh_dest (c ∷ user) host_alias = (c ∷ user) ++ codes "@" ++ host_alias

pub ssh_args : SshSetupOptions → List ℕ → List (List ℕ)
ssh_args opts cmd =
    jump_args opts.jumphost
    ++ ssh_dest opts.user opts.host_alias ∷ map (λ opt. codes "-o" ++ opt) opts.ssh_options
    ++ cmd ∷ []

-- The child: what `read_to_string` gives of its output, and whether it succeeds, as `wait` says.
pub record Child : Type 0 where
  pub stdout : Option (List ℕ)
  pub status : Option Bool

pub is_empty : List ℕ → Bool
is_empty [] = true
is_empty (c ∷ cs) = false

collect : Option (List ℕ) → Option Bool → Outcome SshError (List ℕ)
collect none status = err io_failed
collect (some stdout) none = err io_failed
collect (some stdout) (some success) =
    if not success && is_empty stdout then err ssh_exited else ok stdout

collect_child : Option Child → Outcome SshError (List ℕ)
collect_child none = err spawn_failed
collect_child (some child) = collect child.stdout child.status

pub run_ssh_interactive : (List (List ℕ) → Option Child) → List (List ℕ) → Outcome SshError (List ℕ)
run_ssh_interactive spawn args = collect_child (spawn args)

-- `char::is_whitespace`
pub is_whitespace : ℕ → Bool
is_whitespace c =
    leb 9 c && leb c 13
    || c == 0x20
    || c == 0x85
    || c == 0xa0
    || c == 0x1680
    || leb 0x2000 c && leb c 0x200a
    || c == 0x2028
    || c == 0x2029
    || c == 0x202f
    || c == 0x205f
    || c == 0x3000

trim_start : List ℕ → List ℕ
trim_start [] = []
trim_start (c ∷ cs) = let rest = trim_start cs in if is_whitespace c then rest else c ∷ cs

pub trim : List ℕ → List ℕ
trim cs = reverse (trim_start (reverse (trim_start cs)))

unfoldable pub is_ascii_alphanumeric : ℕ → Bool
is_ascii_alphanumeric c =
    leb b'0' c && leb c b'9' || leb b'A' c && leb c b'Z' || leb b'a' c && leb c b'z'

pub alphanumerics : List ℕ → List ℕ
alphanumerics [] = []
alphanumerics (c ∷ cs) =
    let rest = alphanumerics cs in if is_ascii_alphanumeric c then c ∷ rest else rest

pub starts_with : List ℕ → List ℕ → Bool
starts_with [] s = true
starts_with (p ∷ ps) [] = false
starts_with (p ∷ ps) (c ∷ s) = (p == c) && starts_with ps s

-- `find`, and what stands behind the found text.
pub find : List ℕ → List ℕ → Option (List ℕ)
find p [] = none
find p (c ∷ s) =
    let rest = find p s in if starts_with p (c ∷ s) then some (drop (length p) (c ∷ s)) else rest

len_utf8 : ℕ → ℕ
len_utf8 c = if ltb c 0x80 then 1 else if ltb c 0x800 then 2 else if ltb c 0x10000 then 3 else 4

-- `get(..n)`: none if the text is shorter, or the end is inside a character.
pub get_bytes : ℕ → List ℕ → Option (List ℕ)
get_bytes zero s = some []
get_bytes (suc n) [] = none
get_bytes (suc n) (c ∷ s) = elim (get_bytes (suc n - len_utf8 c) s) [
  | none ↦ none
  | some front ↦ if leb (len_utf8 c) (suc n) then some (c ∷ front) else none
]

abbrev pub marker : List ℕ
marker = codes "IDPASSKEY:"

id_and_passkey : Option (List ℕ × List ℕ) → Outcome SshError (List ℕ × List ℕ)
id_and_passkey none = err missing_passkey
id_and_passkey (some (id, passkey)) = ok (id, take 32 (alphanumerics (trim passkey)))

payload : Option (List ℕ) → Outcome SshError (List ℕ × List ℕ)
payload none = err truncated_idpasskey
payload (some slice) = id_and_passkey (split_first b'/' slice)

after_marker : Option (List ℕ) → List ℕ → Outcome SshError (List ℕ × List ℕ)
after_marker none ssh_buffer = err (no_idpasskey ssh_buffer)
after_marker (some rest) ssh_buffer = payload (get_bytes (16 + 1 + 32) rest)

pub parse_idpasskey : List ℕ → Outcome SshError (List ℕ × List ℕ)
parse_idpasskey ssh_buffer = after_marker (find marker ssh_buffer) ssh_buffer

session_keys : List ℕ × List ℕ → Outcome SshError SessionKeys
session_keys (id, passkey) =
    if is_empty id || is_empty passkey
    then err missing_keys
    else ok (record { id = id; passkey = passkey })

keys_of : List ℕ → Outcome SshError SessionKeys
keys_of output =
    if is_empty (trim output) then err no_output else parse_idpasskey output >>= session_keys

-- With the random indices of the id and the passkey, and the name that `client_term` returns.
pub setup_ssh :
    (List (List ℕ) → Option Child)
    → (id_indices passkey_indices term : List ℕ) → SshSetupOptions
    → Outcome SshError SessionKeys
setup_ssh spawn id_indices passkey_indices term opts = do
  id ← mark_id (gen_random_alphanum id_indices)
  output ←
      run_ssh_interactive spawn
        (ssh_args opts (remote_cmd opts id (gen_random_alphanum passkey_indices) term))
  keys_of output
