-- ===== src/Host.antt =====
-- src/host.rs: `[user@]host[:port]`. A string is its bytes; the characters that the code looks for are
-- ASCII, so byte positions are character positions.
use mathlib.Core.Option
use eternal_terminal_client.Base.{
  ℕ, zero, suc, ◌+◌, ◌-◌, ◌*◌, Bool, true, false, ◌&&◌, ◌||◌, Option, none, some, List, [], ◌∷◌,
  ◌++◌, ltb, leb, ◌==◌, if◌then◌else◌, Outcome, ok, err, ◌>>=◌,
}
pub mod Parse
pub mod Alone

pub record Destination : Type 0 where
  pub user : List ℕ
  pub host : List ℕ
  pub host_alias : List ℕ
  pub et_port : ℕ

-- The `anyhow::Error` of `parse_destination`.
pub data HostError : Type 0 where
  invalid_port : HostError
  invalid_host : List ℕ → HostError

-- `find` of a character, and the two parts around it.
pub split_first : ℕ → List ℕ → Option (List ℕ × List ℕ)
split_first c [] = none
split_first c (b ∷ bs) =
    let rest = Option.map (λ (p : List ℕ × List ℕ). (b ∷ p.0, p.1)) (split_first c bs) in
    if b == c then some ([], bs) else rest

-- `rfind`, in the same way.
pub split_last : ℕ → List ℕ → Option (List ℕ × List ℕ)
split_last c [] = none
split_last c (b ∷ bs) = elim (split_last c bs) [
  | some (front, back) ↦ some (b ∷ front, back)
  | none ↦ if b == c then some ([], bs) else none
]

-- `matches(c).count()`
unfoldable pub count_of : ℕ → List ℕ → ℕ
count_of c [] = 0
count_of c (b ∷ bs) = (if b == c then 1 else 0) + count_of c bs

-- `contains("::")`
unfoldable pub has_pair : ℕ → List ℕ → Bool
has_pair c [] = false
has_pair c (b ∷ []) = false
has_pair c (b ∷ d ∷ bs) = (b == c) && (d == c) || has_pair c (d ∷ bs)

-- `str::parse::<u16>`: an optional plus sign, at least one digit, and no overflow.
abbrev is_digit : ℕ → Bool
is_digit b = leb b'0' b && leb b b'9'

unfoldable parse_digits : ℕ → List ℕ → Option ℕ
parse_digits n [] = some n
parse_digits n (b ∷ bs) =
    let n' = n * 10 + (b - b'0') in
    let rest = parse_digits n' bs in if is_digit b && ltb n' 65536 then rest else none

unfoldable pub parse_u16 : List ℕ → Option ℕ
unfolding parse_digits
parse_u16 [] = none
parse_u16 (b ∷ []) = if b == b'+' then none else parse_digits 0 (b ∷ [])
parse_u16 (b ∷ d ∷ bs) = if b == b'+' then parse_digits 0 (d ∷ bs) else parse_digits 0 (b ∷ d ∷ bs)

abbrev checked_port : Option ℕ → List ℕ → Outcome HostError (List ℕ × ℕ)
checked_port none host_arg = err invalid_port
checked_port (some et_port) host_arg = ok (host_arg, et_port)

-- The text behind the last colon as a port, and the host before it.
with_port : Option (List ℕ × List ℕ) → List ℕ → ℕ → Outcome HostError (List ℕ × ℕ)
with_port none host_arg port = ok (host_arg, port)
with_port (some (front, back)) host_arg port = checked_port (parse_u16 back) front

-- The host and the port, by the number of colons.
pub split_host : List ℕ → ℕ → Outcome HostError (List ℕ × ℕ)
unfolding with_port
split_host host_arg default_port =
    let colon_count = count_of b':' host_arg in
    if colon_count == 1
    then with_port (split_last b':' host_arg) host_arg default_port
    else if leb 2 colon_count
    then if has_pair b':' host_arg
      then ok (host_arg, default_port)
      else if colon_count == 7
      then ok (host_arg, default_port)
      else if colon_count == 8
      then with_port (split_last b':' host_arg) host_arg default_port
      else err (invalid_host host_arg)
    else ok (host_arg, default_port)

-- `default_user.unwrap_or("")`
abbrev pub given : Option (List ℕ) → List ℕ
given none = []
given (some user) = user

-- What stands before the first `@`, or the default user, and what stands behind it.
split_user : Option (List ℕ × List ℕ) → List ℕ → Option (List ℕ) → List ℕ × List ℕ
split_user (some (user, host_arg)) arg default_user = (user, host_arg)
split_user none arg default_user = (given default_user, arg)

-- `local_username`, with the values of `USERNAME` and `USER` in the environment.
pub local_username : Option (List ℕ) → Option (List ℕ) → List ℕ
local_username (some name) user = name
local_username none (some user) = user
local_username none none = b'u' ∷ b's' ∷ b'e' ∷ b'r' ∷ []

abbrev pub user_or : List ℕ → List ℕ → List ℕ
user_or [] name = name
user_or (b ∷ bs) name = b ∷ bs

-- `parse_destination`, with the name that `local_username` returns.
pub parse_destination : List ℕ → Option (List ℕ) → ℕ → List ℕ → Outcome HostError Destination
unfolding split_user
parse_destination host_arg default_user default_port local_name =
    let (user, rest) = split_user (split_first b'@' host_arg) host_arg default_user in
    (do
      (host, et_port) ← split_host rest default_port
      ok (record {
        user = user_or user local_name;
        host = host;
        host_alias = host;
        et_port = et_port;
      }))
