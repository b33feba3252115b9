-- ===== src/Terminal/Unix.antt =====
-- The console on Unix (the other `mod platform` of src/terminal.rs). The crate crossterm and the calls `poll` and
-- `read` are arguments.
use eternal_terminal_client.Base.{
  ℕ, ◌-◌, ◌^◌, Bool, true, false, Option, none, some, List, [], ◌∷◌, ltb, if◌then◌else◌, Outcome,
  ok, err,
}
use eternal_terminal_client.Base.Int.{pos}
use eternal_terminal_client.Proto.Messages.{TerminalInfo}
use eternal_terminal_client.Terminal.{
  LocalConsole, Platform, ConsoleError, io, poll_failed, read_failed,
}

-- Whether `enable_raw_mode` succeeds, and what it and `disable_raw_mode` leave; `size` gives columns and rows.
pub record Crossterm (S : Type 0) : Type 0 where
  pub enable_raw_mode : S → Bool × S
  pub disable_raw_mode : S → S
  pub size : S → Option (ℕ × ℕ)

abbrev enabled :
    {S : Type 0} → LocalConsole → Bool × S → Outcome ConsoleError (Unit {0}) × LocalConsole × S
enabled c (true, s) = (ok tt, c, s)
enabled c (false, s) = (err io, c, s)

abbrev pub platform : {S : Type 0} → Crossterm S → Platform S
platform t = record {
  enable_raw = λ c s. enabled c (t.enable_raw_mode s);
  disable_raw = λ c s. t.disable_raw_mode s;
}

abbrev at_least_one : ℕ → ℕ
at_least_one n = if ltb n 1 then 1 else n

abbrev pub size_or : Option (ℕ × ℕ) → ℕ × ℕ
size_or none = (80, 24)
size_or (some p) = p

abbrev pub info_of : ℕ × ℕ → TerminalInfo
info_of (cols, rows) = record {
  id = none;
  row = some (pos (at_least_one rows));
  column = some (pos (at_least_one cols));
  width = none;
  height = none;
}

unfoldable pub terminal_size : {S : Type 0} → Crossterm S → S → TerminalInfo
terminal_size t s = info_of (size_or (t.size s))

-- `libc::poll`: negative, with whether the error is an interruption; zero; or positive, with whether there is
-- something to read.
pub data PollCall : Type 0 where
  negative : Bool → PollCall
  timed_out : PollCall
  ready : Bool → PollCall

pub data StdinRead : Type 0 where
  bytes : List ℕ → StdinRead
  would_block interrupted : StdinRead
  failed : ℕ → StdinRead

abbrev on_read : StdinRead → Outcome ConsoleError (Option (List ℕ))
on_read (bytes []) = ok none
on_read (bytes (b ∷ bs)) = ok (some (b ∷ bs))
on_read would_block = ok none
on_read interrupted = ok none
on_read (failed e) = err (read_failed e)

-- `read` is called where `poll` says that there is something, and `poll` waits for the timeout in
-- milliseconds, cut to an `i32`.
unfoldable pub poll_stdin : (ℕ → PollCall) → StdinRead → ℕ → Outcome ConsoleError (Option (List ℕ))
poll_stdin poll read timeout =
    elim (poll (if ltb timeout (2 ^ 31 - 1) then timeout else 2 ^ 31 - 1)) [
      | negative true ↦ ok none
      | negative false ↦ err poll_failed
      | timed_out ↦ ok none
      | ready true ↦ on_read read
      | ready false ↦ ok none
    ]
