-- ===== src/Terminal/Windows.antt =====
-- The console modes and the window's size on Windows (`mod platform` of src/terminal.rs). The constants of the
-- crate windows-sys and the host's answers are arguments.
pub mod Restore
pub mod Input
use eternal_terminal_client.Base.{
  ℕ, ◌+◌, ◌-◌, ◌%◌, ◌^◌, ltb, bit_and, bit_or, Bool, true, false, not, Option, none, some,
  if◌then◌else◌, Outcome, ok, err,
}
use eternal_terminal_client.Base.Int.{ℤ, pos, negsuc}
use eternal_terminal_client.Proto.Messages.{TerminalInfo}
use eternal_terminal_client.Terminal.{
  LocalConsole, Platform, ConsoleError, get_mode_in, get_mode_out, set_mode_in, set_mode_out, io,
}

pub record ModeBits : Type 0 where
  pub processed_input : ℕ
  pub line_input : ℕ
  pub echo_input : ℕ
  pub virtual_terminal_input : ℕ
  pub processed_output : ℕ
  pub wrap_at_eol_output : ℕ
  pub virtual_terminal_processing : ℕ

abbrev pub disable_newline_auto_return : ℕ
disable_newline_auto_return = 0x0008

-- Whether `GetConsoleMode` succeeds, which modes `SetConsoleMode` takes, and whether standard output takes
-- the sequence that turns wrapping on.
pub record Host : Type 0 where
  pub get_in : Bool
  pub get_out : Bool
  pub set_in : ℕ → Bool
  pub set_out : ℕ → Bool
  pub stdout : Bool

-- The modes of the two handles.
pub record Modes : Type 0 where
  pub in_mode : ℕ
  pub out_mode : ℕ

module _ (bits : ModeBits) (host : Host) where
  -- `in_mode & !(..) | ..`, on 32 bits.
  unfoldable pub raw_in : ℕ → ℕ
  raw_in in_mode =
      bit_or
        (bit_and in_mode
          (2 ^ 32 - 1 - bit_or (bit_or bits.processed_input bits.line_input) bits.echo_input))
        bits.virtual_terminal_input

  unfoldable pub raw_out_old : ℕ → ℕ
  raw_out_old out_mode =
      bit_or (bit_or (bit_or out_mode bits.processed_output) bits.wrap_at_eol_output)
        bits.virtual_terminal_processing

  unfoldable pub raw_out : ℕ → ℕ
  raw_out out_mode = bit_or (raw_out_old out_mode) disable_newline_auto_return

  -- The sequence that is written at the end.
  abbrev reassert : LocalConsole → Modes → Outcome ConsoleError (Unit {0}) × LocalConsole × Modes
  reassert c m = (if host.stdout then ok tt else err io, c, m)

  abbrev set_out : ℕ → LocalConsole → Modes → Outcome ConsoleError (Unit {0}) × LocalConsole × Modes
  set_out out_mode c m =
      if host.set_out (raw_out out_mode)
      then reassert c (record m { out_mode = raw_out out_mode })
      else if host.set_out (raw_out_old out_mode)
      then reassert c (record m { out_mode = raw_out_old out_mode })
      else (err set_mode_out, c, m)

  abbrev set_both : LocalConsole → Modes → Outcome ConsoleError (Unit {0}) × LocalConsole × Modes
  set_both c m =
      if host.set_in (raw_in m.in_mode)
      then set_out m.out_mode c (record m { in_mode = raw_in m.in_mode })
      else (err set_mode_in, c, m)

  unfoldable pub enable_raw :
      LocalConsole → Modes → Outcome ConsoleError (Unit {0}) × LocalConsole × Modes
  enable_raw c m =
      if not host.get_in
      then (err get_mode_in, c, m)
      else if not host.get_out
      then (err get_mode_out, c, m)
      else set_both (record c { saved_in_mode = m.in_mode; saved_out_mode = m.out_mode }) m

  -- The answers of both calls are ignored.
  unfoldable pub disable_raw : LocalConsole → Modes → Modes
  disable_raw c m = record {
    in_mode = if host.set_in c.saved_in_mode then c.saved_in_mode else m.in_mode;
    out_mode = if host.set_out c.saved_out_mode then c.saved_out_mode else m.out_mode;
  }

  abbrev pub platform : Platform Modes
  platform = record { enable_raw = enable_raw; disable_raw = disable_raw }

-- `csbi.srWindow`, each field an `i16` as its 16 bits.
pub record Window : Type 0 where
  pub left : ℕ
  pub top : ℕ
  pub right : ℕ
  pub bottom : ℕ

-- `(to - from + 1).max(1)` of `i16`s, wrapping as it does without overflow checks.
abbrev span : ℕ → ℕ → ℕ
span to from =
    let w = (to + (2 ^ 16 - from) + 1) % 2 ^ 16 in
    if ltb w 1 then 1 else if ltb w (2 ^ 15) then w else 1

-- `none` is a failure of `GetConsoleScreenBufferInfo`.
unfoldable pub terminal_size : Option Window → TerminalInfo
terminal_size none = record {
  id = none;
  row = some (pos 24);
  column = some (pos 80);
  width = none;
  height = none;
}
terminal_size (some w) = record {
  id = none;
  row = some (pos (span w.bottom w.top));
  column = some (pos (span w.right w.left));
  width = none;
  height = none;
}
