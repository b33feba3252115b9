-- ===== src/Terminal.antt =====
-- src/terminal.rs: the local console. The state `S` is what the platform keeps of the console, and the calls that
-- each platform makes of it are its module's.
pub mod Windows
pub mod Unix
pub mod Size
use eternal_terminal_client.Base.{
  ℕ, Bool, true, false, if◌then◌else◌, Outcome, ok, err, panic, stuck,
}

pub record LocalConsole : Type 0 where
  pub enabled : Bool
  pub saved_in_mode : ℕ
  pub saved_out_mode : ℕ

-- The `anyhow::Error`s of this file.
pub data ConsoleError : Type 0 where
  get_mode_in get_mode_out set_mode_in set_mode_out io : ConsoleError
  peek_failed read_input_failed poll_failed : ConsoleError
  read_failed : ℕ → ConsoleError

-- `platform::enable_raw` and `platform::disable_raw`.
pub record Platform (S : Type 0) : Type 0 where
  pub enable_raw : LocalConsole → S → Outcome ConsoleError (Unit {0}) × LocalConsole × S
  pub disable_raw : LocalConsole → S → S

module _ {S : Type 0} (platform : Platform S) where
  abbrev enabled_by :
      Outcome ConsoleError (Unit {0}) × LocalConsole × S
      → Outcome ConsoleError (Unit {0}) × LocalConsole × S
  enabled_by (ok _, c, s) = (ok tt, record c { enabled = true }, s)
  enabled_by (err e, c, s) = (err e, c, s)
  enabled_by (panic, c, s) = (panic, c, s)
  enabled_by (stuck, c, s) = (stuck, c, s)

  unfoldable pub setup : LocalConsole → S → Outcome ConsoleError (Unit {0}) × LocalConsole × S
  setup c s = if c.enabled then (ok tt, c, s) else enabled_by (platform.enable_raw c s)

  unfoldable pub teardown : LocalConsole → S → LocalConsole × S
  teardown c s =
      if c.enabled then (record c { enabled = false }, platform.disable_raw c s) else (c, s)

  -- `c.setup()?`: where it fails, the new console is dropped.
  abbrev or_dropped :
      Outcome ConsoleError (Unit {0}) × LocalConsole × S → Outcome ConsoleError LocalConsole × S
  or_dropped (ok _, c, s) = (ok c, s)
  or_dropped (err e, c, s) = (err e, (teardown c s).1)
  or_dropped (panic, c, s) = (panic, (teardown c s).1)
  or_dropped (stuck, c, s) = (stuck, (teardown c s).1)

  unfoldable pub new : S → Outcome ConsoleError LocalConsole × S
  new s = or_dropped (setup (record { enabled = false; saved_in_mode = 0; saved_out_mode = 0 }) s)

  -- `Drop`
  abbrev pub drop : LocalConsole → S → S
  drop c s = (teardown c s).1
