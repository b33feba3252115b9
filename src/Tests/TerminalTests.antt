-- ===== src/Tests/TerminalTests.antt =====
-- src/terminal.rs on a console of Windows.
use eternal_terminal_client.Base.{
  ℕ, ◌+◌, ◌*◌, ◌/◌, ◌≡◌, refl, sym, ap, ◌∙◌, true, false, Option, none, some, List, [], ◌∷◌,
  append-nil, arith, drop, length, ok, err,
}
use eternal_terminal_client.Terminal
use eternal_terminal_client.Terminal.{LocalConsole, set_mode_out, io, setup, teardown, new}
use eternal_terminal_client.Terminal.Windows.{
  ModeBits, Host, Modes, enable_raw, platform, raw_in, raw_out, raw_out_old, Window,
}
use eternal_terminal_client.Terminal.Windows
use eternal_terminal_client.Terminal.Windows.Restore.{teardown-new, new-raw}
use eternal_terminal_client.Terminal.Windows.Input
use eternal_terminal_client.Terminal.Windows.Input.{
  InputRecord, key, mouse, menu, FileRead, blocks, bytes, Wait, signaled, timed_out, ConsoleInput,
  IsConsole,
}
use eternal_terminal_client.Terminal.Unix
use eternal_terminal_client.Terminal.Unix.{Crossterm}
use eternal_terminal_client.Terminal.Size.{IsSize, terminal_size-IsSize}

abbrev bits : ModeBits
bits = record {
  processed_input = 1;
  line_input = 2;
  echo_input = 4;
  virtual_terminal_input = 512;
  processed_output = 1;
  wrap_at_eol_output = 2;
  virtual_terminal_processing = 4;
}

abbrev new_host : Host
new_host = record {
  get_in = true;
  get_out = true;
  set_in = λ mode. true;
  set_out = λ mode. true;
  stdout = true;
}

abbrev cooked : Modes
cooked = record { in_mode = 7; out_mode = 3 }

abbrev console : LocalConsole
console = record { enabled = true; saved_in_mode = 7; saved_out_mode = 3 }

abbrev raw : Modes
raw = record { in_mode = 512; out_mode = 15 }

opened : new (platform bits new_host) cooked ≡ (ok console, raw)
unfolding new setup enable_raw raw_in raw_out raw_out_old
opened = refl

teardown-new_example :
    ((teardown (platform bits new_host) console raw).1 ≡ cooked)
    × (Terminal.drop
          (platform bits new_host)
          (teardown (platform bits new_host) console raw).0
          cooked
        ≡ cooked)
teardown-new_example = teardown-new bits new_host cooked console raw raw opened refl refl

abbrev deaf_host : Host
deaf_host = record new_host { set_out = λ mode. false; stdout = false }

new-raw_example :
    (deaf_host.set_out (raw_out bits deaf_host 3) ≡ false
      → deaf_host.set_out (raw_out_old bits deaf_host 3) ≡ false
      → new (platform bits deaf_host) cooked
        ≡ (err set_mode_out, record cooked { in_mode = raw_in bits deaf_host 7 }))
    × (deaf_host.set_out (raw_out bits deaf_host 3) ≡ true
        → deaf_host.stdout ≡ false
        → new (platform bits deaf_host) cooked ≡ (
          err io,
          record { in_mode = raw_in bits deaf_host 7; out_mode = raw_out bits deaf_host 3 },
        ))
new-raw_example = new-raw bits deaf_host cooked refl refl refl

-- A console whose records are all queued; a wait takes a nanosecond.
record Queue : Type 0 where
  records : List InputRecord
  time : ℕ

abbrev head : List InputRecord → Option InputRecord
head [] = none
head (r ∷ rs) = some r

abbrev file : List InputRecord → FileRead
file [] = blocks
file (key true ∷ rs) = bytes (27 ∷ [])
file (r ∷ rs) = blocks

abbrev woken : List InputRecord → Wait
woken [] = timed_out
woken (r ∷ rs) = signaled

abbrev calls : ConsoleInput Queue
calls = record {
  peek = λ s. (ok (head s.records), s);
  read_input = λ s. (ok tt, record s { records = drop 1 s.records });
  read_file = λ s. (file s.records, record s { records = drop 1 s.records });
  wait = λ n s. (woken s.records, record s { time = s.time + 1 });
  now = λ s. (s.time / 2 * 2, s);
}

-- The clock shows every second nanosecond only.
abbrev shown_at : ℕ → ℕ
shown_at m = m / 2 * 2

calls-IsConsole : IsConsole calls
calls-IsConsole = record {
  queue = λ s. s.records;
  records = λ s. length s.records;
  moment = λ s. s.time;
  reading = shown_at;
  pace = 2;
  monotonic = λ m n h. omega arith;
  keeps_up = λ m n. omega arith;
  peeks = λ s. (by_head s.records, ([], sym (append-nil s.records)), omega arith, omega arith);
  reads = λ s r rest at. (
    ([], ap (drop 1) at ∙ sym (append-nil rest)),
    λ e. omega (arith, ap length at, ap (λ t. length (drop 1 t)) at),
    omega (arith, ap length at, ap (λ t. length (drop 1 t)) at),
    omega arith,
  );
  nows = λ s. (refl, omega arith, omega arith);
  waits = λ n s. (omega arith, λ e. omega arith);
}
  where
    by_head : (q : List InputRecord) → Input.Peeked q (ok (head q))
    by_head [] = refl
    by_head (r ∷ rs) = (rs, refl)

abbrev moved : Queue
moved = record { records = mouse ∷ key false ∷ key true ∷ mouse ∷ []; time = 0 }

abbrev terminal : Crossterm ℕ
terminal = record {
  enable_raw_mode = λ s. (true, s);
  disable_raw_mode = λ s. s;
  size = λ s. some (0, 50);
}

-- 120 columns and 30 rows.
abbrev window : Window
window = record { left = 0; top = 0; right = 119; bottom = 29 }

terminal_size-IsSize_example :
    IsSize (Unix.terminal_size terminal 0) × IsSize (Windows.terminal_size (some window))
terminal_size-IsSize_example = terminal_size-IsSize terminal 0 (some window) (omega arith)
