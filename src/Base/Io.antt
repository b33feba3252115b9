-- ===== src/Base/Io.antt =====
-- `std::io::Write` and `std::io::Read` as the program uses them where a call blocks.
use Prim.Native.Nat.{ℕ, ◌-◌}
use mathlib.Core.Option.{Option, none, some}
use mathlib.Core.List.{List, ◌++◌}
use eternal_terminal_client.Base.Tests.{ltb, if◌then◌else◌}
use eternal_terminal_client.Base.Lists.{length, take, drop}
use eternal_terminal_client.Base.Results.{Outcome, ok, err}

pub data IoError : Type 0 where
  write_failed unexpected_eof : IoError

-- A stream that is written to: the bytes that it took, and after how many more it fails (`none`: it
-- does not).
pub record Writer : Type 0 where
  pub written : List ℕ
  pub room : Option ℕ

-- `write_all`: all the bytes, or an error after a part of them.
unfoldable pub write_all : Writer → List ℕ → Outcome IoError (Unit {0}) × Writer
write_all w b = elim w.room [
  | none ↦ (ok tt, record w { written = w.written ++ b })
  | some n ↦
      if ltb n (length b)
      then (err write_failed, record { written = w.written ++ take n b; room = some 0 })
      else (ok tt, record { written = w.written ++ b; room = some (n - length b) })
]

-- A stream that is read from is what it still gives until it ends or times out. `read_exact`: `n`
-- bytes and the rest, or an error.
unfoldable pub read_exact : ℕ → List ℕ → Outcome IoError (List ℕ × List ℕ)
read_exact n r = if ltb (length r) n then err unexpected_eof else ok (take n r, drop n r)
