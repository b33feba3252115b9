-- ===== src/Terminal/Size.antt =====
-- The sizes that the client tells the server.
use eternal_terminal_client.Base.{
  ℕ, ◌+◌, ◌-◌, ◌%◌, ◌^◌, ◌≤◌, ◌<◌, ◌≡◌, refl, Option, none, some, ltb, if◌then◌else◌, ok, arith,
}
use eternal_terminal_client.Base.Int.{pos}
use eternal_terminal_client.Proto.Messages.{TerminalInfo}
use eternal_terminal_client.Proto.Codec.TerminalInfo
use eternal_terminal_client.Terminal.Unix
use eternal_terminal_client.Terminal.Unix.{Crossterm}
use eternal_terminal_client.Terminal.Windows
use eternal_terminal_client.Terminal.Windows.{Window}

-- A size in rows and columns, each at least one, that the server decodes as it was sent.
pub record IsSize (m : TerminalInfo) : Type 0 where
  pub rows : ℕ
  pub columns : ℕ
  pub is : m ≡ record {
    id = none;
    row = some (pos rows);
    column = some (pos columns);
    width = none;
    height = none;
  }
  pub some_rows : 1 ≤ rows
  pub few_rows : rows < 2 ^ 16
  pub some_columns : 1 ≤ columns
  pub few_columns : columns < 2 ^ 16
  pub sent : TerminalInfo.decode (TerminalInfo.encode m) ≡ ok m

sized :
    (rows columns : ℕ)
    → 1 ≤ rows
    → rows < 2 ^ 16
    → 1 ≤ columns
    → columns < 2 ^ 16
    → IsSize (record {
      id = none;
      row = some (pos rows);
      column = some (pos columns);
      width = none;
      height = none;
    })
sized rows columns a b d e = record {
  rows = rows;
  columns = columns;
  is = refl;
  some_rows = a;
  few_rows = b;
  some_columns = d;
  few_columns = e;
  sent = TerminalInfo.decode-encode_terminal_info _ (tt, omega arith, omega arith, tt, tt);
}

abbrev pub IsU16 : Option (ℕ × ℕ) → Type 0
IsU16 none = Unit
IsU16 (some (cols, rows)) = (cols < 2 ^ 16) × (rows < 2 ^ 16)

at_least :
    (n : ℕ) → n < 2 ^ 16 → (1 ≤ (if ltb n 1 then 1 else n)) × ((if ltb n 1 then 1 else n) < 2 ^ 16)
at_least n h = (ground arith, ground arith)

span_lem :
    (w : ℕ)
    → (1 ≤ (if ltb w 1 then 1 else if ltb w (2 ^ 15) then w else 1))
      × ((if ltb w 1 then 1 else if ltb w (2 ^ 15) then w else 1) < 2 ^ 16)
span_lem w = (ground arith, ground arith)

windows-IsSize : (o : Option Window) → IsSize (Windows.terminal_size o)
unfolding Windows.terminal_size
windows-IsSize none = sized 24 80 (omega arith) (omega arith) (omega arith) (omega arith)
windows-IsSize (some w) =
    let (a, b) = span_lem ((w.bottom + (2 ^ 16 - w.top) + 1) % 2 ^ 16) in
    let (d, e) = span_lem ((w.right + (2 ^ 16 - w.left) + 1) % 2 ^ 16) in sized _ _ a b d e

-- On both systems, whatever the window or the terminal says, and also where they say nothing: the size has at
-- least one row and one column and fewer than 2^16 of each, and the server decodes what the client encodes
-- of it. On Unix the size is two `u16`.
pub terminal_size-IsSize :
    {S : Type 0} (t : Crossterm S) (s : S) (window : Option Window)
    → IsU16 (t.size s)
    → IsSize (Unix.terminal_size t s) × IsSize (Windows.terminal_size window)
unfolding Unix.terminal_size
terminal_size-IsSize t s window h = (by_size (t.size s) h, windows-IsSize window)
  where
    by_size : (o : Option (ℕ × ℕ)) → IsU16 o → IsSize (Unix.info_of (Unix.size_or o))
    by_size none h = sized 24 80 (omega arith) (omega arith) (omega arith) (omega arith)
    by_size (some (cols, rows)) (a, b) =
        let (d, e) = at_least rows b in let (f, g) = at_least cols a in sized _ _ d e f g
