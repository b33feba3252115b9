-- ===== src/Terminal/Windows/Input/Drain.antt =====
-- `drain_non_vt_console_events`: what it throws away, and that it ends.
use eternal_terminal_client.Base.{◌≤◌, ◌≡◌, ◌≢◌, true, List, ◌++◌, Outcome, ok, stuck, All}
use eternal_terminal_client.Terminal.{ConsoleError}
use eternal_terminal_client.Terminal.Windows.Input.{InputRecord, ConsoleInput, IsConsole, drains}

-- From the queue `q` to the queue `q'`, only records from the front were thrown away, none of them a key-down.
abbrev pub OnlyNoise : List InputRecord → List InputRecord → Type 0
OnlyNoise q q' =
    (gone : List InputRecord) × (more : List InputRecord) × (q ++ more ≡ gone ++ q')
    × All (λ r. drains r ≡ true) gone

module _ {S : Type 0} (input : ConsoleInput S) (console : IsConsole input) where
  -- A state behind a run of the loop, and its result.
  pub record Drained (s : S) (x : Outcome ConsoleError (Unit {0}) × S) : Type 0 where
    pub returns : x.0 ≢ stuck
    pub lost : x.0 ≡ ok tt → OnlyNoise (console.queue s) (console.queue x.1)
    pub fewer : console.records x.1 ≤ console.records s
    pub later : console.moment s ≤ console.moment x.1
