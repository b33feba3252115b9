-- ===== src/Terminal/Windows/Input/Poll.antt =====
-- `poll_stdin`: that it ends, where it can hang, and what it returns.
use eternal_terminal_client.Base.{
  ℕ, ◌≡◌, ◌≢◌, true, Option, none, some, List, [], ◌∷◌, Outcome, ok, err, panic, stuck,
}
use eternal_terminal_client.Terminal.{ConsoleError}
use eternal_terminal_client.Terminal.Windows.Input.{
  InputRecord, key, blocks, ConsoleInput, IsConsole, read_bytes,
}
use eternal_terminal_client.Terminal.Windows.Input

module _ {S : Type 0} (input : ConsoleInput S) (console : IsConsole input) where
  -- The call returns, and the bytes that it returns are some; or it is in a call of `ReadFile`, which was made
  -- with a key-down at the head of the queue.
  abbrev pub Ends : Option (Outcome ConsoleError (Option (List ℕ))) × S → Type 0
  Ends (none, s') =
      (s : S) × (rest : List InputRecord) × (console.queue s ≡ key true ∷ rest)
      × (input.read_file s ≡ (blocks, s'))
  Ends (some (ok none), s') = Unit
  Ends (some (ok (some bs)), s') = bs ≢ []
  Ends (some (err e), s') = Unit
  Ends (some panic, s') = Unit
  Ends (some stuck, s') = ⊥
