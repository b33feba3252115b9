-- ===== src/Terminal/Windows/Input.antt =====
-- The console's input on Windows (`mod platform` of src/terminal.rs): which records are thrown away, and when
-- `ReadFile` is called. The calls of the system are an argument, `ConsoleInput`; the records that a
-- console has queued are what its documentation says of them, `IsConsole`.
pub mod Drain
pub mod Poll
use eternal_terminal_client.Base.{
  ℕ, zero, suc, ◌+◌, ◌-◌, ◌*◌, ◌/◌, ◌≤◌, ◌≡◌, ◌≢◌, Bool, true, false, not, ◌||◌, Option, none, some,
  List, [], ◌∷◌, ◌++◌, leb, ltb, ◌==◌, if◌then◌else◌, Outcome, ok, err, panic, stuck, ◌^◌,
}
use eternal_terminal_client.Terminal.{ConsoleError, peek_failed, read_input_failed, read_failed}

-- A record by its event type; a key with `bKeyDown`.
pub data InputRecord : Type 0 where
  key : Bool → InputRecord
  mouse focus menu window_buffer_size : InputRecord
  other : ℕ → InputRecord

-- `ReadFile`: it does not return, it fails with a code, or it gives bytes.
pub data FileRead : Type 0 where
  blocks : FileRead
  failed : ℕ → FileRead
  bytes : List ℕ → FileRead

pub data Wait : Type 0 where
  signaled timed_out failed : Wait

pub record ConsoleInput (S : Type 0) : Type 0 where
  pub peek : S → Outcome ConsoleError (Option InputRecord) × S
  pub read_input : S → Outcome ConsoleError (Unit {0}) × S
  pub read_file : S → FileRead × S
  pub wait : ℕ → S → Wait × S
  pub now : S → ℕ × S

-- `match event_type`
pub drains : InputRecord → Bool
drains mouse = true
drains focus = true
drains menu = true
drains window_buffer_size = true
drains (key down) = not down
drains (other n) = false

abbrev pub is_down : InputRecord → Bool
is_down (key down) = down
is_down mouse = false
is_down focus = false
is_down menu = false
is_down window_buffer_size = false
is_down (other n) = false

module _ {S : Type 0} (input : ConsoleInput S) where
  -- What follows `PeekConsoleInputW`; `again` is the next turn of the loop.
  abbrev pub on_peek :
      (S → Outcome ConsoleError (Unit {0}) × S)
      → Outcome ConsoleError (Option InputRecord) × S
      → Outcome ConsoleError (Unit {0}) × S
  on_peek again (ok none, s) = (ok tt, s)
  on_peek again (ok (some r), s) = if drains r then again s else (ok tt, s)
  on_peek again (err e, s) = (err e, s)
  on_peek again (panic, s) = (panic, s)
  on_peek again (stuck, s) = (stuck, s)

  abbrev pub on_read :
      (S → Outcome ConsoleError (Unit {0}) × S)
      → Outcome ConsoleError (Unit {0}) × S
      → Outcome ConsoleError (Unit {0}) × S
  on_read again (ok _, s) = again s
  on_read again (err e, s) = (err e, s)
  on_read again (panic, s) = (panic, s)
  on_read again (stuck, s) = (stuck, s)

  -- `fuel` turns of the loop.
  unfoldable pub drain_non_vt_console_events : ℕ → S → Outcome ConsoleError (Unit {0}) × S
  drain_non_vt_console_events zero s = (stuck, s)
  drain_non_vt_console_events (suc fuel) s =
      on_peek (λ s. on_read (drain_non_vt_console_events fuel) (input.read_input s)) (input.peek s)

  abbrev pub down_at : Outcome ConsoleError (Option InputRecord) → Outcome ConsoleError Bool
  down_at (ok none) = ok false
  down_at (ok (some r)) = ok (is_down r)
  down_at (err e) = err e
  down_at panic = panic
  down_at stuck = stuck

  pub console_has_key_down : S → Outcome ConsoleError Bool × S
  console_has_key_down s = let (o, s') = input.peek s in (down_at o, s')

  -- What a call of `poll_stdin` returns; `none` is a call that does not.
  abbrev pub Result : Type 0
  Result = Option (Outcome ConsoleError (Option (List ℕ)))

  abbrev pub read_bytes : List ℕ → Option (List ℕ)
  read_bytes [] = none
  read_bytes (b ∷ bs) = some (b ∷ bs)

  abbrev pub on_file : FileRead × S → Result × S
  on_file (blocks, s) = (none, s)
  on_file (failed e, s) =
      (some (if (e == 0) || (e == 995) then ok none else err (read_failed e)), s)
  on_file (bytes bs, s) = (some (ok (read_bytes bs)), s)

  abbrev pub read_console_vt_stream : S → Result × S
  read_console_vt_stream s = on_file (input.read_file s)

  abbrev pub on_wait : (S → Result × S) → Wait × S → Result × S
  on_wait again (timed_out, s) = (some (ok none), s)
  on_wait again (failed, s) = (some (ok none), s)
  on_wait again (signaled, s) = again s

  -- `remaining.as_millis().min(u32::MAX)`, where times count nanoseconds.
  abbrev millis : ℕ → ℕ
  millis remaining =
      if ltb (remaining / 1000000) (2 ^ 32 - 1) then remaining / 1000000 else 2 ^ 32 - 1

  abbrev pub until : ℕ → (S → Result × S) → ℕ × S → Result × S
  until deadline again (now, s) =
      if leb deadline now
      then (some (ok none), s)
      else on_wait again (input.wait (millis (deadline - now)) s)

  abbrev pub on_key : ℕ → (S → Result × S) → Outcome ConsoleError Bool × S → Result × S
  on_key deadline again (ok true, s) = read_console_vt_stream s
  on_key deadline again (ok false, s) = until deadline again (input.now s)
  on_key deadline again (err e, s) = (some (err e), s)
  on_key deadline again (panic, s) = (some panic, s)
  on_key deadline again (stuck, s) = (some stuck, s)

  abbrev pub on_drained : ℕ → (S → Result × S) → Outcome ConsoleError (Unit {0}) × S → Result × S
  on_drained deadline again (ok _, s) = on_key deadline again (console_has_key_down s)
  on_drained deadline again (err e, s) = (some (err e), s)
  on_drained deadline again (panic, s) = (some panic, s)
  on_drained deadline again (stuck, s) = (some stuck, s)

  -- `turns` of the loop, with `fuel` for each loop inside.
  unfoldable pub poll_loop : (fuel turns deadline : ℕ) → S → Result × S
  poll_loop fuel zero deadline s = (some stuck, s)
  poll_loop fuel (suc turns) deadline s =
      on_drained deadline (poll_loop fuel turns deadline) (drain_non_vt_console_events fuel s)

  unfoldable pub poll_stdin : (fuel turns timeout : ℕ) → S → Result × S
  poll_stdin fuel turns timeout s =
      let (now, s') = input.now s in poll_loop fuel turns (now + timeout) s'

-- What is queued: what was there, and perhaps more behind it.
abbrev pub Grown : List InputRecord → List InputRecord → Type 0
Grown q q' = (more : List InputRecord) × (q' ≡ q ++ more)

abbrev pub Peeked : List InputRecord → Outcome ConsoleError (Option InputRecord) → Type 0
Peeked q (ok none) = q ≡ []
Peeked q (ok (some r)) = (rest : List InputRecord) × (q ≡ r ∷ rest)
Peeked q (err e) = Unit
Peeked q panic = ⊥
Peeked q stuck = ⊥

abbrev pub Removed : List InputRecord → Outcome ConsoleError (Unit {0}) → List InputRecord → Type 0
Removed rest (ok _) q' = Grown rest q'
Removed rest (err e) q' = Unit
Removed rest panic q' = ⊥
Removed rest stuck q' = ⊥

-- The documented behaviour of the calls. `records` is how many records are queued or still come, so the input is
-- finite; one that was removed is gone. `moment` is what has passed in reality, in units so small that no
-- wait takes none, and `reading` what the clock shows then, in nanoseconds: it never goes back, may show the
-- same for long, but in `pace` moments it gets on. Nothing is said of `ReadFile`.
pub record IsConsole {S : Type 0} (input : ConsoleInput S) : Type 0 where
  pub queue : S → List InputRecord
  pub records : S → ℕ
  pub moment : S → ℕ
  pub reading : ℕ → ℕ
  pub pace : ℕ
  pub monotonic : (m n : ℕ) → m ≤ n → reading m ≤ reading n
  pub keeps_up : (m n : ℕ) → reading m + n ≤ reading (m + n * pace)
  pub peeks :
      (s : S)
      → Peeked (queue s) (input.peek s).0
        × Grown (queue s) (queue (input.peek s).1)
        × (records (input.peek s).1 ≤ records s)
        × (moment s ≤ moment (input.peek s).1)
  pub reads :
      (s : S) (r : InputRecord) (rest : List InputRecord)
      → queue s ≡ r ∷ rest
      → Removed rest (input.read_input s).0 (queue (input.read_input s).1)
        × ((input.read_input s).0 ≡ ok tt → records (input.read_input s).1 + 1 ≤ records s)
        × (records (input.read_input s).1 ≤ records s)
        × (moment s ≤ moment (input.read_input s).1)
  pub nows :
      (s : S)
      → ((input.now s).0 ≡ reading (moment s))
        × (records (input.now s).1 ≤ records s)
        × (moment s ≤ moment (input.now s).1)
  pub waits :
      (n : ℕ) (s : S)
      → (records (input.wait n s).1 ≤ records s)
        × ((input.wait n s).0 ≡ signaled → moment s + 1 ≤ moment (input.wait n s).1)
