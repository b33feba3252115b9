-- ===== src/Client/Session.antt =====
-- src/client.rs: `run_session`, from the first packet through the rounds of its loop.
pub mod Effects
pub mod Shown
pub mod Complete
use eternal_terminal_client.Base.{
  ℕ, ◌+◌, Bool, true, false, not, Option, none, some, List, [], ◌∷◌, ◌++◌, map, if◌then◌else◌,
  Outcome, ok, err, panic, stuck, ◌>>=◌, map_err,
}
use eternal_terminal_client.Packet.{Packet}
use eternal_terminal_client.Proto.Messages.{TerminalInfo}
use eternal_terminal_client.Proto.Codec.TerminalInfo
use eternal_terminal_client.Client.{
  ClientOptions, SessionError, payload_unsent, console_failed, initial_packet, await_response,
  command_packet, keepalive_duration, Loop, Effect, write, network, Input, local_input,
}

-- What a round finds: whether a shutdown was asked for, the socket, the packets with the times at which
-- they are read, whether the console takes them, the times, and what the console gives.
pub record Round : Type 0 where
  pub stopping : Bool
  pub has_socket : Bool
  pub pkts : List (Packet × ℕ)
  pub shows : Bool
  pub now : ℕ
  pub later : ℕ
  pub typed_at : ℕ
  pub input : Input
  pub info : TerminalInfo

-- Effects, and how the loop goes on: with its variables, or not at all.
abbrev pub Ran : Type 0
Ran = List Effect × Outcome SessionError (Option Loop)

abbrev with_local : List Effect → Option (Loop × List Effect) → Option Loop × List Effect
with_local es none = (none, es)
with_local es (some (l, es')) = (some l, es ++ es')

abbrev pub before : List Effect → Ran → Ran
before es (es', end) = (es ++ es', end)

module _ (has_console : Bool) (duration : ℕ) where
  abbrev after_network : Bool → Round → Loop × List Effect → Option Loop × List Effect
  after_network true r (l, es) = with_local es (local_input duration r.typed_at r.input r.info l)
  after_network false r (l, es) = (some l, es)

  -- The body of the loop.
  pub round : Round → Loop → Outcome SessionError (Option Loop × List Effect)
  round r l = do
    s ← network has_console duration r.has_socket r.shows r.pkts r.now r.later l
    ok (after_network has_console r s)

  -- The loop, over the rounds that are seen of it.
  pub run_loop : List Round → Loop → Ran
  run_loop [] l = ([], ok (some l))
  run_loop (r ∷ rs) l = elim r.stopping [
    | true ↦ ([], ok none)
    | false ↦ elim (round r l) [
      | ok (some l', es) ↦ before es (run_loop rs l')
      | ok (none, es) ↦ (es, ok none)
      | err e ↦ ([], err e)
      | panic ↦ ([], panic)
      | stuck ↦ ([], stuck)
    ]
  ]

abbrev pub command_effects : ClientOptions → Option (List ℕ) → List Effect
command_effects opts none = []
command_effects opts (some cmd) = write (command_packet opts cmd) ∷ []

-- The loop's variables where it starts.
abbrev pub start_loop : ClientOptions → (start : ℕ) → Loop
start_loop opts start = record {
  keepalive_deadline = start + keepalive_duration opts;
  waiting_on_keepalive = false;
  last_ti = TerminalInfo.default;
}

-- Behind the response and the console, with the time at which the loop starts.
abbrev pub established : ClientOptions → (start : ℕ) → List Round → Ran
established opts start rounds =
    before (command_effects opts opts.command)
      (run_loop (not opts.no_terminal) (keepalive_duration opts) rounds (start_loop opts start))

-- What `run_session` does: it sets up the console and tears it down beside the effects.
pub data Step : Type 0 where
  setup teardown : Step
  does : Effect → Step

abbrev pub Run : Type 0
Run = List Step × Outcome SessionError (Option Loop)

-- `teardown` behind the loop, or the console's drop where `?` or a panic leaves it.
abbrev pub restored : Outcome SessionError (Option Loop) → List Step
restored (ok (some l)) = []
restored (ok none) = teardown ∷ []
restored (err e) = teardown ∷ []
restored panic = teardown ∷ []
restored stuck = []

-- With `no_terminal`, and whether `LocalConsole::new` succeeds.
abbrev pub on_console : Bool → Bool → Ran → Run
on_console true opens (es, end) = (map does es, end)
on_console false true (es, end) = (setup ∷ (map does es ++ restored end), end)
on_console false false ran = (setup ∷ [], err console_failed)

-- With whether the first packet is sent, what is read before the deadline, whether the console opens, and the
-- rounds.
pub run_session :
    ClientOptions
    → (sent : Bool) → List (Option Packet)
    → (opens : Bool) (start : ℕ) → List Round
    → Run
run_session opts false reads opens start rounds =
    (does (write (initial_packet opts)) ∷ [], err payload_unsent)
run_session opts true reads opens start rounds = elim (await_response reads) [
  | ok u ↦
      let (steps, end) = on_console opts.no_terminal opens (established opts start rounds) in
      (does (write (initial_packet opts)) ∷ steps, end)
  | err e ↦ (does (write (initial_packet opts)) ∷ [], err e)
  | panic ↦ (does (write (initial_packet opts)) ∷ [], panic)
  | stuck ↦ (does (write (initial_packet opts)) ∷ [], stuck)
]
