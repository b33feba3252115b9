-- ===== src/Client/Session/Complete.antt =====
-- A whole run of `run_session`: what it shows and sends between the console's setup and its teardown.
use eternal_terminal_client.Base.{
  ℕ, ◌≡◌, refl, ap, ◌∙◌, Bool, true, false, Option, none, some, List, [], ◌∷◌, ◌++◌, map,
  append-nil, not, ok,
}
use eternal_terminal_client.Packet.{Packet}
use eternal_terminal_client.Client.{
  ClientOptions, Loop, Effect, write, initial_packet, await_response, command_packet,
  keepalive_duration,
}
use eternal_terminal_client.Client.Session.{
  Round, Ran, before, run_loop, command_effects, start_loop, established, setup, teardown, does,
  Run, on_console, run_session,
}
use eternal_terminal_client.Client.Session.Effects.{shown_text, buffers, Does, Does-append}
use eternal_terminal_client.Client.Session.Shown.{
  Arrived, round_of, all_text, all_typed, AllArrived, run_loop-Does,
}

abbrev pub command_packets : ClientOptions → Option (List ℕ) → List Packet
command_packets opts none = []
command_packets opts (some cmd) = command_packet opts cmd ∷ []

command_effects-Does :
    (opts : ClientOptions) (command : Option (List ℕ))
    → Does [] (command_packets opts command) (command_effects opts command)
unfolding shown_text buffers command_packet
command_effects-Does opts none = (refl, refl)
command_effects-Does opts (some cmd) = (refl, refl)

run_loop-stops :
    (has_console : Bool) (duration : ℕ) (stop : Round) (ts : List Round) (l : Loop)
    → stop.stopping ≡ true
    → run_loop has_console duration (stop ∷ ts) l ≡ ([], ok none)
unfolding run_loop
run_loop-stops has_console duration stop ts l e = rw (run_loop, e)

-- Behind the first packet: what the console adds to a run.
abbrev session : ClientOptions → Bool → Bool → Ran → Run
session opts no_terminal opens ran = (
  does (write (initial_packet opts)) ∷ (on_console no_terminal opens ran).0,
  (on_console no_terminal opens ran).1,
)

accepted :
    (opts : ClientOptions) (reads : List (Option Packet)) (opens : Bool) (start : ℕ)
    (rounds : List Round)
    → await_response reads ≡ ok tt
    → run_session opts true reads opens start rounds
      ≡ session opts opts.no_terminal opens (established opts start rounds)
unfolding run_session
accepted opts reads opens start rounds e = rw (run_session, e)

-- On a console that opens, takes all output and can always be read, where the server accepts the first packet,
-- in any rounds of the loop with a socket or without one, whatever the server sends in those with one
-- (output that it encoded, answers to keepalives, packets of other types), whatever is typed, at
-- whatever times, until a stop is asked for: the session ends without an error. The first packet is sent before
-- the console is set up, and the teardown is the last step. Between them the console shows all the output of the
-- rounds with a socket, in the order of the packets and nothing else, and the terminal buffers that are
-- given to `write_packet` are the command's, if there is one, and then what was typed in all rounds, in
-- that order and nothing else.
pub run_session-Does :
    (opts : ClientOptions) (reads : List (Option Packet)) (start : ℕ) (rs : List Arrived)
    (stop : Round) (more : List Round)
    → opts.no_terminal ≡ false
    → await_response reads ≡ ok tt
    → AllArrived rs
    → stop.stopping ≡ true
    → (es : List Effect) × (run_session opts true reads true start (map round_of rs ++ stop ∷ more)
        ≡ (does (write (initial_packet opts)) ∷ setup ∷ (map does es ++ teardown ∷ []), ok none))
      × Does (all_text rs) (command_packets opts opts.command ++ all_typed rs) es
run_session-Does opts reads start rs stop more t a h s =
    let d = keepalive_duration opts in
    let l = start_loop opts start in
    let rounds = map round_of rs ++ stop ∷ more in
    let sends = command_effects opts opts.command in
    let (es, l', e, done) = run_loop-Does d rs (stop ∷ more) l h in
    (
      sends ++ es,
      accepted opts reads true start rounds a
          ∙ ap (λ b. session opts b true (before sends (run_loop (not b) d rounds l))) t
          ∙ ap (λ ran. session opts false true (before sends ran))
              (e ∙ ap (before es) (run_loop-stops true d stop more l' s))
          ∙ ap (λ fs. session opts false true (sends ++ fs, ok none)) (append-nil es),
      Does-append [] (all_text rs) (command_packets opts opts.command) (all_typed rs) sends es
          (command_effects-Does opts opts.command) done,
    )
