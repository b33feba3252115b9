-- ===== src/Tests/ClientTests.antt =====
-- src/client.rs on packets and times written out.
use eternal_terminal_client.Base.{
  ℕ, ◌==◌, ◌≡◌, refl, true, false, none, some, List, [], ◌∷◌, ◌++◌, map, arith, ok, err,
}
use eternal_terminal_client.Base.Int.{pos}
use eternal_terminal_client.Packet
use eternal_terminal_client.Packet.{Packet}
use eternal_terminal_client.Proto.Messages.{InitialResponse, keep_alive, initial_response}
use eternal_terminal_client.Proto.Codec.InitialResponse
use eternal_terminal_client.Proto.Codec.TerminalInfo
use eternal_terminal_client.Client.{
  ClientOptions, default, Loop, Effect, write, close, idle, initial_packet, refused, await_response,
  unexpected_header, timeout,
}
use eternal_terminal_client.Client.Session.{Round, setup, teardown, does, run_session}
use eternal_terminal_client.Client.Session.Effects.{Does}
use eternal_terminal_client.Client.Session.Shown.{Arrived, round_of, all_text, all_typed}
use eternal_terminal_client.Client.Session.Complete.{command_packets, run_session-Does}
use eternal_terminal_client.Client.Responses.{response, await_response_lem}
use eternal_terminal_client.Client.Output.{Incoming, output, alive, unused}
use eternal_terminal_client.Client.Keepalive.{quiet, quiet_closes}

await_response_lem_example :
    ((m : InitialResponse)
      → InitialResponse.IsValid m
      → (m.error ≡ none → await_response (none ∷ none ∷ some (response m) ∷ []) ≡ ok tt)
        × (m.error ≡ some [] → await_response (none ∷ none ∷ some (response m) ∷ []) ≡ ok tt)
        × ((b : ℕ) (text : List ℕ)
            → m.error ≡ some (b ∷ text)
            → await_response (none ∷ none ∷ some (response m) ∷ []) ≡ err (refused (b ∷ text))))
    × ((pkt : Packet)
        → (pkt.header == initial_response) ≡ false
        → await_response (none ∷ none ∷ some pkt ∷ []) ≡ err (unexpected_header pkt.header))
    × (await_response (none ∷ none ∷ []) ≡ err timeout)
await_response_lem_example = await_response_lem 2 []

abbrev start : Loop
start = record {
  keepalive_deadline = 5000;
  waiting_on_keepalive = false;
  last_ti = TerminalInfo.default;
}

abbrev arrived : List (Incoming × ℕ)
arrived =
    (output (1 ∷ 2 ∷ []), 10)
    ∷ (alive [], 11)
    ∷ (unused (Packet.new 254 []), 11)
    ∷ (output (3 ∷ []), 12)
    ∷ []

quiet_closes_example :
    quiet true 5000 ((100, 100) ∷ (5003, 5004) ∷ (7000, 7000) ∷ (10004, 10005) ∷ []) start
    ≡ ok (
      record start { keepalive_deadline = 15005; waiting_on_keepalive = false },
      write (Packet.new keep_alive []) ∷ close ∷ [],
    )
quiet_closes_example =
    quiet_closes true 5000 ((100, 100) ∷ []) ((7000, 7000) ∷ []) start 5003 5004 10004 10005 refl
      (omega arith) (omega arith) (omega arith) (omega arith)

abbrev three_rounds : List Arrived
three_rounds =
    record {
      online = true;
      incoming = arrived;
      now = 13;
      later = 13;
      typed_at = 15;
      keys = some (9 ∷ []);
      info = TerminalInfo.default;
    }
    ∷ record {
      online = false;
      incoming = [];
      now = 16;
      later = 16;
      typed_at = 18;
      keys = some (8 ∷ []);
      info = TerminalInfo.default;
    }
    ∷ record {
      online = true;
      incoming = (output (4 ∷ []), 20) ∷ [];
      now = 21;
      later = 21;
      typed_at = 25;
      keys = none;
      info = record TerminalInfo.default { row = some (pos 24) };
    }
    ∷ []

abbrev stop : Round
stop = record {
  stopping = true;
  has_socket = false;
  pkts = [];
  shows = true;
  now = 30;
  later = 30;
  typed_at = 30;
  input = idle;
  info = TerminalInfo.default;
}

abbrev options : ClientOptions
options = record default { command = some (b'l' ∷ b's' ∷ []) }

abbrev answer : Packet
answer = Packet.new initial_response (InitialResponse.encode (record { error = none }))

answered : await_response (none ∷ some answer ∷ []) ≡ ok tt
answered = ((await_response_lem 1 []).0 (record { error = none }) tt).0 refl

run_session-Does_example :
    (es : List Effect) × (run_session options true
        (none ∷ some answer ∷ [])
        true
        0
        (map round_of three_rounds ++ stop ∷ [])
      ≡ (does (write (initial_packet options)) ∷ setup ∷ (map does es ++ teardown ∷ []), ok none))
    × Does
        (all_text three_rounds)
        (command_packets options options.command ++ all_typed three_rounds)
        es
run_session-Does_example =
    run_session-Does options (none ∷ some answer ∷ []) 0 three_rounds stop [] refl answered
      ((omega arith, (tt, ((refl, refl), (omega arith, tt)))), (tt, ((omega arith, tt), tt))) refl
