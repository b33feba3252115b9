-- ===== src/Connection/Client/Threads.antt =====
-- `reconnect_loop` and `try_recover` of src/connection.rs a shared access at a time, beside the thread that uses the
-- connection. What only the loop's own thread sees (its stream, its local variables) goes with the access
-- before it; sleeping is no step.
pub mod Cut
pub mod Alone
use eternal_terminal_client.Base.{
  ℕ, Bool, true, false, Option, none, some, List, Outcome, ok, err, panic, stuck, ◌≡◌, ◌>>=◌,
  if◌then◌else◌,
}
use eternal_terminal_client.Base.Int.{ℤ, pos, i64_as_i32}
use eternal_terminal_client.Base.Io.{Writer}
use eternal_terminal_client.Crypto.Secretbox.{Cipher}
use eternal_terminal_client.Packet.{Packet}
use eternal_terminal_client.Proto.Messages.{
  ConnectStatus, new_client, returning_client, invalid_key, mismatched_protocol, ConnectResponse,
  SequenceHeader, CatchupBuffer,
}
use eternal_terminal_client.Proto.Codec.ConnectRequest.{connect_request_message}
use eternal_terminal_client.Proto.Codec.ConnectResponse.{connect_response_message}
use eternal_terminal_client.Proto.Codec.SequenceHeader.{sequence_header_message}
use eternal_terminal_client.Proto.Codec.CatchupBuffer.{catchup_buffer_message}
use eternal_terminal_client.Backed.Socket.{WriteHalf}
use eternal_terminal_client.Backed.Reader.{ReadEvent}
use eternal_terminal_client.Connection.{
  Shared, Peer, ConnectError, refused, send, receive, request, read_half, write_half, local_seq,
  remote_seq, recover_out, revive_reader, revive_writer,
}
use eternal_terminal_client.Connection.Client.{
  write_to, read_once, close_and_maybe_reconnect, begin_shutdown, end_shutdown,
}

-- What the loop's thread does next, with the local variables that are live there.
pub data Position : Type 0 where
  -- There is no such thread.
  no_loop : Position
  -- It loads `socket_alive`; then `shutting_down`; then it calls `try_recover`.
  head loaded trying : Position
  -- It takes the reader's lock for `local_seq`.
  greeted : Peer → Writer → List ℕ → Position
  -- It takes the writer's lock for `recover`.
  announced : Peer → Writer → List ℕ → ℤ → Position
  -- It takes the reader's lock for `revive`; then the writer's.
  exchanged : List ReadEvent → List (List ℕ) → WriteHalf → Position
  reader_revived : WriteHalf → Position
  -- It sets `socket_alive`.
  recovered : Position
  -- It sets `shutting_down`: the server has ended the session.
  session_ended : Position
  -- It hangs.
  hung : Position

abbrev pub is_running : Position → Bool
is_running no_loop = false
is_running head = true
is_running loaded = true
is_running trying = true
is_running (greeted peer out input) = true
is_running (announced peer out input remote) = true
is_running (exchanged reads catchup half) = true
is_running (reader_revived half) = true
is_running recovered = true
is_running session_ended = true
is_running hung = true

-- `match resp.status` of `try_recover`.
abbrev pub on_status :
    Option ConnectStatus → Option (List ℕ) → Position → Outcome ConnectError Position
on_status (some invalid_key) error go = ok session_ended
on_status (some returning_client) error go = ok go
on_status (some new_client) error go = err (refused (some new_client) error)
on_status (some mismatched_protocol) error go = err (refused (some mismatched_protocol) error)
on_status none error go = err (refused none error)

-- `try_recover` up to `local_seq`, with the stream that `tcp_connect` opened.
pub greet : Shared → Peer → Outcome ConnectError Position
greet s peer = do
  out ← send peer.output (request s)
  (resp, input) ← receive {M = ConnectResponse} peer.input
  on_status resp.status resp.error (greeted peer out input)

-- From `local_seq` up to `recover`.
pub announce : Shared → Peer → Writer → List ℕ → Outcome ConnectError Position
announce s peer out input = do
  out₁ ←
      send {M = SequenceHeader} out
        (record { sequence_number = some (i64_as_i32 (pos (local_seq s.reader))) })
  (remote, input₁) ← receive {M = SequenceHeader} input
  ok (announced peer out₁ input₁ (remote_seq remote.sequence_number))

-- From `recover` up to the first `revive`.
pub exchange : Shared → Peer → Writer → List ℕ → ℤ → Outcome ConnectError Position
exchange s peer out₁ input₁ remote = do
  catchup_out ← recover_out s.writer remote
  out₂ ← send {M = CatchupBuffer} out₁ (record { buffer = catchup_out })
  (catchup_in, rest) ← receive {M = CatchupBuffer} input₁
  ok (exchanged (read_half peer rest) catchup_in.buffer (write_half peer out₂))

-- An error ends the round, a panic the thread.
abbrev pub go_on : Outcome ConnectError Position → Position
go_on (ok at) = at
go_on (err e) = head
go_on panic = no_loop
go_on stuck = hung

-- The next access of the loop's thread, with what `tcp_connect` finds if it is called.
unfoldable pub advance : Option Peer → Position → Shared → Position × Shared
unfolding greet announce exchange
advance found no_loop s = (no_loop, s)
advance found head s = (if s.socket_alive then no_loop else loaded, s)
advance found loaded s = (if s.shutting_down then no_loop else trying, s)
advance none trying s = (head, s)
advance (some peer) trying s = (go_on (greet s peer), s)
advance found (greeted peer out input) s = (go_on (announce s peer out input), s)
advance found (announced peer out input remote) s = (go_on (exchange s peer out input remote), s)
advance found (exchanged reads catchup half) s =
    (reader_revived half, record s { reader = revive_reader s.reader reads catchup })
advance found (reader_revived half) s =
    (recovered, record s { writer = revive_writer s.writer half })
advance found recovered s = (no_loop, record s { socket_alive = true })
advance found session_ended s = (no_loop, record s { shutting_down = true })
advance found hung s = (hung, s)

pub record Threads : Type 0 where
  pub shared : Shared
  pub position : Position

-- With the field that says whether the loop's thread runs.
abbrev pub at : Position × Shared → Threads
at (p, s) = record { shared = record s { reconnecting = is_running p }; position = p }

abbrev pub with_writer : Cipher → Shared → Packet → Shared
with_writer c s p = record s { writer = (write_to c s.writer p).1 }

-- The steps of the two threads, in any order. `write` is what a round of `write_packet` does behind its load of
-- `shutting_down`, whatever that has found. `close_and_maybe_reconnect` and the end of `shutdown` stand
-- behind their wait for the loop's thread, so nothing comes between their accesses.
pub data Step (c : Cipher) (t t' : Threads) : Type 0 where
  write : (p : Packet) → t' ≡ record t { shared = with_writer c t.shared p } → Step c t t'
  read : t' ≡ record t { shared = (read_once c t.shared).1 } → Step c t t'
  close :
      t.shared.reconnecting ≡ false
      → t'
        ≡ at (if t.shared.shutting_down then no_loop else head, close_and_maybe_reconnect t.shared)
      → Step c t t'
  loop : (found : Option Peer) → t' ≡ at (advance found t.position t.shared) → Step c t t'
  shut_down : t' ≡ record t { shared = begin_shutdown t.shared } → Step c t t'
  shut :
      t.shared.reconnecting ≡ false → t' ≡ record t { shared = end_shutdown t.shared } → Step c t t'

pub data Reach (c : Cipher) (start : Threads) : Threads → Type 0 where
  here : Reach c start start
  next : {t t' : Threads} → Reach c start t → Step c t t' → Reach c start t'
