-- ===== src/Connection.antt =====
-- src/connection.rs: the handshake, the streams over it, and the recovery of a session.
pub mod Handshake
pub mod Client
use eternal_terminal_client.Base.{
  ℕ, ◌+◌, Bool, true, false, Option, none, some, List, [], ◌∷◌, ◌++◌, if◌then◌else◌, Outcome, ok,
  err, panic, stuck, ◌>>=◌, map_err,
}
use eternal_terminal_client.Base.Int.{ℤ, pos, i64_as_i32}
use eternal_terminal_client.Base.Io.{IoError, Writer}
use eternal_terminal_client.Proto.Messages.{
  protocol_version, ConnectStatus, new_client, returning_client, invalid_key, mismatched_protocol,
  ConnectRequest, ConnectResponse, SequenceHeader, CatchupBuffer,
}
use eternal_terminal_client.Proto.Message.{ProtoMessage}
use eternal_terminal_client.Proto.Codec.ConnectRequest.{connect_request_message}
use eternal_terminal_client.Proto.Codec.ConnectResponse.{connect_response_message}
use eternal_terminal_client.Proto.Codec.SequenceHeader.{sequence_header_message}
use eternal_terminal_client.Proto.Codec.CatchupBuffer.{catchup_buffer_message}
use eternal_terminal_client.Proto.Frame
use eternal_terminal_client.Proto.Frame.{write_proto, read_proto}
use eternal_terminal_client.Crypto
use eternal_terminal_client.Crypto.{CryptoError, client_server_nonce_msb, server_client_nonce_msb}
use eternal_terminal_client.Crypto.Secretbox.{Cipher}
use eternal_terminal_client.Packet.{Packet}
use eternal_terminal_client.Backed.Socket.{WriteEvent, WriteHalf}
use eternal_terminal_client.Backed.Writer
use eternal_terminal_client.Backed.Writer.{
  BackedWriter, WriteState, success, buffered_only, wrote_with_failure, skipped, RecoverError,
}
use eternal_terminal_client.Backed.Reader
use eternal_terminal_client.Backed.Reader.{ReadEvent, BackedReader, put_back}

-- `Shared`, and whether `reconnect_loop` is running. Host and port only go to `tcp_connect`.
pub record Shared : Type 0 where
  pub id : List ℕ
  pub key : List ℕ
  pub reader : Option BackedReader
  pub writer : Option BackedWriter
  pub socket_alive : Bool
  pub shutting_down : Bool
  pub reconnecting : Bool

abbrev pub new : List ℕ → List ℕ → Shared
new id passkey = record {
  id = id;
  key = passkey;
  reader = none;
  writer = none;
  socket_alive = false;
  shutting_down = false;
  reconnecting = false;
}

-- The stream that `tcp_connect` opened: what the server sends in the handshake, what it takes, and
-- the scripts of the non-blocking halves after the handshake.
pub record Peer : Type 0 where
  pub input : List ℕ
  pub output : Writer
  pub reads : List ReadEvent
  pub writes : List WriteEvent

-- The `anyhow::Error` of `connect` and `try_recover`.
pub data ConnectError : Type 0 where
  unreachable : ConnectError
  io : IoError → ConnectError
  read : Frame.ReadError → ConnectError
  refused : Option ConnectStatus → Option (List ℕ) → ConnectError
  recover : RecoverError → ConnectError
  crypto : CryptoError → ConnectError

-- `write_proto(..)?`
abbrev pub sent : Outcome IoError (Unit {0}) × Writer → Outcome ConnectError Writer
sent (ok _, w) = ok w
sent (err e, w) = err (io e)
sent (panic, w) = panic
sent (stuck, w) = stuck

module _ {M : Type 0} ⦃p : ProtoMessage M⦄ where
  unfoldable pub send : Writer → M → Outcome ConnectError Writer
  send w m = sent (write_proto w m)

  unfoldable pub receive : List ℕ → Outcome ConnectError (M × List ℕ)
  receive input = map_err read (read_proto input)

abbrev pub request : Shared → ConnectRequest
request s = record { client_id = some s.id; version = some protocol_version }

-- The halves of the stream behind the handshake.
abbrev pub read_half : Peer → List ℕ → List ReadEvent
read_half peer rest = put_back rest peer.reads

abbrev pub write_half : Peer → Writer → WriteHalf
write_half peer out = record { sent = out.written; writes = peer.writes }

-- `connect` behind a response with a good status.
pub establish : Shared → Peer → Writer → List ℕ → Outcome ConnectError Shared
establish s peer out rest = do
  reader_crypto ← map_err crypto (Crypto.new s.key server_client_nonce_msb)
  writer_crypto ← map_err crypto (Crypto.new s.key client_server_nonce_msb)
  ok (record s {
    reader = some (Reader.new reader_crypto (read_half peer rest));
    writer = some (Writer.new writer_crypto (write_half peer out));
    socket_alive = true;
  })

-- `match resp.status` of `connect`.
pub on_connect_status :
    Option ConnectStatus
    → Option (List ℕ)
    → Outcome ConnectError Shared
    → Outcome ConnectError Shared
on_connect_status (some new_client) error go = go
on_connect_status (some returning_client) error go = go
on_connect_status (some invalid_key) error go = err (refused (some invalid_key) error)
on_connect_status (some mismatched_protocol) error go =
    err (refused (some mismatched_protocol) error)
on_connect_status none error go = err (refused none error)

-- `connect`, with the stream that `tcp_connect` opened.
pub connect : Shared → Peer → Outcome ConnectError Shared
unfolding establish on_connect_status
connect s peer = do
  out ← send peer.output (request s)
  (resp, rest) ← receive {M = ConnectResponse} peer.input
  on_connect_status resp.status resp.error (establish s peer out rest)

abbrev pub local_seq : Option BackedReader → ℕ
local_seq none = 0
local_seq (some r) = r.sequence_number

abbrev pub remote_seq : Option ℤ → ℤ
remote_seq none = pos 0
remote_seq (some n) = n

pub recover_out : Option BackedWriter → ℤ → Outcome ConnectError (List (List ℕ))
recover_out none n = ok []
recover_out (some w) n = map_err recover (Writer.recover w n)

abbrev pub revive_reader :
    Option BackedReader → List ReadEvent → List (List ℕ) → Option BackedReader
revive_reader none socket catchup = none
revive_reader (some r) socket catchup = some (Reader.revive r socket catchup)

abbrev pub revive_writer : Option BackedWriter → WriteHalf → Option BackedWriter
revive_writer none socket = none
revive_writer (some w) socket = some (Writer.revive w socket)

-- `try_recover` behind the status `ReturningClient`, where no other thread writes meanwhile.
pub resume : Shared → Peer → Writer → List ℕ → Outcome ConnectError (Bool × Shared)
unfolding recover_out
resume s peer out input = do
  out₁ ←
      send {M = SequenceHeader} out
        (record { sequence_number = some (i64_as_i32 (pos (local_seq s.reader))) })
  (remote, input₁) ← receive {M = SequenceHeader} input
  catchup_out ← recover_out s.writer (remote_seq remote.sequence_number)
  out₂ ← send {M = CatchupBuffer} out₁ (record { buffer = catchup_out })
  (catchup_in, rest) ← receive {M = CatchupBuffer} input₁
  ok (
    true,
    record s {
      reader = revive_reader s.reader (read_half peer rest) catchup_in.buffer;
      writer = revive_writer s.writer (write_half peer out₂);
    },
  )

-- `match resp.status` of `try_recover`.
pub on_recover_status :
    Shared
    → Option ConnectStatus
    → Option (List ℕ)
    → Outcome ConnectError (Bool × Shared)
    → Outcome ConnectError (Bool × Shared)
on_recover_status s (some invalid_key) error go = ok (false, s)
on_recover_status s (some returning_client) error go = go
on_recover_status s (some new_client) error go = err (refused (some new_client) error)
on_recover_status s (some mismatched_protocol) error go =
    err (refused (some mismatched_protocol) error)
on_recover_status s none error go = err (refused none error)

-- `try_recover`; `none` is a `tcp_connect` that failed.
pub try_recover : Shared → Option Peer → Outcome ConnectError (Bool × Shared)
unfolding resume on_recover_status
try_recover s none = err unreachable
try_recover s (some peer) = do
  out ← send peer.output (request s)
  (resp, input) ← receive {M = ConnectResponse} peer.input
  on_recover_status s resp.status resp.error (resume s peer out input)
