-- ===== src/Tests/ConnectionTests.antt =====
-- src/connection.rs against servers written out.
use eternal_terminal_client.Base.{
  Option, ℕ, ◌≡◌, ◌≢◌, refl, true, false, none, some, List, [], ◌∷◌, ◌++◌, arith, ok, err,
  replicate,
}
use eternal_terminal_client.Base.Int.{ℤ, as_u64}
use eternal_terminal_client.Base.Bytes.{be_bytes}
use eternal_terminal_client.Base.Io
use eternal_terminal_client.Crypto.{key_bytes, client_server_nonce_msb, server_client_nonce_msb}
use eternal_terminal_client.Crypto
use eternal_terminal_client.Crypto.Nonce.{fresh}
use eternal_terminal_client.Packet
use eternal_terminal_client.Packet.{Packet}
use eternal_terminal_client.Proto.Varint.Groups.{groups}
use eternal_terminal_client.Proto.Wire.Items.{items_bytes}
use eternal_terminal_client.Proto.Messages.{
  ConnectResponse, SequenceHeader, new_client, returning_client,
}
use eternal_terminal_client.Proto.Codec.ConnectRequest.{connect_request_message}
use eternal_terminal_client.Proto.Codec.ConnectResponse.{connect_response_message}
use eternal_terminal_client.Proto.Codec.ConnectResponse
use eternal_terminal_client.Proto.Codec.SequenceHeader.{sequence_header_message}
use eternal_terminal_client.Proto.Codec.SequenceHeader
use eternal_terminal_client.Proto.Codec.CatchupBuffer.{catchup_buffer_message}
use eternal_terminal_client.Proto.Codec.CatchupBuffer
use eternal_terminal_client.Proto.Frame.RoundTrip.{open_writer, packed}
use eternal_terminal_client.Backed.Socket.{WriteHalf, failed, write_loop, write_all_retry}
use eternal_terminal_client.Backed.Writer
use eternal_terminal_client.Backed.Writer.{
  BackedWriter, wrote_with_failure, socket_alive, push, write, store, send, evict, frame,
}
use eternal_terminal_client.Backed.Writer.History.{new-IsBacked}
use eternal_terminal_client.Backed.Reader
use eternal_terminal_client.Connection
use eternal_terminal_client.Connection.{
  Shared, Peer, connect, refused, request, read_half, write_half, recover_out, recover,
}
use eternal_terminal_client.Connection.Handshake.{IsSendable, server, held, connect_lem}
use eternal_terminal_client.Connection.Client.{
  here, next, close_and_maybe_reconnect, begin_shutdown, end_shutdown, write_once, returned,
  reconnect_once, shut,
}
use eternal_terminal_client.Connection.Client.Shutdown.{Reach-shutting}
use eternal_terminal_client.Connection.Client.Threads
use eternal_terminal_client.Connection.Client.Threads.{
  Threads, at, advance, head, no_loop, announced, with_writer, loop,
}
use eternal_terminal_client.Connection.Client.Threads.Cut.{IsConsistent, Reach-IsConsistent}
use eternal_terminal_client.Connection.Client.Twice.{Doubled, write_packet_doubles}
use eternal_terminal_client.Tests.CryptoTests.{toy, handler, plain, sealed_plain, encrypt-plain}
use eternal_terminal_client.Tests.SessionTests.{encrypt-plain_again}

-- The id "hi" and a key of 32 bytes.
abbrev session : Shared
session = Connection.new (104 ∷ 105 ∷ []) (replicate 32 7)

abbrev welcome : ConnectResponse
welcome = record { status = some new_client; error = none }

encode_welcome : ConnectResponse.encode welcome ≡ 8 ∷ 1 ∷ []
unfolding items_bytes groups as_u64
encode_welcome = ConnectResponse.encode-items welcome tt

welcome-IsSendable : IsSendable welcome
welcome-IsSendable =
    (ConnectResponse.decode-encode_connect_response welcome tt, rw (encode_welcome) (omega arith))

connect_lem_example :
    (Unit {0}
      → connect session (server (packed welcome ++ 5 ∷ []) [] [])
        ≡ ok (record session {
          reader = some (
              Reader.new
                (fresh (replicate 32 7) 1)
                (read_half (server (packed welcome ++ 5 ∷ []) [] []) (5 ∷ [])));
          writer = some (
              Writer.new (fresh (replicate 32 7) 0) (
                write_half
                  (server (packed welcome ++ 5 ∷ []) [] [])
                  (open_writer (packed (request session)))));
          socket_alive = true;
        }))
    × ((Unit {0} → ⊥)
        → connect session (server (packed welcome ++ 5 ∷ []) [] [])
          ≡ err (refused (some new_client) none))
connect_lem_example = connect_lem session welcome (5 ∷ []) [] [] welcome-IsSendable refl

abbrev resumption : ConnectResponse
resumption = record { status = some returning_client; error = none }

abbrev no_count : SequenceHeader
no_count = record { sequence_number = none }

abbrev answers : Peer
answers = server (packed resumption ++ (packed no_count ++ (packed (held []) ++ 5 ∷ []))) [] []

-- A connection whose writer's socket fails at once.
abbrev failing : WriteHalf
failing = record { sent = []; writes = failed ∷ [] }

abbrev up : Shared
up = record session { writer = some (Writer.new handler failing); socket_alive = true }

abbrev down : Threads
down = at (head, close_and_maybe_reconnect up)

-- The loop's thread comes to `try_recover`, and a packet is buffered meanwhile.
abbrev waiting : Threads
waiting = at (
    advance none (advance none head down.shared).0
      (with_writer toy (close_and_maybe_reconnect up) plain))

closed : Threads.Reach toy (record { shared = up; position = no_loop }) down
closed = Threads.next Threads.here (Threads.close refl refl)

waited : Threads.Reach toy (record { shared = up; position = no_loop }) waiting
unfolding close_and_maybe_reconnect advance
waited =
    Threads.next (Threads.next (Threads.next closed (loop none refl)) (Threads.write plain refl))
      (loop none refl)

Reach-IsConsistent_example :
    IsConsistent waiting
    × ((peer : Peer) (out : Io.Writer) (input : List ℕ) (remote : ℤ)
        → waiting.position ≡ announced peer out input remote
        → recover_out waiting.shared.writer remote ≢ err (recover socket_alive))
Reach-IsConsistent_example = Reach-IsConsistent toy up waiting refl waited

fails : (write toy (Writer.new handler failing) plain).0 ≡ some wrote_with_failure
unfolding write store send evict push frame Packet.serialize Packet.encrypt Packet.set_payload
    Crypto.encrypt write_all_retry write_loop be_bytes
fails = refl

write_packet_doubles_example : Doubled toy up [] plain sealed_plain sealed_plain
unfolding write store send evict push frame Packet.serialize Packet.encrypt Packet.set_payload
    Crypto.encrypt write_all_retry write_loop be_bytes
write_packet_doubles_example =
    write_packet_doubles toy up (Writer.new handler failing) [] plain sealed_plain sealed_plain
      (Crypto.step_nonce handler) (Crypto.step_nonce (Crypto.step_nonce handler)) refl refl
      (new-IsBacked handler failing) encrypt-plain encrypt-plain_again fails (omega arith)

abbrev stopping : Shared
stopping = begin_shutdown up

abbrev stopped : Shared
stopped = end_shutdown stopping

Reach-shutting_example :
    (stopped.shutting_down ≡ true)
    × ((p : Packet) → write_once toy stopped p ≡ (returned false, stopped))
    × ((peer : Option Peer) → reconnect_once stopped peer ≡ record stopped { reconnecting = false })
    × ((close_and_maybe_reconnect stopped).reconnecting ≡ false)
    × (stopping.reconnecting ≡ false → stopped.reconnecting ≡ false)
Reach-shutting_example = Reach-shutting toy stopping stopped refl (next here (shut refl refl))
