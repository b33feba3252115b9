-- ===== src/Connection/Handshake.antt =====
-- `connect` and `try_recover` against a server that sends whole messages.
use eternal_terminal_client.Base.{
  ℕ, ◌≤◌, ◌≡◌, refl, ap, ◌∙◌, Bool, true, Option, none, some, List, [], ◌++◌, append_assoc, Outcome,
  ok, err, map_err, length,
}
use eternal_terminal_client.Base.Int.{pos, i64_as_i32}
use eternal_terminal_client.Base.Io.{Writer}
use eternal_terminal_client.Proto.Messages.{
  ConnectStatus, new_client, returning_client, invalid_key, mismatched_protocol, ConnectResponse,
  SequenceHeader, CatchupBuffer,
}
use eternal_terminal_client.Proto.Message.{ProtoMessage}
use eternal_terminal_client.Proto.Codec.ConnectRequest.{connect_request_message}
use eternal_terminal_client.Proto.Codec.ConnectResponse.{connect_response_message}
use eternal_terminal_client.Proto.Codec.SequenceHeader.{sequence_header_message}
use eternal_terminal_client.Proto.Codec.CatchupBuffer.{catchup_buffer_message}
use eternal_terminal_client.Proto.Frame.{max_proto, read_proto}
use eternal_terminal_client.Proto.Frame.RoundTrip.{
  open_writer, packed, write_proto-written, read_proto-frame,
}
use eternal_terminal_client.Crypto.{key_bytes, client_server_nonce_msb, server_client_nonce_msb}
use eternal_terminal_client.Crypto.Nonce.{fresh, new-fresh}
use eternal_terminal_client.Backed.Writer
use eternal_terminal_client.Backed.Socket.{WriteEvent}
use eternal_terminal_client.Backed.Reader
use eternal_terminal_client.Backed.Reader.{ReadEvent}
use eternal_terminal_client.Connection.{
  Shared, Peer, ConnectError, sent, send, receive, request, read_half, write_half, establish,
  on_connect_status, connect, local_seq, resume, refused, read,
}

-- A message that survives the wire.
abbrev pub IsSendable : {M : Type 0} ⦃p : ProtoMessage M⦄ → M → Type 0
IsSendable ⦃p⦄ m = (p.decode (p.encode m) ≡ ok m) × (length (p.encode m) ≤ max_proto)

module _ {M : Type 0} ⦃p : ProtoMessage M⦄ where
  send-packed : (b : List ℕ) (m : M) → send (open_writer b) m ≡ ok (open_writer (b ++ packed m))
  unfolding send
  send-packed b m = ap sent (write_proto-written b m)

  receive-packed :
      (m : M) (rest : List ℕ) → IsSendable m → receive (packed m ++ rest) ≡ ok (m, rest)
  unfolding receive
  receive-packed m rest h = ap (map_err read) (
      ap read_proto (append_assoc _ (p.encode m) rest)
      ∙ read_proto-frame (p.encode m) rest m h.1 h.0)

-- A stream that takes what is written, and on which the server sends `input`.
abbrev pub server : List ℕ → List ReadEvent → List WriteEvent → Peer
server input reads writes = record {
  input = input;
  output = open_writer [];
  reads = reads;
  writes = writes;
}

abbrev pub IsWelcome : Option ConnectStatus → Type 0
IsWelcome (some new_client) = Unit
IsWelcome (some returning_client) = Unit
IsWelcome (some invalid_key) = ⊥
IsWelcome (some mismatched_protocol) = ⊥
IsWelcome none = ⊥

module _ (s : Shared) (resp : ConnectResponse) (rest : List ℕ) (reads : List ReadEvent)
    (writes : List WriteEvent) (good : IsSendable resp) where
  abbrev pub peer : Peer
  peer = server (packed resp ++ rest) reads writes

  abbrev pub asked : Writer
  asked = open_writer (packed (request s))

  connect_responded :
      connect s peer ≡ on_connect_status resp.status resp.error (establish s peer asked rest)
  unfolding connect
  connect_responded = rw (send-packed [] (request s), receive-packed resp rest good)

  establish_keyed :
      length s.key ≡ key_bytes
      → establish s peer asked rest
        ≡ ok (record s {
          reader = some (Reader.new (fresh s.key server_client_nonce_msb) (read_half peer rest));
          writer = some (Writer.new (fresh s.key client_server_nonce_msb) (write_half peer asked));
          socket_alive = true;
        })
  unfolding establish
  establish_keyed k =
      rw (new-fresh s.key server_client_nonce_msb k, new-fresh s.key client_server_nonce_msb k)

  IsWelcome-goes :
      (o : Option ConnectStatus) (e : Option (List ℕ)) (go : Outcome ConnectError Shared)
      → (IsWelcome o → on_connect_status o e go ≡ go)
        × ((IsWelcome o → ⊥) → on_connect_status o e go ≡ err (refused o e))
  unfolding on_connect_status
  IsWelcome-goes (some new_client) e go = (λ _. refl, λ h. absurd (h tt))
  IsWelcome-goes (some returning_client) e go = (λ _. refl, λ h. absurd (h tt))
  IsWelcome-goes (some invalid_key) e go = (λ h. absurd h, λ _. refl)
  IsWelcome-goes (some mismatched_protocol) e go = (λ h. absurd h, λ _. refl)
  IsWelcome-goes none e go = (λ h. absurd h, λ _. refl)

  -- `connect` with a key of 32 bytes, over a stream that takes what is written and brings a response
  -- that survives the wire: on `NewClient` or `ReturningClient` it sends exactly the request, and
  -- starts both streams at sequence number 0, each with the nonce of its direction, the reader with the
  -- bytes behind the response; on any other status or none it fails with the status and the error text
  -- of the response.
  pub connect_lem :
      length s.key ≡ key_bytes
      → (IsWelcome resp.status
          → connect s peer
            ≡ ok (record s {
              reader =
                  some (Reader.new (fresh s.key server_client_nonce_msb) (read_half peer rest));
              writer =
                  some (Writer.new (fresh s.key client_server_nonce_msb) (write_half peer asked));
              socket_alive = true;
            }))
        × ((IsWelcome resp.status → ⊥) → connect s peer ≡ err (refused resp.status resp.error))
  connect_lem k = (
    λ h. connect_responded ∙ (IsWelcome-goes resp.status resp.error _).0 h ∙ establish_keyed k,
    λ h. connect_responded ∙ (IsWelcome-goes resp.status resp.error _).1 h,
  )

abbrev pub held : List (List ℕ) → CatchupBuffer
held catchup = record { buffer = catchup }

module _ (s : Shared) (resp : ConnectResponse) (remote : SequenceHeader) (missed : CatchupBuffer)
    (rest : List ℕ) (reads : List ReadEvent) (writes : List WriteEvent) (good : IsSendable resp)
    (good_remote : IsSendable remote) (good_missed : IsSendable missed) where
  abbrev pub replies : Peer
  replies = server (packed resp ++ (packed remote ++ (packed missed ++ rest))) reads writes

  abbrev pub counted : SequenceHeader
  counted = record { sequence_number = some (i64_as_i32 (pos (local_seq s.reader))) }

  abbrev resumption : Outcome ConnectError (Bool × Shared)
  resumption =
      resume s replies (open_writer (packed (request s))) (packed remote ++ (packed missed ++ rest))
