-- ===== src/Tests/ProtoTests.antt =====
-- src/proto.rs on concrete bytes.
use eternal_terminal_client.Base.{
  ℕ, ◌^◌, ◌≤◌, ◌<◌, ◌≡◌, ◌↔◌, refl, subst, ◌∙◌, none, some, List, [], ◌∷◌, ◌++◌, false, arith, ok,
  err, panic, replicate, All,
}
use eternal_terminal_client.Base.Int.{pos, negsuc, as_u64}
use eternal_terminal_client.Base.Utf8.{is_utf8}
use eternal_terminal_client.Proto.Error.{truncated, invalid_varint}
use eternal_terminal_client.Proto.Varint.{write_varint, read_varint}
use eternal_terminal_client.Proto.Varint.Groups.{groups, write_varint-groups}
use eternal_terminal_client.Proto.Varint.RoundTrip.{read_varint-write_varint}
use eternal_terminal_client.Proto.Varint.Bounds.{read_varint_errors, IsMarked}
use eternal_terminal_client.Proto.Wire.{parse_message}
use eternal_terminal_client.Proto.Wire.Items.{Item, varint, delimited, items_bytes, item_field}
use eternal_terminal_client.Proto.Wire.Parse.{parse_message-items}
use eternal_terminal_client.Proto.Wire.Total.{IsParse, parse_message_total}
use eternal_terminal_client.Proto.Wire.Panic.{announced, parse_message_panics}
use eternal_terminal_client.Proto.Messages.{
  ConnectRequest, ConnectResponse, CatchupBuffer, TerminalInfo, SocketEndpoint,
  PortForwardSourceRequest, InitialPayload, returning_client,
}
use eternal_terminal_client.Proto.Message.{IsStr}
use eternal_terminal_client.Proto.Codec.ConnectRequest
use eternal_terminal_client.Proto.Codec.ConnectRequest.{connect_request_message}
use eternal_terminal_client.Proto.Codec.SocketEndpoint
use eternal_terminal_client.Proto.Codec.PortForwardSourceRequest
use eternal_terminal_client.Proto.Codec.InitialPayload
use eternal_terminal_client.Proto.Codec.InitialPayload.RoundTrip
use eternal_terminal_client.Proto.Codec.InitialPayload.Entry
use eternal_terminal_client.Proto.Frame.{write_proto, read_proto}
use eternal_terminal_client.Proto.Frame.RoundTrip.{open_writer, read_proto-write_proto}

read_varint-write_varint_example : read_varint (write_varint [] 300 ++ 9 ∷ []) ≡ ok (300, 9 ∷ [])
read_varint-write_varint_example = read_varint-write_varint 300 (9 ∷ []) (omega arith)

bytes_300 : write_varint [] 300 ≡ 172 ∷ 2 ∷ []
unfolding groups
bytes_300 = write_varint-groups [] 300 (omega arith)

read_300 : read_varint (172 ∷ 2 ∷ 9 ∷ []) ≡ ok (300, 9 ∷ [])
read_300 =
    subst (λ t. read_varint (t ++ 9 ∷ []) ≡ ok (300, 9 ∷ [])) bytes_300
      (read_varint-write_varint 300 (9 ∷ []) (omega arith))

read_varint_errors_example :
    ((read_varint (172 ∷ []) ≡ err invalid_varint) ↔ ((10 ≤ 1) × All IsMarked (172 ∷ [])))
    × ((read_varint (172 ∷ []) ≡ err truncated) ↔ ((1 < 10) × All IsMarked (172 ∷ [])))
read_varint_errors_example = read_varint_errors (172 ∷ []) (omega arith)

abbrev two_items : List Item
two_items = varint 3 300 ∷ delimited 1 (104 ∷ 105 ∷ []) ∷ []

parse_message-items_example :
    parse_message (items_bytes two_items)
    ≡ ok (item_field (varint 3 300) ∷ item_field (delimited 1 (104 ∷ 105 ∷ [])) ∷ [])
parse_message-items_example = parse_message-items two_items (omega arith)

parse_message_total_example : IsParse (parse_message (8 ∷ 1 ∷ 18 ∷ 5 ∷ []))
parse_message_total_example = parse_message_total (8 ∷ 1 ∷ 18 ∷ 5 ∷ [])

parse_message_panics_example :
    parse_message (items_bytes two_items ++ (announced 2 (2 ^ 63) ++ [])) ≡ panic
parse_message_panics_example =
    parse_message_panics two_items 2 (2 ^ 63) [] (omega arith) (omega arith) (omega arith)
      (omega arith)

-- "hi"
abbrev hi : List ℕ
hi = 104 ∷ 105 ∷ []

hi-IsStr : IsStr hi
unfolding is_utf8
hi-IsStr = (refl, omega arith)

abbrev request : ConnectRequest
request = record { client_id = some hi; version = some (pos 6) }

abbrev response : ConnectResponse
response = record { status = some returning_client; error = some hi }

abbrev catchup : CatchupBuffer
catchup = record { buffer = hi ∷ [] ∷ hi ∷ [] }

abbrev info : TerminalInfo
info = record {
  id = none;
  row = some (pos 24);
  column = some (pos 80);
  width = some (negsuc 0);
  height = none;
}

abbrev endpoint : SocketEndpoint
endpoint = record { name = some hi; port = some (pos 8080) }

endpoint-IsValid : SocketEndpoint.IsValid endpoint
endpoint-IsValid = (hi-IsStr, omega arith)

encode_endpoint : SocketEndpoint.encode endpoint ≡ 10 ∷ 2 ∷ 104 ∷ 105 ∷ 16 ∷ 144 ∷ 63 ∷ []
unfolding items_bytes groups as_u64
encode_endpoint = SocketEndpoint.encode-items endpoint endpoint-IsValid

endpoint-IsEndpoint : PortForwardSourceRequest.IsEndpoint endpoint
endpoint-IsEndpoint = (endpoint-IsValid, rw (encode_endpoint) (omega arith))

abbrev tunnel : PortForwardSourceRequest
tunnel = record { source = some endpoint; destination = some endpoint; environment_variable = none }

encode_tunnel :
    PortForwardSourceRequest.encode tunnel
    ≡ 10 ∷ 7 ∷ 10 ∷ 2 ∷ 104 ∷ 105 ∷ 16 ∷ 144 ∷ 63 ∷ 18 ∷ 7 ∷ 10 ∷ 2 ∷ 104 ∷ 105 ∷ 16 ∷ 144 ∷ 63 ∷ []
unfolding items_bytes groups
encode_tunnel =
    PortForwardSourceRequest.encode-items tunnel (endpoint-IsEndpoint, endpoint-IsEndpoint, tt)
    ∙ rw (encode_endpoint)

tunnel-IsTunnel : RoundTrip.IsTunnel tunnel
tunnel-IsTunnel = ((endpoint-IsEndpoint, endpoint-IsEndpoint, tt), rw (encode_tunnel) (omega arith))

-- "hi" = "hi" in the environment.
encode_entry : Entry.entry_bytes (hi, hi) ≡ 10 ∷ 2 ∷ 104 ∷ 105 ∷ 18 ∷ 2 ∷ 104 ∷ 105 ∷ []
unfolding items_bytes groups
encode_entry = Entry.entry_bytes-items (hi, hi) hi-IsStr hi-IsStr

hi-IsEntry : Entry.IsEntry (hi, hi)
hi-IsEntry = (hi-IsStr, hi-IsStr, rw (encode_entry) (omega arith))

abbrev payload : InitialPayload
payload = record {
  jumphost = some false;
  reverse_tunnels = tunnel ∷ tunnel ∷ [];
  environment_variables = (hi, hi) ∷ [];
}

decode-encode_initial_payload_example :
    InitialPayload.decode (InitialPayload.encode payload) ≡ ok (record payload { jumphost = none })
decode-encode_initial_payload_example =
    RoundTrip.decode-encode_initial_payload payload
      ((tunnel-IsTunnel, (tunnel-IsTunnel, tt)), (hi-IsEntry, tt), (tt, tt))

encode_request : ConnectRequest.encode request ≡ 10 ∷ 2 ∷ 104 ∷ 105 ∷ 16 ∷ 6 ∷ []
unfolding items_bytes groups as_u64
encode_request = ConnectRequest.encode-items request (hi-IsStr, omega arith)

read_proto-write_proto_example :
    ((write_proto (open_writer []) request).0 ≡ ok tt)
    × (read_proto ((write_proto (open_writer []) request).1.written ++ 1 ∷ 2 ∷ [])
        ≡ ok (request, 1 ∷ 2 ∷ []))
read_proto-write_proto_example =
    read_proto-write_proto request request (1 ∷ 2 ∷ [])
      (ConnectRequest.decode-encode_connect_request request (hi-IsStr, omega arith))
      (rw (encode_request) (omega arith))

-- The length -1.
abbrev minus_one : List ℕ
minus_one = replicate 8 255
