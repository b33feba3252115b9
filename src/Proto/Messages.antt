-- ===== src/Proto/Messages.antt =====
-- The constants and the messages of src/proto.rs. A `String` or a `Vec<u8>` is its bytes, an `i32` is
-- an integer, and the hash map of strings is the list of its entries in the order of iteration.
use eternal_terminal_client.Base.{ℕ, Bool, Option, none, some, List, ◌==◌, if◌then◌else◌}
use eternal_terminal_client.Base.Int.{ℤ, pos, negsuc}

abbrev pub protocol_version : ℤ
protocol_version = pos 6

-- `et_packet` and `terminal_packet`
abbrev pub heartbeat : ℕ
heartbeat = 254

abbrev pub initial_payload : ℕ
initial_payload = 253

abbrev pub initial_response : ℕ
initial_response = 252

abbrev pub keep_alive : ℕ
keep_alive = 0

abbrev pub terminal_buffer : ℕ
terminal_buffer = 1

abbrev pub terminal_info : ℕ
terminal_info = 2

pub data ConnectStatus : Type 0 where
  new_client returning_client invalid_key mismatched_protocol : ConnectStatus

-- `s as i32`
abbrev pub as_i32 : ConnectStatus → ℤ
as_i32 new_client = pos 1
as_i32 returning_client = pos 2
as_i32 invalid_key = pos 3
as_i32 mismatched_protocol = pos 4

-- `from_i32`
abbrev pub from_i32 : ℤ → Option ConnectStatus
from_i32 (pos n) =
    if n == 1
    then some new_client
    else if n == 2
    then some returning_client
    else if n == 3
    then some invalid_key
    else if n == 4
    then some mismatched_protocol
    else none
from_i32 (negsuc n) = none

pub record ConnectRequest : Type 0 where
  pub client_id : Option (List ℕ)
  pub version : Option ℤ

pub record ConnectResponse : Type 0 where
  pub status : Option ConnectStatus
  pub error : Option (List ℕ)

pub record SequenceHeader : Type 0 where
  pub sequence_number : Option ℤ

pub record CatchupBuffer : Type 0 where
  pub buffer : List (List ℕ)

pub record TerminalBuffer : Type 0 where
  pub buffer : Option (List ℕ)

pub record TerminalInfo : Type 0 where
  pub id : Option (List ℕ)
  pub row : Option ℤ
  pub column : Option ℤ
  pub width : Option ℤ
  pub height : Option ℤ

pub record SocketEndpoint : Type 0 where
  pub name : Option (List ℕ)
  pub port : Option ℤ

pub record PortForwardSourceRequest : Type 0 where
  pub source : Option SocketEndpoint
  pub destination : Option SocketEndpoint
  pub environment_variable : Option (List ℕ)

pub record InitialPayload : Type 0 where
  pub jumphost : Option Bool
  pub reverse_tunnels : List PortForwardSourceRequest
  pub environment_variables : List (List ℕ × List ℕ)

pub record InitialResponse : Type 0 where
  pub error : Option (List ℕ)
