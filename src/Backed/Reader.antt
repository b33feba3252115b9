-- ===== src/Backed/Reader.antt =====
-- `BackedReader` of src/backed.rs. The socket is a script of what its next calls of `read` return.
pub mod Arrival
pub mod Frames
pub mod Poll
pub mod Stream
pub mod Dead
use eternal_terminal_client.Base.{
  ℕ, zero, suc, ◌+◌, ◌-◌, Bool, true, false, ◌&&◌, Option, none, some, List, [], ◌∷◌, ◌++◌, ltb,
  if◌then◌else◌, Outcome, ok, err, panic, stuck, length, take, drop,
}
use eternal_terminal_client.Base.Bytes.{be_value}
use eternal_terminal_client.Crypto.{CryptoHandler}
use eternal_terminal_client.Crypto.Secretbox.{Cipher}
use eternal_terminal_client.Packet
use eternal_terminal_client.Packet.{Packet, PacketError, from_serialized}

-- What `read` finds: bytes, of which it takes as many as its buffer holds, the end of the stream
-- (`Ok(0)`), or an error. A script that ends is a socket with nothing to read yet.
pub data ReadEvent : Type 0 where
  arrive : ℕ → List ℕ → ReadEvent
  closed transient interrupted failed : ReadEvent

pub record BackedReader : Type 0 where
  pub crypto : CryptoHandler
  pub socket : Option (List ReadEvent)
  pub sequence_number : ℕ
  pub partial : List ℕ
  pub local_buffer : List (List ℕ)

abbrev pub new : CryptoHandler → List ReadEvent → BackedReader
new crypto socket = record {
  crypto = crypto;
  socket = some socket;
  sequence_number = 0;
  partial = [];
  local_buffer = [];
}

abbrev pub invalidate_socket : BackedReader → BackedReader
invalidate_socket r = record r { socket = none }

-- The `anyhow::Error` of `read`.
pub data ReadError : Type 0 where
  connection_closed io : ReadError
  packet : PacketError → ReadError

-- How a `while self.partial.len() < ..` loop ends. `not_yet` is `return Ok(None)`.
pub data Fill : Type 0 where
  filled not_yet end_of_stream io_error : Fill

-- What `read` leaves of the bytes that have arrived.
abbrev pub put_back : List ℕ → List ReadEvent → List ReadEvent
put_back [] es = es
put_back (b ∷ bs) es = arrive b bs ∷ es

-- The loop, with `need` bytes still to read.
pub fill : List ReadEvent → (need : ℕ) → List ℕ → Fill × List ℕ × List ReadEvent
fill es zero partial = (filled, partial, es)
fill [] (suc need) partial = (not_yet, partial, [])
fill (arrive b bs ∷ es) (suc need) partial =
    let rest = fill es (need - length bs) (partial ++ b ∷ bs) in
    if ltb need (length bs)
    then (filled, partial ++ b ∷ take need bs, put_back (drop need bs) es)
    else rest
fill (closed ∷ es) (suc need) partial = (end_of_stream, partial, es)
fill (transient ∷ es) (suc need) partial = (not_yet, partial, es)
fill (interrupted ∷ es) (suc need) partial = fill es (suc need) partial
fill (failed ∷ es) (suc need) partial = (io_error, partial, es)

-- What `packet.decrypt(..)?` leaves; `counted` is what goes before `Ok(Some(packet))`.
abbrev pub received :
    (BackedReader → BackedReader)
    → BackedReader
    → Outcome PacketError (Unit {0}) × Packet × CryptoHandler
    → Outcome ReadError (Option Packet) × BackedReader
received counted r (ok _, p, h) = (ok (some p), counted (record r { crypto = h }))
received counted r (err e, p, h) = (err (packet e), record r { crypto = h })
received counted r (panic, p, h) = (panic, record r { crypto = h })
received counted r (stuck, p, h) = (stuck, record r { crypto = h })

abbrev pub count : BackedReader → BackedReader
count r = record r { sequence_number = r.sequence_number + 1 }

module _ (c : Cipher) where
  -- `from_serialized(..)?` and `decrypt(..)?`
  pub open_packet :
      (BackedReader → BackedReader)
      → BackedReader
      → Outcome PacketError Packet
      → Outcome ReadError (Option Packet) × BackedReader
  open_packet counted r (ok p) = received counted r (Packet.decrypt c p r.crypto)
  open_packet counted r (err e) = (err (packet e), r)
  open_packet counted r panic = (panic, r)
  open_packet counted r stuck = (stuck, r)

  -- Behind the second loop: `self.partial[4..total]`.
  after_body :
      BackedReader
      → ℕ
      → Fill × List ℕ × List ReadEvent
      → Outcome ReadError (Option Packet) × BackedReader
  after_body r total (filled, partial, es) =
      open_packet count (record r { socket = some es; partial = [] })
        (from_serialized (drop 4 (take total partial)))
  after_body r total (not_yet, partial, es) =
      (ok none, record r { socket = some es; partial = partial })
  after_body r total (end_of_stream, partial, es) =
      (err connection_closed, record r { socket = some es; partial = partial })
  after_body r total (io_error, partial, es) =
      (err io, record r { socket = some es; partial = partial })

  -- Behind the first loop: `let total = 4 + msg_len`, and the second loop.
  after_header :
      BackedReader
      → Fill × List ℕ × List ReadEvent
      → Outcome ReadError (Option Packet) × BackedReader
  unfolding after_body
  after_header r (filled, partial, es) =
      let total = 4 + be_value (take 4 partial) in
      after_body r total (fill es (total - length partial) partial)
  after_header r (not_yet, partial, es) =
      (ok none, record r { socket = some es; partial = partial })
  after_header r (end_of_stream, partial, es) =
      (err connection_closed, record r { socket = some es; partial = partial })
  after_header r (io_error, partial, es) =
      (err io, record r { socket = some es; partial = partial })

  read_socket :
      BackedReader → Option (List ReadEvent) → Outcome ReadError (Option Packet) × BackedReader
  unfolding after_header
  read_socket r none = (ok none, r)
  read_socket r (some es) = after_header r (fill es (4 - length r.partial) r.partial)

  -- The catch-up of the last `revive` comes first.
  read_buffered : BackedReader → List (List ℕ) → Outcome ReadError (Option Packet) × BackedReader
  unfolding read_socket
  read_buffered r (serialized ∷ rest) =
      open_packet (λ r. r) (record r { local_buffer = rest }) (from_serialized serialized)
  read_buffered r [] = read_socket r r.socket

  -- The first guard, no socket and nothing buffered, returns what the `None` of the socket does.
  pub read : BackedReader → Outcome ReadError (Option Packet) × BackedReader
  unfolding read_buffered
  read r = read_buffered r r.local_buffer

abbrev pub revive : BackedReader → List ReadEvent → List (List ℕ) → BackedReader
revive r socket catchup = record r {
  partial = [];
  local_buffer = r.local_buffer ++ catchup;
  sequence_number = r.sequence_number + length catchup;
  socket = some socket;
}
