-- ===== src/Backed/Link.antt =====
-- One direction of a session: the `BackedWriter` at one end, the `BackedReader` at the other, and what the
-- network holds between them. Each step is a call of src/backed.rs or something that the network does.
-- `recover` and the two `revive`s of a reconnect are one step.
pub mod InOrder
pub mod Bytes
pub mod Channel
pub mod Delivers
use eternal_terminal_client.Base.{
  ℕ, ◌≡◌, Option, none, some, List, [], ◌∷◌, ◌++◌, Outcome, ok, err, panic, stuck,
}
use eternal_terminal_client.Base.Int.{pos}
use eternal_terminal_client.Crypto.{CryptoHandler}
use eternal_terminal_client.Crypto.Secretbox.{Cipher}
use eternal_terminal_client.Packet
use eternal_terminal_client.Packet.{Packet}
use eternal_terminal_client.Backed.Socket.{WriteHalf}
use eternal_terminal_client.Backed.Writer
use eternal_terminal_client.Backed.Writer.{
  BackedWriter, WriteState, success, buffered_only, wrote_with_failure, skipped, frame, recover,
}
use eternal_terminal_client.Backed.Writer.Sent.{newly_sent}
use eternal_terminal_client.Backed.Reader
use eternal_terminal_client.Backed.Reader.{ReadEvent, arrive, ReadError, BackedReader}
use eternal_terminal_client.Backed.Reader.Arrival.{incoming}
use eternal_terminal_client.Backed.Session.{IsSmall}

-- `in_flight` are bytes that the writer's socket took and the reader's has not got. `wrote` are the packets
-- that `write` stored, and `got` those that `read` returned.
pub record Link : Type 0 where
  pub writer : BackedWriter
  pub reader : BackedReader
  pub in_flight : List ℕ
  pub wrote : List Packet
  pub got : List Packet

unfoldable pub start : CryptoHandler → WriteHalf → Link
start h s = record {
  writer = Writer.new h s;
  reader = Reader.new h [];
  in_flight = [];
  wrote = [];
  got = [];
}

abbrev pub accepted : WriteState → List Packet → Packet → List Packet
accepted success ps p = ps ++ p ∷ []
accepted buffered_only ps p = ps ++ p ∷ []
accepted wrote_with_failure ps p = ps ++ p ∷ []
accepted skipped ps p = ps

abbrev pub delivered : Outcome ReadError (Option Packet) → List Packet
delivered (ok (some p)) = p ∷ []
delivered (ok none) = []
delivered (err e) = []
delivered panic = []
delivered stuck = []

-- What `packet.encrypt` makes of a packet.
abbrev pub sealed : Cipher → BackedWriter → Packet → Packet
sealed c w p = (Packet.encrypt c p w.crypto).1

abbrev pub written : Cipher → Link → Packet → WriteState → BackedWriter → Link
written c s p st w' = record s {
  writer = w';
  in_flight = s.in_flight ++ newly_sent s.writer.socket (frame (sealed c s.writer p));
  wrote = accepted st s.wrote p;
}

abbrev pub with_script : Link → List ReadEvent → List ℕ → Link
with_script s es rest = record s { reader = record s.reader { socket = some es }; in_flight = rest }

unfoldable pub read_step : Cipher → Link → Link
read_step c s = record s {
  reader = (Reader.read c s.reader).1;
  got = s.got ++ delivered (Reader.read c s.reader).0;
}

unfoldable pub cut_off : Link → Link
cut_off s = record s {
  writer = Writer.invalidate_socket s.writer;
  reader = Reader.invalidate_socket s.reader;
  in_flight = [];
}

abbrev pub reconnected : Link → WriteHalf → List (List ℕ) → Link
reconnected s half catchup = record s {
  writer = Writer.revive s.writer half;
  reader = Reader.revive s.reader [] catchup;
  in_flight = [];
}

pub data Step (c : Cipher) (s s' : Link) : Type 0 where
  -- A call of `write` that returns, of a packet that can be encrypted and framed.
  write :
      (p : Packet) (st : WriteState) (w' : BackedWriter)
      → (Packet.encrypt c p s.writer.crypto).0 ≡ ok tt
      → IsSmall (sealed c s.writer p)
      → Writer.write c s.writer p ≡ (some st, w')
      → s' ≡ written c s p st w'
      → Step c s s'
  -- Some of the bytes in flight arrive.
  arrives :
      (b : ℕ) (bs rest : List ℕ) (es : List ReadEvent)
      → s.reader.socket ≡ some es
      → s.in_flight ≡ b ∷ (bs ++ rest)
      → s' ≡ with_script s (es ++ arrive b bs ∷ []) rest
      → Step c s s'
  -- The reader's socket ends, fails, is interrupted or has nothing to read.
  disturbed :
      (e : ReadEvent) (es : List ReadEvent)
      → s.reader.socket ≡ some es
      → incoming (e ∷ []) ≡ []
      → s' ≡ with_script s (es ++ e ∷ []) s.in_flight
      → Step c s s'
  read : s' ≡ read_step c s → Step c s s'
  -- The connection is lost, with all that is in flight.
  cut : s' ≡ cut_off s → Step c s s'
  reconnect :
      (half : WriteHalf) (catchup : List (List ℕ))
      → s.writer.socket ≡ none
      → s.reader.socket ≡ none
      → recover s.writer (pos s.reader.sequence_number) ≡ ok catchup
      → s' ≡ reconnected s half catchup
      → Step c s s'

pub data Reach (c : Cipher) (start : Link) : Link → Type 0 where
  here : Reach c start start
  next : {s s' : Link} → Reach c start s → Step c s s' → Reach c start s'
