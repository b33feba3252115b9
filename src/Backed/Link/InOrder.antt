-- ===== src/Backed/Link/InOrder.antt =====
-- What holds of a link in every state that it reaches.
use native.Mathlib.Decide.{dec_lt}
use eternal_terminal_client.Base.{
  ℕ, zero, suc, ◌+◌, ◌≤◌, ◌<◌, ◌≡◌, ◌≢◌, refl, sym, ap, ap₂, subst, ◌∙◌, Option, none, some, List,
  [], ◌∷◌, ◌++◌, map, append_assoc, append-nil, arith, Outcome, ok, err, panic, stuck, length,
  length-append, drop, drop-append, All, All-append,
}
use eternal_terminal_client.Base.Int.{pos}
use eternal_terminal_client.Crypto.{CryptoHandler}
use eternal_terminal_client.Crypto.Secretbox.{Cipher, IsAead}
use eternal_terminal_client.Packet
use eternal_terminal_client.Packet.{Packet, PacketError, serialize}
use eternal_terminal_client.Backed.Socket.{WriteHalf}
use eternal_terminal_client.Backed.Writer
use eternal_terminal_client.Backed.Writer.{
  BackedWriter, WriteState, success, buffered_only, wrote_with_failure, skipped, too_far_behind,
  peer_ahead, frame, recover,
}
use eternal_terminal_client.Backed.Writer.History.{IsBacked, new-IsBacked}
use eternal_terminal_client.Backed.Writer.Written.{Written, full, unsealed, stored, write-Written}
use eternal_terminal_client.Backed.Writer.Recover.{recover_lem}
use eternal_terminal_client.Backed.Writer.Sent.{newly_sent, write-Sending}
use eternal_terminal_client.Backed.Reader
use eternal_terminal_client.Backed.Reader.{ReadEvent, arrive, ReadError, BackedReader}
use eternal_terminal_client.Backed.Reader.Arrival.{incoming}
use eternal_terminal_client.Backed.Session.{IsSealed, IsSmall, length-map}
use eternal_terminal_client.Backed.Link.{
  Link, start, accepted, sealed, written, with_script, cut_off, reconnected,
}
use eternal_terminal_client.Backed.Link.Bytes.{IsStream, IsStream-write, IsStream-events}
pub mod Writes
pub mod Reads
pub mod Steps

-- `seen` are the packets that the reader returned, encrypted; `buffered` are in its catch-up, and `ahead` it
-- has not counted. `pending` are the last two, plain.
pub record IsInOrder (c : Cipher) (s : Link) : Type 0 where
  pub seen : List Packet
  pub buffered : List Packet
  pub ahead : List Packet
  pub pending : List Packet
  pub tail : List ℕ
  pub log : IsBacked (seen ++ (buffered ++ ahead)) s.writer
  pub counted : s.reader.sequence_number ≡ length seen + length buffered
  pub local : s.reader.local_buffer ≡ map serialize buffered
  pub chain : IsSealed c s.reader.crypto pending (buffered ++ ahead) s.writer.crypto
  pub order : s.wrote ≡ s.got ++ pending
  pub small : All IsSmall ahead
  pub stream : IsStream s.writer.socket s.reader.socket s.reader.partial s.in_flight tail ahead

pub start-IsInOrder :
    (c : Cipher) (h : CryptoHandler) (half : WriteHalf) → IsInOrder c (start h half)
unfolding start incoming
start-IsInOrder c h half = record {
  seen = [];
  buffered = [];
  ahead = [];
  pending = [];
  tail = [];
  log = new-IsBacked h half;
  counted = refl;
  local = refl;
  chain = refl;
  order = refl;
  small = tt;
  stream = (refl, tt, λ s alive. refl);
}
