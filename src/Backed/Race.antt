-- ===== src/Backed/Race.antt =====
-- A write between `recover` and `revive`: `try_recover` of src/connection.rs releases the writer's lock
-- between the two, and the thread that writes does not wait.
use eternal_terminal_client.Base.{
  ℕ, ◌+◌, ◌≤◌, ◌≡◌, refl, sym, ap, ◌∙◌, none, some, List, [], ◌++◌, ok, length,
}
use eternal_terminal_client.Base.Int.{pos}
use eternal_terminal_client.Crypto.{CryptoHandler}
use eternal_terminal_client.Crypto.Secretbox.{Cipher, IsAead}
use eternal_terminal_client.Packet
use eternal_terminal_client.Packet.{Packet, size}
use eternal_terminal_client.Backed.Socket.{WriteHalf}
use eternal_terminal_client.Backed.Reader
use eternal_terminal_client.Backed.Reader.{ReadEvent, BackedReader}
use eternal_terminal_client.Backed.Writer
use eternal_terminal_client.Backed.Writer.{
  BackedWriter, WriteState, buffered_only, disconnect_buffer_bytes, push, write, recover,
}
use eternal_terminal_client.Backed.Writer.History.{IsBacked}
use eternal_terminal_client.Backed.Writer.Dead.{write_dead}
use eternal_terminal_client.Backed.Session.{IsSealed, collect, recover_delivers}

-- What becomes of the packet `p` that is written behind `recover` and before `revive`.
pub record Lost (c : Cipher) (w : BackedWriter) (r : BackedReader) (es : List ReadEvent)
    (socket : WriteHalf) (k : ℕ) (p : Packet) : Type 0 where
  pub catchup : List (List ℕ)
  pub recovered : recover w (pos r.sequence_number) ≡ ok catchup
  pub reported : (write c w p).0 ≡ some buffered_only
  pub unsent : (Writer.revive (write c w p).1 socket).socket ≡ some socket
  pub behind :
      (Writer.revive (write c w p).1 socket).sequence_number
      ≡ (collect 1 k c (Reader.revive r es catchup)).1.sequence_number + 1
  pub in_step_before : (collect 1 k c (Reader.revive r es catchup)).1.crypto ≡ w.crypto

-- Where a reconnect would have delivered everything, a packet that is
-- written after `recover` and before `revive` is reported as buffered, but it is neither in the catch-up
-- nor sent on the new socket: the revived reader, all of its catch-up read, has counted one packet less
-- than the revived writer, and its handler still is where the writer's was before that packet.
pub write_between-Lost :
    (c : Cipher) (aead : IsAead c) (w : BackedWriter) (r : BackedReader) (es : List ReadEvent)
    (socket : WriteHalf) (seen missed qs : List Packet) (p q : Packet) (next : CryptoHandler)
    → IsBacked (seen ++ qs) w
    → w.socket ≡ none
    → r.sequence_number ≡ length seen
    → r.local_buffer ≡ []
    → IsSealed c r.crypto missed qs w.crypto
    → length qs ≤ length w.backup
    → w.disconnected_bytes + size p ≤ disconnect_buffer_bytes
    → Packet.encrypt c p w.crypto ≡ (ok tt, q, next)
    → Lost c w r es socket (length missed) p
unfolding push
write_between-Lost c aead w r es socket seen missed qs p q next b dead counted nothing s held fits
      e =
    let (catchup, recovered, delivered) =
      recover_delivers c aead w r es seen missed qs b dead counted nothing s held in
    let written = write_dead c w p dead q next fits e in
    record {
      catchup = catchup;
      recovered = recovered;
      reported = ap (λ x. x.0) written;
      unsent = refl;
      behind =
          ap (λ x. x.1.sequence_number) written
          ∙ ap (λ n. n + 1) (b.counted ∙ sym (ap (λ x. x.1.sequence_number) delivered));
      in_step_before = ap (λ x. x.1.crypto) delivered;
    }
