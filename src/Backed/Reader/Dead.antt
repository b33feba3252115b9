-- ===== src/Backed/Reader/Dead.antt =====
-- `BackedReader::read` without a socket.
use eternal_terminal_client.Base.{
  ◌≡◌, ap, ◌∙◌, none, List, [], ◌∷◌, ℕ, Outcome, ok, err, panic, stuck,
}
use eternal_terminal_client.Crypto.{CryptoHandler}
use eternal_terminal_client.Crypto.Secretbox.{Cipher}
use eternal_terminal_client.Packet
use eternal_terminal_client.Packet.{Packet, PacketError, from_serialized}
use eternal_terminal_client.Backed.Reader.{
  BackedReader, received, open_packet, read_socket, read_buffered, read,
}

module _ (c : Cipher) (r : BackedReader) (dead : r.socket ≡ none) where
  opened_socket : (x : Outcome PacketError Packet) → (open_packet c (λ r. r) r x).1.socket ≡ none
  unfolding open_packet
  opened_socket (ok p) = by_result (Packet.decrypt c p r.crypto)
    where
      by_result :
          (y : Outcome PacketError (Unit {0}) × Packet × CryptoHandler)
          → (received (λ r. r) r y).1.socket ≡ none
      by_result (ok _, p, h) = dead
      by_result (err e, p, h) = dead
      by_result (panic, p, h) = dead
      by_result (stuck, p, h) = dead
  opened_socket (err e) = dead
  opened_socket panic = dead
  opened_socket stuck = dead

-- No read brings a socket back.
pub read-dead_socket :
    (c : Cipher) (r : BackedReader) → r.socket ≡ none → (read c r).1.socket ≡ none
unfolding read read_buffered read_socket
read-dead_socket c r dead = by_buffer r.local_buffer
  where
    by_buffer : (l : List (List ℕ)) → (read_buffered c r l).1.socket ≡ none
    by_buffer [] = ap (λ o. (read_socket c r o).1.socket) dead ∙ dead
    by_buffer (s ∷ rest) =
        opened_socket c (record r { local_buffer = rest }) dead (from_serialized s)
