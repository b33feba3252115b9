-- ===== src/Tests/BackedTests.antt =====
-- src/backed.rs on scripts.
use eternal_terminal_client.Base.{
  ℕ, ◌+◌, ◌≤◌, ◌<◌, ◌≡◌, ◌≢◌, refl, none, some, List, [], ◌∷◌, map, arith, ok, err, drop,
}
use eternal_terminal_client.Base.Int.{pos, negsuc}
use eternal_terminal_client.Packet
use eternal_terminal_client.Packet.{Packet, serialize, size}
use eternal_terminal_client.Backed.Socket.{
  WriteHalf, took, transient, interrupted, waiting, write_all_retry,
}
use eternal_terminal_client.Backed.Socket.Progress.{
  Sends, write_all_retry-Sends, write_all_retry_returns, capacity,
}
use eternal_terminal_client.Backed.Writer.{
  skipped, BackedWriter, disconnect_buffer_bytes, new, write, recover, peer_ahead, too_far_behind,
}
use eternal_terminal_client.Backed.Writer.History.{IsBacked, new-IsBacked}
use eternal_terminal_client.Backed.Writer.Written.{Written, write-Written}
use eternal_terminal_client.Backed.Writer.Recover.{recover_lem, recover_within_bound}
use eternal_terminal_client.Backed.Writer.Bounds.{IsBounded, write-IsBounded}
use eternal_terminal_client.Tests.CryptoTests.{toy, toy-IsAead, handler, plain, sealed_plain}

-- A socket that takes three bytes, is busy, and takes the rest.
abbrev slow : WriteHalf
slow = record { sent = []; writes = took 3 ∷ transient ∷ took 4 ∷ interrupted ∷ took 90 ∷ [] }

abbrev five : List ℕ
five = 1 ∷ 2 ∷ 3 ∷ 4 ∷ 5 ∷ []

write_all_retry-Sends_example :
    Sends [] five (write_all_retry slow five).0 (write_all_retry slow five).1.sent
write_all_retry-Sends_example = write_all_retry-Sends slow five

write_all_retry_returns_example : (write_all_retry slow five).0 ≢ waiting
unfolding capacity
write_all_retry_returns_example = write_all_retry_returns slow five (omega arith)

abbrev writer : BackedWriter
writer = new handler slow

write-Written_example : Written toy [] writer plain (write toy writer plain)
write-Written_example = write-Written toy [] writer plain (new-IsBacked handler slow)

-- A writer without a socket whose buffer is full.
abbrev no_room : BackedWriter
no_room = record writer { socket = none; disconnected_bytes = disconnect_buffer_bytes }

write-IsBounded_example :
    IsBounded (write toy no_room plain).1
    × ((write toy no_room plain).0 ≡ some skipped
        → (no_room.socket ≡ none)
          × (disconnect_buffer_bytes < no_room.disconnected_bytes + size plain)
          × ((write toy no_room plain).1 ≡ no_room))
    × (no_room.socket ≡ none
        → disconnect_buffer_bytes < no_room.disconnected_bytes + size plain
        → (write toy no_room plain).0 ≡ some skipped)
write-IsBounded_example = write-IsBounded toy toy-IsAead no_room plain (omega arith)

-- A writer that stored three packets and lost its socket.
abbrev three : List Packet
three = sealed_plain ∷ sealed_plain ∷ Packet.new 0 [] ∷ []

abbrev cut_off : BackedWriter
cut_off = record {
  crypto = handler;
  socket = none;
  backup = three;
  backup_size = 42;
  disconnected_bytes = 0;
  sequence_number = 3;
}

cut_off-IsBacked : IsBacked three cut_off
cut_off-IsBacked = record {
  counted = refl;
  dropped = 0;
  within = omega arith;
  kept = refl;
  needed = tt;
  sized = refl;
}

recover_lem_example :
    (3 < 1 → recover cut_off (pos 1) ≡ err peer_ahead)
    × (1 ≤ 3 → 3 ≤ 1 + 3 → recover cut_off (pos 1) ≡ ok (map serialize (drop 1 three)))
    × (1 + 3 < 3 → recover cut_off (pos 1) ≡ err too_far_behind)
    × (recover cut_off (negsuc 1) ≡ err too_far_behind)
recover_lem_example = recover_lem cut_off cut_off-IsBacked refl 1

recover_within_bound_example : recover cut_off (pos 1) ≡ ok (map serialize (drop 1 three))
recover_within_bound_example =
    recover_within_bound three cut_off 1 cut_off-IsBacked refl (omega arith) (omega arith)
