-- ===== src/Backed/Writer.antt =====
-- `BackedWriter` of src/backed.rs. A deque is the list of its elements from the back to the front, so
-- `push_front` appends. Byte counts are `usize` sums of what is in memory and do not overflow.
pub mod History
pub mod Written
pub mod Recover
pub mod Bounds
pub mod Dead
pub mod Sent
use mathlib.Core.List.{reverse}
use eternal_terminal_client.Base.{
  ℕ, ◌+◌, ◌-◌, ◌*◌, ◌%◌, ◌^◌, Bool, true, false, ◌&&◌, Option, none, some, List, [], ◌∷◌, ◌++◌, map,
  ltb, ◌==◌, if◌then◌else◌, Outcome, ok, err, panic, stuck, length, take,
}
use eternal_terminal_client.Base.Int.{ℤ, pos, negsuc}
use eternal_terminal_client.Base.Bytes.{be_bytes}
use eternal_terminal_client.Crypto.{CryptoHandler}
use eternal_terminal_client.Crypto.Secretbox.{Cipher}
use eternal_terminal_client.Packet
use eternal_terminal_client.Packet.{Packet, PacketError, size, serialize}
use eternal_terminal_client.Backed.Socket.{
  WriteHalf, Retry, all_sent, io_error, waiting, write_all_retry,
}

abbrev pub max_backup_bytes : ℕ
max_backup_bytes = 64 * 1024 * 1024

abbrev pub disconnect_buffer_bytes : ℕ
disconnect_buffer_bytes = 64 * 1024 * 1024

pub data WriteState : Type 0 where
  success buffered_only wrote_with_failure skipped : WriteState

pub record BackedWriter : Type 0 where
  pub crypto : CryptoHandler
  pub socket : Option WriteHalf
  pub backup : List Packet
  pub backup_size : ℕ
  pub disconnected_bytes : ℕ
  pub sequence_number : ℕ

abbrev pub new : CryptoHandler → WriteHalf → BackedWriter
new crypto socket = record {
  crypto = crypto;
  socket = some socket;
  backup = [];
  backup_size = 0;
  disconnected_bytes = 0;
  sequence_number = 0;
}

abbrev pub invalidate_socket : BackedWriter → BackedWriter
invalidate_socket w = record w { socket = none }

abbrev pub is_none : Option WriteHalf → Bool
is_none none = true
is_none (some s) = false

-- `push_front`, and the counts that go with it.
unfoldable pub push : BackedWriter → Packet → CryptoHandler → BackedWriter
push w packet crypto = record w {
  crypto = crypto;
  backup = w.backup ++ packet ∷ [];
  backup_size = w.backup_size + size packet;
  sequence_number = w.sequence_number + 1;
}

-- The `while` loop over `pop_back`, on a live socket.
pub evict_loop : List Packet → ℕ → List Packet × ℕ
evict_loop [] n = ([], n)
evict_loop (old ∷ backup) n =
    if ltb max_backup_bytes n then evict_loop backup (n - size old) else (old ∷ backup, n)

pub evict_backup : BackedWriter → BackedWriter
evict_backup w =
    let (backup, n) = evict_loop w.backup w.backup_size in
    record w { backup = backup; backup_size = n }

-- `while self.socket.is_some() && ..`
unfoldable pub evict : BackedWriter → BackedWriter
unfolding evict_backup
evict w = if is_none w.socket then w else evict_backup w

-- The length, big-endian, and the serialized packet.
unfoldable pub frame : Packet → List ℕ
frame packet =
    let serialized = serialize packet in be_bytes 4 (length serialized % 2 ^ 32) ++ serialized

-- The `match` on `write_all_retry`. Where it does not return, neither does `write`.
finish : BackedWriter → Retry × WriteHalf → Option WriteState × BackedWriter
finish w (all_sent, s) = (some success, record w { socket = some s })
finish w (io_error, s) = (some wrote_with_failure, record w { socket = none })
finish w (waiting, s) = (none, record w { socket = some s })

send_on : BackedWriter → Packet → Option WriteHalf → Option WriteState × BackedWriter
send_on w packet none =
    (some buffered_only, record w { disconnected_bytes = w.disconnected_bytes + size packet })
send_on w packet (some s) = finish w (write_all_retry s (frame packet))

unfoldable pub send : BackedWriter → Packet → Option WriteState × BackedWriter
unfolding finish send_on
send w packet = send_on w packet w.socket

-- What follows `packet.encrypt`: an error leaves the nonce of the handler behind.
unfoldable pub store :
    BackedWriter
    → Outcome PacketError (Unit {0}) × Packet × CryptoHandler
    → Option WriteState × BackedWriter
store w (ok _, packet, crypto) = send (evict (push w packet crypto)) packet
store w (err _, packet, crypto) = (some wrote_with_failure, record w { crypto = crypto })
store w (panic, packet, crypto) = (some wrote_with_failure, record w { crypto = crypto })
store w (stuck, packet, crypto) = (some wrote_with_failure, record w { crypto = crypto })

-- `none` is a call that has not returned.
unfoldable pub write : Cipher → BackedWriter → Packet → Option WriteState × BackedWriter
write c w packet =
    if is_none w.socket && ltb disconnect_buffer_bytes (w.disconnected_bytes + size packet)
    then (some skipped, w)
    else store w (Packet.encrypt c packet w.crypto)

-- The `anyhow::Error` of `recover`.
pub data RecoverError : Type 0 where
  socket_alive peer_ahead too_far_behind : RecoverError

-- `self.sequence_number - last_valid_sequence`; `none` is a negative number.
pub messages_to_recover : ℕ → ℤ → Option ℕ
messages_to_recover n (pos last) = if ltb n last then none else some (n - last)
messages_to_recover n (negsuc last) = some (n + last + 1)

-- `backup.iter().take(n).map(serialize)`, reversed.
pub newest : List Packet → ℕ → List (List ℕ)
newest backup n = reverse (map serialize (take n (reverse backup)))

recover_count : BackedWriter → Option ℕ → Outcome RecoverError (List (List ℕ))
recover_count w none = err peer_ahead
recover_count w (some n) =
    if n == 0
    then ok []
    else if ltb (length w.backup) n
    then err too_far_behind
    else ok (newest w.backup n)

pub recover : BackedWriter → ℤ → Outcome RecoverError (List (List ℕ))
unfolding recover_count
recover w last_valid_sequence =
    if is_none w.socket
    then recover_count w (messages_to_recover w.sequence_number last_valid_sequence)
    else err socket_alive

abbrev pub revive : BackedWriter → WriteHalf → BackedWriter
revive w socket = record w { socket = some socket; disconnected_bytes = 0 }
