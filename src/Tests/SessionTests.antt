-- ===== src/Tests/SessionTests.antt =====
-- A writer and a reader of src/backed.rs on scripts.
use eternal_terminal_client.Base.{◌≡◌, refl, none, List, [], ◌∷◌, ◌++◌, arith, ok, replicate}
use eternal_terminal_client.Crypto.{CryptoHandler, step_nonce}
use eternal_terminal_client.Crypto
use eternal_terminal_client.Packet
use eternal_terminal_client.Packet.{Packet, serialize}
use eternal_terminal_client.Backed.Socket.{WriteHalf}
use eternal_terminal_client.Backed.Reader.{ReadEvent, arrive, transient, interrupted, BackedReader}
use eternal_terminal_client.Backed.Writer.{BackedWriter}
use eternal_terminal_client.Backed.Writer.History.{IsBacked}
use eternal_terminal_client.Backed.Race.{Lost, write_between-Lost}
use eternal_terminal_client.Tests.CryptoTests.{
  toy, toy-IsAead, handler, plain, sealed_plain, encrypt-plain,
}

-- The frame of two bytes in four pieces, and one byte of the next.
abbrev pieces : List ReadEvent
pieces =
    arrive 0 (0 ∷ []) ∷ transient ∷ interrupted ∷ arrive 0 (2 ∷ 1 ∷ []) ∷ arrive 5 (7 ∷ []) ∷ []

abbrev framed_plain : List ReadEvent
framed_plain =
    arrive 0 (0 ∷ 0 ∷ 20 ∷ 1 ∷ []) ∷ transient ∷ arrive 1 (replicate 16 0 ++ 9 ∷ 8 ∷ []) ∷ []

-- The writer stored two packets and lost its socket; the reader counted one, and was in a frame.
abbrev pub cut_off : BackedWriter
cut_off = record {
  crypto = step_nonce handler;
  socket = none;
  backup = sealed_plain ∷ sealed_plain ∷ [];
  backup_size = 40;
  disconnected_bytes = 0;
  sequence_number = 2;
}

abbrev behind : BackedReader
behind = record {
  crypto = handler;
  socket = none;
  sequence_number = 1;
  partial = 0 ∷ 0 ∷ [];
  local_buffer = [];
}

pub cut_off-IsBacked : IsBacked (sealed_plain ∷ sealed_plain ∷ []) cut_off
cut_off-IsBacked = record {
  counted = refl;
  dropped = 0;
  within = omega arith;
  kept = refl;
  needed = tt;
  sized = refl;
}

pub encrypt-plain_again :
    Packet.encrypt toy plain (step_nonce handler)
    ≡ (ok tt, sealed_plain, step_nonce (step_nonce handler))
unfolding Packet.encrypt Packet.set_payload Crypto.encrypt
encrypt-plain_again = refl

abbrev pub quiet : WriteHalf
quiet = record { sent = []; writes = [] }

write_between-Lost_example : Lost toy cut_off behind framed_plain quiet 1 plain
write_between-Lost_example =
    write_between-Lost toy toy-IsAead cut_off behind framed_plain quiet (sealed_plain ∷ [])
      (plain ∷ []) (sealed_plain ∷ []) plain sealed_plain (step_nonce (step_nonce handler))
      cut_off-IsBacked refl refl refl (step_nonce handler, encrypt-plain, refl) (omega arith)
      (omega arith) encrypt-plain_again
