-- ===== src/Connection/Client.antt =====
-- `ClientConnection` of src/connection.rs: the calls of the thread that uses it, and `reconnect_loop`
-- beside them. `close_and_maybe_reconnect` and `shutdown` wait for that loop first, so each is two
-- steps, before and behind the wait; sleeping is no step.
pub mod Threads
pub mod Twice
pub mod Shutdown
use eternal_terminal_client.Base.{
  Bool, true, false, Option, none, some, Outcome, ok, err, panic, stuck, ◌≡◌, if◌then◌else◌,
}
use eternal_terminal_client.Crypto.Secretbox.{Cipher}
use eternal_terminal_client.Packet.{Packet}
use eternal_terminal_client.Backed.Writer
use eternal_terminal_client.Backed.Writer.{
  BackedWriter, WriteState, success, buffered_only, wrote_with_failure, skipped,
}
use eternal_terminal_client.Backed.Reader
use eternal_terminal_client.Backed.Reader.{ReadError, BackedReader}
use eternal_terminal_client.Connection.{Shared, Peer, ConnectError, try_recover}

-- What the thread does next: it has returned, it goes round its loop, it calls
-- `close_and_maybe_reconnect` (and returns or goes round behind it), or it hangs in a call or has
-- panicked.
pub data Next : Type 0 where
  returned : Bool → Next
  received : Option Packet → Next
  again closing hanging : Next

-- `match state` in `write_packet`.
abbrev pub after_write : Option WriteState → Next
after_write (some success) = returned true
after_write (some buffered_only) = returned true
after_write (some wrote_with_failure) = closing
after_write (some skipped) = again
after_write none = hanging

abbrev pub write_to :
    Cipher → Option BackedWriter → Packet → Option WriteState × Option BackedWriter
write_to c none p = (some skipped, none)
write_to c (some w) p = let (state, w') = Writer.write c w p in (state, some w')

-- One round of the loop of `write_packet`.
pub write_once : Cipher → Shared → Packet → Next × Shared
write_once c s p =
    let (state, w) = write_to c s.writer p in
    if s.shutting_down then (returned false, s) else (after_write state, record s { writer = w })

-- `match reader.read()` in `read_packet`.
abbrev pub after_read : Outcome ReadError (Option Packet) → Next
after_read (ok p) = received p
after_read (err e) = closing
after_read panic = hanging
after_read stuck = hanging

abbrev pub read_from : Cipher → Option BackedReader → Next × Option BackedReader
read_from c none = (received none, none)
read_from c (some r) = let (o, r') = Reader.read c r in (after_read o, some r')

pub read_once : Cipher → Shared → Next × Shared
read_once c s = let (next, r) = read_from c s.reader in (next, record s { reader = r })

abbrev pub invalidate_reader : Option BackedReader → Option BackedReader
invalidate_reader none = none
invalidate_reader (some r) = some (Reader.invalidate_socket r)

abbrev pub invalidate_writer : Option BackedWriter → Option BackedWriter
invalidate_writer none = none
invalidate_writer (some w) = some (Writer.invalidate_socket w)

-- `close_and_maybe_reconnect` behind `wait_reconnect`: no loop runs.
unfoldable pub close_and_maybe_reconnect : Shared → Shared
close_and_maybe_reconnect s = record s {
  reader = invalidate_reader s.reader;
  writer = invalidate_writer s.writer;
  socket_alive = false;
  reconnecting = if s.shutting_down then false else true;
}

-- `shutdown` up to `wait_reconnect`, and behind it.
abbrev pub begin_shutdown : Shared → Shared
begin_shutdown s = record s { shutting_down = true }

abbrev pub end_shutdown : Shared → Shared
end_shutdown s = record s { reader = none; writer = none; socket_alive = false }

-- `match try_recover(..)` in `reconnect_loop`.
abbrev pub after_recover : Shared → Outcome ConnectError (Bool × Shared) → Shared
after_recover s (ok (true, s')) = record s' { socket_alive = true; reconnecting = false }
after_recover s (ok (false, s')) = record s' { shutting_down = true; reconnecting = false }
after_recover s (err e) = s
after_recover s panic = record s { reconnecting = false }
after_recover s stuck = s

-- One round of `reconnect_loop`, with what `tcp_connect` finds.
pub reconnect_once : Shared → Option Peer → Shared
reconnect_once s peer =
    if s.socket_alive
    then record s { reconnecting = false }
    else if s.shutting_down
    then record s { reconnecting = false }
    else after_recover s (try_recover s peer)

-- The steps of the two threads, in any order: those that the calls make are among them. A call that
-- hangs takes no further step.
pub data Step (c : Cipher) (s : Shared) (s' : Shared) : Type 0 where
  write : (p : Packet) → s' ≡ (write_once c s p).1 → Step c s s'
  read : s' ≡ (read_once c s).1 → Step c s s'
  close : s.reconnecting ≡ false → s' ≡ close_and_maybe_reconnect s → Step c s s'
  reconnect :
      (peer : Option Peer) → s.reconnecting ≡ true → s' ≡ reconnect_once s peer → Step c s s'
  shut_down : s' ≡ begin_shutdown s → Step c s s'
  shut : s.reconnecting ≡ false → s' ≡ end_shutdown s → Step c s s'

-- What is reached from a state where `reconnect_loop` does not run, such as that behind `connect`.
pub data Reach (c : Cipher) (start : Shared) : Shared → Type 0 where
  here : Reach c start start
  next : {s s' : Shared} → Reach c start s → Step c s s' → Reach c start s'
