-- ===== src/Lib.antt =====
-- The client of Eternal Terminal: a remote shell whose session outlives its TCP connection. Both ends
-- number the packets that they send and keep the newest of them, encrypted. After a reconnect each end
-- tells the other how many packets it has received, and gets the ones that it missed.
--
-- The parts, from the bottom, and the files that model them:
--   Base      what the program takes from Rust and its library: bytes, machine integers, UTF-8, results
--             with panics, streams, and maps. Base/Lists, Base/Bits, Base/Int, Base/Bytes, Base/Utf8,
--             Base/Io and Base/HashMap hold them and their lemmas.
--   Proto     src/proto.rs. Proto/Varint: `write_varint`, `read_varint`. Proto/Wire: tags, fields and
--             `parse_message`. Proto/Messages: the messages and constants. Proto/Codec: `encode` and
--             `decode` of each message. Proto/Frame: `write_proto`, `read_proto`.
--   Crypto    src/crypto.rs: `CryptoHandler` with its counted nonce. Crypto/Secretbox is the cipher of
--             the crate xsalsa20poly1305, a parameter: its documentation promises that a sealed text
--             opens to what was sealed and is 16 bytes longer.
--   Packet    src/packet.rs: a packet, serialized and encrypted.
--   Backed    src/backed.rs. Backed/Socket: `write_all_retry`. Backed/Writer: `BackedWriter`. Its
--             theorems compare the backup with the history, the list of all the packets it ever stored.
--             Backed/Reader: `BackedReader`. Backed/Session: a writer and the reader at the other end.
--             Backed/Race: a write inside a recovery. Backed/Link: a writer, a network and a reader as
--             steps; Backed/Link/Channel is the channel that they implement.
--   Connection  src/connection.rs: `connect` and `try_recover` over a stream of messages.
--             Connection/Client: the calls of `ClientConnection` and the rounds of `reconnect_loop` as
--             steps of two threads on the shared state; Connection/Client/Threads: the same loop a
--             shared access at a time.
--   Host      src/host.rs: `parse_destination`.
--   Client    src/client.rs: the packets at the start of `run_session`, and a round of its loop.
--             Client/Session: `run_session`, over the rounds that are seen of its loop, with the setup and
--             the teardown of the console.
--   Main      src/main.rs: the host and the port that `real_main` connects to. Main/Start: `real_main`
--             as the calls that it makes, in their order.
--   SshSetup  src/ssh_setup.rs: `setup_ssh` and `parse_idpasskey`, over a child process that is an
--             argument.
--   Terminal  src/terminal.rs: `LocalConsole`. Terminal/Windows: the console modes and the size of the
--             window; Terminal/Windows/Input: the queue of records and `poll_stdin`. Terminal/Unix: the
--             same calls on Unix. Terminal/Size: the sizes that both report.
--   Tests     the theorems at concrete inputs.
--
-- State is passed explicitly: an operation takes the struct as a record and returns it beside its
-- result. A `Result` is an `Outcome`: a value, an error or a panic (`stuck` is a loop of the model
-- without fuel, which no function here reaches). Bytes, `u64`, `usize` and `i32` are numbers with their
-- ranges as hypotheses, and where the code wraps the remainder is written out. A non-blocking socket is
-- a script of what its next calls return; a script that ends is a socket that stays busy, so a call
-- that has not returned is a value of its own. Mutexes are not modelled: each operation is one step,
-- and in Connection/Client/Threads each hold of a lock is.
--
-- Bounds: `write_varint` recurses on the accessibility of its number and `read_varint` on its ten
-- shifts. `parse_message` has the number of its bytes as fuel, enough because a round takes at least
-- one. The loops of Terminal/Windows/Input have their turns as fuel, enough because the records that
-- come are finitely many and the clock gets on. The other loops recurse on their data.
--
-- Not modelled: the opening of TCP streams and their options, sleeping, how much of a text the console
-- has shown where writing it fails, argument parsing, the handler of Ctrl-C, the build script
-- (resources of the executable), running out of memory, and logging.
pub mod Base
pub mod Proto
pub mod Crypto
pub mod Packet
pub mod Backed
pub mod Connection
pub mod Host
pub mod Client
pub mod Main
pub mod SshSetup
pub mod Terminal
mod Tests
