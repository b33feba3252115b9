-- ===== src/Client.antt =====
-- src/client.rs: what `run_session` reads, shows and sends. Times are counts of milliseconds. Each value
-- that the loop gets from outside (the clock, the packets that `read_packet` returns, the console) is
-- an argument, and what it does there is an effect.
pub mod Responses
pub mod Output
pub mod Keepalive
pub mod Session
use eternal_terminal_client.Base.{
  ℕ, ◌+◌, ◌*◌, Bool, true, false, not, ◌&&◌, Option, none, some, List, [], ◌∷◌, ◌++◌, ltb, leb,
  ◌==◌, if◌then◌else◌, Outcome, ok, err, ◌>>=◌, map_err,
}
use eternal_terminal_client.Base.Int.{ℤ, pos, negsuc}
use eternal_terminal_client.Base.HashMap.{bytes_eq}
use eternal_terminal_client.Packet
use eternal_terminal_client.Packet.{Packet}
use eternal_terminal_client.Proto.Error.{ProtoError}
use eternal_terminal_client.Proto.Messages.{
  InitialPayload, InitialResponse, TerminalBuffer, TerminalInfo, heartbeat, initial_payload,
  initial_response, keep_alive, terminal_buffer, terminal_info,
}
use eternal_terminal_client.Proto.Codec.InitialPayload
use eternal_terminal_client.Proto.Codec.InitialResponse
use eternal_terminal_client.Proto.Codec.TerminalBuffer
use eternal_terminal_client.Proto.Codec.TerminalInfo

pub record ClientOptions : Type 0 where
  pub command : Option (List ℕ)
  pub no_exit : Bool
  pub keepalive_secs : ℕ
  pub jumphost : Bool
  pub no_terminal : Bool

abbrev pub default_keepalive_secs : ℕ
default_keepalive_secs = 5

abbrev pub default : ClientOptions
default = record {
  command = none;
  no_exit = false;
  keepalive_secs = default_keepalive_secs;
  jumphost = false;
  no_terminal = false;
}

-- The `anyhow::Error` of `run_session`.
pub data SessionError : Type 0 where
  payload_unsent timeout console_failed : SessionError
  unexpected_header : ℕ → SessionError
  refused : List ℕ → SessionError
  proto : ProtoError → SessionError

-- `Some(opts.jumphost).filter(|&j| j)` in the first packet.
pub initial_packet : ClientOptions → Packet
initial_packet opts = Packet.new initial_payload (
    InitialPayload.encode (record {
      jumphost = if opts.jumphost then some true else none;
      reverse_tunnels = [];
      environment_variables = [];
    }))

-- `if let Some(err) = resp.error`
abbrev pub accepted : Option (List ℕ) → Outcome SessionError (Unit {0})
accepted none = ok tt
accepted (some []) = ok tt
accepted (some (b ∷ bs)) = err (refused (b ∷ bs))

respond : Packet → Outcome SessionError (Unit {0})
respond pkt =
    if pkt.header == initial_response
    then (do resp ← map_err proto (InitialResponse.decode pkt.payload); accepted resp.error)
    else err (unexpected_header pkt.header)

-- The wait for the response, with what `read_packet` returns until the deadline.
pub await_response : List (Option Packet) → Outcome SessionError (Unit {0})
unfolding respond
await_response [] = err timeout
await_response (none ∷ reads) = await_response reads
await_response (some pkt ∷ reads) = respond pkt

-- The packet of `--command`.
pub command_packet : ClientOptions → List ℕ → Packet
command_packet opts cmd = Packet.new terminal_buffer (
    TerminalBuffer.encode (record {
      buffer = some (
          cmd
          ++ (if opts.no_exit
              then b'\n' ∷ []
              else b';' ∷ b' ' ∷ b'e' ∷ b'x' ∷ b'i' ∷ b't' ∷ b'\n' ∷ []));
    }))

-- `opts.keepalive_secs.clamp(1, 5)`, in milliseconds.
pub keepalive_duration : ClientOptions → ℕ
keepalive_duration opts =
    (if ltb opts.keepalive_secs 1
      then 1
      else if ltb 5 opts.keepalive_secs
      then 5
      else opts.keepalive_secs)
    * 1000

-- The variables of the loop.
pub record Loop : Type 0 where
  pub keepalive_deadline : ℕ
  pub waiting_on_keepalive : Bool
  pub last_ti : TerminalInfo

-- What the loop does: `write_packet`, `console.write`, `close_and_maybe_reconnect`.
pub data Effect : Type 0 where
  write : Packet → Effect
  show : List ℕ → Effect
  close : Effect

abbrev pub or_empty : Option (List ℕ) → List ℕ
or_empty none = []
or_empty (some buf) = buf

module _ (has_console : Bool) (duration : ℕ) where
  -- `match pkt.header()`, with the time at which the packet is read.
  pub on_packet : Packet → ℕ → Loop × List ℕ → Outcome ProtoError (Loop × List ℕ)
  on_packet pkt now (l, coalesced) =
      if pkt.header == terminal_buffer
      then if has_console
        then (do
          tb ← TerminalBuffer.decode pkt.payload
          ok (record l { keepalive_deadline = now + duration }, coalesced ++ or_empty tb.buffer))
        else ok (l, coalesced)
      else if pkt.header == keep_alive
      then ok (record l { waiting_on_keepalive = false }, coalesced)
      else ok (l, coalesced)

  -- `while let Some(pkt) = conn.read_packet()?`
  pub drain : List (Packet × ℕ) → Loop × List ℕ → Outcome ProtoError (Loop × List ℕ)
  drain [] s = ok s
  drain ((pkt, now) ∷ pkts) s = do s' ← on_packet pkt now s; drain pkts s'

  -- `if !coalesced.is_empty()`, on a console.
  pub shown : List ℕ → List Effect
  shown [] = []
  shown (b ∷ bs) = if has_console then show (b ∷ bs) ∷ [] else []

  -- The keepalive: `now` is read for the test, `later` for the next deadline.
  pub keepalive : (now later : ℕ) → Loop → Loop × List Effect
  keepalive now later l =
      if leb l.keepalive_deadline now
      then if l.waiting_on_keepalive
        then (
          record l { keepalive_deadline = later + duration; waiting_on_keepalive = false },
          close ∷ [],
        )
        else (
          record l { keepalive_deadline = later + duration; waiting_on_keepalive = true },
          write (Packet.new keep_alive []) ∷ [],
        )
      else (l, [])

  -- `console.write(&coalesced)?`, with whether the console takes it.
  abbrev pub written : Bool → List Effect → Outcome SessionError (List Effect)
  written true es = ok es
  written false [] = ok []
  written false (e ∷ es) = err console_failed

  -- The network's half of a round, with a socket and without one.
  pub network :
      Bool
      → Bool
      → List (Packet × ℕ)
      → (now later : ℕ) → Loop
      → Outcome SessionError (Loop × List Effect)
  network true shows pkts now later l = do
    (l', coalesced) ← map_err proto (drain pkts (l, []))
    es ← written shows (shown coalesced)
    ok ((keepalive now later l').0, es ++ (keepalive now later l').1)
  network false shows pkts now later l = ok (record l { waiting_on_keepalive = false }, [])

-- `ti != last_ti`
abbrev ℤ_eq : ℤ → ℤ → Bool
ℤ_eq (pos m) (pos n) = m == n
ℤ_eq (pos m) (negsuc n) = false
ℤ_eq (negsuc m) (pos n) = false
ℤ_eq (negsuc m) (negsuc n) = m == n

abbrev option_eq : {A : Type 0} → (A → A → Bool) → Option A → Option A → Bool
option_eq eq none none = true
option_eq eq none (some b) = false
option_eq eq (some a) none = false
option_eq eq (some a) (some b) = eq a b

pub info_eq : TerminalInfo → TerminalInfo → Bool
info_eq a b =
    option_eq bytes_eq a.id b.id
    && option_eq ℤ_eq a.row b.row
    && option_eq ℤ_eq a.column b.column
    && option_eq ℤ_eq a.width b.width
    && option_eq ℤ_eq a.height b.height

-- What `console.poll_input` returns.
pub data Input : Type 0 where
  typed : List ℕ → Input
  idle failed : Input

abbrev pub typed_packet : List ℕ → Packet
typed_packet bytes =
    Packet.new terminal_buffer (TerminalBuffer.encode (record { buffer = some bytes }))

-- `console.terminal_info()` at the end of a round.
pub on_info : TerminalInfo → Loop → Loop × List Effect
on_info ti l =
    if info_eq ti l.last_ti
    then (l, [])
    else (record l { last_ti = ti }, write (Packet.new terminal_info (TerminalInfo.encode ti)) ∷ [])

-- The console's half of a round; `none` is the `break` out of the loop. Without a console there is only
-- a sleep.
pub local_input : (duration now : ℕ) → Input → TerminalInfo → Loop → Option (Loop × List Effect)
local_input duration now failed ti l = none
local_input duration now idle ti l = some (on_info ti l)
local_input duration now (typed bytes) ti l =
    let (l', effects) = on_info ti (record l { keepalive_deadline = now + duration }) in
    some (l', write (typed_packet bytes) ∷ effects)
