-- ===== src/Tests/LinkTests.antt =====
-- A link of src/backed.rs that loses its connection before anything is written.
use eternal_terminal_client.Base.{◌≡◌, refl, ap, none, some, List, [], ◌∷◌, ◌++◌, arith, ok, length}
use eternal_terminal_client.Base.Int.{pos}
use eternal_terminal_client.Crypto.{step_nonce}
use eternal_terminal_client.Packet.{Packet, serialize, size}
use eternal_terminal_client.Backed.Writer.{BackedWriter, buffered_only, push, write, recover}
use eternal_terminal_client.Backed.Writer.Dead.{write_dead}
use eternal_terminal_client.Backed.Writer.History.{IsBacked}
use eternal_terminal_client.Backed.Writer.Recover.{recover_lem}
use eternal_terminal_client.Backed.Reader
use eternal_terminal_client.Backed.Session.{collect}
use eternal_terminal_client.Backed.Link.{
  Link, start, cut_off, written, reconnected, Reach, here, next,
}
use eternal_terminal_client.Backed.Link
use eternal_terminal_client.Backed.Link.Channel.{Plays, events, Reach-Plays}
use eternal_terminal_client.Backed.Link.Delivers.{Reach-delivers}
use eternal_terminal_client.Backed.Reader.Arrival.{IsSteady}
use eternal_terminal_client.Backed.Link.InOrder.Reads.{IsNext}
use eternal_terminal_client.Backed.Link.InOrder.Steps.{Reach-IsPrefix, Reach-recovers}
use eternal_terminal_client.Tests.CryptoTests.{
  toy, toy-IsAead, handler, plain, sealed_plain, encrypt-plain,
}
use eternal_terminal_client.Tests.SessionTests.{quiet}

abbrev lost : Link
lost = cut_off (start handler quiet)

-- The writer with one packet that it could not send.
abbrev waiting : BackedWriter
waiting = record {
  crypto = step_nonce handler;
  socket = none;
  backup = sealed_plain ∷ [];
  backup_size = 20;
  disconnected_bytes = 20;
  sequence_number = 1;
}

write-waiting : write toy lost.writer plain ≡ (some buffered_only, waiting)
unfolding push start cut_off
write-waiting =
    write_dead toy lost.writer plain refl sealed_plain (step_nonce handler) (omega arith)
      encrypt-plain

abbrev buffered : Link
buffered = written toy lost plain buffered_only waiting

buffered_reached : Reach toy (start handler quiet) buffered
unfolding start cut_off
buffered_reached = next (next here (Link.cut refl)) (
    Link.write plain buffered_only waiting (ap (λ x. x.0) encrypt-plain)
      (omega (arith, ap (λ x. size x.1) encrypt-plain)) write-waiting refl)

waiting-IsBacked : IsBacked (sealed_plain ∷ []) waiting
waiting-IsBacked = record {
  counted = refl;
  dropped = 0;
  within = omega arith;
  kept = refl;
  needed = tt;
  sized = refl;
}

recover-waiting : recover waiting (pos 0) ≡ ok (serialize sealed_plain ∷ [])
recover-waiting = (recover_lem waiting waiting-IsBacked refl 0).1 (omega arith) (omega arith)

abbrev resumed : Link
resumed = reconnected buffered quiet (serialize sealed_plain ∷ [])

Reach-IsPrefix_example :
    (pending : List Packet) × (resumed.wrote ≡ resumed.got ++ pending)
    × IsNext (Reader.read toy resumed.reader).0 pending
unfolding start cut_off
Reach-IsPrefix_example = Reach-IsPrefix toy toy-IsAead handler quiet resumed (
    next buffered_reached
      (Link.reconnect quiet (serialize sealed_plain ∷ []) refl refl recover-waiting refl))

Reach-recovers_example :
    (pending : List Packet) × (buffered.wrote ≡ buffered.got ++ pending)
    × ((collect 1
          (length pending)
          toy
          (Reader.revive buffered.reader [] (serialize sealed_plain ∷ []))).0
        ≡ ok pending)
unfolding start cut_off
Reach-recovers_example =
    Reach-recovers toy toy-IsAead handler quiet buffered [] (serialize sealed_plain ∷ [])
      buffered_reached refl recover-waiting

resumed_reached : Reach toy (start handler quiet) resumed
unfolding start cut_off
resumed_reached =
    next buffered_reached
      (Link.reconnect quiet (serialize sealed_plain ∷ []) refl refl recover-waiting refl)

Reach-Plays_example :
    (q : List Packet) × Plays [] (events toy (start handler quiet) resumed_reached) q
    × (resumed.wrote ≡ resumed.got ++ q)
Reach-Plays_example = Reach-Plays toy toy-IsAead handler quiet resumed resumed_reached

Reach-delivers_example :
    (pending : List Packet) × (resumed.wrote ≡ resumed.got ++ pending)
    × ((collect 1 (length pending) toy resumed.reader).0 ≡ ok pending)
unfolding start cut_off IsSteady
Reach-delivers_example =
    Reach-delivers toy toy-IsAead handler quiet quiet resumed [] 1
      (next buffered_reached
        (Link.reconnect quiet (serialize sealed_plain ∷ []) refl refl recover-waiting refl))
      refl refl refl tt (omega arith)
