-- ===== src/Connection/Client/Threads/Alone.antt =====
-- The accesses of the loop's thread, with none of the other thread between them, against `try_recover`.
use eternal_terminal_client.Base.{
  ℕ, zero, suc, ◌≡◌, refl, Bool, true, false, Option, none, some, List, Outcome, ok, err, panic,
  stuck, ◌>>=◌,
}
use eternal_terminal_client.Base.Int.{ℤ, pos, i64_as_i32}
use eternal_terminal_client.Base.Io.{Writer}
use eternal_terminal_client.Proto.Messages.{
  ConnectStatus, new_client, returning_client, invalid_key, mismatched_protocol, ConnectResponse,
  SequenceHeader, CatchupBuffer,
}
use eternal_terminal_client.Proto.Codec.ConnectRequest.{connect_request_message}
use eternal_terminal_client.Proto.Codec.ConnectResponse.{connect_response_message}
use eternal_terminal_client.Proto.Codec.SequenceHeader.{sequence_header_message}
use eternal_terminal_client.Proto.Codec.CatchupBuffer.{catchup_buffer_message}
use eternal_terminal_client.Connection.{
  Shared, Peer, ConnectError, send, receive, request, local_seq, remote_seq, read_half, write_half,
  recover_out, revive_reader, revive_writer, resume, on_recover_status, try_recover,
}
use eternal_terminal_client.Connection.Client.Threads.{
  Position, no_loop, head, trying, greeted, recovered, session_ended, hung, on_status, greet,
  announce, exchange, go_on, advance,
}

-- So many accesses, one behind the other.
pub advances : ℕ → Option Peer → Position × Shared → Position × Shared
advances zero found x = x
advances (suc n) found (p, s) = advances n found (advance found p s)

-- Where an attempt leaves the thread and the state.
abbrev pub outcome : Shared → Outcome ConnectError (Bool × Shared) → Position × Shared
outcome s (ok (true, s')) = (recovered, s')
outcome s (ok (false, s')) = (session_ended, s')
outcome s (err e) = (head, s)
outcome s panic = (no_loop, s)
outcome s stuck = (hung, s)

module _ (s : Shared) (peer : Peer) where
  abbrev Attempt : Type 0
  Attempt = Outcome ConnectError (Bool × Shared)

  -- Behind a part of the attempt, so many accesses lead to the end of the whole.
  record Goes (o : Outcome ConnectError Position) (t : Attempt) : Type 0 where
    accesses : ℕ
    leads : advances accesses (some peer) (go_on o, s) ≡ outcome s t

  Goes-bind :
      {A : Type 0} (a : Outcome ConnectError A) (f : A → Outcome ConnectError Position)
      (g : A → Attempt)
      → ((x : A) → Goes (f x) (g x))
      → Goes (a >>= f) (a >>= g)
  unfolding advances
  Goes-bind (ok x) f g h = h x
  Goes-bind (err e) f g h = record { accesses = 0; leads = refl }
  Goes-bind panic f g h = record { accesses = 0; leads = refl }
  Goes-bind stuck f g h = record { accesses = 0; leads = refl }

  -- `resume` behind the server's count.
  abbrev from_recover : Writer → List ℕ → ℤ → Attempt
  from_recover out₁ input₁ remote = do
    catchup_out ← recover_out s.writer remote
    out₂ ← send {M = CatchupBuffer} out₁ (record { buffer = catchup_out })
    (catchup_in, rest) ← receive {M = CatchupBuffer} input₁
    ok (
      true,
      record s {
        reader = revive_reader s.reader (read_half peer rest) catchup_in.buffer;
        writer = revive_writer s.writer (write_half peer out₂);
      },
    )

  exchange-Goes :
      (out : Writer) (input : List ℕ) (remote : ℤ)
      → Goes (exchange s peer out input remote) (from_recover out input remote)
  unfolding exchange advances advance
  exchange-Goes out input remote = Goes-bind (recover_out s.writer remote) _ _ (λ catchup.
      Goes-bind (send {M = CatchupBuffer} out (record { buffer = catchup })) _ _ (λ out₂.
        Goes-bind (receive {M = CatchupBuffer} input) _ _
          (λ x. record { accesses = 2; leads = refl })))

  announce-Goes :
      (out : Writer) (input : List ℕ) → Goes (announce s peer out input) (resume s peer out input)
  unfolding announce resume advances advance
  announce-Goes out input =
      Goes-bind
        (send {M = SequenceHeader} out
          (record { sequence_number = some (i64_as_i32 (pos (local_seq s.reader))) }))
        _ _
        (λ out₁. Goes-bind (receive {M = SequenceHeader} input) _ _ (λ x.
          let y = exchange-Goes out₁ x.1 (remote_seq x.0.sequence_number) in
          record { accesses = suc y.accesses; leads = y.leads }))

  on_status-Goes :
      (o : Option ConnectStatus) (error : Option (List ℕ)) (out : Writer) (input : List ℕ)
      → Goes
          (on_status o error (greeted peer out input))
          (on_recover_status s o error (resume s peer out input))
  unfolding on_recover_status advances advance
  on_status-Goes (some invalid_key) error out input = record { accesses = 0; leads = refl }
  on_status-Goes (some returning_client) error out input =
      let y = announce-Goes out input in record { accesses = suc y.accesses; leads = y.leads }
  on_status-Goes (some new_client) error out input = record { accesses = 0; leads = refl }
  on_status-Goes (some mismatched_protocol) error out input = record { accesses = 0; leads = refl }
  on_status-Goes none error out input = record { accesses = 0; leads = refl }

  -- The accesses of a whole attempt with none of the other thread between them: some number of them leads from
  -- the call of `try_recover` to what its result and its state say, on every server that `tcp_connect`
  -- finds.
  pub trying_alone :
      (n : ℕ) × (advances n (some peer) (trying, s) ≡ outcome s (try_recover s (some peer)))
  unfolding greet try_recover advances advance
  trying_alone =
      let y : Goes (greet s peer) (try_recover s (some peer)) =
        Goes-bind (send peer.output (request s)) _ _ (λ out.
          Goes-bind (receive {M = ConnectResponse} peer.input) _ _
            (λ x. on_status-Goes x.0.status x.0.error out x.1)) in
      (suc y.accesses, y.leads)
