-- ===== src/Backed/Reader/Poll.antt =====
-- `BackedReader::read` called again and again, as the run loop of src/client.rs does.
use eternal_terminal_client.Base.{
  ℕ, zero, suc, ◌+◌, ◌^◌, ◌≤◌, ◌<◌, ◌≡◌, refl, ap, ◌∙◌, Option, none, some, List, [], ◌∷◌, ◌++◌,
  arith, Outcome, ok, err, panic, stuck, length,
}
use eternal_terminal_client.Crypto.{CryptoHandler}
use eternal_terminal_client.Crypto.Secretbox.{Cipher}
use eternal_terminal_client.Packet
use eternal_terminal_client.Packet.{Packet, PacketError, from_serialized}
use eternal_terminal_client.Backed.Reader.{
  ReadEvent, ReadError, BackedReader, count, received, open_packet, read_buffered, read,
}
use eternal_terminal_client.Backed.Reader.Arrival.{incoming, IsSteady}
use eternal_terminal_client.Backed.Reader.Frames.{framed, Polled, early, taken, read-Polled}

-- `Ok(None)` is read again.
abbrev pub again :
    (BackedReader → Outcome ReadError (Option Packet) × BackedReader)
    → Outcome ReadError (Option Packet) × BackedReader
    → Outcome ReadError (Option Packet) × BackedReader
again f (ok none, r) = f r
again f (ok (some p), r) = (ok (some p), r)
again f (err e, r) = (err e, r)
again f (panic, r) = (panic, r)
again f (stuck, r) = (stuck, r)

-- Up to `n` calls of `read`, until one returns a packet or an error.
pub poll : ℕ → Cipher → BackedReader → Outcome ReadError (Option Packet) × BackedReader
poll zero c r = (ok none, r)
poll (suc n) c r = again (poll n c) (read c r)

again-received :
    (f : BackedReader → Outcome ReadError (Option Packet) × BackedReader)
    (counted : BackedReader → BackedReader) (r : BackedReader)
    (y : Outcome PacketError (Unit {0}) × Packet × CryptoHandler)
    → again f (received counted r y) ≡ received counted r y
again-received f counted r (ok _, p, h) = refl
again-received f counted r (err e, p, h) = refl
again-received f counted r (panic, p, h) = refl
again-received f counted r (stuck, p, h) = refl

pub again-open_packet :
    (f : BackedReader → Outcome ReadError (Option Packet) × BackedReader) (c : Cipher)
    (counted : BackedReader → BackedReader) (r : BackedReader) (x : Outcome PacketError Packet)
    → again f (open_packet c counted r x) ≡ open_packet c counted r x
unfolding open_packet
again-open_packet f c counted r (ok p) = again-received f counted r _
again-open_packet f c counted r (err e) = refl
again-open_packet f c counted r panic = refl
again-open_packet f c counted r stuck = refl

pub open_packet-ok :
    (c : Cipher) (counted : BackedReader → BackedReader) (r : BackedReader) (p : Packet)
    → open_packet c counted r (ok p) ≡ received counted r (Packet.decrypt c p r.crypto)
unfolding open_packet
open_packet-ok c counted r p = refl

-- What the last `revive` buffered is read without the socket.
pub poll-buffered :
    (c : Cipher) (n : ℕ) (r : BackedReader) (s : List ℕ) (rest : List (List ℕ))
    → r.local_buffer ≡ s ∷ rest
    → poll (suc n) c r
      ≡ open_packet c (λ r. r) (record r { local_buffer = rest }) (from_serialized s)
unfolding poll read read_buffered
poll-buffered c n r s rest b =
    ap (λ l. again (poll n c) (read_buffered c r l)) b
    ∙ again-open_packet (poll n c) c (λ r. r) (record r { local_buffer = rest }) (from_serialized s)

-- What `poll` has done when the frame of `s` has arrived: the packet of `s` is opened and counted,
-- and the socket is left with what is behind the frame.
pub record Delivered (c : Cipher) (r : BackedReader) (es : List ReadEvent) (s rest : List ℕ)
    (x : Outcome ReadError (Option Packet) × BackedReader) : Type 0 where
  pub script : List ReadEvent
  pub opened :
      x ≡ open_packet c count (record r { socket = some script; partial = [] }) (from_serialized s)
  pub left : incoming script ≡ rest
  pub steady : IsSteady script
  pub shorter : length script ≤ length es

-- However the bytes of a frame are split over the calls of `read`, and whatever transient errors and
-- interruptions come between, on a socket that neither ends nor fails, enough calls of `read` (one
-- more than the socket has events) take exactly that frame: the packet is opened and counted, and
-- what follows the frame is left for the next call.
pub poll-Delivered :
    (c : Cipher) (n : ℕ) (r : BackedReader) (es : List ReadEvent) (s rest : List ℕ)
    → length es < n
    → length s < 2 ^ 32
    → r.local_buffer ≡ []
    → r.socket ≡ some es
    → IsSteady es
    → length r.partial < 4 + length s
    → r.partial ++ incoming es ≡ framed s ++ rest
    → Delivered c r es s rest (poll n c r)
unfolding poll
poll-Delivered c zero r es s rest fuel small nothing alive st k e = absurd (omega arith)
poll-Delivered c (suc n) r es s rest fuel small nothing alive st k e =
    by_step (read-Polled c r es s rest small nothing alive st k e) (λ got es' h.
      poll-Delivered c n (record r { socket = some es'; partial = got }) es' s rest h small nothing
        refl)
  where
    by_step :
        Polled c r es s rest (read c r)
        → ((got : List ℕ) (es' : List ReadEvent)
            → length es' < n
            → IsSteady es'
            → length got < 4 + length s
            → got ++ incoming es' ≡ framed s ++ rest
            → Delivered c
                (record r { socket = some es'; partial = got })
                es'
                s
                rest
                (poll n c (record r { socket = some es'; partial = got })))
        → Delivered c r es s rest (again (poll n c) (read c r))
    by_step (early got es' x k' e' st' l) ih =
        let d = ih got es' (omega arith) st' k' e' in
        record {
          script = d.script;
          opened = ap (again (poll n c)) x ∙ d.opened;
          left = d.left;
          steady = d.steady;
          shorter = omega (arith, d.shorter);
        }
    by_step (taken es' x l st' m) ih = record {
      script = es';
      opened = ap (again (poll n c)) x ∙ again-open_packet (poll n c) c count _ (from_serialized s);
      left = l;
      steady = st';
      shorter = m;
    }
