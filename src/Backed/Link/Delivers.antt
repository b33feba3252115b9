-- ===== src/Backed/Link/Delivers.antt =====
-- What a link delivers once the network has brought everything.
use eternal_terminal_client.Base.{
  ℕ, suc, ◌-◌, ◌<◌, ◌≡◌, refl, sym, ap, subst, ◌∙◌, some, List, [], ◌∷◌, ◌++◌, map, append-nil,
  arith, Outcome, ok, err, panic, stuck, length, All,
}
use eternal_terminal_client.Crypto.{CryptoHandler}
use eternal_terminal_client.Crypto.Secretbox.{Cipher, IsAead}
use eternal_terminal_client.Packet.{Packet, serialize}
use eternal_terminal_client.Packet.Serial.{from_serialized-serialize}
use eternal_terminal_client.Backed.Socket.{WriteHalf}
use eternal_terminal_client.Backed.Reader.{ReadEvent, ReadError, BackedReader, count}
use eternal_terminal_client.Backed.Reader.Arrival.{incoming, IsSteady}
use eternal_terminal_client.Backed.Reader.Poll.{poll, poll-buffered, poll-Delivered}
use eternal_terminal_client.Backed.Session.{
  IsSealed, IsSmall, wire, frame-framed, open_packet-sealed, with_first, followed, collect,
}
use eternal_terminal_client.Backed.Link.{Link, start, Reach}
use eternal_terminal_client.Backed.Link.Bytes.{IsPart, IsPart-nothing, IsStream}
use eternal_terminal_client.Backed.Link.InOrder.Steps.{Reach-IsInOrder}

module _ (c : Cipher) (aead : IsAead c) (n : ℕ) where
  -- One packet, and those behind it.
  first_of :
      (k : ℕ) (r r' : BackedReader) (p : Packet) (ps : List Packet)
      → poll n c r ≡ (ok (some p), r')
      → (collect n k c r').0 ≡ ok ps
      → (collect n (suc k) c r).0 ≡ ok (p ∷ ps)
  unfolding collect
  first_of k r r' p ps e h = ap (λ x. (followed (collect n k c) x).0) e ∙ only (collect n k c r') h
    where
      only :
          (x : Outcome ReadError (List Packet) × BackedReader)
          → x.0 ≡ ok ps
          → (with_first p x).0 ≡ ok (p ∷ ps)
      only (ok qs, r) h = cc
      only (err e, r) h = absurd (cc)
      only (panic, r) h = absurd (cc)
      only (stuck, r) h = absurd (cc)

  pub collect-arrived :
      (r : BackedReader) (es : List ReadEvent) (buffered ahead pending : List Packet)
      (h : CryptoHandler)
      → length es < n
      → All IsSmall ahead
      → r.local_buffer ≡ map serialize buffered
      → r.socket ≡ some es
      → IsSteady es
      → IsPart ahead r.partial
      → r.partial ++ incoming es ≡ wire ahead
      → IsSealed c r.crypto pending (buffered ++ ahead) h
      → (collect n (length pending) c r).0 ≡ ok pending
  unfolding collect
  collect-arrived r es [] [] [] h fuel small local alive st part e s = refl
  collect-arrived r es [] [] (p ∷ ps) h fuel small local alive st part e s = absurd s
  collect-arrived r es [] (q ∷ qs) [] h fuel small local alive st part e s = absurd s
  collect-arrived r es [] (q ∷ qs) (p ∷ ps) h fuel small local alive st part e (next, s, ss) =
      let d =
        poll-Delivered c n r es (serialize q) (wire qs) fuel
          (omega (arith, (from_serialized-serialize q).1, small.0)) local alive st part
          (e ∙ ap (λ t. t ++ wire qs) (frame-framed q small.0)) in
      let r' : BackedReader = record r { socket = some d.script; partial = [] } in
      first_of (length ps) r (count (record r' { crypto = next })) p ps
        (d.opened ∙ open_packet-sealed c aead count r' p q next s)
        (collect-arrived (count (record r' { crypto = next })) d.script [] qs ps h
          (omega (arith, d.shorter)) small.1 local refl d.steady (IsPart-nothing qs) d.left ss)
  collect-arrived r es (b ∷ bs) ahead [] h fuel small local alive st part e s = absurd s
  collect-arrived r es (b ∷ bs) ahead (p ∷ ps) h fuel small local alive st part e (next, s, ss) =
      let r' : BackedReader = record r { local_buffer = map serialize bs } in
      first_of (length ps) r (record r' { crypto = next }) p ps
        (subst (λ m. poll m c r ≡ (ok (some p), record r' { crypto = next })) (omega arith)
          (poll-buffered c (n - 1) r (serialize b) (map serialize bs) local
            ∙ open_packet-sealed c aead (λ r. r) r' p b next s))
        (collect-arrived (record r' { crypto = next }) es bs ahead ps h fuel small refl alive st
          part e ss)

-- A link in any state that it reaches, on a connection that both ends still have: once all that was in flight
-- has arrived, on a socket that then neither ends nor fails, `read`, called again and again, returns
-- one after the other all the packets that `write` stored and `read` has not returned. For each packet there
-- may be one call more than the socket has events.
pub Reach-delivers :
    (c : Cipher) (aead : IsAead c) (h : CryptoHandler) (half writer : WriteHalf) (s : Link)
    (es : List ReadEvent) (n : ℕ)
    → Reach c (start h half) s
    → s.writer.socket ≡ some writer
    → s.reader.socket ≡ some es
    → s.in_flight ≡ []
    → IsSteady es
    → length es < n
    → (pending : List Packet) × (s.wrote ≡ s.got ++ pending)
      × ((collect n (length pending) c s.reader).0 ≡ ok pending)
Reach-delivers c aead h half writer s es n reach sends alive arrived st fuel =
    let i = Reach-IsInOrder c aead h half s reach in
    let (e, part, t) =
      subst (λ o. IsStream s.writer.socket o s.reader.partial s.in_flight i.tail i.ahead) alive
        i.stream in
    (
      i.pending,
      i.order,
      collect-arrived c aead n s.reader es i.buffered i.ahead i.pending s.writer.crypto fuel i.small
          i.local alive st part
          (sym (append-nil (s.reader.partial ++ incoming es))
            ∙ ap (λ t. (s.reader.partial ++ incoming es) ++ t)
                (sym (λ j. arrived j ++ t writer sends j))
            ∙ e)
          i.chain,
    )
