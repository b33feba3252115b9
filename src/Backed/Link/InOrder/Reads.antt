-- ===== src/Backed/Link/InOrder/Reads.antt =====
-- The invariant of a link over a call of `read`, and what the call returns.
use eternal_terminal_client.Base.{
  ℕ, ◌+◌, ◌≡◌, refl, sym, ap, subst, ◌∙◌, Option, none, some, List, [], ◌∷◌, ◌++◌, map,
  append_assoc, append-nil, arith, Outcome, ok, err, panic, stuck, length, length-append, All,
}
use eternal_terminal_client.Crypto.Secretbox.{Cipher, IsAead}
use eternal_terminal_client.Packet.{Packet, serialize}
use eternal_terminal_client.Packet.Serial.{from_serialized-serialize}
use eternal_terminal_client.Backed.Writer.History.{IsBacked}
use eternal_terminal_client.Backed.Reader
use eternal_terminal_client.Backed.Reader.{
  ReadEvent, ReadError, connection_closed, io, packet, BackedReader, count,
}
use eternal_terminal_client.Backed.Reader.Arrival.{incoming}
use eternal_terminal_client.Backed.Reader.Stream.{
  IsQuiet, Streamed, quiet, taken, read-Streamed, read-Idle, no_bytes, read-buffered, read-dead,
}
use eternal_terminal_client.Backed.Session.{
  IsSealed, IsSmall, wire, frame-framed, open_packet-sealed,
}
use eternal_terminal_client.Backed.Link.{Link, delivered, read_step}
use eternal_terminal_client.Backed.Link.Bytes.{IsPart-nothing, IsStream}
use eternal_terminal_client.Backed.Link.InOrder.{IsInOrder}

-- A packet that `read` returns is the first of these, and what else it returns is no fault of the packets.
abbrev pub IsNext : Outcome ReadError (Option Packet) → List Packet → Type 0
IsNext (ok (some p)) ps = (rest : List Packet) × (ps ≡ p ∷ rest)
IsNext (ok none) ps = Unit
IsNext (err connection_closed) ps = Unit
IsNext (err io) ps = Unit
IsNext (err (packet e)) ps = ⊥
IsNext panic ps = ⊥
IsNext stuck ps = ⊥

quiet-IsNext :
    (o : Outcome ReadError (Option Packet)) (ps : List Packet)
    → IsQuiet o
    → (delivered o ≡ []) × IsNext o ps
quiet-IsNext (ok none) ps q = (refl, tt)
quiet-IsNext (ok (some p)) ps q = absurd q
quiet-IsNext (err connection_closed) ps q = (refl, tt)
quiet-IsNext (err io) ps q = (refl, tt)
quiet-IsNext (err (packet e)) ps q = absurd q
quiet-IsNext panic ps q = absurd q
quiet-IsNext stuck ps q = absurd q

module _ (c : Cipher) (aead : IsAead c) (s : Link) where
  abbrev after : Outcome ReadError (Option Packet) × BackedReader → Link
  after x = record s { reader = x.1; got = s.got ++ delivered x.0 }

  abbrev After : List Packet → Outcome ReadError (Option Packet) × BackedReader → Type 0
  After pending x = IsInOrder c (after x) × IsNext x.0 pending

  -- Nothing is returned, and only the bytes of the reader change.
  nothing-After :
      (pending : List Packet) (o : Outcome ReadError (Option Packet)) (r : BackedReader)
      → IsQuiet o
      → IsInOrder c (record s { reader = r })
      → After pending (o, r)
  nothing-After pending o r q i =
      let (d, n) = quiet-IsNext o pending q in
      (
        subst (λ t. IsInOrder c (record s { reader = r; got = t }))
            (sym (append-nil s.got) ∙ ap (λ t. s.got ++ t) (sym d)) i,
        n,
      )

  module _ (seen : List Packet) (tail : List ℕ) where
    -- Nothing buffered, and a socket.
    from_socket :
        (ahead pending : List Packet) (es : List ReadEvent)
        → IsBacked (seen ++ ahead) s.writer
        → s.reader.sequence_number ≡ length seen + 0
        → s.reader.local_buffer ≡ []
        → IsSealed c s.reader.crypto pending ahead s.writer.crypto
        → s.wrote ≡ s.got ++ pending
        → All IsSmall ahead
        → s.reader.socket ≡ some es
        → IsStream s.writer.socket (some es) s.reader.partial s.in_flight tail ahead
        → After pending (Reader.read c s.reader)
    from_socket [] pending es log counted local chain order small alive (e, k, t) =
        let (a, b) = no_bytes (s.reader.partial ++ incoming es) (s.in_flight ++ tail) e in
        let x = read-Idle c s.reader es local alive a in
        subst (After pending) (sym x.idle) (
          nothing-After pending x.result _ x.is_quiet (record {
            seen = seen;
            buffered = [];
            ahead = [];
            pending = pending;
            tail = tail;
            log = log;
            counted = counted;
            local = local;
            chain = chain;
            order = order;
            small = small;
            stream = (ap (λ t. t ++ (s.in_flight ++ tail)) x.nothing ∙ b, tt, t);
          }))
    from_socket (q ∷ qs) [] es log counted local chain order small alive (e, k, t) = absurd chain
    from_socket (q ∷ qs) (p ∷ ps) es log counted local (next, enc, chain) order small alive
          (e, k, t) =
        by_read (
          read-Streamed c s.reader (s.in_flight ++ tail) (serialize q) (wire qs)
            (omega (arith, (from_serialized-serialize q).1, small.0)) es local alive k
            (e ∙ ap (λ t. t ++ wire qs) (frame-framed q small.0)))
      where
        by_read :
            Streamed c s.reader
              (s.in_flight ++ tail)
              (serialize q)
              (wire qs)
              (Reader.read c s.reader)
            → After (p ∷ ps) (Reader.read c s.reader)
        by_read (quiet o got es' n x e' k') = subst (After (p ∷ ps)) (sym x) (
            nothing-After (p ∷ ps) o _ n (record {
              seen = seen;
              buffered = [];
              ahead = q ∷ qs;
              pending = p ∷ ps;
              tail = tail;
              log = log;
              counted = counted;
              local = local;
              chain = (next, enc, chain);
              order = order;
              small = small;
              stream = (e' ∙ ap (λ t. t ++ wire qs) (sym (frame-framed q small.0)), k', t);
            }))
        by_read (taken es' x e') =
            subst (After (p ∷ ps))
              (sym (
                x
                ∙ open_packet-sealed c aead count
                    (record s.reader { socket = some es'; partial = [] }) p q next enc))
              (
                record {
                  seen = seen ++ q ∷ [];
                  buffered = [];
                  ahead = qs;
                  pending = ps;
                  tail = tail;
                  log = subst (λ t. IsBacked t s.writer) (sym (append_assoc seen (q ∷ []) qs)) log;
                  counted = omega (arith, counted, length-append seen (q ∷ []));
                  local = local;
                  chain = chain;
                  order = order ∙ sym (append_assoc s.got (p ∷ []) ps);
                  small = small.1;
                  stream = (e', IsPart-nothing qs, t);
                },
                (ps, refl),
              )

    from_lists :
        (buffered ahead pending : List Packet)
        → IsBacked (seen ++ (buffered ++ ahead)) s.writer
        → s.reader.sequence_number ≡ length seen + length buffered
        → s.reader.local_buffer ≡ map serialize buffered
        → IsSealed c s.reader.crypto pending (buffered ++ ahead) s.writer.crypto
        → s.wrote ≡ s.got ++ pending
        → All IsSmall ahead
        → (o : Option (List ReadEvent)) → s.reader.socket ≡ o
        → IsStream s.writer.socket o s.reader.partial s.in_flight tail ahead
        → After pending (Reader.read c s.reader)
    from_lists [] ahead pending log counted local chain order small (some es) alive stream =
        from_socket ahead pending es log counted local chain order small alive stream
    from_lists [] ahead pending log counted local chain order small none dead stream =
        subst (After pending) (sym (read-dead c s.reader local dead)) (
          nothing-After pending (ok none) s.reader tt (record {
            seen = seen;
            buffered = [];
            ahead = ahead;
            pending = pending;
            tail = tail;
            log = log;
            counted = counted;
            local = local;
            chain = chain;
            order = order;
            small = small;
            stream =
                subst (λ o. IsStream s.writer.socket o s.reader.partial s.in_flight tail ahead)
                  (sym dead) stream;
          }))
    from_lists (b ∷ bs) ahead [] log counted local chain order small o socket stream = absurd chain
    from_lists (b ∷ bs) ahead (p ∷ ps) log counted local (next, enc, chain) order small o socket
          stream =
        subst (After (p ∷ ps))
          (sym (
            read-buffered c s.reader (serialize b) (map serialize bs) local
            ∙ open_packet-sealed c aead (λ r. r)
                (record s.reader { local_buffer = map serialize bs }) p b next enc))
          (
            record {
              seen = seen ++ b ∷ [];
              buffered = bs;
              ahead = ahead;
              pending = ps;
              tail = tail;
              log =
                  subst (λ t. IsBacked t s.writer) (sym (append_assoc seen (b ∷ []) (bs ++ ahead)))
                    log;
              counted = omega (arith, counted, length-append seen (b ∷ []));
              local = refl;
              chain = chain;
              order = order ∙ sym (append_assoc s.got (p ∷ []) ps);
              small = small;
              stream =
                  subst (λ o. IsStream s.writer.socket o s.reader.partial s.in_flight tail ahead)
                    (sym socket) stream;
            },
            (ps, refl),
          )

  pub read-IsInOrder :
      (i : IsInOrder c s)
      → IsInOrder c (read_step c s) × IsNext (Reader.read c s.reader).0 i.pending
  unfolding read_step
  read-IsInOrder i =
      from_lists i.seen i.tail i.buffered i.ahead i.pending i.log i.counted i.local i.chain i.order
        i.small s.reader.socket refl i.stream
