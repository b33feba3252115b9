-- ===== src/Backed/Session.antt =====
-- A `BackedWriter` at one end and the `BackedReader` at the other: what is written is read, over one
-- connection and over a reconnect.
use eternal_terminal_client.Base.{
  ℕ, zero, suc, ◌+◌, ◌^◌, ◌≤◌, ◌<◌, ◌≡◌, refl, ap, ap₂, ◌∙◌, Option, none, some, List, [], ◌∷◌,
  ◌++◌, map, append_assoc, arith, Outcome, ok, err, panic, stuck, length, length-append,
  drop-append, All,
}
use eternal_terminal_client.Base.Int.{pos}
use eternal_terminal_client.Base.Bytes.{be_bytes}
use eternal_terminal_client.Crypto.{CryptoHandler}
use eternal_terminal_client.Crypto.Secretbox.{Cipher, IsAead}
use eternal_terminal_client.Packet
use eternal_terminal_client.Packet.{Packet, PacketError, from_serialized, serialize, size}
use eternal_terminal_client.Packet.Serial.{from_serialized-serialize}
use eternal_terminal_client.Packet.Sealed
use eternal_terminal_client.Backed.Reader
use eternal_terminal_client.Backed.Reader.{
  ReadEvent, ReadError, BackedReader, count, received, open_packet, read,
}
use eternal_terminal_client.Backed.Reader.Arrival.{incoming, IsSteady}
use eternal_terminal_client.Backed.Reader.Frames.{framed}
use eternal_terminal_client.Backed.Reader.Poll.{poll, open_packet-ok, poll-buffered, poll-Delivered}
use eternal_terminal_client.Backed.Writer.{BackedWriter, frame, recover}
use eternal_terminal_client.Backed.Writer.History.{IsBacked}
use eternal_terminal_client.Backed.Writer.Recover.{recover_lem}

-- The packets `qs` are the packets `ps`, encrypted one after the other from the handler `h` on, which
-- ends as `h'`.
abbrev pub IsSealed : Cipher → CryptoHandler → List Packet → List Packet → CryptoHandler → Type 0
IsSealed c h [] [] h' = h ≡ h'
IsSealed c h [] (q ∷ qs) h' = ⊥
IsSealed c h (p ∷ ps) [] h' = ⊥
IsSealed c h (p ∷ ps) (q ∷ qs) h' =
    (next : CryptoHandler) × (Packet.encrypt c p h ≡ (ok tt, q, next)) × IsSealed c next ps qs h'

abbrev pub with_first :
    Packet
    → Outcome ReadError (List Packet) × BackedReader
    → Outcome ReadError (List Packet) × BackedReader
with_first p (ok ps, r) = (ok (p ∷ ps), r)
with_first p (err e, r) = (err e, r)
with_first p (panic, r) = (panic, r)
with_first p (stuck, r) = (stuck, r)

-- What is read behind a packet; where there is none, reading ends.
abbrev pub followed :
    (BackedReader → Outcome ReadError (List Packet) × BackedReader)
    → Outcome ReadError (Option Packet) × BackedReader
    → Outcome ReadError (List Packet) × BackedReader
followed f (ok (some p), r) = with_first p (f r)
followed f (ok none, r) = (ok [], r)
followed f (err e, r) = (err e, r)
followed f (panic, r) = (panic, r)
followed f (stuck, r) = (stuck, r)

-- `k` packets read in order, with up to `n` calls of `read` for each.
unfoldable pub collect :
    ℕ → ℕ → Cipher → BackedReader → Outcome ReadError (List Packet) × BackedReader
collect n zero c r = (ok [], r)
collect n (suc k) c r = followed (collect n k c) (poll n c r)

pub length-map : {A B : Type 0} (f : A → B) (xs : List A) → length (map f xs) ≡ length xs
length-map f [] = refl
length-map f (x ∷ xs) = ap suc (length-map f xs)

-- What a reader holds after it has read packets off its socket.
pub record Received (r : BackedReader) (ps : List Packet) (h' : CryptoHandler) (rest : List ℕ)
    (x : Outcome ReadError (List Packet) × BackedReader) : Type 0 where
  pub script : List ReadEvent
  pub all : x ≡ (
    ok ps,
    record r {
      crypto = h';
      socket = some script;
      sequence_number = r.sequence_number + length ps;
      partial = [];
    },
  )
  pub left : incoming script ≡ rest
  pub steady : IsSteady script

-- What the writer sends for packets that it has encrypted.
abbrev pub wire : List Packet → List ℕ
wire [] = []
wire (q ∷ qs) = frame q ++ wire qs

-- The length of a packet fits in its four bytes.
abbrev pub IsSmall : Packet → Type 0
IsSmall q = size q < 2 ^ 32

pub frame-framed : (q : Packet) → IsSmall q → frame q ≡ framed (serialize q)
unfolding frame
frame-framed q h =
    ap (λ n. be_bytes 4 n ++ serialize q) (omega (arith, (from_serialized-serialize q).1))

module _ (c : Cipher) (aead : IsAead c) where
  -- A reader whose handler is that of the writer opens what the writer made.
  pub open_packet-sealed :
      (counted : BackedReader → BackedReader) (r : BackedReader) (p q : Packet)
      (next : CryptoHandler)
      → Packet.encrypt c p r.crypto ≡ (ok tt, q, next)
      → open_packet c counted r (from_serialized (serialize q))
        ≡ (ok (some p), counted (record r { crypto = next }))
  open_packet-sealed counted r p q next e =
      ap (open_packet c counted r) (from_serialized-serialize q).0
      ∙ open_packet-ok c counted r q
      ∙ ap (received counted r) (Sealed.decrypt-encrypt_packet c aead p q r.crypto next e).0

  pub collect-buffered :
      (n : ℕ) (r : BackedReader) (ps qs : List Packet) (h' : CryptoHandler)
      → r.local_buffer ≡ map serialize qs
      → IsSealed c r.crypto ps qs h'
      → collect (suc n) (length ps) c r ≡ (ok ps, record r { local_buffer = []; crypto = h' })
  unfolding collect
  collect-buffered n r [] [] h' b e =
      ap₂ (λ l h. (ok [], record r { local_buffer = l; crypto = h })) b e
  collect-buffered n r [] (q ∷ qs) h' b e = absurd e
  collect-buffered n r (p ∷ ps) [] h' b e = absurd e
  collect-buffered n r (p ∷ ps) (q ∷ qs) h' b (next, e, es) =
      ap (followed (collect (suc n) (length ps) c)) (
        poll-buffered c n r (serialize q) (map serialize qs) b
        ∙ open_packet-sealed (λ r. r) (record r { local_buffer = map serialize qs }) p q next e)
      ∙ ap (with_first p) (
          collect-buffered n (record r { local_buffer = map serialize qs; crypto = next }) ps qs h'
            refl es)

  -- Over one connection: whatever packets the writer encrypted and sent in full, a reader whose handler
  -- was in step with the writer's, with nothing buffered and no partial frame, reads exactly those
  -- packets in that order, counts them, and is in step again, on every socket that neither ends nor
  -- fails, however it splits the bytes. Each call of `poll` may call `read` once more than the socket
  -- has events, and each packet has less than 2^32 bytes.
  pub collect-wire :
      (n : ℕ) (r : BackedReader) (es : List ReadEvent) (ps qs : List Packet) (h' : CryptoHandler)
      (rest : List ℕ)
      → length es < n
      → All IsSmall qs
      → r.local_buffer ≡ []
      → r.socket ≡ some es
      → r.partial ≡ []
      → IsSteady es
      → incoming es ≡ wire qs ++ rest
      → IsSealed c r.crypto ps qs h'
      → Received r ps h' rest (collect n (length ps) c r)
  unfolding collect
  collect-wire n r es [] [] h' rest fuel small nothing alive none_read st e s = record {
    script = es;
    all =
        let z : r.sequence_number ≡ r.sequence_number + 0 = omega arith in
        λ i. (
          ok [],
          record r { crypto = s i; socket = alive i; sequence_number = z i; partial = none_read i },
        );
    left = e;
    steady = st;
  }
  collect-wire n r es [] (q ∷ qs) h' rest fuel small nothing alive none_read st e s = absurd s
  collect-wire n r es (p ∷ ps) [] h' rest fuel small nothing alive none_read st e s = absurd s
  collect-wire n r es (p ∷ ps) (q ∷ qs) h' rest fuel small nothing alive none_read st e
        (next, s, ss) =
      let d =
        poll-Delivered c n r es (serialize q) (wire qs ++ rest) fuel
          (omega (arith, (from_serialized-serialize q).1, small.0)) nothing alive st
          (omega (arith, ap length none_read))
          (ap (λ t. t ++ incoming es) none_read
            ∙ e
            ∙ append_assoc (frame q) (wire qs) rest
            ∙ ap (λ t. t ++ (wire qs ++ rest)) (frame-framed q small.0)) in
      let z : r.sequence_number + 1 + length ps ≡ r.sequence_number + suc (length ps) =
        omega arith in
      let ih =
        collect-wire n
          (record r {
            crypto = next;
            socket = some d.script;
            sequence_number = r.sequence_number + 1;
            partial = [];
          })
          d.script ps qs h' rest (omega (arith, d.shorter)) small.1 nothing refl refl d.steady
          d.left ss in
      record {
        script = ih.script;
        all =
            ap (followed (collect n (length ps) c)) (
              d.opened
              ∙ open_packet-sealed count (record r { socket = some d.script; partial = [] }) p q
                  next s)
            ∙ ap (with_first p) ih.all
            ∙ ap
                (λ m. (
                  ok (p ∷ ps),
                  record r {
                    crypto = h';
                    socket = some ih.script;
                    sequence_number = m;
                    partial = [];
                  },
                ))
                z;
        left = ih.left;
        steady = ih.steady;
      }

  -- Over a reconnect: if the reader has read and counted the first packets of the writer's history, its
  -- handler is in step with the writer's after those, and the writer's backup still holds the packets
  -- that it missed, then `recover` with the reader's count returns a catch-up with which the revived
  -- reader reads exactly the packets that it missed, in order and once each, whatever it had read of a
  -- frame before, and without reading its new socket; it has then counted the whole history, and is in
  -- step with the writer.
  pub recover_delivers :
      (w : BackedWriter) (r : BackedReader) (es : List ReadEvent) (seen missed qs : List Packet)
      → IsBacked (seen ++ qs) w
      → w.socket ≡ none
      → r.sequence_number ≡ length seen
      → r.local_buffer ≡ []
      → IsSealed c r.crypto missed qs w.crypto
      → length qs ≤ length w.backup
      → (catchup : List (List ℕ)) × (recover w (pos r.sequence_number) ≡ ok catchup)
        × (collect 1 (length missed) c (Reader.revive r es catchup) ≡ (
          ok missed,
          record r {
            crypto = w.crypto;
            socket = some es;
            sequence_number = length (seen ++ qs);
            partial = [];
            local_buffer = [];
          },
        ))
  recover_delivers w r es seen missed qs b dead counted nothing s held = (
    map serialize qs,
    ap (λ m. recover w (pos m)) counted
        ∙ (recover_lem w b dead (length seen)).1 (omega (arith, length-append seen qs))
            (omega (arith, length-append seen qs))
        ∙ ap (λ t. ok (map serialize t)) (drop-append seen qs),
    collect-buffered 0 (Reader.revive r es (map serialize qs)) missed qs w.crypto
          (ap (λ t. t ++ map serialize qs) nothing) s
        ∙ ap
            (λ m. (
              ok missed,
              record r {
                crypto = w.crypto;
                socket = some es;
                sequence_number = m;
                partial = [];
                local_buffer = [];
              },
            ))
            (omega (arith, counted, length-append seen qs, length-map serialize qs)),
  )
