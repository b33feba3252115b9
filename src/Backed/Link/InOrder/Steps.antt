-- ===== src/Backed/Link/InOrder/Steps.antt =====
-- The invariant of a link over every step, and what it means for the packets.
use native.Mathlib.Decide.{dec_lt}
use mathlib.Core.List.{map-append}
use eternal_terminal_client.Base.{
  ℕ, ◌+◌, ◌≡◌, refl, sym, ap, ap₂, subst, ◌∙◌, Option, none, some, List, [], ◌∷◌, ◌++◌, map,
  append_assoc, append-nil, arith, Outcome, ok, length, length-append, drop-append,
}
use eternal_terminal_client.Base.Int.{pos}
use eternal_terminal_client.Crypto.{CryptoHandler}
use eternal_terminal_client.Crypto.Secretbox.{Cipher, IsAead}
use eternal_terminal_client.Packet.{Packet, serialize}
use eternal_terminal_client.Backed.Socket.{WriteHalf}
use eternal_terminal_client.Backed.Writer.{RecoverError, recover}
use eternal_terminal_client.Backed.Writer.Recover.{recover_lem}
use eternal_terminal_client.Backed.Writer.History.{IsBacked}
use eternal_terminal_client.Backed.Reader
use eternal_terminal_client.Backed.Reader.{ReadEvent, ReadError}
use eternal_terminal_client.Backed.Reader.{arrive}
use eternal_terminal_client.Backed.Reader.Arrival.{incoming}
use eternal_terminal_client.Backed.Session.{IsSealed, length-map, collect, collect-buffered}
use eternal_terminal_client.Backed.Link.{
  Link, start, with_script, cut_off, reconnected, Step, write, arrives, disturbed, read, cut,
  reconnect, Reach, here, next,
}
use eternal_terminal_client.Backed.Link.Bytes.{IsStream, IsStream-events}
use eternal_terminal_client.Backed.Link.InOrder.{IsInOrder, start-IsInOrder}
use eternal_terminal_client.Backed.Link.InOrder.Writes.{write-IsInOrder}
use eternal_terminal_client.Backed.Link.InOrder.Reads.{IsNext, read-IsInOrder}

ok_inj : {A : Type 0} {a b : A} (x y : Outcome RecoverError A) → x ≡ y → x ≡ ok a → y ≡ ok b → a ≡ b
ok_inj x y e f g = cc

module _ (c : Cipher) (s : Link) (i : IsInOrder c s) where
  -- The sockets and what is on the way may change.
  moved-IsInOrder :
      (o : Option WriteHalf) (n : ℕ) (script : Option (List ReadEvent))
      (partial in_flight tail : List ℕ)
      → IsStream o script partial in_flight tail i.ahead
      → IsInOrder c (record s {
        writer = record s.writer { socket = o; disconnected_bytes = n };
        reader = record s.reader { socket = script; partial = partial };
        in_flight = in_flight;
      })
  moved-IsInOrder o n script partial in_flight tail stream = record {
    seen = i.seen;
    buffered = i.buffered;
    ahead = i.ahead;
    pending = i.pending;
    tail = tail;
    log = i.log;
    counted = i.counted;
    local = i.local;
    chain = i.chain;
    order = i.order;
    small = i.small;
    stream = stream;
  }

  events-IsInOrder :
      (es fs : List ReadEvent) (rest : List ℕ)
      → s.reader.socket ≡ some es
      → s.in_flight ≡ incoming fs ++ rest
      → IsInOrder c (with_script s (es ++ fs) rest)
  events-IsInOrder es fs rest alive e =
      moved-IsInOrder s.writer.socket s.writer.disconnected_bytes (some (es ++ fs)) s.reader.partial
        rest i.tail
        (IsStream-events s.writer.socket s.reader.partial i.tail i.ahead es fs s.in_flight rest e (
          subst (λ o. IsStream s.writer.socket o s.reader.partial s.in_flight i.tail i.ahead) alive
            i.stream))

  cut-IsInOrder : IsInOrder c (cut_off s)
  unfolding cut_off
  cut-IsInOrder =
      moved-IsInOrder none s.writer.disconnected_bytes none s.reader.partial [] i.tail refl

  -- A catch-up is what the reader has not counted.
  catchup_lem :
      (catchup : List (List ℕ))
      → s.writer.socket ≡ none
      → recover s.writer (pos s.reader.sequence_number) ≡ ok catchup
      → catchup ≡ map serialize i.ahead
  catchup_lem catchup dead e = elim (dec_lt (last + length s.writer.backup) (length history)) [
    | yes h ↦ absurd (let f = (recover_lem s.writer log dead last).2 h in let g = e' in cc)
    | no h ↦
        ok_inj _ _ refl e' (
          (recover_lem s.writer log dead last).1
            (omega (arith, length-append (i.seen ++ i.buffered) i.ahead)) (omega arith))
        ∙ ap (map serialize) (drop-append (i.seen ++ i.buffered) i.ahead)
  ]
    where
      history : List Packet
      history = (i.seen ++ i.buffered) ++ i.ahead

      last : ℕ
      last = length (i.seen ++ i.buffered)

      log : IsBacked history s.writer
      log = subst (λ t. IsBacked t s.writer) (sym (append_assoc i.seen i.buffered i.ahead)) i.log

      e' : recover s.writer (pos last) ≡ ok catchup
      e' =
          ap (λ m. recover s.writer (pos m))
            (omega (arith, length-append i.seen i.buffered, i.counted))
          ∙ e

  reconnect-IsInOrder :
      (half : WriteHalf) (catchup : List (List ℕ))
      → s.writer.socket ≡ none
      → recover s.writer (pos s.reader.sequence_number) ≡ ok catchup
      → IsInOrder c (reconnected s half catchup)
  unfolding incoming
  reconnect-IsInOrder half catchup dead e =
      let missed = catchup_lem catchup dead e in
      record {
        seen = i.seen;
        buffered = i.buffered ++ i.ahead;
        ahead = [];
        pending = i.pending;
        tail = [];
        log =
            subst (λ t. IsBacked (i.seen ++ t) s.writer) (sym (append-nil (i.buffered ++ i.ahead)))
              i.log;
        counted = omega (
          arith,
          i.counted,
          ap length missed,
          length-map serialize i.ahead,
          length-append i.buffered i.ahead,
        );
        local = ap₂ (λ x y. x ++ y) i.local missed ∙ sym (map-append serialize i.buffered i.ahead);
        chain =
            subst (λ t. IsSealed c s.reader.crypto i.pending t s.writer.crypto)
              (sym (append-nil (i.buffered ++ i.ahead))) i.chain;
        order = i.order;
        small = tt;
        stream = (refl, tt, λ s alive. refl);
      }

step-IsInOrder :
    (c : Cipher) (aead : IsAead c) (s s' : Link) → IsInOrder c s → Step c s s' → IsInOrder c s'
unfolding incoming
step-IsInOrder c aead s s' i (write p st w' e m returns at) =
    subst (IsInOrder c) (sym at) (write-IsInOrder c s i p st w' e m returns)
step-IsInOrder c aead s s' i (arrives b bs rest es alive e at) = subst (IsInOrder c) (sym at) (
    events-IsInOrder c s i es (arrive b bs ∷ []) rest alive
      (e ∙ ap (λ t. b ∷ (t ++ rest)) (sym (append-nil bs))))
step-IsInOrder c aead s s' i (disturbed e es alive nothing at) = subst (IsInOrder c) (sym at) (
    events-IsInOrder c s i es (e ∷ []) s.in_flight alive (ap (λ t. t ++ s.in_flight) (sym nothing)))
step-IsInOrder c aead s s' i (read at) = subst (IsInOrder c) (sym at) (read-IsInOrder c aead s i).0
step-IsInOrder c aead s s' i (cut at) = subst (IsInOrder c) (sym at) (cut-IsInOrder c s i)
step-IsInOrder c aead s s' i (reconnect half catchup dead _ e at) =
    subst (IsInOrder c) (sym at) (reconnect-IsInOrder c s i half catchup dead e)

module _ (c : Cipher) (aead : IsAead c) (h : CryptoHandler) (half : WriteHalf) where
  pub Reach-IsInOrder : (s : Link) → Reach c (start h half) s → IsInOrder c s
  Reach-IsInOrder s here = start-IsInOrder c h half
  Reach-IsInOrder s (next {s = before} before_s step) =
      step-IsInOrder c aead before s (Reach-IsInOrder before before_s) step

  -- From a new writer and a new reader with the same handler, by any steps (calls of `write` and `read`, bytes
  -- that arrive split in any way, ends and errors of the sockets, losses of the connection with whatever is on
  -- the way, and reconnects whose `recover` succeeds): the packets that `read` has returned are the first of
  -- those that `write` has stored, in that order and once each; the next packet that `read` returns is the
  -- next of them; and no call of `read` fails on a packet.
  pub Reach-IsPrefix :
      (s : Link)
      → Reach c (start h half) s
      → (pending : List Packet) × (s.wrote ≡ s.got ++ pending)
        × IsNext (Reader.read c s.reader).0 pending
  Reach-IsPrefix s reach =
      let i = Reach-IsInOrder s reach in (i.pending, i.order, (read-IsInOrder c aead s i).1)

  -- In every such state in which the writer has lost its socket and `recover` succeeds, the revived
  -- reader reads all that is missing: `read` returns one after the other the packets that `write` stored
  -- and `read` has not returned.
  pub Reach-recovers :
      (s : Link) (es : List ReadEvent) (catchup : List (List ℕ))
      → Reach c (start h half) s
      → s.writer.socket ≡ none
      → recover s.writer (pos s.reader.sequence_number) ≡ ok catchup
      → (pending : List Packet) × (s.wrote ≡ s.got ++ pending)
        × ((collect 1 (length pending) c (Reader.revive s.reader es catchup)).0 ≡ ok pending)
  Reach-recovers s es catchup reach dead e =
      let i = Reach-IsInOrder s reach in
      (
        i.pending,
        i.order,
        ap (λ x. x.0)
            (collect-buffered c aead 0 (Reader.revive s.reader es catchup) i.pending
              (i.buffered ++ i.ahead) s.writer.crypto
              (ap₂ (λ x y. x ++ y) i.local (catchup_lem c s i catchup dead e)
                ∙ sym (map-append serialize i.buffered i.ahead))
              i.chain),
      )
