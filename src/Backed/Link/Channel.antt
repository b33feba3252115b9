-- ===== src/Backed/Link/Channel.antt =====
-- What a link promises: a channel that loses nothing, doubles nothing and keeps the order. The bytes, the
-- encryption, the sequence numbers, the connections and their losses are not to be seen in it.
use eternal_terminal_client.Base.{
  ◌≡◌, refl, sym, subst, ap, ◌∙◌, Option, none, some, List, [], ◌∷◌, ◌++◌, append-nil, append_assoc,
  drop, Outcome, ok, err, panic, stuck, map,
}
use eternal_terminal_client.Crypto.{CryptoHandler}
use eternal_terminal_client.Crypto.Secretbox.{Cipher, IsAead}
use eternal_terminal_client.Packet.{Packet}
use eternal_terminal_client.Backed.Socket.{WriteHalf}
use eternal_terminal_client.Backed.Writer.{
  WriteState, success, buffered_only, wrote_with_failure, skipped,
}
use eternal_terminal_client.Backed.Reader
use eternal_terminal_client.Backed.Reader.{ReadError}
use eternal_terminal_client.Backed.Link
use eternal_terminal_client.Backed.Link.{
  Link, start, accepted, delivered, Step, read_step, cut_off, Reach, here, next,
}
use eternal_terminal_client.Backed.Link.InOrder.{IsInOrder}
use eternal_terminal_client.Backed.Link.InOrder.Reads.{IsNext, read-IsInOrder}
use eternal_terminal_client.Backed.Link.InOrder.Steps.{Reach-IsInOrder}

-- A call that is seen from outside: a packet is stored by `write`, or returned by `read`.
pub data Event : Type 0 where
  sent received : Packet → Event

-- A first-in-first-out queue, from what it holds before the events to what it holds behind them.
pub Plays : List Packet → List Event → List Packet → Type 0
Plays q [] q' = q ≡ q'
Plays q (sent p ∷ es) q' = Plays (q ++ p ∷ []) es q'
Plays q (received p ∷ es) q' = (rest : List Packet) × (q ≡ p ∷ rest) × Plays rest es q'

-- The events of a step and of a run, by what the code returns.
abbrev pub sent_by : WriteState → Packet → List Event
sent_by success p = sent p ∷ []
sent_by buffered_only p = sent p ∷ []
sent_by wrote_with_failure p = sent p ∷ []
sent_by skipped p = []

abbrev pub step_events : (c : Cipher) (s : Link) {s' : Link} → Step c s s' → List Event
step_events c s (Link.write p st w' e m returns at) = sent_by st p
step_events c s (Link.arrives b bs rest es alive e at) = []
step_events c s (Link.disturbed e es alive nothing at) = []
step_events c s (Link.read at) = map received (delivered (Reader.read c s.reader).0)
step_events c s (Link.cut at) = []
step_events c s (Link.reconnect half catchup dead lost e at) = []

abbrev pub events : (c : Cipher) (start : Link) {s : Link} → Reach c start s → List Event
events c start here = []
events c start (next {s = before} r step) = events c start r ++ step_events c before step

Plays-append :
    (es fs : List Event) (q q' q'' : List Packet)
    → Plays q es q'
    → Plays q' fs q''
    → Plays q (es ++ fs) q''
unfolding Plays
Plays-append [] fs q q' q'' a b = subst (λ t. Plays t fs q'') (sym a) b
Plays-append (sent p ∷ es) fs q q' q'' a b = Plays-append es fs (q ++ p ∷ []) q' q'' a b
Plays-append (received p ∷ es) fs q q' q'' (rest, e, a) b =
    (rest, e, Plays-append es fs rest q' q'' a b)

same_tail : (xs ys zs : List Packet) → xs ++ ys ≡ xs ++ zs → ys ≡ zs
same_tail [] ys zs e = e
same_tail (x ∷ xs) ys zs e = same_tail xs ys zs (ap (drop 1) e)

-- A queue that holds what is stored and not yet returned.
abbrev Holds : Link → List Packet → Type 0
Holds s q = s.wrote ≡ s.got ++ q

sent-Plays :
    (st : WriteState) (wrote got q : List Packet) (p : Packet)
    → wrote ≡ got ++ q
    → (q' : List Packet) × Plays q (sent_by st p) q' × (accepted st wrote p ≡ got ++ q')
unfolding Plays
sent-Plays success wrote got q p e =
    (q ++ p ∷ [], refl, ap (λ t. t ++ p ∷ []) e ∙ append_assoc got q (p ∷ []))
sent-Plays buffered_only wrote got q p e =
    (q ++ p ∷ [], refl, ap (λ t. t ++ p ∷ []) e ∙ append_assoc got q (p ∷ []))
sent-Plays wrote_with_failure wrote got q p e =
    (q ++ p ∷ [], refl, ap (λ t. t ++ p ∷ []) e ∙ append_assoc got q (p ∷ []))
sent-Plays skipped wrote got q p e = (q, refl, e)

received-Plays :
    (o : Outcome ReadError (Option Packet)) (wrote got q : List Packet)
    → wrote ≡ got ++ q
    → IsNext o q
    → (q' : List Packet) × Plays q (map received (delivered o)) q'
      × (wrote ≡ (got ++ delivered o) ++ q')
unfolding Plays
received-Plays (ok (some p)) wrote got q e (rest, at) =
    (rest, (rest, at, refl), e ∙ ap (λ t. got ++ t) at ∙ sym (append_assoc got (p ∷ []) rest))
received-Plays (ok none) wrote got q e n = (q, refl, e ∙ ap (λ t. t ++ q) (sym (append-nil got)))
received-Plays (err x) wrote got q e n = (q, refl, e ∙ ap (λ t. t ++ q) (sym (append-nil got)))
received-Plays panic wrote got q e n = absurd n
received-Plays stuck wrote got q e n = absurd n

module _ (c : Cipher) (aead : IsAead c) where
  step-Plays :
      (s s' : Link) (q : List Packet)
      → IsInOrder c s
      → (step : Step c s s') → Holds s q
      → (q' : List Packet) × Plays q (step_events c s step) q' × Holds s' q'
  unfolding read_step cut_off Plays
  step-Plays s s' q i (Link.write p st w' e m returns at) h =
      let (q', plays, holds) = sent-Plays st s.wrote s.got q p h in
      (q', plays, subst (λ x. Holds x q') (sym at) holds)
  step-Plays s s' q i (Link.arrives b bs rest es alive e at) h =
      (q, refl, subst (λ x. Holds x q) (sym at) h)
  step-Plays s s' q i (Link.disturbed e es alive nothing at) h =
      (q, refl, subst (λ x. Holds x q) (sym at) h)
  step-Plays s s' q i (Link.read at) h =
      let o = (Reader.read c s.reader).0 in
      let same : i.pending ≡ q = same_tail s.got i.pending q (sym i.order ∙ h) in
      let (q', plays, holds) =
        received-Plays o s.wrote s.got q h (subst (IsNext o) same (read-IsInOrder c aead s i).1) in
      (q', plays, subst (λ x. Holds x q') (sym at) holds)
  step-Plays s s' q i (Link.cut at) h = (q, refl, subst (λ x. Holds x q) (sym at) h)
  step-Plays s s' q i (Link.reconnect half catchup dead lost e at) h =
      (q, refl, subst (λ x. Holds x q) (sym at) h)

  -- Every run of a link, from a new writer and a new reader with the same handler, is a run of a
  -- first-in-first-out queue that starts empty. The events of the run, in the order of its steps, are the packets
  -- that calls of `write` stored and the packets that calls of `read` returned (bytes that arrive,
  -- errors and losses of the connection, and reconnects whose `recover` succeeds are none); each packet that
  -- `read` returns is the one at the head of the queue at that moment; and the queue holds at the end
  -- what is stored and not yet returned.
  pub Reach-Plays :
      (h : CryptoHandler) (half : WriteHalf) (s : Link) (r : Reach c (start h half) s)
      → (q : List Packet) × Plays [] (events c (start h half) r) q × (s.wrote ≡ s.got ++ q)
  unfolding start Plays
  Reach-Plays h half s here = ([], refl, refl)
  Reach-Plays h half s (next {s = before} r step) =
      let (q, plays, holds) = Reach-Plays h half before r in
      let (q', more, holds') =
        step-Plays before s q (Reach-IsInOrder c aead h half before r) step holds in
      (
        q',
        Plays-append (events c (start h half) r) (step_events c before step) [] q q' plays more,
        holds',
      )
