-- ===== src/Backed/Link/Bytes.antt =====
-- The bytes on the way from a writer to a reader, against the frames of the packets that the reader misses.
use eternal_terminal_client.Base.{
  ℕ, ◌+◌, ◌<◌, ◌≡◌, refl, sym, ap, ◌∙◌, Option, none, some, List, [], ◌∷◌, ◌++◌, append_assoc,
  append-nil, arith, length,
}
use eternal_terminal_client.Packet.{Packet, serialize}
use eternal_terminal_client.Backed.Socket.{WriteHalf}
use eternal_terminal_client.Backed.Writer.{frame}
use eternal_terminal_client.Backed.Writer.Sent.{newly_sent, Sending, dead, whole, part}
use eternal_terminal_client.Backed.Reader.{
  ReadEvent, arrive, closed, transient, interrupted, failed,
}
use eternal_terminal_client.Backed.Reader.Arrival.{incoming}
use eternal_terminal_client.Backed.Reader.Stream.{no_bytes}
use eternal_terminal_client.Backed.Session.{wire}

-- What was read of the first frame is less than it.
abbrev pub IsPart : List Packet → List ℕ → Type 0
IsPart [] partial = Unit
IsPart (q ∷ qs) partial = length partial < 4 + length (serialize q)

pub IsPart-nothing : (qs : List Packet) → IsPart qs []
IsPart-nothing [] = tt
IsPart-nothing (q ∷ qs) = omega arith

-- The bytes that were read, came, are in flight, and were lost with the writer's socket (`tail`) are the frames
-- of the packets ahead. A reader without a socket is at a connection that both ends have lost.
abbrev pub IsStream :
    Option WriteHalf
    → Option (List ReadEvent)
    → (partial in_flight tail : List ℕ) → List Packet
    → Type 0
IsStream writer none partial in_flight tail ahead = writer ≡ none
IsStream writer (some es) partial in_flight tail ahead =
    ((partial ++ incoming es) ++ (in_flight ++ tail) ≡ wire ahead)
    × IsPart ahead partial
    × ((s : WriteHalf) → writer ≡ some s → tail ≡ [])

wire-append : (ps qs : List Packet) → wire (ps ++ qs) ≡ wire ps ++ wire qs
wire-append [] qs = refl
wire-append (p ∷ ps) qs =
    ap (λ t. frame p ++ t) (wire-append ps qs) ∙ sym (append_assoc (frame p) (wire ps) (wire qs))

incoming-append : (es fs : List ReadEvent) → incoming (es ++ fs) ≡ incoming es ++ incoming fs
unfolding incoming
incoming-append [] fs = refl
incoming-append (arrive b bs ∷ es) fs =
    ap (λ t. b ∷ (bs ++ t)) (incoming-append es fs)
    ∙ ap (λ t. b ∷ t) (sym (append_assoc bs (incoming es) (incoming fs)))
incoming-append (closed ∷ es) fs = incoming-append es fs
incoming-append (transient ∷ es) fs = incoming-append es fs
incoming-append (interrupted ∷ es) fs = incoming-append es fs
incoming-append (failed ∷ es) fs = incoming-append es fs

IsPart-append :
    (ahead : List Packet) (q : Packet) (partial more : List ℕ)
    → partial ++ more ≡ wire ahead
    → IsPart ahead partial
    → IsPart (ahead ++ q ∷ []) partial
IsPart-append [] q partial more e h = omega (arith, ap length (no_bytes partial more e).0)
IsPart-append (p ∷ ahead) q partial more e h = h

-- More bytes behind those of a stream.
longer :
    (ahead : List Packet) (q : Packet) (had in_flight tail new tail' : List ℕ)
    → had ++ (in_flight ++ tail) ≡ wire ahead
    → (in_flight ++ new) ++ tail' ≡ (in_flight ++ tail) ++ frame q
    → had ++ ((in_flight ++ new) ++ tail') ≡ wire (ahead ++ q ∷ [])
longer ahead q had in_flight tail new tail' e h =
    ap (λ t. had ++ t) h
    ∙ sym (append_assoc had (in_flight ++ tail) (frame q))
    ∙ ap (λ t. t ++ frame q) e
    ∙ ap (λ t. wire ahead ++ t) (sym (append-nil (frame q)))
    ∙ sym (wire-append ahead (q ∷ []))

module _ (q : Packet) (partial in_flight tail : List ℕ) (ahead : List Packet) where
  -- A call of `write` that stores the packet `q`.
  pub IsStream-write :
      (writer writer' : Option WriteHalf) (reader : Option (List ReadEvent))
      → Sending (frame q) writer writer'
      → IsStream writer reader partial in_flight tail ahead
      → (tail' : List ℕ) × IsStream writer' reader partial
          (in_flight ++ newly_sent writer (frame q))
          tail'
          (ahead ++ q ∷ [])
  IsStream-write writer writer' none (dead d d') s = ([], d')
  IsStream-write writer writer' none (whole h alive new) s = absurd (cc)
  IsStream-write writer writer' none (part h back alive d' new) s = absurd (cc)
  IsStream-write writer writer' (some es) (dead d d') (e, k, t) = (
    tail ++ frame q,
    (
      longer ahead q (partial ++ incoming es) in_flight tail _ (tail ++ frame q) e (
          ap (λ o. (in_flight ++ newly_sent o (frame q)) ++ (tail ++ frame q)) d
          ∙ ap (λ t. t ++ (tail ++ frame q)) (append-nil in_flight)
          ∙ sym (append_assoc in_flight tail (frame q))),
      IsPart-append ahead q partial (incoming es ++ (in_flight ++ tail))
          (sym (append_assoc partial (incoming es) (in_flight ++ tail)) ∙ e) k,
      λ s alive. absurd (cc),
    ),
  )
  IsStream-write writer writer' (some es) (whole h alive new) (e, k, t) = (
    [],
    (
      longer ahead q (partial ++ incoming es) in_flight tail _ [] e (
          append-nil (in_flight ++ newly_sent writer (frame q))
          ∙ ap (λ t. in_flight ++ t) new
          ∙ ap (λ t. t ++ frame q)
              (sym (append-nil in_flight) ∙ ap (λ t. in_flight ++ t) (sym (t h alive)))),
      IsPart-append ahead q partial (incoming es ++ (in_flight ++ tail))
          (sym (append_assoc partial (incoming es) (in_flight ++ tail)) ∙ e) k,
      λ s alive. refl,
    ),
  )
  IsStream-write writer writer' (some es) (part h back alive d' new) (e, k, t) = (
    back,
    (
      longer ahead q (partial ++ incoming es) in_flight tail _ back e (
          append_assoc in_flight (newly_sent writer (frame q)) back
          ∙ ap (λ t. in_flight ++ t) new
          ∙ ap (λ t. t ++ frame q)
              (sym (append-nil in_flight) ∙ ap (λ t. in_flight ++ t) (sym (t h alive)))),
      IsPart-append ahead q partial (incoming es ++ (in_flight ++ tail))
          (sym (append_assoc partial (incoming es) (in_flight ++ tail)) ∙ e) k,
      λ s alive. absurd (cc),
    ),
  )

module _ (writer : Option WriteHalf) (partial tail : List ℕ) (ahead : List Packet) where
  -- Events at the end of the reader's script.
  pub IsStream-events :
      (es fs : List ReadEvent) (in_flight rest : List ℕ)
      → in_flight ≡ incoming fs ++ rest
      → IsStream writer (some es) partial in_flight tail ahead
      → IsStream writer (some (es ++ fs)) partial rest tail ahead
  IsStream-events es fs in_flight rest cut (e, k, t) = (
    ap (λ x. (partial ++ x) ++ (rest ++ tail)) (incoming-append es fs)
        ∙ ap (λ x. x ++ (rest ++ tail)) (sym (append_assoc partial (incoming es) (incoming fs)))
        ∙ append_assoc (partial ++ incoming es) (incoming fs) (rest ++ tail)
        ∙ ap (λ x. (partial ++ incoming es) ++ x)
            (sym (append_assoc (incoming fs) rest tail) ∙ ap (λ x. x ++ tail) (sym cut))
        ∙ e,
    k,
    t,
  )
