-- ===== src/Backed/Reader/Arrival.antt =====
-- The loops of `BackedReader::read`: no byte that arrives is lost, doubled or put out of order.
use eternal_terminal_client.Base.{
  ℕ, zero, suc, ◌+◌, ◌-◌, ◌≤◌, ◌<◌, ◌≡◌, ◌⊎◌, inl, inr, refl, sym, ap, ◌∙◌, Bool-cases, List, [],
  ◌∷◌, ◌++◌, append_assoc, arith, ltb, length, length-append, length-take_of_le, take, drop,
  take-append-drop,
}
use eternal_terminal_client.Backed.Reader.{
  ReadEvent, arrive, closed, transient, interrupted, failed, Fill, filled, not_yet, end_of_stream,
  io_error, put_back, fill,
}

-- The bytes that a script brings.
unfoldable pub incoming : List ReadEvent → List ℕ
incoming [] = []
incoming (arrive b bs ∷ es) = b ∷ (bs ++ incoming es)
incoming (closed ∷ es) = incoming es
incoming (transient ∷ es) = incoming es
incoming (interrupted ∷ es) = incoming es
incoming (failed ∷ es) = incoming es

-- A socket that neither ends nor fails.
unfoldable pub IsSteady : List ReadEvent → Type 0
IsSteady [] = Unit
IsSteady (arrive b bs ∷ es) = IsSteady es
IsSteady (closed ∷ es) = ⊥
IsSteady (transient ∷ es) = IsSteady es
IsSteady (interrupted ∷ es) = IsSteady es
IsSteady (failed ∷ es) = ⊥

-- How long the bytes read are, for each way that the loop can end on a steady socket.
abbrev pub IsFill : List ReadEvent → ℕ → List ℕ → Fill × List ℕ × List ReadEvent → Type 0
IsFill es need partial (filled, got, rest) =
    (length got ≡ length partial + need) × (length rest ≤ length es)
IsFill es need partial (not_yet, got, rest) =
    (length got < length partial + need) × ((length rest < length es) ⊎ (incoming rest ≡ []))
IsFill es need partial (end_of_stream, got, rest) = ⊥
IsFill es need partial (io_error, got, rest) = ⊥

put_back-incoming :
    (bs : List ℕ) (es : List ReadEvent) → incoming (put_back bs es) ≡ bs ++ incoming es
unfolding incoming
put_back-incoming [] es = refl
put_back-incoming (b ∷ bs) es = refl

put_back-IsSteady : (bs : List ℕ) (es : List ReadEvent) → IsSteady es → IsSteady (put_back bs es)
unfolding IsSteady
put_back-IsSteady [] es h = h
put_back-IsSteady (b ∷ bs) es h = h

length-put_back : (bs : List ℕ) (es : List ReadEvent) → length (put_back bs es) ≤ suc (length es)
length-put_back [] es = omega arith
length-put_back (b ∷ bs) es = omega arith

took_some :
    (partial : List ℕ) (b need : ℕ) (bs : List ℕ) (es : List ReadEvent)
    → (partial ++ b ∷ take need bs) ++ incoming (put_back (drop need bs) es)
      ≡ partial ++ b ∷ (bs ++ incoming es)
took_some partial b need bs es =
    append_assoc partial (b ∷ take need bs) (incoming (put_back (drop need bs) es))
    ∙ ap (λ t. partial ++ b ∷ t)
        (ap (λ t. take need bs ++ t) (put_back-incoming (drop need bs) es)
          ∙ sym (append_assoc (take need bs) (drop need bs) (incoming es))
          ∙ ap (λ t. t ++ incoming es) (take-append-drop need bs))

-- Nothing is lost: on every socket, what was read and what is still to come are what they were.
pub fill_conserves :
    (es : List ReadEvent) (need : ℕ) (partial : List ℕ)
    → let (_, got, rest) = fill es need partial in got ++ incoming rest ≡ partial ++ incoming es
unfolding fill incoming
fill_conserves es zero partial = refl
fill_conserves [] (suc need) partial = refl
fill_conserves (arrive b bs ∷ es) (suc need) partial = elim (Bool-cases (ltb need (length bs))) [
  | inl e ↦ rw e (took_some partial b need bs es)
  | inr e ↦ rw e (
      fill_conserves es (need - length bs) (partial ++ b ∷ bs)
      ∙ append_assoc partial (b ∷ bs) (incoming es))
]
fill_conserves (closed ∷ es) (suc need) partial = refl
fill_conserves (transient ∷ es) (suc need) partial = refl
fill_conserves (interrupted ∷ es) (suc need) partial = fill_conserves es (suc need) partial
fill_conserves (failed ∷ es) (suc need) partial = refl

module _ (b : ℕ) (bs : List ℕ) (es : List ReadEvent) (need : ℕ) (partial : List ℕ) where
  some-IsFill :
      need < length bs
      → IsFill
          (arrive b bs ∷ es)
          (suc need)
          partial
          (filled, partial ++ b ∷ take need bs, put_back (drop need bs) es)
  some-IsFill h = (
    omega
        (arith, length-append partial (b ∷ take need bs), length-take_of_le need bs (omega arith)),
    omega (arith, length-put_back (drop need bs) es),
  )

  whole-IsFill :
      length bs ≤ need
      → (r : Fill × List ℕ × List ReadEvent) → IsFill es (need - length bs) (partial ++ b ∷ bs) r
      → IsFill (arrive b bs ∷ es) (suc need) partial r
  whole-IsFill h (filled, got, rest) (e, l) =
      (omega (arith, length-append partial (b ∷ bs)), omega arith)
  whole-IsFill h (not_yet, got, rest) (e, inl l) =
      (omega (arith, length-append partial (b ∷ bs)), inl (omega arith))
  whole-IsFill h (not_yet, got, rest) (e, inr l) =
      (omega (arith, length-append partial (b ∷ bs)), inr l)
  whole-IsFill h (end_of_stream, got, rest) f = absurd f
  whole-IsFill h (io_error, got, rest) f = absurd f

weaker-IsFill :
    (e : ReadEvent) (es : List ReadEvent) (need : ℕ) (partial : List ℕ)
    (r : Fill × List ℕ × List ReadEvent)
    → IsFill es need partial r
    → IsFill (e ∷ es) need partial r
weaker-IsFill x es need partial (filled, got, rest) (e, l) = (e, omega arith)
weaker-IsFill x es need partial (not_yet, got, rest) (e, inl l) = (e, inl (omega arith))
weaker-IsFill x es need partial (not_yet, got, rest) (e, inr l) = (e, inr l)
weaker-IsFill x es need partial (end_of_stream, got, rest) h = absurd h
weaker-IsFill x es need partial (io_error, got, rest) h = absurd h

pub fill-IsFill :
    (es : List ReadEvent) (need : ℕ) (partial : List ℕ)
    → IsSteady es
    → IsFill es need partial (fill es need partial) × IsSteady (fill es need partial).2
unfolding fill IsSteady incoming
fill-IsFill es zero partial s = ((omega arith, omega arith), s)
fill-IsFill [] (suc need) partial s = ((omega arith, inr refl), tt)
fill-IsFill (arrive b bs ∷ es) (suc need) partial s = elim (Bool-cases (ltb need (length bs))) [
  | inl e ↦
      rw e (some-IsFill b bs es need partial (ground arith), put_back-IsSteady (drop need bs) es s)
  | inr e ↦
      let (f, s') = fill-IsFill es (need - length bs) (partial ++ b ∷ bs) s in
      rw e (whole-IsFill b bs es need partial (ground arith) _ f, s')
]
fill-IsFill (closed ∷ es) (suc need) partial s = absurd s
fill-IsFill (failed ∷ es) (suc need) partial s = absurd s
fill-IsFill (transient ∷ es) (suc need) partial s = ((omega arith, inl (omega arith)), s)
fill-IsFill (interrupted ∷ es) (suc need) partial s =
    let (f, s') = fill-IsFill es (suc need) partial s in
    (weaker-IsFill interrupted es (suc need) partial _ f, s')
