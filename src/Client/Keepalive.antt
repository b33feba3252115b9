-- ===== src/Client/Keepalive.antt =====
-- The keepalive of the loop while nothing arrives and nothing is typed.
use eternal_terminal_client.Base.{
  ℕ, ◌+◌, ◌≤◌, ◌<◌, ◌≡◌, refl, ap, ap₂, ◌∙◌, Bool, true, false, List, [], ◌∷◌, ◌++◌, leb,
  if◌then◌else◌, Outcome, ok, err, panic, stuck, ◌>>=◌, arith,
}
use eternal_terminal_client.Packet
use eternal_terminal_client.Proto.Messages.{keep_alive}
use eternal_terminal_client.Client.{
  SessionError, Loop, Effect, write, close, shown, drain, keepalive, network,
}

module _ (console : Bool) (duration : ℕ) where
  -- Rounds with a socket in which no packet arrives; each has the two times that its keepalive reads.
  pub quiet : List (ℕ × ℕ) → Loop → Outcome SessionError (Loop × List Effect)
  quiet [] l = ok (l, [])
  quiet ((now, later) ∷ ts) l = do
    (l', es) ← network console duration true true [] now later l
    (l'', es') ← quiet ts l'
    ok (l'', es ++ es')

  abbrev pub Before : ℕ → List (ℕ × ℕ) → Type 0
  Before deadline [] = Unit
  Before deadline ((now, later) ∷ ts) = (now < deadline) × Before deadline ts

  abbrev due : Bool → (later : ℕ) → Loop → Loop × List Effect
  due false later l = (
    record l { keepalive_deadline = later + duration; waiting_on_keepalive = true },
    write (Packet.new keep_alive []) ∷ [],
  )
  due true later l =
      (record l { keepalive_deadline = later + duration; waiting_on_keepalive = false }, close ∷ [])

  abbrev acts : Bool → Bool → (later : ℕ) → Loop → Loop × List Effect
  acts t waiting later l =
      if t
      then if waiting
        then (
          record l { keepalive_deadline = later + duration; waiting_on_keepalive = false },
          close ∷ [],
        )
        else (
          record l { keepalive_deadline = later + duration; waiting_on_keepalive = true },
          write (Packet.new keep_alive []) ∷ [],
        )
      else (l, [])

  acted :
      (now later : ℕ) (l : Loop) (t waiting : Bool)
      → leb l.keepalive_deadline now ≡ t
      → l.waiting_on_keepalive ≡ waiting
      → keepalive console duration now later l ≡ acts t waiting later l
  unfolding keepalive
  acted now later l t waiting e w = ap₂ (λ t waiting. acts t waiting later l) e w

  keepalive_early :
      (now later : ℕ) (l : Loop)
      → now < l.keepalive_deadline
      → keepalive console duration now later l ≡ (l, [])
  keepalive_early now later l h = acted now later l false l.waiting_on_keepalive (ground arith) refl

  keepalive-due :
      (now later : ℕ) (l : Loop) (waiting : Bool)
      → l.keepalive_deadline ≤ now
      → l.waiting_on_keepalive ≡ waiting
      → keepalive console duration now later l ≡ due waiting later l
  keepalive-due now later l true h w = acted now later l true true (ground arith) w
  keepalive-due now later l false h w = acted now later l true false (ground arith) w

  -- A round, by what its keepalive does.
  round :
      (now later : ℕ) (l : Loop) (k : Loop × List Effect)
      → keepalive console duration now later l ≡ k
      → network console duration true true [] now later l ≡ ok k
  unfolding network drain shown
  round now later l k e = ap ok e

  quiet-append :
      (ts us : List (ℕ × ℕ)) (l : Loop)
      → Before l.keepalive_deadline ts
      → quiet (ts ++ us) l ≡ quiet us l
  unfolding quiet
  quiet-append [] us l h = refl
  quiet-append ((now, later) ∷ ts) us l h =
      ap (λ r. do (l', es) ← r; (l'', es') ← quiet (ts ++ us) l'; ok (l'', es ++ es'))
        (round now later l (l, []) (keepalive_early now later l h.0))
      ∙ unchanged (quiet (ts ++ us) l)
      ∙ quiet-append ts us l h.1
    where
      unchanged :
          (r : Outcome SessionError (Loop × List Effect)) → (do (l'', es') ← r; ok (l'', es')) ≡ r
      unchanged (ok x) = refl
      unchanged (err e) = refl
      unchanged panic = refl
      unchanged stuck = refl

  -- A connection on which nothing arrives is closed: from a round that does not wait for an answer, in
  -- rounds with a socket, no packet and nothing typed, the first round at or behind the deadline sends
  -- one keepalive, the first round a whole duration behind that closes the connection, and no other
  -- round does anything, however many there are.
  pub quiet_closes :
      (ts us : List (ℕ × ℕ)) (l : Loop) (now₁ later₁ now₂ later₂ : ℕ)
      → l.waiting_on_keepalive ≡ false
      → Before l.keepalive_deadline ts
      → l.keepalive_deadline ≤ now₁
      → Before (later₁ + duration) us
      → later₁ + duration ≤ now₂
      → quiet (ts ++ (now₁, later₁) ∷ (us ++ (now₂, later₂) ∷ [])) l
        ≡ ok (
          record l { keepalive_deadline = later₂ + duration; waiting_on_keepalive = false },
          write (Packet.new keep_alive []) ∷ close ∷ [],
        )
  unfolding quiet
  quiet_closes ts us l now₁ later₁ now₂ later₂ w h₁ d₁ h₂ d₂ =
      quiet-append ts _ l h₁
      ∙ ap
          (λ r. do
            (l', es) ← r
            (l'', es') ← quiet (us ++ (now₂, later₂) ∷ []) l'
            ok (l'', es ++ es'))
          (round now₁ later₁ l (due false later₁ l) (keepalive-due now₁ later₁ l false d₁ w))
      ∙ ap (λ r. do (l'', es') ← r; ok (l'', write (Packet.new keep_alive []) ∷ es'))
          (quiet-append us ((now₂, later₂) ∷ []) (due false later₁ l).0 h₂
            ∙ ap (λ r. do (l', es) ← r; (l'', es') ← quiet [] l'; ok (l'', es ++ es'))
                (round now₂ later₂ (due false later₁ l).0 (due true later₂ (due false later₁ l).0)
                  (keepalive-due now₂ later₂ (due false later₁ l).0 true d₂ refl)))
