-- ===== src/Backed/Socket/Progress.antt =====
-- What `write_all_retry` sends, and when it returns.
use eternal_terminal_client.Base.{
  ℕ, zero, suc, ◌+◌, ◌≤◌, ◌≡◌, ◌≢◌, refl, sym, ap, subst, ◌∙◌, List, [], ◌∷◌, ◌++◌, append-nil,
  append_assoc, arith, length, take, drop, take-append-drop, length-drop,
}
use eternal_terminal_client.Backed.Socket.{
  WriteEvent, took, transient, interrupted, failed, WriteHalf, Retry, all_sent, io_error, waiting,
  write_loop, write_all_retry,
}

-- A proper part of `bytes` from its start was sent.
abbrev pub SendsPart : List ℕ → List ℕ → List ℕ → Type 0
SendsPart before bytes after =
    (front : List ℕ) × (back : List ℕ) × (bytes ≡ front ++ back)
    × (back ≢ [])
    × (after ≡ before ++ front)

-- What is sent is a part of the data from its start; all of it where the loop says so.
abbrev pub Sends : List ℕ → List ℕ → Retry → List ℕ → Type 0
Sends before bytes all_sent after = after ≡ before ++ bytes
Sends before bytes io_error after = SendsPart before bytes after
Sends before bytes waiting after = SendsPart before bytes after

SendsPart-more :
    (before b front after : List ℕ)
    → SendsPart (before ++ front) b after
    → SendsPart before (front ++ b) after
SendsPart-more before b front after (f, k, e, n, h) = (
  front ++ f,
  k,
  ap (λ t. front ++ t) e ∙ sym (append_assoc front f k),
  n,
  h ∙ append_assoc before front f,
)

Sends-more :
    (before b front : List ℕ) (r : Retry) (after : List ℕ)
    → Sends (before ++ front) b r after
    → Sends before (front ++ b) r after
Sends-more before b front all_sent after h = h ∙ append_assoc before front b
Sends-more before b front io_error after h = SendsPart-more before b front after h
Sends-more before b front waiting after h = SendsPart-more before b front after h

nothing_sent : (before : List ℕ) (b : ℕ) (bs : List ℕ) → SendsPart before (b ∷ bs) before
nothing_sent before b bs = ([], b ∷ bs, refl, λ e. cc, sym (append-nil before))

write_loop-Sends :
    (ws : List WriteEvent) (bytes sent : List ℕ)
    → let (r, s) = write_loop ws bytes sent in Sends sent bytes r s.sent
unfolding write_loop
write_loop-Sends ws [] sent = sym (append-nil sent)
write_loop-Sends [] (b ∷ bs) sent = nothing_sent sent b bs
write_loop-Sends (took zero ∷ ws) (b ∷ bs) sent = nothing_sent sent b bs
write_loop-Sends (took (suc n) ∷ ws) (b ∷ bs) sent =
    subst
      (λ t.
        let (r, s) = write_loop ws (drop n bs) (sent ++ b ∷ take n bs) in
        Sends sent (b ∷ t) r s.sent)
      (take-append-drop n bs)
      (Sends-more sent (drop n bs) (b ∷ take n bs) _ _
        (write_loop-Sends ws (drop n bs) (sent ++ b ∷ take n bs)))
write_loop-Sends (transient ∷ ws) (b ∷ bs) sent = write_loop-Sends ws (b ∷ bs) sent
write_loop-Sends (interrupted ∷ ws) (b ∷ bs) sent = write_loop-Sends ws (b ∷ bs) sent
write_loop-Sends (failed ∷ ws) (b ∷ bs) sent = nothing_sent sent b bs

-- `write_all_retry` sends the data in order from its start: all of it when it returns `Ok`, and a
-- proper part of it when it returns an error or still waits.
pub write_all_retry-Sends :
    (s : WriteHalf) (bytes : List ℕ)
    → let (r, s') = write_all_retry s bytes in Sends s.sent bytes r s'.sent
unfolding write_all_retry
write_all_retry-Sends s bytes = write_loop-Sends s.writes bytes s.sent

-- How many bytes the calls of a script take at most.
unfoldable pub capacity : List WriteEvent → ℕ
capacity [] = 0
capacity (took n ∷ ws) = n + capacity ws
capacity (transient ∷ ws) = capacity ws
capacity (interrupted ∷ ws) = capacity ws
capacity (failed ∷ ws) = capacity ws

write_loop_ends :
    (ws : List WriteEvent) (bytes sent : List ℕ)
    → length bytes ≤ capacity ws
    → (write_loop ws bytes sent).0 ≢ waiting
unfolding write_loop capacity
write_loop_ends ws [] sent h = λ e. cc
write_loop_ends [] (b ∷ bs) sent h = absurd (omega arith)
write_loop_ends (took zero ∷ ws) (b ∷ bs) sent h = λ e. cc
write_loop_ends (took (suc n) ∷ ws) (b ∷ bs) sent h =
    write_loop_ends ws (drop n bs) _ (omega (arith, length-drop n bs))
write_loop_ends (transient ∷ ws) (b ∷ bs) sent h = write_loop_ends ws (b ∷ bs) sent h
write_loop_ends (interrupted ∷ ws) (b ∷ bs) sent h = write_loop_ends ws (b ∷ bs) sent h
write_loop_ends (failed ∷ ws) (b ∷ bs) sent h = λ e. cc

-- `write_all_retry` returns once the calls of `write` can take as many bytes as there are, however
-- they split them and however many transient errors and interruptions come between.
pub write_all_retry_returns :
    (s : WriteHalf) (bytes : List ℕ)
    → length bytes ≤ capacity s.writes
    → (write_all_retry s bytes).0 ≢ waiting
unfolding write_all_retry
write_all_retry_returns s bytes h = write_loop_ends s.writes bytes s.sent h
