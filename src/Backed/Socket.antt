-- ===== src/Backed/Socket.antt =====
-- The two halves of a non-blocking `TcpStream`, with the results of its next calls as a script, and
-- `write_all_retry` of src/backed.rs.
pub mod Progress
use eternal_terminal_client.Base.{ℕ, zero, suc, List, [], ◌∷◌, ◌++◌, take, drop}

-- What one call of `write` returns: `Ok(n)` for at most the bytes that it is given, or an error.
-- `took 0` is `Ok(0)`.
pub data WriteEvent : Type 0 where
  took : ℕ → WriteEvent
  transient interrupted failed : WriteEvent

-- The bytes that the peer's side has taken, and what the next calls of `write` return.
pub record WriteHalf : Type 0 where
  pub sent : List ℕ
  pub writes : List WriteEvent

-- How `write_all_retry` ends. `waiting` is no return: the script ended, and the loop goes on.
pub data Retry : Type 0 where
  all_sent io_error waiting : Retry

-- `while !data.is_empty()`. A transient error sleeps, an interruption does not; both try again.
unfoldable pub write_loop : List WriteEvent → List ℕ → List ℕ → Retry × WriteHalf
write_loop ws [] sent = (all_sent, record { sent = sent; writes = ws })
write_loop [] (b ∷ bs) sent = (waiting, record { sent = sent; writes = [] })
write_loop (took zero ∷ ws) (b ∷ bs) sent = (io_error, record { sent = sent; writes = ws })
write_loop (took (suc n) ∷ ws) (b ∷ bs) sent =
    write_loop ws (drop (suc n) (b ∷ bs)) (sent ++ take (suc n) (b ∷ bs))
write_loop (transient ∷ ws) (b ∷ bs) sent = write_loop ws (b ∷ bs) sent
write_loop (interrupted ∷ ws) (b ∷ bs) sent = write_loop ws (b ∷ bs) sent
write_loop (failed ∷ ws) (b ∷ bs) sent = (io_error, record { sent = sent; writes = ws })

unfoldable pub write_all_retry : WriteHalf → List ℕ → Retry × WriteHalf
write_all_retry s bytes = write_loop s.writes bytes s.sent
