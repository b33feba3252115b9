-- ===== src/Backed/Writer/Recover.antt =====
-- `BackedWriter::recover` against the history.
use native.Mathlib.Decide.{dec_lt}
use eternal_terminal_client.Base.{
  ℕ, zero, suc, ◌+◌, ◌-◌, ◌≤◌, ◌<◌, ◌≡◌, refl, sym, ap, ◌∙◌, none, some, List, [], ◌∷◌, map, arith,
  if◌then◌else◌, ok, err, length, drop, drop-drop, length-drop, reverse-map-take-reverse,
}
use eternal_terminal_client.Base.Int.{ℤ, pos, negsuc}
use eternal_terminal_client.Packet.{Packet, serialize}
use eternal_terminal_client.Backed.Writer.{
  BackedWriter, is_none, max_backup_bytes, peer_ahead, too_far_behind, socket_alive,
  messages_to_recover, newest, recover_count, recover,
}
use eternal_terminal_client.Backed.Writer.History.{
  IsBacked, IsNeeded, total_size, total_size-drop-le,
}

-- The `n` newest packets of the backup are the `n` newest of the history.
newest-history :
    {history : List Packet} (w : BackedWriter) (last n : ℕ)
    → IsBacked history w
    → last + n ≡ length history
    → n ≤ length w.backup
    → newest w.backup n ≡ map serialize (drop last history)
unfolding newest
newest-history {history} w last n b e h =
    reverse-map-take-reverse serialize n w.backup h
    ∙ ap (λ t. map serialize (drop (length w.backup - n) t)) b.kept
    ∙ ap (map serialize) (
        drop-drop (length w.backup - n) b.dropped last history
          (omega (arith, ap length b.kept, length-drop b.dropped history, b.within)))

drop_all : {A : Type 0} (xs : List A) (n : ℕ) → n ≡ length xs → drop n xs ≡ []
drop_all [] zero e = refl
drop_all [] (suc n) e = refl
drop_all (x ∷ xs) zero e = absurd (omega arith)
drop_all (x ∷ xs) (suc n) e = drop_all xs n (omega arith)

messages_ahead : (n last : ℕ) → n < last → messages_to_recover n (pos last) ≡ none
unfolding messages_to_recover
messages_ahead n last h = ground arith

messages_missed : (n last : ℕ) → last ≤ n → messages_to_recover n (pos last) ≡ some (n - last)
unfolding messages_to_recover
messages_missed n last h = ground arith

messages_negative : (n last : ℕ) → messages_to_recover n (negsuc last) ≡ some (n + last + 1)
unfolding messages_to_recover
messages_negative n last = refl

module _ {history : List Packet} (w : BackedWriter) (b : IsBacked history w)
    (dead : w.socket ≡ none) where
  recover_dead : (z : ℤ) → recover w z ≡ recover_count w (messages_to_recover (length history) z)
  unfolding recover
  recover_dead z =
      ap
        (λ o.
          if is_none o
          then recover_count w (messages_to_recover w.sequence_number z)
          else err socket_alive)
        dead
      ∙ ap (λ n. recover_count w (messages_to_recover n z)) b.counted

  recover_ahead : recover_count w none ≡ err peer_ahead
  unfolding recover_count
  recover_ahead = refl

  recover_some :
      (last n : ℕ)
      → last + n ≡ length history
      → n ≤ length w.backup
      → recover_count w (some n) ≡ ok (map serialize (drop last history))
  unfolding recover_count
  recover_some last zero e h =
      ap (λ t. ok (map serialize t)) (sym (drop_all history last (omega arith)))
  recover_some last (suc n) e h = ground (arith, newest-history w last (suc n) b e h)

  recover_far : (n : ℕ) → length w.backup < n → recover_count w (some n) ≡ err too_far_behind
  unfolding recover_count
  recover_far n h = ground arith

  -- `recover` on a dead socket, for every sequence number that a peer can report: what the peer has
  -- not seen of the history, oldest first, if the backup still holds it; an error if the peer claims
  -- more than was written, if the backup no longer holds it, or if the number is negative.
  pub recover_lem :
      (last : ℕ)
      → (length history < last → recover w (pos last) ≡ err peer_ahead)
        × (last ≤ length history
            → length history ≤ last + length w.backup
            → recover w (pos last) ≡ ok (map serialize (drop last history)))
        × (last + length w.backup < length history → recover w (pos last) ≡ err too_far_behind)
        × (recover w (negsuc last) ≡ err too_far_behind)
  recover_lem last = (
    λ h.
        recover_dead (pos last)
        ∙ ap (recover_count w) (messages_ahead (length history) last h)
        ∙ recover_ahead,
    λ h k.
        recover_dead (pos last)
        ∙ ap (recover_count w) (messages_missed (length history) last h)
        ∙ recover_some last (length history - last) (omega arith) (omega arith),
    λ h.
        recover_dead (pos last)
        ∙ ap (recover_count w) (messages_missed (length history) last (omega arith))
        ∙ recover_far (length history - last) (omega arith),
    recover_dead (negsuc last)
        ∙ ap (recover_count w) (messages_negative (length history) last)
        ∙ recover_far (length history + last + 1) (omega (arith, backup_short)),
  )
    where
      backup_short : length w.backup ≤ length history
      backup_short = omega (arith, ap length b.kept, length-drop b.dropped history)

-- A peer that missed at most 64 MiB of packets can always catch up: on a dead socket, `recover` of a
-- number up to the history's length succeeds whenever the packets from there on, counted with their
-- two bytes of flag and header, have at most 64 MiB together.
pub recover_within_bound :
    (history : List Packet) (w : BackedWriter) (last : ℕ)
    → IsBacked history w
    → w.socket ≡ none
    → last ≤ length history
    → total_size (drop last history) ≤ max_backup_bytes
    → recover w (pos last) ≡ ok (map serialize (drop last history))
recover_within_bound history w last b dead h small = (recover_lem w b dead last).1 h (
    omega
      (arith, ap length b.kept, length-drop b.dropped history, b.within, held b.dropped b.needed))
  where
    held : (dropped : ℕ) → IsNeeded history dropped → dropped ≤ last
    held zero n = omega arith
    held (suc k) n = elim (dec_lt last (suc k)) [
      | yes h ↦ absurd (
          omega (
            arith,
            total_size-drop-le (k - last) (drop last history),
            n,
            small,
            ap total_size (drop-drop (k - last) last k history (omega arith)),
          ))
      | no h ↦ omega arith
    ]
