-- ===== src/Backed/Writer/History.antt =====
-- The backup of a `BackedWriter` against the history of all the packets that it stored.
use eternal_terminal_client.Base.{
  ℕ, zero, suc, ◌+◌, ◌-◌, ◌≤◌, ◌<◌, ◌≡◌, inl, inr, refl, sym, ap, subst, ◌∙◌, Bool, true, false,
  Bool-cases, List, [], ◌∷◌, ◌++◌, arith, ltb, if◌then◌else◌, length, length-append, drop,
  drop-drop, drop-append_of_le, length-drop,
}
use eternal_terminal_client.Crypto.{CryptoHandler}
use eternal_terminal_client.Packet.{Packet, size}
use eternal_terminal_client.Backed.Socket.{WriteHalf}
use eternal_terminal_client.Backed.Writer.{
  BackedWriter, new, is_none, max_backup_bytes, push, evict_loop, evict_backup, evict,
}

abbrev pub total_size : List Packet → ℕ
total_size [] = 0
total_size (p ∷ ps) = size p + total_size ps

pub total_size-append :
    (ps qs : List Packet) → total_size (ps ++ qs) ≡ total_size ps + total_size qs
total_size-append [] qs = omega arith
total_size-append (p ∷ ps) qs = omega (arith, total_size-append ps qs)

pub total_size-drop-le : (k : ℕ) (ps : List Packet) → total_size (drop k ps) ≤ total_size ps
total_size-drop-le zero ps = omega arith
total_size-drop-le (suc k) [] = omega arith
total_size-drop-le (suc k) (p ∷ ps) = omega (arith, total_size-drop-le k ps)

-- The packets before the first `k` of `ps` were dropped, and the last of them had to be: with it the
-- rest is more than the bound.
abbrev pub IsNeeded : List Packet → ℕ → Type 0
IsNeeded ps zero = Unit
IsNeeded ps (suc k) = max_backup_bytes < total_size (drop k ps)

-- How the three fields of the log stand to the history, oldest packet first.
pub record IsLog (history : List Packet) (sequence_number : ℕ) (backup : List Packet)
    (backup_size : ℕ) : Type 0 where
  pub counted : sequence_number ≡ length history
  pub dropped : ℕ
  pub within : dropped ≤ length history
  pub kept : backup ≡ drop dropped history
  pub needed : IsNeeded history dropped
  pub sized : backup_size ≡ total_size backup

abbrev pub IsBacked : List Packet → BackedWriter → Type 0
IsBacked history w = IsLog history w.sequence_number w.backup w.backup_size

pub new-IsBacked : (crypto : CryptoHandler) (s : WriteHalf) → IsBacked [] (new crypto s)
new-IsBacked crypto s = record {
  counted = refl;
  dropped = 0;
  within = omega arith;
  kept = refl;
  needed = tt;
  sized = refl;
}

IsNeeded-append :
    (ps qs : List Packet) (k : ℕ) → k ≤ length ps → IsNeeded ps k → IsNeeded (ps ++ qs) k
IsNeeded-append ps qs zero h n = tt
IsNeeded-append ps qs (suc k) h n =
    rw (drop-append_of_le k ps qs (omega arith)) (omega (arith, total_size-append (drop k ps) qs))

pub push-IsBacked :
    {history : List Packet} (w : BackedWriter) (p : Packet) (h : CryptoHandler)
    → IsBacked history w
    → IsBacked (history ++ p ∷ []) (push w p h)
unfolding push
push-IsBacked {history} w p h b = record {
  counted = omega (arith, b.counted, length-append history (p ∷ []));
  dropped = b.dropped;
  within = omega (arith, b.within, length-append history (p ∷ []));
  kept = ap (λ t. t ++ p ∷ []) b.kept ∙ sym (drop-append_of_le b.dropped history (p ∷ []) b.within);
  needed = IsNeeded-append history (p ∷ []) b.dropped b.within b.needed;
  sized = omega (arith, b.sized, total_size-append w.backup (p ∷ []));
}

-- The loop drops as many of the oldest packets as it has to, and no more.
pub record IsEvicted (backup : List Packet) (r : List Packet × ℕ) : Type 0 where
  pub gone : ℕ
  pub few : gone ≤ length backup
  pub left : r ≡ (drop gone backup, total_size (drop gone backup))
  pub minimal : IsNeeded backup gone
  pub fits : r.1 ≤ max_backup_bytes

pub evict_loop-IsEvicted :
    (backup : List Packet) (n : ℕ) → n ≡ total_size backup → IsEvicted backup (evict_loop backup n)
unfolding evict_loop
evict_loop-IsEvicted [] n e = record {
  gone = 0;
  few = omega arith;
  left = ap (λ k. ([], k)) e;
  minimal = tt;
  fits = omega arith;
}
evict_loop-IsEvicted (old ∷ backup) n e = elim (Bool-cases (ltb max_backup_bytes n)) [
  | inl t ↦ rw t (more (evict_loop-IsEvicted backup (n - size old) (omega arith)) (ground arith))
  | inr t ↦ rw t (record {
    gone = 0;
    few = omega arith;
    left = ap (λ k. (old ∷ backup, k)) e;
    minimal = tt;
    fits = ground arith;
  })
]
  where
    more :
        {r : List Packet × ℕ}
        → IsEvicted backup r
        → max_backup_bytes < total_size (old ∷ backup)
        → IsEvicted (old ∷ backup) r
    more v h = record {
      gone = suc v.gone;
      few = omega (arith, v.few);
      left = v.left;
      minimal = again v.gone v.minimal;
      fits = v.fits;
    }
      where
        again : (k : ℕ) → IsNeeded backup k → max_backup_bytes < total_size (drop k (old ∷ backup))
        again zero m = h
        again (suc k) m = m

IsNeeded-drop :
    (history backup : List Packet) (dropped gone m : ℕ)
    → backup ≡ drop dropped history
    → m ≡ dropped + gone
    → IsNeeded history dropped
    → IsNeeded backup gone
    → IsNeeded history m
IsNeeded-drop history backup dropped zero m e f n g =
    subst (IsNeeded history) (let q : dropped ≡ m = omega arith in q) n
IsNeeded-drop history backup dropped (suc gone) zero e f n g = absurd (omega arith)
IsNeeded-drop history backup dropped (suc gone) (suc m) e f n g =
    subst (λ t. max_backup_bytes < total_size t)
      (ap (drop gone) e ∙ drop-drop gone dropped m history (omega arith)) g

evict_backup-IsBacked :
    {history : List Packet} (w : BackedWriter)
    → IsBacked history w
    → IsBacked history (evict_backup w)
unfolding evict_backup
evict_backup-IsBacked {history} w b = record {
  counted = b.counted;
  dropped = b.dropped + v.gone;
  within = omega (arith, v.few, b.within, ap length b.kept, length-drop b.dropped history);
  kept =
      ap (λ r. r.0) v.left
      ∙ ap (drop v.gone) b.kept
      ∙ drop-drop v.gone b.dropped (b.dropped + v.gone) history refl;
  needed =
      IsNeeded-drop history w.backup b.dropped v.gone (b.dropped + v.gone) b.kept refl b.needed
        v.minimal;
  sized = ap (λ r. r.1) v.left ∙ sym (ap (λ r. total_size r.0) v.left);
}
  where
    v : IsEvicted w.backup (evict_loop w.backup w.backup_size)
    v = evict_loop-IsEvicted w.backup w.backup_size b.sized

pub evict-IsBacked :
    {history : List Packet} (w : BackedWriter) → IsBacked history w → IsBacked history (evict w)
unfolding evict
evict-IsBacked {history} w b = either (is_none w.socket)
  where
    either : (t : Bool) → IsBacked history (if t then w else evict_backup w)
    either true = b
    either false = evict_backup-IsBacked w b
