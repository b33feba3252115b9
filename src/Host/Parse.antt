-- ===== src/Host/Parse.antt =====
-- Which destinations `parse_destination` accepts, and what it makes of them.
use eternal_terminal_client.Base.{
  ℕ, ◌+◌, ◌-◌, ◌*◌, ◌≤◌, ◌≡◌, ◌⊎◌, inl, inr, refl, ap, ◌∙◌, Bool, true, false, ◌&&◌, Option, none,
  some, List, [], ◌∷◌, ◌++◌, arith, ltb, ◌==◌, ==_refl, if◌then◌else◌, Outcome, ok, err, ◌>>=◌, All,
}
use eternal_terminal_client.Host.{
  Destination, HostError, split_first, split_last, count_of, has_pair, is_digit, parse_digits,
  parse_u16, checked_port, with_port, split_host, given, split_user, user_or, invalid_host,
  parse_destination,
}

abbrev pub IsWithout : ℕ → List ℕ → Type 0
IsWithout c = All (λ b. (b == c) ≡ false)

pub split_first-append :
    (c : ℕ) (front back : List ℕ)
    → IsWithout c front
    → split_first c (front ++ c ∷ back) ≡ some (front, back)
unfolding split_first
split_first-append c [] back h = rw (==_refl c)
split_first-append c (b ∷ front) back h = rw (h.0, split_first-append c front back h.1)

split_first-none : (c : ℕ) (l : List ℕ) → IsWithout c l → split_first c l ≡ none
unfolding split_first
split_first-none c [] h = refl
split_first-none c (b ∷ l) h = rw (h.0, split_first-none c l h.1)

split_last-none : (c : ℕ) (l : List ℕ) → IsWithout c l → split_last c l ≡ none
unfolding split_last
split_last-none c [] h = refl
split_last-none c (b ∷ l) h = rw (split_last-none c l h.1, h.0)

split_last-append :
    (c : ℕ) (front back : List ℕ)
    → IsWithout c back
    → split_last c (front ++ c ∷ back) ≡ some (front, back)
unfolding split_last
split_last-append c [] back h = rw (split_last-none c back h, ==_refl c)
split_last-append c (b ∷ front) back h = rw (split_last-append c front back h)

pub count_of-without : (c : ℕ) (l : List ℕ) → IsWithout c l → count_of c l ≡ 0
unfolding count_of
count_of-without c [] h = refl
count_of-without c (b ∷ l) h = rw (h.0, count_of-without c l h.1)

pub count_of-append :
    (c : ℕ) (xs ys : List ℕ) → count_of c (xs ++ ys) ≡ count_of c xs + count_of c ys
unfolding count_of
count_of-append c [] ys = omega arith
count_of-append c (x ∷ xs) ys = omega (arith, count_of-append c xs ys)

pub count_of-head : (c : ℕ) (l : List ℕ) → count_of c (c ∷ l) ≡ 1 + count_of c l
unfolding count_of
count_of-head c l = rw (==_refl c)

pub count_of-one :
    (c : ℕ) (front back : List ℕ)
    → IsWithout c back
    → count_of c (front ++ c ∷ back) ≡ count_of c front + 1
count_of-one c front back h =
    omega
      (arith, count_of-append c front (c ∷ back), count_of-head c back, count_of-without c back h)

-- A port's text has no colon.
parse_digits-IsWithout :
    (n : ℕ) (ds : List ℕ) (port : ℕ) → parse_digits n ds ≡ some port → IsWithout b':' ds
unfolding parse_digits
parse_digits-IsWithout n [] port e = tt
parse_digits-IsWithout n (b ∷ ds) port e =
    by_test (is_digit b) (ltb (n * 10 + (b - b'0')) 65536) refl e
      (parse_digits-IsWithout (n * 10 + (b - b'0')) ds port)
  where
    by_test :
        (t u : Bool)
        → is_digit b ≡ t
        → (if t && u then parse_digits (n * 10 + (b - b'0')) ds else none) ≡ some port
        → (parse_digits (n * 10 + (b - b'0')) ds ≡ some port → IsWithout b':' ds)
        → IsWithout b':' (b ∷ ds)
    by_test true true d e ih = (ground arith, ih e)
    by_test true false d e ih = absurd (cc)
    by_test false u d e ih = absurd (cc)

pub parse_u16-IsWithout : (ds : List ℕ) (port : ℕ) → parse_u16 ds ≡ some port → IsWithout b':' ds
unfolding parse_u16
parse_u16-IsWithout [] port e = absurd (cc)
parse_u16-IsWithout (b ∷ []) port e = by_test (b == b'+') e
  where
    by_test :
        (t : Bool)
        → (if t then none else parse_digits 0 (b ∷ [])) ≡ some port
        → IsWithout b':' (b ∷ [])
    by_test true e = absurd (cc)
    by_test false e = parse_digits-IsWithout 0 (b ∷ []) port e
parse_u16-IsWithout (b ∷ d ∷ bs) port e = by_test (b == b'+') refl e
  where
    by_test :
        (t : Bool)
        → (b == b'+') ≡ t
        → (if t then parse_digits 0 (d ∷ bs) else parse_digits 0 (b ∷ d ∷ bs)) ≡ some port
        → IsWithout b':' (b ∷ d ∷ bs)
    by_test true p e = (ground arith, parse_digits-IsWithout 0 (d ∷ bs) port e)
    by_test false p e = parse_digits-IsWithout 0 (b ∷ d ∷ bs) port e

-- The hosts behind which a colon and a port can stand: one colon in all, or nine groups.
abbrev pub TakesPort : List ℕ → List ℕ → Type 0
TakesPort h ds =
    (count_of b':' h ≡ 0) ⊎ ((count_of b':' h ≡ 7) × (has_pair b':' (h ++ b':' ∷ ds) ≡ false))

module _ (h ds : List ℕ) (port default_port : ℕ) (number : parse_u16 ds ≡ some port) where
  text : List ℕ
  text = h ++ b':' ∷ ds

  ported : with_port (split_last b':' text) text default_port ≡ ok (h, port)
  unfolding with_port text
  ported =
      ap (λ o. with_port o text default_port)
        (split_last-append b':' h ds (parse_u16-IsWithout ds port number))
      ∙ ap (λ o. checked_port o h) number

  counted : count_of b':' text ≡ count_of b':' h + 1
  unfolding text
  counted = count_of-one b':' h ds (parse_u16-IsWithout ds port number)

  split_host-port : TakesPort h ds → split_host text default_port ≡ ok (h, port)
  unfolding split_host text
  split_host-port (inl z) =
      let one : count_of b':' text ≡ 1 = omega (arith, counted) in rw (one, ported)
  split_host-port (inr (n, f)) =
      let eight : count_of b':' text ≡ 8 = omega (arith, counted) in rw (eight, f, ported)

module _ (h : List ℕ) (default_port : ℕ) where
  pub split_host-none : count_of b':' h ≡ 0 → split_host h default_port ≡ ok (h, default_port)
  unfolding split_host
  split_host-none n = rw (n)

  pub split_host-pair :
      2 ≤ count_of b':' h
      → has_pair b':' h ≡ true
      → split_host h default_port ≡ ok (h, default_port)
  unfolding split_host
  split_host-pair n f = rw (f) (ground arith)

  pub split_host-seven :
      count_of b':' h ≡ 7
      → has_pair b':' h ≡ false
      → split_host h default_port ≡ ok (h, default_port)
  unfolding split_host
  split_host-seven n f = rw (n, f)

  pub split_host-refused :
      2 ≤ count_of b':' h
      → (count_of b':' h ≤ 6) ⊎ (9 ≤ count_of b':' h)
      → has_pair b':' h ≡ false
      → split_host h default_port ≡ err (invalid_host h)
  unfolding split_host
  split_host-refused m (inl n) f = rw (f) (ground arith)
  split_host-refused m (inr n) f = rw (f) (ground arith)

abbrev pub found : List ℕ → List ℕ → ℕ → Destination
found user host port = record { user = user; host = host; host_alias = host; et_port = port }

module _ (default_user : Option (List ℕ)) (default_port : ℕ) (local_name : List ℕ) where
  abbrev located : List ℕ × List ℕ → Outcome HostError Destination
  located (user, rest) = do
    (host, et_port) ← split_host rest default_port
    ok (found (user_or user local_name) host et_port)

  parsed :
      (arg : List ℕ)
      → parse_destination arg default_user default_port local_name
        ≡ located (split_user (split_first b'@' arg) arg default_user)
  unfolding parse_destination
  parsed arg = refl

  -- `user@host:port`, with a user that has no `@` and is not empty: the destination has that user,
  -- that host, also as its alias, and that port, whatever the defaults, where the host has no colon,
  -- or has seven and no `::` is in the text behind the `@`, and the port's text is a `u16`.
  pub parse_destination_lem :
      (b : ℕ) (user h ds : List ℕ) (port : ℕ)
      → IsWithout b'@' (b ∷ user)
      → TakesPort h ds
      → parse_u16 ds ≡ some port
      → parse_destination
          ((b ∷ user) ++ b'@' ∷ (h ++ b':' ∷ ds))
          default_user
          default_port
          local_name
        ≡ ok (found (b ∷ user) h port)
  unfolding split_user text
  parse_destination_lem b user h ds port u t number =
      parsed ((b ∷ user) ++ b'@' ∷ (h ++ b':' ∷ ds))
      ∙ ap (λ o. located (split_user o ((b ∷ user) ++ b'@' ∷ (h ++ b':' ∷ ds)) default_user))
          (split_first-append b'@' (b ∷ user) (h ++ b':' ∷ ds) u)
      ∙ ap (λ r. r >>= λ (x : List ℕ × ℕ). ok (found (b ∷ user) x.0 x.1))
          (split_host-port h ds port default_port number t)

  abbrev pub named : List ℕ
  named = user_or (given default_user) local_name

  pub alone :
      (h : List ℕ) (host : List ℕ) (et_port : ℕ)
      → IsWithout b'@' h
      → split_host h default_port ≡ ok (host, et_port)
      → parse_destination h default_user default_port local_name ≡ ok (found named host et_port)
  unfolding split_user
  alone h host et_port u e =
      parsed h
      ∙ ap (λ o. located (split_user o h default_user)) (split_first-none b'@' h u)
      ∙ ap (λ r. r >>= λ (x : List ℕ × ℕ). ok (found named x.0 x.1)) e

  pub refused :
      (h : List ℕ) {e : HostError}
      → IsWithout b'@' h
      → split_host h default_port ≡ err e
      → parse_destination h default_user default_port local_name ≡ err e
  unfolding split_user
  refused h u e =
      parsed h
      ∙ ap (λ o. located (split_user o h default_user)) (split_first-none b'@' h u)
      ∙ ap (λ r. r >>= λ (x : List ℕ × ℕ). ok (found named x.0 x.1)) e
