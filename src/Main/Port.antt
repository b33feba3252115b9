-- ===== src/Main/Port.antt =====
-- When `-p` overrides the port of the host argument.
use eternal_terminal_client.Base.{
  ℕ, ◌+◌, ◌≤◌, ◌≡◌, ◌⊎◌, inl, inr, refl, ap, ◌∙◌, Bool, true, false, not, Option, some, List, ◌∷◌,
  ◌++◌, arith, ◌==◌, if◌then◌else◌, ok, ◌>>=◌,
}
use eternal_terminal_client.Host.{Destination, count_of, parse_u16}
use eternal_terminal_client.Host.Parse.{
  IsWithout, TakesPort, found, parse_destination_lem, count_of-append, count_of-without,
  count_of-one, parse_u16-IsWithout,
}
use eternal_terminal_client.Main.{cli_host_has_explicit_port, is_simple, override_port, destination}

-- Both branches do the same.
override_lem :
    (host : List ℕ) (port : ℕ) (dest : Destination)
    → override_port host port dest
      ≡ (if cli_host_has_explicit_port host then dest else record dest { et_port = port })
unfolding override_port
override_lem host port dest = by_tests (is_simple host) (cli_host_has_explicit_port host)
  where
    by_tests :
        (a b : Bool)
        → (if a
            then if not b then record dest { et_port = port } else dest
            else if not b
            then record dest { et_port = port }
            else dest)
          ≡ (if b then dest else record dest { et_port = port })
    by_tests true true = refl
    by_tests true false = refl
    by_tests false true = refl
    by_tests false false = refl

explicit :
    (host : List ℕ)
    → ((count_of b':' host ≡ 1) ⊎ (count_of b':' host ≡ 8) → cli_host_has_explicit_port host ≡ true)
      × (2 ≤ count_of b':' host → count_of b':' host ≤ 7 → cli_host_has_explicit_port host ≡ false)
unfolding cli_host_has_explicit_port
explicit host = (some_port, λ m n. ground arith)
  where
    some_port :
        (count_of b':' host ≡ 1) ⊎ (count_of b':' host ≡ 8)
        → (if count_of b':' host == 1
            then true
            else if count_of b':' host == 8
            then true
            else false)
          ≡ true
    some_port (inl e) = rw (e)
    some_port (inr e) = rw (e)

module _ (username : Option (List ℕ)) (port : ℕ) (local_name : List ℕ) (b : ℕ) (user h ds : List ℕ)
    (n : ℕ) (u : IsWithout b'@' (b ∷ user)) (number : parse_u16 ds ≡ some n) where
  abbrev arg : List ℕ
  arg = (b ∷ user) ++ b'@' ∷ (h ++ b':' ∷ ds)

  colons : count_of b':' arg ≡ count_of b':' (b ∷ user) + count_of b':' h + 1
  unfolding count_of
  colons = omega (
    arith,
    count_of-append b':' (b ∷ user) (b'@' ∷ (h ++ b':' ∷ ds)),
    count_of-one b':' h ds (parse_u16-IsWithout ds n number),
  )

  decided :
      (t : Bool)
      → TakesPort h ds
      → cli_host_has_explicit_port arg ≡ t
      → destination arg username port local_name
        ≡ ok (if t then found (b ∷ user) h n else record (found (b ∷ user) h n) { et_port = port })
  unfolding destination
  decided t takes e =
      ap (λ r. do dest ← r; ok (override_port arg port dest))
        (parse_destination_lem username port local_name b user h ds n u takes number)
      ∙ ap ok (
          override_lem arg port (found (b ∷ user) h n)
          ∙ ap
              (λ t.
                if t
                then found (b ∷ user) h n
                else record (found (b ∷ user) h n) { et_port = port })
              e)

  -- `user@host:port`, with a user that is not empty, a host that can take a port, and a port's text that
  -- is a `u16`: if the user has no colon the port of the argument is kept, whatever `-p` says; if the
  -- user has one to six colons and the host none, the port of the argument is lost and `-p`, or its
  -- default, is taken.
  pub destination_port :
      (IsWithout b':' (b ∷ user)
        → TakesPort h ds
        → destination arg username port local_name ≡ ok (found (b ∷ user) h n))
      × (1 ≤ count_of b':' (b ∷ user)
          → count_of b':' (b ∷ user) ≤ 6
          → count_of b':' h ≡ 0
          → destination arg username port local_name ≡ ok (found (b ∷ user) h port))
  destination_port = (
    λ w takes. decided true takes ((explicit arg).0 (shape w takes)),
    λ few many none_.
        decided false (inl none_)
          ((explicit arg).1 (omega (arith, colons)) (omega (arith, colons))),
  )
    where
      shape :
          IsWithout b':' (b ∷ user)
          → TakesPort h ds
          → (count_of b':' arg ≡ 1) ⊎ (count_of b':' arg ≡ 8)
      shape w (inl z) = inl (omega (arith, colons, count_of-without b':' (b ∷ user) w))
      shape w (inr z) = inr (omega (arith, colons, count_of-without b':' (b ∷ user) w, z.0))
