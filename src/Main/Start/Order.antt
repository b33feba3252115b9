-- ===== src/Main/Start/Order.antt =====
-- The order of the calls of `real_main`.
use eternal_terminal_client.Base.{
  ℕ, zero, suc, ◌+◌, ◌≤◌, ◌≡◌, refl, ap, ◌∙◌, Bool, true, false, List, [], ◌∷◌, ◌++◌, replicate,
  arith, leb, if◌then◌else◌, Outcome, ok, err, panic, stuck, map_err, append_assoc,
}
use eternal_terminal_client.Client.{SessionError}
use eternal_terminal_client.Host.{Destination}
use eternal_terminal_client.Main.{destination, connect_to}
use eternal_terminal_client.SshSetup.{SessionKeys, SshError}
use eternal_terminal_client.Main.Start.{
  Cli, Call, ping_server, setup_ssh, connect, sleep, run_session, shutdown, shut_down, dropped,
  and_drop, unreachable, ssh, no_connection, session, ssh_options, client_options, Run, before,
  connect_loop, Answers, with_keys, with_destination, real_main,
}

-- `k` failed attempts and the pauses behind them.
abbrev pub failed_attempts : ℕ → Call → List Call
failed_attempts zero call = []
failed_attempts (suc k) call = call ∷ sleep ∷ failed_attempts k call

-- A panic skips the first `shutdown`; the second is the drop's.
abbrev pub closing : Outcome SessionError (Unit {0}) → List Call
closing (ok _) = shutdown ∷ shutdown ∷ []
closing (err e) = shutdown ∷ shutdown ∷ []
closing panic = shutdown ∷ []
closing stuck = []

module _ (call : Call) (next : Unit {0} → Run) where
  connect_loop-true :
      (k n : ℕ) (rest : List Bool)
      → n + k ≤ 2
      → connect_loop call n (replicate k false ++ true ∷ rest) next
        ≡ before (failed_attempts k call ++ call ∷ []) (next tt)
  unfolding connect_loop
  connect_loop-true zero n rest h = refl
  connect_loop-true (suc k) n rest h =
      let early : leb 3 (n + 1) ≡ false = ground arith in
      rw (early, connect_loop-true k (n + 1) rest (omega arith))

  connect_loop-false :
      (rest : List Bool)
      → connect_loop call 0 (false ∷ false ∷ false ∷ rest) next
        ≡ (failed_attempts 2 call ++ call ∷ [], err no_connection)
  unfolding connect_loop
  connect_loop-false rest = refl

module _ (cli : Cli) (answers : Answers) (dest : Destination)
    (found : destination cli.host cli.username cli.port answers.local_name ≡ ok dest) where
  abbrev to : List ℕ × ℕ × Bool
  to = connect_to cli.jumphost cli.jport dest

  abbrev pinged : List Call
  pinged = ping_server to.0 to.1 ∷ []

  abbrev set_up : List Call
  set_up = pinged ++ setup_ssh (ssh_options cli dest) ∷ []

  started :
      (reachable : Bool) (keys : Outcome SshError SessionKeys)
      → answers.reachable ≡ reachable
      → answers.keys ≡ keys
      → real_main cli answers
        ≡ before pinged (
            if reachable
            then before (setup_ssh (ssh_options cli dest) ∷ []) (with_keys cli answers to keys)
            else ([], err unreachable))
  unfolding real_main
  started reachable keys r k = ap (with_destination cli answers) found ∙ (λ i. before pinged (
      if r i
      then before (setup_ssh (ssh_options cli dest) ∷ []) (with_keys cli answers to (k i))
      else ([], err unreachable)))

  abbrev in_session : Unit {0} → Run
  in_session _ = (
    run_session (client_options cli to.2) ∷ shut_down answers.ended,
    map_err session answers.ended,
  )

  -- What is called behind `run_session`, by how the session ends.
  closed :
      (cs : List Call)
      → and_drop (before cs (in_session tt)) ≡ (
        cs ++ run_session (client_options cli to.2) ∷ closing answers.ended,
        map_err session answers.ended,
      )
  closed cs =
      ap (λ t. (t, map_err session answers.ended))
        (append_assoc cs (run_session (client_options cli to.2) ∷ shut_down answers.ended)
            (dropped (map_err session answers.ended))
          ∙ ap (λ t. cs ++ run_session (client_options cli to.2) ∷ t) (by_end answers.ended))
    where
      by_end :
          (o : Outcome SessionError (Unit {0}))
          → shut_down o ++ dropped (map_err session o) ≡ closing o
      by_end (ok u) = refl
      by_end (err e) = refl
      by_end panic = refl
      by_end stuck = refl

  -- For a destination that parses, with the address that `-p`, the host argument and the jump host decide:
  -- if the address cannot be reached, nothing else is called; if the setup over `ssh` fails, no connection is
  -- made; with keys, `connect` to the same address is called until it succeeds, three times at most with a
  -- pause between; after success `run_session` is called and the result is the session's; after the third failure
  -- it is not called. `shutdown` is called where the session returns, also with an error, and once more when
  -- the connection is dropped, which is also after the third failure and in a panic of the session.
  pub real_main_lem :
      (answers.reachable ≡ false → real_main cli answers ≡ (pinged, err unreachable))
      × ((e : SshError)
          → answers.reachable ≡ true
          → answers.keys ≡ err e
          → real_main cli answers ≡ (set_up, err (ssh e)))
      × ((keys : SessionKeys) (k : ℕ) (rest : List Bool)
          → answers.reachable ≡ true
          → answers.keys ≡ ok keys
          → k ≤ 2
          → answers.connects ≡ replicate k false ++ true ∷ rest
          → real_main cli answers ≡ (
            set_up
                ++ (failed_attempts k (connect to.0 to.1 keys) ++ connect to.0 to.1 keys ∷ [])
                ++ (run_session (client_options cli to.2) ∷ closing answers.ended),
            map_err session answers.ended,
          ))
      × ((keys : SessionKeys) (rest : List Bool)
          → answers.reachable ≡ true
          → answers.keys ≡ ok keys
          → answers.connects ≡ false ∷ false ∷ false ∷ rest
          → real_main cli answers ≡ (
            set_up
                ++ (failed_attempts 2 (connect to.0 to.1 keys)
                    ++ connect to.0 to.1 keys ∷ shutdown ∷ []),
            err no_connection,
          ))
  real_main_lem = (
    λ r. started false answers.keys r refl,
    λ e r k. started true (err e) r k,
    λ keys k rest r s h e.
        started true (ok keys) r s
        ∙ ap (λ x. before pinged (before (setup_ssh (ssh_options cli dest) ∷ []) x))
            (ap (λ t. and_drop (connect_loop (connect to.0 to.1 keys) 0 t in_session)) e
              ∙ ap and_drop
                  (connect_loop-true (connect to.0 to.1 keys) in_session k 0 rest (omega arith))
              ∙ closed (failed_attempts k (connect to.0 to.1 keys) ++ connect to.0 to.1 keys ∷ [])),
    λ keys rest r s e.
        started true (ok keys) r s
        ∙ ap (λ x. before pinged (before (setup_ssh (ssh_options cli dest) ∷ []) x))
            (ap (λ t. and_drop (connect_loop (connect to.0 to.1 keys) 0 t in_session)) e
              ∙ ap and_drop (connect_loop-false (connect to.0 to.1 keys) in_session rest)),
  )
