-- ===== src/Terminal/Windows/Restore.antt =====
-- What `LocalConsole` leaves of the console's modes on Windows.
use eternal_terminal_client.Base.{
  ℕ, ◌≡◌, refl, ap₂, subst, sym, ◌∙◌, Bool, true, false, not, if◌then◌else◌, Outcome, ok, err,
}
use eternal_terminal_client.Terminal.{
  LocalConsole, ConsoleError, get_mode_in, get_mode_out, set_mode_in, set_mode_out, io, enabled_by,
  or_dropped, setup, teardown, new, drop,
}
use eternal_terminal_client.Terminal.Windows.{
  ModeBits, Host, Modes, raw_in, raw_out, raw_out_old, enable_raw, disable_raw, platform,
}

module _ (bits : ModeBits) (host : Host) (m : Modes) where
  abbrev saved : LocalConsole
  saved = record { enabled = false; saved_in_mode = m.in_mode; saved_out_mode = m.out_mode }

  abbrev set_modes : ℕ → Modes
  set_modes out = record { in_mode = raw_in bits host m.in_mode; out_mode = out }

  -- `enable_raw` on a new console, by the host's answers.
  abbrev enabled :
      (got_in got_out took_in took_out took_old wrote : Bool)
      → Outcome ConsoleError (Unit {0}) × LocalConsole × Modes
  enabled got_in got_out took_in took_out took_old wrote =
      if not got_in
      then (err get_mode_in, record { enabled = false; saved_in_mode = 0; saved_out_mode = 0 }, m)
      else if not got_out
      then (err get_mode_out, record { enabled = false; saved_in_mode = 0; saved_out_mode = 0 }, m)
      else if took_in
      then if took_out
        then (if wrote then ok tt else err io, saved, set_modes (raw_out bits host m.out_mode))
        else if took_old
        then (if wrote then ok tt else err io, saved, set_modes (raw_out_old bits host m.out_mode))
        else (err set_mode_out, saved, set_modes m.out_mode)
      else (err set_mode_in, saved, m)

  abbrev opened :
      (got_in got_out took_in took_out took_old wrote : Bool)
      → Outcome ConsoleError LocalConsole × Modes
  opened got_in got_out took_in took_out took_old wrote =
      or_dropped (platform bits host)
        (enabled_by (platform bits host) (enabled got_in got_out took_in took_out took_old wrote))

  new_opened :
      new (platform bits host) m
      ≡ opened host.get_in host.get_out
          (host.set_in (raw_in bits host m.in_mode))
          (host.set_out (raw_out bits host m.out_mode))
          (host.set_out (raw_out_old bits host m.out_mode))
          host.stdout
  unfolding new setup enable_raw
  new_opened = refl

  opened_saved :
      (a b d e f g : Bool) (c : LocalConsole) (m' : Modes)
      → opened a b d e f g ≡ (ok c, m')
      → record saved { enabled = true } ≡ c
  unfolding teardown
  opened_saved false b d e f g c m' h = absurd (cc)
  opened_saved true false d e f g c m' h = absurd (cc)
  opened_saved true true false e f g c m' h = absurd (cc)
  opened_saved true true true true f true c m' h = cc
  opened_saved true true true true f false c m' h = absurd (cc)
  opened_saved true true true false true true c m' h = cc
  opened_saved true true true false true false c m' h = absurd (cc)
  opened_saved true true true false false g c m' h = absurd (cc)

  -- A console that `new` opened: whatever the modes are by then, `teardown` puts back those from before, if
  -- the host takes them, and the drop of the console behind it changes nothing.
  pub teardown-new :
      (c : LocalConsole) (m' m'' : Modes)
      → new (platform bits host) m ≡ (ok c, m')
      → host.set_in m.in_mode ≡ true
      → host.set_out m.out_mode ≡ true
      → ((teardown (platform bits host) c m'').1 ≡ m)
        × (drop (platform bits host) (teardown (platform bits host) c m'').0 m ≡ m)
  unfolding teardown disable_raw
  teardown-new c m' m'' h s o =
      subst
        (λ c.
          ((teardown (platform bits host) c m'').1 ≡ m)
          × (drop (platform bits host) (teardown (platform bits host) c m'').0 m ≡ m))
        (opened_saved host.get_in host.get_out _ _ _ host.stdout c m' (sym new_opened ∙ h))
        (
          ap₂
              (λ t u. record {
                in_mode = if t then m.in_mode else m''.in_mode;
                out_mode = if u then m.out_mode else m''.out_mode;
              })
              s o,
          refl,
        )

  -- If both handles tell their modes and the input handle takes its raw mode, then `new` fails and leaves the
  -- input raw in two cases: the output handle takes neither of its modes, or it takes the first and
  -- the sequence behind it cannot be written; then the output is left raw, too.
  pub new-raw :
      host.get_in ≡ true
      → host.get_out ≡ true
      → host.set_in (raw_in bits host m.in_mode) ≡ true
      → (host.set_out (raw_out bits host m.out_mode) ≡ false
          → host.set_out (raw_out_old bits host m.out_mode) ≡ false
          → new (platform bits host) m
            ≡ (err set_mode_out, record m { in_mode = raw_in bits host m.in_mode }))
        × (host.set_out (raw_out bits host m.out_mode) ≡ true
            → host.stdout ≡ false
            → new (platform bits host) m ≡ (
              err io,
              record {
                in_mode = raw_in bits host m.in_mode;
                out_mode = raw_out bits host m.out_mode;
              },
            ))
  unfolding teardown
  new-raw a b d = (
    λ e f. new_opened ∙ (λ i. opened (a i) (b i) (d i) (e i) (f i) host.stdout),
    λ e g. new_opened ∙ (λ i.
        opened (a i) (b i) (d i) (e i) (host.set_out (raw_out_old bits host m.out_mode)) (g i)),
  )
