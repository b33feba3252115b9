-- ===== src/Client/Session/Shown.antt =====
-- What the console shows and what is sent of the typed text, over a whole run of the loop.
use eternal_terminal_client.Base.{
  ℕ, ◌+◌, ◌≡◌, refl, sym, ap, ◌∙◌, Bool, true, false, Option, none, some, List, [], ◌∷◌, ◌++◌, map,
  map_err, append-nil, append_assoc, leb, if◌then◌else◌, ok, ◌>>=◌,
}
use eternal_terminal_client.Packet
use eternal_terminal_client.Packet.{Packet}
use eternal_terminal_client.Proto.Messages.{TerminalInfo, terminal_info, keep_alive}
use eternal_terminal_client.Proto.Codec.TerminalInfo
use eternal_terminal_client.Client.{
  Loop, Effect, proto, written, write, close, Input, typed, idle, typed_packet, shown, keepalive,
  network, info_eq, on_info, local_input,
}
use eternal_terminal_client.Client.Output.{Incoming, AllIncoming, packets, text, settled, drain_lem}
use eternal_terminal_client.Client.Session.{
  Round, Ran, with_local, after_network, round, before, run_loop,
}
use eternal_terminal_client.Client.Session.Effects.{shown_text, buffers, Does, Does-append}

shown-Does : (duration : ℕ) (t : List ℕ) → Does t [] (shown true duration t)
unfolding shown shown_text buffers
shown-Does duration [] = (refl, refl)
shown-Does duration (b ∷ bs) = (append-nil (b ∷ bs), refl)

keepalive-Does :
    (duration now later : ℕ) (l : Loop) → Does [] [] (keepalive true duration now later l).1
unfolding keepalive shown_text buffers
keepalive-Does duration now later l = by_tests (leb l.keepalive_deadline now) l.waiting_on_keepalive
  where
    acts : Bool → Bool → Loop × List Effect
    acts t w =
        if t
        then if w
          then (
            record l { keepalive_deadline = later + duration; waiting_on_keepalive = false },
            close ∷ [],
          )
          else (
            record l { keepalive_deadline = later + duration; waiting_on_keepalive = true },
            write (Packet.new keep_alive []) ∷ [],
          )
        else (l, [])

    by_tests : (t w : Bool) → Does [] [] (acts t w).1
    by_tests true true = (refl, refl)
    by_tests true false = (refl, refl)
    by_tests false w = (refl, refl)

on_info-Does : (ti : TerminalInfo) (l : Loop) → Does [] [] (on_info ti l).1
unfolding on_info shown_text buffers
on_info-Does ti l = by_test (info_eq ti l.last_ti)
  where
    acts : Bool → Loop × List Effect
    acts t = if t then (l, []) else (
      record l { last_ti = ti },
      write (Packet.new terminal_info (TerminalInfo.encode ti)) ∷ [],
    )

    by_test : (t : Bool) → Does [] [] (acts t).1
    by_test true = (refl, refl)
    by_test false = (refl, refl)

-- A round, with a socket or without one, in which the server sends what a client can read, and the console takes
-- what it is given and can be read.
pub record Arrived : Type 0 where
  pub online : Bool
  pub incoming : List (Incoming × ℕ)
  pub now : ℕ
  pub later : ℕ
  pub typed_at : ℕ
  pub keys : Option (List ℕ)
  pub info : TerminalInfo

abbrev input_of : Option (List ℕ) → Input
input_of none = idle
input_of (some bytes) = typed bytes

abbrev pub round_of : Arrived → Round
round_of a = record {
  stopping = false;
  has_socket = a.online;
  pkts = packets a.incoming;
  shows = true;
  now = a.now;
  later = a.later;
  typed_at = a.typed_at;
  input = input_of a.keys;
  info = a.info;
}

abbrev pub typed_of : Option (List ℕ) → List Packet
typed_of none = []
typed_of (some bytes) = typed_packet bytes ∷ []

-- What a round brings to the console: nothing is read without a socket.
abbrev pub text_of : Bool → List (Incoming × ℕ) → List ℕ
text_of true is = text is
text_of false is = []

abbrev pub all_text : List Arrived → List ℕ
all_text [] = []
all_text (a ∷ rs) = text_of a.online a.incoming ++ all_text rs

abbrev pub all_typed : List Arrived → List Packet
all_typed [] = []
all_typed (a ∷ rs) = typed_of a.keys ++ all_typed rs

abbrev pub AllArrived : List Arrived → Type 0
AllArrived [] = Unit
AllArrived (a ∷ rs) = AllIncoming a.incoming × AllArrived rs

local_input-Does :
    (duration typed_at : ℕ) (keys : Option (List ℕ)) (info : TerminalInfo) (l : Loop)
    → (l' : Loop) × (es : List Effect) × (local_input duration typed_at (input_of keys) info l
        ≡ some (l', es))
      × Does [] (typed_of keys) es
unfolding local_input shown_text buffers
local_input-Does duration typed_at none info l =
    ((on_info info l).0, (on_info info l).1, refl, on_info-Does info l)
local_input-Does duration typed_at (some bytes) info l =
    let l₁ = record l { keepalive_deadline = typed_at + duration } in
    (
      (on_info info l₁).0,
      write (typed_packet bytes) ∷ (on_info info l₁).1,
      refl,
      Does-append [] [] (typed_packet bytes ∷ []) [] (write (typed_packet bytes) ∷ [])
          (on_info info l₁).1 wrote (on_info-Does info l₁),
    )
  where
    wrote : Does [] (typed_packet bytes ∷ []) (write (typed_packet bytes) ∷ [])
    wrote = (refl, refl)

network_online :
    (duration : ℕ) (a : Arrived) (l : Loop)
    → AllIncoming a.incoming
    → network true duration true true (packets a.incoming) a.now a.later l
      ≡ ok (
        (keepalive true duration a.now a.later (settled duration l a.incoming)).0,
        shown true duration (text a.incoming)
            ++ (keepalive true duration a.now a.later (settled duration l a.incoming)).1,
      )
unfolding network
network_online duration a l h =
    ap
      (λ r. do
        (l', coalesced) ← map_err proto r
        es ← written true duration true (shown true duration coalesced)
        ok (
          (keepalive true duration a.now a.later l').0,
          es ++ (keepalive true duration a.now a.later l').1,
        ))
      (drain_lem duration a.incoming l [] h)

-- The network's half of a round shows what has arrived and writes no terminal buffer.
network-Does :
    (duration : ℕ) (a : Arrived) (l : Loop) (online : Bool)
    → AllIncoming a.incoming
    → (l' : Loop) × (es : List Effect) × (network true duration online true
          (packets a.incoming)
          a.now
          a.later
          l
        ≡ ok (l', es))
      × Does (text_of online a.incoming) [] es
unfolding network shown_text buffers
network-Does duration a l true h =
    let l₁ = settled duration l a.incoming in
    let (l₂, kept) = keepalive true duration a.now a.later l₁ in
    let heard =
      Does-append (text a.incoming) [] [] [] (shown true duration (text a.incoming)) kept
        (shown-Does duration (text a.incoming)) (keepalive-Does duration a.now a.later l₁) in
    (
      l₂,
      shown true duration (text a.incoming) ++ kept,
      network_online duration a l h,
      (heard.0 ∙ append-nil (text a.incoming), heard.1),
    )
network-Does duration a l false h =
    (record l { waiting_on_keepalive = false }, [], refl, (refl, refl))

round-Does :
    (duration : ℕ) (a : Arrived) (l : Loop)
    → AllIncoming a.incoming
    → (l' : Loop) × (es : List Effect) × (round true duration (round_of a) l ≡ ok (some l', es))
      × Does (text_of a.online a.incoming) (typed_of a.keys) es
unfolding round
round-Does duration a l h =
    let (l₂, heard, n, d) = network-Does duration a l a.online h in
    let (l₃, es, e, d') = local_input-Does duration a.typed_at a.keys a.info l₂ in
    let all = Does-append (text_of a.online a.incoming) [] [] (typed_of a.keys) heard es d d' in
    (
      l₃,
      heard ++ es,
      ap (λ r. do s ← r; ok (after_network true duration true (round_of a) s)) n
          ∙ ap (λ o. ok (with_local heard o)) e,
      (all.0 ∙ append-nil (text_of a.online a.incoming), all.1),
    )

run_loop-step :
    (duration : ℕ) (a : Arrived) (rs : List Round) (l l' : Loop) (es : List Effect)
    → round true duration (round_of a) l ≡ ok (some l', es)
    → run_loop true duration (round_of a ∷ rs) l ≡ before es (run_loop true duration rs l')
unfolding run_loop
run_loop-step duration a rs l l' es e = rw (run_loop, e)

before-before :
    (es fs : List Effect) (ran : Ran) → before es (before fs ran) ≡ before (es ++ fs) ran
before-before es fs ran = ap (λ t. (t, ran.1)) (sym (append_assoc es fs ran.0))

-- The rounds show all the output and send all that is typed, and the loop goes on behind them.
pub run_loop-Does :
    (duration : ℕ) (rs : List Arrived) (ts : List Round) (l : Loop)
    → AllArrived rs
    → (es : List Effect) × (l' : Loop) × (run_loop true duration (map round_of rs ++ ts) l
        ≡ before es (run_loop true duration ts l'))
      × Does (all_text rs) (all_typed rs) es
unfolding shown_text buffers
run_loop-Does duration [] ts l h = ([], l, refl, (refl, refl))
run_loop-Does duration (a ∷ rs) ts l h =
    let (l₁, es, e, d) = round-Does duration a l h.0 in
    let (fs, l₂, more, f) = run_loop-Does duration rs ts l₁ h.1 in
    (
      es ++ fs,
      l₂,
      run_loop-step duration a (map round_of rs ++ ts) l l₁ es e
          ∙ ap (before es) more
          ∙ before-before es fs (run_loop true duration ts l₂),
      Does-append (text_of a.online a.incoming) (all_text rs) (typed_of a.keys) (all_typed rs) es fs
          d f,
    )
