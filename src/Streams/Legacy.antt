-- ===== src/Streams/Legacy.antt =====
-- The sockets of `setup_legacy`, `teardown` and `stop_stream`.
use air_play_windows.Base.{
  ◌==◌, Bytes, codes, ℕ, ◌+◌, ◌≡◌, refl, ap, Bool, true, false, not, Option, none, some, List, [],
  ◌∷◌, arith,
}
use air_play_windows.Streams.Balance.{Balanced}
use air_play_windows.Streams.Sockets.{count, count-append, owned, count-owned}
use air_play_windows.Streams.Stop.{suspend}
use air_play_windows.Streams.{
  pick_port, StreamPorts, no_ports, Receiver, StreamSession, Done, Bind, held, receiver_sockets,
  teardown, give_up, legacy_timing, legacy_control, legacy_data, setup_legacy,
}

module _ {P : Type 0} where
  pub count-torn_down : (x : ℕ) (s : StreamSession P) → count x (owned (teardown s).0) ≡ 0
  unfolding teardown
  count-torn_down x s = refl

  give_up-Balanced :
      (x : ℕ) (bound : List ℕ) (ports : StreamPorts) (s : StreamSession P)
      → count x (give_up bound ports s).closed + count x (owned (give_up bound ports s).session)
        ≡ count x (owned s)
  give_up-Balanced x bound ports s = omega (arith, count-torn_down x s)

  -- What is bound from here on is accounted for.
  abbrev Adds : ℕ → List ℕ → StreamSession P → Done P → Type 0
  Adds x bound s d =
      count x d.bound + count x (owned s)
      ≡ count x bound + (count x d.closed + count x (owned d.session))

  legacy_timing-Adds :
      (x : ℕ) (timing : Bool) (t : Bind) (bound : List ℕ) (ports : StreamPorts)
      (s : StreamSession P)
      → s.timing_sock ≡ none
      → Adds x bound s (legacy_timing timing t bound ports s)
  legacy_timing-Adds x false t bound ports s free = omega arith
  legacy_timing-Adds x true none bound ports s free =
      omega (arith, give_up-Balanced x bound ports s)
  legacy_timing-Adds x true (some (sock, port)) bound ports s free =
      let s' = record s { timing_sock = some sock } in
      omega (
        arith,
        count-owned x s,
        count-owned x s',
        ap (λ o. count x (held o)) free,
        count-append x (sock ∷ []) bound,
      )

  legacy_control-Adds :
      (x : ℕ) (control : Bool) (c : Bind) (timing : Bool) (t : Bind) (bound : List ℕ)
      (ports : StreamPorts) (s : StreamSession P)
      → s.ctrl_sock ≡ none
      → s.timing_sock ≡ none
      → Adds x bound s (legacy_control control c timing t bound ports s)
  legacy_control-Adds x false c timing t bound ports s no_ctrl free =
      legacy_timing-Adds x timing t bound ports s free
  legacy_control-Adds x true none timing t bound ports s no_ctrl free =
      omega (arith, give_up-Balanced x bound ports s)
  legacy_control-Adds x true (some (sock, port)) timing t bound ports s no_ctrl free =
      let s' = record s { ctrl_sock = some sock } in
      omega (
        arith,
        legacy_timing-Adds x timing t (sock ∷ bound) (record ports { control = port }) s' free,
        count-owned x s,
        count-owned x s',
        ap (λ o. count x (held o)) no_ctrl,
        count-append x (sock ∷ []) bound,
      )

  legacy_data-Balanced :
      (d c t : Bind) (s : StreamSession P)
      → s.data_sock ≡ none
      → s.ctrl_sock ≡ none
      → s.timing_sock ≡ none
      → Balanced s (legacy_data d c t s)
  legacy_data-Balanced none c t s no_data no_ctrl free x = refl
  legacy_data-Balanced (some (sock, port)) c t s no_data no_ctrl free x =
      let s' = record s { data_sock = some sock } in
      omega (
        arith,
        legacy_control-Adds x (not (s.client_ports.control == 0)) c
            (not (s.client_ports.timing == 0)) t (sock ∷ []) (record no_ports { server = port }) s'
            no_ctrl free,
        count-owned x s,
        count-owned x s',
        ap (λ o. count x (held o)) no_data,
      )

  pub setup_legacy-Balanced :
      (transport : Bytes) (d c t : Bind) (s : StreamSession P)
      → s.data_sock ≡ none
      → s.ctrl_sock ≡ none
      → s.timing_sock ≡ none
      → Balanced s (setup_legacy transport d c t s)
  unfolding setup_legacy teardown
  setup_legacy-Balanced transport d c t s no_data no_ctrl free x =
      let asked : StreamPorts = record {
        server = pick_port transport (codes "server_port");
        control = pick_port transport (codes "control_port");
        timing = pick_port transport (codes "timing_port");
      } in
      legacy_data-Balanced d c t (record s { client_ports = asked }) no_data no_ctrl free x

  pub suspend-sockets :
      (x : ℕ) (kept : Option P) (s : StreamSession P) (a : Option (Receiver P))
      → s.audio ≡ a
      → count x (owned (suspend kept s a)) + count x (receiver_sockets a) ≡ count x (owned s)
  suspend-sockets x kept s none has = omega arith
  suspend-sockets x kept s (some a) has =
      let s' = suspend kept s (some a) in
      omega (arith, count-owned x s, count-owned x s', ap (λ o. count x (receiver_sockets o)) has)
