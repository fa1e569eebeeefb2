-- ===== src/Streams/Runs.antt =====
-- The life of a connection's streams, from the first SETUP to the last teardown.
use air_play_windows.Streams.Setup.{setup_stream}
use air_play_windows.Base.{
  Bool-cases, Bytes, equal, is_empty, ℕ, ◌+◌, ◌≡◌, refl, ap, inl, inr, Bool, true, not, ◌&&◌,
  Option, none, some, List, [], ◌∷◌, ◌++◌, arith,
}
use air_play_windows.Streams.Balance.{Balanced, setup_session-Balanced, setup_stream-Balanced}
use air_play_windows.Streams.Legacy.{count-torn_down, setup_legacy-Balanced}
use air_play_windows.Streams.Sockets.{count, count-append, owned, count-owned}
use air_play_windows.Streams.Stop.{stop_stream, discard_pause, set_audio_track}
use air_play_windows.Streams.Stopped.{stop_stream-Balanced}
use air_play_windows.Streams.{
  no_ports, Receiver, StreamSession, new_session, Done, Bind, receiver_sockets, teardown,
  setup_legacy, setup_session,
}

-- An operation with what it meets: the results of its binds and starts, and what a suspended
-- receiver puts aside.
pub data Op (P : Type 0) : Type 0 where
  legacy : Bytes → Bind → Bind → Bind → Op P
  session_ports : Bind → Bind → Op P
  stream : ℕ → Option ℕ → ℕ → Bool → Bind → Bind → Op P
  stop : ℕ → Option P → Op P
  change_track : Bytes → Op P
  end : Op P

module _ {P : Type 0} where
  abbrev quiet : StreamSession P → List ℕ → Done P
  quiet s closed = record { session = s; ports = no_ports; bound = []; closed = closed; ok = true }

  unfoldable pub step : Op P → StreamSession P → Done P
  step (legacy transport d c t) s = setup_legacy transport d c t s
  step (session_ports e t) s = setup_session e t s
  step (stream type mirror_port rate starts d c) s = setup_stream type mirror_port rate starts d c s
  step (stop type kept) s = stop_stream type kept s
  step (change_track name) s = quiet (set_audio_track name s) []
  step end s = quiet (teardown s).0 (teardown s).1

  -- The session and the sockets that were bound and closed.
  unfoldable pub run : List (Op P) → StreamSession P → StreamSession P × (List ℕ × List ℕ)
  run [] s = (s, ([], []))
  run (op ∷ ops) s =
      let d = step op s in
      let (s', (bound, closed)) = run ops d.session in (s', (d.bound ++ bound, d.closed ++ closed))

  -- A SETUP that binds a session's sockets finds none there.
  abbrev pub Ready : Op P → StreamSession P → Type 0
  Ready (legacy transport d c t) s =
      (s.data_sock ≡ none) × (s.ctrl_sock ≡ none) × (s.timing_sock ≡ none)
  Ready (session_ports e t) s = (s.event_sock ≡ none) × (s.ap2_timing_sock ≡ none)
  Ready _ s = Unit

  abbrev pub AllReady : List (Op P) → StreamSession P → Type 0
  AllReady [] s = Unit
  AllReady (op ∷ ops) s = Ready op s × AllReady ops (step op s).session

  receiver_sockets-discard_pause :
      (a : Option (Receiver P)) → receiver_sockets (discard_pause a) ≡ receiver_sockets a
  receiver_sockets-discard_pause none = refl
  receiver_sockets-discard_pause (some a) = refl

  track-sockets :
      (x : ℕ) (name : Bytes) (s : StreamSession P)
      → count x (owned s) ≡ count x (owned (set_audio_track name s))
  unfolding set_audio_track
  track-sockets x name s =
      let b = not (is_empty s.audio_track) && not (equal name s.audio_track) in
      elim (Bool-cases b) [
        | inl other ↦
            let s' = record s {
              paused_audio = none;
              audio = discard_pause s.audio;
              audio_track = name;
            } in
            rw other (
              omega (
                arith,
                count-owned x s,
                count-owned x s',
                ap (count x) (receiver_sockets-discard_pause s.audio),
              ))
        | inr same ↦
            rw same
              (omega (arith, count-owned x s, count-owned x (record s { audio_track = name })))
      ]

  step-Balanced : (op : Op P) (s : StreamSession P) → Ready op s → Balanced s (step op s)
  unfolding step
  step-Balanced (legacy transport d c t) s (no_data, no_ctrl, no_timing) =
      setup_legacy-Balanced transport d c t s no_data no_ctrl no_timing
  step-Balanced (session_ports e t) s (no_event, no_timing) =
      setup_session-Balanced e t s no_event no_timing
  step-Balanced (stream type mirror_port rate starts d c) s ready =
      setup_stream-Balanced type mirror_port rate starts d c s
  step-Balanced (stop type kept) s ready = stop_stream-Balanced type kept s
  step-Balanced (change_track name) s ready = λ x. omega (arith, track-sockets x name s)
  step-Balanced end s ready = λ x. omega (arith, count-torn_down x s)

  run-Balanced :
      (ops : List (Op P)) (s : StreamSession P) (x : ℕ)
      → AllReady ops s
      → count x (run ops s).1.0 + count x (owned s)
        ≡ count x (run ops s).1.1 + count x (owned (run ops s).0)
  unfolding run
  run-Balanced [] s x ready = refl
  run-Balanced (op ∷ ops) s x (now, later) =
      let d = step op s in
      let rest = run ops d.session in
      omega (
        arith,
        step-Balanced op s now x,
        run-Balanced ops d.session x later,
        count-append x d.bound rest.1.0,
        count-append x d.closed rest.1.1,
      )

  -- On a connection whose legacy and session SETUPs each find the sockets free that they bind, every
  -- socket that any sequence of operations binds, failed ones included, has been closed exactly as
  -- often as it was bound when the last operation has been a teardown.
  pub run-closes :
      (ops : List (Op P)) (x : ℕ)
      → AllReady ops (new_session {P = P})
      → let (s, (bound, closed)) = run ops (new_session {P = P}) in
        count x bound ≡ count x (closed ++ (teardown s).1)
  run-closes ops x ready =
      let r = run ops (new_session {P = P}) in
      let nothing : count x (owned (new_session {P = P})) ≡ 0 = unfold teardown in refl in
      omega (arith, run-Balanced ops new_session x ready, count-append x r.1.1 (owned r.0), nothing)
