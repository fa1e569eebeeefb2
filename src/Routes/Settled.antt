-- ===== src/Routes/Settled.antt =====
-- The sockets of a control connection, over all its requests.
use air_play_windows.Routes.Device.{StreamRequest, SetupRequest}
use air_play_windows.Base.{
  ◌==◌, Bool-cases, Option-cases, Bytes, is_empty, ℕ, ◌+◌, ◌≡◌, refl, inl, inr, true, not, ◌&&◌,
  Option, none, some, List, [], ◌∷◌, arith,
}
use air_play_windows.Routes.Connection.{
  Fresh, Connection, Handled, chain, with_ntp, setup_keys, setup_streams, setup_both, stop_streams,
}
use air_play_windows.Streams.{StreamSession, Done, teardown, setup_session}
use air_play_windows.Streams.Setup.{setup_stream}
use air_play_windows.Streams.Stop.{stop_stream, start_ntp}
use air_play_windows.Streams.Sockets.{count, count-append, owned}
use air_play_windows.Streams.Balance.{Balanced, setup_session-Balanced, setup_stream-Balanced}
use air_play_windows.Streams.Stopped.{stop_stream-Balanced}

module _ {P : Type 0} where
  -- What the streams of a connection hold.
  abbrev pub holds : Option (Bytes × StreamSession P) → List ℕ
  holds none = []
  holds (some (id, s)) = owned s

  abbrev pub Settled : Connection P → Handled P → Type 0
  Settled c h =
      (x : ℕ)
      → count x h.bound + count x (holds c.streams)
        ≡ count x h.closed + count x (holds h.connection.streams)

  chain-Balanced :
      (s : StreamSession P) (d e : Done P)
      → Balanced s d
      → Balanced d.session e
      → Balanced s (chain d e)
  chain-Balanced s d e first then_second x = omega (
    arith,
    first x,
    then_second x,
    count-append x d.bound e.bound,
    count-append x d.closed e.closed,
  )

  pub count-start_ntp :
      (x : ℕ) (s : StreamSession P) → count x (owned (start_ntp s)) ≡ count x (owned s)
  unfolding start_ntp teardown
  count-start_ntp x s = elim (Option-cases s.ap2_timing_sock) [
    | inl no_socket ↦ rw no_socket refl
    | inr (sock, has_socket) ↦ rw has_socket refl
  ]

  with_ntp-Balanced :
      (req : SetupRequest) (ip : Bytes) (s : StreamSession P) (d : Done P)
      → Balanced s d
      → Balanced s (with_ntp req ip d)
  with_ntp-Balanced req ip s d settled x =
      elim (Bool-cases (d.ok && (not (req.timing_rport == 0) && not (is_empty ip)))) [
        | inl starts ↦ rw starts (omega (arith, settled x, count-start_ntp x d.session))
        | inr stays ↦ rw stays (settled x)
      ]

  -- A session's sockets are free.
  abbrev pub NoPorts : StreamSession P → Type 0
  NoPorts s = (s.event_sock ≡ none) × (s.ap2_timing_sock ≡ none)

  abbrev pub NoLegacy : StreamSession P → Type 0
  NoLegacy s = (s.data_sock ≡ none) × (s.ctrl_sock ≡ none) × (s.timing_sock ≡ none)

  setup_keys-Balanced :
      (req : SetupRequest) (ip : Bytes) (fresh : Fresh) (s : StreamSession P)
      → (req.has_keys ≡ true → NoPorts s)
      → Balanced s (setup_keys req ip fresh s)
  unfolding setup_keys
  setup_keys-Balanced req ip fresh s free = elim (Bool-cases req.has_keys) [
    | inr without ↦ rw without (λ x. refl)
    | inl keys ↦ rw keys (elim (Bool-cases req.is_remote_control_only) [
      | inl remote ↦ rw remote (λ x. refl)
      | inr full ↦ rw full (
          let (no_event, no_timing) = free keys in
          with_ntp-Balanced req ip s (setup_session fresh.first fresh.second s)
            (setup_session-Balanced fresh.first fresh.second s no_event no_timing))
    ])
  ]

  pub setup_streams-Balanced :
      (qs : List StreamRequest) (s : StreamSession P) → Balanced s (setup_streams qs s)
  unfolding setup_streams
  setup_streams-Balanced [] s = λ x. refl
  setup_streams-Balanced (q ∷ qs) s =
      let d = setup_stream q.type q.mirror_port 44_100 q.starts q.data_bind q.control_bind s in
      let one =
        setup_stream-Balanced q.type q.mirror_port 44_100 q.starts q.data_bind q.control_bind s in
      elim (Bool-cases d.ok) [
        | inl ok ↦ rw ok (
            chain-Balanced s d (setup_streams qs d.session) one
              (setup_streams-Balanced qs d.session))
        | inr failed ↦ rw failed one
      ]

  pub setup_both-Balanced :
      (req : SetupRequest) (ip : Bytes) (fresh : Fresh) (s : StreamSession P)
      → (req.has_keys ≡ true → NoPorts s)
      → Balanced s (setup_both req ip fresh s)
  unfolding setup_both
  setup_both-Balanced req ip fresh s free =
      let d = setup_keys req ip fresh s in
      let one = setup_keys-Balanced req ip fresh s free in
      elim (Bool-cases (d.ok && req.has_streams)) [
        | inl both ↦ rw both (
            chain-Balanced s d (setup_streams req.streams d.session) one
              (setup_streams-Balanced req.streams d.session))
        | inr keys_only ↦ rw keys_only one
      ]

  pub stop_streams-Balanced :
      (stops : List (ℕ × Option P)) (s : StreamSession P) → Balanced s (stop_streams stops s)
  unfolding stop_streams
  stop_streams-Balanced [] s = λ x. refl
  stop_streams-Balanced ((type, kept) ∷ stops) s =
      let d = stop_stream type kept s in
      chain-Balanced s d (stop_streams stops d.session) (stop_stream-Balanced type kept s)
        (stop_streams-Balanced stops d.session)
