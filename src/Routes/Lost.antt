-- ===== src/Routes/Lost.antt =====
-- A second SETUP with keys on one connection, which overwrites the sockets of the first.
use air_play_windows.Routes.Device.{SetupRequest}
use air_play_windows.Routes.Life.{
  Event, setting_up, handle, handle_client, AllReady, handle_client-holds,
}
use air_play_windows.Base.{
  ◌==◌, Bool-cases, Bytes, is_empty, ℕ, ◌+◌, ◌≡◌, inl, inr, true, false, not, ◌&&◌, some, List, [],
  ◌∷◌, ◌++◌, arith,
}
use air_play_windows.Routes.Connection.{
  Fresh, Connection, with_ntp, setup_keys, setup_streams, setup_both, setup_airplay2_path,
  handle_setup,
}
use air_play_windows.Routes.Settled.{holds, count-start_ntp, setup_streams-Balanced}
use air_play_windows.Streams.{StreamSession, Done, held, setup_session}
use air_play_windows.Streams.Sockets.{count, count-append, owned, count-owned}

module _ {P : Type 0} where
  -- The sockets that a SETUP with keys overwrites.
  abbrev pub session_sockets : StreamSession P → List ℕ
  session_sockets s = held s.event_sock ++ held s.ap2_timing_sock

  abbrev LosesBut : List ℕ → StreamSession P → Done P → Type 0
  LosesBut lost s d =
      (x : ℕ)
      → count x d.bound + count x (owned s)
        ≡ count x d.closed + count x (owned d.session) + count x lost

  setup_session-loses :
      (e t : ℕ × ℕ) (s : StreamSession P)
      → LosesBut (session_sockets s) s (setup_session (some e) (some t) s)
  unfolding setup_session
  setup_session-loses (e, e_port) (t, t_port) s x =
      let s' = record s { event_sock = some e; ap2_timing_sock = some t } in
      omega (
        arith,
        count-owned x s,
        count-owned x s',
        count-append x (e ∷ []) (t ∷ []),
        count-append x (held s.event_sock) (held s.ap2_timing_sock),
      )

  with_ntp-loses :
      (req : SetupRequest) (ip : Bytes) (lost : List ℕ) (s : StreamSession P) (d : Done P)
      → LosesBut lost s d
      → LosesBut lost s (with_ntp req ip d)
  with_ntp-loses req ip lost s d loses x =
      elim (Bool-cases (d.ok && (not (req.timing_rport == 0) && not (is_empty ip)))) [
        | inl starts ↦ rw starts (omega (arith, loses x, count-start_ntp x d.session))
        | inr stays ↦ rw stays (loses x)
      ]

  setup_keys-loses :
      (req : SetupRequest) (ip : Bytes) (fresh : Fresh) (e t : ℕ × ℕ) (s : StreamSession P)
      → req.has_keys ≡ true
      → req.is_remote_control_only ≡ false
      → fresh.first ≡ some e
      → fresh.second ≡ some t
      → LosesBut (session_sockets s) s (setup_keys req ip fresh s)
  unfolding setup_keys
  setup_keys-loses req ip fresh e t s keys full first second = rw keys (
      rw full (
        rw first (
          rw second (
            with_ntp-loses req ip (session_sockets s) s (setup_session (some e) (some t) s)
              (setup_session-loses e t s)))))

  setup_both-loses :
      (req : SetupRequest) (ip : Bytes) (fresh : Fresh) (e t : ℕ × ℕ) (s : StreamSession P)
      → req.has_keys ≡ true
      → req.is_remote_control_only ≡ false
      → fresh.first ≡ some e
      → fresh.second ≡ some t
      → LosesBut (session_sockets s) s (setup_both req ip fresh s)
  unfolding setup_both
  setup_both-loses req ip fresh e t s keys full first second x =
      let d = setup_keys req ip fresh s in
      let rest = setup_streams req.streams d.session in
      let one = setup_keys-loses req ip fresh e t s keys full first second x in
      elim (Bool-cases (d.ok && req.has_streams)) [
        | inl both ↦ rw both (
            omega (
              arith,
              one,
              setup_streams-Balanced req.streams d.session x,
              count-append x d.bound rest.bound,
              count-append x d.closed rest.closed,
            ))
        | inr keys_only ↦ rw keys_only one
      ]

  setup-loses :
      (body : Bytes) (req : SetupRequest) (header : Bytes) (fresh : Fresh) (e t : ℕ × ℕ)
      (id : Bytes) (s : StreamSession P) (c : Connection P) (x : ℕ)
      → c.streams ≡ some (id, s)
      → is_empty body ≡ false
      → req.has_keys ≡ true
      → req.is_remote_control_only ≡ false
      → fresh.first ≡ some e
      → fresh.second ≡ some t
      → let h = handle_setup body (some req) header fresh c in
        count x h.bound + count x (owned s)
        ≡ count x h.closed + count x (holds h.connection.streams) + count x (session_sockets s)
  unfolding handle_setup setup_airplay2_path
  setup-loses body req header fresh e t id s c x here airplay2 keys full first second =
      rw airplay2 (rw here (setup_both-loses req c.remote_ip fresh e t s keys full first second x))

  -- When a connection that has streams handles a SETUP with keys whose two binds succeed, the event
  -- and timing sockets that it held before are never closed, whatever requests follow that find the
  -- session's own sockets free, and although the connection ends: of the sockets that it held or
  -- bound, exactly these are missing among those that it closes.
  pub handle_client-loses :
      (body : Bytes) (req : SetupRequest) (header : Bytes) (fresh : Fresh) (e t : ℕ × ℕ)
      (id : Bytes) (s : StreamSession P) (c : Connection P) (es : List (Event P)) (x : ℕ)
      → c.streams ≡ some (id, s)
      → is_empty body ≡ false
      → req.has_keys ≡ true
      → req.is_remote_control_only ≡ false
      → fresh.first ≡ some e
      → fresh.second ≡ some t
      → AllReady es (handle_setup body (some req) header fresh c).connection
      → let (c', (bound, closed)) =
          handle_client (setting_up body (some req) header fresh ∷ es) c in
        count x bound + count x (owned s)
        ≡ count x closed + (count x (held s.event_sock) + count x (held s.ap2_timing_sock))
  unfolding handle_client handle
  handle_client-loses body req header fresh e t id s c es x here airplay2 keys full first second
        ready =
      let h = handle_setup body (some req) header fresh c in
      let rest = handle_client es h.connection in
      omega (
        arith,
        setup-loses body req header fresh e t id s c x here airplay2 keys full first second,
        handle_client-holds es h.connection x ready,
        count-append x h.bound rest.1.0,
        count-append x h.closed rest.1.1,
        count-append x (held s.event_sock) (held s.ap2_timing_sock),
      )
