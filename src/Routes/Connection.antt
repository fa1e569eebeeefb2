-- ===== src/Routes/Connection.antt =====
-- src/airplay/routes.cpp, server.cpp and src/video/video_renderer.cpp: the SETUP, RECORD and
-- TEARDOWN of one control connection and its end, over the streams it owns and the device that the
-- renderer shows. A request comes with the results of the binds and starts that it meets. The
-- stream keys, the SDP, the player and the texts of the replies are left out.
use air_play_windows.Routes.Device.{
  Device, StreamRequest, SetupRequest, is_paired, show_device, clear_active_device,
  clear_session_if_active,
}
use air_play_windows.Streams.{
  no_ports, StreamSession, new_session, Done, Bind, teardown, setup_legacy, setup_session,
}
use air_play_windows.Streams.Setup.{setup_stream}
use air_play_windows.Streams.Stop.{stop_stream, start_ntp}
use air_play_windows.Hls.{Registry, set_active_session}
use air_play_windows.Base.{
  ◌==◌, if◌then◌else◌, Bytes, is_empty, ℕ, Bool, true, false, not, ◌&&◌, Option, none, some, List,
  [], ◌∷◌, ◌++◌,
}

-- The identifier that a new `StreamSession` draws, and the binds of the sockets of the session.
pub record Fresh : Type 0 where
  pub id : Bytes
  pub first : Bind
  pub second : Bind
  pub third : Bind

-- `ClientSession`, with the renderer and the registry that all connections share. The streams
-- stand behind their identifier.
pub record Connection (P : Type 0) : Type 0 where
  pub remote_ip : Bytes
  pub streams : Option (Bytes × StreamSession P)
  pub renderer : Option Device
  pub registry : Registry

-- The status of the reply, and what the request leaves.
pub record Handled (P : Type 0) : Type 0 where
  pub status : ℕ
  pub connection : Connection P
  pub bound : List ℕ
  pub closed : List ℕ

module _ {P : Type 0} where
  abbrev pub reply : ℕ → Connection P → Handled P
  reply status c = record { status = status; connection = c; bound = []; closed = [] }

  abbrev pub streams_of : Bytes → Option (Bytes × StreamSession P) → Bytes × StreamSession P
  streams_of id none = (id, new_session)
  streams_of id (some old) = old

  -- What two calls do one after the other.
  abbrev pub chain : Done P → Done P → Done P
  chain d e = record e { bound = d.bound ++ e.bound; closed = d.closed ++ e.closed }

  abbrev pub skip : Bool → StreamSession P → Done P
  skip ok s = record { session = s; ports = no_ports; bound = []; closed = []; ok = ok }

  abbrev pub with_ntp : SetupRequest → Bytes → Done P → Done P
  with_ntp req ip d =
      if d.ok && (not (req.timing_rport == 0) && not (is_empty ip))
      then record d { session = start_ntp d.session }
      else d

  unfoldable pub setup_keys : SetupRequest → Bytes → Fresh → StreamSession P → Done P
  setup_keys req ip fresh s =
      if not req.has_keys
      then skip true s
      else if req.is_remote_control_only
      then skip false s
      else with_ntp req ip (setup_session fresh.first fresh.second s)

  -- The loop over the streams of a request, up to the first that fails.
  unfoldable pub setup_streams : List StreamRequest → StreamSession P → Done P
  setup_streams [] s = skip true s
  setup_streams (q ∷ qs) s =
      let d = setup_stream q.type q.mirror_port 44_100 q.starts q.data_bind q.control_bind s in
      let rest = setup_streams qs d.session in if d.ok then chain d rest else d

  unfoldable pub setup_both : SetupRequest → Bytes → Fresh → StreamSession P → Done P
  setup_both req ip fresh s =
      let d = setup_keys req ip fresh s in
      let rest = setup_streams req.streams d.session in
      if d.ok && req.has_streams then chain d rest else d

  -- The reply to a SETUP whose streams are behind `id`.
  abbrev pub answer : Bytes → Option Device → Connection P → Done P → Handled P
  answer id shown c d = record {
    status = if d.ok then 200 else 500;
    connection = record c {
      streams = some (id, d.session);
      renderer = if d.ok then shown else c.renderer;
    };
    bound = d.bound;
    closed = d.closed;
  }

  abbrev has_none : Option (Bytes × StreamSession P) → Bool
  has_none none = true
  has_none (some s) = false

  -- The guard for a single device.
  abbrev pub is_refused : Connection P → Bool
  is_refused c = has_none c.streams && is_paired c.remote_ip c.renderer

  -- `setup_airplay2_path` on what `parse_airplay2_setup` reads.
  unfoldable pub setup_airplay2_path : Option SetupRequest → Fresh → Connection P → Handled P
  setup_airplay2_path none fresh c = reply 400 c
  setup_airplay2_path (some req) fresh c =
      let (id, s) = streams_of fresh.id c.streams in
      if is_refused c
      then reply 503 c
      else answer id (show_device req c.remote_ip id c.renderer) c
          (setup_both req c.remote_ip fresh s)

  unfoldable pub setup_legacy_path : Bytes → Fresh → Connection P → Handled P
  setup_legacy_path transport fresh c =
      let (id, s) = streams_of fresh.id c.streams in
      answer id c.renderer c (setup_legacy transport fresh.first fresh.second fresh.third s)

  unfoldable pub handle_setup :
      Bytes → Option SetupRequest → Bytes → Fresh → Connection P → Handled P
  handle_setup body parsed transport fresh c =
      if not (is_empty body)
      then setup_airplay2_path parsed fresh c
      else if is_empty transport
      then reply 400 c
      else setup_legacy_path transport fresh c

  unfoldable pub handle_record : Connection P → Handled P
  handle_record c = reply (if has_none c.streams then 455 else 200) c

  abbrev pub forget_active : Bytes → Connection P → Connection P
  forget_active sid c = record c {
    registry = if is_empty sid then c.registry else set_active_session [] c.registry;
  }

  -- The `stop_stream` of each type, with what a receiver that it suspends puts aside.
  unfoldable pub stop_streams : List (ℕ × Option P) → StreamSession P → Done P
  stop_streams [] s = skip true s
  stop_streams ((type, kept) ∷ stops) s =
      let d = stop_stream type kept s in chain d (stop_streams stops d.session)

  -- `handle_teardown`; `stops` are the types that the body names.
  unfoldable pub handle_teardown : Bytes → List (ℕ × Option P) → Connection P → Handled P
  handle_teardown sid stops c = elim c.streams [
    | none ↦ reply 200 (forget_active sid c)
    | some (id, s) ↦ elim stops [
      | [] ↦ record {
        status = 200;
        connection =
            forget_active sid
              (record c { streams = none; renderer = clear_active_device c.renderer });
        bound = [];
        closed = (teardown s).1;
      }
      | stop ∷ more ↦ answer id c.renderer c (stop_streams (stop ∷ more) s)
    ]
  ]

  -- The end of `handle_client`.
  unfoldable pub hang_up : Connection P → Connection P × List ℕ
  hang_up c = elim c.streams [
    | none ↦ (c, [])
    | some (id, s) ↦ (
      record c {
        streams = none;
        renderer = if is_empty id then c.renderer else clear_session_if_active id c.renderer;
      },
      (teardown s).1,
    )
  ]
