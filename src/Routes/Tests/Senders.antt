-- ===== src/Routes/Tests/Senders.antt =====
-- A connection with audio, a second sender, a SETUP that is sent twice, and a video that was played.
use air_play_windows.Routes.Remains.{played, hang_up-played_refuses}
use air_play_windows.Base.{
  codes, equal, is_empty, ℕ, ◌+◌, ◌≡◌, refl, true, false, not, ◌&&◌, none, some, List, [], ◌∷◌,
}
use air_play_windows.Routes.Connection.{
  Fresh, Connection, reply, setup_keys, setup_streams, setup_both, setup_airplay2_path,
  handle_setup, handle_record, stop_streams, handle_teardown, hang_up,
}
use air_play_windows.Routes.Device.{
  no_device, StreamRequest, SetupRequest, is_paired, asks_for, device_kind,
}
use air_play_windows.Routes.Guard.{Turn, by_owner, by_other, take_turns, take_turns-refused}
use air_play_windows.Routes.Life.{
  Event, setting_up, recording, tearing_down, handle, handle_client, AllReady, handle_client-closes,
}
use air_play_windows.Routes.Lost.{handle_client-loses}
use air_play_windows.Routes.Owner.{Shows}
use air_play_windows.Streams.Setup.{setup_stream}
use air_play_windows.Streams.Stop.{start_ntp}
use air_play_windows.Streams.Sockets.{count}
use air_play_windows.Streams.{new_session as new_streams, teardown, setup_session}

abbrev idle : Connection ℕ
idle = record {
  remote_ip = codes "10.0.0.2";
  streams = none;
  renderer = some none;
  registry = record { sessions = []; active_session_id = [] };
}

abbrev keys : SetupRequest
keys = record {
  has_keys = true;
  is_remote_control_only = false;
  timing_rport = 6001;
  name = codes "phone";
  model = [];
  has_streams = false;
  streams = [];
}

abbrev audio_stream : StreamRequest
audio_stream = record {
  type = 96;
  mirror_port = none;
  starts = true;
  data_bind = some (3, 5003);
  control_bind = some (4, 5004);
}

abbrev audio : SetupRequest
audio = record keys { has_keys = false; has_streams = true; streams = audio_stream ∷ [] }

abbrev binds : Fresh
binds = record { id = codes "id"; first = some (1, 5001); second = some (2, 5002); third = none }

abbrev requests : List (Event ℕ)
requests =
    setting_up (codes "b") (some keys) [] binds
    ∷ (setting_up (codes "b") (some audio) [] binds
        ∷ (recording ∷ (tearing_down [] ((96, some 9) ∷ []) ∷ (tearing_down [] [] ∷ []))))

requests_ready : AllReady requests idle
unfolding handle handle_setup setup_airplay2_path is_paired setup_both setup_keys setup_session
    start_ntp setup_streams setup_stream handle_record handle_teardown stop_streams
requests_ready = ((tt, (refl, refl)), ((tt, tt), (tt, (tt, (tt, tt)))))

handle_client-closes_example :
    let (c', (bound, closed)) = handle_client requests idle in count 3 bound ≡ count 3 closed
handle_client-closes_example = handle_client-closes requests idle 3 refl requests_ready

abbrev phone : Connection ℕ
phone = record idle {
  renderer = some (some (record no_device { peer_ip = codes "10.0.0.2"; name = codes "phone" }));
}

abbrev tablet : Connection ℕ
tablet = record phone { remote_ip = codes "10.0.0.3" }

abbrev turns : List (Turn ℕ)
turns =
    by_owner (setting_up (codes "b") (some keys) [] binds)
    ∷ (by_other (setting_up (codes "b") (some audio) [] binds)
        ∷ (by_owner (setting_up (codes "b") (some audio) [] binds)
            ∷ (by_other (tearing_down [] []) ∷ [])))

other_address :
    (not (is_empty phone.remote_ip) && not (equal phone.remote_ip tablet.remote_ip)) ≡ true
unfolding equal
other_address = refl

take_turns-refused_example :
    let (a', b') = take_turns turns (phone, tablet) in
    (b'.streams ≡ none)
    × Shows (codes "10.0.0.2") b'.renderer
    × (handle_setup (codes "b") (some keys) [] binds b' ≡ reply 503 b')
take_turns-refused_example =
    take_turns-refused turns phone tablet (codes "b") keys [] binds
      (record no_device { peer_ip = codes "10.0.0.2"; name = codes "phone" }, refl, refl) refl refl
      other_address (refl, (refl, (refl, (refl, tt)))) refl

-- A SETUP that fails leaves streams, and the next one is taken while another sender is shown.
abbrev unbound : Fresh
unbound = record binds { first = none }

passed_test :
    let failed = handle_setup (codes "b") (some keys) [] unbound idle in
    let again = record failed.connection {
      renderer = tablet.renderer;
      remote_ip = codes "10.0.0.3";
    } in
    (failed.status ≡ 500) × ((handle_setup (codes "b") (some audio) [] binds again).status ≡ 200)
unfolding handle_setup setup_airplay2_path is_paired setup_both setup_keys setup_session start_ntp
    setup_streams setup_stream device_kind asks_for
passed_test = (refl, refl)

abbrev again : Connection ℕ
again = record idle {
  streams =
      some (codes "id", record new_streams { event_sock = some 11; ap2_timing_sock = some 12 });
}

abbrev ending : List (Event ℕ)
ending = tearing_down [] [] ∷ []

handle_client-loses_example :
    let (c', (bound, closed)) =
      handle_client (setting_up (codes "b") (some keys) [] binds ∷ ending) again in
    count 11 bound + 1 ≡ count 11 closed + 1
unfolding teardown
handle_client-loses_example =
    handle_client-loses (codes "b") keys [] binds (1, 5001) (2, 5002) (codes "id")
      (record new_streams { event_sock = some 11; ap2_timing_sock = some 12 }) again ending 11 refl
      refl refl refl refl refl (tt, tt)

abbrev player : Connection ℕ
player = record idle { streams = some (codes "id", new_streams) }

hang_up-played_refuses_example :
    let b : Connection ℕ = record tablet {
      renderer = (hang_up (played (codes "video") player)).0.renderer;
    } in
    handle_setup (codes "b") (some keys) [] binds b ≡ reply 503 b
unfolding equal
hang_up-played_refuses_example =
    hang_up-played_refuses (codes "video") none player
      (record tablet { renderer = (hang_up (played (codes "video") player)).0.renderer })
      (codes "b") keys [] binds refl refl refl refl refl refl
