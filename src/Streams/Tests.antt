-- ===== src/Streams/Tests.antt =====
-- A connection with a mirror and audio that is paused, and a second audio stream that does not start.
use air_play_windows.Streams.Setup.{setup_stream}
use air_play_windows.Base.{
  ◌==◌, if◌then◌else◌, codes, strip_prefix, split_at, ℕ, ◌≡◌, refl, true, not, ◌&&◌, none, some, [],
  ◌∷◌,
}
use air_play_windows.Streams.Pause.{is_other_track, setup_stream-stop_stream}
use air_play_windows.Streams.Runs.{session_ports, step, run}
use air_play_windows.Streams.Sockets.{count}
use air_play_windows.Streams.Stop.{stop_stream, set_audio_track}
use air_play_windows.Streams.{
  pick_port, Receiver, StreamSession, new_session, teardown, setup_session,
}

abbrev old_receiver : Receiver ℕ
old_receiver = record {
  data_sock = 3;
  sample_rate = 44100;
  has_ntp = true;
  synchronize = true;
  pause = none;
}

abbrev playing : StreamSession ℕ
playing = record (new_session {P = ℕ}) {
  audio = some old_receiver;
  ntp = true;
  audio_track = codes "a";
}

setup_stream-stop_stream_example :
    (setup_stream 96 none 44100 true
      (some (5, 6005))
      (some (6, 6006))
      (set_audio_track (codes "a") (stop_stream 96 (some 9) playing).session)).session.audio
    ≡ some (record {
      data_sock = 5;
      sample_rate = 44100;
      has_ntp = playing.ntp;
      synchronize = not playing.mirror && playing.ntp;
      pause =
          if not (is_other_track (codes "a") playing)
            && old_receiver.synchronize
            && not playing.mirror
            && (old_receiver.sample_rate == 44100)
          then some 9
          else none;
    })
setup_stream-stop_stream_example =
    setup_stream-stop_stream (some 9) (codes "a") 44100 5 6005 6 6006 old_receiver playing refl

-- The first pair of a session that is set up twice is not closed.
lost_test :
    count 1
      (teardown
        (run
          (session_ports (some (1, 1)) (some (2, 2))
            ∷ (session_ports (some (3, 3)) (some (4, 4)) ∷ []))
          (new_session {P = ℕ})).0).1
    ≡ 0
unfolding run step setup_session teardown
lost_test = refl

transport_port :
    pick_port (codes "RTP/AVP/UDP;unicast;control_port=6001;timing_port=6002") (codes "timing_port")
    ≡ 6002
unfolding pick_port split_at strip_prefix
transport_port = refl
