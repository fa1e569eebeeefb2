-- ===== src/Streams/Setup.antt =====
-- `setup_stream`, which binds the sockets of a stream and starts its receiver.
use air_play_windows.Base.{
  ◌==◌, if◌then◌else◌, ℕ, Bool, true, false, not, ◌&&◌, Option, none, some, [], ◌∷◌, ◌++◌,
}
use air_play_windows.Streams.{
  StreamPorts, no_ports, PauseState, Receiver, StreamSession, Done, Bind, stream_channel,
  receiver_sockets, synchronized,
}

module _ {P : Type 0} where
  -- `setup_stream` for the mirror, with the port that the listener gets.
  abbrev pub setup_mirror : Option ℕ → StreamSession P → Done P
  setup_mirror none s = record {
    session = record s { mirror = false };
    ports = no_ports;
    bound = [];
    closed = [];
    ok = false;
  }
  setup_mirror (some port) s = record {
    session = record s {
      mirror = true;
      audio = synchronized false s.audio;
      channels =
          s.channels ++ (stream_channel 110 none none (record no_ports { server = port }) ∷ []);
    };
    ports = record no_ports { server = port };
    bound = [];
    closed = [];
    ok = true;
  }

  -- What a receiver that starts takes over: it has to be synchronized and of the same sample rate.
  abbrev pub take_pause : Bool → ℕ → Option (PauseState P) → Option P
  take_pause synchronize rate none = none
  take_pause synchronize rate (some p) =
      if synchronize && p.sample_rate == rate then some p.saved else none

  -- `AudioReceiver::start`, where it succeeds.
  abbrev pub start_receiver : ℕ → ℕ → StreamSession P → Receiver P
  start_receiver rate d s = record {
    data_sock = d;
    sample_rate = rate;
    has_ntp = s.ntp;
    synchronize = not s.mirror && s.ntp;
    pause = take_pause (not s.mirror) rate s.paused_audio;
  }

  -- The receiver is replaced, and a new one that does not start gives its socket back.
  abbrev pub setup_audio : ℕ → Bool → ℕ → ℕ → StreamPorts → StreamSession P → Done P
  setup_audio rate starts d c ports s = record {
    session = record s {
      audio = if starts then some (start_receiver rate d s) else none;
      paused_audio = none;
      channels = s.channels ++ (stream_channel 96 none (some c) ports ∷ []);
      audio_control_session = true;
    };
    ports = ports;
    bound = d ∷ (c ∷ []);
    closed = receiver_sockets s.audio ++ (if starts then [] else d ∷ []);
    ok = true;
  }

  abbrev pub setup_udp : ℕ → ℕ → Bool → Bind → Bind → StreamSession P → Done P
  setup_udp type rate starts none c s = record {
    session = s;
    ports = no_ports;
    bound = [];
    closed = [];
    ok = false;
  }
  setup_udp type rate starts (some (d, d_port)) none s = record {
    session = s;
    ports = no_ports;
    bound = d ∷ [];
    closed = d ∷ [];
    ok = false;
  }
  setup_udp type rate starts (some (d, d_port)) (some (c, c_port)) s =
      let ports : StreamPorts = record { server = d_port; control = c_port; timing = 0 } in
      if type == 96 then setup_audio rate starts d c ports s else record {
        session = record s {
          channels = s.channels ++ (stream_channel type (some d) (some c) ports ∷ []);
        };
        ports = ports;
        bound = d ∷ (c ∷ []);
        closed = [];
        ok = true;
      }

  unfoldable pub setup_stream : ℕ → Option ℕ → ℕ → Bool → Bind → Bind → StreamSession P → Done P
  setup_stream type mirror_port rate starts d c s =
      if type == 110 then setup_mirror mirror_port s else setup_udp type rate starts d c s
