-- ===== src/Streams.antt =====
-- src/airplay/streams.cpp: `StreamSession`, which owns the sockets and the receivers of a
-- connection. A socket is its number; the results of `bind_udp` and of the starts of the receivers
-- are arguments. An operation tells which sockets it bound and closed; a mirror listener owns its TCP
-- sockets itself. `P` is what `AudioReceiver::suspend` saves of the queue.
pub mod Setup
pub mod Stop
pub mod Sockets
pub mod Balance
pub mod Legacy
pub mod Stopped
pub mod Pause
pub mod Runs
mod Tests
use air_play_windows.Base.{
  ◌==◌, if◌then◌else◌, Bytes, codes, split_at, is_digit, ℕ, ◌+◌, ◌-◌, ◌*◌, ◌%◌, ◌^◌, Bool, true,
  false, not, ◌&&◌, Option, none, some, List, [], ◌∷◌, ◌++◌,
}

abbrev digits_u16 : ℕ → Bytes → ℕ
digits_u16 v [] = v
digits_u16 v (c ∷ cs) = if is_digit c then digits_u16 ((v * 10 + (c - b'0')) % 2 ^ 16) cs else v

abbrev behind_key : Option (Bytes × Bytes) → ℕ
behind_key none = 0
behind_key (some (before, [])) = 0
behind_key (some (before, c ∷ cs)) = if c == b'=' then digits_u16 0 cs else 0

unfoldable pub pick_port : Bytes → Bytes → ℕ
pick_port header key = behind_key (split_at key header)

pub record StreamPorts : Type 0 where
  pub server : ℕ
  pub control : ℕ
  pub timing : ℕ

abbrev pub no_ports : StreamPorts
no_ports = record { server = 0; control = 0; timing = 0 }

pub record StreamChannel : Type 0 where
  pub type : ℕ
  pub data_port : ℕ
  pub control_port : ℕ
  pub data_sock : Option ℕ
  pub control_sock : Option ℕ

-- `AudioReceiver::PauseState`, with what was saved of the queue, where that is not empty.
pub record PauseState (P : Type 0) : Type 0 where
  pub sample_rate : ℕ
  pub saved : P

-- A running `AudioReceiver`: its socket and sample rate, whether it has an NTP client and is
-- synchronized, and what it took over from the pause it was given.
pub record Receiver (P : Type 0) : Type 0 where
  pub data_sock : ℕ
  pub sample_rate : ℕ
  pub has_ntp : Bool
  pub synchronize : Bool
  pub pause : Option P

pub record StreamSession (P : Type 0) : Type 0 where
  pub client_ports : StreamPorts
  pub data_sock : Option ℕ
  pub ctrl_sock : Option ℕ
  pub timing_sock : Option ℕ
  pub event_sock : Option ℕ
  pub ap2_timing_sock : Option ℕ
  pub channels : List StreamChannel
  pub mirror : Bool
  pub ntp : Bool
  pub audio : Option (Receiver P)
  pub audio_control_session : Bool
  pub paused_audio : Option (PauseState P)
  pub audio_track : Bytes

abbrev pub new_session : {P : Type 0} → StreamSession P
new_session = record {
  client_ports = no_ports;
  data_sock = none;
  ctrl_sock = none;
  timing_sock = none;
  event_sock = none;
  ap2_timing_sock = none;
  channels = [];
  mirror = false;
  ntp = false;
  audio = none;
  audio_control_session = false;
  paused_audio = none;
  audio_track = [];
}

-- What an operation leaves: the session, the ports that it gives, the sockets that it bound and
-- those that it closed, and its result.
pub record Done (P : Type 0) : Type 0 where
  pub session : StreamSession P
  pub ports : StreamPorts
  pub bound : List ℕ
  pub closed : List ℕ
  pub ok : Bool

-- The socket and the port that `bind_udp` gives.
abbrev pub Bind : Type 0
Bind = Option (ℕ × ℕ)

abbrev pub held : Option ℕ → List ℕ
held none = []
held (some s) = s ∷ []

abbrev pub channel_sockets : List StreamChannel → List ℕ
channel_sockets [] = []
channel_sockets (ch ∷ chs) = held ch.data_sock ++ (held ch.control_sock ++ channel_sockets chs)

abbrev pub stream_channel : ℕ → Option ℕ → Option ℕ → StreamPorts → StreamChannel
stream_channel type d c ports = record {
  type = type;
  data_port = ports.server;
  control_port = ports.control;
  data_sock = d;
  control_sock = c;
}

module _ {P : Type 0} where
  -- The destructor and `stop` of a receiver.
  abbrev pub receiver_sockets : Option (Receiver P) → List ℕ
  receiver_sockets none = []
  receiver_sockets (some a) = a.data_sock ∷ []

  unfoldable pub teardown : StreamSession P → StreamSession P × List ℕ
  teardown s = (
    record s {
      audio_control_session = false;
      paused_audio = none;
      audio_track = [];
      mirror = false;
      audio = none;
      ntp = false;
      data_sock = none;
      ctrl_sock = none;
      timing_sock = none;
      event_sock = none;
      ap2_timing_sock = none;
      channels = [];
    },
    receiver_sockets s.audio
        ++ (held s.data_sock
            ++ (held s.ctrl_sock
                ++ (held s.timing_sock
                    ++ (held s.event_sock
                        ++ (held s.ap2_timing_sock ++ channel_sockets s.channels))))),
  )

  -- A failed bind in `setup_legacy`, behind the first one.
  abbrev pub give_up : List ℕ → StreamPorts → StreamSession P → Done P
  give_up bound ports s =
      let (s', closed) = teardown s in
      record { session = s'; ports = ports; bound = bound; closed = closed; ok = false }

  abbrev pub legacy_timing : Bool → Bind → List ℕ → StreamPorts → StreamSession P → Done P
  legacy_timing false t bound ports s = record {
    session = s;
    ports = ports;
    bound = bound;
    closed = [];
    ok = true;
  }
  legacy_timing true none bound ports s = give_up bound ports s
  legacy_timing true (some (sock, port)) bound ports s = record {
    session = record s { timing_sock = some sock };
    ports = record ports { timing = port };
    bound = sock ∷ bound;
    closed = [];
    ok = true;
  }

  abbrev pub legacy_control :
      Bool → Bind → Bool → Bind → List ℕ → StreamPorts → StreamSession P → Done P
  legacy_control false c timing t bound ports s = legacy_timing timing t bound ports s
  legacy_control true none timing t bound ports s = give_up bound ports s
  legacy_control true (some (sock, port)) timing t bound ports s =
      legacy_timing timing t (sock ∷ bound) (record ports { control = port })
        (record s { ctrl_sock = some sock })

  abbrev pub legacy_data : Bind → Bind → Bind → StreamSession P → Done P
  legacy_data none c t s = record {
    session = s;
    ports = no_ports;
    bound = [];
    closed = [];
    ok = false;
  }
  legacy_data (some (sock, port)) c t s =
      legacy_control (not (s.client_ports.control == 0)) c (not (s.client_ports.timing == 0)) t
        (sock ∷ []) (record no_ports { server = port }) (record s { data_sock = some sock })

  unfoldable pub setup_legacy : Bytes → Bind → Bind → Bind → StreamSession P → Done P
  setup_legacy transport d c t s = legacy_data d c t (record s {
    client_ports = record {
      server = pick_port transport (codes "server_port");
      control = pick_port transport (codes "control_port");
      timing = pick_port transport (codes "timing_port");
    };
  })

  -- The event port is given as `server`.
  unfoldable pub setup_session : Bind → Bind → StreamSession P → Done P
  setup_session none t s = record {
    session = s;
    ports = no_ports;
    bound = [];
    closed = [];
    ok = false;
  }
  setup_session (some (e, e_port)) none s = record {
    session = s;
    ports = no_ports;
    bound = e ∷ [];
    closed = e ∷ [];
    ok = false;
  }
  setup_session (some (e, e_port)) (some (t, t_port)) s = record {
    session = record s { event_sock = some e; ap2_timing_sock = some t };
    ports = record { server = e_port; control = 0; timing = t_port };
    bound = e ∷ (t ∷ []);
    closed = [];
    ok = true;
  }

  -- A change of the flag flushes the receiver without a boundary.
  abbrev pub unless_changed : Bool → Bool → Option P → Option P
  unless_changed true true pause = pause
  unless_changed true false pause = none
  unless_changed false true pause = none
  unless_changed false false pause = pause

  -- `set_synchronized`.
  abbrev pub set_synchronized : Bool → Receiver P → Receiver P
  set_synchronized enabled a =
      let value = enabled && a.has_ntp in
      record a { synchronize = value; pause = unless_changed a.synchronize value a.pause }

  abbrev pub synchronized : Bool → Option (Receiver P) → Option (Receiver P)
  synchronized enabled none = none
  synchronized enabled (some a) = some (set_synchronized enabled a)
