-- ===== src/Streams/Stop.antt =====
-- `stop_stream` and the operations of a `StreamSession` that bind nothing.
use air_play_windows.Base.{
  ◌==◌, if◌then◌else◌, Bytes, equal, is_empty, ℕ, Bool, true, false, not, ◌&&◌, ◌||◌, Option, none,
  some, List, [], ◌∷◌, ◌++◌,
}
use air_play_windows.Streams.{
  no_ports, StreamChannel, PauseState, Receiver, StreamSession, Done, held, receiver_sockets,
  synchronized,
}

-- The channels of other types stay; the sockets of this type's are closed.
unfoldable pub keep_channels : ℕ → List StreamChannel → List StreamChannel
keep_channels type [] = []
keep_channels type (ch ∷ chs) =
    let rest = keep_channels type chs in if ch.type == type then rest else ch ∷ rest

unfoldable pub drop_channels : ℕ → List StreamChannel → List ℕ
drop_channels type [] = []
drop_channels type (ch ∷ chs) =
    let rest = drop_channels type chs in
    if ch.type == type then held ch.data_sock ++ (held ch.control_sock ++ rest) else rest

abbrev has_audio_channel : List StreamChannel → Bool
has_audio_channel [] = false
has_audio_channel (ch ∷ chs) = ch.type == 96 || has_audio_channel chs

module _ {P : Type 0} where
  abbrev pub without_mirror : ℕ → StreamSession P → StreamSession P
  without_mirror type s =
      if type == 110 && s.mirror
      then record s { mirror = false; audio = synchronized true s.audio }
      else s

  -- A receiver that is suspended puts `kept` aside, the blocks that it has saved, if there are any and
  -- it is synchronized; without a receiver, what was put aside stays.
  abbrev pub pause_of : Option P → Receiver P → Option (PauseState P)
  pause_of none a = none
  pause_of (some saved) a =
      if a.synchronize then some (record { sample_rate = a.sample_rate; saved = saved }) else none

  abbrev pub suspend : Option P → StreamSession P → Option (Receiver P) → StreamSession P
  suspend kept s none = s
  suspend kept s (some a) = record s { paused_audio = pause_of kept a; audio = none }

  unfoldable pub stop_stream : ℕ → Option P → StreamSession P → Done P
  stop_stream type kept s =
      let t = without_mirror type s in
      let u = if type == 96 then suspend kept t t.audio else t in
      record {
        session = record u { channels = keep_channels type s.channels };
        ports = no_ports;
        bound = [];
        closed =
            (if type == 96 then receiver_sockets s.audio else []) ++ drop_channels type s.channels;
        ok = true;
      }

  -- A sender that asks for another track than before drops what was put aside.
  abbrev pub discard_pause : Option (Receiver P) → Option (Receiver P)
  discard_pause none = none
  discard_pause (some a) = some (record a { pause = none })

  unfoldable pub set_audio_track : Bytes → StreamSession P → StreamSession P
  set_audio_track track s =
      let t : StreamSession P =
        if not (is_empty s.audio_track) && not (equal track s.audio_track)
        then record s { paused_audio = none; audio = discard_pause s.audio }
        else s in
      record t { audio_track = track }

  abbrev has_receiver : Option (Receiver P) → Bool
  has_receiver none = false
  has_receiver (some a) = true

  unfoldable pub audio_only : StreamSession P → Bool
  audio_only s =
      not s.mirror
      && (s.audio_control_session || (has_receiver s.audio || has_audio_channel s.channels))

  -- `start_ntp`; the client is kept where there is one. It needs the socket of `setup_session`.
  unfoldable pub start_ntp : StreamSession P → StreamSession P
  start_ntp s = elim s.ap2_timing_sock [ none ↦ s | some sock ↦ record s { ntp = true } ]
