-- ===== src/Streams/Pause.antt =====
-- What a pause puts aside goes to the next audio stream.
use air_play_windows.Streams.Setup.{take_pause, start_receiver, setup_stream}
use air_play_windows.Base.{
  ◌==◌, if◌then◌else◌, Bool-cases, Bytes, equal, is_empty, ℕ, ◌≡◌, refl, ap, inl, inr, Bool, true,
  not, ◌&&◌, Option, none, some,
}
use air_play_windows.Streams.Stop.{pause_of, stop_stream, set_audio_track}
use air_play_windows.Streams.{Receiver, StreamSession}

module _ {P : Type 0} where
  abbrev pub is_other_track : Bytes → StreamSession P → Bool
  is_other_track name s = not (is_empty s.audio_track) && not (equal name s.audio_track)

  take_pause-pause_of :
      (alone : Bool) (rate : ℕ) (kept : Option P) (a : Receiver P)
      → take_pause alone rate (pause_of kept a)
        ≡ (if a.synchronize && alone && (a.sample_rate == rate) then kept else none)
  take_pause-pause_of alone rate none a =
      elim (Bool-cases (a.synchronize && alone && (a.sample_rate == rate))) [
        | inl takes ↦ rw takes refl
        | inr drops ↦ rw drops refl
      ]
  take_pause-pause_of alone rate (some saved) a = elim (Bool-cases a.synchronize) [
    | inl on ↦ rw on refl
    | inr off ↦ rw off refl
  ]

  -- When the sender stops the audio stream, names a track and sets an audio stream up again, the new
  -- receiver, if it starts, takes over what the old one has saved, just if the track is not another
  -- one than before, the old one was synchronized, there is no mirror, and both have one sample rate;
  -- and it is synchronized just if there is no mirror and there is an NTP client.
  pub setup_stream-stop_stream :
      (kept : Option P) (name : Bytes) (rate d d_port c c_port : ℕ) (a : Receiver P)
      (s : StreamSession P)
      → s.audio ≡ some a
      → (setup_stream 96 none rate true
          (some (d, d_port))
          (some (c, c_port))
          (set_audio_track name (stop_stream 96 kept s).session)).session.audio
        ≡ some (record {
          data_sock = d;
          sample_rate = rate;
          has_ntp = s.ntp;
          synchronize = not s.mirror && s.ntp;
          pause =
              if not (is_other_track name s)
                && a.synchronize
                && not s.mirror
                && (a.sample_rate == rate)
              then kept
              else none;
        })
  unfolding setup_stream set_audio_track stop_stream
  setup_stream-stop_stream kept name rate d d_port c c_port a s has =
      elim (Bool-cases (is_other_track name s)) [
        | inl other ↦ rw (has, other)
        | inr same ↦
            rw (has, same)
              (ap (λ p. some (record (start_receiver rate d s) { pause = p }))
                (take_pause-pause_of (not s.mirror) rate kept a))
      ]
