-- ===== src/Streams/Stopped.antt =====
-- The sockets of `stop_stream`.
use air_play_windows.Base.{
  ◌==◌, if◌then◌else◌, Bool-cases, ℕ, ◌+◌, ◌≡◌, refl, ap, ◌∙◌, inl, inr, Bool, true, false, ◌&&◌,
  Option, none, some, List, arith,
}
use air_play_windows.Streams.Balance.{balanced-channels, Balanced, receiver_sockets-synchronized}
use air_play_windows.Streams.Legacy.{suspend-sockets}
use air_play_windows.Streams.Sockets.{count, count-append, owned, count-owned}
use air_play_windows.Streams.Stop.{keep_channels, drop_channels, suspend, stop_stream}
use air_play_windows.Streams.{
  StreamChannel, Receiver, StreamSession, channel_sockets, receiver_sockets, synchronized,
}

module _ {P : Type 0} where
  -- What `stop_stream` does to the mirror leaves the sockets as they are.
  abbrev unmirrored : Bool → StreamSession P → StreamSession P
  unmirrored b s = if b then record s { mirror = false; audio = synchronized true s.audio } else s

  unmirrored-sockets :
      (x : ℕ) (b : Bool) (s : StreamSession P)
      → (count x (owned (unmirrored b s)) ≡ count x (owned s))
        × (receiver_sockets (unmirrored b s).audio ≡ receiver_sockets s.audio)
        × ((unmirrored b s).channels ≡ s.channels)
  unmirrored-sockets x true s =
      let same = receiver_sockets-synchronized true s.audio in
      (
        omega (arith, count-owned x s, count-owned x (unmirrored true s), ap (count x) same),
        same,
        refl,
      )
  unmirrored-sockets x false s = (refl, refl, refl)

  suspend-channels :
      (kept : Option P) (s : StreamSession P) (a : Option (Receiver P))
      → (suspend kept s a).channels ≡ s.channels
  suspend-channels kept s none = refl
  suspend-channels kept s (some a) = refl

  with_channels :
      (x : ℕ) (s : StreamSession P) (chs : List StreamChannel)
      → count x (owned (record s { channels = chs })) + count x (channel_sockets s.channels)
        ≡ count x (owned s) + count x (channel_sockets chs)
  with_channels x s chs =
      omega (arith, count-owned x s, count-owned x (record s { channels = chs }))

  pub stop_stream-Balanced :
      (type : ℕ) (kept : Option P) (s : StreamSession P) → Balanced s (stop_stream type kept s)
  unfolding stop_stream
  stop_stream-Balanced type kept s x =
      let b = type == 110 && s.mirror in
      let t = unmirrored b s in
      let chs = keep_channels type s.channels in
      let dropped = drop_channels type s.channels in
      let (same, receiver, channels) = unmirrored-sockets x b s in
      let parted = balanced-channels x type s.channels in
      elim (Bool-cases (type == 96)) [
        | inl audio ↦
            let u = suspend kept t t.audio in
            rw audio (
              omega (
                arith,
                same,
                ap (count x) receiver,
                suspend-sockets x kept t t.audio refl,
                with_channels x u chs,
                ap (λ c. count x (channel_sockets c)) (suspend-channels kept t t.audio ∙ channels),
                parted,
                count-append x (receiver_sockets s.audio) dropped,
              ))
        | inr other ↦ rw other (
            omega (
              arith,
              same,
              with_channels x t chs,
              ap (λ c. count x (channel_sockets c)) channels,
              parted,
            ))
      ]
