-- ===== src/Streams/Balance.antt =====
-- Each operation accounts for the sockets that it binds and closes.
use air_play_windows.Streams.Setup.{setup_mirror, setup_audio, setup_udp, setup_stream}
use air_play_windows.Streams.Stop.{keep_channels, drop_channels}
use air_play_windows.Base.{
  ◌==◌, Bool-cases, ℕ, ◌+◌, ◌≡◌, refl, ap, inl, inr, Bool, true, false, Option, none, some, List,
  [], ◌∷◌, ◌++◌, arith,
}
use air_play_windows.Streams.Sockets.{count, count-append, count-channels, owned, count-owned}
use air_play_windows.Streams.{
  StreamPorts, no_ports, StreamChannel, Receiver, StreamSession, Done, Bind, held, channel_sockets,
  stream_channel, receiver_sockets, setup_session, synchronized,
}

pub balanced-channels :
    (x type : ℕ) (chs : List StreamChannel)
    → count x (channel_sockets chs)
      ≡ count x (drop_channels type chs) + count x (channel_sockets (keep_channels type chs))
unfolding drop_channels keep_channels
balanced-channels x type [] = refl
balanced-channels x type (ch ∷ chs) =
    let rest = channel_sockets chs in
    let dropped = drop_channels type chs in
    let kept = channel_sockets (keep_channels type chs) in
    let whole_channel = count-append x (held ch.data_sock) (held ch.control_sock ++ rest) in
    let control = count-append x (held ch.control_sock) rest in
    let later = balanced-channels x type chs in
    elim (Bool-cases (ch.type == type)) [
      | inl same ↦ rw same (
          omega (
            arith,
            whole_channel,
            control,
            count-append x (held ch.data_sock) (held ch.control_sock ++ dropped),
            count-append x (held ch.control_sock) dropped,
            later,
          ))
      | inr other ↦ rw other (
          omega (
            arith,
            whole_channel,
            control,
            count-append x (held ch.data_sock) (held ch.control_sock ++ kept),
            count-append x (held ch.control_sock) kept,
            later,
          ))
    ]

module _ {P : Type 0} where
  -- What was bound or held before is closed or held now, each socket as often.
  abbrev pub Balanced : StreamSession P → Done P → Type 0
  Balanced s d =
      (x : ℕ) → count x d.bound + count x (owned s) ≡ count x d.closed + count x (owned d.session)

  pub setup_session-Balanced :
      (e t : Bind) (s : StreamSession P)
      → s.event_sock ≡ none
      → s.ap2_timing_sock ≡ none
      → Balanced s (setup_session e t s)
  unfolding setup_session
  setup_session-Balanced none t s no_event no_timing x = refl
  setup_session-Balanced (some (e, e_port)) none s no_event no_timing x = refl
  setup_session-Balanced (some (e, e_port)) (some (t, t_port)) s no_event no_timing x =
      let s' = record s { event_sock = some e; ap2_timing_sock = some t } in
      let old_event = ap (λ o. count x (held o)) no_event in
      let old_timing = ap (λ o. count x (held o)) no_timing in
      omega (
        arith,
        count-owned x s,
        count-owned x s',
        old_event,
        old_timing,
        count-append x (e ∷ []) (t ∷ []),
      )

  pub receiver_sockets-synchronized :
      (enabled : Bool) (a : Option (Receiver P))
      → receiver_sockets (synchronized enabled a) ≡ receiver_sockets a
  receiver_sockets-synchronized enabled none = refl
  receiver_sockets-synchronized enabled (some a) = refl

  setup_mirror-Balanced : (port : Option ℕ) (s : StreamSession P) → Balanced s (setup_mirror port s)
  setup_mirror-Balanced none s x =
      omega (arith, count-owned x s, count-owned x (setup_mirror none s).session)
  setup_mirror-Balanced (some port) s x =
      let d = setup_mirror (some port) s in
      let new = stream_channel 110 none none (record no_ports { server = port }) in
      omega (
        arith,
        count-owned x s,
        count-owned x d.session,
        ap (count x) (receiver_sockets-synchronized false s.audio),
        count-channels x s.channels (new ∷ []),
      )

  setup_audio-Balanced :
      (rate : ℕ) (starts : Bool) (c d : ℕ) (ports : StreamPorts) (s : StreamSession P)
      → Balanced s (setup_audio rate starts d c ports s)
  setup_audio-Balanced rate true c d ports s x =
      let r = setup_audio rate true d c ports s in
      omega (
        arith,
        count-owned x s,
        count-owned x r.session,
        count-append x (d ∷ []) (c ∷ []),
        count-append x (receiver_sockets s.audio) [],
        count-channels x s.channels (stream_channel 96 none (some c) ports ∷ []),
      )
  setup_audio-Balanced rate false c d ports s x =
      let r = setup_audio rate false d c ports s in
      omega (
        arith,
        count-owned x s,
        count-owned x r.session,
        count-append x (d ∷ []) (c ∷ []),
        count-append x (receiver_sockets s.audio) (d ∷ []),
        count-channels x s.channels (stream_channel 96 none (some c) ports ∷ []),
      )

  setup_udp-Balanced :
      (type rate : ℕ) (starts : Bool) (d c : Bind) (s : StreamSession P)
      → Balanced s (setup_udp type rate starts d c s)
  setup_udp-Balanced type rate starts none c s x = refl
  setup_udp-Balanced type rate starts (some (d, d_port)) none s x = refl
  setup_udp-Balanced type rate starts (some (d, d_port)) (some (c, c_port)) s x =
      let ports : StreamPorts = record { server = d_port; control = c_port; timing = 0 } in
      let new = stream_channel type (some d) (some c) ports in
      let s' = record s { channels = s.channels ++ (new ∷ []) } in
      elim (Bool-cases (type == 96)) [
        | inl audio ↦ rw audio (setup_audio-Balanced rate starts c d ports s x)
        | inr other ↦ rw other (
            omega (
              arith,
              count-owned x s,
              count-owned x s',
              count-append x (d ∷ []) (c ∷ []),
              count-channels x s.channels (new ∷ []),
            ))
      ]

  pub setup_stream-Balanced :
      (type : ℕ) (mirror_port : Option ℕ) (rate : ℕ) (starts : Bool) (d c : Bind)
      (s : StreamSession P)
      → Balanced s (setup_stream type mirror_port rate starts d c s)
  unfolding setup_stream
  setup_stream-Balanced type mirror_port rate starts d c s x = elim (Bool-cases (type == 110)) [
    | inl mirror ↦ rw mirror (setup_mirror-Balanced mirror_port s x)
    | inr other ↦ rw other (setup_udp-Balanced type rate starts d c s x)
  ]
