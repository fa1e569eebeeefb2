-- ===== src/Streams/Sockets.antt =====
-- How often a socket stands among those that a session holds.
use air_play_windows.Base.{
  ◌==◌, if◌then◌else◌, Bool-cases, ℕ, suc, ◌+◌, ◌≡◌, inl, inr, List, [], ◌∷◌, ◌++◌, arith,
}
use air_play_windows.Streams.{
  StreamChannel, StreamSession, held, channel_sockets, receiver_sockets, teardown,
}

abbrev pub count : ℕ → List ℕ → ℕ
count x [] = 0
count x (y ∷ ys) = if x == y then suc (count x ys) else count x ys

pub count-append : (x : ℕ) (xs ys : List ℕ) → count x (xs ++ ys) ≡ count x xs + count x ys
count-append x [] ys = omega arith
count-append x (y ∷ xs) ys = elim (Bool-cases (x == y)) [
  | inl same ↦ ground (arith, same, count-append x xs ys)
  | inr other ↦ ground (arith, other, count-append x xs ys)
]

pub count-channels :
    (x : ℕ) (chs more : List StreamChannel)
    → count x (channel_sockets (chs ++ more))
      ≡ count x (channel_sockets chs) + count x (channel_sockets more)
count-channels x [] more = omega arith
count-channels x (ch ∷ chs) more = omega (
  arith,
  count-append x (held ch.data_sock) (held ch.control_sock ++ channel_sockets (chs ++ more)),
  count-append x (held ch.control_sock) (channel_sockets (chs ++ more)),
  count-append x (held ch.data_sock) (held ch.control_sock ++ channel_sockets chs),
  count-append x (held ch.control_sock) (channel_sockets chs),
  count-channels x chs more,
)

module _ {P : Type 0} where
  -- The sockets that the session has to close.
  abbrev pub owned : StreamSession P → List ℕ
  owned s = (teardown s).1

  -- The same as a sum.
  pub count-owned :
      (x : ℕ) (s : StreamSession P)
      → count x (owned s)
        ≡ count x (receiver_sockets s.audio)
          + (count x (held s.data_sock)
              + (count x (held s.ctrl_sock)
                  + (count x (held s.timing_sock)
                      + (count x (held s.event_sock)
                          + (count x (held s.ap2_timing_sock)
                              + count x (channel_sockets s.channels))))))
  unfolding teardown
  count-owned x s =
      let chs = channel_sockets s.channels in
      let ap2 = held s.ap2_timing_sock ++ chs in
      let event = held s.event_sock ++ ap2 in
      let timing = held s.timing_sock ++ event in
      let ctrl = held s.ctrl_sock ++ timing in
      omega (
        arith,
        count-append x (receiver_sockets s.audio) (held s.data_sock ++ ctrl),
        count-append x (held s.data_sock) ctrl,
        count-append x (held s.ctrl_sock) timing,
        count-append x (held s.timing_sock) event,
        count-append x (held s.event_sock) ap2,
        count-append x (held s.ap2_timing_sock) chs,
      )
