-- ===== src/Audio/Network/Repeat.antt =====
-- What the duplicate filter does with packets that are sent again.
use air_play_windows.Base.{
  ◌==◌, Bool-cases, All, Bytes, ℕ, ◌+◌, ◌%◌, ◌≡◌, refl, sym, ap, ◌∙◌, inl, inr, Bool, true, false,
  none, List, [], ◌∷◌, arith,
}
use air_play_windows.Base.Int.{ℤ}
use air_play_windows.Audio.Network.{Network, seq_of, admit, Received, on_data}
use air_play_windows.Audio.Network.Dedup.{IsSeq, IsAudio, passed, Admitted, on_data-Admitted}
use air_play_windows.Audio.Queue.{State}

admit-marks : (seq n : ℕ) (seen : ℕ → Bool) → IsSeq seq → (admit seq n seen).0 seq ≡ true
unfolding admit
admit-marks seq n seen small = elim (Bool-cases (seen seq)) [
  | inl known ↦ rw known known
  | inr new ↦ elim (Bool-cases (n % 1024 == 0)) [
    | inl clears ↦ rw (new, clears) (ground arith)
    | inr between ↦ rw (new, between) (ground arith)
  ]
]

admit_known : (seq n : ℕ) (seen : ℕ → Bool) → seen seq ≡ true → admit seq n seen ≡ (seen, true)
unfolding admit
admit_known seq n seen known = rw known refl

-- An odd packet never clears a part of the vector.
admit_odd :
    (seq n q : ℕ) (seen : ℕ → Bool) → n % 2 ≡ 1 → seen q ≡ true → (admit seq n seen).0 q ≡ true
unfolding admit
admit_odd seq n q seen odd known = elim (Bool-cases (seen seq)) [
  | inl old ↦ rw old known
  | inr new ↦
      let between : (n % 1024 == 0) ≡ false = ground (arith, odd) in
      rw (new, between, known) (ground arith)
]

abbrev pub Arrival : Type 0
Arrival = ℤ × (Bool × Bytes)

abbrev pub packet : Arrival → Bytes
packet e = e.1.1

module _ (decrypt : Bytes → Bytes) where
  unfoldable pub receive : Arrival → State → Network → Received
  receive (now, (grace, p)) s w = on_data decrypt now grace p s w

  -- The network thread over a row of data packets.
  unfoldable pub receive_all : List Arrival → State → Network → State × Network
  receive_all [] s w = (s, w)
  receive_all (e ∷ es) s w = let r = receive e s w in receive_all es r.state r.network

  receive-Admitted :
      (e : Arrival) (s : State) (w : Network)
      → IsAudio (packet e)
      → let r = receive e s w in Admitted decrypt (packet e) w r.network r.frame
  unfolding receive
  receive-Admitted (now, (grace, p)) s w audio = on_data-Admitted decrypt now grace p s w audio

  -- Whatever came before, the second of two audio packets in a row with one sequence number is not
  -- decoded.
  pub receive_repeated :
      (e e' : Arrival) (s : State) (w : Network)
      → IsAudio (packet e)
      → IsAudio (packet e')
      → seq_of (packet e) ≡ seq_of (packet e')
      → let r = receive e s w in (receive e' r.state r.network).frame ≡ none
  receive_repeated e e' s w audio audio' same =
      let r = receive e s w in
      let a = receive-Admitted e s w audio in
      let a' = receive-Admitted e' r.state r.network audio' in
      let known : r.network.seen (seq_of (packet e')) ≡ true =
        ap (λ q. r.network.seen q) (sym same)
        ∙ ap (λ (f : ℕ → Bool). f (seq_of (packet e))) a.seen_after
        ∙ admit-marks (seq_of (packet e)) (w.pkts + 1) w.seen audio.1 in
      a'.frame_after
      ∙ ap (λ (x : (ℕ → Bool) × Bool). passed decrypt (packet e') x.1)
          (admit_known (seq_of (packet e')) (r.network.pkts + 1) r.network.seen known)

abbrev pub IsPair : Arrival × Arrival → Type 0
IsPair (e, e') = IsAudio (packet e) × IsAudio (packet e') × (seq_of (packet e) ≡ seq_of (packet e'))

abbrev pub both : List (Arrival × Arrival) → List Arrival
both [] = []
both ((e, e') ∷ es) = e ∷ e' ∷ both es

module _ (decrypt : Bytes → Bytes) where
  -- What is marked stays marked, and the count stays even.
  record Marked (q : ℕ) (w : Network) : Type 0 where
    marked : w.seen q ≡ true
    even : w.pkts % 2 ≡ 0

  receive_pair-Marked :
      (q : ℕ) (e e' : Arrival) (s : State) (w : Network)
      → IsPair (e, e')
      → Marked q w
      → let r = receive decrypt e s w in Marked q (receive decrypt e' r.state r.network).network
  receive_pair-Marked q e e' s w (audio, audio', same) h =
      let r = receive decrypt e s w in
      let r' = receive decrypt e' r.state r.network in
      let a = receive-Admitted decrypt e s w audio in
      let a' = receive-Admitted decrypt e' r.state r.network audio' in
      let first : r.network.seen q ≡ true =
        ap (λ (f : ℕ → Bool). f q) a.seen_after
        ∙ admit_odd (seq_of (packet e)) (w.pkts + 1) q w.seen (omega (arith, h.even)) h.marked in
      let known : r.network.seen (seq_of (packet e')) ≡ true =
        ap (λ n. r.network.seen n) (sym same)
        ∙ ap (λ (f : ℕ → Bool). f (seq_of (packet e))) a.seen_after
        ∙ admit-marks (seq_of (packet e)) (w.pkts + 1) w.seen audio.1 in
      let kept = admit_known (seq_of (packet e')) (r.network.pkts + 1) r.network.seen known in
      record {
        marked =
            ap (λ (f : ℕ → Bool). f q) (a'.seen_after ∙ ap (λ (x : (ℕ → Bool) × Bool). x.0) kept)
            ∙ first;
        even = omega (arith, h.even, a.pkts_after, a'.pkts_after);
      }

  receive_both-Marked :
      (q : ℕ) (es : List (Arrival × Arrival)) (s : State) (w : Network)
      → All IsPair es
      → Marked q w
      → Marked q (receive_all decrypt (both es) s w).1
  unfolding receive_all
  receive_both-Marked q [] s w pairs h = h
  receive_both-Marked q ((e, e') ∷ es) s w (pair, pairs) h =
      let r = receive decrypt e s w in
      let r' = receive decrypt e' r.state r.network in
      receive_both-Marked q es r'.state r'.network pairs (receive_pair-Marked q e e' s w pair h)

  -- In a stream that sends every packet twice in a row, from an even count of packets on, no
  -- sequence number is ever forgotten: after any number of such pairs, also when the 16-bit numbers
  -- have come round, an audio packet with a number that was seen before is not decoded.
  pub receive-both_forgets_nothing :
      (e : Arrival) (es : List (Arrival × Arrival)) (s : State) (w : Network)
      → w.pkts % 2 ≡ 0
      → w.seen (seq_of (packet e)) ≡ true
      → All IsPair es
      → IsAudio (packet e)
      → let (s', w') = receive_all decrypt (both es) s w in (receive decrypt e s' w').frame ≡ none
  receive-both_forgets_nothing e es s w even known pairs audio =
      let (s', w') = receive_all decrypt (both es) s w in
      let h =
        receive_both-Marked (seq_of (packet e)) es s w pairs
          (record { marked = known; even = even }) in
      let a = receive-Admitted decrypt e s' w' audio in
      a.frame_after
      ∙ ap (λ (x : (ℕ → Bool) × Bool). passed decrypt (packet e) x.1)
          (admit_known (seq_of (packet e)) (w'.pkts + 1) w'.seen h.marked)
