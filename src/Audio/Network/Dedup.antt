-- ===== src/Audio/Network/Dedup.antt =====
-- Which packets the duplicate filter passes.
use air_play_windows.Base.{
  ltb, leb, if◌then◌else◌, Bool-cases, length, drop, length-drop, Bytes, ℕ, ◌+◌, ◌≤◌, ◌<◌, ◌≡◌,
  refl, ap, ◌∙◌, inl, inr, Bool, true, false, Option, none, some, arith,
}
use air_play_windows.Base.Int.{ℤ}
use air_play_windows.Audio.Network.{
  Network, seq_of, ts_of, note_first, note_audio, cleartext, count_packet, admit, dedup, to_decoder,
  filter_frame, Received, on_data,
}
use air_play_windows.Audio.Queue.{State}

abbrev pub IsSeq : ℕ → Type 0
IsSeq q = q < 65536

-- A datagram that carries real audio.
abbrev pub IsAudio : Bytes → Type 0
IsAudio p = (112 ≤ length p) × IsSeq (seq_of p)

note_audio-same :
    (now : ℤ) (grace : Bool) (p : Bytes) (w : Network)
    → ((note_audio now grace p w).0.seen ≡ w.seen) × ((note_audio now grace p w).0.pkts ≡ w.pkts)
unfolding note_audio
note_audio-same now grace p w = elim (Bool-cases (leb 100 (length p))) [
  | inl long ↦ (rw long refl, rw long refl)
  | inr short ↦ (rw short refl, rw short refl)
]

note_first-same :
    (now : ℤ) (p : Bytes) (s : State) (w : Network)
    → ((note_first now p s w).1.seen ≡ w.seen) × ((note_first now p s w).1.pkts ≡ w.pkts)
unfolding note_first
note_first-same now p s w = elim (Bool-cases w.have_first_packet) [
  | inl done ↦ (simp done refl, simp done refl)
  | inr new ↦ (simp new refl, simp new refl)
]

-- What the decoder gets of a packet, by the filter's verdict.
abbrev pub passed : (Bytes → Bytes) → Bytes → Bool → Option (ℕ × Bytes)
passed decrypt p duplicate =
    if duplicate then none else some (ts_of p, cleartext decrypt (drop 12 p))

to_decoder-passed :
    (decrypt : Bytes → Bytes) (p : Bytes) (w : Network) (duplicate : Bool)
    → to_decoder decrypt p (w, duplicate) ≡ (w, passed decrypt p duplicate)
to_decoder-passed decrypt p w true = refl
to_decoder-passed decrypt p w false = refl

-- The thread's vector, count and decoder input after a packet of real audio.
pub record Admitted (decrypt : Bytes → Bytes) (p : Bytes) (w w' : Network)
    (frame : Option (ℕ × Bytes)) : Type 0 where
  pub seen_after : w'.seen ≡ (admit (seq_of p) (w.pkts + 1) w.seen).0
  pub pkts_after : w'.pkts ≡ w.pkts + 1
  pub frame_after : frame ≡ passed decrypt p (admit (seq_of p) (w.pkts + 1) w.seen).1

filter_frame-Admitted :
    (decrypt : Bytes → Bytes) (p : Bytes) (w : Network)
    → IsAudio p
    → let (w', frame) = filter_frame decrypt p w in Admitted decrypt p w w' frame
unfolding filter_frame count_packet dedup
filter_frame-Admitted decrypt p w (long, small) =
    let counted = count_packet (drop 12 p) w in
    let (w', duplicate) = dedup (seq_of p) counted in
    let big : leb 100 (length (drop 12 p)) ≡ true = ground (arith, length-drop 12 p, long) in
    let whole : filter_frame decrypt p w ≡ (w', passed decrypt p duplicate) =
      rw (big, filter_frame) (to_decoder-passed decrypt p w' duplicate) in
    record {
      seen_after = ap (λ (x : Network × Option (ℕ × Bytes)). x.0.seen) whole;
      pkts_after = ap (λ (x : Network × Option (ℕ × Bytes)). x.0.pkts) whole;
      frame_after = ap (λ (x : Network × Option (ℕ × Bytes)). x.1) whole;
    }

on_data_long :
    (decrypt : Bytes → Bytes) (now : ℤ) (grace : Bool) (p : Bytes) (s : State) (w : Network)
    → 12 ≤ length p
    → let (w2, rate) = note_audio now grace p (note_first now p s w).1 in
      let (w3, frame) = filter_frame decrypt p w2 in
      on_data decrypt now grace p s w
      ≡ record { state = (note_first now p s w).0; network = w3; rate = rate; frame = frame }
unfolding on_data
on_data_long decrypt now grace p s w long =
    let short : ltb (length p) 12 ≡ false = ground (arith, long) in rw (short, on_data) refl

pub on_data-Admitted :
    (decrypt : Bytes → Bytes) (now : ℤ) (grace : Bool) (p : Bytes) (s : State) (w : Network)
    → IsAudio p
    → let r = on_data decrypt now grace p s w in Admitted decrypt p w r.network r.frame
on_data-Admitted decrypt now grace p s w (long, small) =
    let w2 = (note_audio now grace p (note_first now p s w).1).0 in
    let h = filter_frame-Admitted decrypt p w2 (long, small) in
    let whole = on_data_long decrypt now grace p s w (omega arith) in
    let (seen1, pkts1) = note_first-same now p s w in
    let (seen2, pkts2) = note_audio-same now grace p (note_first now p s w).1 in
    let seen_same = seen2 ∙ seen1 in
    let pkts_same = pkts2 ∙ pkts1 in
    let same : admit (seq_of p) (w2.pkts + 1) w2.seen ≡ admit (seq_of p) (w.pkts + 1) w.seen =
      ap (λ f. admit (seq_of p) (w2.pkts + 1) f) seen_same
      ∙ ap (λ n. admit (seq_of p) (n + 1) w.seen) pkts_same in
    record {
      seen_after = ap (λ (r : Received). r.network.seen) whole ∙ h.seen_after ∙ ap (λ x. x.0) same;
      pkts_after =
          ap (λ (r : Received). r.network.pkts) whole ∙ h.pkts_after ∙ ap (λ n. n + 1) pkts_same;
      frame_after =
          ap (λ (r : Received). r.frame) whole
          ∙ h.frame_after
          ∙ ap (λ x. passed decrypt p x.1) same;
    }
