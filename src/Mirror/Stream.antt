-- ===== src/Mirror/Stream.antt =====
-- The reader as a function of the whole byte stream, however the network cuts it.
use air_play_windows.Base.{
  ltb, leb, ◌==◌, if◌then◌else◌, Bool-cases, Option-cases, length, take, drop, length-append,
  take-append_le, drop-append_le, take-append_ge, drop-append_ge, Bytes, ℕ, zero, suc, ◌-◌, ◌≤◌,
  ◌<◌, ◌≡◌, refl, sym, ap, ◌∙◌, inl, inr, Option, none, some, List, [], ◌∷◌, ◌++◌, arith,
}
use air_play_windows.Mirror.{
  Recv, arrived, timed_out, closed, failed, stopped, Outcome, whole, peer_closed, broken, pending,
  onto, recv_exact, get_u32_le, with_payload, after_header, next_frame, Codecs, Session, on_frame,
  reader_rounds, stream, reader_loop,
}

-- The first `n` bytes of a stream, and what is behind them.
unfoldable pub cut : ℕ → Bytes → Option (Bytes × Bytes)
cut n s = if leb n (length s) then some (take n s, drop n s) else none

abbrev pub received : Outcome → Option (Bytes × Bytes)
received (whole b es) = some (b, stream es)
received peer_closed = none
received broken = none
received pending = none

abbrev in_front : Bytes → Option (Bytes × Bytes) → Option (Bytes × Bytes)
in_front c none = none
in_front c (some (b, rest)) = some (c ++ b, rest)

received-onto : (c : Bytes) (o : Outcome) → received (onto c o) ≡ in_front c (received o)
received-onto c (whole b es) = refl
received-onto c peer_closed = refl
received-onto c broken = refl
received-onto c pending = refl

-- A cut that goes through the front part, or beyond it.
cut-append_le :
    (n : ℕ) (c s : Bytes) → n ≤ length c → cut n (c ++ s) ≡ some (take n c, drop n c ++ s)
unfolding cut
cut-append_le n c s le =
    ground (arith, le, length-append c s, take-append_le n c s le, drop-append_le n c s le)

cut-append_ge :
    (n : ℕ) (c s : Bytes) → length c ≤ n → cut n (c ++ s) ≡ in_front c (cut (n - length c) s)
unfolding cut
cut-append_ge n c s le = elim (Bool-cases (leb (n - length c) (length s))) [
  | inl enough ↦
      ground
        (arith, enough, le, length-append c s, take-append_ge n c s le, drop-append_ge n c s le)
  | inr short ↦ ground (arith, short, le, length-append c s)
]

recv_exact-stream :
    (es : List Recv) (need : ℕ) → 0 < need → received (recv_exact es need) ≡ cut need (stream es)
unfolding recv_exact stream
recv_exact-stream [] need h = unfold cut in ground (arith, h)
recv_exact-stream (arrived c ∷ es) need h = elim (Bool-cases (leb need (length c))) [
  | inl enough ↦ rw enough (sym (cut-append_le need c (stream es) (ground (arith, enough))))
  | inr short ↦ rw short (
      received-onto c (recv_exact es (need - length c))
      ∙ ap (in_front c) (recv_exact-stream es (need - length c) (ground (arith, short)))
      ∙ sym (cut-append_ge need c (stream es) (ground (arith, short))))
]
recv_exact-stream (timed_out ∷ es) need h = recv_exact-stream es need h
recv_exact-stream (closed ∷ es) need h = unfold cut in ground (arith, h)
recv_exact-stream (failed ∷ es) need h = unfold cut in ground (arith, h)
recv_exact-stream (stopped ∷ es) need h = unfold cut in ground (arith, h)

abbrev pub Frame : Type 0
Frame = Bytes × Bytes

abbrev pub payload_in : Bytes → Option (Bytes × Bytes) → Option (Frame × Bytes)
payload_in header none = none
payload_in header (some (payload, rest)) = some ((header, payload), rest)

abbrev pub frame_behind : Option (Bytes × Bytes) → Option (Frame × Bytes)
frame_behind none = none
frame_behind (some (header, rest)) =
    if ltb 2_000_000 (get_u32_le header)
    then none
    else payload_in header (cut (get_u32_le header) rest)

-- The first frame of a stream: a header of 128 bytes with the size of the payload, at most 2000000
-- bytes, in its first four bytes, and the payload.
unfoldable pub next_in : Bytes → Option (Frame × Bytes)
next_in s = frame_behind (cut 128 s)

unfoldable pub frames_from : ℕ → Bytes → List Frame
frames_from zero s = []
frames_from (suc fuel) s = elim (next_in s) [
  | none ↦ []
  | some (frame, rest) ↦ frame ∷ frames_from fuel rest
]

-- The frames of a stream, one after the other, up to the first that is not whole or too large.
unfoldable pub frames_in : Bytes → List Frame
frames_in s = frames_from (suc (length s)) s

abbrev rest_as_stream : Option (Frame × List Recv) → Option (Frame × Bytes)
rest_as_stream none = none
rest_as_stream (some (frame, es)) = some (frame, stream es)

with_payload-received :
    (header : Bytes) (o : Outcome)
    → rest_as_stream (with_payload header o) ≡ payload_in header (received o)
with_payload-received header (whole payload es) = refl
with_payload-received header peer_closed = refl
with_payload-received header broken = refl
with_payload-received header pending = refl

cut_none : (s : Bytes) → cut 0 s ≡ some ([], s)
unfolding cut
cut_none s = ground arith

after_header-received : (o : Outcome) → rest_as_stream (after_header o) ≡ frame_behind (received o)
after_header-received (whole header es) = elim (Bool-cases (ltb 2_000_000 (get_u32_le header))) [
  | inl large ↦ rw large refl
  | inr fits ↦ elim (Bool-cases (get_u32_le header == 0)) [
    | inl bare ↦
        let size : get_u32_le header ≡ 0 = ground (arith, bare) in
        rw (fits, bare, size, cut_none (stream es)) refl
    | inr full ↦
        rw (fits, full)
          (with_payload-received header (recv_exact es (get_u32_le header))
            ∙ ap (payload_in header)
                (recv_exact-stream es (get_u32_le header) (ground (arith, full))))
  ]
]
after_header-received peer_closed = refl
after_header-received broken = refl
after_header-received pending = refl

next_frame-stream : (es : List Recv) → rest_as_stream (next_frame es) ≡ next_in (stream es)
unfolding next_frame next_in
next_frame-stream es =
    after_header-received (recv_exact es 128)
    ∙ ap frame_behind (recv_exact-stream es 128 (omega arith))

module _ {K D F : Type 0} (codecs : Codecs K D F) where
  -- The frames in their order.
  unfoldable pub on_frames : List Frame → Session K D F → Session K D F
  on_frames [] s = s
  on_frames (frame ∷ fs) s = on_frames fs (on_frame codecs frame s)

  pub on_frames-append :
      (fs gs : List Frame) (s : Session K D F)
      → on_frames (fs ++ gs) s ≡ on_frames gs (on_frames fs s)
  unfolding on_frames
  on_frames-append [] gs s = refl
  on_frames-append (f ∷ fs) gs s = on_frames-append fs gs (on_frame codecs f s)

  pub reader_rounds-frames :
      (fuel : ℕ) (es : List Recv) (s : Session K D F)
      → reader_rounds codecs fuel es s ≡ on_frames (frames_from fuel (stream es)) s
  unfolding reader_rounds frames_from on_frames
  reader_rounds-frames zero es s = refl
  reader_rounds-frames (suc fuel) es s = elim (Option-cases (next_frame es)) [
    | inl ends ↦
        let over = sym (next_frame-stream es) ∙ ap rest_as_stream ends in ground (arith, ends, over)
    | inr ((frame, es'), comes) ↦
        let there = sym (next_frame-stream es) ∙ ap rest_as_stream comes in
        ground (arith, comes, there, reader_rounds-frames fuel es' (on_frame codecs frame s))
  ]

  -- Whatever pieces the network delivers, with timeouts between them, and however the connection
  -- ends, the reader does exactly what the frames of the bytes that came before the end ask for,
  -- each frame once and in order.
  pub reader_loop-frames :
      (es : List Recv) (s : Session K D F)
      → reader_loop codecs es s ≡ on_frames (frames_in (stream es)) s
  unfolding reader_loop frames_in
  reader_loop-frames es s = reader_rounds-frames (suc (length (stream es))) es s
