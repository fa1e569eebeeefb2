-- ===== src/Mirror/Frames.antt =====
-- A stream that is written frame by frame.
use air_play_windows.Base.{
  leb, leb→le, Bool-cases, Option-cases, length, drop, All, length-append, length-drop, take-append,
  drop-append, Bytes, ℕ, zero, suc, ◌+◌, ◌-◌, ◌≤◌, ◌<◌, ◌≡◌, sym, ap, ◌∙◌, inl, inr, some, List, [],
  ◌∷◌, ◌++◌, append_assoc, arith,
}
use air_play_windows.Mirror.{Recv, get_u32_le, Codecs, Session, reader_rounds, stream, reader_loop}
use air_play_windows.Mirror.Stream.{
  cut, Frame, next_in, frames_from, frames_in, on_frames, on_frames-append, reader_rounds-frames,
  reader_loop-frames,
}

-- A header that says how long its payload is.
abbrev pub IsFrame : Frame → Type 0
IsFrame (header, payload) =
    (length header ≡ 128) × (get_u32_le header ≡ length payload) × (length payload ≤ 2_000_000)

abbrev pub written : List Frame → Bytes
written [] = []
written ((header, payload) ∷ fs) = header ++ (payload ++ written fs)

cut-length : (n : ℕ) (c s : Bytes) → length c ≡ n → cut n (c ++ s) ≡ some (c, s)
unfolding cut
cut-length n c s e = rw (← e) (ground (arith, length-append c s, take-append c s, drop-append c s))

next_in-frame :
    (header payload rest : Bytes)
    → IsFrame (header, payload)
    → next_in (header ++ (payload ++ rest)) ≡ some ((header, payload), rest)
unfolding next_in
next_in-frame header payload rest (size, says, fits) = ground (
  arith,
  cut-length 128 header (payload ++ rest) size,
  cut-length (get_u32_le header) payload rest (sym says),
  says,
  fits,
)

frames_from-written :
    (fuel : ℕ) (fs : List Frame) (tail : Bytes)
    → All IsFrame fs
    → length fs ≤ fuel
    → frames_from fuel (written fs ++ tail) ≡ fs ++ frames_from (fuel - length fs) tail
unfolding frames_from
frames_from-written fuel [] tail h le = ap (λ n. frames_from n tail) (omega arith)
frames_from-written zero (f ∷ fs) tail h le = absurd (omega arith)
frames_from-written (suc fuel) ((header, payload) ∷ fs) tail (valid, others) le =
    let joined =
      append_assoc header (payload ++ written fs) tail
      ∙ ap (λ x. header ++ x) (append_assoc payload (written fs) tail) in
    let comes = ap next_in joined ∙ next_in-frame header payload (written fs ++ tail) valid in
    ground (arith, comes, frames_from-written fuel fs tail others (omega arith))

cut_shorter : (n : ℕ) (s b rest : Bytes) → cut n s ≡ some (b, rest) → length rest + n ≡ length s
unfolding cut
cut_shorter n s b rest h = elim (Bool-cases (leb n (length s))) [
  | inl enough ↦
      let tail : drop n s ≡ rest = ground (arith, enough, h) in
      omega (arith, leb→le n (length s) enough, length-drop n s, ap length tail)
  | inr short ↦ absurd (ground (arith, short, h))
]

next_in_shorter :
    (s rest : Bytes) (frame : Frame) → next_in s ≡ some (frame, rest) → length rest < length s
unfolding next_in
next_in_shorter s rest frame h = elim (Option-cases (cut 128 s)) [
  | inl short ↦ absurd (ground (arith, short, h))
  | inr ((header, behind), there) ↦
      let n = get_u32_le header in
      let head = cut_shorter 128 s header behind there in
      elim (Option-cases (cut n behind)) [
        | inl short ↦ absurd (ground (arith, there, short, h))
        | inr ((payload, tail), body) ↦
            let same : tail ≡ rest = ground (arith, there, body, h) in
            omega (arith, head, cut_shorter n behind payload tail body, ap length same)
      ]
]

frames_from_enough :
    (fuel more : ℕ) (s : Bytes)
    → length s < fuel
    → length s < more
    → frames_from fuel s ≡ frames_from more s
unfolding frames_from
frames_from_enough zero more s lt lt' = absurd (omega arith)
frames_from_enough (suc fuel) zero s lt lt' = absurd (omega arith)
frames_from_enough (suc fuel) (suc more) s lt lt' = elim (Option-cases (next_in s)) [
  | inl over ↦ ground (arith, over)
  | inr ((frame, rest), comes) ↦
      let le = next_in_shorter s rest frame comes in
      ground (arith, comes, frames_from_enough fuel more rest (omega arith) (omega arith))
]

length-written : (fs : List Frame) → All IsFrame fs → length fs ≤ length (written fs)
length-written [] h = omega arith
length-written ((header, payload) ∷ fs) (valid, others) = omega (
  arith,
  valid.0,
  length-written fs others,
  length-append header (payload ++ written fs),
  length-append payload (written fs),
)

-- In a stream that starts with any row of frames, each with a header of 128 bytes that gives the
-- size of the payload, and no payload above 2000000 bytes, the reader finds these frames, and then
-- those of the rest.
pub frames_in-written :
    (fs : List Frame) (tail : Bytes)
    → All IsFrame fs
    → frames_in (written fs ++ tail) ≡ fs ++ frames_in tail
unfolding frames_in
frames_in-written fs tail h =
    let size = length-written fs h in
    let fuel = suc (length (written fs ++ tail)) in
    frames_from-written fuel fs tail h (omega (arith, length-append (written fs) tail))
    ∙ ap (λ x. fs ++ x)
        (frames_from_enough (fuel - length fs) (suc (length tail)) tail
          (omega (arith, length-append (written fs) tail)) (omega arith))

module _ {K D F : Type 0} (codecs : Codecs K D F) where
  -- The loop takes no more rounds than there are bytes before the stream ends: with any greater
  -- number of rounds allowed it comes to the same end.
  pub reader_rounds_enough :
      (fuel : ℕ) (es : List Recv) (s : Session K D F)
      → length (stream es) < fuel
      → reader_rounds codecs fuel es s ≡ reader_loop codecs es s
  reader_rounds_enough fuel es s enough =
      reader_rounds-frames codecs fuel es s
      ∙ ap (λ fs. on_frames codecs fs s)
          (frames_from_enough fuel (suc (length (stream es))) (stream es) enough (omega arith))
      ∙ unfold frames_in in sym (reader_loop-frames codecs es s)

  -- A sender's frames, each with a header that gives the size of the payload and no payload above
  -- 2000000 bytes, are all handled, in order and before anything else of the stream, whatever pieces
  -- they arrive in and whatever follows them.
  pub reader_loop-written :
      (fs : List Frame) (tail : Bytes) (es : List Recv) (s : Session K D F)
      → All IsFrame fs
      → stream es ≡ written fs ++ tail
      → reader_loop codecs es s ≡ on_frames codecs (frames_in tail) (on_frames codecs fs s)
  reader_loop-written fs tail es s valid sent =
      reader_loop-frames codecs es s
      ∙ ap (λ x. on_frames codecs x s) (ap frames_in sent ∙ frames_in-written fs tail valid)
      ∙ on_frames-append codecs fs (frames_in tail) s
