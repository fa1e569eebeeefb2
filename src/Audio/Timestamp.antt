-- ===== src/Audio/Timestamp.antt =====
-- src/audio/rtp_flush.h, `flush_timestamp`: the RTP time that a flush names in its RTP-Info.
use air_play_windows.Base.Int.{ℤ}
use air_play_windows.Audio.Intake.{enqueue}
use air_play_windows.Audio.Intake.Fence.{flush-fields, enqueue-flush}
use air_play_windows.Audio.Queue.{State, flush}
use air_play_windows.Audio.Queue.Fence.{IsFrame, NotBefore}
use air_play_windows.Base.{
  ltb, ◌==◌, if◌then◌else◌, length, All, Bytes, codes, is_empty, u32, strip_prefix, lacks,
  lacks-append, push_line, is_digit, digits_value, decimal, digits_value-decimal, all_digits,
  all_digits-decimal, decimal_digit, decimal-lacks, ℕ, ◌%◌, ◌<◌, ◌≡◌, refl, sym, ap, ◌∙◌, subst,
  true, false, not, ◌&&◌, ◌||◌, Option, none, some, List, [], ◌∷◌, ◌++◌, append-nil, arith,
}

-- The fields between semicolons and commas.
unfoldable pub fields : Bytes → List Bytes
fields [] = []
fields (c ∷ cs) =
    let rest = fields cs in if c == b';' || c == b',' then [] ∷ rest else push_line c rest

unfoldable pub strip_spaces_front : Bytes → Bytes
strip_spaces_front [] = []
strip_spaces_front (c ∷ cs) = if c == b' ' then strip_spaces_front cs else c ∷ cs

unfoldable pub strip_spaces_back : Bytes → Bytes
strip_spaces_back [] = []
strip_spaces_back (c ∷ cs) =
    let rest = strip_spaces_back cs in if c == b' ' && is_empty rest then [] else c ∷ rest

-- `std::from_chars` that takes all of the text.
unfoldable pub whole_number : Bytes → Option ℕ
whole_number s =
    if not (is_empty s) && all_digits s && ltb (digits_value 0 s) u32
    then some (digits_value 0 s)
    else none

abbrev pub field_value : Bytes → Option Bytes
field_value field = strip_prefix (codes "rtptime=") (strip_spaces_back (strip_spaces_front field))

-- The first field of that name decides.
unfoldable pub first_time : List Bytes → Option ℕ
first_time [] = none
first_time (f ∷ fs) =
    let later = first_time fs in elim (field_value f) [ none ↦ later | some s ↦ whole_number s ]

unfoldable pub flush_timestamp : Bytes → Option ℕ
flush_timestamp info = first_time (fields info)

-- A field of another name, without separators.
abbrev pub IsOther : Bytes → Type 0
IsOther f = (lacks b';' f ≡ true) × (lacks b',' f ≡ true) × (field_value f ≡ none)

abbrev pub separated : List Bytes → Bytes → Bytes
separated [] rest = rest
separated (f ∷ fs) rest = f ++ (b';' ∷ separated fs rest)

fields-append :
    (s t : Bytes)
    → lacks b';' s ≡ true
    → lacks b',' s ≡ true
    → fields (s ++ (b';' ∷ t)) ≡ s ∷ fields t
unfolding fields lacks
fields-append [] t h k = ground arith
fields-append (c ∷ cs) t h k = ground (arith, h, k, fields-append cs t)

strip_spaces_back-lacks : (s : Bytes) → lacks b' ' s ≡ true → strip_spaces_back s ≡ s
unfolding strip_spaces_back lacks
strip_spaces_back-lacks [] h = refl
strip_spaces_back-lacks (c ∷ cs) h = ground (arith, h, strip_spaces_back-lacks cs)

abbrev pub time_field : ℕ → Bytes
time_field v = codes "rtptime=" ++ decimal v

time_field-lacks :
    (ch v : ℕ)
    → is_digit ch ≡ false
    → lacks ch (codes "rtptime=") ≡ true
    → lacks ch (time_field v) ≡ true
time_field-lacks ch v no_digit no_name =
    lacks-append ch (codes "rtptime=") (decimal v) no_name (decimal-lacks ch v no_digit)

field_value-time_field : (v : ℕ) → field_value (time_field v) ≡ some (decimal v)
unfolding strip_spaces_front strip_prefix
field_value-time_field v =
    ap (strip_prefix (codes "rtptime="))
      (strip_spaces_back-lacks (time_field v) (time_field-lacks b' ' v refl (unfold lacks in refl)))

whole_number-decimal : (v : ℕ) → v < u32 → whole_number (decimal v) ≡ some v
unfolding whole_number
whole_number-decimal v small =
    let (c, cs, shape, digit) = decimal_digit v in
    let filled : is_empty (decimal v) ≡ false = ap is_empty shape in
    let digits = all_digits-decimal v in
    let value : digits_value 0 (decimal v) ≡ v =
      ap (digits_value 0) (sym (append-nil (decimal v)))
      ∙ digits_value-decimal v []
      ∙ unfold digits_value in refl in
    let fits : ltb v u32 ≡ true = ground (arith, small) in rw (filled, digits, value, fits) refl

first_time-fields :
    (before : List Bytes) (v : ℕ) (more : Bytes)
    → All IsOther before
    → v < u32
    → first_time (fields (separated before (time_field v ++ (b';' ∷ more)))) ≡ some v
unfolding first_time
first_time-fields [] v more others small =
    let cut =
      fields-append (time_field v) more (time_field-lacks b';' v refl (unfold lacks in refl))
        (time_field-lacks b',' v refl (unfold lacks in refl)) in
    ground (arith, cut, field_value-time_field v, whole_number-decimal v small)
first_time-fields (f ∷ fs) v more ((no_semi, no_comma, other), others) small =
    let cut = fields-append f (separated fs (time_field v ++ (b';' ∷ more))) no_semi no_comma in
    ground (arith, cut, other, first_time-fields fs v more others small)

-- A 32-bit time in a field `rtptime`, behind any fields of other names and in front of any text, is
-- read back.
pub flush_timestamp-separated :
    (before : List Bytes) (v : ℕ) (more : Bytes)
    → All IsOther before
    → v < u32
    → flush_timestamp (separated before (time_field v ++ (b';' ∷ more))) ≡ some v
unfolding flush_timestamp
flush_timestamp-separated before v more others small = first_time-fields before v more others small

-- A flush whose RTP-Info names a 32-bit time in a field `rtptime`, behind any fields of other names
-- and in front of any text, leaves no block before that time in the queue of a receiver, and none
-- gets there with the next block of PCM, where the blocks are of whole frames and no pause is
-- imported.
pub flush-flush_timestamp :
    (before : List Bytes) (b : ℕ) (more : Bytes) (at now margin : ℤ) (rtp : ℕ) (samples : List ℕ)
    (s : State)
    → All IsOther before
    → b < u32
    → rtp < u32
    → length samples % 2 ≡ 0
    → All IsFrame s.pcm_queue
    → s.imported_pause ≡ false
    → let info = separated before (time_field b ++ (b';' ∷ more)) in
      let s' = flush (flush_timestamp info) at s in
      NotBefore b s'.pcm_queue × NotBefore b (enqueue now margin rtp samples s').pcm_queue
flush-flush_timestamp before b more at now margin rtp samples s others small rtp_small even frames
      own =
    subst
      (λ time.
        NotBefore b (flush time at s).pcm_queue
        × NotBefore b (enqueue now margin rtp samples (flush time at s)).pcm_queue)
      (sym (flush_timestamp-separated before b more others small))
      (enqueue-flush b at (record { now = now; margin = margin; rtp = rtp; samples = samples } ∷ [])
        s small ((rtp_small, even), tt) frames own ((flush-fields b at s own).1, tt))
