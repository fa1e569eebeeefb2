-- ===== src/Mirror/Steps.antt =====
-- How the decoder's state goes on, whatever the sender sends.
use air_play_windows.Base.{
  leb, ◌==◌, Bool-cases, Option-cases, length, All, Bytes, IsByte, is_empty, ◌≤◌, ◌≡◌, refl, sym,
  ap, ◌∙◌, subst, ◌⊎◌, inl, inr, Bool, true, false, ◌&&◌, Option, none, some, List, [], ◌∷◌, arith,
}
use air_play_windows.Mirror.{
  Recv, ftype_of, frame_video_idr, frame_sps_pps, Codecs, Session, count_frame, count_nals,
  configure, codec_of, decode_with, feed, feed_clear, is_encrypted, play_video, on_frame, stream,
  reader_loop,
}
use air_play_windows.Mirror.Feed.{count_nals-decoder, feed_clear-Decoded, on_frame_clear}
use air_play_windows.Mirror.Stream.{Frame, frames_in, on_frames, reader_loop-frames}
use air_play_windows.Nal.{Parsed, parse_nals_avcc_to_annexb}
use air_play_windows.Nal.Avcc.{IsNal, avcc, annexb, parse_nals-IsAvcc}

module _ {K D F : Type 0} (codecs : Codecs K D F) where
  -- A configuration frame has set the parameters.
  pub record Reconfigured (frame : Frame) (x y : Option D) : Type 0 where
    pub decoder : D
    pub before : x ≡ some decoder
    pub after : y ≡ some (codecs.set_parameter_sets frame.1 decoder)
    pub kind : ftype_of frame.0 ≡ frame_sps_pps

  -- A payload that decrypts to valid units has been decoded, behind start codes.
  pub record Fed (frame : Frame) (x y : Option D) : Type 0 where
    pub decoder : D
    pub key : K
    pub units : List Bytes
    pub valid : All IsNal units
    pub clear : (codecs.decrypt key frame.1).1 ≡ some (avcc units)
    pub before : x ≡ some decoder
    pub after :
        y ≡ some (codecs.decode (annexb units) (ftype_of frame.0 == frame_video_idr) decoder).0
    pub kind : is_encrypted codecs (ftype_of frame.0) ≡ true

  abbrev pub DecoderStep : Frame → Option D → Option D → Type 0
  DecoderStep frame x y = (y ≡ x) ⊎ (Reconfigured frame x y ⊎ Fed frame x y)

  -- A row of steps, one for each frame.
  abbrev pub DecoderSteps : List Frame → Option D → Option D → Type 0
  DecoderSteps [] x y = y ≡ x
  DecoderSteps (f ∷ fs) x y = (z : Option D) × DecoderStep f x z × DecoderSteps fs z y

  configure-step :
      (header payload : Bytes) (s : Session K D F)
      → ftype_of header ≡ frame_sps_pps
      → DecoderStep
          (header, payload)
          s.decoder
          (configure codecs (ftype_of header) payload s).decoder
  unfolding configure
  configure-step header payload s kind = elim (Bool-cases (is_empty payload)) [
    | inl empty ↦ inl (ground (arith, empty))
    | inr full ↦ elim (Option-cases s.decoder) [
      | inl missing ↦ inl (ground (arith, full, kind, missing))
      | inr (d, has) ↦ inr (
          inl (record {
            decoder = d;
            before = has;
            after = ground (arith, full, kind, has);
            kind = kind;
          }))
    ]
  ]

  -- The decryption fills a buffer of bytes.
  abbrev pub GivesBytes : Type 0
  GivesBytes = (k : K) (p c : Bytes) → (codecs.decrypt k p).1 ≡ some c → All IsByte c

  feed_missing :
      (is_idr : Bool) (parsed : Parsed) (s : Session K D F)
      → s.decoder ≡ none
      → (feed codecs is_idr parsed.payload (count_nals parsed.units s)).decoder ≡ s.decoder
  unfolding feed
  feed_missing is_idr parsed s missing =
      let t = count_nals parsed.units s in
      ap (λ x. (decode_with codecs is_idr parsed.payload t x).decoder)
        (count_nals-decoder parsed.units s ∙ missing)
      ∙ count_nals-decoder parsed.units s

  clear-step :
      (header payload : Bytes) (k : K) (s : Session K D F)
      → GivesBytes
      → is_encrypted codecs (ftype_of header) ≡ true
      → DecoderStep
          (header, payload)
          s.decoder
          (feed_clear codecs
            (ftype_of header == frame_video_idr)
            (codecs.decrypt k payload).1
            s).decoder
  clear-step header payload k s bytes kind = elim (Option-cases (codecs.decrypt k payload).1) [
    | inl undecrypted ↦ inl (rw undecrypted refl)
    | inr (c, clear) ↦
        let codec = codec_of codecs s.decoder in
        elim (Bool-cases (parse_nals_avcc_to_annexb codec c).ok) [
          | inr malformed ↦ inl (rw (clear, malformed) refl)
          | inl ok ↦ elim (Option-cases s.decoder) [
            | inl missing ↦ inl (
                rw (clear, ok)
                  (feed_missing (ftype_of header == frame_video_idr)
                    (parse_nals_avcc_to_annexb codec c) s missing))
            | inr (d, has) ↦
                let (ns, valid, same) =
                  (parse_nals-IsAvcc codec c (bytes k payload c clear)).0 ok in
                let h =
                  feed_clear-Decoded codecs (ftype_of header == frame_video_idr) ns d s has valid in
                inr (
                  inr (record {
                    decoder = d;
                    key = k;
                    units = ns;
                    valid = valid;
                    clear = clear ∙ ap some same;
                    before = has;
                    after =
                        ap
                          (λ x.
                            (feed_clear codecs (ftype_of header == frame_video_idr) x s).decoder)
                          (clear ∙ ap some same)
                        ∙ h.decoder_after;
                    kind = kind;
                  }))
          ]
        ]
  ]

  -- A frame that is neither a configuration nor video for the decryption changes nothing there.
  on_frame_other :
      (header payload : Bytes) (s : Session K D F)
      → (ftype_of header == frame_sps_pps) ≡ false
      → (is_encrypted codecs (ftype_of header) && leb 5 (length payload)) ≡ false
      → (on_frame codecs (header, payload) s).decoder ≡ s.decoder
  unfolding on_frame configure play_video count_frame
  on_frame_other header payload s no_sets no_video = ground (arith, no_sets, no_video)

  on_frame_sets :
      (header payload : Bytes) (s : Session K D F)
      → ftype_of header ≡ frame_sps_pps
      → on_frame codecs (header, payload) s
        ≡ configure codecs
            (ftype_of header)
            payload
            (count_frame (ftype_of header) (length payload) s)
  unfolding on_frame play_video
  on_frame_sets header payload s kind =
      let no_video : (is_encrypted codecs (ftype_of header) && leb 5 (length payload)) ≡ false =
        ground (arith, kind) in
      ground (arith, no_video)

  -- Without keys.
  on_frame_keyless :
      (header payload : Bytes) (s : Session K D F)
      → (ftype_of header == frame_sps_pps) ≡ false
      → s.decrypt ≡ none
      → (on_frame codecs (header, payload) s).decoder ≡ s.decoder
  unfolding on_frame configure play_video count_frame
  on_frame_keyless header payload s no_sets keyless = ground (arith, no_sets, keyless)

  pub on_frame-DecoderStep :
      (frame : Frame) (s : Session K D F)
      → GivesBytes
      → DecoderStep frame s.decoder (on_frame codecs frame s).decoder
  on_frame-DecoderStep (header, payload) s bytes =
      let ftype = ftype_of header in
      let t = count_frame ftype (length payload) s in
      let same : t.decoder ≡ s.decoder = unfold count_frame in refl in
      elim (Bool-cases (ftype == frame_sps_pps)) [
        | inl sets ↦
            let kind : ftype ≡ frame_sps_pps = ground (arith, sets) in
            subst (λ x. DecoderStep (header, payload) s.decoder x)
              (sym (ap (λ (x : Session K D F). x.decoder) (on_frame_sets header payload s kind)))
              (unfold count_frame in configure-step header payload t kind)
        | inr no_sets ↦ elim (Bool-cases (is_encrypted codecs ftype && leb 5 (length payload))) [
          | inr no_video ↦ inl (on_frame_other header payload s no_sets no_video)
          | inl video ↦ elim (Option-cases s.decrypt) [
            | inl keyless ↦ inl (on_frame_keyless header payload s no_sets keyless)
            | inr (k, keys) ↦
                let kind : is_encrypted codecs ftype ≡ true = ground (arith, video) in
                let long : 5 ≤ length payload = ground (arith, video) in
                let u = record t { decrypt = some (codecs.decrypt k payload).0 } in
                subst (λ x. DecoderStep (header, payload) s.decoder x)
                  (sym (
                    ap (λ (x : Session K D F). x.decoder)
                      (on_frame_clear codecs header payload k s kind long keys)))
                  (unfold count_frame in clear-step header payload k u bytes kind)
          ]
        ]
      ]

  on_frames-DecoderSteps :
      (fs : List Frame) (s : Session K D F)
      → GivesBytes
      → DecoderSteps fs s.decoder (on_frames codecs fs s).decoder
  unfolding on_frames
  on_frames-DecoderSteps [] s bytes = refl
  on_frames-DecoderSteps (f ∷ fs) s bytes = (
    (on_frame codecs f s).decoder,
    on_frame-DecoderStep f s bytes,
    on_frames-DecoderSteps fs (on_frame codecs f s) bytes,
  )

  -- Whatever a sender sends and however the network cuts it, each frame of the stream either leaves
  -- the decoder as it is, or is a configuration frame that sets its parameters, or is a video frame
  -- whose decrypted payload is a row of valid units, which the decoder takes behind start codes: no
  -- malformed payload ever gets there. The decryption is assumed to give bytes.
  pub reader_loop-DecoderSteps :
      (es : List Recv) (s : Session K D F)
      → GivesBytes
      → DecoderSteps (frames_in (stream es)) s.decoder (reader_loop codecs es s).decoder
  reader_loop-DecoderSteps es s bytes =
      subst (λ (x : Session K D F). DecoderSteps (frames_in (stream es)) s.decoder x.decoder)
        (sym (reader_loop-frames codecs es s))
        (on_frames-DecoderSteps (frames_in (stream es)) s bytes)
