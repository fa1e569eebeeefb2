-- ===== src/Mirror/Feed.antt =====
-- What reaches the decoder and the renderer.
use air_play_windows.Base.{
  leb, ◌==◌, length, All, Bytes, ◌+◌, ◌≤◌, ◌≡◌, refl, sym, ap, ◌∙◌, subst, Bool, true, false,
  Option, some, List, [], ◌∷◌, arith,
}
use air_play_windows.Mirror.{
  ftype_of, frame_video_idr, frame_sps_pps, Codecs, payload_bytes, Session, add_at, tell,
  tell_frame, count_frame, count_nals, configure, codec_of, decode_with, feed, feed_parsed,
  feed_clear, is_encrypted, play_video, on_frame,
}
use air_play_windows.Nal.{NalUnit}
use air_play_windows.Nal.Avcc.{IsNal, avcc, annexb, units_of, parse_nals-avcc}

module _ {K D F : Type 0} where
  pub count_nals-decoder :
      (us : List NalUnit) (s : Session K D F) → (count_nals us s).decoder ≡ s.decoder
  count_nals-decoder [] s = refl
  count_nals-decoder (u ∷ us) s =
      count_nals-decoder us (record s { nal_counts = add_at u.type 1 s.nal_counts })

  count_nals-renderer :
      (us : List NalUnit) (s : Session K D F) → (count_nals us s).renderer ≡ s.renderer
  count_nals-renderer [] s = refl
  count_nals-renderer (u ∷ us) s =
      count_nals-renderer us (record s { nal_counts = add_at u.type 1 s.nal_counts })

  -- The decoder has taken the payload and the renderer the frame that it gave.
  pub record Decoded (codecs : Codecs K D F) (is_idr : Bool) (payload : Bytes) (d : D)
      (s s' : Session K D F) : Type 0 where
    pub decoder_after : s'.decoder ≡ some (codecs.decode payload is_idr d).0
    pub renderer_after : s'.renderer ≡ tell_frame (codecs.decode payload is_idr d).1 s.renderer

module _ {K D F : Type 0} (codecs : Codecs K D F) where
  feed-Decoded :
      (is_idr : Bool) (payload : Bytes) (us : List NalUnit) (d : D) (s : Session K D F)
      → s.decoder ≡ some d
      → Decoded codecs is_idr payload d s (feed codecs is_idr payload (count_nals us s))
  unfolding feed
  feed-Decoded is_idr payload us d s has =
      let t = count_nals us s in
      let same : t.decoder ≡ some d = count_nals-decoder us s ∙ has in
      record {
        decoder_after = ap (λ x. (decode_with codecs is_idr payload t x).decoder) same;
        renderer_after =
            ap (λ x. (decode_with codecs is_idr payload t x).renderer) same
            ∙ ap (tell_frame (codecs.decode payload is_idr d).1) (count_nals-renderer us s);
      }

  pub feed_clear-Decoded :
      (is_idr : Bool) (ns : List Bytes) (d : D) (s : Session K D F)
      → s.decoder ≡ some d
      → All IsNal ns
      → Decoded codecs is_idr (annexb ns) d s (feed_clear codecs is_idr (some (avcc ns)) s)
  feed_clear-Decoded is_idr ns d s has valid =
      let codec = codec_of codecs s.decoder in
      subst (λ p. Decoded codecs is_idr (annexb ns) d s (feed_parsed codecs is_idr p s))
        (sym (parse_nals-avcc codec ns valid))
        (feed-Decoded is_idr (annexb ns) (units_of codec 0 ns) d s has)

  -- A frame of video that can be decrypted.
  pub on_frame_clear :
      (header payload : Bytes) (k : K) (s : Session K D F)
      → is_encrypted codecs (ftype_of header) ≡ true
      → 5 ≤ length payload
      → s.decrypt ≡ some k
      → on_frame codecs (header, payload) s
        ≡ feed_clear codecs
            (ftype_of header == frame_video_idr)
            (codecs.decrypt k payload).1
            (record (count_frame (ftype_of header) (length payload) s) {
              decrypt = some (codecs.decrypt k payload).0;
            })
  unfolding on_frame configure play_video
  on_frame_clear header payload k s video long has =
      let t = count_frame (ftype_of header) (length payload) s in
      let no_sets : (ftype_of header == frame_sps_pps) ≡ false = ground (arith, video) in
      let big : leb 5 (length payload) ≡ true = ground (arith, long) in
      let key : t.decrypt ≡ some k = unfold count_frame in has in
      ground (arith, no_sets, big, video, key)

  -- A video frame whose payload decrypts to a row of valid length-prefixed units, and that a
  -- receiver with its keys and a decoder gets, makes the decoder take exactly these units behind
  -- start codes, with the frame's kind, and the renderer gets the size of the packet and what the
  -- decoder gave.
  pub on_frame-avcc :
      (header payload : Bytes) (ns : List Bytes) (k k' : K) (d : D) (s : Session K D F)
      → is_encrypted codecs (ftype_of header) ≡ true
      → 5 ≤ length payload
      → s.decrypt ≡ some k
      → s.decoder ≡ some d
      → codecs.decrypt k payload ≡ (k', some (avcc ns))
      → All IsNal ns
      → Decoded codecs
          (ftype_of header == frame_video_idr)
          (annexb ns)
          d
          (record s { renderer = tell (payload_bytes (128 + length payload)) s.renderer })
          (on_frame codecs (header, payload) s)
  on_frame-avcc header payload ns k k' d s video long keys has clear valid =
      let t = count_frame (ftype_of header) (length payload) s in
      let u = record t { decrypt = some (codecs.decrypt k payload).0 } in
      let is_idr = ftype_of header == frame_video_idr in
      let has_u : u.decoder ≡ some d = unfold count_frame in has in
      let told : u.renderer ≡ tell (payload_bytes (128 + length payload)) s.renderer =
        unfold count_frame in refl in
      let entire =
        on_frame_clear header payload k s video long keys
        ∙ ap (λ (x : K × Option Bytes). feed_clear codecs is_idr x.1 u) clear in
      let h = feed_clear-Decoded is_idr ns d u has_u valid in
      record {
        decoder_after = ap (λ (x : Session K D F). x.decoder) entire ∙ h.decoder_after;
        renderer_after =
            ap (λ (x : Session K D F). x.renderer) entire
            ∙ h.renderer_after
            ∙ ap (tell_frame (codecs.decode (annexb ns) is_idr d).1) told;
      }
