-- ===== src/Decoder/Idr.antt =====
-- What FFmpeg gets behind a configuration frame.
use air_play_windows.Mirror.Feed.{on_frame-avcc}
use air_play_windows.Base.{
  ◌==◌, if◌then◌else◌, length, get_or, All, Bytes, is_empty, ◌%◌, ◌≤◌, ◌≡◌, refl, ap, ◌∙◌, Bool,
  true, false, Option, none, some, List, [], ◌∷◌, ◌++◌,
}
use air_play_windows.Decoder.Arrays.{
  Array, IsArray, kept, hvcc_record, parse_hvcc-written, parse_avcc-hvcc, hvcc_record-long,
}
use air_play_windows.Decoder.Config.{Sets, no_sets, all_found}
use air_play_windows.Decoder.Written.{
  Avcc, avcc_record, IsAvccRecord, avcc_record_long, parse_avcc-written,
}
use air_play_windows.Nal.{h264, hevc, start_code}
use air_play_windows.Nal.Avcc.{IsNal, avcc, annexb}
use air_play_windows.Mirror.{
  ftype_of, frame_video_idr, frame_sps_pps, Codecs, Session, count_frame, configure, is_encrypted,
  play_video, on_frame,
}
use air_play_windows.Decoder.{
  Ffmpeg, Impl, is_hevc, packet_of, reopen, set_parameter_sets_from_avcc, submit, decode,
}

module _ {X F : Type 0} (ff : Ffmpeg X F) where
  abbrev pub cached : Bytes → Bytes → Bytes → Impl X → Impl X
  cached vps sps pps d = record d { vps_annexb = vps; sps_annexb = sps; pps_annexb = pps }

  pub set_parameter_sets-avcc :
      (c : Avcc) (behind : Bytes) (d d' : Impl X)
      → IsAvccRecord c
      → reopen ff h264 d ≡ (d', true)
      → set_parameter_sets_from_avcc ff (avcc_record c ++ behind) d
        ≡ (cached [] (start_code ++ c.sps) (start_code ++ c.pps) d', true)
  unfolding set_parameter_sets_from_avcc
  set_parameter_sets-avcc c behind d d' ok reopened =
      rw (avcc_record_long c behind, parse_avcc-written c behind ok, reopened)

  -- An hvcC behind which anything may stand, whose profile leaves the reserved compatibility flags
  -- clear and whose arrays hold units of all three kinds, makes the decoder cache the first unit of
  -- each array behind a start code, where the codec is HEVC or can be opened.
  pub set_parameter_sets-hvcc :
      (format behind : Bytes) (more : List Array) (s : Sets) (d d' : Impl X)
      → length format ≡ 21
      → get_or format 4 0 % 32 ≡ 0
      → All IsArray more
      → all_found (kept more no_sets) ≡ some s
      → reopen ff hevc d ≡ (d', true)
      → set_parameter_sets_from_avcc ff (hvcc_record format more ++ behind) d
        ≡ (cached s.vps s.sps s.pps d', true)
  unfolding set_parameter_sets_from_avcc
  set_parameter_sets-hvcc format behind more s d d' size clear ok found reopened = rw (
    hvcc_record-long format behind more size,
    parse_avcc-hvcc format behind more size clear,
    parse_hvcc-written format behind more size ok,
    found,
    reopened,
  )

  packet_of-cached :
      (sps pps : Bytes) (ns : List Bytes) (d : Impl X)
      → packet_of true (annexb ns) (cached [] (start_code ++ sps) (start_code ++ pps) d)
        ≡ annexb (sps ∷ (pps ∷ ns))
  unfolding packet_of
  packet_of-cached sps pps ns d = refl

  decode-cached :
      (sps pps n : Bytes) (ns : List Bytes) (d : Impl X)
      → decode ff (annexb (n ∷ ns)) true (cached [] (start_code ++ sps) (start_code ++ pps) d)
        ≡ submit ff
            (annexb (sps ∷ (pps ∷ (n ∷ ns))))
            d.ctx
            (cached [] (start_code ++ sps) (start_code ++ pps) d)
  unfolding decode
  decode-cached sps pps n ns d =
      ap (λ p. submit ff p d.ctx (cached [] (start_code ++ sps) (start_code ++ pps) d))
        (packet_of-cached sps pps (n ∷ ns) d)

  -- `current_avframe`, behind a `decode` that got a frame.
  abbrev current_avframe : Impl X → Option F → Option F
  current_avframe d frame = if d.last_w == 0 then none else frame

  abbrev shared : Impl X × (Option F × Bool) → Impl X × Option F
  shared (d, (frame, ok)) = (d, current_avframe d frame)

module _ {K X F : Type 0} (ff : Ffmpeg X F) (decrypt : K → Bytes → K × Option Bytes) where
  -- The decoder as the reader of a mirror connection uses it.
  abbrev pub decoder_codecs : Codecs K (Impl X) F
  decoder_codecs = record {
    decrypt = decrypt;
    set_parameter_sets = λ payload d. (set_parameter_sets_from_avcc ff payload d).0;
    is_hevc = is_hevc;
    decode = λ payload is_idr d. shared ff (decode ff payload is_idr d);
  }

  on_frame-config :
      (header payload : Bytes) (d : Impl X) (s : Session K (Impl X) F)
      → ftype_of header ≡ frame_sps_pps
      → is_empty payload ≡ false
      → s.decoder ≡ some d
      → on_frame decoder_codecs (header, payload) s
        ≡ record (count_frame frame_sps_pps (length payload) s) {
          decoder = some (set_parameter_sets_from_avcc ff payload d).0;
        }
  unfolding on_frame configure play_video count_frame
  on_frame-config header payload d s kind full has = rw (kind, full, has)

  -- A configuration frame with an avcC, and behind it a key frame whose payload decrypts to a row of
  -- valid length-prefixed units: where the codec is H.264 or can be opened, FFmpeg gets the first
  -- parameter set of each kind and then exactly these units, each behind a start code, in one packet.
  pub on_frame-avcc_idr :
      (h1 h2 behind payload n : Bytes) (c : Avcc) (ns : List Bytes) (k k' : K) (d d' : Impl X)
      (s : Session K (Impl X) F)
      → ftype_of h1 ≡ frame_sps_pps
      → ftype_of h2 ≡ frame_video_idr
      → IsAvccRecord c
      → 5 ≤ length payload
      → All IsNal (n ∷ ns)
      → s.decrypt ≡ some k
      → s.decoder ≡ some d
      → decrypt k payload ≡ (k', some (avcc (n ∷ ns)))
      → reopen ff h264 d ≡ (d', true)
      → (on_frame decoder_codecs
          (h2, payload)
          (on_frame decoder_codecs (h1, avcc_record c ++ behind) s)).decoder
        ≡ some
            (submit ff
              (annexb (c.sps ∷ (c.pps ∷ (n ∷ ns))))
              d'.ctx
              (cached ff [] (start_code ++ c.sps) (start_code ++ c.pps) d')).0
  on_frame-avcc_idr h1 h2 behind payload n c ns k k' d d' s config idr ok long valid keys has clear
        reopened =
      let d2 = cached ff [] (start_code ++ c.sps) (start_code ++ c.pps) d' in
      let t = on_frame decoder_codecs (h1, avcc_record c ++ behind) s in
      let entire = on_frame-config h1 (avcc_record c ++ behind) d s config refl has in
      let keys_t : t.decrypt ≡ some k =
        ap (λ (x : Session K (Impl X) F). x.decrypt) entire ∙ (unfold count_frame in keys) in
      let has_t : t.decoder ≡ some d2 =
        ap (λ (x : Session K (Impl X) F). x.decoder) entire
        ∙ ap (λ (x : Impl X × Bool). some x.0)
            (set_parameter_sets-avcc ff c behind d d' ok reopened) in
      let video : is_encrypted decoder_codecs (ftype_of h2) ≡ true = rw idr in
      let after =
        on_frame-avcc decoder_codecs h2 payload (n ∷ ns) k k' d2 t video long keys_t has_t clear
          valid in
      let key_frame : (ftype_of h2 == frame_video_idr) ≡ true = rw idr in
      after.decoder_after
      ∙ ap (λ b. some (shared ff (decode ff (annexb (n ∷ ns)) b d2)).0) key_frame
      ∙ ap (λ x. some (shared ff x).0) (decode-cached ff c.sps c.pps n ns d')
