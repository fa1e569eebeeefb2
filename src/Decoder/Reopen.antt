-- ===== src/Decoder/Reopen.antt =====
-- What a failed try to open a codec leaves behind.
use air_play_windows.Base.{if◌then◌else◌, ◌≡◌, refl, ap, ◌∙◌, Bool, true, false, Option, none, some}
use air_play_windows.Nal.{NalCodec, h264, hevc}
use air_play_windows.Decoder.{Ffmpeg, Impl, same_codec, retry_with, open_with, open_codec, reopen}

module _ {X F : Type 0} (ff : Ffmpeg X F) where
  abbrev Keeps : NalCodec → Impl X × Bool → Type 0
  Keeps id (d, ok) = d.codec_id ≡ id

  if-Keeps :
      (b : Bool) (id : NalCodec) (p q : Impl X × Bool)
      → Keeps id p
      → Keeps id q
      → Keeps id (if b then p else q)
  if-Keeps true id p q h k = h
  if-Keeps false id p q h k = k

  retry_with-Keeps : (o : Option X) (d : Impl X) → Keeps d.codec_id (retry_with ff o d)
  retry_with-Keeps none d = refl
  retry_with-Keeps (some x) d =
      let (y, ok) = ff.open2 (ff.set_software x) in
      if-Keeps ok d.codec_id (record d { ctx = some y; on_device = false }, true)
        (record d { ctx = some y }, false) refl refl

  open_with-Keeps : (o : Option X) (d : Impl X) → Keeps d.codec_id (open_with ff o d)
  open_with-Keeps none d = refl
  open_with-Keeps (some x) d =
      let (y, ok) = ff.open2 (ff.set_options d.has_device x) in
      let e = record d { on_device = d.has_device } in
      let again = retry_with ff (ff.alloc_context d.codec_id) e in
      let kept_shut : Impl X × Bool = (record e { ctx = some y }, false) in
      if-Keeps ok d.codec_id (record e { ctx = some y }, true)
        (if d.has_device then again else kept_shut) refl
        (if-Keeps d.has_device d.codec_id again kept_shut
          (retry_with-Keeps (ff.alloc_context d.codec_id) e) refl)

  same_codec_refl : (id : NalCodec) → same_codec id id ≡ true
  same_codec_refl h264 = refl
  same_codec_refl hevc = refl

  -- Once a codec that FFmpeg knows has been tried, whether it could be opened or not, the next
  -- configuration for it succeeds without another try, and leaves the context as it is.
  pub reopen-open_codec :
      (id : NalCodec) (d : Impl X)
      → ff.find_decoder id ≡ true
      → reopen ff id (open_codec ff id d).0 ≡ ((open_codec ff id d).0, true)
  unfolding reopen open_codec
  reopen-open_codec id d known =
      let e = (open_codec ff id d).0 in
      let same : e.codec_id ≡ id =
        rw known (open_with-Keeps (ff.alloc_context id) (record d { codec_id = id })) in
      ap (λ c. if same_codec c id then (e, true) else open_codec ff id e) same
      ∙ rw (same_codec_refl id)
