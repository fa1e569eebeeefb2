-- ===== src/Routes/Remains.antt =====
-- The end of a connection that has played a video, which `handle_play` shows under another
-- identifier than the one of the streams.
use air_play_windows.Routes.Guard.{setup-Waits}
use air_play_windows.Base.{
  Bool-cases, Option-cases, Bytes, codes, equal, is_empty, ◌≡◌, refl, ap, ◌∙◌, subst, inl, inr,
  true, false, not, ◌&&◌, Option, none, some,
}
use air_play_windows.Routes.Connection.{Fresh, Connection, reply, handle_setup, hang_up}
use air_play_windows.Routes.Device.{
  no_device, Device, SetupRequest, clear_session_if_active, play_device,
}
use air_play_windows.Routes.Owner.{Shows, is_paired-Shows}
use air_play_windows.Streams.{StreamSession}

play_device-Shows : (ip sid : Bytes) (shown : Device) → Shows ip (play_device ip sid (some shown))
play_device-Shows ip sid none =
    (record no_device { peer_ip = ip; session_id = sid; kind = codes "HLS" }, refl, refl)
play_device-Shows ip sid (some dev) =
    (record dev { peer_ip = ip; session_id = sid; kind = codes "HLS" }, refl, refl)

kept-play_device :
    (ip sid id : Bytes) (r : Option Device)
    → equal sid id ≡ false
    → clear_session_if_active id (play_device ip sid r) ≡ play_device ip sid r
unfolding clear_session_if_active
kept-play_device ip sid id none other = refl
kept-play_device ip sid id (some none) other = rw other refl
kept-play_device ip sid id (some (some dev)) other = rw other refl

module _ {P : Type 0} where
  -- The streams, if there are any, have another identifier.
  abbrev pub Differs : Bytes → Option (Bytes × StreamSession P) → Type 0
  Differs sid none = Unit
  Differs sid (some (id, s)) = equal sid id ≡ false

  abbrev pub played : Bytes → Connection P → Connection P
  played sid c = record c { renderer = play_device c.remote_ip sid c.renderer }

  hang_up-played :
      (sid : Bytes) (c : Connection P)
      → Differs sid c.streams
      → (hang_up (played sid c)).0.renderer ≡ (played sid c).renderer
  unfolding hang_up
  hang_up-played sid c differs = elim (Option-cases c.streams) [
    | inl nothing ↦ rw nothing refl
    | inr ((id, s), here) ↦ rw here (elim (Bool-cases (is_empty id)) [
      | inl unnamed ↦ rw unnamed refl
      | inr named ↦
          rw named
            (kept-play_device c.remote_ip sid id c.renderer (subst (Differs sid) here differs))
    ])
  ]

  -- A receiver with a window goes on showing a sender that has played a video on a connection whose
  -- streams, if any, have another identifier than the video, although the connection has ended: a
  -- readable SETUP with a body from another address, on a connection without streams, is answered
  -- with 503 and changes nothing.
  pub hang_up-played_refuses :
      (sid : Bytes) (shown : Device) (c b : Connection P) (body : Bytes) (req : SetupRequest)
      (header : Bytes) (fresh : Fresh)
      → c.renderer ≡ some shown
      → Differs sid c.streams
      → b.streams ≡ none
      → b.renderer ≡ (hang_up (played sid c)).0.renderer
      → (not (is_empty c.remote_ip) && not (equal c.remote_ip b.remote_ip)) ≡ true
      → is_empty body ≡ false
      → handle_setup body (some req) header fresh b ≡ reply 503 b
  hang_up-played_refuses sid shown c b body req header fresh window differs no_streams shared other
        airplay2 =
      let still : Shows c.remote_ip b.renderer =
        rw (shared ∙ hang_up-played sid c differs ∙ ap (play_device c.remote_ip sid) window)
          (play_device-Shows c.remote_ip sid shown) in
      setup-Waits body req header fresh b airplay2
        (no_streams, is_paired-Shows c.remote_ip b.remote_ip b.renderer still ∙ other)
