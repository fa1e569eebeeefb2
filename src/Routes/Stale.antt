-- ===== src/Routes/Stale.antt =====
-- Responses to the requests of a video that is no longer the one that plays.
use air_play_windows.Base.{
  ◌==◌, Option-cases, Bytes, codes, equal, u32, lookup, lookup-assign, ℕ, ◌%◌, ◌≡◌, refl, sym, ap,
  ◌∙◌, ◌≢◌, inl, inr, true, false, none, some, List, arith,
}
use air_play_windows.Base.Int.{ℤ, pos, ltb_ℤ}
use air_play_windows.Routes.{
  PlayRequest, reset_hls_media_state, on_session, start_play, handle_play, FcupResponse,
  find_generation, check_response, handle_action,
}
use air_play_windows.Hls.{
  HlsSession, Registry, new_session, get_or_create, set_active_session, socket_for,
}
use air_play_windows.Hls.Segments.{put}

lookup-get_or_create :
    (id : Bytes) (r : Registry)
    → (s : HlsSession) × (lookup id (get_or_create id r).sessions ≡ some s)
unfolding get_or_create
lookup-get_or_create id r = elim (Option-cases (lookup id r.sessions)) [
  | inl missing ↦
      (new_session id, ground (arith, missing, lookup-assign id (new_session id) r.sessions))
  | inr (s, there) ↦ (s, ground (arith, there))
]

pub on_session_here :
    (id : Bytes) (f : HlsSession → HlsSession) (r : Registry) (s : HlsSession)
    → lookup id r.sessions ≡ some s
    → on_session id f r ≡ put id (f s) r
unfolding on_session
on_session_here id f r s there = ground (arith, there)

-- The session that a new video starts in.
pub record Started (play : PlayRequest) (r : Registry) : Type 0 where
  pub old : HlsSession
  pub here : lookup play.session_id r.sessions ≡ some (reset_hls_media_state play.url old)
  pub first : r.active_session_id ≡ play.session_id

pub start_play-Started : (play : PlayRequest) (r : Registry) → Started play (start_play play r)
unfolding set_active_session
start_play-Started play r =
    let id = play.session_id in
    let (s, there) = lookup-get_or_create id r in
    let t = set_active_session id (get_or_create id r) in
    let whole : start_play play r ≡ put id (reset_hls_media_state play.url s) t =
      on_session_here id (reset_hls_media_state play.url) t s there in
    record {
      old = s;
      here =
          ap (λ (x : Registry). lookup id x.sessions) whole
          ∙ lookup-assign id (reset_hls_media_state play.url s) t.sessions;
      first = ap (λ (x : Registry). x.active_session_id) whole;
    }

pub handle_play-Started :
    (fds : List (Bytes × ℤ)) (play : PlayRequest) (r : Registry)
    → equal play.client_proc (codes "YouTube") ≡ true
    → ltb_ℤ (socket_for play.session_id fds) (pos 0) ≡ false
    → Started play (handle_play fds play r)
unfolding handle_play
handle_play-Started fds play r youtube channel = rw (youtube, channel) (start_play-Started play r)

check_response_stale :
    (url : Bytes) (s : HlsSession) (response_id : ℕ)
    → response_id ≢ 0
    → response_id % u32 ≢ s.next_request_id
    → check_response response_id (reset_hls_media_state url s) ≡ none
unfolding check_response reset_hls_media_state find_generation
check_response_stale url s response_id numbered other =
    let some_id : (response_id == 0) ≡ false = ground (arith, numbered) in
    let apart : (s.next_request_id == response_id % u32) ≡ false = ground (arith, other) in
    rw (some_id, apart) refl

pub handle_action_here :
    (port : ℕ) (sid : Bytes) (resp : FcupResponse) (r : Registry) (s : HlsSession)
    → lookup sid r.sessions ≡ some s
    → check_response resp.request_id s ≡ none
    → handle_action port sid resp r ≡ r
unfolding handle_action
handle_action_here port sid resp r s there stale = ground (arith, there, stale)

-- After a `/play` that is carried out, whatever the session was before, a numbered response that is
-- not to the new request for the master playlist changes nothing: what was asked for the video
-- before never mixes with the new one.
pub handle_action-handle_play :
    (port : ℕ) (fds : List (Bytes × ℤ)) (play : PlayRequest) (r : Registry) (resp : FcupResponse)
    (s : HlsSession)
    → equal play.client_proc (codes "YouTube") ≡ true
    → ltb_ℤ (socket_for play.session_id fds) (pos 0) ≡ false
    → lookup play.session_id (handle_play fds play r).sessions ≡ some s
    → resp.request_id ≢ 0
    → resp.request_id % u32 ≢ s.master_request_id
    → handle_action port play.session_id resp (handle_play fds play r) ≡ handle_play fds play r
handle_action-handle_play port fds play r resp s youtube channel here numbered other =
    let start = handle_play-Started fds play r youtube channel in
    let same : s ≡ reset_hls_media_state play.url start.old = ground (arith, here, start.here) in
    let apart : resp.request_id % u32 ≢ start.old.next_request_id = λ e. other (
      e
      ∙ unfold reset_hls_media_state in ap (λ (x : HlsSession). x.master_request_id) (sym same)) in
    handle_action_here port play.session_id resp (handle_play fds play r)
      (reset_hls_media_state play.url start.old) start.here
      (check_response_stale play.url start.old resp.request_id numbered apart)
