-- ===== src/Routes/Late.antt =====
-- A response that comes after the video was stopped.
use air_play_windows.Routes.Life.{current}
use air_play_windows.Base.{
  ◌==◌, Bool-cases, Option-cases, Bytes, equal, is_empty, u32, lookup, lookup-assign, ℕ, ◌%◌, ◌≡◌,
  refl, ap, ◌∙◌, inl, inr, true, false, not, ◌&&◌, some, [], arith,
}
use air_play_windows.Routes.{
  stopped, handle_stop, FcupResponse, find_generation, erase_generation, check_response,
  store_master, is_master, handle_action,
}
use air_play_windows.Routes.Stale.{on_session_here}
use air_play_windows.Routes.Stored.{handle_action-store, store-master}
use air_play_windows.Hls.{HlsSession, Registry, set_active_session}
use air_play_windows.Hls.Segments.{put}

-- What `stopped` leaves is what the check of a response reads.
check_response-stopped :
    (response_id : ℕ) (s s' : HlsSession)
    → check_response response_id s ≡ some s'
    → (t : HlsSession) × (check_response response_id (stopped s) ≡ some t)
      × (t.master_url ≡ s.master_url)
unfolding check_response
check_response-stopped response_id s s' current = elim (Bool-cases (response_id == 0)) [
  | inl unnumbered ↦ (stopped s, rw unnumbered refl, refl)
  | inr numbered ↦ elim (Option-cases (find_generation (response_id % u32) s.request_generations)) [
    | inl unknown ↦ absurd (ground (arith, current, numbered, unknown))
    | inr (g, known) ↦ elim (Bool-cases (g == s.playback_generation)) [
      | inr past ↦ absurd (ground (arith, current, numbered, known, past))
      | inl now ↦ (
        record (stopped s) {
          request_generations = erase_generation (response_id % u32) s.request_generations;
        },
        ground (arith, numbered, known, now),
        refl,
      )
    ]
  ]
]

handle_stop_here :
    (sid : Bytes) (r : Registry) (s : HlsSession)
    → is_empty sid ≡ false
    → lookup sid r.sessions ≡ some s
    → handle_stop sid r ≡ set_active_session [] (put sid (stopped s) r)
unfolding handle_stop
handle_stop_here sid r s named here =
    rw named (ap (set_active_session []) (on_session_here sid stopped r s here))

-- A response for the master url that is current before a `/stop` of its session is still stored after
-- it: the session then has the playlist of the response as its master playlist again.
pub handle_action-handle_stop :
    (port : ℕ) (sid : Bytes) (resp : FcupResponse) (r : Registry) (s s' : HlsSession)
    → is_empty sid ≡ false
    → lookup sid r.sessions ≡ some s
    → check_response resp.request_id s ≡ some s'
    → is_master resp.url s ≡ true
    → (t : HlsSession) × (lookup sid (handle_action port sid resp (handle_stop sid r)).sessions
        ≡ some t)
      × (t.master_playlist ≡ resp.playlist)
unfolding set_active_session
handle_action-handle_stop port sid resp r s s' named here current master =
    let (t, still, url) = check_response-stopped resp.request_id s s' current in
    let stop = handle_stop_here sid r s named here in
    let after = handle_stop sid r in
    let there : lookup sid after.sessions ≡ some (stopped s) =
      ap (λ (x : Registry). lookup sid x.sessions) stop
      ∙ lookup-assign sid (stopped s) r.sessions in
    let again : is_master resp.url t ≡ true =
      ap (λ m. not (is_empty m) && equal resp.url m) url ∙ master in
    let stored =
      handle_action-store port sid resp after (stopped s) t there still
      ∙ store-master port sid resp t after again in
    (
      store_master resp.playlist t,
      ap (λ (x : Registry). lookup sid x.sessions) stored
          ∙ lookup-assign sid (store_master resp.playlist t) after.sessions,
      refl,
    )
