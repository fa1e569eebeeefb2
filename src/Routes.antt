-- ===== src/Routes.antt =====
-- src/airplay/routes.cpp: what `POST /play`, `POST /action` and `POST /stop` do to the HLS sessions.
-- The property lists of the bodies are read by libplist and come as records; the sender's player,
-- the renderer, the playback clock and the cache of properties are left out. `static_cast<int>` of a
-- request number keeps its low 32 bits; the numbers that the program issues are below 2 ^ 31.
pub mod Stale
pub mod Stored
pub mod Late
pub mod Device
pub mod Connection
pub mod Settled
pub mod Life
pub mod Owner
pub mod Guard
pub mod Lost
pub mod Remains
mod Tests
use air_play_windows.Base.{
  leb, ◌==◌, if◌then◌else◌, length, drop, Bytes, codes, equal, is_empty, u32, lookup, assign, ℕ,
  ◌+◌, ◌-◌, ◌%◌, Bool, true, false, not, ◌&&◌, Option, none, some, List, [], ◌∷◌,
}
use air_play_windows.Base.Int.{ℤ, pos, ltb_ℤ}
use air_play_windows.Hls.{HlsSession, Registry, get_or_create, set_active_session, socket_for}
use air_play_windows.Hls.Segments.{put, deliver_segment, deliver_segment_redirect}
use air_play_windows.Hls.Condensed.{expand_yt_condensed_playlist}
use air_play_windows.Hls.Rewrite.{Rewritten, rewrite_segments_to_local}
use air_play_windows.Hls.Master.{media_uris, extract_media_uris}

-- The fields of a `PlayRequest` that the handler uses for the sessions.
pub record PlayRequest : Type 0 where
  pub url : Bytes
  pub client_proc : Bytes
  pub session_id : Bytes

-- `reset_hls_media_state`.
unfoldable pub reset_hls_media_state : Bytes → HlsSession → HlsSession
reset_hls_media_state master_url s =
    let generation = s.playback_generation + 1 in
    record s {
      master_url = master_url;
      master_playlist = [];
      media_uris = [];
      media_playlists = [];
      playback_generation = generation;
      master_request_id = s.next_request_id;
      next_request_id = s.next_request_id + 1;
      segment_data = [];
      segment_redirect = [];
      request_generations = (s.next_request_id, generation) ∷ [];
      seg_url_map = [];
      seg_url_counter = 0;
      media_playlist_ready = false;
      playback_started = true;
    }

-- What a handler does to the session of an identifier, if there is one.
unfoldable pub on_session : Bytes → (HlsSession → HlsSession) → Registry → Registry
on_session id f r = elim (lookup id r.sessions) [ none ↦ r | some s ↦ put id (f s) r ]

abbrev pub start_play : PlayRequest → Registry → Registry
start_play play r =
    on_session play.session_id (reset_hls_media_state play.url)
      (set_active_session play.session_id (get_or_create play.session_id r))

-- `handle_play`, with the sockets of the reverse channels.
unfoldable pub handle_play : List (Bytes × ℤ) → PlayRequest → Registry → Registry
handle_play fds play r =
    if not (equal play.client_proc (codes "YouTube"))
    then r
    else if ltb_ℤ (socket_for play.session_id fds) (pos 0)
    then r
    else start_play play r

abbrev pub stopped : HlsSession → HlsSession
stopped s = record s {
  playback_started = false;
  media_playlist_ready = false;
  master_playlist = [];
  media_uris = [];
  media_playlists = [];
  segment_data = [];
  segment_redirect = [];
  seg_url_map = [];
  seg_url_counter = 0;
}

-- `handle_stop`.
unfoldable pub handle_stop : Bytes → Registry → Registry
handle_stop sid r = if is_empty sid then r else set_active_session [] (on_session sid stopped r)

-- The fields of an FCUP response; `redirect_location` is empty but for a status of 302.
pub record FcupResponse : Type 0 where
  pub url : Bytes
  pub request_id : ℕ
  pub playlist : Bytes
  pub redirect_location : Bytes

unfoldable pub find_generation : ℕ → List (ℕ × ℕ) → Option ℕ
find_generation request [] = none
find_generation request ((k, g) ∷ m) = if k == request then some g else find_generation request m

unfoldable pub erase_generation : ℕ → List (ℕ × ℕ) → List (ℕ × ℕ)
erase_generation request [] = []
erase_generation request ((k, g) ∷ m) =
    let rest = erase_generation request m in if k == request then rest else (k, g) ∷ rest

-- The session as the check of the request number leaves it, nothing for a stale response.
unfoldable pub check_response : ℕ → HlsSession → Option HlsSession
check_response response_id s =
    let request_id = response_id % u32 in
    if response_id == 0 then some s else elim (find_generation request_id s.request_generations) [
      | none ↦ none
      | some g ↦
          if g == s.playback_generation
          then some
              (record s { request_generations = erase_generation request_id s.request_generations })
          else none
    ]

abbrev pub store_master : Bytes → HlsSession → HlsSession
store_master playlist s = record s {
  master_playlist = playlist;
  media_uris = extract_media_uris playlist;
}

abbrev pub localised : ℕ → Bytes → HlsSession → Rewritten
localised port playlist s = rewrite_segments_to_local port (expand_yt_condensed_playlist playlist) s

abbrev pub store_media : ℕ → Bytes → Bytes → HlsSession → HlsSession
store_media port url playlist s =
    let rewritten = localised port playlist s in
    record rewritten.session {
      media_playlists = assign url rewritten.out rewritten.session.media_playlists;
      media_playlist_ready = true;
    }

abbrev pub is_master : Bytes → HlsSession → Bool
is_master url s = not (is_empty s.master_url) && equal url s.master_url

abbrev pub is_m3u8 : Bytes → Bool
is_m3u8 url = leb 5 (length url) && equal (drop (length url - 5) url) (codes ".m3u8")

-- What a response that is current does, `s` being its session.
unfoldable pub store : ℕ → Bytes → FcupResponse → HlsSession → Registry → Registry
store port sid resp s r =
    if is_master resp.url s
    then put sid (store_master resp.playlist s) r
    else if is_m3u8 resp.url
    then put sid (store_media port resp.url resp.playlist s) r
    else if not (is_empty resp.redirect_location)
    then deliver_segment_redirect sid resp.url resp.redirect_location (put sid s r)
    else deliver_segment sid resp.url resp.playlist (put sid s r)

-- `handle_action` on an FCUP response.
unfoldable pub handle_action : ℕ → Bytes → FcupResponse → Registry → Registry
handle_action port sid resp r = elim (lookup sid r.sessions) [
  | none ↦ r
  | some s ↦ elim (check_response resp.request_id s) [
    | none ↦ r
    | some s' ↦ store port sid resp s' r
  ]
]
