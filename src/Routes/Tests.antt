-- ===== src/Routes/Tests.antt =====
-- A video that starts, a late answer, the master playlist and a media playlist.
mod Senders
use air_play_windows.Streams.{new_session as new_streams}
use air_play_windows.Routes.Late.{handle_action-handle_stop}
use air_play_windows.Base.{
  Bytes, codes, equal, strip_prefix, split_at, lookup, assign, ◌≡◌, refl, sym, Bool, true, false,
  some, List, [], ◌∷◌, ◌++◌, arith,
}
use air_play_windows.Base.Int.{ℤ, pos, ltb_ℤ}
use air_play_windows.Routes.{
  PlayRequest, reset_hls_media_state, on_session, handle_play, handle_stop, FcupResponse,
  find_generation, erase_generation, check_response, localised, is_master, is_m3u8, handle_action,
}
use air_play_windows.Routes.Stale.{handle_action-handle_play}
use air_play_windows.Routes.Stored.{
  lookup_playlist-handle_action, resolve_segment_path-handle_action,
}
use air_play_windows.Hls.{
  HlsSession, Registry, new_session, get_or_create, set_active_session, resolve_segment_path,
  lookup_playlist, socket_for,
}
use air_play_windows.Hls.Condensed.{expand_yt_condensed_playlist}
use air_play_windows.Hls.Rewrite.{
  local_path, local_url, pieces, strip_return, newline, rewrite_pieces,
}

abbrev nothing_yet : Registry
nothing_yet = record { sessions = []; active_session_id = [] }

abbrev channels : List (Bytes × ℤ)
channels = (codes "s", pos 7) ∷ []

abbrev video : PlayRequest
video = record { url = codes "m"; client_proc = codes "YouTube"; session_id = codes "s" }

abbrev video_session : HlsSession
video_session = reset_hls_media_state (codes "m") (new_session (codes "s"))

video_here :
    lookup (codes "s") (handle_play channels video nothing_yet).sessions ≡ some video_session
unfolding handle_play get_or_create lookup assign equal socket_for on_session set_active_session
    reset_hls_media_state
video_here = refl

video_channel : ltb_ℤ (socket_for (codes "s") channels) (pos 0) ≡ false
unfolding socket_for lookup equal
video_channel = refl

video_number : video_session.master_request_id ≡ 1
unfolding reset_hls_media_state
video_number = refl

from_youtube : equal (codes "YouTube") (codes "YouTube") ≡ true
unfolding equal
from_youtube = refl

abbrev late : FcupResponse
late = record { url = codes "old"; request_id = 9; playlist = codes "x"; redirect_location = [] }

handle_action-handle_play_example :
    handle_action 7100 (codes "s") late (handle_play channels video nothing_yet)
    ≡ handle_play channels video nothing_yet
handle_action-handle_play_example =
    handle_action-handle_play 7100 channels video nothing_yet late video_session from_youtube
      video_channel video_here (ground arith) (ground (arith, video_number))

abbrev answer : FcupResponse
answer = record {
  url = codes "m";
  request_id = 1;
  playlist = codes "#EXTM3U";
  redirect_location = [];
}

lookup_playlist-handle_action_example :
    lookup_playlist
      (codes "m")
      (handle_action 7100 (codes "s") answer (handle_play channels video nothing_yet))
    ≡ some (codes "#EXTM3U", true)
lookup_playlist-handle_action_example =
    lookup_playlist-handle_action 7100 channels video nothing_yet answer video_session from_youtube
      video_channel video_here (sym video_number) refl refl refl

abbrev media_text : Bytes
media_text = codes "#EXTINF:5" ++ (10 ∷ codes "http://a/1" ++ (13 ∷ 10 ∷ codes "#END"))

abbrev above : List (Bytes × Bool)
above = (codes "#EXTINF:5", true) ∷ []

abbrev below : List (Bytes × Bool)
below = (codes "#END", false) ∷ []

media_pieces :
    pieces (expand_yt_condensed_playlist media_text)
    ≡ above ++ ((codes "http://a/1" ++ (13 ∷ []), true) ∷ below)
unfolding pieces expand_yt_condensed_playlist split_at strip_prefix
media_pieces = refl

abbrev playing : Registry
playing = record {
  sessions = (codes "s", new_session (codes "s")) ∷ [];
  active_session_id = codes "s";
}

playing_here : lookup (codes "s") playing.sessions ≡ some (new_session (codes "s"))
unfolding lookup equal
playing_here = refl

abbrev media_answer : FcupResponse
media_answer = record {
  url = codes "v.m3u8";
  request_id = 0;
  playlist = media_text;
  redirect_location = [];
}

unnumbered : check_response 0 (new_session (codes "s")) ≡ some (new_session (codes "s"))
unfolding check_response
unnumbered = refl

media_name : is_m3u8 (codes "v.m3u8") ≡ true
unfolding equal
media_name = refl

resolve_segment_path-handle_action_example :
    let r' = handle_action 7100 (codes "s") media_answer playing in
    let before = rewrite_pieces 7100 above (new_session (codes "s")) in
    let path = local_path before.session.seg_url_counter in
    let out = (localised 7100 media_text (new_session (codes "s"))).out in
    (lookup_playlist (codes "v.m3u8") r' ≡ some (out, false))
    × (resolve_segment_path path r' ≡ some (strip_return (codes "http://a/1" ++ (13 ∷ []))))
    × ((tail : Bytes) × (out ≡ before.out ++ (local_url 7100 path ++ newline true ++ tail)))
resolve_segment_path-handle_action_example =
    resolve_segment_path-handle_action 7100 (codes "s") media_answer playing
      (new_session (codes "s")) (new_session (codes "s")) (codes "http://a/1" ++ (13 ∷ [])) true
      above below refl refl playing_here unnumbered tt refl media_name media_pieces refl

abbrev session_m : HlsSession
session_m = record (new_session (codes "s")) {
  master_url = codes "m";
  request_generations = (1, 0) ∷ [];
}

abbrev playing_m : Registry
playing_m = record { sessions = (codes "s", session_m) ∷ []; active_session_id = codes "s" }

here_m : lookup (codes "s") playing_m.sessions ≡ some session_m
unfolding lookup equal
here_m = refl

pending_m : check_response 1 session_m ≡ some (record session_m { request_generations = [] })
unfolding check_response find_generation erase_generation
pending_m = refl

master_m : is_master (codes "m") session_m ≡ true
unfolding equal
master_m = refl

abbrev answer_m : FcupResponse
answer_m = record {
  url = codes "m";
  request_id = 1;
  playlist = codes "#EXTM3U";
  redirect_location = [];
}

handle_action-handle_stop_example :
    (t : HlsSession) × (lookup
        (codes "s")
        (handle_action 7100 (codes "s") answer_m (handle_stop (codes "s") playing_m)).sessions
      ≡ some t)
    × (t.master_playlist ≡ codes "#EXTM3U")
handle_action-handle_stop_example =
    handle_action-handle_stop 7100 (codes "s") answer_m playing_m session_m
      (record session_m { request_generations = [] }) refl here_m pending_m master_m
