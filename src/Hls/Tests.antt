-- ===== src/Hls/Tests.antt =====
-- Two sessions; the active one has a master playlist.
use air_play_windows.Hls.Condensed.{quoted_value, has_token, first_key, IsField}
use air_play_windows.Hls.Master.{
  quoted, up_to_end, bare_attr, lower_ascii, looks_french, is_candidate, score, choose_audio,
}
use air_play_windows.Hls.Resolve.{IsFresh}
use air_play_windows.Hls.Rewrite.{local_path, pieces, Rewritten, rewrite_segments_to_local}
use air_play_windows.Base.Int.{ℤ, pos}
use air_play_windows.Hls.Refresh.{Answer, fetch_playlist_begin, fetch_playlist_end}
use air_play_windows.Base.{
  All, Bytes, codes, equal, strip_prefix, split_at, split_char, lacks, lookup, decimal_from,
  decimal, ◌≡◌, refl, Bool, true, false, none, some, List, [], ◌∷◌, ◌++◌, arith,
}
use air_play_windows.Hls.{HlsSession, Registry, new_session, playlist_in, socket_for}
use air_play_windows.Hls.Delivery.{
  Delivery, segment, redirect, deliver_all, IsOther, fetch_segment-deliver,
}
use air_play_windows.Hls.Segments.{timed_out, delivered, pick, fetch_segment_end, deliver_segment}

abbrev session_one : HlsSession
session_one = record (new_session (codes "one")) {
  master_url = codes "m";
  master_playlist = codes "#EXTM3U";
}

abbrev registry : Registry
registry = record {
  sessions = (codes "two", new_session (codes "two")) ∷ (codes "one", session_one) ∷ [];
  active_session_id = codes "one";
}

here_one : lookup (codes "one") registry.sessions ≡ some session_one
unfolding lookup equal
here_one = refl

master_one : playlist_in (codes "m") session_one ≡ some (codes "#EXTM3U", true)
unfolding playlist_in equal
master_one = refl

abbrev between : List Delivery
between =
    segment (codes "one") (codes "v") (codes "later")
    ∷ redirect (codes "two") (codes "w") (codes "x")
    ∷ []

apart : All (IsOther (codes "u")) between
unfolding equal
apart = (refl, (refl, tt))

no_redirect : lookup (codes "u") session_one.segment_redirect ≡ none
unfolding lookup
no_redirect = refl

abbrev served : Registry
served = deliver_all between (deliver_segment (codes "one") (codes "u") (codes "ts") registry)

fetch_segment-deliver_example :
    ((fetch_segment_end (codes "u") (codes "one") served).1 ≡ delivered (codes "ts"))
    × ((fetch_segment_end
          (codes "u")
          (codes "one")
          (fetch_segment_end (codes "u") (codes "one") served).0).1
        ≡ timed_out)
fetch_segment-deliver_example =
    fetch_segment-deliver (codes "one") (codes "u") (codes "ts") session_one between registry
      here_one no_redirect apart

abbrev session_live : HlsSession
session_live = record (new_session (codes "live")) {
  media_playlists = (codes "p", codes "#EXTM3U") ∷ [];
}

abbrev live : Registry
live = record { sessions = (codes "live", session_live) ∷ []; active_session_id = codes "live" }

abbrev channels : List (Bytes × ℤ)
channels = (codes "live", pos 7) ∷ []

picks_live : pick channels live ≡ some (codes "live", session_live)
unfolding pick lookup equal socket_for
picks_live = refl

stored_live : lookup (codes "p") session_live.media_playlists ≡ some (codes "#EXTM3U")
unfolding lookup equal
stored_live = refl

abbrev unsent_live : Registry × Answer
unsent_live = fetch_playlist_begin false true (codes "p") channels live

abbrev unanswered_live : Registry × Answer
unanswered_live =
    fetch_playlist_end (codes "p") (codes "live") (some (codes "#EXTM3U"))
      (fetch_playlist_begin true true (codes "p") channels live).0

fields_known : All IsField (codes "v" ∷ codes "begin" ∷ codes "0" ∷ [])
unfolding lacks
fields_known = ((refl, refl), ((refl, refl), ((refl, refl), tt)))

begin_known :
    has_token (first_key (codes "begin" ∷ [])) (codes "v" ∷ codes "begin" ∷ codes "0" ∷ []) ≡ true
unfolding has_token equal
begin_known = refl

abbrev media : Bytes
media = codes "#EXTINF:5" ++ (10 ∷ codes "http://a/1" ++ (13 ∷ 10 ∷ codes "#END"))

abbrev above : List (Bytes × Bool)
above = (codes "#EXTINF:5", true) ∷ []

abbrev below : List (Bytes × Bool)
below = (codes "#END", false) ∷ []

pieces_media : pieces media ≡ above ++ ((codes "http://a/1" ++ (13 ∷ []), true) ∷ below)
unfolding pieces
pieces_media = refl

abbrev rewritten : Rewritten
rewritten = rewrite_segments_to_local 7100 media (new_session (codes "s"))

abbrev session_served : HlsSession
session_served = record (new_session (codes "s")) {
  seg_url_map = (codes "/seg/0", codes "http://a/0") ∷ [];
  seg_url_counter = 1;
}

served_IsFresh : IsFresh session_served
unfolding local_path decimal decimal_from
served_IsFresh = ((0, omega arith, refl), tt)

served_leads : lookup (codes "/seg/0") session_served.seg_url_map ≡ some (codes "http://a/0")
unfolding lookup equal
served_leads = refl

abbrev master_lines : List Bytes
master_lines =
    codes "#EXT-X-MEDIA:TYPE=AUDIO,GROUP-ID=\"a\",LANGUAGE=\"en\""
    ∷ codes "#EXT-X-MEDIA:TYPE=AUDIO,GROUP-ID=\"a\",LANGUAGE=\"fr\""
    ∷ []

chooses_french : choose_audio (codes "a") master_lines 0 0 none ≡ some 1
unfolding choose_audio is_candidate score split_at strip_prefix split_char quoted quoted_value
    bare_attr up_to_end equal looks_french lower_ascii
chooses_french = refl
