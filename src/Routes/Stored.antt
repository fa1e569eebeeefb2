-- ===== src/Routes/Stored.antt =====
-- What the player finds after a response.
use air_play_windows.Hls.Condensed.{expand_yt_condensed_playlist}
use air_play_windows.Hls.Rewrite.{
  local_path, local_url, pieces, is_uri, strip_return, newline, rewrite_pieces,
}
use air_play_windows.Hls.Resolve.{
  IsFresh, rewrite_segments_to_local_master, rewrite_segments_to_local_resolves,
}
use air_play_windows.Base.{
  ◌==◌, Bool-cases, Bytes, codes, equal, equal_iff, is_empty, u32, lookup, lookup-assign, ℕ, ◌+◌,
  ◌%◌, ◌≡◌, refl, sym, ap, ◌∙◌, inl, inr, Bool, true, false, not, ◌&&◌, some, List, [], ◌∷◌, ◌++◌,
  arith,
}
use air_play_windows.Base.Int.{ℤ, pos, ltb_ℤ}
use air_play_windows.Routes.{
  PlayRequest, reset_hls_media_state, handle_play, FcupResponse, find_generation, erase_generation,
  check_response, store_master, localised, store_media, is_master, is_m3u8, store, handle_action,
}
use air_play_windows.Routes.Stale.{handle_play-Started}
use air_play_windows.Hls.{
  HlsSession, Registry, active, resolve_segment_path, playlist_in, lookup_playlist, socket_for,
}
use air_play_windows.Hls.Segments.{put}
use air_play_windows.Hls.Playlists.{lookup_playlist-active}

active_here :
    (id : Bytes) (r : Registry) (s : HlsSession)
    → r.active_session_id ≡ id
    → is_empty id ≡ false
    → lookup id r.sessions ≡ some s
    → active r ≡ some s
active_here id r s first named there =
    let full : is_empty r.active_session_id ≡ false = ap is_empty first ∙ named in
    let here : lookup r.active_session_id r.sessions ≡ some s =
      ap (λ i. lookup i r.sessions) first ∙ there in
    rw full here

-- A reverse channel is one of a session with a name.
channel_named :
    (id : Bytes) (fds : List (Bytes × ℤ))
    → ltb_ℤ (socket_for id fds) (pos 0) ≡ false
    → is_empty id ≡ false
unfolding socket_for
channel_named [] fds channel = cc
channel_named (c ∷ cs) fds channel = refl

pub handle_action-store :
    (port : ℕ) (sid : Bytes) (resp : FcupResponse) (r : Registry) (s s' : HlsSession)
    → lookup sid r.sessions ≡ some s
    → check_response resp.request_id s ≡ some s'
    → handle_action port sid resp r ≡ store port sid resp s' r
unfolding handle_action
handle_action-store port sid resp r s s' there current = ground (arith, there, current)

pub store-master :
    (port : ℕ) (sid : Bytes) (resp : FcupResponse) (s : HlsSession) (r : Registry)
    → is_master resp.url s ≡ true
    → store port sid resp s r ≡ put sid (store_master resp.playlist s) r
unfolding store
store-master port sid resp s r master = rw master refl

store-media :
    (port : ℕ) (sid : Bytes) (resp : FcupResponse) (s : HlsSession) (r : Registry)
    → is_master resp.url s ≡ false
    → is_m3u8 resp.url ≡ true
    → store port sid resp s r ≡ put sid (store_media port resp.url resp.playlist s) r
unfolding store
store-media port sid resp s r child media = rw (child, media) refl

-- The answer to the request that `/play` makes.
check_response_master :
    (url : Bytes) (s : HlsSession) (response_id : ℕ)
    → response_id % u32 ≡ s.next_request_id
    → (s' : HlsSession) × (check_response response_id (reset_hls_media_state url s) ≡ some s')
      × (s'.master_url ≡ url)
unfolding check_response reset_hls_media_state find_generation
check_response_master url s response_id same = elim (Bool-cases (response_id == 0)) [
  | inl unnumbered ↦ (reset_hls_media_state url s, rw unnumbered refl, refl)
  | inr numbered ↦
      let found : (s.next_request_id == response_id % u32) ≡ true = ground (arith, same) in
      let now : (s.playback_generation + 1 == s.playback_generation + 1) ≡ true = ground arith in
      (
        record (reset_hls_media_state url s) {
          request_generations =
              erase_generation (response_id % u32)
                (reset_hls_media_state url s).request_generations;
        },
        rw (numbered, found, now) refl,
        refl,
      )
]

playlist_in-master :
    (url playlist : Bytes) (s : HlsSession)
    → s.master_url ≡ url
    → is_empty playlist ≡ false
    → playlist_in url (store_master playlist s) ≡ some (playlist, true)
unfolding playlist_in
playlist_in-master url playlist s same full =
    let found : equal s.master_url url ≡ true = (equal_iff s.master_url url).1 same in
    rw (found, full) refl

-- After a `/play` that is carried out, the sender's answer to its request, which is for the url that
-- was wanted to play and has a playlist in it, is what the player finds under that url, as the master
-- playlist, whatever the sessions were before.
pub lookup_playlist-handle_action :
    (port : ℕ) (fds : List (Bytes × ℤ)) (play : PlayRequest) (r : Registry) (resp : FcupResponse)
    (s : HlsSession)
    → equal play.client_proc (codes "YouTube") ≡ true
    → ltb_ℤ (socket_for play.session_id fds) (pos 0) ≡ false
    → lookup play.session_id (handle_play fds play r).sessions ≡ some s
    → resp.request_id % u32 ≡ s.master_request_id
    → resp.url ≡ play.url
    → is_empty play.url ≡ false
    → is_empty resp.playlist ≡ false
    → lookup_playlist play.url (handle_action port play.session_id resp (handle_play fds play r))
      ≡ some (resp.playlist, true)
lookup_playlist-handle_action port fds play r resp s youtube channel here number wanted full
      filled =
    let id = play.session_id in
    let start = handle_play-Started fds play r youtube channel in
    let r1 = handle_play fds play r in
    let same : s ≡ reset_hls_media_state play.url start.old = ground (arith, here, start.here) in
    let fits : resp.request_id % u32 ≡ start.old.next_request_id =
      number ∙ unfold reset_hls_media_state in ap (λ (x : HlsSession). x.master_request_id) same in
    let (s', current, url) = check_response_master play.url start.old resp.request_id fits in
    let master : is_master resp.url s' ≡ true =
      let here_url : is_empty s'.master_url ≡ false = ap is_empty url ∙ full in
      let equal_urls : equal resp.url s'.master_url ≡ true =
        (equal_iff resp.url s'.master_url).1 (wanted ∙ sym url) in
      rw (here_url, equal_urls) refl in
    let stored =
      handle_action-store port id resp r1 (reset_hls_media_state play.url start.old) s' start.here
        current
      ∙ store-master port id resp s' r1 master in
    let t = store_master resp.playlist s' in
    let served =
      active_here id (put id t r1) t start.first (channel_named id fds channel)
        (lookup-assign id t r1.sessions) in
    ap (lookup_playlist play.url) stored
    ∙ lookup_playlist-active (put id t r1) play.url t (resp.playlist, true) served
        (playlist_in-master play.url resp.playlist s' url filled)

playlist_in-media :
    (url : Bytes) (s : HlsSession) (bytes : Bytes)
    → equal s.master_url url ≡ false
    → lookup url s.media_playlists ≡ some bytes
    → is_empty bytes ≡ false
    → playlist_in url s ≡ some (bytes, false)
unfolding playlist_in
playlist_in-media url s bytes child there full = ground (arith, child, there, full)

resolve_segment_path-active :
    (path : Bytes) (r : Registry) (s : HlsSession) (url : Bytes)
    → active r ≡ some s
    → lookup path s.seg_url_map ≡ some url
    → resolve_segment_path path r ≡ some url
unfolding resolve_segment_path
resolve_segment_path-active path r s url first there = ground (arith, first, there)

child_url :
    (url : Bytes) (s : HlsSession)
    → is_master url s ≡ false
    → is_m3u8 url ≡ true
    → equal s.master_url url ≡ false
child_url url s child media = elim (Bool-cases (equal s.master_url url)) [
  | inr apart ↦ apart
  | inl same ↦ absurd (clash url s.master_url ((equal_iff s.master_url url).0 same) child media)
]
  where
    clash : (u m : Bytes) → m ≡ u → (not (is_empty m) && equal u m) ≡ false → is_m3u8 u ≡ true → ⊥
    clash [] m same child media = cc
    clash (c ∷ cs) m same child media =
        let full : is_empty m ≡ false = ap is_empty same in
        let again : equal (c ∷ cs) m ≡ true = (equal_iff (c ∷ cs) m).1 (sym same) in
        cc (full, again, child)

is_empty-append : (a b : Bytes) → is_empty b ≡ false → is_empty (a ++ b) ≡ false
is_empty-append [] b h = h
is_empty-append (c ∷ a) b h = refl

-- A media playlist of the active session, in a response that is current, is served under its url
-- with each line that is a url as a local one in its place, and the path of that local url resolves
-- to the line as the sender had it, without its carriage return.
pub resolve_segment_path-handle_action :
    (port : ℕ) (sid : Bytes) (resp : FcupResponse) (r : Registry) (s s' : HlsSession) (line : Bytes)
    (ended : Bool) (xs ys : List (Bytes × Bool))
    → r.active_session_id ≡ sid
    → is_empty sid ≡ false
    → lookup sid r.sessions ≡ some s
    → check_response resp.request_id s ≡ some s'
    → IsFresh s'
    → is_master resp.url s' ≡ false
    → is_m3u8 resp.url ≡ true
    → pieces (expand_yt_condensed_playlist resp.playlist) ≡ xs ++ ((line, ended) ∷ ys)
    → is_uri line ≡ true
    → let r' = handle_action port sid resp r in
      let path = local_path (rewrite_pieces port xs s').session.seg_url_counter in
      (lookup_playlist resp.url r' ≡ some ((localised port resp.playlist s').out, false))
      × (resolve_segment_path path r' ≡ some (strip_return line))
      × ((tail : Bytes) × ((localised port resp.playlist s').out
            ≡ (rewrite_pieces port xs s').out ++ (local_url port path ++ newline ended ++ tail)))
unfolding local_url
resolve_segment_path-handle_action port sid resp r s s' line ended xs ys first named here current
      fresh child media cut uri =
    let t = store_media port resp.url resp.playlist s' in
    let stored =
      handle_action-store port sid resp r s s' here current
      ∙ store-media port sid resp s' r child media in
    let path = local_path (rewrite_pieces port xs s').session.seg_url_counter in
    let (leads, (tail, placed)) =
      rewrite_segments_to_local_resolves port (expand_yt_condensed_playlist resp.playlist) line
        ended xs ys s' fresh cut uri in
    let served = active_here sid (put sid t r) t first named (lookup-assign sid t r.sessions) in
    let out = (localised port resp.playlist s').out in
    let filled : is_empty out ≡ false =
      ap is_empty placed
      ∙ is_empty-append (rewrite_pieces port xs s').out
          (local_url port path ++ newline ended ++ tail) refl in
    (
      ap (lookup_playlist resp.url) stored
          ∙ lookup_playlist-active (put sid t r) resp.url t (out, false) served
              (playlist_in-media resp.url t out
                (ap (λ m. equal m resp.url)
                    (rewrite_segments_to_local_master port
                      (expand_yt_condensed_playlist resp.playlist) s')
                  ∙ child_url resp.url s' child media)
                (lookup-assign resp.url out
                  (localised port resp.playlist s').session.media_playlists)
                filled),
      ap (resolve_segment_path path) stored
          ∙ resolve_segment_path-active path (put sid t r) t (strip_return line) served leads,
      (tail, placed),
    )
