-- ===== src/Hls.antt =====
-- src/airplay/hls_session.cpp, hls_session.h and reverse_channel.cpp: the HLS sessions that a sender
-- opens, the playlists and segments that it delivers, and the sockets on which they are asked for.
-- Each function that takes the registry's lock is one step. A wait on `seg_cv` ends a step: the
-- deliveries that happen meanwhile are steps of their own, and the wake-up or timeout is the next.
pub mod Playlists
pub mod Segments
pub mod Delivery
pub mod Refresh
pub mod Condensed
pub mod Rewrite
pub mod Resolve
pub mod Master
pub mod Rendition
mod Tests
use air_play_windows.Base.Int.{ℤ, pos, negsuc, ltb_ℤ}
use air_play_windows.Base.{
  if◌then◌else◌, Bytes, equal, is_empty, lookup, assign, erase, ℕ, Bool, true, false, ◌||◌, Option,
  none, some, List, [], ◌∷◌,
}

-- `HlsSession` without its playback clock and the cache of properties.
pub record HlsSession : Type 0 where
  pub session_id : Bytes
  pub master_url : Bytes
  pub master_playlist : Bytes
  pub next_request_id : ℕ
  pub master_request_id : ℕ
  pub media_uris : List Bytes
  pub playback_generation : ℕ
  pub media_playlists : List (Bytes × Bytes)
  pub segment_data : List (Bytes × Bytes)
  pub segment_redirect : List (Bytes × Bytes)
  pub request_generations : List (ℕ × ℕ)
  pub seg_url_map : List (Bytes × Bytes)
  pub seg_url_counter : ℕ
  pub playback_started : Bool
  pub media_playlist_ready : Bool

pub record Registry : Type 0 where
  pub sessions : List (Bytes × HlsSession)
  pub active_session_id : Bytes

abbrev pub new_session : Bytes → HlsSession
new_session id = record {
  session_id = id;
  master_url = [];
  master_playlist = [];
  next_request_id = 1;
  master_request_id = 0;
  media_uris = [];
  playback_generation = 0;
  media_playlists = [];
  segment_data = [];
  segment_redirect = [];
  request_generations = [];
  seg_url_map = [];
  seg_url_counter = 0;
  playback_started = false;
  media_playlist_ready = false;
}

unfoldable pub get_or_create : Bytes → Registry → Registry
get_or_create id r = elim (lookup id r.sessions) [
  | none ↦ record r { sessions = assign id (new_session id) r.sessions }
  | some s ↦ r
]

unfoldable pub find : Bytes → Registry → Option HlsSession
find id r = lookup id r.sessions

unfoldable pub set_active_session : Bytes → Registry → Registry
set_active_session id r = record r { active_session_id = id }

unfoldable pub remove : Bytes → Registry → Registry
remove id r = record {
  sessions = erase id r.sessions;
  active_session_id = if equal r.active_session_id id then [] else r.active_session_id;
}

-- The active session, if one is set and exists.
abbrev pub active : Registry → Option HlsSession
active r = if is_empty r.active_session_id then none else lookup r.active_session_id r.sessions

-- The loops over all sessions, which pass over the active one: the first result that there is.
module _ {ℓ} {A : Type ℓ} where
  unfoldable pub search_others :
      (HlsSession → Option A) → Bytes → List (Bytes × HlsSession) → Option A
  search_others f skip [] = none
  search_others f skip ((id, s) ∷ rest) =
      let later = search_others f skip rest in
      if equal id skip then later else elim (f s) [ some a ↦ some a | none ↦ later ]

  abbrev pub first_of : (HlsSession → Option A) → Option HlsSession → Option A → Option A
  first_of f none others = others
  first_of f (some s) others = elim (f s) [ some a ↦ some a | none ↦ others ]

  abbrev pub search_sessions : (HlsSession → Option A) → Registry → Option A
  search_sessions f r = first_of f (active r) (search_others f r.active_session_id r.sessions)

-- `resolve_segment_path`, nothing for the empty result of a path that no session knows.
unfoldable pub resolve_segment_path : Bytes → Registry → Option Bytes
resolve_segment_path path r = search_sessions (λ s. lookup path s.seg_url_map) r

abbrev pub unless_empty : Bool → Bytes → Option (Bytes × Bool)
unless_empty is_master bytes = if is_empty bytes then none else some (bytes, is_master)

-- `lookup_in_session`.
unfoldable pub playlist_in : Bytes → HlsSession → Option (Bytes × Bool)
playlist_in url s =
    if equal s.master_url url
    then unless_empty true s.master_playlist
    else elim (lookup url s.media_playlists) [ none ↦ none | some bytes ↦ unless_empty false bytes ]

-- `lookup_playlist`: the bytes and whether they are a master playlist.
unfoldable pub lookup_playlist : Bytes → Registry → Option (Bytes × Bool)
lookup_playlist url r = search_sessions (playlist_in url) r

-- `ReverseChannelRegistry`: the sockets by session.
unfoldable pub register_socket : Bytes → ℤ → List (Bytes × ℤ) → List (Bytes × ℤ)
register_socket id fd fds = if is_empty id || ltb_ℤ fd (pos 0) then fds else assign id fd fds

unfoldable pub unregister_socket : Bytes → List (Bytes × ℤ) → List (Bytes × ℤ)
unregister_socket id fds = if is_empty id then fds else erase id fds

unfoldable pub socket_for : Bytes → List (Bytes × ℤ) → ℤ
socket_for id fds =
    if is_empty id then negsuc 0 else elim (lookup id fds) [ none ↦ negsuc 0 | some fd ↦ fd ]
