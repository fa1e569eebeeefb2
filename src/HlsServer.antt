-- ===== src/HlsServer.antt =====
-- src/airplay/hls_local_server.cpp: the HTTP server that the media player reads playlists and
-- segments from. A request is handled up to the wait for the sender, if it needs one, and from its
-- end; between the two the registry may change in any way. HlsServer/Proxy is the `/seg/` route.
pub mod Paths
pub mod Request
pub mod Read
pub mod Serve
pub mod Urls
pub mod Proxy
mod Tests
use air_play_windows.Base.Int.{ℤ}
use air_play_windows.Base.{
  ltb, ◌==◌, if◌then◌else◌, length, Bytes, codes, is_empty, starts_with, split_at, decimal, ℕ, zero,
  suc, Bool, true, false, ◌&&◌, Option, none, some, List, [], ◌∷◌, ◌++◌,
}
use air_play_windows.Hls.{Registry, resolve_segment_path, lookup_playlist}
use air_play_windows.Hls.Segments.{
  Fetched, no_channel, gone, timed_out, asked, redirected, delivered, fetch_segment_begin,
  fetch_segment_end,
}
use air_play_windows.Hls.Refresh.{
  Answer, failed, playlist, waiting, fetch_playlist_begin, fetch_playlist_end,
}
use air_play_windows.Hls.Master.{filter_master_to_single_variant}
use air_play_windows.HlsServer.Paths.{crlf, ends_with, read_headers, request_path, decode_path}

unfoldable pub mlhls : Bytes
mlhls = codes "mlhls://localhost/"

-- The loop of `rewrite_urls`; a round takes the 18 characters that it replaces.
unfoldable pub rewrite_from : ℕ → Bytes → Bytes → Bytes
rewrite_from zero to content = content
rewrite_from (suc fuel) to content = elim (split_at mlhls content) [
  | none ↦ content
  | some (before, behind) ↦ before ++ (to ++ rewrite_from fuel to behind)
]

unfoldable pub rewrite_urls : ℕ → Bytes → Bytes
rewrite_urls port content =
    rewrite_from (suc (length content)) (codes "http://localhost:" ++ (decimal port ++ codes "/"))
      content

-- The text of a response without its body.
unfoldable pub head_of : ℕ → Bytes → ℕ → Bytes → Bytes
head_of status text size content_type =
    codes "HTTP/1.1 "
    ++ decimal status
    ++ codes " "
    ++ text
    ++ crlf
    ++ codes "Content-Type: "
    ++ content_type
    ++ crlf
    ++ codes "Content-Length: "
    ++ decimal size
    ++ crlf
    ++ codes "Connection: close"
    ++ crlf
    ++ crlf

unfoldable pub response : ℕ → Bytes → Bytes → Bytes → Bytes
response status text body content_type = head_of status text (length body) content_type ++ body

unfoldable pub found_response : Bytes → Bytes
found_response location =
    codes "HTTP/1.1 302 Found"
    ++ crlf
    ++ codes "Location: "
    ++ location
    ++ crlf
    ++ codes "Content-Length: 0"
    ++ crlf
    ++ codes "Connection: close"
    ++ crlf
    ++ crlf

-- What the handler does next: it sends a response, passes the bytes of a url on, or waits for a
-- playlist, with what it serves if the wait fails, or for a segment.
pub data Next : Type 0 where
  answer : Bytes → Next
  proxy : Bytes → Next
  await_playlist : Bytes → Bytes → Option Bytes → Option Bytes → Next
  await_segment : Bytes → Bytes → Next

abbrev pub bad_request : Next
bad_request = answer (response 400 (codes "Bad Request") [] (codes "text/plain"))

abbrev pub not_found : Next
not_found = answer (response 404 (codes "Not Found") [] (codes "text/plain"))

abbrev pub gateway_timeout : Next
gateway_timeout = answer (response 504 (codes "Gateway Timeout") [] (codes "text/plain"))

unfoldable pub canonical : Bytes → Bytes
canonical [] = mlhls
canonical (c ∷ path) = if c == b'/' then mlhls ++ path else mlhls ++ (c ∷ path)

-- A playlist as it is served.
unfoldable pub served : ℕ → Bool → Bytes → Bytes
served port is_master body =
    let rewritten = rewrite_urls port body in
    if is_master then filter_master_to_single_variant rewritten else rewritten

unfoldable pub serve : ℕ → Bool → Bytes → Next
serve port is_master body =
    answer (
      response 200 (codes "OK") (served port is_master body)
        (codes "application/vnd.apple.mpegurl"))

-- What a failed request or wait for a playlist gives.
abbrev pub unless_cached : ℕ → Option Bytes → Next
unless_cached port none = gateway_timeout
unless_cached port (some body) = serve port false body

-- The result of a step of `fetch_playlist`, `cached` being what is served if it fails.
abbrev pub on_playlist : ℕ → Bytes → Option Bytes → Registry × Answer → Registry × Next
on_playlist port url cached (r, failed) = (r, unless_cached port cached)
on_playlist port url cached (r, playlist body) = (r, serve port false body)
on_playlist port url cached (r, waiting id previous) = (r, await_playlist url id previous cached)

abbrev pub on_segment : Bool → Bytes → Registry × Fetched → Registry × Next
on_segment sent url (r, no_channel) = (r, gateway_timeout)
on_segment sent url (r, gone) = (r, gateway_timeout)
on_segment sent url (r, timed_out) = (r, gateway_timeout)
on_segment sent url (r, asked id request) =
    (r, if sent then await_segment url id else gateway_timeout)
on_segment sent url (r, redirected location) = (
  r,
  if is_empty location
      then answer (response 200 (codes "OK") [] (codes "application/octet-stream"))
      else answer (found_response location),
)
on_segment sent url (r, delivered bytes) =
    (r, answer (response 200 (codes "OK") bytes (codes "application/octet-stream")))

abbrev is_found : Option (Bytes × Bytes) → Bool
is_found none = false
is_found (some split) = true

unfoldable pub is_final : Bytes → Bool
is_final body = is_found (split_at (codes "#EXT-X-ENDLIST") body)

-- What else the handler meets: the sockets of the sender, whether a request reaches it, and the port.
pub record Peer : Type 0 where
  pub port : ℕ
  pub channels : List (Bytes × ℤ)
  pub sent : Bool

abbrev pub on_lookup : Peer → Bytes → Option (Bytes × Bool) → Registry → Registry × Next
on_lookup p url none r =
    on_playlist p.port url none (fetch_playlist_begin p.sent false url p.channels r)
on_lookup p url (some (body, true)) r = (r, serve p.port true body)
on_lookup p url (some (body, false)) r =
    if is_final body
    then (r, serve p.port false body)
    else on_playlist p.port url (some body) (fetch_playlist_begin p.sent true url p.channels r)

abbrev on_seg_path : Option Bytes → Registry → Registry × Next
on_seg_path none r = (r, not_found)
on_seg_path (some cdn_url) r = (r, proxy cdn_url)

abbrev pub is_seg_path : Bytes → Bool
is_seg_path path = ltb 5 (length path) && starts_with (codes "/seg/") path

-- The handler with the decoded path.
unfoldable pub route : Peer → Bytes → Registry → Registry × Next
route p path r =
    if is_empty path
    then (r, bad_request)
    else if is_seg_path path
    then on_seg_path (resolve_segment_path path r) r
    else if ends_with path (codes ".m3u8")
    then on_lookup p (canonical path) (lookup_playlist (canonical path) r) r
    else on_segment p.sent (canonical path) (fetch_segment_begin (canonical path) p.channels r)

-- `handle_client` with the bytes of the socket, up to its wait.
unfoldable pub handle_client : Peer → Bytes → Registry → Registry × Next
handle_client p input r = route p (decode_path (request_path (read_headers 8192 [] input))) r

-- The end of a wait, by a wake-up or a timeout.
unfoldable pub resume_client : ℕ → Next → Registry → Registry × Next
resume_client port (await_playlist url id previous cached) r =
    on_playlist port url cached (fetch_playlist_end url id previous r)
resume_client port (await_segment url id) r = on_segment true url (fetch_segment_end url id r)
resume_client port next r = (r, next)
