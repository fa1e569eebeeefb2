-- ===== src/HlsServer/Serve.antt =====
-- A playlist that the program has is served, whatever comes of refreshing it.
use air_play_windows.HlsServer.Paths.{crlf, ends_with, request_path, decode_path, encode_path}
use air_play_windows.HlsServer.Read.{read_headers-line}
use air_play_windows.HlsServer.Request.{
  request_line, lacks-request_line, encode_path-NoSpace, decode_path-request_path,
}
use air_play_windows.Base.{
  if◌then◌else◌, Bool-cases, Option-cases, length, All, Bytes, IsByte, codes, is_empty, is_space,
  lookup, ℕ, ◌+◌, ◌≤◌, ◌≡◌, refl, ap, ◌∙◌, inl, inr, Bool, true, false, not, ◌&&◌, Option, some,
  ◌∷◌, ◌++◌, arith,
}
use air_play_windows.Hls.{Registry, lookup_playlist}
use air_play_windows.Hls.Refresh.{
  Answer, failed, playlist, waiting, fetch_playlist_begin, fetch_playlist_end,
}
use air_play_windows.HlsServer.{
  mlhls, response, Next, answer, canonical, served, serve, on_playlist, is_final, Peer, on_lookup,
  is_seg_path, route, handle_client, resume_client,
}

abbrev pub needs_refresh : Bool → Bytes → Bool
needs_refresh is_master body = not is_master && not (is_final body)

-- The response to a request for a playlist, as it is sent.
abbrev pub playlist_response : ℕ → Bool → Bytes → Next
playlist_response port is_master body =
    answer (
      response 200 (codes "OK") (served port is_master body)
        (codes "application/vnd.apple.mpegurl"))

-- The playlist of a step that has not to wait, or else `cached`.
abbrev newest : Bytes → Registry × Answer → Bytes
newest cached (r, failed) = cached
newest cached (r, playlist fresh) = fresh
newest cached (r, waiting id previous) = cached

-- What a refresh of a playlist comes to when the registry is `later` at the end of its wait: the
-- sender's new playlist, or `cached` where it fails.
abbrev pub refreshed : Bytes → Bytes → Registry → Registry × Answer → Bytes
refreshed url cached later (r, failed) = cached
refreshed url cached later (r, playlist fresh) = fresh
refreshed url cached later (r, waiting id previous) =
    newest cached (fetch_playlist_end url id previous later)

-- A wait for a playlist ends.
abbrev Ends : Registry × Answer → Type 0
Ends (r, failed) = Unit
Ends (r, playlist body) = Unit
Ends (r, waiting id previous) = ⊥

fetch_playlist_end-Ends :
    (url id : Bytes) (previous : Option Bytes) (r : Registry)
    → Ends (fetch_playlist_end url id previous r)
unfolding fetch_playlist_end
fetch_playlist_end-Ends url id previous r = elim (Option-cases (lookup id r.sessions)) [
  | inl missing ↦ rw (Ends, missing) tt
  | inr (s, here) ↦ elim (Option-cases (lookup url s.media_playlists)) [
    | inl nothing ↦ rw (Ends, here, nothing) tt
    | inr (bytes, stored) ↦ rw (Ends, here, stored) tt
  ]
]

on_playlist-newest :
    (port : ℕ) (url body : Bytes) (step : Registry × Answer)
    → Ends step
    → (on_playlist port url (some body) step).1 ≡ playlist_response port false (newest body step)
unfolding serve
on_playlist-newest port url body (r, failed) ends = refl
on_playlist-newest port url body (r, playlist fresh) ends = refl
on_playlist-newest port url body (r, waiting id previous) ends = absurd ends

on_playlist-refreshed :
    (port : ℕ) (url body : Bytes) (step : Registry × Answer) (later : Registry)
    → (resume_client port (on_playlist port url (some body) step).1 later).1
      ≡ playlist_response port false (refreshed url body later step)
unfolding resume_client serve
on_playlist-refreshed port url body (r, failed) later = refl
on_playlist-refreshed port url body (r, playlist fresh) later = refl
on_playlist-refreshed port url body (r, waiting id previous) later =
    on_playlist-newest port url body (fetch_playlist_end url id previous later)
      (fetch_playlist_end-Ends url id previous later)

route-cached :
    (p : Peer) (path body : Bytes) (is_master : Bool) (r : Registry)
    → is_empty path ≡ false
    → is_seg_path path ≡ false
    → ends_with path (codes ".m3u8") ≡ true
    → lookup_playlist (canonical path) r ≡ some (body, is_master)
    → route p path r ≡ on_lookup p (canonical path) (some (body, is_master)) r
unfolding route
route-cached p path body is_master r full other playlist_path there =
    rw (full, other, playlist_path, there)

-- The playlist that answers a request, if the registry has `body` under the url at its beginning and
-- is `later` at the end of its wait.
abbrev pub final_playlist : Peer → Bytes → Bytes → Bool → Registry → Registry → Bytes
final_playlist p url body is_master r later =
    if needs_refresh is_master body
    then refreshed url body later (fetch_playlist_begin p.sent true url p.channels r)
    else body

on_lookup-final :
    (p : Peer) (url body : Bytes) (is_master : Bool) (r later : Registry)
    → (resume_client p.port (on_lookup p url (some (body, is_master)) r).1 later).1
      ≡ playlist_response p.port is_master (final_playlist p url body is_master r later)
unfolding resume_client serve
on_lookup-final p url body true r later = refl
on_lookup-final p url body false r later = elim (Bool-cases (is_final body)) [
  | inl final ↦ rw final refl
  | inr open_end ↦ rw open_end (
      on_playlist-refreshed p.port url body (fetch_playlist_begin p.sent true url p.channels r)
        later)
]

on_lookup-now :
    (p : Peer) (url body : Bytes) (is_master : Bool) (r : Registry)
    → needs_refresh is_master body ≡ false
    → on_lookup p url (some (body, is_master)) r ≡ (r, playlist_response p.port is_master body)
unfolding serve
on_lookup-now p url body true r h = refl
on_lookup-now p url body false r h = ground (arith, h)

-- The player's request for a playlist that the registry has, with any characters of the path escaped
-- and any headers: a master playlist or a final media playlist is served at once, as it is stored,
-- with 200, and for any other one the request ends, whatever the registry is at the end of the
-- wait, with 200 and the playlist that the refresh has brought, or the stored one where it has
-- brought none. The request line has to fit into the 8192 bytes that are read.
pub handle_client-cached :
    (p : Peer) (keeps : ℕ → Bool) (path more body : Bytes) (is_master : Bool) (r : Registry)
    → keeps b'%' ≡ false
    → ((c : ℕ) → keeps c ≡ true → is_space c ≡ false)
    → All IsByte path
    → length (request_line (b'/' ∷ encode_path keeps path)) + 2 ≤ 8192
    → is_seg_path (b'/' ∷ path) ≡ false
    → ends_with (b'/' ∷ path) (codes ".m3u8") ≡ true
    → lookup_playlist (mlhls ++ path) r ≡ some (body, is_master)
    → let step =
        handle_client p (request_line (b'/' ∷ encode_path keeps path) ++ (crlf ++ more)) r in
      (needs_refresh is_master body ≡ false → step ≡ (r, playlist_response p.port is_master body))
      × ((later : Registry)
          → (resume_client p.port step.1 later).1
            ≡ playlist_response p.port is_master
                (final_playlist p (mlhls ++ path) body is_master r later))
unfolding handle_client canonical
handle_client-cached p keeps path more body is_master r escapes visible bytes fits other is_list
      there =
    let line = request_line (b'/' ∷ encode_path keeps path) in
    let clean =
      lacks-request_line b'/' (encode_path keeps path)
        (refl, encode_path-NoSpace keeps path visible bytes) in
    let (behind, whole) = read_headers-line line more clean fits in
    let entire : handle_client p (line ++ (crlf ++ more)) r
        ≡ on_lookup p (mlhls ++ path) (some (body, is_master)) r =
      ap (λ h. route p (decode_path (request_path h)) r) whole
      ∙ ap (λ x. route p x r) (decode_path-request_path keeps path behind escapes visible bytes)
      ∙ route-cached p (b'/' ∷ path) body is_master r refl other is_list there in
    (
      (λ now. entire ∙ on_lookup-now p (mlhls ++ path) body is_master r now),
      (λ later.
          ap (λ (x : Registry × Next). (resume_client p.port x.1 later).1) entire
          ∙ on_lookup-final p (mlhls ++ path) body is_master r later),
    )
