-- ===== src/HlsServer/Tests.antt =====
-- A player's requests for a playlist of an active session and for a part of a segment.
use air_play_windows.Base.{
  leb, ◌==◌, All, Bytes, IsByte, codes, equal, strip_prefix, split_at, is_space, lacks, lookup,
  decimal_from, decimal, ℕ, ◌≡◌, refl, Bool, true, false, ◌&&◌, ◌||◌, some, [], ◌∷◌, ◌++◌, arith,
}
use air_play_windows.Base.Int.{pos}
use air_play_windows.HlsServer.Paths.{crlf, ends_with, encode_path}
use air_play_windows.HlsServer.Proxy.{parse_range, avio_options, joined, chunked}
use air_play_windows.HlsServer.Proxy.Chunks.{dechunk, dechunk-chunked}
use air_play_windows.HlsServer.Proxy.Ranges.{range_line, avio_options-parse_range}
use air_play_windows.HlsServer.Request.{request_line}
use air_play_windows.HlsServer.Serve.{
  needs_refresh, playlist_response, final_playlist, handle_client-cached,
}
use air_play_windows.HlsServer.Urls.{spread, rewrite_urls-spread}
use air_play_windows.Hls.{
  HlsSession, Registry, new_session, search_others, playlist_in, lookup_playlist,
}
use air_play_windows.Hls.Master.{lower_ascii}
use air_play_windows.HlsServer.{
  mlhls, rewrite_urls, Peer, is_seg_path, handle_client, resume_client,
}

abbrev media : Bytes
media = codes "#EXTM3U x"

abbrev session : HlsSession
session = record (new_session (codes "s")) {
  media_playlists = (codes "mlhls://localhost/a=.m3u8", media) ∷ [];
}

abbrev registry : Registry
registry = record { sessions = (codes "s", session) ∷ []; active_session_id = codes "s" }

abbrev peer : Peer
peer = record { port = 7100; channels = (codes "s", pos 3) ∷ []; sent = true }

-- Letters, digits and a dot are kept.
abbrev keeps : ℕ → Bool
keeps c = c == b'.' || (leb b'0' c && leb c b'9' || leb b'a' c && leb c b'z')

keeps-visible : (c : ℕ) → keeps c ≡ true → is_space c ≡ false
keeps-visible c h = ground (arith, h)

abbrev path : Bytes
path = codes "a=.m3u8"

stored : lookup_playlist (mlhls ++ path) registry ≡ some (media, false)
unfolding lookup_playlist lookup equal playlist_in search_others mlhls
stored = refl

path_bytes : All IsByte path
path_bytes = (
  omega arith,
  (omega arith, (omega arith, (omega arith, (omega arith, (omega arith, (omega arith, tt)))))),
)

no_seg_path : is_seg_path (b'/' ∷ path) ≡ false
unfolding strip_prefix
no_seg_path = refl

list_path : ends_with (b'/' ∷ path) (codes ".m3u8") ≡ true
unfolding equal
list_path = refl

handle_client-cached_example :
    let step =
      handle_client peer
        (request_line (b'/' ∷ encode_path keeps path) ++ (crlf ++ codes "Host: x"))
        registry in
    (needs_refresh false media ≡ false → step ≡ (registry, playlist_response peer.port false media))
    × ((later : Registry)
        → (resume_client peer.port step.1 later).1
          ≡ playlist_response peer.port false
              (final_playlist peer (mlhls ++ path) media false registry later))
handle_client-cached_example =
    handle_client-cached peer keeps path (codes "Host: x") media false registry refl keeps-visible
      path_bytes (omega arith) no_seg_path list_path stored

-- The player's path has its `=` escaped.
encoded_path : encode_path keeps path ≡ codes "a%3D.m3u8"
encoded_path = refl

rewrite_urls-spread_example :
    rewrite_urls 7100 (spread mlhls (codes "a ") (codes "b" ∷ []))
    ≡ spread
        (codes "http://localhost:" ++ (decimal 7100 ++ codes "/"))
        (codes "a ")
        (codes "b" ∷ [])
rewrite_urls-spread_example =
    rewrite_urls-spread 7100 (codes "a ") (codes "b" ∷ [])
      (unfold split_at strip_prefix mlhls in refl) (unfold split_at strip_prefix mlhls in refl, tt)

dechunk-chunked_example :
    dechunk 3 (chunked (codes "ab" ∷ (codes "c" ∷ [])))
    ≡ some (joined (codes "ab" ∷ (codes "c" ∷ [])))
dechunk-chunked_example = dechunk-chunked (codes "ab" ∷ (codes "c" ∷ [])) (refl, (refl, tt))

avio_options-parse_range_example :
    avio_options (
      parse_range (
        codes "GET /seg/1 HTTP/1.1"
        ++ (crlf ++ (range_line (codes "Range:") (codes " bytes") 5 (some 9) ++ (crlf ++ [])))))
    ≡ some (5, some (pos 10))
avio_options-parse_range_example =
    avio_options-parse_range (codes "GET /seg/1 HTTP/1.1") (codes "Range:") (codes " bytes") [] 5
      (some 9) (unfold split_at strip_prefix lower_ascii in refl) (unfold lower_ascii in refl)
      (unfold lacks in refl) (unfold lacks decimal decimal_from in refl) (omega arith) (omega arith)
