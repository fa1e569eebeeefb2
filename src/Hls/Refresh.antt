-- ===== src/Hls/Refresh.antt =====
-- `fetch_playlist`, as the steps before and after its wait.
use air_play_windows.Base.{
  if◌then◌else◌, Bytes, lookup, assign, erase, lookup-assign, lookup-erase, ℕ, suc, ◌≡◌, sym, ap,
  ◌∙◌, subst, Bool, true, false, Option, none, some, List,
}
use air_play_windows.Base.Int.{ℤ}
use air_play_windows.Hls.{HlsSession, Registry}
use air_play_windows.Hls.Segments.{pick, put, set_generation}

-- What a step of `fetch_playlist` gives: the playlist, the wait for the session's answer with the
-- playlist that a refresh has put aside, or failure.
pub data Answer : Type 0 where
  failed : Answer
  playlist : Bytes → Answer
  waiting : Bytes → Option Bytes → Answer

abbrev keep : Bytes → Option Bytes → HlsSession → HlsSession
keep url none s = s
keep url (some bytes) s = record s { media_playlists = assign url bytes s.media_playlists }

-- The request for a playlist, `previous` being what a refresh has put aside; `sent` is the result of
-- `send_fcup_request`.
abbrev pub request_playlist :
    Bool → Bytes → Bytes → ℕ → Option Bytes → HlsSession → Registry → Registry × Answer
request_playlist sent url id request previous s r =
    let noted : HlsSession = record s {
      request_generations = set_generation request s.playback_generation s.request_generations;
    } in
    if sent
    then (put id noted r, waiting id previous)
    else (put id (keep url previous noted) r, failed)

abbrev pub begin_on :
    Bool → Bool → Bytes → Bytes → HlsSession → Option Bytes → Registry → Registry × Answer
begin_on sent force url id s none r =
    request_playlist sent url id s.next_request_id none
      (record s { next_request_id = suc s.next_request_id }) r
begin_on sent false url id s (some bytes) r =
    (put id (record s { next_request_id = suc s.next_request_id }) r, playlist bytes)
begin_on sent true url id s (some bytes) r =
    request_playlist sent url id s.next_request_id (some bytes)
      (record s {
        next_request_id = suc s.next_request_id;
        media_playlists = erase url s.media_playlists;
      })
      r

unfoldable pub fetch_playlist_begin :
    Bool → Bool → Bytes → List (Bytes × ℤ) → Registry → Registry × Answer
fetch_playlist_begin sent force url fds r = elim (pick fds r) [
  | none ↦ (r, failed)
  | some (id, s) ↦ begin_on sent force url id s (lookup url s.media_playlists) r
]

-- The wake-up or the timeout. A session that has been removed meanwhile gives failure.
unfoldable pub fetch_playlist_end : Bytes → Bytes → Option Bytes → Registry → Registry × Answer
fetch_playlist_end url id previous r = elim (lookup id r.sessions) [
  | none ↦ (r, failed)
  | some s ↦ elim (lookup url s.media_playlists) [
    | some bytes ↦ (r, playlist bytes)
    | none ↦ (put id (keep url previous s) r, failed)
  ]
]

-- The session under the id has the playlist.
pub record Has (id url bytes : Bytes) (r : Registry) : Type 0 where
  pub s : HlsSession
  pub here : lookup id r.sessions ≡ some s
  pub stored : lookup url s.media_playlists ≡ some bytes

begin_refresh :
    (sent : Bool) (url id bytes : Bytes) (fds : List (Bytes × ℤ)) (s : HlsSession) (r : Registry)
    → pick fds r ≡ some (id, s)
    → lookup url s.media_playlists ≡ some bytes
    → fetch_playlist_begin sent true url fds r ≡ begin_on sent true url id s (some bytes) r
unfolding fetch_playlist_begin
begin_refresh sent url id bytes fds s r picked stored = rw (picked, fetch_playlist_begin, stored)

end_without :
    (url id bytes : Bytes) (s : HlsSession) (r : Registry)
    → lookup id r.sessions ≡ some s
    → lookup url s.media_playlists ≡ none
    → fetch_playlist_end url id (some bytes) r ≡ (put id (keep url (some bytes) s) r, failed)
unfolding fetch_playlist_end
end_without url id bytes s r here absent = rw (here, fetch_playlist_end, absent)

keep-Has :
    (url id bytes : Bytes) (s : HlsSession) (r : Registry)
    → Has id url bytes (put id (keep url (some bytes) s) r)
keep-Has url id bytes s r = record {
  s = keep url (some bytes) s;
  here = lookup-assign id (keep url (some bytes) s) r.sessions;
  stored = lookup-assign url bytes s.media_playlists;
}

-- A forced refresh of a playlist that the picked session has does not lose it: the session has it
-- after a refresh whose request cannot be sent, and after one that is sent and ends without an
-- answer, and both of these report failure.
pub fetch_playlist-refresh :
    (url id bytes : Bytes) (fds : List (Bytes × ℤ)) (s : HlsSession) (r : Registry)
    → pick fds r ≡ some (id, s)
    → lookup url s.media_playlists ≡ some bytes
    → let unsent = fetch_playlist_begin false true url fds r in
      let unanswered =
        fetch_playlist_end url id (some bytes) (fetch_playlist_begin true true url fds r).0 in
      ((unsent.1 ≡ failed) × Has id url bytes unsent.0)
      × ((unanswered.1 ≡ failed) × Has id url bytes unanswered.0)
fetch_playlist-refresh url id bytes fds s r picked stored =
    let counted : HlsSession = record s {
      next_request_id = suc s.next_request_id;
      media_playlists = erase url s.media_playlists;
    } in
    let noted : HlsSession = record counted {
      request_generations =
          set_generation s.next_request_id s.playback_generation s.request_generations;
    } in
    let unsent = begin_refresh false url id bytes fds s r picked stored in
    let sent = begin_refresh true url id bytes fds s r picked stored in
    let ended =
      ap (λ x. fetch_playlist_end url id (some bytes) x.0) sent
      ∙ end_without url id bytes noted (put id noted r) (lookup-assign id noted r.sessions)
          (lookup-erase url s.media_playlists) in
    (
      (
        ap (λ x. x.1) unsent,
        subst (λ x. Has id url bytes x.0) (sym unsent) (keep-Has url id bytes noted r),
      ),
      (
        ap (λ x. x.1) ended,
        subst (λ x. Has id url bytes x.0) (sym ended)
            (keep-Has url id bytes noted (put id noted r)),
      ),
    )
