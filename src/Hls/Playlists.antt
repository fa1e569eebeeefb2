-- ===== src/Hls/Playlists.antt =====
-- What `lookup_playlist` finds.
use air_play_windows.Base.{
  if◌then◌else◌, Bool-cases, Option-cases, Bytes, equal, equal_iff, is_empty, lookup, ◌≡◌, ap, ◌∙◌,
  subst, ◌≢◌, ◌⊎◌, inl, inr, Bool, false, none, some, List, [], ◌∷◌, arith,
}
use air_play_windows.Hls.{HlsSession, Registry, active, search_others, playlist_in, lookup_playlist}

search_others_complete :
    (url : Bytes) (skip id : Bytes) (s : HlsSession) (x : Bytes × Bool)
    (sessions : List (Bytes × HlsSession))
    → lookup id sessions ≡ some s
    → equal id skip ≡ false
    → playlist_in url s ≡ some x
    → search_others (playlist_in url) skip sessions ≢ none
unfolding search_others lookup
search_others_complete url skip id s x [] here other there h = cc
search_others_complete url skip id s x ((k, t) ∷ rest) here other there h =
    let rest_done = search_others_complete url skip id s x rest in
    elim (Bool-cases (equal k id)) [
      | inl same ↦
          let apart : equal k skip ≡ false =
            ap (λ i. equal i skip) ((equal_iff k id).0 same) ∙ other in
          ground (arith, same, here, apart, there, h)
      | inr differs ↦ elim (Bool-cases (equal k skip)) [
        | inl skipped ↦ ground (arith, differs, skipped, here, other, there, h, rest_done)
        | inr kept ↦ elim (Option-cases (playlist_in url t)) [
          | inl without ↦ ground (arith, differs, kept, without, here, other, there, h, rest_done)
          | inr (y, with_it) ↦ ground (arith, differs, kept, with_it, h)
        ]
      ]
    ]

pub lookup_playlist-active :
    (r : Registry) (url : Bytes) (s : HlsSession) (x : Bytes × Bool)
    → active r ≡ some s
    → playlist_in url s ≡ some x
    → lookup_playlist url r ≡ some x
unfolding lookup_playlist
lookup_playlist-active r url s x here there = ground (arith, here, there)

lookup_playlist_other :
    (r : Registry) (url : Bytes)
    → search_others (playlist_in url) r.active_session_id r.sessions ≢ none
    → lookup_playlist url r ≢ none
unfolding lookup_playlist
lookup_playlist_other r url found h = elim (Option-cases (active r)) [
  | inl no_one ↦ ground (arith, no_one, found, h)
  | inr (s, here) ↦ elim (Option-cases (playlist_in url s)) [
    | inl without ↦ ground (arith, here, without, found, h)
    | inr (x, there) ↦ ground (arith, here, there, h)
  ]
]

-- A playlist that some session has and that is not empty is found, if the session's id is not the
-- empty one; where the active session has one, that one is given.
pub lookup_playlist_complete :
    (r : Registry) (url id : Bytes) (s : HlsSession) (x : Bytes × Bool)
    → lookup id r.sessions ≡ some s
    → is_empty id ≡ false
    → playlist_in url s ≡ some x
    → (lookup_playlist url r ≢ none)
      × ((equal id r.active_session_id ≡ false) ⊎ (lookup_playlist url r ≡ some x))
lookup_playlist_complete r url id s x here named there =
    elim (Bool-cases (equal id r.active_session_id)) [
      | inr other ↦ (
        lookup_playlist_other r url
            (search_others_complete url r.active_session_id id s x r.sessions here other there),
        inl other,
      )
      | inl same ↦
          let one = (equal_iff id r.active_session_id).0 same in
          let chosen : active r ≡ some s =
            subst (λ i. (if is_empty i then none else lookup i r.sessions) ≡ some s) one
              (rw (named, here)) in
          let found = lookup_playlist-active r url s x chosen there in
          (λ h. ground (arith, found, h), inr found)
    ]
