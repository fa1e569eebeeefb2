-- ===== src/Hls/Segments.antt =====
-- `fetch_segment`, as the steps before and after its wait, and the deliveries of segments.
use air_play_windows.Base.{
  ◌==◌, if◌then◌else◌, Bytes, lookup, assign, erase, ℕ, suc, Bool, Option, none, some, List, [],
  ◌∷◌,
}
use air_play_windows.Base.Int.{ℤ, pos, leb_ℤ}
use air_play_windows.Hls.{HlsSession, Registry, active, socket_for}

-- What a step of `fetch_segment` gives: the request to wait for, its result, or its failure; `gone`
-- is the end of a wait for a session that has been removed.
pub data Fetched : Type 0 where
  no_channel gone timed_out : Fetched
  asked : Bytes → ℕ → Fetched
  redirected : Bytes → Fetched
  delivered : Bytes → Fetched

abbrev pub has_channel : List (Bytes × ℤ) → Bytes → Bool
has_channel fds id = leb_ℤ (pos 0) (socket_for id fds)

unfoldable pub first_channel :
    List (Bytes × ℤ) → List (Bytes × HlsSession) → Option (Bytes × HlsSession)
first_channel fds [] = none
first_channel fds ((id, s) ∷ rest) =
    let later = first_channel fds rest in if has_channel fds id then some (id, s) else later

-- The session to ask: the active one if it has a reverse channel, else the first that has one.
unfoldable pub pick : List (Bytes × ℤ) → Registry → Option (Bytes × HlsSession)
pick fds r = elim (active r) [
  | none ↦ first_channel fds r.sessions
  | some s ↦
      if has_channel fds r.active_session_id
      then some (r.active_session_id, s)
      else first_channel fds r.sessions
]

abbrev pub put : Bytes → HlsSession → Registry → Registry
put id s r = record r { sessions = assign id s r.sessions }

unfoldable pub set_generation : ℕ → ℕ → List (ℕ × ℕ) → List (ℕ × ℕ)
set_generation request generation [] = (request, generation) ∷ []
set_generation request generation ((k, g) ∷ m) =
    if k == request then (k, generation) ∷ m else (k, g) ∷ set_generation request generation m

-- What has been delivered is taken out of the session, a redirect before data.
unfoldable pub take_segment : Bytes → HlsSession → Option (HlsSession × Fetched)
take_segment url s = elim (lookup url s.segment_redirect) [
  | some location ↦
      some (record s { segment_redirect = erase url s.segment_redirect }, redirected location)
  | none ↦ elim (lookup url s.segment_data) [
    | some bytes ↦ some (record s { segment_data = erase url s.segment_data }, delivered bytes)
    | none ↦ none
  ]
]

-- `fetch_segment` on the picked session, up to the request that it sends.
unfoldable pub ask : Bytes → Bytes → HlsSession → Registry → Registry × Fetched
ask url id s r =
    let counted = record s { next_request_id = suc s.next_request_id } in
    elim (take_segment url counted) [
      | some (s', result) ↦ (put id s' r, result)
      | none ↦ (
        put id
            (record counted {
              request_generations =
                  set_generation s.next_request_id s.playback_generation s.request_generations;
            })
            r,
        asked id s.next_request_id,
      )
    ]

unfoldable pub fetch_segment_begin : Bytes → List (Bytes × ℤ) → Registry → Registry × Fetched
fetch_segment_begin url fds r = elim (pick fds r) [
  | none ↦ (r, no_channel)
  | some (id, s) ↦ ask url id s r
]

-- The wake-up or the timeout.
unfoldable pub fetch_segment_end : Bytes → Bytes → Registry → Registry × Fetched
fetch_segment_end url id r = elim (lookup id r.sessions) [
  | none ↦ (r, gone)
  | some s ↦ elim (take_segment url s) [
    | none ↦ (r, timed_out)
    | some (s', result) ↦ (put id s' r, result)
  ]
]

unfoldable pub deliver_segment : Bytes → Bytes → Bytes → Registry → Registry
deliver_segment id url bytes r = elim (lookup id r.sessions) [
  | none ↦ r
  | some s ↦ put id (record s { segment_data = assign url bytes s.segment_data }) r
]

unfoldable pub deliver_segment_redirect : Bytes → Bytes → Bytes → Registry → Registry
deliver_segment_redirect id url location r = elim (lookup id r.sessions) [
  | none ↦ r
  | some s ↦ put id (record s { segment_redirect = assign url location s.segment_redirect }) r
]
