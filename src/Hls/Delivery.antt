-- ===== src/Hls/Delivery.antt =====
-- A delivered segment reaches the request that waits for it, whatever else is delivered meanwhile.
use air_play_windows.Base.{
  Bool-cases, Option-cases, All, Bytes, equal, equal_iff, lookup, assign, erase, lookup-assign,
  lookup-assign_other, lookup-erase, ◌≡◌, refl, sym, ap, ◌∙◌, subst, ◌⊎◌, inl, inr, true, false,
  none, some, List, [], ◌∷◌, arith,
}
use air_play_windows.Hls.{HlsSession, Registry}
use air_play_windows.Hls.Segments.{
  Fetched, timed_out, delivered, put, take_segment, fetch_segment_end, deliver_segment,
  deliver_segment_redirect,
}

pub data Delivery : Type 0 where
  segment : Bytes → Bytes → Bytes → Delivery
  redirect : Bytes → Bytes → Bytes → Delivery

abbrev pub url_of : Delivery → Bytes
url_of (segment id url bytes) = url
url_of (redirect id url location) = url

unfoldable pub deliver : Delivery → Registry → Registry
deliver (segment id url bytes) r = deliver_segment id url bytes r
deliver (redirect id url location) r = deliver_segment_redirect id url location r

abbrev pub deliver_all : List Delivery → Registry → Registry
deliver_all [] r = r
deliver_all (d ∷ ds) r = deliver_all ds (deliver d r)

-- The session has the segment's bytes and no redirect for it.
record Holds (id url bytes : Bytes) (r : Registry) : Type 0 where
  s : HlsSession
  here : lookup id r.sessions ≡ some s
  stored : lookup url s.segment_data ≡ some bytes
  plain : lookup url s.segment_redirect ≡ none

put-Holds :
    (id url bytes other : Bytes) (t : HlsSession) (r : Registry)
    → Holds id url bytes r
    → (equal other id ≡ false)
      ⊎ ((lookup url t.segment_data ≡ some bytes) × (lookup url t.segment_redirect ≡ none))
    → Holds id url bytes (put other t r)
put-Holds id url bytes other t r h change = elim (Bool-cases (equal other id)) [
  | inr apart ↦ record {
    s = h.s;
    here = lookup-assign_other id other t r.sessions apart ∙ h.here;
    stored = h.stored;
    plain = h.plain;
  }
  | inl same ↦ elim change [
    | inl apart ↦ absurd (ground (arith, same, apart))
    | inr (stored, plain) ↦ record {
      s = t;
      here =
          ap (λ k. lookup k (assign other t r.sessions)) (sym ((equal_iff other id).0 same))
          ∙ lookup-assign other t r.sessions;
      stored = stored;
      plain = plain;
    }
  ]
]

-- A session found under a key equal to the request's is the request's session.
same_session :
    (id other : Bytes) (s t : HlsSession) (r : Registry)
    → equal other id ≡ true
    → lookup id r.sessions ≡ some s
    → lookup other r.sessions ≡ some t
    → s ≡ t
same_session id other s t r same here there =
    let found : some t ≡ some s =
      sym there ∙ ap (λ k. lookup k r.sessions) ((equal_iff other id).0 same) ∙ here in
    cc found

-- A session changed in no entry for the url leaves what is held.
update-Holds :
    (id url bytes other : Bytes) (t t' : HlsSession) (r : Registry)
    → lookup other r.sessions ≡ some t
    → lookup url t'.segment_data ≡ lookup url t.segment_data
    → lookup url t'.segment_redirect ≡ lookup url t.segment_redirect
    → Holds id url bytes r
    → Holds id url bytes (put other t' r)
update-Holds id url bytes other t t' r there data_same redirect_same h =
    put-Holds id url bytes other t' r h (elim (Bool-cases (equal other id)) [
      | inr apart ↦ inl apart
      | inl same ↦
          let one = same_session id other h.s t r same h.here there in
          inr (
            data_same ∙ ap (λ x. lookup url x.segment_data) (sym one) ∙ h.stored,
            redirect_same ∙ ap (λ x. lookup url x.segment_redirect) (sym one) ∙ h.plain,
          )
    ])

segment-Holds :
    (id url bytes other other_url more : Bytes) (r : Registry)
    → equal other_url url ≡ false
    → Holds id url bytes r
    → Holds id url bytes (deliver_segment other other_url more r)
unfolding deliver_segment
segment-Holds id url bytes other other_url more r apart h =
    elim (Option-cases (lookup other r.sessions)) [
      | inl absent ↦ subst (Holds id url bytes) (sym (rw (absent, deliver_segment))) h
      | inr (t, there) ↦ subst (Holds id url bytes) (sym (rw (there, deliver_segment))) (
          update-Holds id url bytes other t
            (record t { segment_data = assign other_url more t.segment_data }) r there
            (lookup-assign_other url other_url more t.segment_data apart) refl h)
    ]

redirect-Holds :
    (id url bytes other other_url location : Bytes) (r : Registry)
    → equal other_url url ≡ false
    → Holds id url bytes r
    → Holds id url bytes (deliver_segment_redirect other other_url location r)
unfolding deliver_segment_redirect
redirect-Holds id url bytes other other_url location r apart h =
    elim (Option-cases (lookup other r.sessions)) [
      | inl absent ↦ subst (Holds id url bytes) (sym (rw (absent, deliver_segment_redirect))) h
      | inr (t, there) ↦ subst (Holds id url bytes) (sym (rw (there, deliver_segment_redirect))) (
          update-Holds id url bytes other t
            (record t { segment_redirect = assign other_url location t.segment_redirect }) r there
            refl (lookup-assign_other url other_url location t.segment_redirect apart) h)
    ]

abbrev pub IsOther : Bytes → Delivery → Type 0
IsOther url d = equal (url_of d) url ≡ false

deliver_all-Holds :
    (id url bytes : Bytes) (ds : List Delivery) (r : Registry)
    → All (IsOther url) ds
    → Holds id url bytes r
    → Holds id url bytes (deliver_all ds r)
unfolding deliver
deliver_all-Holds id url bytes [] r apart h = h
deliver_all-Holds id url bytes (segment other other_url more ∷ ds) r (apart, rest) h =
    deliver_all-Holds id url bytes ds (deliver_segment other other_url more r) rest
      (segment-Holds id url bytes other other_url more r apart h)
deliver_all-Holds id url bytes (redirect other other_url location ∷ ds) r (apart, rest) h =
    deliver_all-Holds id url bytes ds (deliver_segment_redirect other other_url location r) rest
      (redirect-Holds id url bytes other other_url location r apart h)

deliver_segment_found :
    (id url bytes : Bytes) (s : HlsSession) (r : Registry)
    → lookup id r.sessions ≡ some s
    → deliver_segment id url bytes r
      ≡ put id (record s { segment_data = assign url bytes s.segment_data }) r
unfolding deliver_segment
deliver_segment_found id url bytes s r here = rw (here, deliver_segment)

deliver_segment-Holds :
    (id url bytes : Bytes) (s : HlsSession) (r : Registry)
    → lookup id r.sessions ≡ some s
    → lookup url s.segment_redirect ≡ none
    → Holds id url bytes (deliver_segment id url bytes r)
deliver_segment-Holds id url bytes s r here plain =
    subst (Holds id url bytes) (sym (deliver_segment_found id url bytes s r here)) (record {
      s = record s { segment_data = assign url bytes s.segment_data };
      here =
          lookup-assign id (record s { segment_data = assign url bytes s.segment_data }) r.sessions;
      stored = lookup-assign url bytes s.segment_data;
      plain = plain;
    })

take_segment_stored :
    (url bytes : Bytes) (s : HlsSession)
    → lookup url s.segment_redirect ≡ none
    → lookup url s.segment_data ≡ some bytes
    → take_segment url s
      ≡ some (record s { segment_data = erase url s.segment_data }, delivered bytes)
unfolding take_segment
take_segment_stored url bytes s plain stored = rw (plain, take_segment, stored)

take_segment_empty :
    (url : Bytes) (s : HlsSession)
    → lookup url s.segment_redirect ≡ none
    → lookup url s.segment_data ≡ none
    → take_segment url s ≡ none
unfolding take_segment
take_segment_empty url s plain absent = rw (plain, take_segment, absent)

fetch_segment_end_taken :
    (url id : Bytes) (s s' : HlsSession) (result : Fetched) (r : Registry)
    → lookup id r.sessions ≡ some s
    → take_segment url s ≡ some (s', result)
    → fetch_segment_end url id r ≡ (put id s' r, result)
unfolding fetch_segment_end
fetch_segment_end_taken url id s s' result r here took = rw (here, fetch_segment_end, took)

fetch_segment_end_empty :
    (url id : Bytes) (s : HlsSession) (r : Registry)
    → lookup id r.sessions ≡ some s
    → take_segment url s ≡ none
    → fetch_segment_end url id r ≡ (r, timed_out)
unfolding fetch_segment_end
fetch_segment_end_empty url id s r here absent = rw (here, fetch_segment_end, absent)

fetch-Holds :
    (id url bytes : Bytes) (r : Registry)
    → Holds id url bytes r
    → ((fetch_segment_end url id r).1 ≡ delivered bytes)
      × ((fetch_segment_end url id (fetch_segment_end url id r).0).1 ≡ timed_out)
fetch-Holds id url bytes r h =
    let s' : HlsSession = record h.s { segment_data = erase url h.s.segment_data } in
    let first =
      fetch_segment_end_taken url id h.s s' (delivered bytes) r h.here
        (take_segment_stored url bytes h.s h.plain h.stored) in
    let emptied = take_segment_empty url s' h.plain (lookup-erase url h.s.segment_data) in
    let second =
      fetch_segment_end_empty url id s' (put id s' r) (lookup-assign id s' r.sessions) emptied in
    (ap (λ x. x.1) first, ap (λ x. (fetch_segment_end url id x.0).1) first ∙ ap (λ x. x.1) second)

-- A segment delivered to a session that has no redirect for its url is what the wait for that url
-- ends with, whatever segments and redirects for other urls come to any session before the wait
-- ends; and it is given once: a second wait for the url finds nothing.
pub fetch_segment-deliver :
    (id url bytes : Bytes) (s : HlsSession) (ds : List Delivery) (r : Registry)
    → lookup id r.sessions ≡ some s
    → lookup url s.segment_redirect ≡ none
    → All (IsOther url) ds
    → let r' = deliver_all ds (deliver_segment id url bytes r) in
      ((fetch_segment_end url id r').1 ≡ delivered bytes)
      × ((fetch_segment_end url id (fetch_segment_end url id r').0).1 ≡ timed_out)
fetch_segment-deliver id url bytes s ds r here plain apart =
    fetch-Holds id url bytes (deliver_all ds (deliver_segment id url bytes r)) (
      deliver_all-Holds id url bytes ds (deliver_segment id url bytes r) apart
        (deliver_segment-Holds id url bytes s r here plain))
