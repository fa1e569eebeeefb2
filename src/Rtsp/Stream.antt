-- ===== src/Rtsp/Stream.antt =====
-- Requests as parts of the byte stream, however the network cuts it.
use air_play_windows.Base.{
  leb, if◌then◌else◌, Bool-cases, Option-cases, length, take, drop, length-append, take-append_le,
  drop-append_le, drop-drop, Bytes, split_at, split_at-length, split_at-append, split_at_beyond,
  split_at-prefix, split_at_rest, ℕ, zero, suc, ◌+◌, ◌-◌, ◌≤◌, ◌≡◌, refl, sym, ap, ◌∙◌, inl, inr,
  false, Option, none, some, List, [], ◌∷◌, ◌++◌, append-nil, append_assoc, arith,
}
use air_play_windows.Rtsp.{
  Request, Reader, crlf, head_end, content_length, add_header, header_loop, parse_head,
  receive_head, fill, take_body, read,
}

-- The first request of a stream, and what stands behind it.
unfoldable pub parse_stream : Bytes → Option (Request × Bytes)
parse_stream s = elim (split_at head_end s) [
  | none ↦ none
  | some (head, rest) ↦ elim (parse_head (length head + 4) s) [
    | none ↦ none
    | some r ↦
        if leb (content_length r) (length rest)
        then some (record r { body = take (content_length r) rest }, drop (content_length r) rest)
        else none
  ]
]

abbrev pub joined : List Bytes → Bytes
joined [] = []
joined (c ∷ cs) = c ++ joined cs

-- The bytes that the reader has and those that are still to come.
abbrev pub stream : Reader → Bytes
stream r = r.buffer ++ joined r.chunks

header_loop-append :
    (fuel limit : ℕ) (text more : Bytes) (headers : List (Bytes × Bytes))
    → limit ≤ length text - 2
    → header_loop fuel limit (text ++ more) headers ≡ header_loop fuel limit text headers
unfolding header_loop
header_loop-append zero limit text more headers le = refl
header_loop-append (suc fuel) limit text more headers le =
    elim (Option-cases (split_at crlf text)) [
      | inr ((line, rest), there) ↦
          let room = split_at-length 13 (10 ∷ []) text line rest there in
          let more_there = split_at-append 13 (10 ∷ []) text more line rest there in
          ground (
            arith,
            there,
            more_there,
            header_loop-append fuel (limit - (length line + 2)) rest more (add_header line headers)
                (omega (arith, room)),
          )
      | inl nowhere ↦ elim (Option-cases (split_at crlf (text ++ more))) [
        | inl still ↦ ground (arith, nowhere, still)
        | inr ((line, rest), there) ↦
            ground (
              arith,
              nowhere,
              there,
              split_at_beyond 13 (10 ∷ []) text more line rest nowhere there,
            )
      ]
    ]

-- With the end of the head in the buffer, what stands behind the buffer does not change the head.
pub parse_head-append :
    (buffer more a b : Bytes)
    → split_at head_end buffer ≡ some (a, b)
    → parse_head (length a + 4) (buffer ++ more) ≡ parse_head (length a + 4) buffer
unfolding parse_head
parse_head-append buffer more a b h =
    let (line, rest, there, le) = split_at-prefix 13 (10 ∷ []) (13 ∷ 10 ∷ []) buffer a b h in
    let room = split_at-length 13 (10 ∷ []) buffer line rest there in
    let whole = split_at-length 13 (10 ∷ 13 ∷ 10 ∷ []) buffer a b h in
    let limit = length a + 4 - 2 - (length line + 2) in
    ground (
      arith,
      there,
      split_at-append 13 (10 ∷ []) buffer more line rest there,
      header_loop-append limit limit rest more [] (omega (arith, room, whole)),
    )

-- The number of rounds does not matter to the header loop once it has one for each byte.
pub header_loop_enough :
    (fuel more limit : ℕ) (text : Bytes) (headers : List (Bytes × Bytes))
    → limit ≤ fuel
    → limit ≤ more
    → header_loop fuel limit text headers ≡ header_loop more limit text headers
unfolding header_loop
header_loop_enough zero zero limit text headers le le' = refl
header_loop_enough zero (suc more) limit text headers le le' = ground arith
header_loop_enough (suc fuel) zero limit text headers le le' = ground arith
header_loop_enough (suc fuel) (suc more) limit text headers le le' =
    elim (Option-cases (split_at crlf text)) [
      | inl nowhere ↦ ground (arith, nowhere)
      | inr ((line, rest), there) ↦
          let left = limit - (length line + 2) in
          ground (
            arith,
            there,
            header_loop_enough fuel more left rest (add_header line headers) (omega arith)
                (omega arith),
          )
    ]

-- Receiving until the head is there only moves chunks into the buffer.
pub receive_head-stream :
    (chunks : List Bytes) (buffer head buffer' : Bytes) (chunks' : List Bytes)
    → receive_head chunks buffer ≡ some (head, (buffer', chunks'))
    → (buffer' ++ joined chunks' ≡ buffer ++ joined chunks)
      × ((rest : Bytes) × (split_at head_end buffer' ≡ some (head, rest)))
unfolding receive_head
receive_head-stream [] buffer head buffer' chunks' h =
    elim (Option-cases (split_at head_end buffer)) [
      | inl nowhere ↦ absurd (ground (arith, nowhere))
      | inr ((a, rest), there) ↦ (ground (arith, there), (rest, ground (arith, there)))
    ]
receive_head-stream (c ∷ cs) buffer head buffer' chunks' h =
    elim (Option-cases (split_at head_end buffer)) [
      | inr ((a, rest), there) ↦ (ground (arith, there), (rest, ground (arith, there)))
      | inl nowhere ↦
          let (same, found) =
            receive_head-stream cs (buffer ++ c) head buffer' chunks' (ground (arith, nowhere)) in
          (grind (arith, same, append_assoc buffer c (joined cs)), found)
    ]

pub fill-stream :
    (chunks : List Bytes) (need : ℕ) (buffer buffer' : Bytes) (chunks' : List Bytes)
    → fill chunks need buffer ≡ some (buffer', chunks')
    → (buffer' ++ joined chunks' ≡ buffer ++ joined chunks)
      × (need ≤ length buffer')
      × ((more : Bytes) × (buffer' ≡ buffer ++ more))
unfolding fill
fill-stream [] need buffer buffer' chunks' h = elim (Bool-cases (leb need (length buffer))) [
  | inl enough ↦ (
    ground (arith, enough),
    ground (arith, enough),
    ([], ground (arith, enough, append-nil buffer)),
  )
  | inr short ↦ absurd (ground (arith, short))
]
fill-stream (c ∷ cs) need buffer buffer' chunks' h = elim (Bool-cases (leb need (length buffer))) [
  | inl enough ↦ (
    ground (arith, enough),
    ground (arith, enough),
    ([], ground (arith, enough, append-nil buffer)),
  )
  | inr short ↦
      let (same, le, (more, longer)) =
        fill-stream cs need (buffer ++ c) buffer' chunks' (ground (arith, short)) in
      (
        grind (arith, same, append_assoc buffer c (joined cs)),
        le,
        (c ++ more, grind (arith, longer, append_assoc buffer c more)),
      )
]

-- The stream's request, from a buffer that holds it whole.
parse_stream-append :
    (buffer more a b : Bytes) (r : Request)
    → split_at head_end buffer ≡ some (a, b)
    → parse_head (length a + 4) buffer ≡ some r
    → length a + 4 + content_length r ≤ length buffer
    → parse_stream (buffer ++ more)
      ≡ some (
        record r { body = take (content_length r) (drop (length a + 4) buffer) },
        drop (length a + 4 + content_length r) buffer ++ more,
      )
unfolding parse_stream
parse_stream-append buffer more a b r there parsed room =
    let key : Bytes = 10 ∷ 13 ∷ 10 ∷ [] in
    let whole = split_at-length 13 key buffer a b there in
    let rest = split_at_rest 13 key buffer a b there in
    let fits : content_length r ≤ length b = omega (arith, whole, room) in
    ground (
      arith,
      whole,
      room,
      rest,
      split_at-append 13 key buffer more a b there,
      parse_head-append buffer more a b there,
      parsed,
      length-append b more,
      take-append_le (content_length r) b more fits,
      drop-append_le (content_length r) b more fits,
      drop-drop (length a + 4) (content_length r) buffer,
    )

-- The same for a buffer that had the head before its last chunks came.
read_body-parse_stream :
    (buffer buffer' more after a b : Bytes) (q : Request)
    → split_at head_end buffer ≡ some (a, b)
    → parse_head (length a + 4) buffer ≡ some q
    → buffer' ≡ buffer ++ more
    → length a + 4 + content_length q ≤ length buffer'
    → parse_stream (buffer' ++ after)
      ≡ some (
        record q { body = take (content_length q) (drop (length a + 4) buffer') },
        drop (length a + 4 + content_length q) buffer' ++ after,
      )
read_body-parse_stream buffer buffer' more after a b q there parsed longer room =
    parse_stream-append buffer' after a (b ++ more) q
      (ap (split_at head_end) longer ∙ split_at-append 13 (10 ∷ 13 ∷ 10 ∷ []) buffer more a b there)
      (ap (parse_head (length a + 4)) longer ∙ parse_head-append buffer more a b there ∙ parsed)
      room

abbrev rest_of : Option (Request × Reader) → Option (Request × Bytes)
rest_of none = none
rest_of (some (req, r)) = some (req, stream r)

taken :
    (r r' : Reader) (req : Request) (a buffer : Bytes) (chunks : List Bytes) (q : Request)
    (buffer' : Bytes) (chunks' : List Bytes)
    → r.cancelled ≡ false
    → receive_head r.chunks r.buffer ≡ some (a, (buffer, chunks))
    → parse_head (length a + 4) buffer ≡ some q
    → fill chunks (length a + 4 + content_length q) buffer ≡ some (buffer', chunks')
    → read r ≡ some (req, r')
    → take_body (length a + 4) q (some (buffer', chunks')) ≡ some (req, r')
unfolding read
taken r r' req a buffer chunks q buffer' chunks' on got parsed filled h =
    ground (arith, on, got, parsed, filled)

-- Whatever way the network cuts the stream, a request that the reader gives is the first request of
-- the stream, and what the reader keeps in its buffer is, with the chunks to come, the stream behind
-- that request.
pub read-parse_stream :
    (r r' : Reader) (req : Request)
    → read r ≡ some (req, r')
    → parse_stream (stream r) ≡ some (req, stream r')
unfolding read
read-parse_stream r r' req h = elim (Bool-cases r.cancelled) [
  | inl stopped ↦ absurd (ground (arith, stopped))
  | inr on ↦ elim (Option-cases (receive_head r.chunks r.buffer)) [
    | inl failed ↦ absurd (ground (arith, on, failed))
    | inr ((a, (buffer, chunks)), got) ↦ elim (Option-cases (parse_head (length a + 4) buffer)) [
      | inl failed ↦ absurd (ground (arith, on, got, failed))
      | inr (q, parsed) ↦
          elim (Option-cases (fill chunks (length a + 4 + content_length q) buffer)) [
            | inl failed ↦ absurd (ground (arith, on, got, parsed, failed))
            | inr ((buffer', chunks'), filled) ↦
                let (same, (b, there)) =
                  receive_head-stream r.chunks r.buffer a buffer chunks got in
                let (same', room, (more, longer)) =
                  fill-stream chunks (length a + 4 + content_length q) buffer buffer' chunks'
                    filled in
                ap parse_stream (sym (same' ∙ same))
                ∙ read_body-parse_stream buffer buffer' more (joined chunks') a b q there parsed
                    longer room
                ∙ ap rest_of
                    (taken r r' req a buffer chunks q buffer' chunks' on got parsed filled h)
          ]
    ]
  ]
]
