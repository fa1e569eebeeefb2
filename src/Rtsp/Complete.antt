-- ===== src/Rtsp/Complete.antt =====
-- A request that is on the stream is read: no way to cut the stream makes the reader fail or wait
-- for more.
use air_play_windows.Base.{
  leb, Bool-cases, Option-cases, length, All, length-append, Bytes, split_at, split_at-length,
  split_at-append, split_at_beyond, ℕ, ◌+◌, ◌≤◌, ◌<◌, ◌≡◌, sym, ap, ◌∙◌, ◌≢◌, inl, inr, false, none,
  some, List, [], ◌∷◌, ◌++◌, append-nil, append_assoc, arith,
}
use air_play_windows.Rtsp.{
  Request, Reader, head_end, content_length, parse_head, receive_head, fill, read_from, read,
}
use air_play_windows.Rtsp.Stream.{
  parse_stream, joined, stream, parse_head-append, receive_head-stream, read-parse_stream,
}

-- What one call of `recv_interruptible` brings.
abbrev pub IsChunk : Bytes → Type 0
IsChunk c = (0 < length c) × (length c ≤ 4096)

record Received (a : Bytes) (chunks : List Bytes) (buffer : Bytes) : Type 0 where
  buffer' : Bytes
  chunks' : List Bytes
  got : receive_head chunks buffer ≡ some (a, (buffer', chunks'))
  pieces : All IsChunk chunks'

receive_head_complete :
    (chunks : List Bytes) (buffer a b : Bytes)
    → All IsChunk chunks
    → split_at head_end (buffer ++ joined chunks) ≡ some (a, b)
    → length a ≤ 61436
    → Received a chunks buffer
unfolding receive_head
receive_head_complete [] buffer a b pieces there small = record {
  buffer' = buffer;
  chunks' = [];
  got = ground (arith, there, append-nil buffer);
  pieces = tt;
}
receive_head_complete (c ∷ cs) buffer a b (piece, pieces) there small =
    let key : Bytes = 10 ∷ 13 ∷ 10 ∷ [] in
    elim (Option-cases (split_at head_end buffer)) [
      | inr ((a', b'), early) ↦ record {
        buffer' = buffer;
        chunks' = c ∷ cs;
        got =
            ground
              (arith, there, early, split_at-append 13 key buffer (c ++ joined cs) a' b' early);
        pieces = (piece, pieces);
      }
      | inl late ↦
          let beyond = split_at_beyond 13 key buffer (c ++ joined cs) a b late there in
          let there' = ap (split_at head_end) (append_assoc buffer c (joined cs)) ∙ there in
          let r = receive_head_complete cs (buffer ++ c) a b pieces there' small in
          record {
            buffer' = r.buffer';
            chunks' = r.chunks';
            got = ground (arith, late, beyond, piece, r.got, length-append buffer c);
            pieces = r.pieces;
          }
    ]

fill_complete :
    (chunks : List Bytes) (need : ℕ) (buffer : Bytes)
    → All IsChunk chunks
    → need ≤ length (buffer ++ joined chunks)
    → fill chunks need buffer ≢ none
unfolding fill
fill_complete [] need buffer pieces le h = ground (arith, le, append-nil buffer, h)
fill_complete (c ∷ cs) need buffer (piece, pieces) le h =
    elim (Bool-cases (leb need (length buffer))) [
      | inl enough ↦ ground (arith, enough)
      | inr short ↦
          fill_complete cs need (buffer ++ c) pieces
            (ground (arith, le, append_assoc buffer c (joined cs)))
            (ground (arith, short, piece, h))
    ]

-- A head that is parsed and a body that has come, in the buffer and the chunks to come, are read.
read_from_complete :
    (buffer a b : Bytes) (chunks : List Bytes) (q : Request)
    → All IsChunk chunks
    → split_at head_end buffer ≡ some (a, b)
    → parse_head (length a + 4) (buffer ++ joined chunks) ≡ some q
    → length a + 4 + content_length q ≤ length (buffer ++ joined chunks)
    → read_from (some (a, (buffer, chunks))) ≢ none
read_from_complete buffer a b chunks q pieces there parsed room h =
    let still = sym (parse_head-append buffer (joined chunks) a b there) ∙ parsed in
    elim (Option-cases (fill chunks (length a + 4 + content_length q) buffer)) [
      | inl failed ↦
          fill_complete chunks (length a + 4 + content_length q) buffer pieces room failed
      | inr ((buffer', chunks'), filled) ↦ ground (arith, still, filled, h)
    ]

-- The stream's first request, with the facts that its parse rests on.
record Whole (s a b : Bytes) : Type 0 where
  q : Request
  parsed : parse_head (length a + 4) s ≡ some q
  room : length a + 4 + content_length q ≤ length s

parse_stream-Whole :
    (s a b rest : Bytes) (req : Request)
    → split_at head_end s ≡ some (a, b)
    → parse_stream s ≡ some (req, rest)
    → Whole s a b
unfolding parse_stream
parse_stream-Whole s a b rest req there h = elim (Option-cases (parse_head (length a + 4) s)) [
  | inl failed ↦ absurd (ground (arith, there, failed))
  | inr (q, parsed) ↦ record {
    q = q;
    parsed = parsed;
    room = ground (arith, there, parsed, split_at-length 13 (10 ∷ 13 ∷ 10 ∷ []) s a b there);
  }
]

read_not_none :
    (r : Reader) (a b : Bytes) (req : Request) (rest : Bytes)
    → r.cancelled ≡ false
    → All IsChunk r.chunks
    → split_at head_end (stream r) ≡ some (a, b)
    → length a ≤ 61436
    → parse_stream (stream r) ≡ some (req, rest)
    → read r ≢ none
unfolding read
read_not_none r a b req rest on pieces there small parsed h =
    let got = receive_head_complete r.chunks r.buffer a b pieces there small in
    let whole = parse_stream-Whole (stream r) a b rest req there parsed in
    let (same, (behind, early)) =
      receive_head-stream r.chunks r.buffer a got.buffer' got.chunks' got.got in
    read_from_complete got.buffer' a behind got.chunks' whole.q got.pieces early
      (ap (parse_head (length a + 4)) same ∙ whole.parsed) (ground (arith, same, whole.room))
      (ground (arith, on, got.got, h))

-- If the reader has not been cancelled, no receive fails or brings more than 4096 bytes, and the
-- stream begins with a request whose head, without its final empty line, has at most 61436 bytes,
-- then the reader gives that request and leaves the stream behind it.
pub read_complete :
    (r : Reader) (a b : Bytes) (req : Request) (rest : Bytes)
    → r.cancelled ≡ false
    → All IsChunk r.chunks
    → split_at head_end (stream r) ≡ some (a, b)
    → length a ≤ 61436
    → parse_stream (stream r) ≡ some (req, rest)
    → (r' : Reader) × (read r ≡ some (req, r')) × (stream r' ≡ rest)
read_complete r a b req rest on pieces there small parsed = elim (Option-cases (read r)) [
  | inl failed ↦ absurd (read_not_none r a b req rest on pieces there small parsed failed)
  | inr ((req', r'), done) ↦
      let same = read-parse_stream r r' req' done in
      (r', grind (arith, done, same, parsed), grind (arith, same, parsed))
]
