-- ===== src/Rtsp/Tests.antt =====
-- The request reader on a small stream that comes in three chunks.
use air_play_windows.Rtsp.Complete.{read_complete}
use air_play_windows.Base.{
  Bytes, codes, equal, strip_prefix, split_at, split_char, skip_space, span_word, digits_value, ◌≡◌,
  refl, false, some, [], ◌∷◌, ◌++◌, arith,
}
use air_play_windows.Rtsp.{
  Request, Reader, head_end, to_lower, trim_front, trim_back, trim, set_header, find_header, header,
  stoul, content_length, normalize_uri, add_header, header_loop, request_line, parse_head,
  receive_head, fill, read,
}
use air_play_windows.Rtsp.Stream.{parse_stream, stream, read-parse_stream}

abbrev first_chunk : Bytes
first_chunk = codes "POST rtsp://h:7/fp RTSP/1.0" ++ (13 ∷ 10 ∷ codes "CSeq : 1" ++ (13 ∷ []))

abbrev second_chunk : Bytes
second_chunk = 10 ∷ codes "Content-Length: 3" ++ (13 ∷ 10 ∷ 13 ∷ 10 ∷ codes "a")

abbrev third_chunk : Bytes
third_chunk = codes "bcGET"

abbrev request : Request
request = record {
  method = codes "POST";
  uri = codes "/fp";
  version = codes "RTSP/1.0";
  headers = (codes "cseq", codes "1") ∷ (codes "content-length", codes "3") ∷ [];
  body = codes "abc";
}

abbrev before : Reader
before = record {
  cancelled = false;
  buffer = [];
  chunks = first_chunk ∷ second_chunk ∷ third_chunk ∷ [];
}

abbrev after : Reader
after = record { cancelled = false; buffer = codes "GET"; chunks = [] }

reads : read before ≡ some (request, after)
unfolding read receive_head fill split_at strip_prefix parse_head request_line span_word skip_space
    normalize_uri split_char header_loop add_header set_header equal to_lower trim trim_front
    trim_back content_length header find_header stoul digits_value
reads = refl

read-parse_stream_example : parse_stream (stream before) ≡ some (request, stream after)
read-parse_stream_example = read-parse_stream before after request reads

abbrev head : Bytes
head =
    codes "POST rtsp://h:7/fp RTSP/1.0"
    ++ (13 ∷ 10 ∷ codes "CSeq : 1" ++ (13 ∷ 10 ∷ codes "Content-Length: 3"))

splits : split_at head_end (stream before) ≡ some (head, codes "abcGET")
unfolding split_at strip_prefix
splits = refl

read_complete_example :
    (r' : Reader) × (read before ≡ some (request, r')) × (stream r' ≡ stream after)
read_complete_example =
    read_complete before head (codes "abcGET") request (stream after) refl
      ((omega arith, omega arith), ((omega arith, omega arith), ((omega arith, omega arith), tt)))
      splits (omega arith) read-parse_stream_example
