-- ===== src/Rtsp.antt =====
-- src/airplay/rtsp_parser.cpp and rtsp_parser.h: `RequestReader`, which takes requests off a TCP
-- stream. `chunks` are the results of the next calls of `recv_interruptible`, an empty one where it
-- returns 0 or less; no chunk is longer than the 4096 bytes of `tmp`. A read that fails gives no
-- state, since the server drops the connection then.
pub mod Stream
pub mod Complete
mod Tests
use air_play_windows.Base.{
  ltb, leb, ◌==◌, if◌then◌else◌, length, take, drop, Bytes, codes, equal, is_empty, u32,
  starts_with, split_at, split_char, skip_space, next_word, to_lower_char, is_digit, digits_value,
  ℕ, zero, suc, ◌+◌, ◌-◌, ◌*◌, ◌/◌, ◌%◌, Bool, true, false, ◌&&◌, ◌||◌, Option, none, some, List,
  [], ◌∷◌, ◌++◌,
}

pub record Request : Type 0 where
  pub method : Bytes
  pub uri : Bytes
  pub version : Bytes
  pub headers : List (Bytes × Bytes)
  pub body : Bytes

pub record Reader : Type 0 where
  pub cancelled : Bool
  pub buffer : Bytes
  pub chunks : List Bytes

abbrev pub crlf : Bytes
crlf = 13 ∷ 10 ∷ []

abbrev pub head_end : Bytes
head_end = 13 ∷ 10 ∷ 13 ∷ 10 ∷ []

abbrev is_blank : ℕ → Bool
is_blank c = c == 32 || c == 9

unfoldable pub to_lower : Bytes → Bytes
to_lower [] = []
to_lower (c ∷ cs) = to_lower_char c ∷ to_lower cs

unfoldable pub trim_front : Bytes → Bytes
trim_front [] = []
trim_front (c ∷ cs) = if is_blank c then trim_front cs else c ∷ cs

unfoldable pub trim_back : Bytes → Bytes
trim_back [] = []
trim_back (c ∷ cs) = let rest = trim_back cs in if is_blank c && is_empty rest then [] else c ∷ rest

unfoldable pub trim : Bytes → Bytes
trim s = trim_back (trim_front s)

-- `headers[key] = value`, the map in the order of the first insertions.
unfoldable pub set_header : Bytes → Bytes → List (Bytes × Bytes) → List (Bytes × Bytes)
set_header key value [] = (key, value) ∷ []
set_header key value ((k, v) ∷ hs) =
    if equal k key then (k, value) ∷ hs else (k, v) ∷ set_header key value hs

unfoldable pub find_header : Bytes → List (Bytes × Bytes) → Bytes
find_header key [] = []
find_header key ((k, v) ∷ hs) = if equal k key then v else find_header key hs

unfoldable pub header : Request → Bytes → Bytes
header r key = find_header (to_lower key) r.headers

-- The digits of `strtoul` behind the sign, for the 32-bit `unsigned long` of Windows.
abbrev digits_ulong : Bool → Bytes → Option ℕ
digits_ulong minus [] = none
digits_ulong minus (c ∷ cs) =
    let n = digits_value 0 (c ∷ cs) in
    if is_digit c && ltb n u32 then some (if minus then (u32 - n) % u32 else n) else none

abbrev signed_ulong : Bytes → Option ℕ
signed_ulong [] = none
signed_ulong (c ∷ cs) =
    if c == b'-'
    then digits_ulong true cs
    else if c == b'+'
    then digits_ulong false cs
    else digits_ulong false (c ∷ cs)

-- `std::stoul`, nothing where it throws.
unfoldable pub stoul : Bytes → Option ℕ
stoul s = signed_ulong (skip_space s)

abbrev or_zero : Option ℕ → ℕ
or_zero none = 0
or_zero (some n) = n

unfoldable pub content_length : Request → ℕ
content_length r =
    let v = header r (codes "content-length") in if is_empty v then 0 else or_zero (stoul v)

-- `rtsp://host:port/path` becomes `/path`.
unfoldable pub normalize_uri : Bytes → Bytes
normalize_uri uri =
    if starts_with (codes "rtsp://") uri || starts_with (codes "http://") uri
    then elim (split_char b'/' (drop 7 uri)) [ none ↦ codes "/" | some (host, path) ↦ b'/' ∷ path ]
    else uri

-- The body of the header loop on one line; a line without a colon is passed over.
unfoldable pub add_header : Bytes → List (Bytes × Bytes) → List (Bytes × Bytes)
add_header line headers = elim (split_char b':' line) [
  | none ↦ headers
  | some (key, value) ↦ set_header (to_lower (trim key)) (trim value) headers
]

-- The header loop, `text` being the buffer from `p` on and `limit` being `body_offset - 2 - p`, 0
-- when that is not positive. A round takes at least a byte of the limit, which is fuel enough.
unfoldable pub header_loop : ℕ → ℕ → Bytes → List (Bytes × Bytes) → List (Bytes × Bytes)
header_loop zero limit text headers = headers
header_loop (suc fuel) limit text headers =
    if limit == 0 then headers else elim (split_at crlf text) [
      | none ↦ headers
      | some (line, rest) ↦
          if ltb limit (length line) || is_empty line
          then headers
          else header_loop fuel (limit - (length line + 2)) rest (add_header line headers)
    ]

-- The request line's three words.
unfoldable pub request_line : Bytes → List (Bytes × Bytes) → Option Request
request_line line headers =
    let (method, behind_method) = next_word line in
    let (uri, behind_uri) = next_word behind_method in
    let (version, behind) = next_word behind_uri in
    if is_empty version
    then none
    else some (record {
      method = method;
      uri = normalize_uri uri;
      version = version;
      headers = headers;
      body = [];
    })

-- The head of the request at the front of the buffer, `body_offset` being known.
unfoldable pub parse_head : ℕ → Bytes → Option Request
parse_head body_offset buffer = elim (split_at crlf buffer) [
  | none ↦ none
  | some (line, rest) ↦
      let limit = body_offset - 2 - (length line + 2) in
      request_line line (header_loop limit limit rest [])
]

-- The loop that receives until the end of the head is in the buffer: the head, the buffer and the
-- chunks that are left.
unfoldable pub receive_head : List Bytes → Bytes → Option (Bytes × (Bytes × List Bytes))
receive_head [] buffer = elim (split_at head_end buffer) [
  | none ↦ none
  | some (head, rest) ↦ some (head, (buffer, []))
]
receive_head (c ∷ cs) buffer = elim (split_at head_end buffer) [
  | none ↦
      if is_empty c || ltb (64 * 1024) (length (buffer ++ c))
      then none
      else receive_head cs (buffer ++ c)
  | some (head, rest) ↦ some (head, (buffer, c ∷ cs))
]

-- `fill`.
unfoldable pub fill : List Bytes → ℕ → Bytes → Option (Bytes × List Bytes)
fill [] need buffer = if leb need (length buffer) then some (buffer, []) else none
fill (c ∷ cs) need buffer =
    if leb need (length buffer)
    then some (buffer, c ∷ cs)
    else if is_empty c
    then none
    else fill cs need (buffer ++ c)

-- `read` behind `read_headers`.
abbrev pub take_body : ℕ → Request → Option (Bytes × List Bytes) → Option (Request × Reader)
take_body body_offset r none = none
take_body body_offset r (some (buffer, chunks)) =
    let size = content_length r in
    some (
      record r { body = take size (drop body_offset buffer) },
      record { cancelled = false; buffer = drop (body_offset + size) buffer; chunks = chunks },
    )

abbrev pub read_body : ℕ → Bytes → List Bytes → Option Request → Option (Request × Reader)
read_body body_offset buffer chunks none = none
read_body body_offset buffer chunks (some r) =
    take_body body_offset r (fill chunks (body_offset + content_length r) buffer)

abbrev pub read_from : Option (Bytes × (Bytes × List Bytes)) → Option (Request × Reader)
read_from none = none
read_from (some (head, (buffer, chunks))) =
    read_body (length head + 4) buffer chunks (parse_head (length head + 4) buffer)

unfoldable pub read : Reader → Option (Request × Reader)
read r = if r.cancelled then none else read_from (receive_head r.chunks r.buffer)
