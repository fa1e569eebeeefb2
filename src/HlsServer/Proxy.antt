-- ===== src/HlsServer/Proxy.antt =====
-- The `/seg/` route of `HlsLocalServer::handle_client`: the range that is asked for, and what is sent
-- of the bytes that `avio_read` gives. Every send is taken to succeed.
pub mod Chunks
pub mod Ranges
use air_play_windows.Base.Int.{ℤ, pos, negsuc}
use air_play_windows.HlsServer.{response}
use air_play_windows.Base.{
  ltb, ◌==◌, if◌then◌else◌, length, drop, Bytes, codes, split_at, split_char, skip_space, is_digit,
  digits_value, decimal, ℕ, zero, suc, ◌+◌, ◌-◌, ◌/◌, ◌%◌, ◌^◌, Bool, true, false, not, ◌&&◌,
  Option, none, some, List, [], ◌∷◌, ◌++◌,
}
use air_play_windows.Hls.Master.{lower_ascii}
use air_play_windows.HlsServer.Paths.{crlf}

-- Digits of the base 16 as `%x` prints them.
unfoldable pub hex_from : ℕ → ℕ → Bytes
hex_from zero n = []
hex_from (suc fuel) n =
    let front = hex_from fuel (n / 16) in
    let digit = if ltb (n % 16) 10 then b'0' + n % 16 else b'a' + (n % 16 - 10) in
    if ltb n 16 then digit ∷ [] else front ++ (digit ∷ [])

unfoldable pub printed_hex : ℕ → Bytes
printed_hex n = hex_from (suc n) n

-- `std::stoll`, with the sign and whether it is negative; none where it throws.
abbrev pub in_range : Bool → ℕ → Option (Bool × ℕ)
in_range negative n = if ltb n (2 ^ 63) then some (negative, n) else none

abbrev pub signed : Bool → Bytes → Option (Bool × ℕ)
signed negative [] = none
signed negative (c ∷ cs) = if is_digit c then in_range negative (digits_value 0 (c ∷ cs)) else none

abbrev pub with_sign : Bytes → Option (Bool × ℕ)
with_sign [] = none
with_sign (c ∷ cs) =
    if c == b'-'
    then signed true cs
    else if c == b'+'
    then signed false cs
    else signed false (c ∷ cs)

unfoldable pub stoll : Bytes → Option (Bool × ℕ)
stoll s = with_sign (skip_space s)

-- The bounds of a range that are at least 0.
pub record ByteRange : Type 0 where
  pub start : Option ℕ
  pub end : Option ℕ

abbrev pub no_range : ByteRange
no_range = record { start = none; end = none }

abbrev pub at_least_0 : Bool × ℕ → Option ℕ
at_least_0 (negative, n) = if negative && not (n == 0) then none else some n

abbrev pub end_of : Option ℕ → Bytes → Option (Bool × ℕ) → ByteRange
end_of start [] parsed = record { start = start; end = none }
end_of start (c ∷ cs) none = record { start = start; end = none }
end_of start (c ∷ cs) (some x) = record { start = start; end = at_least_0 x }

abbrev pub from_start : Bytes → Bytes → Option (Bool × ℕ) → ByteRange
from_start [] last parsed = end_of none last (stoll last)
from_start (c ∷ cs) last none = no_range
from_start (c ∷ cs) last (some x) = end_of (at_least_0 x) last (stoll last)

abbrev pub at_dash : Option (Bytes × Bytes) → ByteRange
at_dash none = no_range
at_dash (some (first, last)) = from_start first last (stoll first)

abbrev pub in_value : Option (Bytes × Bytes) → ByteRange
in_value none = no_range
in_value (some (unit, value)) = at_dash (split_char b'-' value)

abbrev pub in_line : Option (Bytes × Bytes) → ByteRange
in_line none = no_range
in_line (some (line, behind)) = in_value (split_char b'=' line)

abbrev pub from_header : Bytes → Option (Bytes × Bytes) → ByteRange
from_header headers none = no_range
from_header headers (some (before, behind)) =
    in_line (split_at crlf (drop (length before + 2) headers))

-- The first header line whose name, in any case, begins with `range:`.
unfoldable pub parse_range : Bytes → ByteRange
parse_range headers = from_header headers (split_at (crlf ++ codes "range:") (lower_ascii headers))

-- A sum in `int64_t`, which wraps around where it leaves the type.
abbrev pub int64 : ℕ → ℤ
int64 n = let low = n % 2 ^ 64 in if ltb low (2 ^ 63) then pos low else negsuc (2 ^ 64 - 1 - low)

-- The options `offset` and `end_offset` of `avio_open2`.
abbrev pub bound_after : Option ℕ → Option ℤ
bound_after none = none
bound_after (some e) = some (int64 (e + 1))

abbrev of_start : Option ℕ → Option ℕ → Option (ℕ × Option ℤ)
of_start none e = none
of_start (some s) e = some (s, bound_after e)

unfoldable pub avio_options : ByteRange → Option (ℕ × Option ℤ)
avio_options range = of_start range.start range.end

-- The last byte that a response names, where the sum in `int64_t` is not negative; `size` is 0 where
-- `avio_size` gives no size.
abbrev effective_end : ℕ → Option ℕ → ℕ → Option ℕ
effective_end start (some e) size = some e
effective_end start none size =
    let last = start + size - 1 in
    if size == 0
    then none
    else (if ltb (last % 2 ^ 64) (2 ^ 63) then some (last % 2 ^ 64) else none)

abbrev content_range : ℕ → Option ℕ → Bytes
content_range start none = []
content_range start (some e) =
    codes "Content-Range: bytes " ++ decimal start ++ codes "-" ++ decimal e ++ codes "/*" ++ crlf

abbrev status_lines : ByteRange → ℕ → Bytes
status_lines range size = elim range.start [
  | none ↦
      codes "HTTP/1.1 200 OK"
      ++ crlf
      ++ codes "Content-Type: application/octet-stream"
      ++ crlf
      ++ codes "Accept-Ranges: bytes"
      ++ crlf
  | some start ↦
      codes "HTTP/1.1 206 Partial Content"
      ++ crlf
      ++ codes "Content-Type: application/octet-stream"
      ++ crlf
      ++ content_range start (effective_end start range.end size)
      ++ codes "Accept-Ranges: bytes"
      ++ crlf
]

unfoldable pub proxy_head : ByteRange → ℕ → Bytes
proxy_head range size =
    status_lines range size
    ++ (if size == 0
        then codes "Transfer-Encoding: chunked" ++ crlf
        else codes "Content-Length: " ++ decimal size ++ crlf)
    ++ codes "Connection: close"
    ++ crlf
    ++ crlf

unfoldable pub joined : List Bytes → Bytes
joined [] = []
joined (b ∷ bs) = b ++ joined bs

-- The chunks of what was read, each of at least one byte, and the last chunk.
unfoldable pub chunked : List Bytes → Bytes
chunked [] = codes "0" ++ (crlf ++ crlf)
chunked (b ∷ bs) = printed_hex (length b) ++ (crlf ++ (b ++ (crlf ++ chunked bs)))

unfoldable pub proxy_body : ℕ → List Bytes → Bytes
proxy_body size reads = if size == 0 then chunked reads else joined reads

-- What the player gets: `opened` is the size and the reads of the connection, or that there is none.
unfoldable pub proxy_response : ByteRange → Option (ℕ × List Bytes) → Bytes
proxy_response range none = response 502 (codes "Bad Gateway") [] (codes "text/plain")
proxy_response range (some (size, reads)) = proxy_head range size ++ proxy_body size reads
