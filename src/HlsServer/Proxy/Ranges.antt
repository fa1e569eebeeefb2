-- ===== src/HlsServer/Proxy/Ranges.antt =====
-- The range that a player asks for is the one that the server of the segment is asked for.
use air_play_windows.Base.Int.{ℤ, pos}
use air_play_windows.HlsServer.Request.{split_at-crlf}
use air_play_windows.HlsServer.Urls.{split_at-lacking}
use air_play_windows.Base.{
  ◌==◌, length, drop, drop-append, drop-drop, Bytes, codes, strip_prefix, split_at, split_char,
  is_space, skip_space, to_lower_char, lacks, split_char-append, is_digit, digits_value, decimal,
  digits_value-decimal, decimal_digit, decimal-lacks, ℕ, suc, ◌+◌, ◌^◌, ◌<◌, ◌≡◌, refl, sym, ap,
  ◌∙◌, true, false, Option, none, some, [], ◌∷◌, ◌++◌, append-nil, append_assoc, arith,
}
use air_play_windows.HlsServer.Paths.{crlf}
use air_play_windows.Hls.Master.{lower_ascii}
use air_play_windows.HlsServer.Proxy.{
  in_range, stoll, end_of, from_start, at_dash, in_value, in_line, from_header, parse_range,
  bound_after, avio_options,
}

abbrev key : Bytes
key = crlf ++ codes "range:"

lower_ascii-append : (s t : Bytes) → lower_ascii (s ++ t) ≡ lower_ascii s ++ lower_ascii t
unfolding lower_ascii
lower_ascii-append [] t = refl
lower_ascii-append (c ∷ s) t = ap (◌∷◌ (to_lower_char c)) (lower_ascii-append s t)

length-lower_ascii : (s : Bytes) → length (lower_ascii s) ≡ length s
unfolding lower_ascii
length-lower_ascii [] = refl
length-lower_ascii (c ∷ s) = ap suc (length-lower_ascii s)

stoll-digit :
    (c : ℕ) (cs : Bytes)
    → is_digit c ≡ true
    → stoll (c ∷ cs) ≡ in_range false (digits_value 0 (c ∷ cs))
unfolding stoll skip_space
stoll-digit c cs digit =
    let visible : is_space c ≡ false = ground (arith, digit) in
    let no_minus : (c == b'-') ≡ false = ground (arith, digit) in
    let no_plus : (c == b'+') ≡ false = ground (arith, digit) in
    rw (visible, no_minus, no_plus, digit)

stoll-decimal : (n : ℕ) → n < 2 ^ 63 → stoll (decimal n) ≡ some (false, n)
stoll-decimal n small =
    let (c, cs, is, digit) = decimal_digit n in
    let value : digits_value 0 (c ∷ cs) ≡ n =
      ap (digits_value 0) (sym is ∙ sym (append-nil (decimal n)))
      ∙ digits_value-decimal n []
      ∙ (unfold digits_value in refl) in
    ap stoll is ∙ stoll-digit c cs digit ∙ ap (in_range false) value ∙ ground (arith, small)

-- The end of a range, where there is one.
abbrev pub last_of : Option ℕ → Bytes
last_of none = []
last_of (some e) = decimal e

abbrev pub Small : Option ℕ → Type 0
Small none = Unit
Small (some e) = e < 2 ^ 63

end_of-some :
    (start : Option ℕ) (text : Bytes) (e c : ℕ) (cs : Bytes)
    → text ≡ c ∷ cs
    → end_of start text (some (false, e)) ≡ record { start = start; end = some e }
end_of-some start [] e c cs h = absurd cc
end_of-some start (b ∷ bs) e c cs h = refl

end_of-last_of :
    (start e : Option ℕ)
    → Small e
    → end_of start (last_of e) (stoll (last_of e)) ≡ record { start = start; end = e }
end_of-last_of start none small = refl
end_of-last_of start (some e) small =
    let (c, cs, is, digit) = decimal_digit e in
    ap (end_of start (decimal e)) (stoll-decimal e small) ∙ end_of-some start (decimal e) e c cs is

from_start-some :
    (first last : Bytes) (s c : ℕ) (cs : Bytes)
    → first ≡ c ∷ cs
    → from_start first last (some (false, s)) ≡ end_of (some s) last (stoll last)
from_start-some [] last s c cs h = absurd cc
from_start-some (b ∷ bs) last s c cs h = refl

at_dash-range :
    (s : ℕ) (e : Option ℕ)
    → s < 2 ^ 63
    → Small e
    → at_dash (split_char b'-' (decimal s ++ (b'-' ∷ last_of e)))
      ≡ record { start = some s; end = e }
at_dash-range s e small small_e =
    let (c, cs, is, digit) = decimal_digit s in
    ap at_dash (split_char-append b'-' (decimal s) (last_of e) (decimal-lacks b'-' s refl))
    ∙ ap (from_start (decimal s) (last_of e)) (stoll-decimal s small)
    ∙ from_start-some (decimal s) (last_of e) s c cs is
    ∙ end_of-last_of (some s) e small_e

-- A header line with a range, whose name and unit are given.
abbrev pub range_line : Bytes → Bytes → ℕ → Option ℕ → Bytes
range_line name unit s e = name ++ (unit ++ (b'=' ∷ (decimal s ++ (b'-' ∷ last_of e))))

-- Behind the name of the header.
abbrev rest_of : Bytes → ℕ → Option ℕ → Bytes → Bytes
rest_of unit s e behind = (unit ++ (b'=' ∷ (decimal s ++ (b'-' ∷ last_of e)))) ++ (crlf ++ behind)

range_found :
    (front name unit behind : Bytes) (s : ℕ) (e : Option ℕ)
    → split_at key (lower_ascii front) ≡ none
    → lower_ascii name ≡ codes "range:"
    → split_at key (lower_ascii (front ++ (crlf ++ (range_line name unit s e ++ (crlf ++ behind)))))
      ≡ some (lower_ascii front, lower_ascii (rest_of unit s e behind))
unfolding lacks strip_prefix
range_found front name unit behind s e first named =
    let tail = range_line name unit s e ++ (crlf ++ behind) in
    let rest = rest_of unit s e behind in
    let lower_tail : lower_ascii tail ≡ codes "range:" ++ lower_ascii rest =
      ap lower_ascii
        (append_assoc name (unit ++ (b'=' ∷ (decimal s ++ (b'-' ∷ last_of e)))) (crlf ++ behind))
      ∙ lower_ascii-append name rest
      ∙ ap (λ n. n ++ lower_ascii rest) named in
    ap (split_at key) (
      lower_ascii-append front (crlf ++ tail)
      ∙ ap (λ t. lower_ascii front ++ t) (lower_ascii-append crlf tail)
      ∙ ap (λ t. lower_ascii front ++ (lower_ascii crlf ++ t)) lower_tail)
    ∙ (unfold lower_ascii in
        split_at-lacking 13 (10 ∷ codes "range:") (lower_ascii front) (lower_ascii rest) refl first
          refl)

behind_front :
    (front tail : Bytes) → drop (length (lower_ascii front) + 2) (front ++ (crlf ++ tail)) ≡ tail
behind_front front tail =
    ap (λ n. drop (n + 2) (front ++ (crlf ++ tail))) (length-lower_ascii front)
    ∙ sym (drop-drop (length front) 2 (front ++ (crlf ++ tail)))
    ∙ ap (drop 2) (drop-append front (crlf ++ tail))

in_line-range :
    (name unit behind : Bytes) (s : ℕ) (e : Option ℕ)
    → lacks b'=' (name ++ unit) ≡ true
    → lacks 13 (range_line name unit s e) ≡ true
    → s < 2 ^ 63
    → Small e
    → in_line (split_at crlf (range_line name unit s e ++ (crlf ++ behind)))
      ≡ record { start = some s; end = e }
in_line-range name unit behind s e no_equals one_line small small_e =
    let value = decimal s ++ (b'-' ∷ last_of e) in
    ap in_line (split_at-crlf (range_line name unit s e) behind one_line)
    ∙ ap (λ l. in_value (split_char b'=' l)) (sym (append_assoc name unit (b'=' ∷ value)))
    ∙ ap in_value (split_char-append b'=' (name ++ unit) value no_equals)
    ∙ at_dash-range s e small small_e

-- One past the end of a range, where that is an `int64_t`.
abbrev pub next_of : Option ℕ → Option ℤ
next_of none = none
next_of (some e) = some (pos (e + 1))

abbrev pub HasNext : Option ℕ → Type 0
HasNext none = Unit
HasNext (some e) = e + 1 < 2 ^ 63

HasNext-Small : (e : Option ℕ) → HasNext e → Small e
HasNext-Small none next = tt
HasNext-Small (some e) next = omega (arith, next)

bound_after-next_of : (e : Option ℕ) → HasNext e → bound_after e ≡ next_of e
bound_after-next_of none next = refl
bound_after-next_of (some e) next = ground (arith, next)

-- The first header line whose name is `range:`, in any case, gives its start, and its end if it has
-- one, as `offset` and, one further, `end_offset`; the unit has no `=`, the start is below 2 ^ 63,
-- and so is the number that follows the end.
pub avio_options-parse_range :
    (front name unit behind : Bytes) (s : ℕ) (e : Option ℕ)
    → split_at key (lower_ascii front) ≡ none
    → lower_ascii name ≡ codes "range:"
    → lacks b'=' (name ++ unit) ≡ true
    → lacks 13 (range_line name unit s e) ≡ true
    → s < 2 ^ 63
    → HasNext e
    → avio_options (parse_range (front ++ (crlf ++ (range_line name unit s e ++ (crlf ++ behind)))))
      ≡ some (s, next_of e)
unfolding avio_options parse_range
avio_options-parse_range front name unit behind s e first named no_equals one_line small next =
    let tail = range_line name unit s e ++ (crlf ++ behind) in
    let headers = front ++ (crlf ++ tail) in
    ap (λ o. avio_options (from_header headers o))
      (range_found front name unit behind s e first named)
    ∙ ap (λ t. avio_options (in_line (split_at crlf t))) (behind_front front tail)
    ∙ ap avio_options
        (in_line-range name unit behind s e no_equals one_line small (HasNext-Small e next))
    ∙ ap (λ o. some (s, o)) (bound_after-next_of e next)
