-- ===== src/ReceiverName.antt =====
-- src/airplay/receiver_name.h: `normalize_receiver_name`. A string is a list of bytes, and the empty
-- string stands for an invalid name, as in the source.
pub mod Utf8
pub mod Strip
pub mod Accepted
mod Tests
use air_play_windows.Base.{
  ltb, leb, ◌==◌, if◌then◌else◌, length, Bytes, is_empty, ℕ, zero, suc, ◌+◌, ◌*◌, ◌/◌, ◌%◌, Bool,
  true, false, not, ◌&&◌, ◌||◌, Option, none, some, [], ◌∷◌,
}

-- `find_first_not_of(' ')` and `find_last_not_of(' ')`: what lies between them, ends included.
unfoldable pub strip_front : Bytes → Bytes
strip_front [] = []
strip_front (c ∷ cs) = if c == b' ' then strip_front cs else c ∷ cs

unfoldable pub strip_back : Bytes → Bytes
strip_back [] = []
strip_back (c ∷ cs) =
    let rest = strip_back cs in if is_empty rest && c == b' ' then [] else c ∷ rest

-- `c < 0x20 || c == 0x7f || c == '.' || c == '\\'`
abbrev pub is_barred : ℕ → Bool
is_barred c = ltb c 0x20 || c == 0x7f || c == b'.' || c == b'\\'

-- The number of continuation bytes, the first bits and the least code point of a lead byte.
pub record Lead : Type 0 where
  pub count : ℕ
  pub value : ℕ
  pub minimum : ℕ

-- `c & 0x1f`, `c & 0x0f` and `c & 0x07`, on bytes where the bits above are fixed.
unfoldable pub lead : ℕ → Option Lead
lead c =
    if leb 0xc2 c && leb c 0xdf
    then some (record { count = 1; value = c % 32; minimum = 0x80 })
    else if leb 0xe0 c && leb c 0xef
    then some (record { count = 2; value = c % 16; minimum = 0x800 })
    else if leb 0xf0 c && leb c 0xf4
    then some (record { count = 3; value = c % 8; minimum = 0x1_0000 })
    else none

-- The loop over the continuation bytes: `(next & 0xc0) != 0x80` fails, and
-- `(value << 6) | (next & 0x3f)` adds six bits.
unfoldable pub continue_with : ℕ → ℕ → Bytes → Option (ℕ × Bytes)
continue_with zero value rest = some (value, rest)
continue_with (suc k) value [] = none
continue_with (suc k) value (next ∷ rest) =
    if next / 64 == 2 then continue_with k (value * 64 + next % 64) rest else none

abbrev pub is_scalar : ℕ → ℕ → Bool
is_scalar minimum value =
    not (ltb value minimum || ltb 0x10_ffff value || (leb 0xd800 value && leb value 0xdfff))

-- The loop over the name, true where the source goes through to its end. Each round takes at least
-- one byte.
unfoldable pub is_valid : ℕ → Bytes → Bool
is_valid zero name = false
is_valid (suc fuel) [] = true
is_valid (suc fuel) (c ∷ rest) =
    let plain = is_valid fuel rest in
    if ltb c 0x80 then (if is_barred c then false else plain) else elim (lead c) [
      | none ↦ false
      | some l ↦ elim (continue_with l.count l.value rest) [
        | none ↦ false
        | some (value, later) ↦ if is_scalar l.minimum value then is_valid fuel later else false
      ]
    ]

unfoldable pub normalize_receiver_name : Bytes → Bytes
normalize_receiver_name input =
    let name = strip_back (strip_front input) in
    if ltb 50 (length name) then [] else if is_valid (suc (length name)) name then name else []
