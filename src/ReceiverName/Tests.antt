-- ===== src/ReceiverName/Tests.antt =====
-- Runs of the normalization, and its theorems at concrete names.
use air_play_windows.Base.{Bytes, ℕ, ◌≡◌, refl, ◌⊎◌, List, [], ◌∷◌, ◌++◌, arith}
use air_play_windows.ReceiverName.{
  strip_front, strip_back, lead, continue_with, is_valid, normalize_receiver_name,
}
use air_play_windows.ReceiverName.Accepted.{
  IsName, normalize_receiver_name_complete, normalize_receiver_name_sound,
}
use air_play_windows.ReceiverName.Strip.{spaces}
use air_play_windows.ReceiverName.Utf8.{encode, encode_all}

-- "Caf\xc3\xa9", with the code point of the last letter.
abbrev cafe : Bytes
cafe = 0x43 ∷ 0x61 ∷ 0x66 ∷ 0xc3 ∷ 0xa9 ∷ []

abbrev cafe_points : List ℕ
cafe_points = 0x43 ∷ 0x61 ∷ 0x66 ∷ 0xe9 ∷ []

strips : normalize_receiver_name (0x20 ∷ 0x43 ∷ 0x20 ∷ 0x44 ∷ 0x20 ∷ []) ≡ 0x43 ∷ 0x20 ∷ 0x44 ∷ []
unfolding normalize_receiver_name strip_front strip_back is_valid
strips = refl

-- An overlong form, a surrogate and a name with a dot.
rejects :
    (normalize_receiver_name (0xc0 ∷ 0xaf ∷ []) ≡ [])
    × (normalize_receiver_name (0xed ∷ 0xa0 ∷ 0x80 ∷ []) ≡ [])
    × (normalize_receiver_name (0x43 ∷ b'.' ∷ []) ≡ [])
unfolding normalize_receiver_name strip_front strip_back is_valid lead continue_with
rejects = (refl, refl, refl)

cafe-IsName : IsName cafe
cafe-IsName = record {
  points = cafe_points;
  allowed = ground arith;
  encoded = unfold encode_all encode in refl;
  short = omega arith;
  starts = ground arith;
  ends = ground arith;
}

normalize_receiver_name_complete_example :
    normalize_receiver_name (spaces 2 ++ (cafe ++ spaces 1)) ≡ cafe
normalize_receiver_name_complete_example = normalize_receiver_name_complete cafe 2 1 cafe-IsName

normalize_receiver_name_sound_example :
    (normalize_receiver_name cafe ≡ [])
    ⊎ (IsName (normalize_receiver_name cafe)
        × ((before : ℕ) × (behind : ℕ) × (cafe
              ≡ spaces before ++ (normalize_receiver_name cafe ++ spaces behind))))
normalize_receiver_name_sound_example = normalize_receiver_name_sound cafe (omega arith)
