-- ===== src/Daap/Tests.antt =====
-- A track of three entries.
use air_play_windows.Base.{All, codes, equal, ◌≡◌, refl, List, [], ◌∷◌, arith}
use air_play_windows.Daap.{Entry, DaapMetadata, has_field, parse_daap_mlit}
use air_play_windows.Daap.Entries.{encode_all}
use air_play_windows.Daap.Fields.{IsLeaf, fields, mlit, parse_daap_mlit-encode}

abbrev track : List Entry
track =
    record { tag = codes "minm"; data_bytes = codes "So What" }
    ∷ record { tag = codes "asar"; data_bytes = codes "Miles" }
    ∷ record { tag = codes "astm"; data_bytes = 0 ∷ 8 ∷ 94 ∷ 64 ∷ [] }
    ∷ []

abbrev told : DaapMetadata
told = record { title = codes "So What"; artist = codes "Miles"; album = []; duration_ms = 548416 }

fields-track : fields track ≡ told
unfolding equal
fields-track = refl

leaves : All IsLeaf track
unfolding equal
leaves = (refl, (refl, (refl, tt)))

parse_daap_mlit-encode_example :
    parse_daap_mlit (encode_all (mlit track ∷ [])) ≡ (has_field (fields track), fields track)
parse_daap_mlit-encode_example =
    parse_daap_mlit-encode track
      ((refl, omega arith), ((refl, omega arith), ((refl, omega arith), tt))) leaves (omega arith)
