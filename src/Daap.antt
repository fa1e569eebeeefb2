-- ===== src/Daap.antt =====
-- src/airplay/daap.cpp and daap.h: the DMAP entries that carry a track's title, artist, album and
-- duration.
pub mod Entries
pub mod Fields
mod Tests
use air_play_windows.Base.{
  ltb, ◌==◌, if◌then◌else◌, length, take, drop, Bytes, codes, equal, is_empty, be32, add32, ℕ, zero,
  suc, Bool, false, not, ◌&&◌, ◌||◌, Option, none, some, List, [], ◌∷◌,
}

pub record Entry : Type 0 where
  pub tag : Bytes
  pub data_bytes : Bytes

pub record DaapMetadata : Type 0 where
  pub title : Bytes
  pub artist : Bytes
  pub album : Bytes
  pub duration_ms : ℕ

abbrev pub no_metadata : DaapMetadata
no_metadata = record { title = []; artist = []; album = []; duration_ms = 0 }

-- `parse_one`: the entry, and the payload's length as its header gives it.
unfoldable pub parse_one : Bytes → Option (Entry × ℕ)
parse_one (t0 ∷ t1 ∷ t2 ∷ t3 ∷ b0 ∷ b1 ∷ b2 ∷ b3 ∷ payload) =
    let size = be32 b0 b1 b2 b3 in
    if ltb (length payload) size
    then none
    else some (record { tag = t0 ∷ t1 ∷ t2 ∷ t3 ∷ []; data_bytes = take size payload }, size)
parse_one p = none

-- The loop of `walk_children` as far as it reads entries, on the bytes from `pos` on. The step
-- `8 + e.length` is 32 bits wide. A round takes at least eight bytes of a body shorter than 2 ^ 32,
-- so as many rounds as bytes are enough.
unfoldable pub entries : ℕ → Bytes → List Entry
entries zero p = []
entries (suc fuel) p = elim (parse_one p) [
  | none ↦ []
  | some (e, size) ↦ e ∷ entries fuel (drop (add32 8 size) p)
]

abbrev pub be32_of : Bytes → ℕ
be32_of (b0 ∷ b1 ∷ b2 ∷ b3 ∷ []) = be32 b0 b1 b2 b3
be32_of p = 0

-- What the loop's body does with an entry, `walk` being the walk through a container's payload.
unfoldable pub visit : (Bytes → DaapMetadata → DaapMetadata) → Entry → DaapMetadata → DaapMetadata
visit walk e out =
    if equal e.tag (codes "minm")
    then record out { title = e.data_bytes }
    else if equal e.tag (codes "asar")
    then record out { artist = e.data_bytes }
    else if equal e.tag (codes "asal")
    then record out { album = e.data_bytes }
    else if equal e.tag (codes "astm") && length e.data_bytes == 4
    then record out { duration_ms = be32_of e.data_bytes }
    else if equal e.tag (codes "mlit") || (equal e.tag (codes "mcon") || equal e.tag (codes "mlcl"))
    then walk e.data_bytes out
    else out

unfoldable pub visit_all :
    (Bytes → DaapMetadata → DaapMetadata) → List Entry → DaapMetadata → DaapMetadata
visit_all walk [] out = out
visit_all walk (e ∷ es) out = visit_all walk es (visit walk e out)

-- `walk_children` with `levels` being `5 - depth`.
unfoldable pub walk_children : ℕ → Bytes → DaapMetadata → DaapMetadata
walk_children zero p out = out
walk_children (suc levels) p out = visit_all (walk_children levels) (entries (length p) p) out

abbrev pub has_field : DaapMetadata → Bool
has_field out =
    not (is_empty out.title && is_empty out.artist && is_empty out.album && out.duration_ms == 0)

-- The result and `out`. A null body is the empty one.
unfoldable pub parse_daap_mlit : Bytes → Bool × DaapMetadata
parse_daap_mlit body =
    let out = walk_children 5 body no_metadata in
    if ltb (length body) 8 then (false, no_metadata) else (has_field out, out)
