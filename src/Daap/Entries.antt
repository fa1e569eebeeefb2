-- ===== src/Daap/Entries.antt =====
-- Entries written one after another are read back.
use air_play_windows.Base.{
  Option-cases, length, drop, All, length-append, length-drop, take-append, drop-append, drop-drop,
  Bytes, be32_bytes, be32-be32_bytes, add32, ℕ, zero, suc, ◌+◌, ◌-◌, ◌^◌, ◌≤◌, ◌<◌, ◌≡◌, refl, sym,
  ap, ◌∙◌, inl, inr, some, List, [], ◌∷◌, ◌++◌, append_assoc, arith,
}
use air_play_windows.Daap.{Entry, parse_one, entries}

-- A tag of four bytes and a payload whose length and header fit into 32 bits.
abbrev pub IsEntry : Entry → Type 0
IsEntry e = (length e.tag ≡ 4) × (length e.data_bytes < 2 ^ 32 - 8)

abbrev pub encode : Entry → Bytes
encode e = e.tag ++ (be32_bytes (length e.data_bytes) ++ e.data_bytes)

abbrev pub encode_all : List Entry → Bytes
encode_all [] = []
encode_all (e ∷ es) = encode e ++ encode_all es

parse_one-append :
    (tag payload rest : Bytes)
    → length tag ≡ 4
    → length payload < 2 ^ 32 - 8
    → parse_one (tag ++ (be32_bytes (length payload) ++ (payload ++ rest)))
      ≡ some (record { tag = tag; data_bytes = payload }, length payload)
unfolding parse_one
parse_one-append (t0 ∷ t1 ∷ t2 ∷ t3 ∷ []) payload rest four small =
    ground (
      arith,
      be32-be32_bytes (length payload),
      take-append payload rest,
      length-append payload rest,
    )
parse_one-append [] payload rest four small = absurd (omega arith)
parse_one-append (t0 ∷ []) payload rest four small = absurd (omega arith)
parse_one-append (t0 ∷ t1 ∷ []) payload rest four small = absurd (omega arith)
parse_one-append (t0 ∷ t1 ∷ t2 ∷ []) payload rest four small = absurd (omega arith)
parse_one-append (t0 ∷ t1 ∷ t2 ∷ t3 ∷ t4 ∷ tag) payload rest four small = absurd (omega arith)

drop-entry :
    (tag payload rest : Bytes)
    → length tag ≡ 4
    → length payload < 2 ^ 32 - 8
    → drop (add32 8 (length payload)) (tag ++ (be32_bytes (length payload) ++ (payload ++ rest)))
      ≡ rest
drop-entry (t0 ∷ t1 ∷ t2 ∷ t3 ∷ []) payload rest four small =
    let whole : Bytes = t0 ∷ t1 ∷ t2 ∷ t3 ∷ be32_bytes (length payload) ++ (payload ++ rest) in
    let step : add32 8 (length payload) ≡ 8 + length payload = omega arith in
    ap (λ n. drop n whole) step
    ∙ sym (drop-drop 8 (length payload) whole)
    ∙ drop-append payload rest
drop-entry [] payload rest four small = absurd (omega arith)
drop-entry (t0 ∷ []) payload rest four small = absurd (omega arith)
drop-entry (t0 ∷ t1 ∷ []) payload rest four small = absurd (omega arith)
drop-entry (t0 ∷ t1 ∷ t2 ∷ []) payload rest four small = absurd (omega arith)
drop-entry (t0 ∷ t1 ∷ t2 ∷ t3 ∷ t4 ∷ tag) payload rest four small = absurd (omega arith)

entries_done : (fuel : ℕ) → entries fuel [] ≡ []
unfolding entries parse_one
entries_done zero = refl
entries_done (suc fuel) = refl

entries_next :
    (fuel : ℕ) (tag payload rest : Bytes)
    → length tag ≡ 4
    → length payload < 2 ^ 32 - 8
    → entries (suc fuel) (tag ++ (be32_bytes (length payload) ++ (payload ++ rest)))
      ≡ record { tag = tag; data_bytes = payload } ∷ entries fuel rest
unfolding entries
entries_next fuel tag payload rest four small =
    rw (
      parse_one-append tag payload rest four small,
      entries,
      drop-entry tag payload rest four small,
    )

encode_again :
    (e : Entry) (rest : Bytes)
    → encode e ++ rest ≡ e.tag ++ (be32_bytes (length e.data_bytes) ++ (e.data_bytes ++ rest))
encode_again e rest = append_assoc e.tag (be32_bytes (length e.data_bytes) ++ e.data_bytes) rest

pub entries-encode_all :
    (fuel : ℕ) (es : List Entry)
    → All IsEntry es
    → length es ≤ fuel
    → entries fuel (encode_all es) ≡ es
entries-encode_all fuel [] h le = entries_done fuel
entries-encode_all zero (e ∷ es) h le = absurd (omega arith)
entries-encode_all (suc fuel) (e ∷ es) ((four, small), h) le =
    ap (entries (suc fuel)) (encode_again e (encode_all es))
    ∙ entries_next fuel e.tag e.data_bytes (encode_all es) four small
    ∙ ap (◌∷◌ e) (entries-encode_all fuel es h (omega arith))

-- There are no more entries than bytes, so the walk's fuel is enough.
pub length-encode_all : (es : List Entry) → All IsEntry es → length es ≤ length (encode_all es)
length-encode_all [] h = omega arith
length-encode_all (e ∷ es) ((four, small), h) = omega (
  arith,
  four,
  length-encode_all es h,
  length-append (encode e) (encode_all es),
  length-append e.tag (be32_bytes (length e.data_bytes) ++ e.data_bytes),
)

parse_one_bound :
    (p : Bytes) (e : Entry) (size : ℕ) → parse_one p ≡ some (e, size) → 8 + size ≤ length p
unfolding parse_one
parse_one_bound [] e size h = ground arith
parse_one_bound (t0 ∷ []) e size h = ground arith
parse_one_bound (t0 ∷ t1 ∷ []) e size h = ground arith
parse_one_bound (t0 ∷ t1 ∷ t2 ∷ []) e size h = ground arith
parse_one_bound (t0 ∷ t1 ∷ t2 ∷ t3 ∷ []) e size h = ground arith
parse_one_bound (t0 ∷ t1 ∷ t2 ∷ t3 ∷ b0 ∷ []) e size h = ground arith
parse_one_bound (t0 ∷ t1 ∷ t2 ∷ t3 ∷ b0 ∷ b1 ∷ []) e size h = ground arith
parse_one_bound (t0 ∷ t1 ∷ t2 ∷ t3 ∷ b0 ∷ b1 ∷ b2 ∷ []) e size h = ground arith
parse_one_bound (t0 ∷ t1 ∷ t2 ∷ t3 ∷ b0 ∷ b1 ∷ b2 ∷ b3 ∷ payload) e size h = ground arith

-- The fuel does not matter to the walk once there is a round for each byte.
pub entries_enough :
    (fuel more : ℕ) (p : Bytes)
    → length p < 2 ^ 32
    → length p ≤ fuel
    → length p ≤ more
    → entries fuel p ≡ entries more p
unfolding entries
entries_enough zero zero p small le le' = refl
entries_enough zero (suc more) [] small le le' = sym (entries_done (suc more))
entries_enough zero (suc more) (c ∷ cs) small le le' = absurd (omega arith)
entries_enough (suc fuel) zero [] small le le' = entries_done (suc fuel)
entries_enough (suc fuel) zero (c ∷ cs) small le le' = absurd (omega arith)
entries_enough (suc fuel) (suc more) p small le le' = elim (Option-cases (parse_one p)) [
  | inl failed ↦ ground (arith, failed)
  | inr ((e, size), there) ↦
      let bound = parse_one_bound p e size there in
      let rest = drop (add32 8 size) p in
      let shorter : length rest + 8 ≤ length p =
        omega (arith, bound, length-drop (add32 8 size) p) in
      ground (
        arith,
        there,
        entries_enough fuel more rest (omega (arith, shorter)) (omega (arith, shorter))
            (omega (arith, shorter)),
      )
]
