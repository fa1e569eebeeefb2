-- ===== src/NtpClock/Samples.antt =====
-- Which sample a conversion rests on, and what every sample satisfies.
use air_play_windows.Base.{
  if◌then◌else◌, Bool-cases, length, get_elem?, set, All, length-set, get_elem?-set_self, u32, ℕ,
  zero, suc, ◌%◌, ◌<◌, ◌≡◌, refl, ◌∙◌, ◌⊎◌, inl, inr, Bool, true, false, ◌||◌, Option, none, some,
  List, [], ◌∷◌, arith,
}
use air_play_windows.Base.Int.{ℤ, pos, negsuc, ◌+ℤ◌, ◌-ℤ◌, ◌≤ℤ◌, ltb_ℤ, quot}
use air_play_windows.NtpClock.{
  delta_ns, Sample, Clock, is_refused, sample_of, observe, is_usable, best_from, time_from,
  local_time,
}

-- A sample from the thirty seconds before `now`.
abbrev pub IsUsable : ℤ → Sample → Type 0
IsUsable now s =
    (s.valid ≡ true) × (s.observed ≤ℤ now) × ((now -ℤ s.observed) ≤ℤ pos 30_000_000_000)

usable→IsUsable : (now : ℤ) (s : Sample) → is_usable now s ≡ true → IsUsable now s
usable→IsUsable now s h = (ground arith, ground arith, ground arith)

IsUsable→usable : (now : ℤ) (s : Sample) → IsUsable now s → is_usable now s ≡ true
IsUsable→usable now s h = ground arith

-- `s` is one of the list.
abbrev pub OneOf : Sample → List Sample → Type 0
OneOf s [] = ⊥
OneOf s (x ∷ xs) = (s ≡ x) ⊎ OneOf s xs

-- No usable sample of the list has a smaller round trip than `b`.
abbrev pub LeastRtt : Sample → ℤ → List Sample → Type 0
LeastRtt b now ss = All (λ x. (¬ IsUsable now x) ⊎ (b.rtt ≤ℤ x.rtt)) ss

lt_ℤ-le : (a b : ℤ) → ltb_ℤ a b ≡ true → a ≤ℤ b
lt_ℤ-le a b h = ground arith

ge_ℤ-le : (a b : ℤ) → ltb_ℤ a b ≡ false → b ≤ℤ a
ge_ℤ-le a b h = ground arith

clash : {b : Bool} → b ≡ true → b ≡ false → ⊥
clash h k = cc

skip :
    {x b : Sample} (ss : List Sample) (s : Sample)
    → (x ≡ b) ⊎ OneOf x ss
    → (x ≡ b) ⊎ OneOf x (s ∷ ss)
skip ss s (inl e) = inl e
skip ss s (inr m) = inr (inr m)

-- The loop started with a usable sample ends with one that is no worse than it or any later one.
record Better (b : Sample) (now : ℤ) (ss : List Sample) (r : Option Sample) : Type 0 where
  found : Sample
  is_found : r ≡ some found
  usable : IsUsable now found
  no_worse : found.rtt ≤ℤ b.rtt
  least : LeastRtt found now ss
  from : (found ≡ b) ⊎ OneOf found ss

best_from-some :
    (b : Sample) (now : ℤ) (ss : List Sample)
    → IsUsable now b
    → Better b now ss (best_from (some b) now ss)
unfolding best_from
best_from-some b now [] h = record {
  found = b;
  is_found = refl;
  usable = h;
  no_worse = omega arith;
  least = tt;
  from = inl refl;
}
best_from-some b now (s ∷ ss) h = elim (Bool-cases (is_usable now s)) [
  | inl used ↦ elim (Bool-cases (ltb_ℤ s.rtt b.rtt)) [
    | inl less ↦
        let r = best_from-some s now ss (usable→IsUsable now s used) in
        rw (used, less)
          (record {
            found = r.found;
            is_found = r.is_found;
            usable = r.usable;
            no_worse = omega (arith, r.no_worse, lt_ℤ-le s.rtt b.rtt less);
            least = (inr r.no_worse, r.least);
            from = inr r.from;
          })
    | inr more ↦
        let r = best_from-some b now ss h in
        rw (used, more)
          (record {
            found = r.found;
            is_found = r.is_found;
            usable = r.usable;
            no_worse = r.no_worse;
            least = (inr (omega (arith, r.no_worse, ge_ℤ-le s.rtt b.rtt more)), r.least);
            from = skip ss s r.from;
          })
  ]
  | inr unused ↦
      let r = best_from-some b now ss h in
      rw unused (record {
        found = r.found;
        is_found = r.is_found;
        usable = r.usable;
        no_worse = r.no_worse;
        least = (inl (λ u. clash (IsUsable→usable now s u) unused), r.least);
        from = skip ss s r.from;
      })
]

-- The sample that `local_time` goes by: usable, and of the least round trip among the usable ones.
pub record IsBest (b : Sample) (now : ℤ) (ss : List Sample) : Type 0 where
  pub member : OneOf b ss
  pub usable : IsUsable now b
  pub least : LeastRtt b now ss

abbrev pub Chosen : ℤ → List Sample → Option Sample → Type 0
Chosen now ss none = All (λ x. ¬ IsUsable now x) ss
Chosen now ss (some b) = IsBest b now ss

Chosen-cons :
    (now : ℤ) (s : Sample) (ss : List Sample)
    → is_usable now s ≡ false
    → (r : Option Sample) → Chosen now ss r
    → Chosen now (s ∷ ss) r
Chosen-cons now s ss unused none h = (λ u. clash (IsUsable→usable now s u) unused, h)
Chosen-cons now s ss unused (some b) h = record {
  member = inr h.member;
  usable = h.usable;
  least = (inl (λ u. clash (IsUsable→usable now s u) unused), h.least);
}

best_from-none : (now : ℤ) (ss : List Sample) → Chosen now ss (best_from none now ss)
unfolding best_from
best_from-none now [] = tt
best_from-none now (s ∷ ss) = elim (Bool-cases (is_usable now s)) [
  | inl used ↦
      let r = best_from-some s now ss (usable→IsUsable now s used) in
      rw (used, r.is_found)
        (record { member = r.from; usable = r.usable; least = (inr r.no_worse, r.least) })
  | inr unused ↦
      rw unused (Chosen-cons now s ss unused (best_from none now ss) (best_from-none now ss))
]

abbrev InWindow : ℤ → Type 0
InWindow d = (negsuc 29_999_999_999 ≤ℤ d) × (d ≤ℤ pos 30_000_000_000)

-- What each result of `local_time` says.
abbrev pub Explains : Clock → ℕ → ℤ → Option ℤ → Type 0
Explains c remote now (some t) =
    (b : Sample) × IsBest b now c.samples
    × InWindow (delta_ns remote b.remote)
    × (t ≡ b.local +ℤ delta_ns remote b.remote)
Explains c remote now none =
    All (λ x. ¬ IsUsable now x) c.samples
    ⊎ ((b : Sample) × IsBest b now c.samples × (¬ InWindow (delta_ns remote b.remote)))

time_from-Explains :
    (c : Clock) (remote : ℕ) (now : ℤ) (best : Option Sample)
    → Chosen now c.samples best
    → Explains c remote now (time_from best remote)
time_from-Explains c remote now none h = inl h
time_from-Explains c remote now (some b) h =
    let d = delta_ns remote b.remote in
    elim (Bool-cases (ltb_ℤ d (negsuc 29_999_999_999) || ltb_ℤ (pos 30_000_000_000) d)) [
      | inl far ↦ rw far (inr (b, h, λ w. ground arith))
      | inr near ↦ rw near (b, h, (ground arith, ground arith), refl)
    ]

-- A conversion succeeds exactly through the usable sample with the least round trip: a result is
-- that sample's local time plus the difference of the timestamps, which lies within thirty seconds;
-- no result means that no sample is usable, or that the difference to that sample is larger.
pub local_time-Explains :
    (c : Clock) (remote : ℕ) (now : ℤ) → Explains c remote now (local_time c remote now)
unfolding local_time
local_time-Explains c remote now =
    time_from-Explains c remote now (best_from none now c.samples) (best_from-none now c.samples)

-- What holds of a sample that was stored: a round trip of at most half a second, and a local time
-- at most half of that before the observation.
abbrev pub IsSound : Sample → Type 0
IsSound s =
    (s.valid ≡ false)
    ⊎ ((pos 0 ≤ℤ s.rtt)
        × (s.rtt ≤ℤ pos 500_000_000)
        × (s.local ≤ℤ s.observed)
        × ((s.observed -ℤ s.local) ≤ℤ pos 250_000_000))

pub record IsClock (c : Clock) : Type 0 where
  pub eight : length c.samples ≡ 8
  pub counts : c.next < u32
  pub sound : All IsSound c.samples

All-set :
    (ss : List Sample) (i : ℕ) (v : Sample) → All IsSound ss → IsSound v → All IsSound (set ss i v)
All-set [] i v h k = tt
All-set (s ∷ ss) zero v h k = (k, h.1)
All-set (s ∷ ss) (suc i) v h k = (h.0, All-set ss i v h.1 k)

half_rtt :
    (received rtt : ℤ)
    → pos 0 ≤ℤ rtt
    → rtt ≤ℤ pos 500_000_000
    → ((received -ℤ quot rtt 2) ≤ℤ received)
      × ((received -ℤ (received -ℤ quot rtt 2)) ≤ℤ pos 250_000_000)
unfolding ◌-ℤ◌ quot
half_rtt received rtt lo hi = ground arith

sample_of-IsSound :
    (sent received : ℤ) (remote_received remote_sent : ℕ)
    → is_refused sent received remote_received remote_sent ≡ false
    → IsSound (sample_of sent received remote_received remote_sent)
unfolding sample_of is_refused
sample_of-IsSound sent received remote_received remote_sent h =
    let delay = (received -ℤ sent) -ℤ delta_ns remote_sent remote_received in
    let rtt = if ltb_ℤ (pos 0) delay then delay else pos 0 in
    let lo : pos 0 ≤ℤ rtt = ground arith in
    let hi : rtt ≤ℤ pos 500_000_000 = ground arith in
    let (before, near) = half_rtt received rtt lo hi in inr (lo, hi, before, near)

-- What an exchange does to the clock.
abbrev pub Observed : ℤ → ℤ → ℕ → ℕ → Clock → Clock × Bool → Type 0
Observed sent received remote_received remote_sent c (c', false) = c' ≡ c
Observed sent received remote_received remote_sent c (c', true) =
    get_elem? c'.samples (c.next % 8) ≡ some (sample_of sent received remote_received remote_sent)

-- `observe` keeps eight sound samples, whatever the exchange; where it returns false it changes
-- nothing, and where it returns true the new sample stands in the slot of the count.
pub observe-IsClock :
    (sent received : ℤ) (remote_received remote_sent : ℕ) (c : Clock)
    → IsClock c
    → IsClock (observe sent received remote_received remote_sent c).0
      × Observed sent received remote_received remote_sent c
          (observe sent received remote_received remote_sent c)
unfolding observe
observe-IsClock sent received remote_received remote_sent c h =
    elim (Bool-cases (is_refused sent received remote_received remote_sent)) [
      | inl refused ↦ rw refused (h, refl)
      | inr taken ↦ rw taken (
        record {
          eight = length-set c.samples _ _ ∙ h.eight;
          counts = omega arith;
          sound =
              All-set c.samples _ _ h.sound
                (sample_of-IsSound sent received remote_received remote_sent taken);
        },
        get_elem?-set_self c.samples (c.next % 8) _ (omega (arith, h.eight)),
      )
    ]
