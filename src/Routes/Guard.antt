-- ===== src/Routes/Guard.antt =====
-- Two senders at one receiver: each has a control connection, and both share the renderer.
use air_play_windows.Routes.Device.{SetupRequest, is_paired}
use air_play_windows.Routes.Owner.{Shows, is_paired-Shows, Owns, setup-Owns, teardown-Owns}
use air_play_windows.Base.{
  Bytes, equal, is_empty, ◌≡◌, refl, sym, ◌∙◌, subst, Bool, true, false, not, ◌&&◌, none, some,
  List, [], ◌∷◌, arith,
}
use air_play_windows.Routes.Connection.{
  Fresh, Connection, reply, is_refused, setup_airplay2_path, handle_setup, handle_record,
  handle_teardown,
}
use air_play_windows.Routes.Life.{Event, setting_up, recording, tearing_down, handle}

-- A turn of the sender whose device is active, and one of the other sender.
pub data Turn (P : Type 0) : Type 0 where
  by_owner : Event P → Turn P
  by_other : Event P → Turn P

module _ {P : Type 0} where
  abbrev share : Connection P → Connection P → Connection P
  share from to = record to { renderer = from.renderer; registry = from.registry }

  unfoldable pub take_turns :
      List (Turn P) → Connection P × Connection P → Connection P × Connection P
  take_turns [] cs = cs
  take_turns (by_owner e ∷ ts) (a, b) =
      let a' = (handle e a).connection in take_turns ts (a', share a' b)
  take_turns (by_other e ∷ ts) (a, b) =
      let b' = (handle e b).connection in take_turns ts (share b' a, b')

  -- The owner does not end its session, and the other sender uses AirPlay 2.
  abbrev pub fits : Turn P → Bool
  fits (by_owner (tearing_down sid [])) = false
  fits (by_owner e) = true
  fits (by_other (setting_up body parsed header fresh)) = not (is_empty body)
  fits (by_other e) = true

  abbrev pub AllFit : List (Turn P) → Type 0
  AllFit [] = Unit
  AllFit (t ∷ ts) = (fits t ≡ true) × AllFit ts

  owner-Owns :
      (ip : Bytes) (e : Event P) (a : Connection P)
      → fits (by_owner e) ≡ true
      → Owns ip a
      → Owns ip (handle e a).connection
  unfolding handle
  owner-Owns ip (setting_up body parsed header fresh) a fit owns =
      setup-Owns ip body parsed header fresh a owns
  owner-Owns ip recording a fit owns = unfold handle_record in owns
  owner-Owns ip (tearing_down sid []) a fit owns = cc
  owner-Owns ip (tearing_down sid (stop ∷ more)) a fit owns = teardown-Owns ip sid stop more a owns

  -- The other sender waits: no streams, and the shown device is not its own.
  abbrev pub Waits : Connection P → Type 0
  Waits b = (b.streams ≡ none) × (is_paired b.remote_ip b.renderer ≡ true)

  -- It stays so, and the renderer with it.
  abbrev Unchanged : Connection P → Connection P → Type 0
  Unchanged b b' = (b'.streams ≡ none) × (b'.remote_ip ≡ b.remote_ip) × (b'.renderer ≡ b.renderer)

  refused-Waits : (b : Connection P) → Waits b → is_refused b ≡ true
  refused-Waits b (no_streams, paired) = rw no_streams paired

  pub setup-Waits :
      (body : Bytes) (req : SetupRequest) (header : Bytes) (fresh : Fresh) (b : Connection P)
      → is_empty body ≡ false
      → Waits b
      → handle_setup body (some req) header fresh b ≡ reply 503 b
  unfolding handle_setup setup_airplay2_path
  setup-Waits body req header fresh b airplay2 waits = rw airplay2 (rw (refused-Waits b waits) refl)

  other-Waits :
      (e : Event P) (b : Connection P)
      → fits (by_other e) ≡ true
      → Waits b
      → Unchanged b (handle e b).connection
  unfolding handle
  other-Waits (setting_up body none header fresh) b fit (no_streams, paired) =
      let airplay2 : is_empty body ≡ false = ground (arith, fit) in
      unfold handle_setup setup_airplay2_path in (rw airplay2 (no_streams, refl, refl))
  other-Waits (setting_up body (some req) header fresh) b fit waits =
      let airplay2 : is_empty body ≡ false = ground (arith, fit) in
      rw (setup-Waits body req header fresh b airplay2 waits) (waits.0, refl, refl)
  other-Waits recording b fit (no_streams, paired) =
      unfold handle_record in (no_streams, refl, refl)
  other-Waits (tearing_down sid stops) b fit (no_streams, paired) =
      unfold handle_teardown in (rw no_streams (refl, refl, refl))

  -- What both senders can count on.
  abbrev Guarded : Bytes → Bytes → Connection P × Connection P → Type 0
  Guarded ip other (a, b) =
      Owns ip a × (a.renderer ≡ b.renderer) × (b.streams ≡ none) × (b.remote_ip ≡ other)

  take_turns-Guarded :
      (ip other : Bytes) (ts : List (Turn P)) (a b : Connection P)
      → (not (is_empty ip) && not (equal ip other)) ≡ true
      → AllFit ts
      → Guarded ip other (a, b)
      → Guarded ip other (take_turns ts (a, b))
  unfolding take_turns
  take_turns-Guarded ip other [] a b differ fit guarded = guarded
  take_turns-Guarded ip other (by_owner e ∷ ts) a b differ (fit, later)
        (owns, shared, no_streams, at_other) =
      let a' = (handle e a).connection in
      take_turns-Guarded ip other ts a' (share a' b) differ later
        (owner-Owns ip e a fit owns, refl, no_streams, at_other)
  take_turns-Guarded ip other (by_other e ∷ ts) a b differ (fit, later)
        (owns, shared, no_streams, at_other) =
      let b' = (handle e b).connection in
      let paired : is_paired b.remote_ip b.renderer ≡ true =
        rw at_other
          (is_paired-Shows ip other b.renderer (subst (Shows ip) shared owns.1) ∙ differ) in
      let (still_none, same_ip, same_renderer) = other-Waits e b fit (no_streams, paired) in
      take_turns-Guarded ip other ts (share b' a) b' differ later (
        (owns.0, subst (Shows ip) (shared ∙ sym same_renderer) owns.1),
        refl,
        still_none,
        same_ip ∙ at_other,
      )

  -- While the device of one sender is shown and that sender does not end its session, a sender of
  -- another address on a connection without streams gets nothing, in whatever order SETUP, RECORD and
  -- TEARDOWN requests of both are handled, as long as its SETUPs carry bodies: its connection gets no
  -- streams, the renderer goes on showing a device of the first sender's address, and its next
  -- readable SETUP is answered with 503 and changes nothing.
  pub take_turns-refused :
      (ts : List (Turn P)) (a b : Connection P) (body : Bytes) (req : SetupRequest) (header : Bytes)
      (fresh : Fresh)
      → Shows a.remote_ip a.renderer
      → a.renderer ≡ b.renderer
      → b.streams ≡ none
      → (not (is_empty a.remote_ip) && not (equal a.remote_ip b.remote_ip)) ≡ true
      → AllFit ts
      → is_empty body ≡ false
      → let (a', b') = take_turns ts (a, b) in
        (b'.streams ≡ none)
        × Shows a.remote_ip b'.renderer
        × (handle_setup body (some req) header fresh b' ≡ reply 503 b')
  take_turns-refused ts a b body req header fresh shows shared no_streams differ fit airplay2 =
      let (a', b') = take_turns ts (a, b) in
      let (owns, still_shared, still_none, at_other) =
        take_turns-Guarded a.remote_ip b.remote_ip ts a b differ fit
          ((refl, shows), shared, no_streams, refl) in
      let shown = subst (Shows a.remote_ip) still_shared owns.1 in
      let paired : is_paired b'.remote_ip b'.renderer ≡ true =
        rw at_other (is_paired-Shows a.remote_ip b.remote_ip b'.renderer shown ∙ differ) in
      (still_none, shown, setup-Waits body req header fresh b' airplay2 (still_none, paired))
