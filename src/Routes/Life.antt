-- ===== src/Routes/Life.antt =====
-- The whole life of a control connection: its requests in any order, and its end.
use air_play_windows.Routes.Device.{Device, SetupRequest, show_device}
use air_play_windows.Base.{
  Bool-cases, Option-cases, Bytes, is_empty, ℕ, ◌+◌, ◌≡◌, refl, sym, ap, subst, inl, inr, Bool,
  true, false, Option, none, some, List, [], ◌∷◌, ◌++◌, arith,
}
use air_play_windows.Routes.Connection.{
  Fresh, Connection, Handled, streams_of, setup_both, answer, is_refused, setup_airplay2_path,
  setup_legacy_path, handle_setup, handle_record, handle_teardown, hang_up,
}
use air_play_windows.Routes.Settled.{
  holds, Settled, NoPorts, NoLegacy, setup_both-Balanced, stop_streams-Balanced,
}
use air_play_windows.Streams.{StreamSession, Done, teardown, setup_legacy}
use air_play_windows.Streams.Sockets.{count, count-append, owned}
use air_play_windows.Streams.Balance.{Balanced}
use air_play_windows.Streams.Legacy.{setup_legacy-Balanced}

pub data Event (P : Type 0) : Type 0 where
  setting_up : Bytes → Option SetupRequest → Bytes → Fresh → Event P
  recording : Event P
  tearing_down : Bytes → List (ℕ × Option P) → Event P

abbrev pub When : Bool → Type 0 → Type 0
When false A = Unit
When true A = A

when : (b : Bool) {A : Type 0} → When b A → b ≡ true → A
when b {A = A} a e = subst (λ t. When t A) e a

module _ {P : Type 0} where
  unfoldable pub handle : Event P → Connection P → Handled P
  handle (setting_up body parsed transport fresh) c = handle_setup body parsed transport fresh c
  handle recording c = handle_record c
  handle (tearing_down sid stops) c = handle_teardown sid stops c

  -- What a connection leaves that serves its requests and ends: all the sockets bound and closed.
  unfoldable pub handle_client : List (Event P) → Connection P → Connection P × (List ℕ × List ℕ)
  handle_client [] c = let (c', closed) = hang_up c in (c', ([], closed))
  handle_client (e ∷ es) c =
      let h = handle e c in
      let (c', (bound, closed)) = handle_client es h.connection in
      (c', (h.bound ++ bound, h.closed ++ closed))

  abbrev pub current : Connection P → StreamSession P
  current c = (streams_of [] c.streams).1

  abbrev KeysFree : Option SetupRequest → Connection P → Type 0
  KeysFree none c = Unit
  KeysFree (some req) c = When req.has_keys (NoPorts (current c))

  -- A SETUP finds the sockets free that it binds for the whole session.
  abbrev pub Ready : Event P → Connection P → Type 0
  Ready (setting_up body parsed transport fresh) c =
      When (is_empty body) (NoLegacy (current c)) × KeysFree parsed c
  Ready recording c = Unit
  Ready (tearing_down sid stops) c = Unit

  abbrev pub AllReady : List (Event P) → Connection P → Type 0
  AllReady [] c = Unit
  AllReady (e ∷ es) c = Ready e c × AllReady es (handle e c).connection

  holds-streams_of :
      (id : Bytes) (o : Option (Bytes × StreamSession P)) (x : ℕ)
      → count x (owned (streams_of id o).1) ≡ count x (holds o)
  unfolding teardown
  holds-streams_of id none x = refl
  holds-streams_of id (some old) x = refl

  streams_of-id :
      (id : Bytes) (o : Option (Bytes × StreamSession P))
      → (streams_of id o).1 ≡ (streams_of [] o).1
  streams_of-id id none = refl
  streams_of-id id (some old) = refl

  answer-Settled :
      (id new : Bytes) (shown : Option Device) (c : Connection P) (d : Done P)
      → Balanced (streams_of id c.streams).1 d
      → Settled c (answer new shown c d)
  answer-Settled id new shown c d settled x =
      omega (arith, settled x, holds-streams_of id c.streams x)

  setup_airplay2_path-Settled :
      (parsed : Option SetupRequest) (fresh : Fresh) (c : Connection P)
      → KeysFree parsed c
      → Settled c (setup_airplay2_path parsed fresh c)
  unfolding setup_airplay2_path
  setup_airplay2_path-Settled none fresh c free = λ x. refl
  setup_airplay2_path-Settled (some req) fresh c free = elim (Bool-cases (is_refused c)) [
    | inl refused ↦ rw refused (λ x. refl)
    | inr accepted ↦ rw accepted (
        let (id, s) = streams_of fresh.id c.streams in
        answer-Settled fresh.id id (show_device req c.remote_ip id c.renderer) c
          (setup_both req c.remote_ip fresh s)
          (setup_both-Balanced req c.remote_ip fresh s (λ keys.
            subst NoPorts (sym (streams_of-id fresh.id c.streams)) (when req.has_keys free keys))))
  ]

  setup_legacy_path-Settled :
      (header : Bytes) (fresh : Fresh) (c : Connection P)
      → NoLegacy (current c)
      → Settled c (setup_legacy_path header fresh c)
  unfolding setup_legacy_path
  setup_legacy_path-Settled header fresh c free =
      let (id, s) = streams_of fresh.id c.streams in
      let (no_data, no_ctrl, no_timing) =
        subst NoLegacy (sym (streams_of-id fresh.id c.streams)) free in
      answer-Settled fresh.id id c.renderer c
        (setup_legacy header fresh.first fresh.second fresh.third s)
        (setup_legacy-Balanced header fresh.first fresh.second fresh.third s no_data no_ctrl
          no_timing)

  setup-Settled :
      (body : Bytes) (parsed : Option SetupRequest) (header : Bytes) (fresh : Fresh)
      (c : Connection P)
      → Ready (setting_up body parsed header fresh) c
      → Settled c (handle_setup body parsed header fresh c)
  unfolding handle_setup
  setup-Settled body parsed header fresh c (legacy_free, keys_free) =
      elim (Bool-cases (is_empty body)) [
        | inr airplay2 ↦ rw airplay2 (setup_airplay2_path-Settled parsed fresh c keys_free)
        | inl legacy ↦ rw legacy (elim (Bool-cases (is_empty header)) [
          | inl bad ↦ rw bad (λ x. refl)
          | inr good ↦
              rw good
                (setup_legacy_path-Settled header fresh c (when (is_empty body) legacy_free legacy))
        ])
      ]

  teardown-Settled :
      (sid : Bytes) (stops : List (ℕ × Option P)) (c : Connection P)
      → Settled c (handle_teardown sid stops c)
  unfolding handle_teardown
  teardown-Settled sid [] c = elim (Option-cases c.streams) [
    | inl nothing ↦ rw nothing (λ x. refl)
    | inr ((id, s), here) ↦ rw here (λ x. omega arith)
  ]
  teardown-Settled sid (stop ∷ more) c = elim (Option-cases c.streams) [
    | inl nothing ↦ rw nothing (λ x. refl)
    | inr ((id, s), here) ↦ rw here (stop_streams-Balanced (stop ∷ more) s)
  ]

  handle-Settled : (e : Event P) (c : Connection P) → Ready e c → Settled c (handle e c)
  unfolding handle
  handle-Settled (setting_up body parsed header fresh) c ready =
      setup-Settled body parsed header fresh c ready
  handle-Settled recording c ready = unfold handle_record in (λ x. refl)
  handle-Settled (tearing_down sid stops) c ready = teardown-Settled sid stops c

  hang_up-holds : (c : Connection P) (x : ℕ) → count x (holds c.streams) ≡ count x (hang_up c).1
  unfolding hang_up
  hang_up-holds c x = elim (Option-cases c.streams) [
    | inl nothing ↦ rw nothing refl
    | inr ((id, s), here) ↦ rw here refl
  ]

  pub handle_client-holds :
      (es : List (Event P)) (c : Connection P) (x : ℕ)
      → AllReady es c
      → let (c', (bound, closed)) = handle_client es c in
        count x bound + count x (holds c.streams) ≡ count x closed
  unfolding handle_client
  handle_client-holds [] c x ready = omega (arith, hang_up-holds c x)
  handle_client-holds (e ∷ es) c x (now, later) =
      let h = handle e c in
      let rest = handle_client es h.connection in
      omega (
        arith,
        handle-Settled e c now x,
        handle_client-holds es h.connection x later,
        count-append x h.bound rest.1.0,
        count-append x h.closed rest.1.1,
      )

  -- On a connection that starts without streams, and on which each SETUP finds the session's own
  -- sockets free that it binds, any sequence of SETUP, RECORD and TEARDOWN requests, refused, failed
  -- and partial ones included, and the end of the connection close every socket exactly as often as
  -- they bind it.
  pub handle_client-closes :
      (es : List (Event P)) (c : Connection P) (x : ℕ)
      → c.streams ≡ none
      → AllReady es c
      → let (c', (bound, closed)) = handle_client es c in count x bound ≡ count x closed
  handle_client-closes es c x none_yet ready =
      omega (arith, handle_client-holds es c x ready, ap (λ o. count x (holds o)) none_yet)
