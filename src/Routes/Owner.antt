-- ===== src/Routes/Owner.antt =====
-- The sender whose device is shown stays the owner of the renderer while it handles requests.
use air_play_windows.Base.{
  Bool-cases, Option-cases, Bytes, equal, is_empty, ℕ, ◌≡◌, refl, ap, subst, inl, inr, not, ◌&&◌,
  Option, none, some, List, ◌∷◌,
}
use air_play_windows.Routes.Connection.{
  Fresh, Connection, streams_of, setup_both, answer, is_refused, setup_airplay2_path,
  setup_legacy_path, handle_setup, stop_streams, handle_teardown,
}
use air_play_windows.Routes.Device.{
  DeviceInfo, Device, SetupRequest, is_paired, merge_device, show_device,
}
use air_play_windows.Streams.{Done, setup_legacy}

-- The renderer shows a device of this address.
abbrev pub Shows : Bytes → Option Device → Type 0
Shows ip r = (dev : DeviceInfo) × (r ≡ some (some dev)) × (dev.peer_ip ≡ ip)

pub is_paired-Shows :
    (ip other : Bytes) (r : Option Device)
    → Shows ip r
    → is_paired other r ≡ (not (is_empty ip) && not (equal ip other))
unfolding is_paired
is_paired-Shows ip other r (dev, is, here) = rw is (rw here refl)

show_device-Shows :
    (req : SetupRequest) (ip id old : Bytes) (r : Option Device)
    → Shows old r
    → Shows ip (show_device req ip id r)
show_device-Shows req ip id old r (dev, is, here) =
    (merge_device req ip id dev, ap (show_device req ip id) is, refl)

module _ {P : Type 0} where
  -- The connection is still of the sender whose device is shown.
  abbrev pub Owns : Bytes → Connection P → Type 0
  Owns ip a = (a.remote_ip ≡ ip) × Shows ip a.renderer

  answer-Owns :
      (ip id : Bytes) (shown : Option Device) (a : Connection P) (d : Done P)
      → Owns ip a
      → Shows ip shown
      → Owns ip (answer id shown a d).connection
  answer-Owns ip id shown a d (at_ip, shows) shows' = elim (Bool-cases d.ok) [
    | inl ok ↦ rw ok (at_ip, shows')
    | inr failed ↦ rw failed (at_ip, shows)
  ]

  setup_airplay2_path-Owns :
      (ip : Bytes) (parsed : Option SetupRequest) (fresh : Fresh) (a : Connection P)
      → Owns ip a
      → Owns ip (setup_airplay2_path parsed fresh a).connection
  unfolding setup_airplay2_path
  setup_airplay2_path-Owns ip none fresh a owns = owns
  setup_airplay2_path-Owns ip (some req) fresh a (at_ip, shows) =
      let (id, s) = streams_of fresh.id a.streams in
      let shown = show_device req a.remote_ip id a.renderer in
      elim (Bool-cases (is_refused a)) [
        | inl refused ↦ rw refused (at_ip, shows)
        | inr accepted ↦ rw accepted (
            answer-Owns ip id shown a (setup_both req a.remote_ip fresh s) (at_ip, shows)
              (subst (λ i. Shows i shown) at_ip
                (show_device-Shows req a.remote_ip id ip a.renderer shows)))
      ]

  pub setup-Owns :
      (ip body : Bytes) (parsed : Option SetupRequest) (header : Bytes) (fresh : Fresh)
      (a : Connection P)
      → Owns ip a
      → Owns ip (handle_setup body parsed header fresh a).connection
  unfolding handle_setup setup_legacy_path
  setup-Owns ip body parsed header fresh a owns =
      let (id, s) = streams_of fresh.id a.streams in
      elim (Bool-cases (is_empty body)) [
        | inr airplay2 ↦ rw airplay2 (setup_airplay2_path-Owns ip parsed fresh a owns)
        | inl legacy ↦ rw legacy (elim (Bool-cases (is_empty header)) [
          | inl bad ↦ rw bad owns
          | inr good ↦ rw good (
              answer-Owns ip id a.renderer a
                (setup_legacy header fresh.first fresh.second fresh.third s) owns owns.1)
        ])
      ]

  pub teardown-Owns :
      (ip sid : Bytes) (stop : ℕ × Option P) (more : List (ℕ × Option P)) (a : Connection P)
      → Owns ip a
      → Owns ip (handle_teardown sid (stop ∷ more) a).connection
  unfolding handle_teardown
  teardown-Owns ip sid stop more a owns = elim (Option-cases a.streams) [
    | inl nothing ↦ rw nothing owns
    | inr ((id, s), here) ↦
        rw here (answer-Owns ip id a.renderer a (stop_streams (stop ∷ more) s) owns owns.1)
  ]
