-- ===== src/PairVerify/Settled.antt =====
-- In which states the two rounds leave a session.
use air_play_windows.Base.{
  ltb, ◌==◌, Bool-cases, Option-cases, length, Bytes, ◌≡◌, refl, sym, subst, ◌≢◌, ◌⊎◌, inl, inr,
  Option, none, some, ◌++◌, arith,
}
use air_play_windows.PairVerify.Rounds.{shown_to}
use air_play_windows.PairVerify.{
  Crypto, round1_done, rejected, Session, signature_of, extract_pub, x25519_derive,
  derive_aes_key_iv, crypt_64, encrypt_with, sign_with, key_with, agree_with, start_with,
  handle_message1, check_with, decrypt_with, is_round1_done, handle_message2,
}

module _ {E C : Type 0} (crypto : Crypto E C) where
  abbrev pub Settled : Session C × Option Bytes → Type 0
  Settled (s, out) = (s.state ≡ round1_done) ⊎ (s.state ≡ rejected)

  encrypt_with-Settled :
      (o : Option C) (signature : Bytes) (s : Session C)
      → Settled (encrypt_with crypto o signature s)
  encrypt_with-Settled none signature s = inr refl
  encrypt_with-Settled (some c) signature s = elim (Option-cases (crypt_64 crypto c signature)) [
    | inl fails ↦ inr (ground (arith, fails))
    | inr (r, works) ↦ inl (ground (arith, works))
  ]

  sign_with-Settled : (o : Option (Bytes × Bytes)) (s : Session C) → Settled (sign_with crypto o s)
  sign_with-Settled none s = inr refl
  sign_with-Settled (some (key, iv)) s =
      let signature = crypto.sign (s.server_x25519_pub ++ s.client_x25519_pub) in
      elim (Bool-cases (length signature == 64)) [
        | inl full ↦
            let same : sign_with crypto (some (key, iv)) s
                ≡ encrypt_with crypto (crypto.encrypt_init key iv) signature s =
              ground (arith, full) in
            subst Settled (sym same) (encrypt_with-Settled (crypto.encrypt_init key iv) signature s)
        | inr other ↦ inr (ground (arith, other))
      ]

  key_with-Settled : (o : Option Bytes) (s : Session C) → Settled (key_with crypto o s)
  key_with-Settled none s = inr refl
  key_with-Settled (some secret) s =
      sign_with-Settled (derive_aes_key_iv crypto secret) (record s { ecdh_secret = secret })

  agree_with-Settled :
      (pair : E) (o : Option Bytes) (s : Session C) → Settled (agree_with crypto pair o s)
  agree_with-Settled pair none s = inr refl
  agree_with-Settled pair (some public) s =
      key_with-Settled (x25519_derive crypto pair s.client_x25519_pub)
        (record s { server_x25519_pub = public })

  start_with-Settled : (o : Option E) (s : Session C) → Settled (start_with crypto o s)
  start_with-Settled none s = inr refl
  start_with-Settled (some pair) s = agree_with-Settled pair (extract_pub crypto pair) s

  pub handle_message1-Settled :
      (ephemeral : Option E) (body : Bytes) (s : Session C)
      → Settled (handle_message1 crypto ephemeral body s)
  unfolding handle_message1
  handle_message1-Settled ephemeral body s = elim (Bool-cases (ltb (length body) 68)) [
    | inl short ↦ inr (ground (arith, short))
    | inr long ↦
        let same : handle_message1 crypto ephemeral body s
            ≡ start_with crypto ephemeral (shown_to crypto body s) =
          ground (arith, long) in
        subst Settled (sym same) (start_with-Settled ephemeral (shown_to crypto body s))
  ]

  check_with-ends :
      (o : Option (C × Bytes)) (s : Session C) → (check_with crypto o s).0.state ≢ round1_done
  check_with-ends none s h = cc
  check_with-ends (some (d, client_sig)) s h =
      elim (Bool-cases (
        crypto.digest_verify s.client_ed25519_pub (s.client_x25519_pub ++ s.server_x25519_pub)
          client_sig)) [ inl good ↦ ground (arith, good, h) | inr bad ↦ ground (arith, bad, h) ]

  -- The second round never leaves a session half open.
  pub handle_message2-ends :
      (body : Bytes) (s : Session C) → (handle_message2 crypto body s).0.state ≢ round1_done
  unfolding handle_message2
  handle_message2-ends body s h = elim (Bool-cases (is_round1_done crypto s.state)) [
    | inr other ↦ ground (arith, other, h)
    | inl ready ↦ elim (Bool-cases (ltb (length body) 68)) [
      | inl short ↦ ground (arith, ready, short, h)
      | inr long ↦
          check_with-ends (decrypt_with crypto s.aes_ctx (signature_of body)) s
            (ground (arith, ready, long, h))
    ]
  ]
