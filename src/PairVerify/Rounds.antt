-- ===== src/PairVerify/Rounds.antt =====
-- What the two rounds check.
use air_play_windows.Base.{
  ltb, ◌==◌, Bool-cases, Option-cases, length, Bytes, ◌≤◌, ◌≡◌, refl, sym, ap, ◌∙◌, subst, inl, inr,
  true, Option, none, some, ◌++◌, arith,
}
use air_play_windows.PairVerify.{
  Crypto, Stage, fresh, round1_done, verified, rejected, Session, x25519_of, ed25519_of,
  signature_of, extract_pub, x25519_derive, derive_aes_key_iv, crypt_64, encrypt_with, sign_with,
  agree_with, start_with, handle_message1, check_with, decrypt_with, is_round1_done,
  handle_message2, Request,
}

module _ {E C : Type 0} (crypto : Crypto E C) where
  -- What a first message with its key pair makes of a session: the receiver's public key and the
  -- cipher as it stands behind the receiver's signature.
  pub record Opened (r : Request crypto) (t : Session C) : Type 0 where
    pub pair : E
    pub public : Bytes
    pub secret : Bytes
    pub key_iv : Bytes × Bytes
    pub start : C
    pub cipher : C
    pub enc_sig : Bytes
    pub enough : 68 ≤ length r.0
    pub generated : r.1 ≡ some pair
    pub shown : extract_pub crypto pair ≡ some public
    pub agreed : x25519_derive crypto pair (x25519_of r.0) ≡ some secret
    pub derived : derive_aes_key_iv crypto secret ≡ some key_iv
    pub started : crypto.encrypt_init key_iv.0 key_iv.1 ≡ some start
    pub answered :
        crypt_64 crypto start (crypto.sign (public ++ x25519_of r.0)) ≡ some (cipher, enc_sig)
    pub after : t ≡ record {
      state = round1_done;
      server_x25519_pub = public;
      client_x25519_pub = x25519_of r.0;
      client_ed25519_pub = ed25519_of r.0;
      ecdh_secret = secret;
      aes_ctx = some cipher;
    }

  abbrev pub Done : Session C × Option Bytes → Type 0
  Done (s, out) = s.state ≡ round1_done

  encrypt_with-Done :
      (o : Option C) (signature : Bytes) (s : Session C)
      → Done (encrypt_with crypto o signature s)
      → (c : C) × (d : C) × (enc : Bytes) × (o ≡ some c)
        × (crypt_64 crypto c signature ≡ some (d, enc))
        × ((encrypt_with crypto o signature s).0
            ≡ record s { aes_ctx = some d; state = round1_done })
  encrypt_with-Done none signature s h = absurd cc
  encrypt_with-Done (some c) signature s h = elim (Option-cases (crypt_64 crypto c signature)) [
    | inl fails ↦ absurd (ground (arith, fails, h))
    | inr ((d, enc), works) ↦ (c, d, enc, refl, works, ground (arith, works))
  ]

  sign_with-Done :
      (o : Option (Bytes × Bytes)) (s : Session C)
      → Done (sign_with crypto o s)
      → (k : Bytes × Bytes) × (c : C) × (d : C) × (enc : Bytes) × (o ≡ some k)
        × (crypto.encrypt_init k.0 k.1 ≡ some c)
        × (crypt_64 crypto c (crypto.sign (s.server_x25519_pub ++ s.client_x25519_pub))
            ≡ some (d, enc))
        × ((sign_with crypto o s).0 ≡ record s { aes_ctx = some d; state = round1_done })
  sign_with-Done none s h = absurd cc
  sign_with-Done (some (key, iv)) s h =
      let signature = crypto.sign (s.server_x25519_pub ++ s.client_x25519_pub) in
      elim (Bool-cases (length signature == 64)) [
        | inl full ↦
            let (c, d, enc, has, works, is) =
              encrypt_with-Done (crypto.encrypt_init key iv) signature s
                (ground (arith, full, h)) in
            ((key, iv), c, d, enc, refl, has, works, ground (arith, full, is))
        | inr other ↦ absurd (ground (arith, other, h))
      ]

  agree_with-Done :
      (pair : E) (o : Option Bytes) (s : Session C)
      → Done (agree_with crypto pair o s)
      → (public : Bytes) × (secret : Bytes) × (o ≡ some public)
        × (x25519_derive crypto pair s.client_x25519_pub ≡ some secret)
        × (agree_with crypto pair o s
            ≡ sign_with crypto
                (derive_aes_key_iv crypto secret)
                (record s { server_x25519_pub = public; ecdh_secret = secret }))
  agree_with-Done pair none s h = absurd cc
  agree_with-Done pair (some public) s h =
      elim (Option-cases (x25519_derive crypto pair s.client_x25519_pub)) [
        | inl fails ↦ absurd (ground (arith, fails, h))
        | inr (secret, has) ↦ (public, secret, refl, has, ground (arith, has))
      ]

  abbrev pub shown_to : Bytes → Session C → Session C
  shown_to body s = record s {
    client_x25519_pub = x25519_of body;
    client_ed25519_pub = ed25519_of body;
  }

  start_with-Opened :
      (pair : E) (body : Bytes) (s : Session C)
      → 68 ≤ length body
      → Done (start_with crypto (some pair) (shown_to body s))
      → Opened (body, some pair) (start_with crypto (some pair) (shown_to body s)).0
  start_with-Opened pair body s enough h =
      let (public, secret, shown, agreed, same) =
        agree_with-Done pair (extract_pub crypto pair) (shown_to body s) h in
      let (k, c, d, enc, derived, has, works, is) =
        sign_with-Done (derive_aes_key_iv crypto secret)
          (record (shown_to body s) { server_x25519_pub = public; ecdh_secret = secret })
          (subst Done same h) in
      record {
        pair = pair;
        public = public;
        secret = secret;
        key_iv = k;
        start = c;
        cipher = d;
        enc_sig = enc;
        enough = enough;
        generated = refl;
        shown = shown;
        agreed = agreed;
        derived = derived;
        started = has;
        answered = works;
        after = ap (λ r. r.0) same ∙ is;
      }

  pub handle_message1-Opened :
      (ephemeral : Option E) (body : Bytes) (s : Session C)
      → Done (handle_message1 crypto ephemeral body s)
      → Opened (body, ephemeral) (handle_message1 crypto ephemeral body s).0
  unfolding handle_message1
  handle_message1-Opened none body s h = elim (Bool-cases (ltb (length body) 68)) [
    | inl short ↦ absurd (ground (arith, short, h))
    | inr long ↦ absurd (ground (arith, long, h))
  ]
  handle_message1-Opened (some pair) body s h = elim (Bool-cases (ltb (length body) 68)) [
    | inl short ↦ absurd (ground (arith, short, h))
    | inr long ↦
        let same : handle_message1 crypto (some pair) body s
            ≡ start_with crypto (some pair) (shown_to body s) =
          ground (arith, long) in
        subst (λ r. Opened (body, some pair) r.0) (sym same)
          (start_with-Opened pair body s (ground (arith, long)) (subst Done same h))
  ]

  is_round1_done-true : (t : Stage) → is_round1_done crypto t ≡ true → t ≡ round1_done
  is_round1_done-true fresh h = cc
  is_round1_done-true round1_done h = refl
  is_round1_done-true verified h = cc
  is_round1_done-true rejected h = cc

  check_with-verified :
      (o : Option (C × Bytes)) (s : Session C)
      → (check_with crypto o s).0.state ≡ verified
      → (d : C) × (client_sig : Bytes) × (o ≡ some (d, client_sig))
        × (crypto.digest_verify s.client_ed25519_pub
              (s.client_x25519_pub ++ s.server_x25519_pub)
              client_sig
            ≡ true)
  check_with-verified none s h = absurd cc
  check_with-verified (some (d, client_sig)) s h =
      elim (Bool-cases (
        crypto.digest_verify s.client_ed25519_pub (s.client_x25519_pub ++ s.server_x25519_pub)
          client_sig)) [
            | inl good ↦ (d, client_sig, refl, good)
            | inr bad ↦ absurd (ground (arith, bad, h))
          ]

  decrypt_with-some :
      (o : Option C) (enc : Bytes) (r : C × Bytes)
      → decrypt_with crypto o enc ≡ some r
      → (c : C) × (o ≡ some c) × (crypt_64 crypto c enc ≡ some r)
  decrypt_with-some none enc r h = absurd cc
  decrypt_with-some (some c) enc r h = (c, refl, h)

  -- What the second round has checked.
  pub handle_message2-verified :
      (body : Bytes) (s : Session C)
      → (handle_message2 crypto body s).0.state ≡ verified
      → (c : C) × (d : C) × (client_sig : Bytes) × (s.state ≡ round1_done)
        × (s.aes_ctx ≡ some c)
        × (68 ≤ length body)
        × (crypt_64 crypto c (signature_of body) ≡ some (d, client_sig))
        × (crypto.digest_verify s.client_ed25519_pub
              (s.client_x25519_pub ++ s.server_x25519_pub)
              client_sig
            ≡ true)
  unfolding handle_message2
  handle_message2-verified body s h = elim (Bool-cases (is_round1_done crypto s.state)) [
    | inr other ↦ absurd (ground (arith, other, h))
    | inl ready ↦ elim (Bool-cases (ltb (length body) 68)) [
      | inl short ↦ absurd (ground (arith, ready, short, h))
      | inr long ↦
          let o = decrypt_with crypto s.aes_ctx (signature_of body) in
          let (d, client_sig, some_r, good) =
            check_with-verified o s (ground (arith, ready, long, h)) in
          let (c, has, works) =
            decrypt_with-some s.aes_ctx (signature_of body) (d, client_sig) some_r in
          (
            c,
            d,
            client_sig,
            is_round1_done-true s.state ready,
            has,
            ground (arith, long),
            works,
            good,
          )
    ]
  ]
