-- ===== src/PairVerify/Honest.antt =====
-- A sender that follows the protocol is verified, and can check the receiver's signature.
use air_play_windows.PairVerify.Working.{Working, Sender}
use air_play_windows.Base.{
  length, take, drop, length-append, length-take, take_all, take-append_at, drop-append_at, Bytes,
  ◌≡◌, refl, ap, ◌∙◌, true, Option, some, [], ◌∷◌, ◌++◌, arith,
}
use air_play_windows.PairVerify.{
  Crypto, round1_done, verified, Session, aes_key_salt, aes_iv_salt, x25519_of, ed25519_of,
  extract_pub, x25519_derive, sha512_prefixed, derive_aes_key_iv, crypt_64, agree_with,
  handle_message1, handle_message2, opened, handle_pair_verify,
}

module _ {E C : Type 0} {crypto : Crypto E C} (works : Working crypto)
    (sender : Sender crypto) where
  abbrev pub hello : Bytes
  hello = 1 ∷ (0 ∷ (0 ∷ (0 ∷ (works.public sender.pair ++ sender.signing_key))))

  -- The contexts with the key that a shared secret gives.
  abbrev pub context_of : Bytes → C
  context_of secret =
      works.context (take 16 (works.digest (aes_key_salt ++ secret)))
        (take 16 (works.digest (aes_iv_salt ++ secret)))

  -- What the sender reads as the receiver's signature, and its second message.
  abbrev pub read_signature : E → Bytes → Bytes
  read_signature pair response =
      works.stream (context_of (works.shared sender.pair pair)) (drop 32 response)

  abbrev pub proof : E → Bytes → Bytes
  proof pair response =
      let start = context_of (works.shared sender.pair pair) in
      0
      ∷ (0
          ∷ (0
              ∷ (0
                  ∷ works.stream (works.next start (drop 32 response))
                      (sender.sign (works.public sender.pair ++ take 32 response)))))

  extract_pub_lem : (pair : E) → extract_pub crypto pair ≡ some (works.public pair)
  unfolding extract_pub
  extract_pub_lem pair = rw (works.raw_public_key_lem pair, works.length-public pair)

  x25519_derive_lem : (e f : E) → x25519_derive crypto e (works.public f) ≡ some (works.shared e f)
  unfolding x25519_derive
  x25519_derive_lem e f = rw (works.derive_lem e f, works.length-shared e f)

  derive_aes_key_iv_lem :
      (secret : Bytes)
      → derive_aes_key_iv crypto secret
        ≡ some (
          take 16 (works.digest (aes_key_salt ++ secret)),
          take 16 (works.digest (aes_iv_salt ++ secret)),
        )
  unfolding derive_aes_key_iv sha512_prefixed
  derive_aes_key_iv_lem secret = rw (
    works.sha512_lem (aes_key_salt ++ secret),
    works.sha512_lem (aes_iv_salt ++ secret),
    works.length-digest (aes_key_salt ++ secret),
    works.length-digest (aes_iv_salt ++ secret),
  )

  length-key : (b : Bytes) → length (take 16 (works.digest b)) ≡ 16
  length-key b = length-take 16 (works.digest b) ∙ omega (arith, works.length-digest b)

  crypt_64_lem :
      (c : C) (b : Bytes)
      → length b ≡ 64
      → crypt_64 crypto c b ≡ some (works.next c b, works.stream c b)
  unfolding crypt_64
  crypt_64_lem c b full = rw (works.encrypt_update_lem c b, works.length-stream c b, full)

  -- The first message is answered with the receiver's public key and its encrypted signature.
  abbrev answered_by : E → Session C → Session C
  answered_by pair s =
      let key = works.public pair in
      let peer = works.public sender.pair in
      record {
        state = round1_done;
        server_x25519_pub = key;
        client_x25519_pub = peer;
        client_ed25519_pub = sender.signing_key;
        ecdh_secret = works.shared pair sender.pair;
        aes_ctx =
            some
              (works.next (context_of (works.shared pair sender.pair)) (crypto.sign (key ++ peer)));
      }

  abbrev answer : E → Bytes
  answer pair =
      works.public pair
      ++ works.stream (context_of (works.shared pair sender.pair))
          (crypto.sign (works.public pair ++ works.public sender.pair))

  x25519_of-hello : x25519_of hello ≡ works.public sender.pair
  x25519_of-hello =
      take-append_at 32 (works.public sender.pair) sender.signing_key
        (works.length-public sender.pair)

  ed25519_of-hello : ed25519_of hello ≡ sender.signing_key
  ed25519_of-hello =
      ap (take 32) (
        drop-append_at 32 (works.public sender.pair) sender.signing_key
          (works.length-public sender.pair))
      ∙ take_all 32 sender.signing_key (omega (arith, sender.length-signing_key))

  length-hello : length hello ≡ 68
  length-hello = omega (
    arith,
    length-append (works.public sender.pair) sender.signing_key,
    works.length-public sender.pair,
    sender.length-signing_key,
  )

  agree_with_lem :
      (pair : E) (s : Session C)
      → s.client_x25519_pub ≡ works.public sender.pair
      → s.client_ed25519_pub ≡ sender.signing_key
      → agree_with crypto pair (some (works.public pair)) s
        ≡ (answered_by pair s, some (answer pair))
  agree_with_lem pair s x ed =
      let secret = works.shared pair sender.pair in
      let signature = crypto.sign (works.public pair ++ works.public sender.pair) in
      rw (
        x,
        x25519_derive_lem pair sender.pair,
        derive_aes_key_iv_lem secret,
        works.length-sign (works.public pair ++ works.public sender.pair),
        works.encrypt_init_lem (take 16 (works.digest (aes_key_salt ++ secret)))
            (take 16 (works.digest (aes_iv_salt ++ secret))) (length-key (aes_key_salt ++ secret))
            (length-key (aes_iv_salt ++ secret)),
        crypt_64_lem (context_of secret) signature
            (works.length-sign (works.public pair ++ works.public sender.pair)),
        ed,
      )

  handle_message1-hello :
      (pair : E) (s : Session C)
      → handle_message1 crypto (some pair) hello s ≡ (answered_by pair s, some (answer pair))
  unfolding handle_message1
  handle_message1-hello pair s = rw (
    length-hello,
    extract_pub_lem pair,
    agree_with_lem pair
        (record s { client_x25519_pub = x25519_of hello; client_ed25519_pub = ed25519_of hello })
        x25519_of-hello ed25519_of-hello,
  )

  behind_key :
      (pair : E)
      → drop 32 (answer pair)
        ≡ works.stream
            (context_of (works.shared pair sender.pair))
            (crypto.sign (works.public pair ++ works.public sender.pair))
  behind_key pair =
      drop-append_at 32 (works.public pair)
        (works.stream (context_of (works.shared pair sender.pair))
          (crypto.sign (works.public pair ++ works.public sender.pair)))
        (works.length-public pair)

  -- The sender reads the receiver's signature in the answer.
  read_signature-answer :
      (pair : E)
      → read_signature pair (answer pair)
        ≡ crypto.sign (works.public pair ++ works.public sender.pair)
  read_signature-answer pair =
      let signature = crypto.sign (works.public pair ++ works.public sender.pair) in
      ap (λ b. works.stream (context_of b) (drop 32 (answer pair)))
        (works.shared_comm sender.pair pair)
      ∙ ap (works.stream (context_of (works.shared pair sender.pair))) (behind_key pair)
      ∙ works.stream_twice (context_of (works.shared pair sender.pair)) signature

  -- The cipher behind the receiver's signature, and what the sender signs.
  abbrev cipher_of : E → C
  cipher_of pair =
      works.next (context_of (works.shared pair sender.pair))
        (crypto.sign (works.public pair ++ works.public sender.pair))

  abbrev signed : E → Bytes
  signed pair = sender.sign (works.public sender.pair ++ works.public pair)

  proof-answer :
      (pair : E)
      → proof pair (answer pair) ≡ 0 ∷ (0 ∷ (0 ∷ (0 ∷ works.stream (cipher_of pair) (signed pair))))
  proof-answer pair = rw (
    works.shared_comm sender.pair pair,
    behind_key pair,
    take-append_at 32 (works.public pair)
        (works.stream (context_of (works.shared pair sender.pair))
          (crypto.sign (works.public pair ++ works.public sender.pair)))
        (works.length-public pair),
    works.next-stream (context_of (works.shared pair sender.pair))
        (crypto.sign (works.public pair ++ works.public sender.pair)),
  )

  length-sent : (pair : E) → length (works.stream (cipher_of pair) (signed pair)) ≡ 64
  length-sent pair =
      works.length-stream (cipher_of pair) (signed pair)
      ∙ sender.length-signed (works.public sender.pair ++ works.public pair)

  length-proof : (pair : E) → length (proof pair (answer pair)) ≡ 68
  length-proof pair = ap length (proof-answer pair) ∙ omega (arith, length-sent pair)

  abbrev pub verified_by : E → Session C → Session C
  verified_by pair s = record (answered_by pair s) {
    state = verified;
    aes_ctx = some (works.next (cipher_of pair) (works.stream (cipher_of pair) (signed pair)));
  }

  handle_message2-proof :
      (pair : E) (s : Session C)
      → handle_message2 crypto
          (0 ∷ (0 ∷ (0 ∷ (0 ∷ works.stream (cipher_of pair) (signed pair)))))
          (answered_by pair s)
        ≡ (verified_by pair s, true)
  unfolding handle_message2
  handle_message2-proof pair s =
      let sent = works.stream (cipher_of pair) (signed pair) in
      rw (
        length-sent pair,
        take_all 64 sent (omega (arith, length-sent pair)),
        crypt_64_lem (cipher_of pair) sent (length-sent pair),
        works.stream_twice (cipher_of pair) (signed pair),
        sender.accepted (works.public sender.pair ++ works.public pair),
      )

  -- Whatever the session of the connection was before, a sender that follows the protocol gets an
  -- answer to its first message with 200, reads in it the receiver's signature of both public keys,
  -- gets an empty response with 200 to its second message, and the session is then verified, with
  -- the secret that both share. OpenSSL's calls are assumed to work, and both signing keys to give
  -- signatures of 64 bytes.
  pub handle_pair_verify-sender :
      (pair : E) (spare : Option E) (session : Option (Session C))
      → (s : Session C) × (t : Session C) × (response : Bytes) × (handle_pair_verify crypto
            (hello, some pair)
            session
          ≡ (some s, (200, response)))
        × (read_signature pair response
            ≡ crypto.sign (works.public pair ++ works.public sender.pair))
        × (handle_pair_verify crypto (proof pair response, spare) (some s) ≡ (some t, (200, [])))
        × (t.state ≡ verified)
        × (t.ecdh_secret ≡ works.shared sender.pair pair)
  unfolding handle_pair_verify
  handle_pair_verify-sender pair spare session =
      let s = answered_by pair (opened crypto session) in
      (
        s,
        verified_by pair (opened crypto session),
        answer pair,
        rw (handle_message1-hello pair (opened crypto session), length-hello),
        read_signature-answer pair,
        rw (
          proof-answer pair,
          handle_message2-proof pair (opened crypto session),
          length-proof pair,
        ),
        refl,
        works.shared_comm pair sender.pair,
      )
