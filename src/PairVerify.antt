-- ===== src/PairVerify.antt =====
-- src/crypto/pair_verify.cpp and `handle_pair_verify` in src/airplay/routes.cpp: the two rounds in
-- which a sender proves that it holds the signing key that it shows. OpenSSL's calls, and
-- `Identity::sign`, which is one of them with the receiver's key, are the operations of `Crypto`.
-- A key pair that the generator gives comes with the request that uses it.
pub mod Rounds
pub mod Settled
pub mod Working
pub mod Authentic
pub mod Honest
mod Tests
use air_play_windows.Base.{
  ltb, ◌==◌, if◌then◌else◌, length, get_or, take, drop, Bytes, codes, ℕ, Bool, true, false, Option,
  none, some, List, [], ◌∷◌, ◌++◌,
}

-- Key pairs `E` and cipher contexts `C`. Where a call fails, or gives no context, there is none.
pub record Crypto (E C : Type 0) : Type 0 where
  pub raw_public_key : E → Option Bytes
  pub derive : E → Bytes → Option Bytes
  pub sha512 : Bytes → Option Bytes
  pub sign : Bytes → Bytes
  pub digest_verify : Bytes → Bytes → Bytes → Bool
  pub encrypt_init : Bytes → Bytes → Option C
  pub encrypt_update : C → Bytes → Option (C × Bytes)

pub data Stage : Type 0 where
  fresh round1_done verified rejected : Stage

-- `PairVerifySession`; `state` is `state_`.
pub record Session (C : Type 0) : Type 0 where
  pub state : Stage
  pub server_x25519_pub : Bytes
  pub client_x25519_pub : Bytes
  pub client_ed25519_pub : Bytes
  pub ecdh_secret : Bytes
  pub aes_ctx : Option C

abbrev pub new_session : {C : Type 0} → Session C
new_session = record {
  state = fresh;
  server_x25519_pub = [];
  client_x25519_pub = [];
  client_ed25519_pub = [];
  ecdh_secret = [];
  aes_ctx = none;
}

abbrev pub aes_key_salt : Bytes
aes_key_salt = codes "Pair-Verify-AES-Key"

abbrev pub aes_iv_salt : Bytes
aes_iv_salt = codes "Pair-Verify-AES-IV"

-- Bytes of the length that is asked for.
abbrev pub sized : ℕ → Bytes → Option Bytes
sized n b = if length b == n then some b else none

abbrev pub sized_result : ℕ → Option Bytes → Option Bytes
sized_result n none = none
sized_result n (some b) = sized n b

abbrev first_16 : Option Bytes → Option Bytes
first_16 none = none
first_16 (some digest) = some (take 16 digest)

abbrev both_of : Option Bytes → Option Bytes → Option (Bytes × Bytes)
both_of (some key) (some iv) = some (key, iv)
both_of (some key) none = none
both_of none iv = none

abbrev pub failed : {C : Type 0} → Session C → Session C × Option Bytes
failed s = (record s { state = rejected }, none)

-- The fields of the two messages, behind their flags.
abbrev pub x25519_of : Bytes → Bytes
x25519_of body = take 32 (drop 4 body)

abbrev pub ed25519_of : Bytes → Bytes
ed25519_of body = take 32 (drop 36 body)

abbrev pub signature_of : Bytes → Bytes
signature_of body = take 64 (drop 4 body)

module _ {E C : Type 0} (crypto : Crypto E C) where
  unfoldable pub extract_pub : E → Option Bytes
  extract_pub pair = sized_result 32 (crypto.raw_public_key pair)

  unfoldable pub x25519_derive : E → Bytes → Option Bytes
  x25519_derive pair peer = sized_result 32 (crypto.derive pair peer)

  unfoldable pub sha512_prefixed : Bytes → Bytes → Option Bytes
  sha512_prefixed salt secret = sized_result 64 (crypto.sha512 (salt ++ secret))

  unfoldable pub derive_aes_key_iv : Bytes → Option (Bytes × Bytes)
  derive_aes_key_iv secret =
      both_of (first_16 (sha512_prefixed aes_key_salt secret))
        (first_16 (sha512_prefixed aes_iv_salt secret))

  -- `EVP_EncryptUpdate` on 64 bytes, which has to give 64.
  abbrev full_block : Option (C × Bytes) → Option (C × Bytes)
  full_block none = none
  full_block (some (c, out)) = if length out == 64 then some (c, out) else none

  unfoldable pub crypt_64 : C → Bytes → Option (C × Bytes)
  crypt_64 c block = full_block (crypto.encrypt_update c block)

  -- Step 6 of `handle_message1`, and the steps before it, last first.
  abbrev pub respond_with : Option (C × Bytes) → Session C → Session C × Option Bytes
  respond_with none s = failed s
  respond_with (some (c, enc_sig)) s =
      (record s { aes_ctx = some c; state = round1_done }, some (s.server_x25519_pub ++ enc_sig))

  abbrev pub encrypt_with : Option C → Bytes → Session C → Session C × Option Bytes
  encrypt_with none signature s = failed (record s { aes_ctx = none })
  encrypt_with (some c) signature s =
      respond_with (crypt_64 c signature) (record s { aes_ctx = some c })

  abbrev pub sign_with : Option (Bytes × Bytes) → Session C → Session C × Option Bytes
  sign_with none s = failed s
  sign_with (some (key, iv)) s =
      let signature = crypto.sign (s.server_x25519_pub ++ s.client_x25519_pub) in
      if length signature == 64
      then encrypt_with (crypto.encrypt_init key iv) signature s
      else failed s

  abbrev pub key_with : Option Bytes → Session C → Session C × Option Bytes
  key_with none s = failed s
  key_with (some shared) s =
      sign_with (derive_aes_key_iv shared) (record s { ecdh_secret = shared })

  abbrev pub agree_with : E → Option Bytes → Session C → Session C × Option Bytes
  agree_with pair none s = failed (record s { server_x25519_pub = [] })
  agree_with pair (some key) s =
      key_with (x25519_derive pair s.client_x25519_pub) (record s { server_x25519_pub = key })

  abbrev pub start_with : Option E → Session C → Session C × Option Bytes
  start_with none s = failed s
  start_with (some pair) s = agree_with pair (extract_pub pair) s

  -- What `handle_message1` leaves, and its output where it returns true.
  unfoldable pub handle_message1 : Option E → Bytes → Session C → Session C × Option Bytes
  handle_message1 ephemeral body s =
      if ltb (length body) 68
      then failed s
      else start_with ephemeral
          (record s { client_x25519_pub = x25519_of body; client_ed25519_pub = ed25519_of body })

  -- The check of the signature in `handle_message2`.
  abbrev pub check_with : Option (C × Bytes) → Session C → Session C × Bool
  check_with none s = (record s { state = rejected }, false)
  check_with (some (c, client_sig)) s =
      if crypto.digest_verify s.client_ed25519_pub (s.client_x25519_pub ++ s.server_x25519_pub)
        client_sig
      then (record s { aes_ctx = some c; state = verified }, true)
      else (record s { aes_ctx = some c; state = rejected }, false)

  abbrev pub decrypt_with : Option C → Bytes → Option (C × Bytes)
  decrypt_with none enc_sig = none
  decrypt_with (some c) enc_sig = crypt_64 c enc_sig

  abbrev pub is_round1_done : Stage → Bool
  is_round1_done round1_done = true
  is_round1_done _ = false

  unfoldable pub handle_message2 : Bytes → Session C → Session C × Bool
  handle_message2 body s =
      if is_round1_done s.state
      then (if ltb (length body) 68
          then (record s { state = rejected }, false)
          else check_with (decrypt_with s.aes_ctx (signature_of body)) s)
      else (record s { state = rejected }, false)

  -- A request for `/pair-verify`, with the key pair that the generator has for it.
  abbrev pub Request : Type 0
  Request = Bytes × Option E

  -- Status and body of the response.
  abbrev pub Response : Type 0
  Response = ℕ × Bytes

  abbrev pub opened : Option (Session C) → Session C
  opened none = new_session
  opened (some s) = s

  abbrev pub respond1 : Session C × Option Bytes → Option (Session C) × Response
  respond1 (s, none) = (some s, (470, []))
  respond1 (s, some out) = (some s, (200, out))

  abbrev pub respond2 : Session C × Bool → Option (Session C) × Response
  respond2 (s, ok) = (some s, (if ok then 200 else 470, []))

  unfoldable pub handle_pair_verify : Request → Option (Session C) → Option (Session C) × Response
  handle_pair_verify (body, ephemeral) session =
      if ltb (length body) 4
      then (session, (400, []))
      else if get_or body 0 0 == 0
      then respond2 (handle_message2 body (opened session))
      else respond1 (handle_message1 ephemeral body (opened session))

  -- The session of a connection after its requests, of which the last stands first.
  unfoldable pub session_after : List Request → Option (Session C)
  session_after [] = none
  session_after (r ∷ earlier) = (handle_pair_verify r (session_after earlier)).0
