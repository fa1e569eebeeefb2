-- ===== src/PairVerify/Working.antt =====
-- A sender, and what it relies on.
use air_play_windows.Base.{length, Bytes, ◌≡◌, true, some}
use air_play_windows.PairVerify.{Crypto}

-- What the calls of OpenSSL promise where they do not fail: keys of 32 bytes on which both sides
-- agree, digests and signatures of 64 bytes, and a cipher that is its own inverse.
pub record Working {E C : Type 0} (crypto : Crypto E C) : Type 0 where
  pub public : E → Bytes
  pub shared : E → E → Bytes
  pub digest : Bytes → Bytes
  pub context : Bytes → Bytes → C
  pub stream : C → Bytes → Bytes
  pub next : C → Bytes → C
  pub raw_public_key_lem : (e : E) → crypto.raw_public_key e ≡ some (public e)
  pub derive_lem : (e f : E) → crypto.derive e (public f) ≡ some (shared e f)
  pub sha512_lem : (b : Bytes) → crypto.sha512 b ≡ some (digest b)
  pub encrypt_init_lem :
      (key iv : Bytes)
      → length key ≡ 16
      → length iv ≡ 16
      → crypto.encrypt_init key iv ≡ some (context key iv)
  pub encrypt_update_lem :
      (c : C) (b : Bytes) → crypto.encrypt_update c b ≡ some (next c b, stream c b)
  pub length-public : (e : E) → length (public e) ≡ 32
  pub length-shared : (e f : E) → length (shared e f) ≡ 32
  pub length-digest : (b : Bytes) → length (digest b) ≡ 64
  pub length-sign : (b : Bytes) → length (crypto.sign b) ≡ 64
  pub length-stream : (c : C) (b : Bytes) → length (stream c b) ≡ length b
  pub shared_comm : (e f : E) → shared e f ≡ shared f e
  pub stream_twice : (c : C) (b : Bytes) → stream c (stream c b) ≡ b
  pub next-stream : (c : C) (b : Bytes) → next c (stream c b) ≡ next c b

-- A sender: its key pair for the exchange, and its signing key.
pub record Sender {E C : Type 0} (crypto : Crypto E C) : Type 0 where
  pub pair : E
  pub signing_key : Bytes
  pub sign : Bytes → Bytes
  pub length-signing_key : length signing_key ≡ 32
  pub length-signed : (b : Bytes) → length (sign b) ≡ 64
  pub accepted : (b : Bytes) → crypto.digest_verify signing_key b (sign b) ≡ true
