-- ===== src/PairVerify/Tests.antt =====
-- A toy cryptography with which a sender is verified.
use air_play_windows.PairVerify.Working.{Working, Sender}
use air_play_windows.Base.{
  ◌==◌, if◌then◌else◌, length, get_or, Bytes, equal, equal_refl, ℕ, zero, suc, ◌+◌, ◌≡◌, refl, ap,
  none, some, List, [], ◌∷◌, arith,
}
use air_play_windows.PairVerify.Authentic.{Proved, heard, session_after-Proved}
use air_play_windows.PairVerify.Honest.{hello, read_signature, proof, handle_pair_verify-sender}
use air_play_windows.PairVerify.{
  Crypto, verified, Session, extract_pub, x25519_derive, sha512_prefixed, derive_aes_key_iv,
  crypt_64, handle_message1, handle_message2, Request, opened, handle_pair_verify, session_after,
}

abbrev repeat : ℕ → ℕ → Bytes
repeat zero b = []
repeat (suc n) b = b ∷ repeat n b

-- An exchange of two byte values.
abbrev turned : Bytes → Bytes
turned [] = []
turned (b ∷ bs) = (if b == 5 then 9 else if b == 9 then 5 else b) ∷ turned bs

turned_twice : (b : Bytes) → turned (turned b) ≡ b
turned_twice [] = refl
turned_twice (x ∷ xs) = ground (arith, turned_twice xs)

length-turned : (b : Bytes) → length (turned b) ≡ length b
length-turned [] = refl
length-turned (x ∷ xs) = ap suc (length-turned xs)

abbrev toy : Crypto ℕ ℕ
toy = record {
  raw_public_key = λ e. some (repeat 32 e);
  derive = λ e key. some (repeat 32 (e + get_or key 0 0));
  sha512 = λ b. some (repeat 64 (get_or b 30 0));
  sign = λ b. repeat 64 9;
  digest_verify = λ key b sig. equal sig (repeat 64 (get_or key 0 0));
  encrypt_init = λ key iv. some 0;
  encrypt_update = λ c b. some (suc c, turned b);
}

abbrev toy_works : Working toy
toy_works = record {
  public = λ e. repeat 32 e;
  shared = λ e f. repeat 32 (e + f);
  digest = λ b. repeat 64 (get_or b 30 0);
  context = λ key iv. 0;
  stream = λ c b. turned b;
  next = λ c b. suc c;
  raw_public_key_lem = λ e. refl;
  derive_lem = λ e f. refl;
  sha512_lem = λ b. refl;
  encrypt_init_lem = λ key iv h k. refl;
  encrypt_update_lem = λ c b. refl;
  length-public = λ e. refl;
  length-shared = λ e f. refl;
  length-digest = λ b. refl;
  length-sign = λ b. refl;
  length-stream = λ c b. length-turned b;
  shared_comm = λ e f. ap (repeat 32) (omega arith);
  stream_twice = λ c b. turned_twice b;
  next-stream = λ c b. refl;
}

abbrev phone : Sender toy
phone = record {
  pair = 3;
  signing_key = repeat 32 5;
  sign = λ b. repeat 64 5;
  length-signing_key = refl;
  length-signed = λ b. refl;
  accepted = λ b. equal_refl (repeat 64 5);
}

handle_pair_verify-sender_example :
    (s : Session ℕ) × (t : Session ℕ) × (response : Bytes) × (handle_pair_verify toy
        (hello toy_works phone, some 4)
        none
      ≡ (some s, (200, response)))
    × (read_signature toy_works phone 4 response ≡ repeat 64 9)
    × (handle_pair_verify toy (proof toy_works phone 4 response, none) (some s)
        ≡ (some t, (200, [])))
    × (t.state ≡ verified)
    × (t.ecdh_secret ≡ repeat 32 7)
handle_pair_verify-sender_example = handle_pair_verify-sender toy_works phone 4 none none

-- The requests of the phone, the last one first.
abbrev exchange : List (Request toy)
exchange = (0 ∷ (0 ∷ (0 ∷ (0 ∷ repeat 64 9))), none) ∷ ((hello toy_works phone, some 4) ∷ [])

exchange_verified : (opened toy (session_after toy exchange)).state ≡ verified
unfolding session_after handle_pair_verify handle_message1 handle_message2 extract_pub x25519_derive
    derive_aes_key_iv sha512_prefixed crypt_64 equal
exchange_verified = refl

session_after-Proved_example :
    (first : Request toy) × (second : Request toy) × (older : List (Request toy)) × (heard toy
        exchange
      ≡ second ∷ (first ∷ older))
    × Proved toy first second
session_after-Proved_example = session_after-Proved toy exchange exchange_verified

-- A second message alone is refused.
unopened_test :
    (handle_pair_verify toy (0 ∷ (0 ∷ (0 ∷ (0 ∷ repeat 64 9))), none) none).1 ≡ (470, [])
unfolding handle_pair_verify handle_message2
unopened_test = refl
