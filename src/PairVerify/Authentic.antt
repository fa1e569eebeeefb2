-- ===== src/PairVerify/Authentic.antt =====
-- A connection is verified only by the proof that the protocol asks for, whatever is sent on it.
use air_play_windows.PairVerify.Settled.{Settled, handle_message1-Settled, handle_message2-ends}
use air_play_windows.PairVerify.Honest.{proof}
use air_play_windows.Base.{
  ltb, ◌==◌, if◌then◌else◌, ==_iff, Bool-cases, length, get_or, Bytes, ◌≤◌, ◌≡◌, refl, sym, ap, ◌∙◌,
  subst, ◌≢◌, inl, inr, true, false, Option, none, some, List, [], ◌∷◌, ◌++◌, arith,
}
use air_play_windows.PairVerify.Rounds.{Opened, handle_message1-Opened, handle_message2-verified}
use air_play_windows.PairVerify.{
  Crypto, Stage, round1_done, verified, Session, x25519_of, ed25519_of, signature_of, crypt_64,
  handle_message1, handle_message2, Request, opened, respond1, handle_pair_verify, session_after,
}

module _ {E C : Type 0} (crypto : Crypto E C) where
  -- The first message is an opening, and the second one carries, encrypted with the cipher that the
  -- first one left, a signature that the key shown in the first one made of both public keys.
  pub record Proved (first second : Request crypto) : Type 0 where
    pub session : Session C
    pub opening : Opened crypto first session
    pub after : C
    pub client_sig : Bytes
    pub opens : get_or first.0 0 0 ≢ 0
    pub closes : get_or second.0 0 0 ≡ 0
    pub enough : 68 ≤ length second.0
    pub decrypted :
        crypt_64 crypto opening.cipher (signature_of second.0) ≡ some (after, client_sig)
    pub signed :
        crypto.digest_verify (ed25519_of first.0) (x25519_of first.0 ++ opening.public) client_sig
        ≡ true

  -- The requests that have a body for a round.
  unfoldable pub heard : List (Request crypto) → List (Request crypto)
  heard [] = []
  heard (r ∷ earlier) = let rest = heard earlier in if ltb (length r.0) 4 then rest else r ∷ rest

  abbrev stage_of : Option (Session C) → Stage
  stage_of session = (opened crypto session).state

  -- A request that is not heard changes nothing, and of the others the first byte says the round.
  handle_pair_verify_short :
      (r : Request crypto) (session : Option (Session C))
      → ltb (length r.0) 4 ≡ true
      → (handle_pair_verify crypto r session).0 ≡ session
  unfolding handle_pair_verify
  handle_pair_verify_short (body, ephemeral) session short = ground (arith, short)

  handle_pair_verify_round2 :
      (r : Request crypto) (session : Option (Session C))
      → ltb (length r.0) 4 ≡ false
      → get_or r.0 0 0 == 0 ≡ true
      → (handle_pair_verify crypto r session).0
        ≡ some (handle_message2 crypto r.0 (opened crypto session)).0
  unfolding handle_pair_verify
  handle_pair_verify_round2 (body, ephemeral) session long closes = rw (long, closes)

  respond1-session : (x : Session C × Option Bytes) → (respond1 crypto x).0 ≡ some x.0
  respond1-session (s, none) = refl
  respond1-session (s, some out) = refl

  handle_pair_verify_round1 :
      (r : Request crypto) (session : Option (Session C))
      → ltb (length r.0) 4 ≡ false
      → get_or r.0 0 0 == 0 ≡ false
      → (handle_pair_verify crypto r session).0
        ≡ some (handle_message1 crypto r.1 r.0 (opened crypto session)).0
  unfolding handle_pair_verify
  handle_pair_verify_round1 (body, ephemeral) session long opens =
      rw (long, opens)
        (respond1-session (handle_message1 crypto ephemeral body (opened crypto session)))

  verified-Settled : (x : Session C × Option Bytes) → Settled crypto x → x.0.state ≢ verified
  verified-Settled (s, out) h k = elim h [ inl done ↦ cc | inr fails ↦ cc ]

  -- A session is half open only behind the message that opened it.
  round1_done-Opened :
      (rs : List (Request crypto))
      → stage_of (session_after crypto rs) ≡ round1_done
      → (first : Request crypto) × (older : List (Request crypto)) × (heard rs ≡ first ∷ older)
        × (get_or first.0 0 0 ≢ 0)
        × Opened crypto first (opened crypto (session_after crypto rs))
  unfolding session_after heard
  round1_done-Opened [] h = absurd cc
  round1_done-Opened (r ∷ earlier) h = elim (Bool-cases (ltb (length r.0) 4)) [
    | inl short ↦
        let same = handle_pair_verify_short r (session_after crypto earlier) short in
        let (first, older, is, opens, opened_by) =
          round1_done-Opened earlier (subst (λ x. stage_of x ≡ round1_done) same h) in
        (
          first,
          older,
          ground (arith, short, is),
          opens,
          subst (λ x. Opened crypto first (opened crypto x)) (sym same) opened_by,
        )
    | inr long ↦ elim (Bool-cases (get_or r.0 0 0 == 0)) [
      | inl closes ↦
          let same = handle_pair_verify_round2 r (session_after crypto earlier) long closes in
          absurd (
            handle_message2-ends crypto r.0 (opened crypto (session_after crypto earlier))
              (subst (λ x. stage_of x ≡ round1_done) same h))
      | inr opens ↦
          let same = handle_pair_verify_round1 r (session_after crypto earlier) long opens in
          let done = subst (λ x. stage_of x ≡ round1_done) same h in
          (
            r,
            heard earlier,
            ground (arith, long),
            (λ e. ground (arith, opens, e)),
            subst (λ x. Opened crypto r (opened crypto x)) (sym same)
                (handle_message1-Opened crypto r.1 r.0
                  (opened crypto (session_after crypto earlier)) done),
          )
    ]
  ]

  proved :
      (first second : Request crypto) (s : Session C)
      → Opened crypto first s
      → get_or first.0 0 0 ≢ 0
      → get_or second.0 0 0 ≡ 0
      → (handle_message2 crypto second.0 s).0.state ≡ verified
      → Proved first second
  proved first second s opened_by opens closes h =
      let (c, d, client_sig, ready, has, enough, works, good) =
        handle_message2-verified crypto second.0 s h in
      let after = opened_by.after in
      let same : c ≡ opened_by.cipher = ground (arith, has, ap (λ x. x.aes_ctx) after) in
      record {
        session = s;
        opening = opened_by;
        after = d;
        client_sig = client_sig;
        opens = opens;
        closes = closes;
        enough = enough;
        decrypted = ap (λ k. crypt_64 crypto k (signature_of second.0)) (sym same) ∙ works;
        signed =
            subst
              (λ x.
                crypto.digest_verify x.client_ed25519_pub
                  (x.client_x25519_pub ++ x.server_x25519_pub) client_sig
                ≡ true)
              after good;
      }

  -- Whatever is sent on a connection, its session is verified only when the last two requests of at
  -- least four bytes are a first message that was answered and a second one that carries, encrypted
  -- with the cipher that the answer left, a signature which OpenSSL accepts for both public keys
  -- under the key of that first message.
  pub session_after-Proved :
      (rs : List (Request crypto))
      → (opened crypto (session_after crypto rs)).state ≡ verified
      → (first : Request crypto) × (second : Request crypto) × (older : List (Request crypto))
        × (heard rs ≡ second ∷ (first ∷ older))
        × Proved first second
  unfolding session_after heard
  session_after-Proved [] h = absurd cc
  session_after-Proved (r ∷ earlier) h = elim (Bool-cases (ltb (length r.0) 4)) [
    | inl short ↦
        let same = handle_pair_verify_short r (session_after crypto earlier) short in
        let (first, second, older, is, proof) =
          session_after-Proved earlier (subst (λ x. stage_of x ≡ verified) same h) in
        (first, second, older, ground (arith, short, is), proof)
    | inr long ↦ elim (Bool-cases (get_or r.0 0 0 == 0)) [
      | inr opens ↦
          let same = handle_pair_verify_round1 r (session_after crypto earlier) long opens in
          let s = opened crypto (session_after crypto earlier) in
          absurd (
            verified-Settled (handle_message1 crypto r.1 r.0 s)
              (handle_message1-Settled crypto r.1 r.0 s)
              (subst (λ x. stage_of x ≡ verified) same h))
      | inl closes ↦
          let same = handle_pair_verify_round2 r (session_after crypto earlier) long closes in
          let s = opened crypto (session_after crypto earlier) in
          let done : (handle_message2 crypto r.0 s).0.state ≡ verified =
            subst (λ x. stage_of x ≡ verified) same h in
          let (c, d, client_sig, ready, has, enough, works, good) =
            handle_message2-verified crypto r.0 s done in
          let (first, older, is, opens, opened_by) = round1_done-Opened earlier ready in
          (
            first,
            r,
            older,
            ground (arith, long, is),
            proved first r s opened_by opens ((==_iff (get_or r.0 0 0) 0).0 closes) done,
          )
    ]
  ]
