-- ===== src/Secure/Agreement.antt =====
-- The two sides of a session derive the same keys.
use iran_remote_play.Prelude.{
  ◌≡◌, refl, sym, ◌∙◌, ◌⊎◌, inl, inr, Option, none, some, [], ◌∷◌, Bool, true, false, ◌&&◌, ◌==◌,
  length, arith, Bool-cases,
}
use iran_remote_play.Prelude.Bytes.{Bytes}
use iran_remote_play.Secure.Crypto.{Cng}
use iran_remote_play.Secure.Channel.{
  SecureChannel, lex_le, key_salt, keyed, session_okm, finish, public_key_bytes, okm_length,
}

lex_le-total : (xs ys : Bytes) → lex_le xs ys ≡ false → lex_le ys xs ≡ true
unfolding lex_le
lex_le-total [] ys h = cc
lex_le-total (x ∷ xs) [] h = refl
lex_le-total (x ∷ xs) (y ∷ ys) h = ground (arith, lex_le-total xs ys)

lex_le-antisym : (xs ys : Bytes) → lex_le xs ys ≡ true → lex_le ys xs ≡ true → xs ≡ ys
unfolding lex_le
lex_le-antisym [] [] h k = refl
lex_le-antisym [] (y ∷ ys) h k = cc
lex_le-antisym (x ∷ xs) [] h k = cc
lex_le-antisym (x ∷ xs) (y ∷ ys) h k =
    let e : x ≡ y = ground arith in let t : xs ≡ ys = ground (arith, lex_le-antisym xs ys) in cc

-- The salts are ordered, so that both sides mix them in alike.
key_salt_comm : (code a b : Bytes) → key_salt code a b ≡ key_salt code b a
unfolding key_salt
key_salt_comm code a b = elim (Bool-cases (lex_le a b)) [
  | inr n ↦ rw (n, lex_le-total a b n) refl
  | inl y ↦ elim (Bool-cases (lex_le b a)) [
    | inl z ↦ rw (lex_le-antisym a b y z) refl
    | inr m ↦ rw (y, m) refl
  ]
]

-- Two channels whose keys belong together.
abbrev pub AreMatched : SecureChannel → SecureChannel → Type 0
AreMatched a b =
    (a.active ≡ b.active)
    × (a.send_key ≡ b.recv_key)
    × (a.recv_key ≡ b.send_key)
    × (a.nonce_salt ≡ b.nonce_salt)

module _ (cng : Cng) where
  session_okm_comm :
      (shared a b code : Bytes) → session_okm cng shared a b code ≡ session_okm cng shared b a code
  unfolding session_okm
  session_okm_comm shared a b code = rw (key_salt_comm code a b) refl

  -- How `finish` ends, from the checks of the salts and from the secret.
  ready : Bytes → Bytes → Option Bytes → Bytes → Bool
  ready a b none code = false
  ready a b (some shared) code =
      (length a == 16)
      && (length b == 16)
      && (length shared == 32)
      && (length (session_okm cng shared a b code) == okm_length)

  finish-ready :
      (c : SecureChannel) (private_key our_salt peer_public peer_salt code : Bytes)
      (we_are_host : Bool) (o : Option Bytes)
      → length peer_public ≡ public_key_bytes
      → cng.agree private_key peer_public ≡ o
      → (finish cng c private_key our_salt peer_public peer_salt code we_are_host).0
        ≡ ready our_salt peer_salt o code
  unfolding finish ready
  finish-ready c k a p b code host none l e = rw (l, e) (ground arith)
  finish-ready c k a p b code host (some shared) l e = rw (l, e) (ground arith)

  ready_comm : (a b : Bytes) (o : Option Bytes) (code : Bytes) → ready a b o code ≡ ready b a o code
  unfolding ready
  ready_comm a b none code = refl
  ready_comm a b (some shared) code = rw (session_okm_comm shared a b code) (ground arith)

  okm_of : Option Bytes → Bytes → Bytes → Bytes → Bytes
  okm_of none a b code = []
  okm_of (some shared) a b code = session_okm cng shared a b code

  okm_of_comm : (o : Option Bytes) (a b code : Bytes) → okm_of o a b code ≡ okm_of o b a code
  unfolding okm_of
  okm_of_comm none a b code = refl
  okm_of_comm (some shared) a b code = session_okm_comm shared a b code

  finish-keyed :
      (c : SecureChannel) (private_key our_salt peer_public peer_salt code : Bytes)
      (we_are_host : Bool) (o : Option Bytes)
      → length peer_public ≡ public_key_bytes
      → cng.agree private_key peer_public ≡ o
      → ready our_salt peer_salt o code ≡ true
      → (finish cng c private_key our_salt peer_public peer_salt code we_are_host).1
        ≡ keyed (record c { active = false }) (okm_of o our_salt peer_salt code) we_are_host
  unfolding finish ready okm_of
  finish-keyed c k a p b code host none l e r = cc
  finish-keyed c k a p b code host (some shared) l e r = rw (l, e) (ground arith)

  -- When ECDH gives both sides the same outcome and the public keys have their size, `finish` ends
  -- alike for the host and for the client of a session, which enter the same code and swap their
  -- salts; and when it succeeds, each sends with the key the other receives with, both with the same
  -- salt for the nonces, and both channels are active.
  pub finish-AreMatched :
      (host client : SecureChannel)
      (host_private host_public host_salt client_private client_public client_salt code : Bytes)
      → length host_public ≡ public_key_bytes
      → length client_public ≡ public_key_bytes
      → cng.agree host_private client_public ≡ cng.agree client_private host_public
      → let h = finish cng host host_private host_salt client_public client_salt code true in
        let c = finish cng client client_private client_salt host_public host_salt code false in
        (h.0 ≡ c.0) × ((h.0 ≡ false) ⊎ ((h.1.active ≡ true) × AreMatched h.1 c.1))
  unfolding keyed
  finish-AreMatched host client hk hp hs ck cp cs code lh lc agreed =
      let o = cng.agree ck hp in
      let fh = finish-ready host hk hs cp cs code true o lc agreed in
      let fc = finish-ready client ck cs hp hs code false o lh refl in
      (
        fh ∙ (ready_comm hs cs o code ∙ sym fc),
        elim (Bool-cases (ready hs cs o code)) [
          | inr n ↦ inl (fh ∙ n)
          | inl y ↦ inr (
              rw
                (
                  finish-keyed host hk hs cp cs code true o lc agreed y,
                  finish-keyed client ck cs hp hs code false o lh refl
                      (sym (ready_comm hs cs o code) ∙ y),
                  okm_of_comm o hs cs code,
                )
                (refl, (refl, refl, refl, refl)))
        ],
      )
