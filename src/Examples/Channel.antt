-- ===== src/Examples/Channel.antt =====
-- The secure channel over a toy cipher.
use iran_remote_play.Prelude.{
  ℕ, ◌+◌, ◌-◌, ◌%◌, ◌^◌, ◌<◌, ◌≡◌, refl, sym, ap, ◌∙◌, ◌≢◌, inl, inr, Option, none, some, [], ◌∷◌,
  ◌++◌, map, Bool, true, false, ◌&&◌, if◌then◌else◌, ◌==◌, length, take, replicate, arith,
  Bool-cases, length-append, All, take-append,
}
use iran_remote_play.Prelude.{length-map}
use iran_remote_play.Prelude.Bytes.{Bytes, le_bytes, from_le}
use iran_remote_play.Secure.Crypto.{Cng}
use iran_remote_play.Secure.Channel.{
  SecureChannel, seal, seal_result, open_sealed, open_result, counter_of, is_replay, nonce,
}
use iran_remote_play.Secure.Replay.{open_all, open_replay}
use iran_remote_play.Secure.Nonces.{seal_all, seal_fresh_nonce}
use iran_remote_play.Secure.Sealed.{open_sealed-seal}

abbrev flip : ℕ → ℕ
flip b = if b % 2 == 0 then b + 1 else b - 1

flip-flip : (b : ℕ) → flip (flip b) ≡ b
flip-flip b = ground arith

flip_all : (bs : Bytes) → map flip (map flip bs) ≡ bs
flip_all [] = refl
flip_all (b ∷ bs) = rw (flip-flip b, flip_all bs) refl

abbrev same_bytes : Bytes → Bytes → Bool
same_bytes [] [] = true
same_bytes [] (y ∷ ys) = false
same_bytes (x ∷ xs) [] = false
same_bytes (x ∷ xs) (y ∷ ys) = x == y && same_bytes xs ys

same_bytes_self : (xs : Bytes) → same_bytes xs xs ≡ true
same_bytes_self [] = refl
same_bytes_self (x ∷ xs) = let rest = same_bytes_self xs in ground (arith, rest)

same_bytes_eq : (xs ys : Bytes) → same_bytes xs ys ≡ true → xs ≡ ys
same_bytes_eq [] [] h = refl
same_bytes_eq [] (y ∷ ys) h = absurd cc
same_bytes_eq (x ∷ xs) [] h = absurd cc
same_bytes_eq (x ∷ xs) (y ∷ ys) h =
    let head : x ≡ y = ground (arith, h) in
    let tail = same_bytes_eq xs ys (ground (arith, h)) in rw (head, tail) refl

abbrev tag_of : Bytes → Bytes
tag_of used = used ++ replicate 4 0

abbrev toy_encrypt : Bytes → Bytes → Option (Bytes × Bytes)
toy_encrypt used plain = if length used == 12 then some (map flip plain, tag_of used) else none

-- Every byte has its lowest bit flipped, and the tag is the nonce.
abbrev pub toy : Cng
toy = record {
  hmac_sha256 = λ key text. replicate 32 0;
  agree = λ private_key peer. some (replicate 32 0);
  encrypt = λ key used plain aad. toy_encrypt used plain;
  decrypt = λ key used ciphertext tag aad.
      if same_bytes (tag_of used) tag then some (map flip ciphertext) else none;
}

toy_made :
    (used plain ciphertext tag : Bytes)
    → toy_encrypt used plain ≡ some (ciphertext, tag)
    → (length used ≡ 12) × (map flip plain ≡ ciphertext) × (tag_of used ≡ tag)
toy_made used plain ciphertext tag = elim (Bool-cases (length used == 12)) [
  | inl twelve ↦ rw twelve (λ h. (ground (arith, twelve), cc, cc))
  | inr other ↦ rw other (λ h. absurd cc)
]

toy_sizes :
    (key used plain aad ciphertext tag : Bytes)
    → toy.encrypt key used plain aad ≡ some (ciphertext, tag)
    → (length ciphertext ≡ length plain) × (length tag ≡ 16)
toy_sizes key used plain aad ciphertext tag h =
    let (twelve, body, end) = toy_made used plain ciphertext tag h in
    (
      ap length (sym body) ∙ length-map plain flip,
      ap length (sym end) ∙ (length-append used (replicate 4 0) ∙ omega (arith, twelve)),
    )

toy_decrypts :
    (key used plain aad ciphertext tag : Bytes)
    → toy.encrypt key used plain aad ≡ some (ciphertext, tag)
    → toy.decrypt key used ciphertext tag aad ≡ some plain
toy_decrypts key used plain aad ciphertext tag h =
    let (twelve, body, end) = toy_made used plain ciphertext tag h in
    rw (← body, ← end, same_bytes_self (tag_of used), flip_all plain) refl

toy_refuses :
    (key used other plain aad ciphertext tag : Bytes)
    → toy.encrypt key used plain aad ≡ some (ciphertext, tag)
    → length other ≡ length used
    → other ≢ used
    → toy.decrypt key other ciphertext tag aad ≡ none
toy_refuses key used other plain aad ciphertext tag h sized differs =
    let (twelve, body, end) = toy_made used plain ciphertext tag h in
    elim (Bool-cases (same_bytes (tag_of other) tag)) [
      | inl same ↦ absurd (
          differs (
            sym (take-append other (replicate 4 0) (length used) sized)
            ∙ (ap (take (length used)) (same_bytes_eq (tag_of other) tag same ∙ sym end)
                ∙ take-append used (replicate 4 0) (length used) refl)))
      | inr apart ↦ rw apart refl
    ]

abbrev pub ready_channel : SecureChannel
ready_channel = record {
  active = true;
  send_key = replicate 32 1;
  recv_key = replicate 32 1;
  nonce_salt = replicate 4 9;
  send_counter = 1;
  recv_highest = 0;
  recv_init = false;
  recv_window = replicate 64 0;
  sealed = 0;
  opened = 0;
  auth_failures = 0;
  replays_rejected = 0;
}

abbrev an_input : Bytes
an_input =
    0 ∷ 1 ∷ 1 ∷ 1 ∷ 1 ∷ 1 ∷ 1 ∷ 1 ∷ 6 ∷ 9 ∷ 9 ∷ 9 ∷ 9 ∷ 1 ∷ 0 ∷ 0 ∷ 0 ∷ 0 ∷ 0 ∷ 0 ∷ 0 ∷ 0 ∷ 0 ∷ 0
    ∷ 0 ∷ []

-- The receiver reads the counter 0x0101010101010100 from the ciphertext of counter 1.
open_sealed-seal_example :
    (open_sealed toy ready_channel (replicate 31 0) an_input).0
    ≡ (if counter_of an_input == 1 then some (7 ∷ []) else none)
unfolding seal seal_result le_bytes
open_sealed-seal_example =
    open_sealed-seal toy ready_channel ready_channel (replicate 31 0) (7 ∷ []) an_input toy_sizes
      toy_decrypts toy_refuses (omega arith) input_bytes refl refl refl refl refl
  where
    input_bytes : All (λ b. b < 256) an_input
    input_bytes = (
      omega arith,
      (
        omega arith,
        (
          omega arith,
          (
            omega arith,
            (
              omega arith,
              (
                omega arith,
                (
                  omega arith,
                  (
                    omega arith,
                    (
                      omega arith,
                      (
                        omega arith,
                        (
                          omega arith,
                          (
                            omega arith,
                            (
                              omega arith,
                              (
                                omega arith,
                                (
                                  omega arith,
                                  (
                                    omega arith,
                                    (
                                      omega arith,
                                      (
                                        omega arith,
                                        (
                                          omega arith,
                                          (
                                            omega arith,
                                            (
                                              omega arith,
                                              (
                                                omega arith,
                                                (omega arith, (omega arith, (omega arith, tt))),
                                              ),
                                            ),
                                          ),
                                        ),
                                      ),
                                    ),
                                  ),
                                ),
                              ),
                            ),
                          ),
                        ),
                      ),
                    ),
                  ),
                ),
              ),
            ),
          ),
        ),
      ),
    )

seal_fresh_nonce_example :
    let c = seal_all toy (seal toy ready_channel (replicate 31 0) (7 ∷ [])).1 [] in
    (c.send_key ≡ ready_channel.send_key) × (nonce c c.send_counter ≢ nonce ready_channel 1)
unfolding seal seal_result le_bytes
seal_fresh_nonce_example =
    seal_fresh_nonce toy ready_channel (replicate 31 0) (7 ∷ []) an_input [] (omega arith) refl

-- A cipher that changes nothing, so that a datagram is accepted.
abbrev pub clear : Cng
clear = record toy { decrypt = λ key used ciphertext tag aad. some ciphertext }

abbrev clear_input : Bytes
clear_input = 1 ∷ 0 ∷ 0 ∷ 0 ∷ 0 ∷ 0 ∷ 0 ∷ 0 ∷ 6 ∷ replicate 16 0

open_replay_example :
    let now =
      open_all clear (open_sealed clear ready_channel [] clear_input).1 (([], an_input) ∷ []) in
    open_sealed clear now [] clear_input
    ≡ (none, record now { replays_rejected = (now.replays_rejected + 1) % 2 ^ 64 })
unfolding open_sealed open_result is_replay from_le
open_replay_example =
    open_replay clear ready_channel [] clear_input (6 ∷ []) [] clear_input (([], an_input) ∷ [])
      refl refl refl (omega arith)
