-- ===== src/Secure/Nonces.antt =====
-- The nonces that `seal` uses.
use iran_remote_play.Prelude.{
  ℕ, ◌+◌, ◌*◌, ◌%◌, ◌^◌, ◌≤◌, ◌<◌, ◌≡◌, refl, sym, ap, ◌∙◌, ◌≢◌, inl, inr, Option, none, some, List,
  [], ◌∷◌, ◌++◌, ◌||◌, not, ltb, ◌==◌, length, drop, arith, Bool-cases, drop-append,
}
use iran_remote_play.Prelude.Bytes.{Bytes, le_bytes, from_le, from_le-le_bytes}
use iran_remote_play.Secure.Crypto.{Cng}
use iran_remote_play.Secure.Channel.{SecureChannel, seal, seal_result, nonce, bound_header}

-- The channel after each of some calls of `seal`.
unfoldable pub seal_all : Cng → SecureChannel → List (Bytes × Bytes) → SecureChannel
seal_all cng c [] = c
seal_all cng c ((header, payload) ∷ rest) = seal_all cng (seal cng c header payload).1 rest

-- The ways that a call of `seal` ends: refused without a change, or with the counter moved on.
seal_cases :
    (P : Option Bytes × SecureChannel → Type 0) (cng : Cng) (c : SecureChannel)
    (header payload : Bytes)
    → P (none, c)
    → P (none, record c { send_counter = (c.send_counter + 1) % 2 ^ 64 })
    → ((out : Bytes)
        → P (
          some out,
          record c {
            send_counter = (c.send_counter + 1) % 2 ^ 64;
            sealed = (c.sealed + 1) % 2 ^ 64;
          },
        ))
    → P (seal cng c header payload)
unfolding seal
seal_cases P cng c header payload refused failed sent =
    elim (Bool-cases (not c.active || ltb (64 * 1024) (length payload))) [
      | inl bad ↦ rw bad refused
      | inr good ↦ rw good (elim (Bool-cases (c.send_counter == 0)) [
        | inl zero_counter ↦ rw zero_counter failed
        | inr used ↦ rw used (
            result_cases (
              cng.encrypt c.send_key (nonce c c.send_counter) (le_bytes 8 c.send_counter ++ payload)
                (bound_header header)))
      ])
    ]
  where
    result_cases :
        (out : Option (Bytes × Bytes))
        → P (seal_result (record c { send_counter = (c.send_counter + 1) % 2 ^ 64 }) out)
    result_cases none = unfold seal_result in failed
    result_cases (some (ciphertext, tag)) = unfold seal_result in sent (ciphertext ++ tag)

-- `c'` has the keys of `c` and a counter that is not behind.
pub record IsAfter (c c' : SecureChannel) : Type 0 where
  pub key : c'.send_key ≡ c.send_key
  pub salt : c'.nonce_salt ≡ c.nonce_salt
  pub counted : c.send_counter ≤ c'.send_counter

seal-IsAfter :
    (cng : Cng) (c : SecureChannel) (header payload : Bytes)
    → c.send_counter + 1 < 2 ^ 64
    → IsAfter c (seal cng c header payload).1
seal-IsAfter cng c header payload room =
    seal_cases (λ r. IsAfter c r.1) cng c header payload
      (record { key = refl; salt = refl; counted = omega arith })
      (record { key = refl; salt = refl; counted = omega (arith, room) })
      (λ out. record { key = refl; salt = refl; counted = omega (arith, room) })

-- One call moves the counter by one at most.
seal-step :
    (cng : Cng) (c : SecureChannel) (header payload : Bytes)
    → (seal cng c header payload).1.send_counter ≤ c.send_counter + 1
seal-step cng c header payload =
    seal_cases (λ r. r.1.send_counter ≤ c.send_counter + 1) cng c header payload (omega arith)
      (omega arith) (λ out. omega arith)

seal-counts :
    (cng : Cng) (c : SecureChannel) (header payload out : Bytes)
    → c.send_counter + 1 < 2 ^ 64
    → (seal cng c header payload).0 ≡ some out
    → c.send_counter < (seal cng c header payload).1.send_counter
seal-counts cng c header payload out room =
    seal_cases (λ r. r.0 ≡ some out → c.send_counter < r.1.send_counter) cng c header payload
      (λ h. cc) (λ h. cc) (λ out' h. omega (arith, room))

seal_all-IsAfter :
    (cng : Cng) (c : SecureChannel) (inputs : List (Bytes × Bytes))
    → c.send_counter + length inputs < 2 ^ 64
    → IsAfter c (seal_all cng c inputs)
unfolding seal_all
seal_all-IsAfter cng c [] room = record { key = refl; salt = refl; counted = omega arith }
seal_all-IsAfter cng c ((header, payload) ∷ rest) room =
    let c' = (seal cng c header payload).1 in
    let step = seal-step cng c header payload in
    let first = seal-IsAfter cng c header payload (omega (arith, room)) in
    let others =
      seal_all-IsAfter cng (seal cng c header payload).1 rest (omega (arith, room, step)) in
    record {
      key = others.key ∙ first.key;
      salt = others.salt ∙ first.salt;
      counted = omega (arith, first.counted, others.counted);
    }

le_bytes_injective : (v w : ℕ) → v < 2 ^ 64 → w < 2 ^ 64 → le_bytes 8 v ≡ le_bytes 8 w → v ≡ w
le_bytes_injective v w hv hw same =
    sym (from_le-le_bytes 8 v hv) ∙ (ap from_le same ∙ from_le-le_bytes 8 w hw)

seal_all-bound :
    (cng : Cng) (c : SecureChannel) (inputs : List (Bytes × Bytes))
    → (seal_all cng c inputs).send_counter ≤ c.send_counter + length inputs
unfolding seal_all
seal_all-bound cng c [] = omega arith
seal_all-bound cng c ((header, payload) ∷ rest) =
    let step = seal-step cng c header payload in
    let others = seal_all-bound cng (seal cng c header payload).1 rest in
    omega (arith, step, others)

append_injective : (xs ys zs : Bytes) → xs ++ ys ≡ xs ++ zs → ys ≡ zs
append_injective xs ys zs same =
    sym (drop-append xs ys (length xs) refl)
    ∙ (ap (drop (length xs)) same ∙ drop-append xs zs (length xs) refl)

pub nonce_injective :
    (c c' : SecureChannel) (v w : ℕ)
    → v < 2 ^ 64
    → w < 2 ^ 64
    → c'.nonce_salt ≡ c.nonce_salt
    → nonce c' w ≡ nonce c v
    → w ≡ v
nonce_injective c c' v w hv hw salts same = le_bytes_injective w v hw hv (
    append_injective c.nonce_salt (le_bytes 8 w) (le_bytes 8 v)
      (ap (λ salt. salt ++ le_bytes 8 w) (sym salts) ∙ same))

-- After a call of `seal` that gave a datagram, and any further calls, as long as the counter cannot
-- wrap around, the channel still has its key and the next call uses another nonce than that call did.
pub seal_fresh_nonce :
    (cng : Cng) (c : SecureChannel) (header payload out : Bytes) (between : List (Bytes × Bytes))
    → c.send_counter + length between + 2 < 2 ^ 64
    → (seal cng c header payload).0 ≡ some out
    → let later = seal_all cng (seal cng c header payload).1 between in
      (later.send_key ≡ c.send_key) × (nonce later later.send_counter ≢ nonce c c.send_counter)
seal_fresh_nonce cng c header payload out between room h =
    let c' = (seal cng c header payload).1 in
    let step = seal-step cng c header payload in
    let one = seal-IsAfter cng c header payload (omega (arith, room)) in
    let more = seal-counts cng c header payload out (omega (arith, room)) h in
    let rest =
      seal_all-IsAfter cng (seal cng c header payload).1 between (omega (arith, room, step)) in
    let bound = seal_all-bound cng (seal cng c header payload).1 between in
    (
      rest.key ∙ one.key,
      λ same.
          let equal =
            nonce_injective c (seal_all cng (seal cng c header payload).1 between) c.send_counter _
              (omega (arith, room)) (omega (arith, room, step, bound)) (rest.salt ∙ one.salt)
              same in
          omega (arith, equal, more, rest.counted),
    )
