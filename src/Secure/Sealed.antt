-- ===== src/Secure/Sealed.antt =====
-- What `open` makes of what the other side's `seal` sent.
use iran_remote_play.Prelude.{
  ℕ, ◌+◌, ◌-◌, ◌*◌, ◌%◌, ◌^◌, ◌≤◌, ◌<◌, ◌≡◌, refl, sym, ap, subst, ◌≢◌, inl, inr, Option, none,
  some, ◌++◌, true, false, ◌||◌, not, if◌then◌else◌, ltb, ◌==◌, length, arith, Bool-cases,
  length-append, All, take-append, drop-append,
}
use iran_remote_play.Prelude.Bytes.{
  Bytes, le_bytes, from_le-le_bytes, length-le_bytes, from_le_bound,
}
use native.Mathlib.Decide.{ℕ_discrete}
use iran_remote_play.Secure.Crypto.{Cng}
use iran_remote_play.Secure.Nonces.{nonce_injective}
use iran_remote_play.Secure.Channel.{
  SecureChannel, seal, seal_result, nonce, bound_header, open_sealed, open_result, counter_of,
  is_replay, accept,
}

-- The encryption that a successful call of `seal` made.
record Sealing (cng : Cng) (c : SecureChannel) (header payload input : Bytes) : Type 0 where
  pub ciphertext : Bytes
  pub tag : Bytes
  pub made :
      cng.encrypt c.send_key
        (nonce c c.send_counter)
        (le_bytes 8 c.send_counter ++ payload)
        (bound_header header)
      ≡ some (ciphertext, tag)
  pub joined : ciphertext ++ tag ≡ input

seal-Sealing :
    (cng : Cng) (c : SecureChannel) (header payload input : Bytes)
    → (seal cng c header payload).0 ≡ some input
    → Sealing cng c header payload input
unfolding seal
seal-Sealing cng c header payload input =
    elim (Bool-cases (not c.active || ltb (64 * 1024) (length payload))) [
      | inl bad ↦ rw bad (λ h. cc)
      | inr good ↦ rw good (elim (Bool-cases (c.send_counter == 0)) [
        | inl zero_counter ↦ rw zero_counter (λ h. cc)
        | inr used ↦ rw used (
            result_of
              (cng.encrypt c.send_key (nonce c c.send_counter)
                (le_bytes 8 c.send_counter ++ payload) (bound_header header))
              refl)
      ])
    ]
  where
    result_of :
        (out : Option (Bytes × Bytes))
        → cng.encrypt c.send_key
            (nonce c c.send_counter)
            (le_bytes 8 c.send_counter ++ payload)
            (bound_header header)
          ≡ out
        → (seal_result (record c { send_counter = (c.send_counter + 1) % 2 ^ 64 }) out).0
          ≡ some input
        → Sealing cng c header payload input
    result_of none made = unfold seal_result in λ h. cc
    result_of (some (ciphertext, tag)) made =
        unfold seal_result in
        λ h. record { ciphertext = ciphertext; tag = tag; made = made; joined = cc }

-- An open call on a channel that has accepted nothing yet.
fresh_open :
    (cng : Cng) (r : SecureChannel) (header ciphertext tag : Bytes)
    → r.active ≡ true
    → r.recv_init ≡ false
    → 8 ≤ length ciphertext
    → length tag ≡ 16
    → open_sealed cng r header (ciphertext ++ tag)
      ≡ open_result r (counter_of (ciphertext ++ tag)) (
          cng.decrypt r.recv_key
            (nonce r (counter_of (ciphertext ++ tag)))
            ciphertext
            tag
            (bound_header header))
unfolding open_sealed is_replay
fresh_open cng r header ciphertext tag on new long sized =
    let whole = length-append ciphertext tag in
    let short : ltb (length (ciphertext ++ tag)) 24 ≡ false = ground (arith, whole, long, sized) in
    let size : length (ciphertext ++ tag) - 16 ≡ length ciphertext = omega (arith, whole, sized) in
    rw
      (
        short,
        size,
        take-append ciphertext tag (length ciphertext) refl,
        drop-append ciphertext tag (length ciphertext) refl,
        new,
        on,
      )
      refl

-- The plaintext holds the counter that the two sides share, so `open` takes the payload out.
open_result-counter :
    (r : SecureChannel) (counter : ℕ) (payload : Bytes)
    → counter < 2 ^ 64
    → open_result r counter (some (le_bytes 8 counter ++ payload))
      ≡ (some payload, accept r counter)
unfolding open_result
open_result-counter r counter payload small =
    let sized = length-le_bytes 8 counter in
    let whole = length-append (le_bytes 8 counter) payload in
    let short : ltb (length (le_bytes 8 counter ++ payload)) 8 ≡ false =
      ground (arith, whole, sized) in
    rw
      (
        short,
        take-append (le_bytes 8 counter) payload 8 sized,
        drop-append (le_bytes 8 counter) payload 8 sized,
        from_le-le_bytes 8 counter small,
      )
      (ground arith)

-- The result at each counter that the datagram may show.
opened_at :
    (cng : Cng) (s r : SecureChannel) (header payload ciphertext tag : Bytes)
    → ((key used plain aad ciphertext tag : Bytes)
        → cng.encrypt key used plain aad ≡ some (ciphertext, tag)
        → cng.decrypt key used ciphertext tag aad ≡ some plain)
    → ((key used other plain aad ciphertext tag : Bytes)
        → cng.encrypt key used plain aad ≡ some (ciphertext, tag)
        → length other ≡ length used
        → other ≢ used
        → cng.decrypt key other ciphertext tag aad ≡ none)
    → s.send_counter < 2 ^ 64
    → r.recv_key ≡ s.send_key
    → r.nonce_salt ≡ s.nonce_salt
    → cng.encrypt s.send_key
        (nonce s s.send_counter)
        (le_bytes 8 s.send_counter ++ payload)
        (bound_header header)
      ≡ some (ciphertext, tag)
    → (shown : ℕ) → shown < 2 ^ 64
    → (open_result r shown
        (cng.decrypt r.recv_key (nonce r shown) ciphertext tag (bound_header header))).0
      ≡ (if shown == s.send_counter then some payload else none)
opened_at cng s r header payload ciphertext tag decrypts refuses small key salt made shown bound =
    elim (ℕ_discrete shown s.send_counter) [
      | yes same ↦
          let test : (shown == s.send_counter) ≡ true = ground (arith, same) in
          rw (test, same, key, salt, decrypts _ _ _ _ _ _ made)
            (ap (λ p. p.0) (open_result-counter _ s.send_counter payload small))
      | no other ↦
          let test : (shown == s.send_counter) ≡ false = ground (arith, other) in
          let sized : length (nonce r shown) ≡ length (nonce s s.send_counter) = omega (
            arith,
            ap length salt,
            length-append r.nonce_salt (le_bytes 8 shown),
            length-append s.nonce_salt (le_bytes 8 s.send_counter),
            length-le_bytes 8 shown,
            length-le_bytes 8 s.send_counter,
          ) in
          rw
            (
              test,
              key,
              refuses _ _ (nonce r shown) _ _ _ _ made sized
                  (λ e. other (nonce_injective s r s.send_counter shown small bound salt e)),
            )
            (unfold open_result in refl)
    ]

-- A sealed datagram that reaches a fresh peer with the same header, key and salt: `open` reads the
-- counter from the first eight bytes of the ciphertext, though `seal` puts the counter into the
-- plaintext only. So it gives the payload when the cipher happens to leave the counter there, and
-- nothing when it does not. The cipher keeps the length, adds a tag of 16 bytes, decrypts what it
-- encrypted, and refuses it under another nonce of the same length.
pub open_sealed-seal :
    (cng : Cng) (s r : SecureChannel) (header payload input : Bytes)
    → ((key used plain aad ciphertext tag : Bytes)
        → cng.encrypt key used plain aad ≡ some (ciphertext, tag)
        → (length ciphertext ≡ length plain) × (length tag ≡ 16))
    → ((key used plain aad ciphertext tag : Bytes)
        → cng.encrypt key used plain aad ≡ some (ciphertext, tag)
        → cng.decrypt key used ciphertext tag aad ≡ some plain)
    → ((key used other plain aad ciphertext tag : Bytes)
        → cng.encrypt key used plain aad ≡ some (ciphertext, tag)
        → length other ≡ length used
        → other ≢ used
        → cng.decrypt key other ciphertext tag aad ≡ none)
    → s.send_counter < 2 ^ 64
    → All (λ b. b < 256) input
    → r.active ≡ true
    → r.recv_init ≡ false
    → r.recv_key ≡ s.send_key
    → r.nonce_salt ≡ s.nonce_salt
    → (seal cng s header payload).0 ≡ some input
    → (open_sealed cng r header input).0
      ≡ (if counter_of input == s.send_counter then some payload else none)
open_sealed-seal cng s r header payload input sizes decrypts refuses small isbytes on new key salt
      h =
    let made = seal-Sealing cng s header payload input h in
    let size = sizes _ _ _ _ _ _ made.made in
    let whole = length-append (le_bytes 8 s.send_counter) payload in
    let eight = length-le_bytes 8 s.send_counter in
    subst
      (λ i.
        (open_sealed cng r header i).0
        ≡ (if counter_of i == s.send_counter then some payload else none))
      made.joined
      (rw
        (fresh_open cng r header made.ciphertext made.tag on new
          (omega (arith, size.0, whole, eight)) size.1)
        (opened_at cng s r header payload made.ciphertext made.tag decrypts refuses small key salt
          made.made _
          (from_le_bound 8 (made.ciphertext ++ made.tag)
            (subst (All (λ b. b < 256)) (sym made.joined) isbytes))))
