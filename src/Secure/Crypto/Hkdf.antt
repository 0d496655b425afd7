-- ===== src/Secure/Crypto/Hkdf.antt =====
-- The key derivation is that of RFC 5869.
use iran_remote_play.Prelude.{
  ℕ, zero, suc, ◌+◌, ◌-◌, ◌*◌, ◌/◌, ◌%◌, ◌≤◌, ◌<◌, ◌≡◌, refl, ap, ◌∙◌, inl, inr, [], ◌∷◌, ◌++◌,
  false, ◌||◌, if◌then◌else◌, leb, ltb, ◌==◌, length, take, arith, take-all, take-append_le,
  take-append_add, append-nil, Bool-cases, length-append, length-take,
}
use iran_remote_play.Prelude.Bytes.{Bytes}
use iran_remote_play.Secure.Crypto.{Cng, expand, hkdf_sha256}

-- `HashLen`, and the most blocks.
abbrev pub hash_length : ℕ
hash_length = 32

abbrev pub IsHash : Cng → Type 0
IsHash cng = (key text : Bytes) → length (cng.hmac_sha256 key text) ≡ hash_length

module _ (cng : Cng) where
  -- T(i) | T(i + 1) | ... (`count` of them), where T(i) = HMAC(prk, T(i - 1) | info | i).
  unfoldable pub blocks : Bytes → Bytes → Bytes → ℕ → ℕ → Bytes
  blocks prk info before i zero = []
  blocks prk info before i (suc count) =
      let block = cng.hmac_sha256 prk (before ++ (info ++ (i ∷ []))) in
      let rest = blocks prk info block (i + 1) count in block ++ rest

  length-blocks :
      IsHash cng
      → (prk info before : Bytes) (i count : ℕ)
      → length (blocks prk info before i count) ≡ 32 * count
  unfolding blocks
  length-blocks hash prk info before i zero = refl
  length-blocks hash prk info before i (suc count) =
      let block = cng.hmac_sha256 prk (before ++ (info ++ (i ∷ []))) in
      omega (
        arith,
        length-append block (blocks prk info block (i + 1) count),
        hash prk (before ++ (info ++ (i ∷ []))),
        length-blocks hash prk info block (i + 1) count,
      )

  take-block :
      (block rest more : Bytes) (missing : ℕ)
      → length block ≡ 32
      → rest ≡ take (missing - 32) more
      → take missing (take 32 block) ++ rest ≡ take missing (block ++ more)
  take-block block rest more missing l e = elim (Bool-cases (leb missing 32)) [
    | inl b ↦
        let z : missing - 32 ≡ 0 = ground arith in
        rw (e, z, take-all block 32 (omega arith), take-append_le block more missing (ground arith))
          (append-nil (take missing block))
    | inr b ↦
        rw
          (
            e,
            take-all block 32 (omega arith),
            take-all block missing (ground arith),
            take-append_add block more missing (missing - 32) (ground arith),
          )
          refl
  ]

  -- The counter's byte wraps only when no block follows.
  blocks-wrap :
      (prk info before : Bytes) (i count : ℕ)
      → i + count ≤ 256
      → blocks prk info before (i % 256) count ≡ blocks prk info before i count
  unfolding blocks
  blocks-wrap prk info before i zero h = refl
  blocks-wrap prk info before i (suc count) h =
      ap (λ (j : ℕ). blocks prk info before j (suc count)) (omega arith)

  expand-none :
      (rounds : ℕ) (prk info before : Bytes) (i : ℕ) → expand cng rounds prk info before i 0 ≡ []
  unfolding expand
  expand-none zero prk info before i = refl
  expand-none (suc rounds) prk info before i = refl

  expand-blocks :
      IsHash cng
      → (count rounds : ℕ) (prk info before : Bytes) (i missing : ℕ) → missing ≤ rounds
      → missing ≤ 32 * count
      → 32 * count < missing + 32
      → i + count ≤ 256
      → expand cng rounds prk info before i missing ≡ take missing (blocks prk info before i count)
  unfolding expand blocks
  expand-blocks hash zero rounds prk info before i missing hr hm hn hi =
      let z : missing ≡ 0 = omega arith in rw z (expand-none rounds prk info before i)
  expand-blocks hash (suc count) zero prk info before i missing hr hm hn hi = absurd (omega arith)
  expand-blocks hash (suc count) (suc rounds) prk info before i missing hr hm hn hi =
      let block = cng.hmac_sha256 prk (before ++ (info ++ (i ∷ []))) in
      let some_left : (missing == 0) ≡ false = ground arith in
      let e =
        expand-blocks hash count rounds prk info block ((i + 1) % 256) (missing - 32) (omega arith)
          (omega arith) (omega arith) (omega arith) in
      rw some_left (
        take-block block _ (blocks prk info block (i + 1) count) missing
          (hash prk (before ++ (info ++ (i ∷ []))))
          (e ∙ ap (take (missing - 32)) (blocks-wrap prk info block (i + 1) count (omega arith))))

  -- When the hash gives 32 bytes, `hkdfSha256` gives the first bytes of the expansion of RFC 5869,
  -- T(1) | T(2) | ..., under the extracted key, as many as it was asked for; it gives nothing when it
  -- was asked for none or for more than 255 blocks.
  pub hkdf_sha256-blocks :
      IsHash cng
      → (ikm salt info : Bytes) (out_len : ℕ)
      → let refused = out_len == 0 || ltb (255 * 32) out_len in
        let okm = hkdf_sha256 cng ikm salt info out_len in
        let t = blocks (cng.hmac_sha256 salt ikm) info [] 1 ((out_len + 31) / 32) in
        (okm ≡ (if refused then [] else take out_len t))
        × (length okm ≡ (if refused then 0 else out_len))
  unfolding hkdf_sha256
  hkdf_sha256-blocks hash ikm salt info out_len =
      elim (Bool-cases (out_len == 0 || ltb (255 * 32) out_len)) [
        | inl b ↦ rw b (refl, refl)
        | inr b ↦
            let prk = cng.hmac_sha256 salt ikm in
            let n = (out_len + 31) / 32 in
            let t = blocks prk info [] 1 n in
            let p : 0 < out_len = ground arith in
            let q : out_len ≤ 255 * 32 = ground arith in
            let e =
              expand-blocks hash n out_len prk info [] 1 out_len (omega arith) (omega arith)
                (omega arith) (omega arith) in
            rw b (
              e,
              ap length e
                  ∙ omega (arith, length-take out_len t, length-blocks hash prk info [] 1 n),
            )
      ]
