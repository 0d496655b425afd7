-- ===== src/Secure/Crypto.antt =====
-- security/Crypto.cpp: the key derivation over the hash of CNG, and what the channel uses of CNG.
pub mod Hkdf
use iran_remote_play.Prelude.{
  ℕ, zero, suc, ◌+◌, ◌-◌, ◌*◌, ◌%◌, Option, [], ◌∷◌, ◌++◌, ◌||◌, if◌then◌else◌, ltb, ◌==◌, take,
}
use iran_remote_play.Prelude.Bytes.{Bytes}

-- The primitives. A call that fails gives `none`; an encryption gives the ciphertext and the tag.
pub record Cng : Type 0 where
  pub hmac_sha256 : Bytes → Bytes → Bytes
  pub agree : Bytes → Bytes → Option Bytes
  pub encrypt : Bytes → Bytes → Bytes → Bytes → Option (Bytes × Bytes)
  pub decrypt : Bytes → Bytes → Bytes → Bytes → Bytes → Option Bytes

module _ (cng : Cng) where
  -- The expansion loop of `hkdfSha256`: block `counter` is the hash of the block before, `info` and
  -- the counter's byte. Every round adds up to 32 bytes, so `out_len` rounds are enough.
  unfoldable pub expand : ℕ → Bytes → Bytes → Bytes → ℕ → ℕ → Bytes
  expand zero prk info t counter missing = []
  expand (suc rounds) prk info t counter missing =
      let block = cng.hmac_sha256 prk (t ++ (info ++ (counter ∷ []))) in
      let rest = expand rounds prk info block ((counter + 1) % 256) (missing - 32) in
      if missing == 0 then [] else take missing (take 32 block) ++ rest

  unfoldable pub hkdf_sha256 : Bytes → Bytes → Bytes → ℕ → Bytes
  hkdf_sha256 ikm salt info out_len =
      if out_len == 0 || ltb (255 * 32) out_len
      then []
      else expand out_len (cng.hmac_sha256 salt ikm) info [] 1 out_len
