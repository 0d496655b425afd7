-- ===== src/Examples/Keys.antt =====
-- Key agreement with a toy group.
use iran_remote_play.Prelude.{
  ◌*◌, ◌≡◌, refl, ◌⊎◌, some, [], ◌∷◌, Bool, true, false, if◌then◌else◌, length, replicate, get_or,
  take,
}
use iran_remote_play.Secure.Crypto.{Cng, hkdf_sha256}
use iran_remote_play.Secure.Crypto.Hkdf.{IsHash, blocks, hkdf_sha256-blocks}
use iran_remote_play.Secure.Channel.{SecureChannel, init, finish}
use iran_remote_play.Secure.Agreement.{AreMatched, finish-AreMatched}
use iran_remote_play.Examples.Channel.{toy}

-- The hash repeats the key's first byte; a public key repeats three times the private one.
abbrev group : Cng
group = record toy {
  hmac_sha256 = λ key text. replicate 32 (get_or key 0 7);
  agree = λ private_key peer. some (replicate 32 (get_or private_key 0 0 * get_or peer 0 0));
}

hash : IsHash group
hash key text = refl

hkdf_sha256-blocks_example :
    let okm = hkdf_sha256 group (1 ∷ []) (2 ∷ []) [] 68 in
    (okm ≡ (if false then [] else take 68 (blocks group (replicate 32 2) [] [] 1 3)))
    × (length okm ≡ 68)
hkdf_sha256-blocks_example = hkdf_sha256-blocks group hash (1 ∷ []) (2 ∷ []) [] 68

abbrev host_side : Bool × SecureChannel
host_side =
    finish group init (5 ∷ []) (replicate 16 1) (replicate 64 6) (replicate 16 4) (b'A' ∷ []) true

abbrev client_side : Bool × SecureChannel
client_side =
    finish group init (2 ∷ []) (replicate 16 4) (replicate 64 15) (replicate 16 1) (b'A' ∷ []) false

finish-AreMatched_example :
    (host_side.0 ≡ client_side.0)
    × ((host_side.0 ≡ false) ⊎ ((host_side.1.active ≡ true) × AreMatched host_side.1 client_side.1))
finish-AreMatched_example =
    finish-AreMatched group init init (5 ∷ []) (replicate 64 15) (replicate 16 1) (2 ∷ [])
      (replicate 64 6) (replicate 16 4) (b'A' ∷ []) refl refl refl
