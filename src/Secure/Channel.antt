-- ===== src/Secure/Channel.antt =====
-- `SecureChannel`: `finish`, `seal` and `open`.
use iran_remote_play.Prelude.{
  ℕ, ◌+◌, ◌-◌, ◌*◌, ◌%◌, ◌^◌, Option, none, some, List, [], ◌∷◌, ◌++◌, Bool, true, false, ◌&&◌,
  ◌||◌, not, if◌then◌else◌, leb, ltb, ◌==◌, length, take, drop, get_or, set, replicate,
}
use iran_remote_play.Prelude.Bytes.{Bytes, le_bytes, from_le}
use iran_remote_play.Secure.Crypto.{Cng, hkdf_sha256}

pub record SecureChannel : Type 0 where
  pub active : Bool
  pub send_key : Bytes
  pub recv_key : Bytes
  pub nonce_salt : Bytes
  pub send_counter : ℕ
  pub recv_highest : ℕ
  pub recv_init : Bool
  pub recv_window : List ℕ
  pub sealed : ℕ
  pub opened : ℕ
  pub auth_failures : ℕ
  pub replays_rejected : ℕ

unfoldable pub init : SecureChannel
init = record {
  active = false;
  send_key = replicate 32 0;
  recv_key = replicate 32 0;
  nonce_salt = replicate 4 0;
  send_counter = 1;
  recv_highest = 0;
  recv_init = false;
  recv_window = replicate 64 0;
  sealed = 0;
  opened = 0;
  auth_failures = 0;
  replays_rejected = 0;
}

abbrev pub tag_bytes : ℕ
tag_bytes = 16

abbrev pub public_key_bytes : ℕ
public_key_bytes = 64

abbrev pub okm_length : ℕ
okm_length = 68

-- The part of the header that is bound as additional data.
abbrev pub bound_header : Bytes → Bytes
bound_header = take 30

abbrev pub info : Bytes
info =
    b'R' ∷ b'e' ∷ b'm' ∷ b'o' ∷ b't' ∷ b'e' ∷ b'P' ∷ b'l' ∷ b'a' ∷ b'y' ∷ 32 ∷ b's' ∷ b'e' ∷ b's'
    ∷ b's' ∷ b'i' ∷ b'o' ∷ b'n' ∷ 32 ∷ b'v' ∷ b'1' ∷ []

-- `a <= b` on vectors: lexicographic.
unfoldable pub lex_le : Bytes → Bytes → Bool
lex_le [] ys = true
lex_le (x ∷ xs) [] = false
lex_le (x ∷ xs) (y ∷ ys) = ltb x y || (x == y && lex_le xs ys)

-- The session code, then the two salts in order.
unfoldable pub key_salt : Bytes → Bytes → Bytes → Bytes
key_salt code a b = if lex_le a b then code ++ (a ++ b) else code ++ (b ++ a)

-- A window slot, and the nonce of a counter.
abbrev pub slot : ℕ → ℕ
slot counter = counter % 64

abbrev pub nonce : SecureChannel → ℕ → Bytes
nonce c counter = c.nonce_salt ++ le_bytes 8 counter

-- What `finish` sets once the keys are derived.
unfoldable pub keyed : SecureChannel → Bytes → Bool → SecureChannel
keyed c okm we_are_host =
    let host_key = take 32 okm in
    let client_key = take 32 (drop 32 okm) in
    record c {
      active = true;
      send_key = if we_are_host then host_key else client_key;
      recv_key = if we_are_host then client_key else host_key;
      nonce_salt = take 4 (drop 64 okm);
      send_counter = 1;
      recv_highest = 0;
      recv_init = false;
      recv_window = replicate 64 0;
    }

-- What `seal` does with the ciphertext.
unfoldable pub seal_result : SecureChannel → Option (Bytes × Bytes) → Option Bytes × SecureChannel
seal_result c none = (none, c)
seal_result c (some (ciphertext, tag)) =
    (some (ciphertext ++ tag), record c { sealed = (c.sealed + 1) % 2 ^ 64 })

-- The counter of a sealed payload, as `open` reads it.
abbrev pub counter_of : Bytes → ℕ
counter_of input = from_le (take 8 input)

-- The replay check: too old, or seen.
unfoldable pub is_replay : SecureChannel → ℕ → Bool
is_replay c counter =
    c.recv_init
    && leb counter c.recv_highest
    && (leb 64 (c.recv_highest - counter) || get_or c.recv_window (slot counter) 0 == counter)

unfoldable pub mark_seen : SecureChannel → ℕ → SecureChannel
mark_seen c counter = record c {
  recv_init = true;
  recv_highest = if not c.recv_init || ltb c.recv_highest counter then counter else c.recv_highest;
  recv_window = set c.recv_window (slot counter) counter;
}

abbrev pub reject : SecureChannel → Option Bytes × SecureChannel
reject c = (none, record c { auth_failures = (c.auth_failures + 1) % 2 ^ 64 })

-- The state after a datagram was accepted.
unfoldable pub accept : SecureChannel → ℕ → SecureChannel
unfolding mark_seen
accept c counter = record (mark_seen c counter) { opened = (c.opened + 1) % 2 ^ 64 }

-- What `open` does with the plaintext.
unfoldable pub open_result : SecureChannel → ℕ → Option Bytes → Option Bytes × SecureChannel
open_result c counter none = reject c
open_result c counter (some plain) =
    if ltb (length plain) 8
    then reject c
    else if not (from_le (take 8 plain) == counter)
    then reject c
    else (some (drop 8 plain), accept c counter)

module _ (cng : Cng) where
  -- The key material of a session, from the secret that the two sides agree on.
  unfoldable pub session_okm : Bytes → Bytes → Bytes → Bytes → Bytes
  session_okm shared our_salt peer_salt code =
      hkdf_sha256 cng shared (key_salt code our_salt peer_salt) info okm_length

  unfoldable pub finish :
      SecureChannel → Bytes → Bytes → Bytes → Bytes → Bytes → Bool → Bool × SecureChannel
  finish c private_key our_salt peer_public peer_salt code we_are_host =
      let off : SecureChannel = record c { active = false } in
      if not (length peer_public == public_key_bytes)
        || not (length our_salt == 16)
        || not (length peer_salt == 16)
      then (false, off)
      else elim (cng.agree private_key peer_public) [
        | none ↦ (false, off)
        | some shared ↦
            if not (length shared == 32)
            then (false, off)
            else if not (length (session_okm shared our_salt peer_salt code) == okm_length)
            then (false, off)
            else (true, keyed off (session_okm shared our_salt peer_salt code) we_are_host)
      ]

  unfoldable pub seal : SecureChannel → Bytes → Bytes → Option Bytes × SecureChannel
  seal c header payload =
      let counter = c.send_counter in
      let c' : SecureChannel = record c { send_counter = (counter + 1) % 2 ^ 64 } in
      if not c.active || ltb (64 * 1024) (length payload)
      then (none, c)
      else if counter == 0
      then (none, c')
      else seal_result c' (
          cng.encrypt c.send_key (nonce c counter) (le_bytes 8 counter ++ payload)
            (bound_header header))

  unfoldable pub open_sealed : SecureChannel → Bytes → Bytes → Option Bytes × SecureChannel
  open_sealed c header input =
      let size = length input - tag_bytes in
      let counter = counter_of input in
      if not c.active || ltb (length input) (8 + tag_bytes)
      then reject c
      else if is_replay c counter
      then (none, record c { replays_rejected = (c.replays_rejected + 1) % 2 ^ 64 })
      else open_result c counter (
          cng.decrypt c.recv_key (nonce c counter) (take size input) (drop size input)
            (bound_header header))
