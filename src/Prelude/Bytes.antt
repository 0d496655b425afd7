-- ===== src/Prelude/Bytes.antt =====
-- Little-endian words: the byte loops that the frame and datagram formats share. A byte is a
-- number below 256; `(v >> 8 * i) & 0xFF` is `v / 256 ^ i % 256`, one division a round.
use Prim.Native.Nat.{ℕ, zero, suc, ◌+◌, ◌*◌, ◌/◌, ◌%◌, ◌^◌, ◌<◌}
use mathlib.Core.Path.{◌≡◌, refl, ap}
use mathlib.Core.List.{List, [], ◌∷◌}
use native.Mathlib.Omega.{arith}
use native.Mathlib.Nat.{pow-suc}
use iran_remote_play.Prelude.Lists.{length, take, All}

abbrev pub Bytes : Type 0
Bytes = List ℕ

abbrev pub IsByte : ℕ → Type 0
IsByte b = b < 256

unfoldable pub le_bytes : ℕ → ℕ → Bytes
le_bytes zero v = []
le_bytes (suc n) v = (v % 256) ∷ le_bytes n (v / 256)

-- Bytes are or'd into disjoint bits, which is a sum.
unfoldable pub from_le : Bytes → ℕ
from_le [] = 0
from_le (b ∷ bs) = b + 256 * from_le bs

pub length-le_bytes : (n v : ℕ) → length (le_bytes n v) ≡ n
unfolding le_bytes
length-le_bytes zero v = refl
length-le_bytes (suc n) v = ap suc (length-le_bytes n (v / 256))

pub from_le-le_bytes : (n v : ℕ) → v < 256 ^ n → from_le (le_bytes n v) ≡ v
unfolding le_bytes from_le
from_le-le_bytes zero v h = omega arith
from_le-le_bytes (suc n) v h =
    omega (arith, from_le-le_bytes n (v / 256) (omega (arith, pow-suc 256 n)))

pow-pos : (n : ℕ) → 0 < 256 ^ n
pow-pos zero = omega arith
pow-pos (suc n) = omega (arith, pow-suc 256 n, pow-pos n)

pub from_le_bound : (n : ℕ) (bs : Bytes) → All IsByte bs → from_le (take n bs) < 256 ^ n
unfolding from_le
from_le_bound zero bs h = omega arith
from_le_bound (suc n) [] h = pow-pos (suc n)
from_le_bound (suc n) (b ∷ bs) (small, h) =
    omega (arith, pow-suc 256 n, from_le_bound n bs h, small)
