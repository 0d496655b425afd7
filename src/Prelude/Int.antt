-- ===== src/Prelude/Int.antt =====
-- Integers, for signed results. `negsuc n` is -(n + 1).
use Prim.Native.Nat.{ℕ, ◌-◌, ◌^◌}
use iran_remote_play.Prelude.Tests.{if◌then◌else◌, ltb}

pub data ℤ : Type 0 where
  pos : ℕ → ℤ
  negsuc : ℕ → ℤ

-- `static_cast<int64_t>` of a `uint64_t`.
abbrev pub to_int64 : ℕ → ℤ
to_int64 n = if ltb n (2 ^ 63) then pos n else negsuc (2 ^ 64 - n - 1)
