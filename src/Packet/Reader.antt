-- ===== src/Packet/Reader.antt =====
-- `ByteReader`: a read past the end turns `ok` false, and every later read gives zero.
use iran_remote_play.Prelude.{
  ℕ, [], Bool, true, false, ◌&&◌, not, if◌then◌else◌, leb, ◌==◌, length, take, drop,
}
use iran_remote_play.Prelude.Bytes.{Bytes, from_le}

pub record Reader : Type 0 where
  pub rest : Bytes
  pub ok : Bool

abbrev pub reader : Bytes → Reader
reader xs = record { rest = xs; ok = true }

abbrev pub Read : Type 0 → Type 0
Read A = Reader → A × Reader

infixl 5 ◌>>=◌
unfoldable pub ◌>>=◌ : {A B : Type 0} → Read A → (A → Read B) → Read B
◌>>=◌ m f r = let (a, r') = m r in f a r'

unfoldable pub pure : {A : Type 0} → A → Read A
pure a r = (a, r)

-- `remaining()`.
abbrev pub remaining : Reader → ℕ
remaining r = length r.rest

-- `!ok_ || pos_ + n > size_`, negated.
abbrev pub has : ℕ → Reader → Bool
has n r = r.ok && leb n (length r.rest)

abbrev pub fail : Reader → Reader
fail r = record r { ok = false }

abbrev pub advance : ℕ → Reader → Reader
advance n r = record r { rest = drop n r.rest }

-- The guard that every method begins with: `take n` of the bytes at the cursor go to `g`, and
-- a failed read gives `d`.
unfoldable pub slice : {A : Type 0} → (Bytes → A) → A → ℕ → Read A
slice g d n r = if has n r then (g (take n r.rest), advance n r) else (d, fail r)

unfoldable pub word : ℕ → Read ℕ
word = slice from_le 0

unfoldable pub u8 : Read ℕ
u8 = word 1

unfoldable pub u16 : Read ℕ
u16 = word 2

unfoldable pub u32 : Read ℕ
u32 = word 4

unfoldable pub u64 : Read ℕ
u64 = word 8

unfoldable pub boolean : Read Bool
boolean = do v ← u8; pure (not (v == 0))

-- `bytes(out, size)`; `out` keeps what it held if the read fails.
unfoldable pub bytes : Bytes → ℕ → Read Bytes
bytes out = slice (λ xs. xs) out

-- The bytes behind the length that `str` has read.
unfoldable pub chars : ℕ → Read Bytes
chars = slice (λ xs. xs) []

unfoldable pub str : Read Bytes
str = do n ← u16; chars n
