-- ===== src/Packet/Writer.antt =====
-- `ByteWriter`: each method appends to the buffer.
use iran_remote_play.Prelude.{ℕ, [], ◌∷◌, ◌++◌, Bool, if◌then◌else◌, ltb, length, take}
use iran_remote_play.Prelude.Bytes.{Bytes, le_bytes}

-- A method as a function of the buffer.
abbrev pub Write : Type 0
Write = Bytes → Bytes

infixl 5 ◌>>◌
unfoldable pub ◌>>◌ : Write → Write → Write
◌>>◌ w w' buf = w' (w buf)

unfoldable pub u8 : ℕ → Write
u8 v buf = buf ++ (v ∷ [])

unfoldable pub u16 : ℕ → Write
u16 v buf = buf ++ le_bytes 2 v

unfoldable pub u32 : ℕ → Write
u32 v buf = buf ++ le_bytes 4 v

unfoldable pub u64 : ℕ → Write
u64 v buf = buf ++ le_bytes 8 v

unfoldable pub boolean : Bool → Write
boolean v buf = buf ++ ((if v then 1 else 0) ∷ [])

unfoldable pub bytes : Bytes → Write
bytes xs buf = buf ++ xs

-- The hard cap on the length of a string.
abbrev pub max_string : ℕ
max_string = 1024

unfoldable pub str : Bytes → Write
str s buf =
    let n = if ltb max_string (length s) then max_string else length s in
    (buf ++ le_bytes 2 n) ++ take n s
