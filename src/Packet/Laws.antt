-- ===== src/Packet/Laws.antt =====
-- What holds of every reader that is built from the methods, and which writer it undoes.
use iran_remote_play.Prelude.{
  ℕ, ◌^◌, ◌<◌, ◌≡◌, refl, sym, ap, ◌∙◌, [], ◌∷◌, ◌++◌, Bool, true, false, ltb, ◌==◌, length, take,
  arith, take-append, drop-append, take-append_le, drop-append_le, append-nil, append_assoc,
  length-append, length-take, min, take-all, not, Bool-cases, inl, inr,
}
use iran_remote_play.Prelude.Bytes.{Bytes, le_bytes, from_le, length-le_bytes, from_le-le_bytes}
use iran_remote_play.Packet.Writer
use mathlib.Core.Path.{fun_ext}
use iran_remote_play.Packet.Writer.{Write, ◌>>◌, max_string}
use iran_remote_play.Packet.Reader
use iran_remote_play.Packet.Reader.{Reader, reader, Read, ◌>>=◌, pure}

-- A failed reader stays failed, and bytes behind what a successful read took change nothing.
pub record Lawful {A : Type 0} (m : Read A) : Type 0 where
  pub sticky : (r : Reader) → r.ok ≡ false → (m r).1.ok ≡ false
  pub grows :
      (r : Reader) (more : Bytes)
      → (m r).1.ok ≡ true
      → m (record r { rest = r.rest ++ more })
        ≡ ((m r).0, record (m r).1 { rest = (m r).1.rest ++ more })

-- `m` reads back from what `w` writes the value `a`, and nothing more.
pub record Undoes {A : Type 0} (w : Write) (m : Read A) (a : A) : Type 0 where
  pub written : Bytes
  pub writes : (buf : Bytes) → w buf ≡ buf ++ written
  pub reads : (more : Bytes) → m (reader (written ++ more)) ≡ (a, reader more)

pub Lawful-pure : {A : Type 0} (a : A) → Lawful (pure a)
unfolding pure
Lawful-pure a = record { sticky = λ r h. h; grows = λ r more h. refl }

pub Lawful-bind :
    {A B : Type 0} (m : Read A) (f : A → Read B)
    → Lawful m
    → ((a : A) → Lawful (f a))
    → Lawful (m >>= f)
unfolding ◌>>=◌
Lawful-bind m f lm lf = record {
  sticky = λ r h. (lf (m r).0).sticky (m r).1 (lm.sticky r h);
  grows = λ r more h. elim (Bool-cases (m r).1.ok) [
    | inl good ↦ ap (λ p. f p.0 p.1) (lm.grows r more good) ∙ (lf (m r).0).grows (m r).1 more h
    | inr bad ↦ cc ((lf (m r).0).sticky (m r).1 bad, h)
  ];
}

pub Undoes-pure : {A : Type 0} (a : A) → Undoes (λ buf. buf) (pure a) a
unfolding pure
Undoes-pure a = record { written = []; writes = λ buf. sym (append-nil buf); reads = λ more. refl }

pub Undoes-bind :
    {A B : Type 0} {w w' : Write} {m : Read A} (f : A → Read B) {a : A} {b : B}
    → Undoes w m a
    → Undoes w' (f a) b
    → Undoes (w >> w') (m >>= f) b
unfolding ◌>>=◌ ◌>>◌
Undoes-bind {w = w} {w' = w'} {m = m} f u v = record {
  written = u.written ++ v.written;
  writes = λ buf.
      v.writes (w buf)
      ∙ ap (λ t. t ++ v.written) (u.writes buf)
      ∙ append_assoc buf u.written v.written;
  reads = λ more.
      ap (λ t. (m >>= f) (reader t)) (append_assoc u.written v.written more)
      ∙ ap (λ p. f p.0 p.1) (u.reads (v.written ++ more))
      ∙ v.reads more;
}

pub Undoes-last :
    {A B : Type 0} {w : Write} {m : Read A} (f : A → B) {a : A}
    → Undoes w m a
    → Undoes w (m >>= λ x. pure (f x)) (f a)
unfolding ◌>>=◌ pure
Undoes-last f u = record {
  written = u.written;
  writes = u.writes;
  reads = λ more. ap (λ p. (f p.0, p.1)) (u.reads more);
}

pub Lawful-slice : {A : Type 0} (g : Bytes → A) (d : A) (n : ℕ) → Lawful (Reader.slice g d n)
unfolding Reader.slice
Lawful-slice g d n = record {
  sticky = λ r h. ground arith;
  grows = λ r more h. ground (
    arith,
    take-append_le r.rest more n,
    drop-append_le r.rest more n,
    length-append r.rest more,
  );
}

-- A slice reads the next `n` bytes.
slice-append :
    {A : Type 0} (g : Bytes → A) (d : A) (n : ℕ) (xs more : Bytes)
    → length xs ≡ n
    → Reader.slice g d n (reader (xs ++ more)) ≡ (g xs, reader more)
unfolding Reader.slice
slice-append g d n xs more h =
    ground (arith, take-append xs more n, drop-append xs more n, length-append xs more)

word-le_bytes :
    (n v : ℕ) (more : Bytes)
    → v < 256 ^ n
    → Reader.word n (reader (le_bytes n v ++ more)) ≡ (v, reader more)
unfolding Reader.word
word-le_bytes n v more h =
    slice-append from_le 0 n (le_bytes n v) more (length-le_bytes n v)
    ∙ ap (λ t. (t, reader more)) (from_le-le_bytes n v h)

pub Undoes-word : (n v : ℕ) → v < 256 ^ n → Undoes (λ buf. buf ++ le_bytes n v) (Reader.word n) v
Undoes-word n v h = record {
  written = le_bytes n v;
  writes = λ buf. refl;
  reads = λ more. word-le_bytes n v more h;
}

pub Lawful-u8 : Lawful Reader.u8
unfolding Reader.u8 Reader.word
Lawful-u8 = Lawful-slice from_le 0 1

pub Lawful-u16 : Lawful Reader.u16
unfolding Reader.u16 Reader.word
Lawful-u16 = Lawful-slice from_le 0 2

pub Lawful-u32 : Lawful Reader.u32
unfolding Reader.u32 Reader.word
Lawful-u32 = Lawful-slice from_le 0 4

pub Lawful-u64 : Lawful Reader.u64
unfolding Reader.u64 Reader.word
Lawful-u64 = Lawful-slice from_le 0 8

pub Lawful-boolean : Lawful Reader.boolean
unfolding Reader.boolean
Lawful-boolean = Lawful-bind Reader.u8 _ Lawful-u8 (λ v. Lawful-pure (not (v == 0)))

pub Lawful-bytes : (out : Bytes) (n : ℕ) → Lawful (Reader.bytes out n)
unfolding Reader.bytes
Lawful-bytes out n = Lawful-slice (λ xs. xs) out n

pub Lawful-str : Lawful Reader.str
unfolding Reader.str Reader.chars
Lawful-str = Lawful-bind Reader.u16 _ Lawful-u16 (Lawful-slice (λ xs. xs) [])

pub Undoes-u8 : (v : ℕ) → v < 256 → Undoes (Writer.u8 v) Reader.u8 v
unfolding Reader.u8 Reader.word Writer.u8 from_le
Undoes-u8 v h = record {
  written = v ∷ [];
  writes = λ buf. refl;
  reads = λ more.
      slice-append from_le 0 1 (v ∷ []) more refl ∙ ap (λ t. (t, reader more)) (omega arith);
}

pub Undoes-u16 : (v : ℕ) → v < 2 ^ 16 → Undoes (Writer.u16 v) Reader.u16 v
unfolding Reader.u16 Writer.u16
Undoes-u16 v h = Undoes-word 2 v h

pub Undoes-u32 : (v : ℕ) → v < 2 ^ 32 → Undoes (Writer.u32 v) Reader.u32 v
unfolding Reader.u32 Writer.u32
Undoes-u32 v h = Undoes-word 4 v h

pub Undoes-u64 : (v : ℕ) → v < 2 ^ 64 → Undoes (Writer.u64 v) Reader.u64 v
unfolding Reader.u64 Writer.u64
Undoes-u64 v h = Undoes-word 8 v h

pub Undoes-boolean : (v : Bool) → Undoes (Writer.boolean v) Reader.boolean v
unfolding Reader.boolean Writer.boolean Writer.u8
Undoes-boolean true = Undoes-last (λ v. not (v == 0)) (Undoes-u8 1 (omega arith))
Undoes-boolean false = Undoes-last (λ v. not (v == 0)) (Undoes-u8 0 (omega arith))

-- `bytes` carries no length: the reader must ask for as many as were written.
pub Undoes-bytes :
    (xs out : Bytes) (n : ℕ) → length xs ≡ n → Undoes (Writer.bytes xs) (Reader.bytes out n) xs
unfolding Writer.bytes Reader.bytes
Undoes-bytes xs out n h = record {
  written = xs;
  writes = λ buf. refl;
  reads = λ more. slice-append (λ xs. xs) out n xs more h;
}

-- The bytes behind a length, for a length that fits its 16 bits.
Undoes-sized :
    (n : ℕ) (s : Bytes)
    → length s ≡ n
    → n < 2 ^ 16
    → Undoes (λ buf. (buf ++ le_bytes 2 n) ++ s) Reader.str s
unfolding Reader.str Reader.chars Reader.u16 ◌>>=◌
Undoes-sized n s h fits = record {
  written = le_bytes 2 n ++ s;
  writes = λ buf. append_assoc buf (le_bytes 2 n) s;
  reads = λ more.
      ap (λ t. Reader.str (reader t)) (append_assoc (le_bytes 2 n) s more)
      ∙ ap (λ p. Reader.chars p.0 p.1) (word-le_bytes 2 n (s ++ more) fits)
      ∙ slice-append (λ xs. xs) [] n s more h;
}

-- The capped count is the length of what is copied.
str_lem :
    (s buf : Bytes)
    → Writer.str s buf ≡ (buf ++ le_bytes 2 (length (take max_string s))) ++ take max_string s
unfolding Writer.str
str_lem s buf = elim (Bool-cases (ltb max_string (length s))) [
  | inl long ↦ rw (long, length-take max_string s, min_left s long)
  | inr short ↦
      rw (short, take-all s max_string (ground arith), take-all s (length s) (omega arith))
]
  where
    min_left :
        (s : Bytes) → ltb max_string (length s) ≡ true → min max_string (length s) ≡ max_string
    min_left s h = ground arith

-- A string comes back cut to the cap.
pub Undoes-str : (s : Bytes) → Undoes (Writer.str s) Reader.str (take max_string s)
Undoes-str s = rw (fun_ext (str_lem s)) (
    Undoes-sized (length (take max_string s)) (take max_string s) refl
      (omega (arith, length-take max_string s)))
