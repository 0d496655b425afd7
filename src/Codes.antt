-- ===== src/Codes.antt =====
-- security/SessionCodes.cpp: the session codes. A `std::string` is a list of characters, a
-- character its unsigned byte: the tests on a signed `char` agree, as no letter is above 127.
use iran_remote_play.Prelude.{
  ℕ, zero, suc, ◌+◌, ◌-◌, ◌*◌, ◌/◌, ◌%◌, ◌^◌, ◌≤◌, ◌<◌, min, max, ◌≡◌, refl, sym, ap, ◌∙◌, subst,
  ◌≢◌, ◌⊎◌, inl, inr, Option, none, some, List, [], ◌∷◌, ◌++◌, map, Bool, true, false, ◌&&◌, ◌||◌,
  not, if◌then◌else◌, leb, ltb, ◌==◌, length, take, drop, get_or, set, replicate, arith, take-all,
  append-nil, append_assoc, Bool-cases, Option-cases, length-append, length-take, length-drop, All,
  append-eq-nil, take-append, drop-append,
}
use Prim.Native.Nat.{bit_or, bit_xor}
pub mod Bits
pub mod Compare
pub mod Normal
pub mod Verify

abbrev pub dash : ℕ
dash = b'-'

abbrev pub code_alphabet : List ℕ
code_alphabet =
    b'A' ∷ b'B' ∷ b'C' ∷ b'D' ∷ b'E' ∷ b'F' ∷ b'G' ∷ b'H' ∷ b'J' ∷ b'K' ∷ b'L' ∷ b'M' ∷ b'N' ∷ b'P'
    ∷ b'Q' ∷ b'R' ∷ b'S' ∷ b'T' ∷ b'U' ∷ b'V' ∷ b'W' ∷ b'X' ∷ b'Y' ∷ b'Z' ∷ b'2' ∷ b'3' ∷ b'4'
    ∷ b'5' ∷ b'6' ∷ b'7' ∷ b'8' ∷ b'9' ∷ []

-- The loop of `randomCodeChars`: `draws` is the number of random words taken so far, and
-- `random_word i` is the word that the `i`-th call of `secureRandom32` returns.
unfoldable pub random_code_chars : (ℕ → ℕ) → ℕ → ℕ → ℕ → ℕ → List ℕ × ℕ
random_code_chars random_word zero buf bits draws = ([], draws)
random_code_chars random_word (suc count) buf bits draws =
    let refill = ltb bits 8 in
    let buf' = if refill then random_word draws else buf in
    let bits' = if refill then 32 else bits in
    let draws' = if refill then draws + 1 else draws in
    let rest = random_code_chars random_word count (buf' / 256) (bits' - 8) draws' in
    (get_or code_alphabet (buf' % 256 % 32) 0 ∷ rest.0, rest.1)

-- The left operand of the `+` is evaluated first.
unfoldable pub generate_session_code : (ℕ → ℕ) → ℕ → List ℕ
generate_session_code random_word draws =
    let left = random_code_chars random_word 4 0 0 draws in
    left.0 ++ (dash ∷ (random_code_chars random_word 4 0 0 left.1).0)

unfoldable pub upper : ℕ → ℕ
upper ch = if leb b'a' ch && leb ch b'z' then ch - b'a' + b'A' else ch

-- The first loop of `normalizeSessionCode`.
unfoldable pub compact : List ℕ → List ℕ
compact [] = []
compact (ch ∷ input) =
    let rest = compact input in if ch == dash || ch == 32 then rest else upper ch ∷ rest

unfoldable pub found : List ℕ → ℕ → Bool
found [] ch = false
found (a ∷ alphabet) ch = a == ch || found alphabet ch

unfoldable pub all_found : List ℕ → Bool
all_found [] = true
all_found (ch ∷ chars) = found code_alphabet ch && all_found chars

abbrev pub canonical : List ℕ → List ℕ
canonical chars = take 4 chars ++ (dash ∷ take 4 (drop 4 chars))

unfoldable pub normalize_session_code : List ℕ → Option (List ℕ)
normalize_session_code input =
    if not (length (compact input) == 8)
    then none
    else if not (all_found (compact input))
    then none
    else some (canonical (compact input))

-- The loop of `constantTimeEqual`, on strings of one length.
unfoldable pub diff_loop : ℕ → List ℕ → List ℕ → ℕ
diff_loop diff [] ys = diff
diff_loop diff (x ∷ xs) [] = diff
diff_loop diff (x ∷ xs) (y ∷ ys) = diff_loop (bit_or diff (bit_xor x y) % 256) xs ys

unfoldable pub constant_time_equal : List ℕ → List ℕ → Bool
constant_time_equal a b = if not (length a == length b) then false else diff_loop 0 a b == 0

abbrev pub verify_normalized : Option (List ℕ) → Option (List ℕ) → Bool
verify_normalized none a = false
verify_normalized (some p) none = false
verify_normalized (some p) (some a) = constant_time_equal p a

unfoldable pub verify_session_code : List ℕ → List ℕ → Bool
verify_session_code presented actual =
    verify_normalized (normalize_session_code presented) (normalize_session_code actual)
