-- ===== src/Codes/Compare.antt =====
-- The comparison of session codes.
use iran_remote_play.Prelude.{
  ℕ, ◌%◌, ◌<◌, ◌≡◌, refl, subst, ◌↔◌, List, [], ◌∷◌, true, false, not, if◌then◌else◌, ◌==◌, length,
  arith, All,
}
use Prim.Native.Nat.{bit_or, bit_xor}
use iran_remote_play.Prelude.Bytes.{IsByte}
use iran_remote_play.Codes.Bits.{bit_xor_zero, bit_xor_self, bit_or_zero, bit_or_byte, bit_xor_byte}
use iran_remote_play.Codes.{diff_loop, constant_time_equal}

diff_loop_sound :
    (diff : ℕ) (xs ys : List ℕ)
    → diff < 256
    → All IsByte xs
    → All IsByte ys
    → length xs ≡ length ys
    → diff_loop diff xs ys ≡ 0
    → (diff ≡ 0) × (xs ≡ ys)
unfolding diff_loop
diff_loop_sound diff [] [] small hx hy same h = (h, refl)
diff_loop_sound diff [] (y ∷ ys) small hx hy same h = absurd (omega (arith, same))
diff_loop_sound diff (x ∷ xs) [] small hx hy same h = absurd (omega (arith, same))
diff_loop_sound diff (x ∷ xs) (y ∷ ys) small (bx, hx) (by_, hy) same h =
    let byte = bit_or_byte diff (bit_xor x y) small (bit_xor_byte x y bx by_) in
    let rest =
      diff_loop_sound (bit_or diff (bit_xor x y) % 256) xs ys (omega arith) hx hy
        (omega (arith, same)) h in
    let zeros = bit_or_zero diff (bit_xor x y) (omega (arith, byte, rest.0)) in
    let head = bit_xor_zero x y zeros.1 in (zeros.0, cc)

diff_loop_self : (xs : List ℕ) → diff_loop 0 xs xs ≡ 0
unfolding diff_loop
diff_loop_self [] = refl
diff_loop_self (x ∷ xs) = rw (bit_xor_self x) (diff_loop_self xs)

pub constant_time_equal_iff :
    (a b : List ℕ) → All IsByte a → All IsByte b → (constant_time_equal a b ≡ true) ↔ (a ≡ b)
unfolding constant_time_equal
constant_time_equal_iff a b ha hb = (
  λ h. (diff_loop_sound 0 a b (omega arith) ha hb (ground (arith, h)) (ground (arith, h))).1,
  λ same.
      subst (λ c. (if not (length a == length c) then false else diff_loop 0 a c == 0) ≡ true) same
        (let zero_diff = diff_loop_self a in ground (arith, zero_diff)),
)
