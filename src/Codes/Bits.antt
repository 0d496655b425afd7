-- ===== src/Codes/Bits.antt =====
-- The binary digits in the loop of `constantTimeEqual`: when `|` and `^` give zero.
use iran_remote_play.Prelude.{
  ℕ, zero, suc, ◌/◌, ◌%◌, ◌^◌, ◌≤◌, ◌<◌, max, ◌≡◌, refl, sym, ap, ◌∙◌, subst, arith,
}
use native.Mathlib.Nat.{pow-suc}
use Prim.Native.Nat.{bit_or, bit_xor, bit_or-bitwise, bit_xor-bitwise, digits, differ}

or_digits : (n a b : ℕ) → a ≤ n → digits (λ z. z) max n a b ≡ 0 → (a ≡ 0) × (b ≡ 0)
or_digits zero a b small h = (omega arith, h)
or_digits (suc n) zero b small h = (refl, h)
or_digits (suc n) (suc a) b small h =
    let halves = or_digits n (suc a / 2) (b / 2) (omega arith) (omega (arith, h)) in
    (omega (arith, halves, h), omega (arith, halves, h))

differ_self : (x : ℕ) → differ x x ≡ 0
differ_self zero = refl
differ_self (suc x) = differ_self x

differ_zero : (x y : ℕ) → differ x y ≡ 0 → x ≡ y
differ_zero zero y h = sym h
differ_zero (suc x) zero h = absurd (omega (arith, h))
differ_zero (suc x) (suc y) h = ap suc (differ_zero x y h)

xor_digits : (n a b : ℕ) → a ≤ n → digits (λ z. z) differ n a b ≡ 0 → a ≡ b
xor_digits zero a b small h = omega (arith, h)
xor_digits (suc n) zero b small h = sym h
xor_digits (suc n) (suc a) b small h =
    let halves = xor_digits n (suc a / 2) (b / 2) (omega arith) (omega (arith, h)) in
    let last = differ_zero (suc a % 2) (b % 2) (omega (arith, h)) in omega (arith, halves, last)

xor_digits_self : (n a : ℕ) → a ≤ n → digits (λ z. z) differ n a a ≡ 0
xor_digits_self zero a small = omega arith
xor_digits_self (suc n) zero small = refl
xor_digits_self (suc n) (suc a) small =
    omega (arith, xor_digits_self n (suc a / 2) (omega arith), differ_self (suc a % 2))

-- An operation on digits that gives digits keeps a number of `k` digits within `k` digits.
digits_bound :
    (f : ℕ → ℕ → ℕ)
    → ((x y : ℕ) → x < 2 → y < 2 → f x y < 2)
    → (k n a b : ℕ) → a ≤ n
    → a < 2 ^ k
    → b < 2 ^ k
    → digits (λ z. z) f n a b < 2 ^ k
digits_bound f digit k zero a b small ha hb = hb
digits_bound f digit k (suc n) zero b small ha hb = hb
digits_bound f digit zero (suc n) (suc a) b small ha hb = absurd (omega (arith, ha))
digits_bound f digit (suc k) (suc n) (suc a) b small ha hb =
    let double = pow-suc 2 k in
    let halves =
      digits_bound f digit k n (suc a / 2) (b / 2) (omega arith) (omega (arith, ha, double))
        (omega (arith, hb, double)) in
    let last = digit (suc a % 2) (b % 2) (omega arith) (omega arith) in
    omega (arith, halves, last, double)

differ_bound : (x y : ℕ) → x < 2 → y < 2 → differ x y < 2
differ_bound zero y hx hy = hy
differ_bound (suc x) zero hx hy = hx
differ_bound (suc x) (suc y) hx hy = differ_bound x y (omega (arith, hx)) (omega (arith, hy))

pub bit_or_byte : (a b : ℕ) → a < 256 → b < 256 → bit_or a b < 256
bit_or_byte a b ha hb =
    subst (λ v. v < 256) (sym (bit_or-bitwise a b))
      (digits_bound max (λ x y hx hy. omega arith) 8 a a b (omega arith) ha hb)

pub bit_xor_byte : (a b : ℕ) → a < 256 → b < 256 → bit_xor a b < 256
bit_xor_byte a b ha hb =
    subst (λ v. v < 256) (sym (bit_xor-bitwise a b))
      (digits_bound differ differ_bound 8 a a b (omega arith) ha hb)

pub bit_xor_zero : (a b : ℕ) → bit_xor a b ≡ 0 → a ≡ b
bit_xor_zero a b h = xor_digits a a b (omega arith) (sym (bit_xor-bitwise a b) ∙ h)

pub bit_xor_self : (a : ℕ) → bit_xor a a ≡ 0
bit_xor_self a = bit_xor-bitwise a a ∙ xor_digits_self a a (omega arith)

pub bit_or_zero : (a b : ℕ) → bit_or a b ≡ 0 → (a ≡ 0) × (b ≡ 0)
bit_or_zero a b h = or_digits a a b (omega arith) (sym (bit_or-bitwise a b) ∙ h)
