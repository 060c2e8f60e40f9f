-- ===== src/Prelude/Bits.antt =====
-- Laws of `bit_xor` at variables, from its lowest digit, and tables over small ranges.
use Prim.Native.Nat.{bit_xor, digits, bit_xor-bitwise, differ}
use native.Mathlib.Nat.{pow-suc}
use gt06n_tcp_server.Prelude.{
  ℕ, zero, suc, ◌+◌, ◌*◌, ◌/◌, ◌%◌, ◌^◌, ◌≤◌, ◌<◌, ◌≡◌, refl, Bool, true, ◌&&◌, arith,
}

abbrev xor_digits : ℕ → ℕ → ℕ → ℕ
xor_digits n a b = digits (λ b. b) differ n a b

-- Fuel beyond the first number changes nothing.
xor_digits_same : (x y f g : ℕ) → x ≤ g → x ≤ f → xor_digits f x y ≡ xor_digits g x y
xor_digits_same zero y (suc f) (suc g) hg hf = refl
xor_digits_same zero y (suc f) zero hg hf = refl
xor_digits_same zero y zero (suc g) hg hf = refl
xor_digits_same zero y zero zero hg hf = refl
xor_digits_same (suc x) y f zero hg hf = absurd (omega arith)
xor_digits_same (suc x) y zero (suc g) hg hf = absurd (omega arith)
xor_digits_same (suc x) y (suc f) (suc g) hg hf =
    let half = xor_digits_same (suc x / 2) (y / 2) f g (omega arith) (omega arith) in
    omega (arith, half)

zero-bit_xor : (b : ℕ) → bit_xor 0 b ≡ b
zero-bit_xor b = bit_xor-bitwise 0 b

-- The law for the lowest digit.
bit_xor_digit : (a b : ℕ) → bit_xor a b ≡ bit_xor (a / 2) (b / 2) * 2 + differ (a % 2) (b % 2)
bit_xor_digit zero b = omega (arith, zero-bit_xor b, zero-bit_xor (b / 2))
bit_xor_digit (suc a) b = omega (
  arith,
  bit_xor-bitwise (suc a) b,
  bit_xor-bitwise (suc a / 2) (b / 2),
  xor_digits_same (suc a / 2) (b / 2) a (suc a / 2) (omega arith) (omega arith),
)

differ_bits : (x y : ℕ) → x < 2 → y < 2 → differ x y ≡ (x + y) % 2
differ_bits zero zero h k = refl
differ_bits zero (suc zero) h k = refl
differ_bits (suc zero) zero h k = refl
differ_bits (suc zero) (suc zero) h k = refl
differ_bits (suc (suc x)) y h k = absurd (omega arith)
differ_bits zero (suc (suc y)) h k = absurd (omega arith)
differ_bits (suc zero) (suc (suc y)) h k = absurd (omega arith)

pub bit_xor_step : (a b : ℕ) → bit_xor a b ≡ bit_xor (a / 2) (b / 2) * 2 + (a % 2 + b % 2) % 2
bit_xor_step a b =
    omega (arith, bit_xor_digit a b, differ_bits (a % 2) (b % 2) (omega arith) (omega arith))

-- Xor with a fixed number can be undone, on either side.
bit_xor_cancel_fuel : (n a b c : ℕ) → a ≤ n → b ≤ n → bit_xor a c ≡ bit_xor b c → a ≡ b
bit_xor_cancel_fuel zero a b c ha hb e = omega arith
bit_xor_cancel_fuel (suc n) a b c ha hb e = omega (
  arith,
  bit_xor_step a c,
  bit_xor_step b c,
  bit_xor_cancel_fuel n (a / 2) (b / 2) (c / 2) (omega arith) (omega arith)
      (omega (arith, bit_xor_step a c, bit_xor_step b c)),
)

pub bit_xor_cancel : (a b c : ℕ) → bit_xor a c ≡ bit_xor b c → a ≡ b
bit_xor_cancel a b c e = bit_xor_cancel_fuel (a + b) a b c (omega arith) (omega arith) e

bit_xor_cancel_left_fuel : (n a b c : ℕ) → a ≤ n → b ≤ n → bit_xor c a ≡ bit_xor c b → a ≡ b
bit_xor_cancel_left_fuel zero a b c ha hb e = omega arith
bit_xor_cancel_left_fuel (suc n) a b c ha hb e = omega (
  arith,
  bit_xor_step c a,
  bit_xor_step c b,
  bit_xor_cancel_left_fuel n (a / 2) (b / 2) (c / 2) (omega arith) (omega arith)
      (omega (arith, bit_xor_step c a, bit_xor_step c b)),
)

pub bit_xor_cancel_left : (a b c : ℕ) → bit_xor c a ≡ bit_xor c b → a ≡ b
bit_xor_cancel_left a b c e = bit_xor_cancel_left_fuel (a + b) a b c (omega arith) (omega arith) e

-- Xor stays within the width of its arguments.
pub bit_xor-lt : (k a b : ℕ) → a < 2 ^ k → b < 2 ^ k → bit_xor a b < 2 ^ k
bit_xor-lt zero a b ha hb =
    let p : a ≡ 0 = omega arith in let q : b ≡ 0 = omega arith in rw (p, q) (omega arith)
bit_xor-lt (suc k) a b ha hb = omega (
  arith,
  pow-suc 2 k,
  bit_xor_step a b,
  bit_xor-lt k (a / 2) (b / 2) (omega (arith, pow-suc 2 k)) (omega (arith, pow-suc 2 k)),
)

-- A test on every number under a bound, run by evaluation.
unfoldable pub passes_below : ℕ → (ℕ → Bool) → Bool
passes_below zero test = true
passes_below (suc bound) test = passes_below bound test && test bound

-- What the test of a whole range says at one number.
pub passes_below_at :
    (bound : ℕ) (test : ℕ → Bool) (i : ℕ)
    → passes_below bound test ≡ true
    → i < bound
    → test i ≡ true
unfolding passes_below
passes_below_at zero test i passed small = absurd (omega arith)
passes_below_at (suc bound) test i passed small = ground (arith, passes_below_at bound test i)
