-- ===== src/Base/Bits/Laws.antt =====
-- How the operations act bit by bit, and words that agree on every bit.
use Prim.Native.Nat.{ℕ, zero, suc, ◌-◌, ◌/◌, ◌%◌, ◌^◌, ◌≤◌, ◌<◌, max, differ}
use Prim.Native.Nat.{bit_and, bit_or, bit_xor, bit_and-bitwise}
use mathlib.Core.Path.{◌≡◌, refl}
use mathlib.Core.Bool.{false, not, xor, ◌&&◌, ◌||◌}
use native.Mathlib.Nat.{pow-suc}
use native.Mathlib.Omega.{arith}
use systemc_model.Base.Tests.{◌==◌}
use systemc_model.Base.Bits.Step.{bit_and_low, bit_or_low, bit_xor_low}
use systemc_model.Base.Bits.Defs.{testbit, not_word}

bit_and_half : (a b : ℕ) → bit_and a b / 2 ≡ bit_and (a / 2) (b / 2)
bit_and_half a b = omega (arith, bit_and_low a b)

bit_or_half : (a b : ℕ) → bit_or a b / 2 ≡ bit_or (a / 2) (b / 2)
bit_or_half a b = omega (arith, bit_or_low a b)

differ_lt : (x y : ℕ) → x < 2 → y < 2 → differ x y < 2
differ_lt zero y h k = k
differ_lt (suc x) zero h k = h
differ_lt (suc zero) (suc y) h k = omega arith
differ_lt (suc (suc x)) (suc y) h k = absurd (omega arith)

differ_bit : (a b : ℕ) → differ (a % 2) (b % 2) < 2
differ_bit a b = differ_lt (a % 2) (b % 2) (omega arith) (omega arith)

bit_xor_half : (a b : ℕ) → bit_xor a b / 2 ≡ bit_xor (a / 2) (b / 2)
bit_xor_half a b = omega (arith, bit_xor_low a b, differ_bit a b)

pub testbit-bit_and : (a b k : ℕ) → testbit (bit_and a b) k ≡ (testbit a k && testbit b k)
unfolding testbit
testbit-bit_and a b zero = ground (arith, bit_and_low a b)
testbit-bit_and a b (suc k) = rw (bit_and_half a b) (testbit-bit_and (a / 2) (b / 2) k)

pub testbit-bit_or : (a b k : ℕ) → testbit (bit_or a b) k ≡ (testbit a k || testbit b k)
unfolding testbit
testbit-bit_or a b zero = ground (arith, bit_or_low a b)
testbit-bit_or a b (suc k) = rw (bit_or_half a b) (testbit-bit_or (a / 2) (b / 2) k)

pub testbit-bit_xor : (a b k : ℕ) → testbit (bit_xor a b) k ≡ xor (testbit a k) (testbit b k)
unfolding testbit xor
testbit-bit_xor a b zero = ground (arith, bit_xor_low a b)
testbit-bit_xor a b (suc k) = rw (bit_xor_half a b) (testbit-bit_xor (a / 2) (b / 2) k)

pub testbit-zero : (k : ℕ) → testbit 0 k ≡ false
unfolding testbit
testbit-zero zero = refl
testbit-zero (suc k) = testbit-zero k

testbit_complement : (n a k : ℕ) → a < 2 ^ n → k < n → testbit (2 ^ n - 1 - a) k ≡ not (testbit a k)
unfolding testbit
testbit_complement zero a k h lt = absurd (omega arith)
testbit_complement (suc n) a zero h lt = ground (arith, pow-suc 2 n)
testbit_complement (suc n) a (suc k) h lt =
    let halved : (2 ^ suc n - 1 - a) / 2 ≡ 2 ^ n - 1 - a / 2 = omega (arith, pow-suc 2 n) in
    rw halved (testbit_complement n (a / 2) k (omega (arith, pow-suc 2 n)) (omega arith))

pub testbit-not_word : (a k : ℕ) → a < 2 ^ 32 → k < 32 → testbit (not_word a) k ≡ not (testbit a k)
testbit-not_word a k h lt = testbit_complement 32 a k h lt

low_bit_ext : (a b : ℕ) → (a % 2 == 1) ≡ (b % 2 == 1) → a % 2 ≡ b % 2
low_bit_ext a b h = ground arith

-- Numbers below 2 ^ n that agree on their n bits are equal.
pub testbit_ext :
    (n a b : ℕ) → a < 2 ^ n → b < 2 ^ n → ((k : ℕ) → k < n → testbit a k ≡ testbit b k) → a ≡ b
unfolding testbit
testbit_ext zero a b ha hb h = omega arith
testbit_ext (suc n) a b ha hb h =
    let halves : a / 2 ≡ b / 2 =
      testbit_ext n (a / 2) (b / 2) (omega (arith, pow-suc 2 n)) (omega (arith, pow-suc 2 n))
        (λ k lt. h (suc k) (omega arith)) in
    let lows : a % 2 ≡ b % 2 = low_bit_ext a b (h 0 (omega arith)) in omega arith

pub bit_or-lt : (n a b : ℕ) → a < 2 ^ n → b < 2 ^ n → bit_or a b < 2 ^ n
bit_or-lt zero a b ha hb =
    let x : a ≡ 0 = omega arith in let y : b ≡ 0 = omega arith in ground arith
bit_or-lt (suc n) a b ha hb =
    let low : max (a % 2) (b % 2) < 2 = omega arith in
    let halves : bit_or (a / 2) (b / 2) < 2 ^ n =
      bit_or-lt n (a / 2) (b / 2) (omega (arith, pow-suc 2 n)) (omega (arith, pow-suc 2 n)) in
    omega (arith, bit_or_low a b, pow-suc 2 n)

bit_and_le_fuel : (n a b : ℕ) → a ≤ n → bit_and a b ≤ a
bit_and_le_fuel zero a b h =
    let e : a ≡ 0 = omega arith in rw e (omega (arith, bit_and-bitwise 0 b))
bit_and_le_fuel (suc n) zero b h = omega (arith, bit_and-bitwise 0 b)
bit_and_le_fuel (suc n) (suc a) b h =
    omega (arith, bit_and_low (suc a) b, bit_and_le_fuel n (suc a / 2) (b / 2) (omega arith))

pub bit_and-le : (a b : ℕ) → bit_and a b ≤ a
bit_and-le a b = bit_and_le_fuel a a b (omega arith)
