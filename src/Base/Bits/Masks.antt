-- ===== src/Base/Bits/Masks.antt =====
-- Masks: one bit, and the low bits of a word.
use Prim.Native.Nat.{ℕ, zero, suc, ◌+◌, ◌-◌, ◌*◌, ◌/◌, ◌%◌, ◌^◌, ◌≤◌, ◌<◌}
use Prim.Native.Nat.{bit_and, bit_or}
use mathlib.Core.Path.{◌≡◌, refl, ◌∙◌, ap}
use mathlib.Core.Bool.{Bool, not, ◌&&◌, ◌||◌}
use native.Mathlib.Nat.{pow-suc, one-le-pow, div-div-eq-div-mul}
use native.Mathlib.Omega.{arith}
use systemc_model.Base.Tests.{◌==◌, if◌then◌else◌}
use systemc_model.Base.Bits.Step.{bit_and_low}
use systemc_model.Base.Bits.Defs.{testbit, has_any}
use systemc_model.Base.Bits.Laws.{testbit-zero, testbit-bit_or}

bit_and_zero_fuel : (n a : ℕ) → a ≤ n → bit_and a 0 ≡ 0
bit_and_zero_fuel zero a h = let e : a ≡ 0 = omega arith in rw e
bit_and_zero_fuel (suc n) zero h = refl
bit_and_zero_fuel (suc n) (suc a) h =
    omega (arith, bit_and_low (suc a) 0, bit_and_zero_fuel n (suc a / 2) (omega arith))

pub bit_and-zero : (a : ℕ) → bit_and a 0 ≡ 0
bit_and-zero a = bit_and_zero_fuel a a (omega arith)

-- A mask of one bit reads that bit.
pub bit_and-two_pow : (k a : ℕ) → bit_and a (2 ^ k) ≡ (if testbit a k then 2 ^ k else 0)
unfolding testbit
bit_and-two_pow zero a = ground (arith, bit_and_low a 1, bit_and-zero (a / 2))
bit_and-two_pow (suc k) a = ground (
  arith,
  pow-suc 2 k,
  bit_and_low a (2 ^ suc k),
  bit_and-two_pow k (a / 2),
  ap (λ (t : ℕ). bit_and (a / 2) t)
      (let e : 2 ^ suc k / 2 ≡ 2 ^ k = omega (arith, pow-suc 2 k) in e),
)

pub bit_and_test : (k a : ℕ) → (bit_and a (2 ^ k) == 0) ≡ not (testbit a k)
bit_and_test k a = ground (arith, bit_and-two_pow k a, one-le-pow k 2)

pub testbit-two_pow : (j k : ℕ) → testbit (2 ^ j) k ≡ (j == k)
unfolding testbit
testbit-two_pow zero zero = refl
testbit-two_pow zero (suc k) = testbit-zero k ∙ ground arith
testbit-two_pow (suc j) zero = ground (arith, pow-suc 2 j)
testbit-two_pow (suc j) (suc k) =
    let halved : 2 ^ suc j / 2 ≡ 2 ^ j = omega (arith, pow-suc 2 j) in
    rw halved (testbit-two_pow j k ∙ ground arith)

mul-pow_suc : (q k : ℕ) → q * 2 ^ suc k ≡ 2 * (q * 2 ^ k)
mul-pow_suc q k = omega (arith, ap (λ (t : ℕ). q * t) (pow-suc 2 k))

mask_of_parts : (k q r : ℕ) → r < 2 ^ k → bit_and (q * 2 ^ k + r) (2 ^ k - 1) ≡ r
mask_of_parts zero q r h = rw bit_and-zero (omega arith)
mask_of_parts (suc k) q r h =
    let whole : (q * 2 ^ suc k + r) / 2 ≡ q * 2 ^ k + r / 2 = omega (arith, mul-pow_suc q k) in
    let mask : (2 ^ suc k - 1) / 2 ≡ 2 ^ k - 1 = omega (arith, pow-suc 2 k, one-le-pow k 2) in
    let rest : bit_and ((q * 2 ^ suc k + r) / 2) ((2 ^ suc k - 1) / 2) ≡ r / 2 =
      rw (whole, mask) (mask_of_parts k q (r / 2) (omega (arith, pow-suc 2 k))) in
    omega (
      arith,
      bit_and_low (q * 2 ^ suc k + r) (2 ^ suc k - 1),
      mul-pow_suc q k,
      pow-suc 2 k,
      one-le-pow k 2,
    )

-- A mask of `k` low bits is the remainder by `2 ^ k`.
pub bit_and_low_mask : (k a : ℕ) → bit_and a (2 ^ k - 1) ≡ a % 2 ^ k
bit_and_low_mask k a = ground (arith, one-le-pow k 2, mask_of_parts k (a / 2 ^ k) (a % 2 ^ k))

pub two_pow-lt : (j k : ℕ) → j < k → 2 ^ j < 2 ^ k
two_pow-lt j zero h = absurd (omega arith)
two_pow-lt zero (suc k) h = omega (arith, pow-suc 2 k, one-le-pow k 2)
two_pow-lt (suc j) (suc k) h = omega (arith, pow-suc 2 j, pow-suc 2 k, two_pow-lt j k (omega arith))

pub has_any-two_pow : (a k : ℕ) → has_any a (2 ^ k) ≡ testbit a k
has_any-two_pow a k = ground (arith, bit_and_test k a)

-- A bit that is set under a condition.
pub testbit_if_or :
    (b : Bool) (j a k : ℕ)
    → testbit (if b then bit_or a (2 ^ j) else a) k ≡ (testbit a k || (b && (j == k)))
testbit_if_or b j a k = ground (arith, testbit-bit_or a (2 ^ j) k, testbit-two_pow j k)

-- The bit that a shift brings down.
pub testbit-shift : (k a : ℕ) → (a / 2 ^ k % 2 == 1) ≡ testbit a k
unfolding testbit
testbit-shift zero a = ground arith
testbit-shift (suc k) a =
    ground (arith, pow-suc 2 k, div-div-eq-div-mul a 2 (2 ^ k), testbit-shift k (a / 2))
