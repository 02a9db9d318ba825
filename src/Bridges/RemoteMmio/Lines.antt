-- ===== src/Bridges/RemoteMmio/Lines.antt =====
-- The interrupt lines.
use systemc_model.Base.{ltb, leb, ◌==◌, if◌then◌else◌, length, get_or, set, length-set}
use systemc_model.Base.{get_or-replicate, get_or-set_self, get_or-set_ne, ℕ, zero, suc, ◌+◌}
use systemc_model.Base.{◌/◌, ◌%◌, ◌^◌, ◌≤◌, ◌<◌, bit_xor, ◌≡◌, refl, ap, Bool, true, false}
use systemc_model.Base.{◌&&◌, List, arith}
use systemc_model.Base.Bits.{testbit, has_any, testbit-bit_xor, testbit-zero, has_any-two_pow}
use systemc_model.Base.Bits.{testbit-shift}
use systemc_model.Bridges.RemoteMmio.{
  RemoteMmioState, remote_mmio_instance_init, set_irqs, update_irqs, remote_mmio_max_irq,
}
use native.Mathlib.Decide.{ℕ_discrete}
use mathlib.Core.Bool.{xor}

-- The eight lines show the low bits of the word that was applied last.
pub record IsShown (s : RemoteMmioState) : Type 0 where
  pub count : length s.irqs ≡ remote_mmio_max_irq
  pub shown : (k : ℕ) → k < remote_mmio_max_irq → get_or s.irqs k false ≡ testbit s.irq_last k

length-set_irqs :
    (n i bits changed : ℕ) (irqs : List Bool)
    → length (set_irqs n i bits changed irqs) ≡ length irqs
unfolding set_irqs
length-set_irqs zero i bits changed irqs = refl
length-set_irqs (suc n) i bits changed irqs = ground (
  arith,
  length-set irqs i (bits / 2 ^ i % 2 == 1),
  length-set_irqs n (i + 1) bits changed
      (if has_any changed (2 ^ i) then set irqs i (bits / 2 ^ i % 2 == 1) else irqs),
)

set_one :
    (b v : Bool) (irqs : List Bool) (i k : ℕ)
    → i < length irqs
    → get_or (if b then set irqs i v else irqs) k false
      ≡ (if (k == i) && b then v else get_or irqs k false)
set_one true v irqs i k h = elim (ℕ_discrete k i) [
  | yes e ↦
      ground (arith, ap (λ j. get_or (set irqs i v) j false) e, get_or-set_self irqs i v false h)
  | no ne ↦ ground (arith, get_or-set_ne irqs i k v false)
]
set_one false v irqs i k h = ground arith

get_or-set_irqs :
    (n i bits changed k : ℕ) (irqs : List Bool)
    → i + n ≤ length irqs
    → get_or (set_irqs n i bits changed irqs) k false ≡ (
        if leb i k && ltb k (i + n) && testbit changed k
        then testbit bits k
        else get_or irqs k false)
unfolding set_irqs
get_or-set_irqs zero i bits changed k irqs h = ground arith
get_or-set_irqs (suc n) i bits changed k irqs h =
    let bit = bits / 2 ^ i % 2 == 1 in
    let irqs' = if has_any changed (2 ^ i) then set irqs i bit else irqs in
    let same : length irqs' ≡ length irqs = ground (arith, length-set irqs i bit) in
    ground (
      arith,
      get_or-set_irqs n (i + 1) bits changed k irqs' (omega (arith, same)),
      set_one (has_any changed (2 ^ i)) bit irqs i k (omega arith),
      has_any-two_pow changed i,
      testbit-shift i bits,
    )

xor-select : (x y : Bool) → (if xor x y then x else y) ≡ x
unfolding xor
xor-select true true = refl
xor-select true false = refl
xor-select false true = refl
xor-select false false = refl

-- Taking the changed bits of `a` and leaving the others gives `a`.
changed_bit :
    (a b k : ℕ) → (if testbit (bit_xor a b) k then testbit a k else testbit b k) ≡ testbit a k
changed_bit a b k = rw (testbit-bit_xor a b k) (xor-select (testbit a k) (testbit b k))

-- Applying a word keeps the lines in step with it.
pub update_irqs-IsShown :
    (bits : ℕ) (s : RemoteMmioState) → IsShown s → IsShown (update_irqs bits s)
unfolding update_irqs
update_irqs-IsShown bits s h = record {
  count = ground (arith, h.count, length-set_irqs 8 0 bits (bit_xor bits s.irq_last) s.irqs);
  shown = λ k lt. ground (
    arith,
    h.count,
    h.shown k lt,
    get_or-set_irqs 8 0 bits (bit_xor bits s.irq_last) k s.irqs (omega (arith, h.count)),
    changed_bit bits s.irq_last k,
  );
}

pub init-IsShown : (path : List ℕ) → IsShown (remote_mmio_instance_init path)
unfolding remote_mmio_instance_init
init-IsShown path = record {
  count = refl;
  shown = λ k h. ground (arith, testbit-zero k, get_or-replicate 8 k false);
}
