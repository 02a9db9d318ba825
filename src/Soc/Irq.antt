-- ===== src/Soc/Irq.antt =====
-- The word of interrupt levels.
use systemc_model.Base.{◌==◌, if◌then◌else◌, ℕ, ◌^◌, bit_or, ◌≡◌, Bool, false, arith}
use systemc_model.Base.Bits.{testbit, testbit-zero, testbit_if_or}
use systemc_model.Soc.{pack_irqs}

-- Bit 0 of the word is the timer's compare line, 1 its overflow line, 2 the serial port's, 3 the
-- pins' and 4 the watchdog's, and no other bit is set.
pub pack_irqs_bits :
    (intr1 intr2 uart gpio wdt : Bool) (k : ℕ)
    → testbit (pack_irqs intr1 intr2 uart gpio wdt) k ≡ (
        if k == 0
        then intr1
        else if k == 1
        then intr2
        else if k == 2
        then uart
        else if k == 3
        then gpio
        else if k == 4
        then wdt
        else false)
unfolding pack_irqs
pack_irqs_bits intr1 intr2 uart gpio wdt k =
    let b0 = if intr1 then bit_or 0 (2 ^ 0) else 0 in
    let b1 = if intr2 then bit_or b0 (2 ^ 1) else b0 in
    let b2 = if uart then bit_or b1 (2 ^ 2) else b1 in
    let b3 = if gpio then bit_or b2 (2 ^ 3) else b2 in
    ground (
      arith,
      testbit-zero k,
      testbit_if_or intr1 0 0 k,
      testbit_if_or intr2 1 b0 k,
      testbit_if_or uart 2 b1 k,
      testbit_if_or gpio 3 b2 k,
      testbit_if_or wdt 4 b3 k,
    )
