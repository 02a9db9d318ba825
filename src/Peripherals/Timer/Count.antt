-- ===== src/Peripherals/Timer/Count.antt =====
-- What rising clock edges do to the counter and to the interrupt status.
use systemc_model.Base.{◌==◌, if◌then◌else◌, ℕ, ◌+◌, ◌≡◌, Bool, not, ◌&&◌, ◌||◌, arith}
use systemc_model.Base.Bits.{testbit, u32, testbit-bit_or, testbit-two_pow, has_any-two_pow}
use systemc_model.Peripherals.Timer.{Timer, timer_thread}

abbrev pub ctrl_of : Timer → ℕ
ctrl_of s = s.timer_cntrl.value

abbrev pub intr_of : Timer → ℕ
intr_of s = s.timer_intr.value

-- The value that the counter takes before the overflow is looked at.
abbrev pub counted : Timer → ℕ
counted s = u32 (s.timer_val + 1)

abbrev pub matches : Timer → Bool
matches s = testbit (ctrl_of s) 1 && (counted s == s.timer_cmp)

abbrev pub overflows : Timer → Bool
overflows s = testbit (ctrl_of s) 2 && (counted s == 0xFF)

-- A clock edge, on all branches. A disabled timer keeps its state. An enabled one counts modulo
-- 2 ^ 32, and goes on from 0 if the overflow is enabled and the count has come to 255. Each
-- status bit stays set; the compare bit is set if the compare is enabled and the count has come to
-- the compare value, the overflow bit if the counter overflows. Control, compare value, output
-- lines and read data stay, and `irq_output_method` is woken exactly if the status has changed.
pub timer_thread_lem :
    (s : Timer)
    → let u = timer_thread s in
      let on = testbit (ctrl_of s) 0 in
      (u.timer_val ≡ (if on then (if overflows s then 0 else counted s) else s.timer_val))
      × ((k : ℕ)
          → testbit (intr_of u) k ≡ (
              testbit (intr_of s) k
              || (on && ((matches s && (1 == k)) || (overflows s && (2 == k))))))
      × (u.irq_changed_ev ≡ (s.irq_changed_ev || not (intr_of u == intr_of s)))
      × (ctrl_of u ≡ ctrl_of s)
      × (u.timer_cmp ≡ s.timer_cmp)
      × (u.intr1 ≡ s.intr1)
      × (u.intr2 ≡ s.intr2)
      × (u.data_out ≡ s.data_out)
unfolding timer_thread
timer_thread_lem s =
    let on = has_any-two_pow (ctrl_of s) 0 in
    let ce = has_any-two_pow (ctrl_of s) 1 in
    let oe = has_any-two_pow (ctrl_of s) 2 in
    (
      ground arith,
      λ k. ground (
        arith,
        testbit-bit_or (intr_of s) 2 k,
        testbit-bit_or (intr_of s) 4 k,
        testbit-bit_or (intr_of s) 6 k,
        testbit-bit_or 2 4 k,
        testbit-two_pow 1 k,
        testbit-two_pow 2 k,
      ),
      ground arith,
      ground arith,
      ground arith,
      ground arith,
      ground arith,
      ground arith,
    )
