-- ===== src/Peripherals/Timer/Reach.antt =====
-- The timer as a state machine: every state that strobes, resets and clock edges can bring about.
use systemc_model.Base.{ℕ, ◌^◌, ◌<◌, ◌≡◌, sym, false, arith}
use systemc_model.Base.Bits.{testbit, testbit-zero, bit_or-lt, has_any-two_pow}
use systemc_model.Peripherals.Timer.{
  Timer, Pins, timer, bus_read_method, bus_write_method, reset_method, commit_intr,
  irq_output_method, timer_thread,
}
use systemc_model.Peripherals.Timer.Count.{intr_of, ctrl_of}

-- The processes of the module. `edge` and `output` both run at a rising edge, in an order that
-- is not determined; `output` also when `irq_changed_ev` is notified.
pub data Step (s : Timer) : Timer → Type 0 where
  strobe_read : (p : Pins) → Step s (bus_read_method p s)
  strobe_write : (p : Pins) → p.data_in < 2 ^ 32 → Step s (bus_write_method p s)
  change_reset : (p : Pins) → Step s (reset_method p s)
  edge : Step s (timer_thread s)
  output : Step s (irq_output_method s)

pub data Reach : Timer → Type 0 where
  start : (val cmp : ℕ) → val < 2 ^ 32 → cmp < 2 ^ 32 → Reach (timer val cmp)
  later : {s u : Timer} → Reach s → Step s u → Reach u

-- The registers hold words, and unless a notification is pending each interrupt line is at the
-- level of its status bit.
pub record IsValid (s : Timer) : Type 0 where
  pub ctrl_small : ctrl_of s < 2 ^ 32
  pub intr_small : intr_of s < 2 ^ 32
  pub val_small : s.timer_val < 2 ^ 32
  pub cmp_small : s.timer_cmp < 2 ^ 32
  pub data_small : s.data_out < 2 ^ 32
  pub cmp_settled : s.irq_changed_ev ≡ false → s.intr1 ≡ testbit (intr_of s) 1
  pub ov_settled : s.irq_changed_ev ≡ false → s.intr2 ≡ testbit (intr_of s) 2

commit-IsValid : (v : ℕ) (s : Timer) → v < 2 ^ 32 → IsValid s → IsValid (commit_intr v s)
unfolding commit_intr
commit-IsValid v s small h = ground arith

timer_thread-IsValid : (s : Timer) → IsValid s → IsValid (timer_thread s)
unfolding timer_thread
timer_thread-IsValid s h =
    ground
      (arith, bit_or-lt 32 (intr_of s) 2, bit_or-lt 32 (intr_of s) 4, bit_or-lt 32 (intr_of s) 6)

Step-IsValid : {s u : Timer} → Step s u → IsValid s → IsValid u
unfolding bus_read_method bus_write_method reset_method irq_output_method
Step-IsValid (strobe_read p) h = ground arith
Step-IsValid (strobe_write p small) h = ground arith
Step-IsValid (change_reset p) h = ground arith
Step-IsValid {s} edge h = timer_thread-IsValid s h
Step-IsValid {s} output h =
    ground (arith, has_any-two_pow (intr_of s) 1, has_any-two_pow (intr_of s) 2)

start-IsValid : (val cmp : ℕ) → val < 2 ^ 32 → cmp < 2 ^ 32 → IsValid (timer val cmp)
start-IsValid val cmp h k = record {
  ctrl_small = omega arith;
  intr_small = omega arith;
  val_small = h;
  cmp_small = k;
  data_small = omega arith;
  cmp_settled = λ e. sym (testbit-zero 1);
  ov_settled = λ e. sym (testbit-zero 2);
}

-- In every state that the timer can reach, the registers hold words, and unless a notification is
-- pending each interrupt line is at the level of its status bit.
pub timer_always-IsValid : {s : Timer} → Reach s → IsValid s
timer_always-IsValid (start val cmp h k) = start-IsValid val cmp h k
timer_always-IsValid (later r st) = Step-IsValid st (timer_always-IsValid r)
