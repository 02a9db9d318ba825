-- ===== src/Peripherals/Timer/Bench.antt =====
-- peripherals/timer/timer_tb.cpp: the timer's test bench, with the scheduling of its clock and of
-- the timer's methods. The times printed are not modelled.
use systemc_model.Base.{◌==◌, if◌then◌else◌, ℕ, zero, suc, ◌+◌, ◌*◌, bit_and, ◌≡◌, refl, Bool}
use systemc_model.Base.{true, false, not, ◌&&◌, List, [], ◌∷◌}
use systemc_model.Base.Bits.{not_word, has_any}
use systemc_model.Peripherals.Timer.{
  Timer, Pins, timer, bus_read_method, bus_write_method, reset_method, irq_output_method,
  timer_thread,
}
use Prim.Native.String.{String}

pub data Line : Type 0 where
  note pass fail : String → Line
  wrote was_read : ℕ → ℕ → Line

-- The timer at rest after its last method, the levels of its two interrupt pins as the bench reads
-- them where it stands, and what it has printed, the newest line first.
pub record Bench : Type 0 where
  pub dut : Timer
  pub intr1 : Bool
  pub intr2 : Bool
  pub out : List Line

abbrev pub Run : Type 0 → Type 0
Run A = Bench → A × Bench

infixl 5 ◌>>=◌ ◌>>◌
abbrev pub ◌>>=◌ : {A B : Type 0} → Run A → (A → Run B) → Run B
◌>>=◌ m f s = let (a, s') = m s in f a s'

abbrev pub ◌>>◌ : {B : Type 0} → Run (Unit {0}) → Run B → Run B
m >> k = m >>= λ _. k

abbrev pub pure : {A : Type 0} → A → Run A
pure a s = (a, s)

abbrev print : Line → Run (Unit {0})
print l s = (tt, record s { out = l ∷ s.out })

-- A notification runs the method of the interrupt outputs before time goes on.
unfoldable pub settled : Timer → Timer
settled t = if t.irq_changed_ev then irq_output_method t else t

-- `wait(clk.posedge_event())`: the bench goes on at the edge together with the timer's thread, and
-- reads the levels that the pins had until then.
unfoldable pub posedge : Run (Unit {0})
unfolding settled
posedge s =
    (tt, record s { dut = settled (timer_thread s.dut); intr1 = s.dut.intr1; intr2 = s.dut.intr2 })

abbrev pins : Bool → Bool → Bool → ℕ → ℕ → Pins
pins reset read_en write_en a v = record {
  reset = reset;
  read_en = read_en;
  write_en = write_en;
  data_in = v;
  address = a;
}

-- What the methods of the timer make of signals that rise.
abbrev methods : (Timer → Timer) → Run (Unit {0})
methods f s = (tt, record s { dut = settled (f s.dut) })

unfoldable pub write_reg : ℕ → ℕ → Run (Unit {0})
write_reg a v = do
  posedge
  methods (bus_write_method (pins false false true a v))
  posedge
  print (wrote a v)

abbrev data_out : Run ℕ
data_out s = (s.dut.data_out, s)

unfoldable pub read_reg : ℕ → Run ℕ
read_reg a = do
  posedge
  methods (bus_read_method (pins false true false a 0))
  value ← data_out
  posedge
  print (was_read a value)
  pure value

-- A `wait` of at most one clock period ends before the next edge that the bench waits for.
unfoldable pub wait_ns : ℕ → Run (Unit {0})
wait_ns n = pure tt

abbrev read_intr1 : Run Bool
read_intr1 s = (s.intr1, s)

abbrev read_intr2 : Run Bool
read_intr2 s = (s.intr2, s)

-- The loops that poll the status register, with `rounds` left.
unfoldable pub poll_status : ℕ → ℕ → Run Bool
poll_status mask zero s = (false, s)
poll_status mask (suc rounds) s =
    let (status, s') = (wait_ns 10 >> read_reg 0xC) s in
    elim (has_any status mask) [ true ↦ (true, s') | false ↦ poll_status mask rounds s' ]

abbrev verdict : Bool → String → String → Run (Unit {0})
verdict good passed failed = if good then print (pass passed) else print (fail failed)

unfoldable pub register_tests : Run (Unit {0})
register_tests = do
  print (note "TEST1 : Register Reset")
  _ ← read_reg 0x0
  _ ← read_reg 0x4
  _ ← read_reg 0x8
  _ ← read_reg 0xC
  print (note "TEST2 : Control Register")
  write_reg 0x0 1
  _ ← read_reg 0x0
  print (note "TEST3 : Compare Register")
  write_reg 0x8 20
  _ ← read_reg 0x8
  print (note "TEST4 : Timer Counting")
  wait_ns 5
  _ ← read_reg 0x4
  pure tt

unfoldable pub compare_test : Run (Unit {0})
compare_test = do
  print (note "TEST5 : Compare Interrupt")
  write_reg 0x0 0
  write_reg 0x4 0
  write_reg 0xC 0
  write_reg 0x8 10
  write_reg 0x0 0x7
  cmp_seen ← poll_status 0x2 200
  pin ← read_intr1
  verdict (cmp_seen && pin) "Compare IRQ asserted on intr1" "Compare IRQ"
  status ← read_reg 0xC
  write_reg 0xC (bit_and status (not_word 0x2))
  pin' ← read_intr1
  verdict (not pin') "Compare IRQ cleared on intr1" "Compare IRQ still asserted on intr1"

unfoldable pub overflow_test : Run (Unit {0})
overflow_test = do
  print (note "TEST6 : Overflow")
  write_reg 0x0 0
  write_reg 0xC 0
  write_reg 0x0 0x7
  write_reg 0x4 250
  ov_seen ← poll_status 0x4 200
  pin ← read_intr2
  verdict (ov_seen && pin) "Overflow IRQ asserted on intr2" "Overflow IRQ"
  status ← read_reg 0xC
  write_reg 0xC (bit_and status (not_word 0x4))
  pin' ← read_intr2
  verdict (not pin') "Overflow IRQ cleared on intr2" "Overflow IRQ still asserted on intr2"

unfoldable pub disable_test : Run (Unit {0})
disable_test = do
  print (note "TEST7 : Disable Timer")
  write_reg 0x0 0
  before ← read_reg 0x4
  wait_ns 1
  after ← read_reg 0x4
  verdict (before == after) "Timer Stopped" "Timer Still Running"

-- The loop of the last test, at `i` with `left` rounds to go.
unfoldable pub multiple_writes : ℕ → ℕ → Run (Unit {0})
multiple_writes i zero = pure tt
multiple_writes i (suc left) = do
  write_reg 0x8 (i * 10)
  _ ← read_reg 0x8
  multiple_writes (i + 1) left

unfoldable pub run : Run (Unit {0})
run = do
  print (note "TIMER VERIFICATION STARTED")
  methods (reset_method (pins true false false 0 0))
  wait_ns 2
  methods (reset_method (pins false false false 0 0))
  print (note "Reset Completed")
  register_tests
  compare_test
  overflow_test
  disable_test
  print (note "TEST8 : Consecutive Register Writes")
  multiple_writes 0 5
  print (note "ALL TESTS COMPLETED")

-- The bench before its thread runs.
abbrev pub timer_tb : ℕ → ℕ → Bench
timer_tb val cmp = record { dut = timer val cmp; intr1 = false; intr2 = false; out = [] }

-- The lines of verdict, the first one first.
unfoldable pub verdicts : List Line → List Line → List Line
verdicts acc [] = acc
verdicts acc (pass w ∷ ls) = verdicts (pass w ∷ acc) ls
verdicts acc (fail w ∷ ls) = verdicts (fail w ∷ acc) ls
verdicts acc (_ ∷ ls) = verdicts acc ls

-- The timer passes its test bench, whatever its counter and its compare value are when it is made:
-- the compare interrupt shows on its pin and goes when it is cleared, likewise the overflow
-- interrupt, and the disabled timer stands still.
pub bench_passes :
    (val cmp : ℕ)
    → verdicts [] (run (timer_tb val cmp)).1.out
      ≡ pass "Compare IRQ asserted on intr1"
        ∷ pass "Compare IRQ cleared on intr1"
        ∷ pass "Overflow IRQ asserted on intr2"
        ∷ pass "Overflow IRQ cleared on intr2"
        ∷ pass "Timer Stopped"
        ∷ []
unfolding run register_tests compare_test overflow_test disable_test multiple_writes poll_status
    write_reg read_reg posedge wait_ns verdicts settled bus_read_method bus_write_method
    reset_method irq_output_method timer_thread
bench_passes val cmp = refl
