-- ===== src/Firmware/Verdict.antt =====
-- What the exit codes of the firmware say: platforms/basic_cortexM/firmware/main.c on any board.
pub mod Rules
pub mod CortexA
use systemc_model.Base.{take, ℕ, ◌≡◌, refl, ◌⊎◌, inl, inr, Bool, true, false, List, [], ◌∷◌}
use systemc_model.Firmware.Program.{
  Piece, Program, done, load, store, set_mask, bind, ◌>>◌, Bus, Regs, run,
}
use systemc_model.Firmware.Program.Ends.{Ends, Ends-bind, Allowed, Never, run-Allowed}
use systemc_model.Firmware.Log.{
  log_line, log_mmio_write, log_mmio_read, report_set, report_waiting, report_timeout, wait_loop,
  log_wait_bit,
}
use systemc_model.Firmware.CortexM.{
  uart_handler, mmio_write_named, fail, check, banner, sysctrl_test, sram_test, gpio_test,
  loopback_test, irq_test, wdt_test, timer_test, closing, untimed_tests, timed_tests, main,
}
use systemc_model.Firmware.Verdict.Rules.{steps}
use systemc_model.Firmware.SelfTest.Report.{line, rule}
use Prim.Native.String.{String}
use Prim.Native.Char.{code}

-- The code points of a text.
abbrev pub codes : String → List ℕ
codes String.[] = []
codes (String.◌∷◌ c s) = code c ∷ codes s

-- The newest output is a line that begins with "FAIL:".
abbrev pub HasFailed : List Piece → Type 0
HasFailed out =
    (msg : String) × (rest : List Piece) × (out ≡ line msg rest)
    × (take 5 (codes msg) ≡ codes "FAIL:")

abbrev pub HasCompleted : List Piece → Type 0
HasCompleted out = (rest : List Piece) × (out ≡ rule (line "  ALL TESTS COMPLETED" (rule rest)))

-- Code 0 after the closing lines, and code 1 after a line of failure.
abbrev pub Verdict : ℕ → List Piece → Type 0
Verdict code out = ((code ≡ 0) × HasCompleted out) ⊎ ((code ≡ 1) × HasFailed out)

fail-Ends :
    (D : Type 0) (msg : String) → take 5 (codes msg) ≡ codes "FAIL:" → Ends Verdict D (fail msg)
unfolding fail log_line bind Ends
fail-Ends D msg h = λ out. inr (refl, (msg, out, refl, h))

abbrev Calm : {A : Type 0} → Program A → Type 0
Calm p = Ends Verdict (Unit {0}) p

check-Ends :
    (good : Bool) (msg : String) → take 5 (codes msg) ≡ codes "FAIL:" → Calm (check good msg)
unfolding check
check-Ends true msg h = unfold Ends in λ out. tt
check-Ends false msg h = fail-Ends (Unit {0}) msg h

mmio_write_named-Ends : (name : String) (off reg v : ℕ) → Calm (mmio_write_named name off reg v)
unfolding mmio_write_named
mmio_write_named-Ends name off reg v = search steps depth 20

ruleset texts = (steps, check-Ends, mmio_write_named-Ends, refl)

sysctrl_test-Ends : Calm sysctrl_test
unfolding sysctrl_test
sysctrl_test-Ends = search texts depth 60 fits 3000

sram_test-Ends : Calm sram_test
unfolding sram_test
sram_test-Ends = search texts depth 60 fits 3000

gpio_test-Ends : Calm gpio_test
unfolding gpio_test
gpio_test-Ends = search texts depth 60 fits 3000

loopback_test-Ends : Calm loopback_test
unfolding loopback_test
loopback_test-Ends = search texts depth 60 fits 3000

irq_test-Ends : Calm irq_test
unfolding irq_test Ends
irq_test-Ends = search texts depth 60 fits 3000

wdt_test-Ends : Calm wdt_test
unfolding wdt_test
wdt_test-Ends = search texts depth 60 fits 3000

timer_test-Ends : Calm timer_test
unfolding timer_test Ends
timer_test-Ends = search texts depth 60 fits 3000

banner-Ends : Calm banner
unfolding banner log_line bind Ends
banner-Ends = λ out. tt

untimed_tests-Ends : Calm untimed_tests
unfolding untimed_tests
untimed_tests-Ends =
    search
      (
        steps, banner-Ends, sysctrl_test-Ends, sram_test-Ends, gpio_test-Ends, loopback_test-Ends,
        irq_test-Ends,
      )
      depth 20

-- The closing lines, and the exit with code 0.
closing-Ends : Ends Verdict ⊥ closing
unfolding closing log_line bind Ends
closing-Ends = λ out. inl (refl, (line "" out, refl))

timed_tests-Ends : Ends Verdict ⊥ timed_tests
unfolding timed_tests
timed_tests-Ends =
    Ends-bind Verdict ⊥ wdt_test (λ _. timer_test >> closing) wdt_test-Ends
      (λ _. Ends-bind Verdict ⊥ timer_test (λ _. closing) timer_test-Ends (λ _. closing-Ends))

main-Ends : Ends Verdict ⊥ main
unfolding main
main-Ends =
    Ends-bind Verdict ⊥ untimed_tests (λ _. timed_tests) untimed_tests-Ends (λ _. timed_tests-Ends)

uart_handler-Ends : Ends Never (Unit {0}) uart_handler
unfolding uart_handler bind Ends
uart_handler-Ends = λ out n v out' out''. tt

-- On any platform, with interrupts coming at any time, the firmware's `main` never returns: it ends
-- with the exit code 0 just after the lines that close the log, with the exit code 1 just after a
-- line of the log that begins with "FAIL:", or in a fault of an access.
pub main-Verdict :
    {S : Type 0} (bus : Bus S) (r : Regs) (s : S)
    → Allowed Verdict ⊥ (run bus uart_handler main r s)
main-Verdict bus r s = run-Allowed bus uart_handler uart_handler-Ends Verdict ⊥ main r s main-Ends
