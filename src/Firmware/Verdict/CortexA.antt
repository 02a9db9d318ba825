-- ===== src/Firmware/Verdict/CortexA.antt =====
-- What the exit codes of platforms/basic_cortexA/firmware/main.c say.
use systemc_model.Base.{ℕ, ◌≡◌, refl, ◌⊎◌, inl, inr, Bool, true, false, List}
use systemc_model.Firmware.Program.{Piece, Program, done, bind, Bus, Regs, run}
use systemc_model.Firmware.Program.Ends.{Ends, Ends-bind, Allowed, Never, run-Allowed}
use systemc_model.Firmware.Log.{log_line}
use systemc_model.Firmware.CortexA.{
  exit_app, mmio_write_ctrl, mmio_write_value, mmio_write_cmp, mmio_write_intr, mmio_read_intr,
  require, greeting, reset_phase, compare_test, overflow_test, disable_test, farewell, main,
}
use systemc_model.Firmware.Verdict.Rules.{steps}
use systemc_model.Firmware.SelfTest.Report.{line, rule}
use Prim.Native.String.{String}

-- The log ends with a line that names a failure, and the line that announces the exit.
abbrev pub HasFailed : List Piece → Type 0
HasFailed out =
    (msg : String) × (rest : List Piece) × (out ≡ line "FAIL: exiting with error" (line msg rest))

abbrev pub HasCompleted : List Piece → Type 0
HasCompleted out =
    (rest : List Piece) × (out
      ≡ line "[boot] Clean shutdown via semihosting"
          (rule (line "  ALL TESTS COMPLETED" (rule rest))))

abbrev pub Verdict : ℕ → List Piece → Type 0
Verdict code out = ((code ≡ 0) × HasCompleted out) ⊎ ((code ≡ 1) × HasFailed out)

abbrev Calm : {A : Type 0} → Program A → Type 0
Calm p = Ends Verdict (Unit {0}) p

require-Ends : (good : Bool) (msg : String) → Calm (require good msg)
unfolding require exit_app log_line bind Ends
require-Ends true msg = λ out. tt
require-Ends false msg = λ out. inr (refl, (msg, out, refl))

mmio_write_ctrl-Ends : (v : ℕ) → Calm (mmio_write_ctrl v)
unfolding mmio_write_ctrl
mmio_write_ctrl-Ends v = search steps depth 20

mmio_write_value-Ends : (v : ℕ) → Calm (mmio_write_value v)
unfolding mmio_write_value
mmio_write_value-Ends v = search steps depth 20

mmio_write_cmp-Ends : (v : ℕ) → Calm (mmio_write_cmp v)
unfolding mmio_write_cmp
mmio_write_cmp-Ends v = search steps depth 20

mmio_write_intr-Ends : (v : ℕ) → Calm (mmio_write_intr v)
unfolding mmio_write_intr
mmio_write_intr-Ends v = search steps depth 20

done-Ends : {A : Type 0} (a : A) → Calm (done a)
unfolding Ends
done-Ends a = λ out. tt

mmio_read_intr-Ends : Calm mmio_read_intr
unfolding mmio_read_intr
mmio_read_intr-Ends = search (steps, done-Ends) depth 20

greeting-Ends : Calm greeting
unfolding greeting log_line bind Ends
greeting-Ends = λ out. tt

ruleset texts = (
  steps, require-Ends, mmio_write_ctrl-Ends, mmio_write_value-Ends, mmio_write_cmp-Ends,
  mmio_write_intr-Ends, mmio_read_intr-Ends,
)

reset_phase-Ends : Calm reset_phase
unfolding reset_phase
reset_phase-Ends = search texts depth 60 fits 3000

compare_test-Ends : Calm compare_test
unfolding compare_test
compare_test-Ends = search texts depth 60 fits 3000

overflow_test-Ends : Calm overflow_test
unfolding overflow_test
overflow_test-Ends = search texts depth 60 fits 3000

disable_test-Ends : Calm disable_test
unfolding disable_test Ends
disable_test-Ends = search texts depth 60 fits 3000

farewell-Ends : Ends Verdict ⊥ farewell
unfolding farewell exit_app log_line bind Ends
farewell-Ends = λ out. inl (refl, (out, refl))

after :
    {A B : Type 0} (m : Program A) (f : A → Program B)
    → Calm m
    → ((a : A) → Ends Verdict ⊥ (f a))
    → Ends Verdict ⊥ (bind m f)
after m f h k = Ends-bind Verdict ⊥ m f h k

main-Ends : Ends Verdict ⊥ main
unfolding main
main-Ends =
    search
      (
        after, greeting-Ends, reset_phase-Ends, compare_test-Ends, overflow_test-Ends,
        disable_test-Ends, farewell-Ends,
      )
      depth 30

-- On any platform the firmware of the Cortex-A9 never returns from `main`: it ends with the exit
-- code 0 just after the closing lines of the log, with the exit code 1 just after the line of a
-- failed check and the line that announces the exit, or in a fault of an access.
pub timer_main-Verdict :
    {S : Type 0} (bus : Bus S) (handler : Program (Unit {0})) (r : Regs) (s : S)
    → Ends Never (Unit {0}) handler
    → Allowed Verdict ⊥ (run bus handler main r s)
timer_main-Verdict bus handler r s h = run-Allowed bus handler h Verdict ⊥ main r s main-Ends
