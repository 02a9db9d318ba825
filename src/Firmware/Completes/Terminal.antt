-- ===== src/Firmware/Completes/Terminal.antt =====
-- The whole run of platforms/basic_cortexA/firmware/main.c on its platform, with its output over the
-- guest's serial port.
use systemc_model.Base.{ℕ, ◌<◌, ◌≡◌, refl, sym, ap, ◌∙◌, true, List, [], ◌++◌}
use systemc_model.Firmware.Program.{Piece, Bus, Regs, Outcome, exited, done}
use systemc_model.Firmware.CortexA.{main}
use systemc_model.Firmware.Board.CortexA.{timer_bus}
use systemc_model.Firmware.Completes.CortexA.{Holds, timer_main_completes}
use systemc_model.Firmware.Console.{IsConsole}
use systemc_model.Firmware.Console.Text.{printed}
use systemc_model.Firmware.Console.Run.{on_console}
use systemc_model.Firmware.Console.Refine.{unlogged, Shows, on_console-Shows}
use systemc_model.Firmware.SelfTest.Report.{line, rule}
use systemc_model.Peripherals.Timer.{Timer}
use systemc_model.Peripherals.Timer.Later.{IsStopped}
use systemc_model.Bridges.PinBridge.{BusPins, PinState}
use systemc_model.Bridges.PinBridge.TimerBus.{IsScheduled}
use mathlib.Core.List.{append-nil}
use mathlib.Core.Path.{subst}

-- The characters of the last lines, after those of `rest`.
abbrev pub closing : List Piece → List ℕ
closing rest =
    printed (
      line "[boot] Clean shutdown via semihosting"
        (rule (line "  ALL TESTS COMPLETED" (rule rest))))

-- What the program finds: interrupts let through, and nothing logged.
abbrev pub at_start : Regs
at_start = record { unmasked = true; uart_irqs = 0; out = [] }

module _ {Q : Type 0} (uartfr : Q → ℕ × Q) (uartdr : ℕ → Q → Q) (busy : Q → ℕ) (sent : Q → List ℕ)
    (console : IsConsole uartfr uartdr busy sent) (patience : ℕ)
    (patient : (q : Q) → busy q < patience) where
  module _ {P : Type 0} (run_pins : ℕ → BusPins → P → P) (data_out : P → ℕ) (timer_of : P → Timer)
      (IsQuiet : P → Type 0) (kernel : IsScheduled run_pins data_out timer_of IsQuiet) where
    abbrev bus : Bus (PinState P)
    bus = timer_bus run_pins data_out

    -- The run exits with code 0, and the port has sent what it had sent before and then a text with
    -- the closing lines at its end.
    abbrev pub Printed : Q → Outcome ℕ (Q × PinState P) → Type 0
    Printed q o =
        (r : Regs) × (q' : Q) × (s : PinState P) × (rest : List Piece) × (o ≡ exited 0 r (q', s))
        × (sent q' ≡ sent q ++ closing rest)

    -- On the Cortex-A platform with the timer as its reset leaves it, however the kernel schedules the
    -- timer's processes in and between the accesses, and on a port that never stays full for longer
    -- than the loops are patient, the firmware with its output over the port runs to its end: it exits
    -- with code 0, and the last that the port sends is the closing lines, character by character.
    pub timer_main_prints :
        (q : Q) (s : PinState P)
        → Holds run_pins data_out timer_of IsQuiet kernel (IsStopped 0 0 0) s
        → Printed q (on_console uartfr uartdr patience bus main at_start (q, s))
    timer_main_prints q s h =
        let (r, s', e, (rest, last)) =
          timer_main_completes run_pins data_out timer_of IsQuiet kernel at_start s h in
        let shown =
          on_console-Shows uartfr uartdr busy sent console patience patient bus (done tt) (sent q)
            main at_start q s (λ _. refl) (unfold printed in sym (append-nil (sent q))) in
        let (q', e', all) =
          subst
            (λ o.
              Shows uartfr uartdr busy sent console patience patient (sent q) o
                (on_console uartfr uartdr patience bus main at_start (q, s)))
            e shown in
        (
          unlogged uartfr uartdr busy sent console patience patient r,
          q',
          s',
          rest,
          e',
          all ∙ ap (λ xs. sent q ++ printed xs) last,
        )
