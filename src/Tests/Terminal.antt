-- ===== src/Tests/Terminal.antt =====
-- The guest's serial port and the output of the Cortex-A firmware on concrete inputs.
use systemc_model.Base.{ltb, if◌then◌else◌, ℕ, ◌+◌, ◌<◌, ◌≡◌, refl, Bool, true, false, some}
use systemc_model.Base.{List, [], ◌∷◌, ◌++◌, arith}
use systemc_model.Base.Bits.{has_any}
use systemc_model.Firmware.Program.{
  Program, text, number, done, put, store, exit, Bus, Outcome, exited, run,
}
use systemc_model.Firmware.CortexA.{main}
use systemc_model.Firmware.Log as Semihost
use systemc_model.Firmware.Board.CortexA as TimerBoard
use systemc_model.Firmware.Console.{IsConsole, uart_puts, uart_putc}
use systemc_model.Firmware.Console.Text.{utf8, bytes, printed}
use systemc_model.Firmware.Console.Log as Log
use systemc_model.Firmware.Console.Run.{on_console}
use systemc_model.Firmware.Console.Copy.{log_copies}
use systemc_model.Firmware.Console.Copy.Lines.{written, result}
use systemc_model.Firmware.Console.Refine.{Shows, on_console-Shows}
use systemc_model.Firmware.Completes.Terminal.{Printed, at_start, timer_main_prints}
use systemc_model.Tests.PinTimer.{started-Holds}
use systemc_model.Bridges.PinBridge.Kernel as Kernel

-- A port with room for one byte, which it has sent by the time its flags have been read once.
record Port : Type 0 where
  full : Bool
  out : List ℕ

abbrev port_fr : Port → ℕ × Port
port_fr s = (if s.full then 32 else 0, record s { full = false })

abbrev port_dr : ℕ → Port → Port
port_dr c s = record { full = true; out = s.out ++ (c ∷ []) }

abbrev load_of : Port → ℕ
load_of s = if s.full then 1 else 0

abbrev out_of : Port → List ℕ
out_of s = s.out

full_or_not : (b : Bool) → has_any (if b then 32 else 0) 32 ≡ true → 0 < (if b then 1 else 0)
full_or_not true h = omega arith
full_or_not false h = cc

little : (b : Bool) → (if b then 1 else 0) < 2
little true = omega arith
little false = omega arith

port-IsConsole : IsConsole port_fr port_dr load_of out_of
port-IsConsole = record {
  waits = λ s h. full_or_not s.full h;
  reads = λ s. refl;
  writes = λ c s h. refl;
}

abbrev empty_port : Port
empty_port = record { full = true; out = 33 ∷ [] }

-- The register, which shows its second bit from the third read on.
abbrev counter_bus : Bus ℕ
counter_bus = record {
  fetch = λ a n. some (if ltb n 2 then 1 else 3, n + 1);
  modify = λ a v n. some v;
  pending = λ n. false;
  idle = λ n. some n;
}

abbrev polled : Outcome Bool (Port × ℕ)
polled =
    on_console port_fr port_dr 2 counter_bus (Semihost.log_wait_bit 0 2 10 "INTR") at_start
      (empty_port, 0)

log_copies_example :
    (on_console port_fr port_dr 2 counter_bus (Semihost.log_line "OK") at_start (empty_port, 0)
      ≡ written port_fr port_dr 2 counter_bus at_start 0
          (Log.log_line port_fr port_dr 2 "OK" empty_port))
    × (on_console port_fr port_dr 2 counter_bus
          (Semihost.log_mmio_write "CMP" 8 20)
          at_start
          (empty_port, 0)
        ≡ written port_fr port_dr 2 counter_bus at_start 0
            (Log.log_mmio_write port_fr port_dr 2 "CMP" 8 20 empty_port))
    × (on_console port_fr port_dr 2 counter_bus
          (Semihost.log_mmio_read "CMP" 8 20)
          at_start
          (empty_port, 0)
        ≡ written port_fr port_dr 2 counter_bus at_start 0
            (Log.log_mmio_read port_fr port_dr 2 "CMP" 8 20 empty_port))
    × (polled
        ≡ result port_fr port_dr 2 counter_bus at_start
            (Log.log_wait_bit port_fr port_dr 2 (counter_bus.fetch 0) 2 10 "INTR" (empty_port, 0)))
log_copies_example =
    log_copies port_fr port_dr 2 counter_bus "OK" "CMP" "INTR" 8 20 0 2 10 at_start empty_port 0

-- The program puts out a text and a number, writes the platform and exits.
abbrev greets : Program (Unit {0})
greets = put (text "OK ") (put (number 0x2F) (store 0 7 (exit 3)))

greets_run :
    (on_console port_fr port_dr 2 counter_bus greets at_start (empty_port, 0))
    ≡ exited 3 at_start (
      record {
        full = true;
        out = 33 ∷ 79 ∷ 75 ∷ 32 ∷ 48 ∷ 120 ∷ 48 ∷ 48 ∷ 48 ∷ 48 ∷ 48 ∷ 48 ∷ 50 ∷ 70 ∷ [];
      },
      7,
    )
unfolding on_console uart_puts uart_putc utf8 bytes Log.log_put_hex32 Log.put_digits Semihost.hex
greets_run = refl

on_console-Shows_example :
    Shows port_fr port_dr load_of out_of port-IsConsole 2
      (λ s. little s.full)
      (33 ∷ [])
      (run counter_bus (done tt) greets at_start 0)
      (on_console port_fr port_dr 2 counter_bus greets at_start (empty_port, 0))
unfolding printed
on_console-Shows_example =
    on_console-Shows port_fr port_dr load_of out_of port-IsConsole 2 (λ s. little s.full)
      counter_bus (done tt) (33 ∷ []) greets at_start empty_port 0 (λ n. refl) refl

timer_main_prints_example :
    Printed port_fr port_dr load_of out_of port-IsConsole 2
      (λ s. little s.full)
      Kernel.run
      Kernel.data_out
      Kernel.timer_of
      Kernel.IsQuiet
      Kernel.run-IsScheduled
      empty_port
      (on_console port_fr port_dr 2
        (TimerBoard.timer_bus Kernel.run Kernel.data_out)
        main
        at_start
        (empty_port, TimerBoard.started 7 9))
timer_main_prints_example =
    timer_main_prints port_fr port_dr load_of out_of port-IsConsole 2 (λ s. little s.full)
      Kernel.run Kernel.data_out Kernel.timer_of Kernel.IsQuiet Kernel.run-IsScheduled empty_port
      (TimerBoard.started 7 9) started-Holds
