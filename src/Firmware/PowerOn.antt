-- ===== src/Firmware/PowerOn.antt =====
-- The Cortex-M firmware on the clocked platform from power-on: platforms/basic_cortexM/firmware/main.c
-- after the reset of clocks/clock_reset.h, on the clock of platforms/basic_cortexM/cosim_main.cpp.
use systemc_model.Base.{leb, replicate, length-replicate, ℕ, ◌≤◌, ◌≡◌, refl, sym, ap, ◌∙◌, Bool}
use systemc_model.Base.{true, false, arith}
use systemc_model.Tlm.{Transport}
use systemc_model.Peripherals.Sram
use systemc_model.Clocks.{started}
use systemc_model.Clocks.Laws.{sys_edges, run_levels, started-IsRunning, clock_levels}
use systemc_model.Soc.{Soc}
use systemc_model.Soc.Reach.{built}
use systemc_model.Soc.Clocked.{edges, power_on}
use systemc_model.Soc.Clocked.Reset.{iterate, fresh, power_on-clk, power_on_lem}
use systemc_model.Soc.Clocked.Bite.{IsReleased}
use systemc_model.Firmware.Program.{Regs, run}
use systemc_model.Firmware.CortexM.{uart_handler, main, timed_tests}
use systemc_model.Firmware.Board.{Nvic, Board, board_bus}
use systemc_model.Firmware.Board.Follow.{IsNvic}
use systemc_model.Firmware.Board.Clocked.{Timed, Steady, joined, levels, pass, pass-IsTimed}
use systemc_model.Firmware.Board.Clocked.Rest.{AtRest, AtRest-Steady}
use systemc_model.Firmware.SelfTest.{IsReady, main_passes}
use systemc_model.Firmware.SelfTest.Report.{tested}

-- The clock once the reset has been held for its cycles.
after_reset : (cycles n : ℕ) → cycles ≤ n → IsReleased (sys_edges n (started cycles))
after_reset cycles n h =
    let (running, level, left) = run_levels n (started cycles) (started-IsRunning cycles) in
    let low : (sys_edges n (started cycles)).reset ≡ false =
      ground (arith, (clock_levels cycles n).0) in
    record { reset = low; left = ground (arith, running.held); level = running.same_level }

module _ {T N : Type 0} (bridge : Transport (Timed T)) (timer_edge timer_reset : T → T)
    (intr1 intr2 : T → Bool) (nvic : Nvic N) where
  -- The board `n` edges of `sys_clk` after power-on.
  abbrev pub board_at : ℕ → ℕ → T → N → Board (Timed T) N
  board_at cycles n x no_irq = record {
    soc = joined (
        edges timer_edge timer_reset intr1 intr2 n
          (power_on timer_edge timer_reset intr1 intr2 cycles (built x 100000000 50000000)));
    nvic = no_irq;
    lines = 0;
  }

  pub board_at-IsReady :
      (cycles n : ℕ) (x : T) (no_irq : N)
      → cycles ≤ n
      → ((lines : ℕ) → nvic.fires no_irq lines ≡ false)
      → IsReady (AtRest (iterate n timer_edge (timer_reset x))) nvic (board_at cycles n x no_irq)
  board_at-IsReady cycles n x no_irq h none_fires =
      let s : Soc T = built x 100000000 50000000 in
      let e = power_on_lem timer_edge timer_reset intr1 intr2 cycles n s in
      let clk = power_on-clk timer_edge timer_reset intr1 intr2 cycles n s in
      let late : leb cycles n ≡ true = ground arith in
      record {
        blocks = (
          ap (λ k. record (Sram.sram_ahb 0) { mem = replicate k 0 })
                (sym (length-replicate {A = ℕ} 0x1000 0))
              ∙ ap (λ (u : Soc T). u.sram) (sym e),
          ap (λ (u : Soc T). u.gpio) (sym e),
          ap (λ (u : Soc T). u.uart) (sym e),
          ap (λ b. (fresh b (iterate n timer_edge (timer_reset x)) s).sysctrl) (sym late)
              ∙ ap (λ (u : Soc T). u.sysctrl) (sym e),
        );
        disabled = none_fires;
        line = refl;
        steady = (
          rw clk (after_reset cycles n h),
          ap (λ (u : Soc T). u.timer) e,
          ap (λ (u : Soc T). u.wdt) e,
          refl,
        );
      }

  -- From the power-on of the platform, once the reset has been held for its cycles, the firmware
  -- passes its five tests that do not wait, over the window, the server, the decoders and the blocks,
  -- while the edges of the clock run between its accesses, and goes on with the tests of the watchdog
  -- and the timer. An interrupt controller starts with no interrupt enabled and enables those that
  -- are written to it.
  pub passes_from_power_on :
      (cycles n : ℕ) (x : T) (no_irq : N) (r : Regs)
      → IsNvic nvic
      → cycles ≤ n
      → ((lines : ℕ) → nvic.fires no_irq lines ≡ false)
      → let wait = pass timer_edge timer_reset intr1 intr2 in
        let bus =
          board_bus bridge wait (levels timer_edge timer_reset intr1 intr2) (wait 10) nvic in
        (t : Board (Timed T) N) × (run bus uart_handler main r (board_at cycles n x no_irq)
          ≡ run bus uart_handler timed_tests (tested r) t)
  passes_from_power_on cycles n x no_irq r law h none_fires =
      let wait = pass timer_edge timer_reset intr1 intr2 in
      let start = board_at cycles n x no_irq in
      let ready = board_at-IsReady cycles n x no_irq h none_fires in
      main_passes bridge Steady wait (levels timer_edge timer_reset intr1 intr2) (wait 10) nvic
        (pass-IsTimed timer_edge timer_reset intr1 intr2) law r (board_at cycles n x no_irq)
        (record {
          blocks = ready.blocks;
          disabled = ready.disabled;
          line = ready.line;
          steady = AtRest-Steady start.soc.timer start.soc.wdt ready.steady;
        })
