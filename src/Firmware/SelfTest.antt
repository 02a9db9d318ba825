-- ===== src/Firmware/SelfTest.antt =====
-- The run of platforms/basic_cortexM/firmware/main.c on the platform of Soc/cortexm_pl.h.
pub mod Report
pub mod Evaluation
use systemc_model.Base.{ℕ, ◌^◌, ◌≡◌, sym, ap, ◌∙◌, false}
use systemc_model.Base.Bits.{has_any}
use systemc_model.Tlm.{Transport}
use systemc_model.Firmware.Program.{Bus, Regs, Outcome, finished, resume, run, interrupted}
use systemc_model.Firmware.Program.Laws.{Follows, run_with-bind, run-Follows}
use systemc_model.Firmware.CortexM.{uart_handler, untimed_tests, timed_tests, main, pl_irq_uart}
use systemc_model.Firmware.Board.{Nvic, Board, board_bus}
use systemc_model.Firmware.Board.Reference.{IsTimed, reference}
use systemc_model.Firmware.Board.Laws.{Same}
use systemc_model.Firmware.Board.Follow.{IsNvic, Matches, board-Simulates}
use systemc_model.Firmware.SelfTest.Report.{tested}
use systemc_model.Firmware.SelfTest.Evaluation.{released, ready_board, reference_passes, final}
use systemc_model.Peripherals.Wdt.{Wdt}
use systemc_model.Soc.{Soc}

-- A board after the reset: the four blocks as they come out of it, no interrupt enabled, and none
-- of the port asked for, with the timer and the watchdog as `Steady` says.
pub record IsReady {T N : Type 0} (Steady : T → Wdt → Type 0) (nvic : Nvic N) (t : Board T N)
    : Type 0 where
  pub blocks : Same (released tt) t.soc
  pub disabled : (lines : ℕ) → nvic.fires t.nvic lines ≡ false
  pub line : has_any t.lines (2 ^ pl_irq_uart) ≡ false
  pub steady : Steady t.soc.timer t.soc.wdt

IsReady-Matches :
    {T N : Type 0} (Steady : T → Wdt → Type 0) (nvic : Nvic N) (t : Board T N)
    → IsReady Steady nvic t
    → Matches Steady nvic ready_board t
IsReady-Matches Steady nvic t h = record {
  blocks = h.blocks;
  enabled = λ lines. sym (h.disabled lines);
  line = sym h.line;
  steady = h.steady;
}

pub main_lem :
    {S : Type 0} (bus : Bus S) (r : Regs) (s : S)
    → run bus uart_handler main r s
      ≡ resume
          (run bus uart_handler untimed_tests r s)
          (λ _ r' s'. run bus uart_handler timed_tests r' s')
unfolding main run
main_lem bus r s =
    run_with-bind bus (interrupted bus uart_handler) untimed_tests (λ _. timed_tests) r s

abbrev Passed : {S T : Type 0} → (S → T → Type 0) → Outcome (Unit {0}) T → S → Regs → Type 0
Passed {T = T} R o s r = (t : T) × (o ≡ finished tt (tested r) t) × R s t

module _ {T N : Type 0} (bridge : Transport T) (Steady : T → Wdt → Type 0)
    (wait : ℕ → Soc T → Soc T) (irq_bits : Soc T → ℕ) (idle : Soc T → Soc T) (nvic : Nvic N)
    (timed : IsTimed Steady wait irq_bits) (law : IsNvic nvic) where
  -- The first part of the program ends on such a board, with the timer and the watchdog steady.
  pub untimed_tests-pass :
      (r : Regs) (t : Board T N)
      → IsReady Steady nvic t
      → (t' : Board T N) × (run
            (board_bus bridge wait irq_bits idle nvic)
            uart_handler
            untimed_tests
            r
            t
          ≡ finished tt (tested r) t')
        × Steady t'.soc.timer t'.soc.wdt
  untimed_tests-pass r t h =
      let bus = board_bus bridge wait irq_bits idle nvic in
      let sim = board-Simulates bridge Steady wait irq_bits idle nvic timed law in
      let follows =
        run-Follows reference bus (Matches Steady nvic) sim uart_handler untimed_tests r ready_board
          t (IsReady-Matches Steady nvic t h) in
      let (t', e, matches) : Passed (Matches Steady nvic) (run bus uart_handler untimed_tests r t)
          (final (run reference uart_handler untimed_tests r ready_board)) r =
        rw (reference_passes r) at follows in
      (t', e, matches.steady)

  -- On a board that is ready, the firmware passes its tests of the system control block, the memory,
  -- the pins, the port's loopback and the port's interrupt, serving that interrupt exactly once, with
  -- the log of five passes, and goes on with the tests of the watchdog and the timer. While the timer
  -- and the watchdog are steady, which passing time keeps, it only drives the interrupt lines of the
  -- pins and the port.
  pub main_passes :
      (r : Regs) (t : Board T N)
      → IsReady Steady nvic t
      → (t' : Board T N) × (run (board_bus bridge wait irq_bits idle nvic) uart_handler main r t
          ≡ run (board_bus bridge wait irq_bits idle nvic) uart_handler timed_tests (tested r) t')
  main_passes r t h =
      let bus = board_bus bridge wait irq_bits idle nvic in
      let (t', e, steady) = untimed_tests-pass r t h in
      (
        t',
        main_lem bus r t ∙ ap (λ o. resume o (λ _ r' s. run bus uart_handler timed_tests r' s)) e,
      )
