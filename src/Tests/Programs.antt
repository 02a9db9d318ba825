-- ===== src/Tests/Programs.antt =====
-- The guest's programs and the clocks on concrete inputs.
use systemc_model.Base.{ltb, if◌then◌else◌, ℕ, ◌≡◌, refl, Bool, true, false, ◌||◌, List, []}
use systemc_model.Base.{◌∷◌, arith}
use systemc_model.Base.Bits.{has_any}
use systemc_model.Firmware.Program.{
  done, text, number, bind, Bus, Regs, finished, run, run_with, undisturbed,
}
use systemc_model.Firmware.Log.{report_set, report_waiting, wait_loop, log_wait_bit}
use systemc_model.Firmware.Log.Laws.{poll, Polled, log_wait_bit_lem}
use systemc_model.Firmware.CortexM.{uart_handler, main}
use systemc_model.Firmware.Program.Ends.{Ends, Allowed, Never}
use systemc_model.Firmware.Verdict.{Verdict, main-Verdict}
use systemc_model.Firmware.Board.{Nvic, Board, board_bus}
use systemc_model.Firmware.Board.Reference.{quiet_timer, settle, uart_line}
use systemc_model.Firmware.Board.Follow.{IsNvic}
use systemc_model.Firmware.SelfTest.Evaluation.{released}

-- The register shows its second bit from the read number 5 on.
abbrev late : ℕ → ℕ
late i = if ltb i 5 then 1 else 3

abbrev pub silent : Regs
silent = record { unmasked = false; uart_irqs = 0; out = [] }

log_wait_bit_lem_example : Polled late 2 0 10 (poll late (log_wait_bit 0 2 10 "INTR") silent 0)
log_wait_bit_lem_example = log_wait_bit_lem late 0 2 10 "INTR" silent (omega arith)

log_wait_bit_run :
    poll late (log_wait_bit 0 2 10 "INTR") silent 0
    ≡ finished true
        (record silent {
          out =
              text "\n"
              ∷ number 3
              ∷ text " reads, INTR="
              ∷ number 6
              ∷ text " set after "
              ∷ text "INTR"
              ∷ text "[poll] "
              ∷ text ")...\n"
              ∷ number 2
              ∷ text " (mask "
              ∷ text "INTR"
              ∷ text "[poll] waiting for "
              ∷ [];
        })
        6
unfolding log_wait_bit wait_loop bind run_with undisturbed report_set report_waiting
log_wait_bit_run = refl

-- A controller that remembers the masks written.
abbrev pub any_enabled : List ℕ → ℕ → Bool
any_enabled [] lines = false
any_enabled (v ∷ vs) lines = any_enabled vs lines || has_any lines v

abbrev pub mask_nvic : Nvic (List ℕ)
mask_nvic = record { set_enable = λ v vs. v ∷ vs; fires = any_enabled }

pub mask_nvic-IsNvic : IsNvic mask_nvic
mask_nvic-IsNvic = record { enables = λ v vs lines. refl }

abbrev board : Board (Unit {0}) (List ℕ)
board = record { soc = released tt; nvic = []; lines = 0 }

abbrev bus : Bus (Board (Unit {0}) (List ℕ))
bus = board_bus quiet_timer settle uart_line (λ s. s) mask_nvic

main-Verdict_example : Allowed Verdict ⊥ (run bus uart_handler main silent board)
main-Verdict_example = main-Verdict bus silent board

calm : Ends Never (Unit {0}) (done tt)
unfolding Ends
calm = λ out. tt
