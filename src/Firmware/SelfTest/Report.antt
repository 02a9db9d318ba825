-- ===== src/Firmware/SelfTest/Report.antt =====
-- What platforms/basic_cortexM/firmware/main.c logs while its tests pass.
use systemc_model.Base.{false, List, ◌∷◌}
use systemc_model.Firmware.Program.{Piece, text, number, Regs}
use systemc_model.Firmware.CortexM.{pl_base}
use Prim.Native.String.{String}

-- A line of the log, in front of what was put out before it.
abbrev pub line : String → List Piece → List Piece
line s out = text "\n" ∷ text s ∷ out

abbrev pub rule : List Piece → List Piece
rule = line "========================================"

abbrev pub booted : List Piece → List Piece
booted out =
    text " AHB+APB\n"
    ∷ number pl_base
    ∷ text "[boot] PL "
    ∷ line "[boot] Cortex-M3  machine: systemc-soc"
        (rule (line "  basic_cortexM — production VP firmware" (rule out)))

abbrev pub magic_read : List Piece → List Piece
magic_read out =
    text "\n"
    ∷ number 0x534F4332
    ∷ text " -> "
    ∷ number 0x00
    ∷ text " @+"
    ∷ text "MAGIC"
    ∷ text "[mmio] READ  "
    ∷ out

abbrev pub scratch_written : List Piece → List Piece
scratch_written out =
    text "\n"
    ∷ number 0xA5A55A5A
    ∷ text " = "
    ∷ number 0x08
    ∷ text " @+"
    ∷ text "SCRATCH"
    ∷ text "[mmio] WRITE "
    ∷ out

-- The log up to the end of the fifth test, its newest piece first.
abbrev pub five_passes : List Piece → List Piece
five_passes out =
    let sysctrl =
      line "PASS: SysCtrl"
        (scratch_written (magic_read (line "[test 0] SysCtrl" (line "" (booted out))))) in
    let sram = line "PASS: SRAM" (line "[test 1] AHB SRAM" (line "" sysctrl)) in
    let gpio = line "PASS: GPIO" (line "[test 2] APB GPIO + edge IRQ status" (line "" sram)) in
    let uart =
      line "PASS: UART loopback" (line "[test 3] APB PL011 UART loopback" (line "" gpio)) in
    line "PASS: UART IRQ" (line "[test 4] UART RX IRQ via NVIC" (line "" uart))

-- Interrupts are masked again, one of the port was served, and the log has grown.
abbrev pub tested : Regs → Regs
tested r = record { unmasked = false; uart_irqs = 1; out = five_passes r.out }
