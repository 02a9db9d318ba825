-- ===== src/Peripherals/Uart.antt =====
-- peripherals/uart_pl011.h: the serial port.
pub mod Laws
pub mod Reach
pub mod Fifo
use systemc_model.Base.{ltb, leb, ◌==◌, if◌then◌else◌, length, ℕ, ◌^◌, bit_and, bit_or, Bool}
use systemc_model.Base.{true, false, ◌&&◌, none, some, List, [], ◌∷◌, ◌++◌}
use systemc_model.Base.Bits.{u32, u8, not_word, has_any}
use systemc_model.Tlm.{Command, Transport, tlm_unpack_u32, tlm_pack_u32, finish, command_error}

-- `console` is what has been printed to the host's standard output.
pub record Uart : Type 0 where
  pub cr : ℕ
  pub lcrh : ℕ
  pub ibrd : ℕ
  pub fbrd : ℕ
  pub imsc : ℕ
  pub ris : ℕ
  pub tx : List ℕ
  pub rx : List ℕ
  pub irq_ev : Bool
  pub irq : Bool
  pub console : List ℕ

abbrev pub fifo_depth : ℕ
fifo_depth = 16

abbrev pub cr_uarten : ℕ
cr_uarten = 2 ^ 0

abbrev pub cr_lbe : ℕ
cr_lbe = 2 ^ 7

abbrev pub cr_txe : ℕ
cr_txe = 2 ^ 8

abbrev pub cr_rxe : ℕ
cr_rxe = 2 ^ 9

abbrev pub lcrh_fen : ℕ
lcrh_fen = 2 ^ 4

abbrev pub int_rx : ℕ
int_rx = 2 ^ 4

abbrev pub int_tx : ℕ
int_tx = 2 ^ 5

-- `UARTEN | TXE | RXE`
abbrev pub cr_initial : ℕ
cr_initial = bit_or (bit_or cr_uarten cr_txe) cr_rxe

abbrev pub uart_pl011 : Uart
uart_pl011 = record {
  cr = cr_initial;
  lcrh = lcrh_fen;
  ibrd = 1;
  fbrd = 0;
  imsc = 0;
  ris = int_tx;
  tx = [];
  rx = [];
  irq_ev = false;
  irq = false;
  console = [];
}

unfoldable pub drive_irq : Uart → Uart
drive_irq s = record s { irq_ev = false; irq = has_any s.ris s.imsc }

abbrev pub is_empty : List ℕ → Bool
is_empty [] = true
is_empty (x ∷ xs) = false

abbrev pub fr_bit : Bool → ℕ → ℕ → ℕ
fr_bit b m fr = if b then bit_or fr m else fr

unfoldable pub flags : Uart → ℕ
flags s =
    let after_txfe = fr_bit (is_empty s.tx) (2 ^ 7) 0 in
    let after_txff = fr_bit (leb fifo_depth (length s.tx)) (2 ^ 5) after_txfe in
    let after_rxfe = fr_bit (is_empty s.rx) (2 ^ 4) after_txff in
    fr_bit (leb fifo_depth (length s.rx)) (2 ^ 6) after_rxfe

unfoldable pub on_reset : Bool → Uart → Uart
on_reset reset s =
    if reset
    then record s {
      cr = cr_initial;
      lcrh = lcrh_fen;
      ibrd = 1;
      fbrd = 0;
      imsc = 0;
      ris = int_tx;
      tx = [];
      rx = [];
      irq_ev = true;
    }
    else s

-- The two halves of `transmit`: the host's console, and the loopback into the receive FIFO.
unfoldable pub print : ℕ → Uart → Uart
print ch s =
    if has_any s.cr cr_uarten && has_any s.cr cr_txe
    then record s { console = s.console ++ (ch ∷ []) }
    else s

unfoldable pub loop_back : ℕ → Uart → Uart
loop_back ch s =
    if has_any s.cr cr_lbe && (has_any s.cr cr_rxe && ltb (length s.rx) fifo_depth)
    then record s { rx = s.rx ++ (ch ∷ []); ris = bit_or s.ris int_rx }
    else s

unfoldable pub transmit : ℕ → Uart → Uart
unfolding print loop_back
transmit ch s =
    let u = loop_back ch (print ch s) in record u { ris = bit_or u.ris int_tx; irq_ev = true }

-- A read of DR: the oldest byte leaves the FIFO.
unfoldable pub receive : Uart → ℕ × Uart
receive s = elim s.rx [
  | [] ↦ (0, s)
  | x ∷ rest ↦ (
    x,
    record s {
      rx = rest;
      ris = if is_empty rest then bit_and s.ris (not_word int_rx) else s.ris;
      irq_ev = true;
    },
  )
]

unfoldable pub read_register : Uart → ℕ → ℕ × Uart
read_register s off =
    if off == 0x00
    then receive s
    else if off == 0x18
    then (flags s, s)
    else if off == 0x24
    then (s.ibrd, s)
    else if off == 0x28
    then (s.fbrd, s)
    else if off == 0x2C
    then (s.lcrh, s)
    else if off == 0x30
    then (s.cr, s)
    else if off == 0x38
    then (s.imsc, s)
    else if off == 0x3C
    then (s.ris, s)
    else if off == 0x40
    then (bit_and s.ris s.imsc, s)
    else if off == 0xFE0
    then (0x11, s)
    else (0, s)

unfoldable pub write_register : Uart → ℕ → ℕ → Uart
write_register s off v =
    if off == 0x00
    then transmit (u8 v) s
    else if off == 0x24
    then record s { ibrd = bit_and v 0xFFFF }
    else if off == 0x28
    then record s { fbrd = bit_and v 0x3F }
    else if off == 0x2C
    then record s { lcrh = v }
    else if off == 0x30
    then record s { cr = v }
    else if off == 0x38
    then record s { imsc = v; irq_ev = true }
    else if off == 0x44
    then record s { ris = bit_and s.ris (not_word v); irq_ev = true }
    else s

-- The register is read, and DR popped, before the access is checked.
unfoldable pub b_transport : Transport Uart
b_transport s t =
    let off = u32 t.address in
    elim t.command [
      | Command.read ↦
          let (value, s') = read_register s off in
          let (good, u) = tlm_pack_u32 t value in if good then (s', finish 20 u) else (s', u)
      | Command.write ↦
          let (value, u) = tlm_unpack_u32 t in
          elim value [ none ↦ (s, u) | some v ↦ (write_register s off v, finish 20 u) ]
      | Command.ignore ↦ (s, record t { response = command_error })
    ]
