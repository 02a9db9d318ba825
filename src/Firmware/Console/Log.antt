-- ===== src/Firmware/Console/Log.antt =====
-- platforms/basic_cortexA/firmware/log.h: the log over the guest's serial port.
use systemc_model.Base.{◌==◌, if◌then◌else◌, ℕ, zero, suc, ◌+◌, ◌*◌, ◌/◌, ◌%◌, ◌^◌, bit_and}
use systemc_model.Base.{Bool, true, false, Option, none, some}
use systemc_model.Base.Bits.{u32, has_any}
use systemc_model.Firmware.Console.{uart_putc, uart_puts}
use systemc_model.Firmware.Console.Text.{bytes}
use systemc_model.Firmware.Log.{hex}
use Prim.Native.String.{String}

-- What follows an operation: `none` is a loop on the port's flags that has not ended, or an access to
-- the register that is not answered.
infixl 5 ◌>>=◌
abbrev pub ◌>>=◌ : {A B : Type 0} → Option A → (A → Option B) → Option B
none >>= f = none
some a >>= f = f a

-- A read of `UARTFR` and a write of `UARTDR`, and how often a loop may read the flags.
module _ {P : Type 0} (uartfr : P → ℕ × P) (uartdr : ℕ → P → P) (patience : ℕ) where
  abbrev puts : String → P → Option P
  puts s p = uart_puts uartfr uartdr patience (bytes s) p

  -- The loop of `log_put_hex32`, with `n` digits to go.
  unfoldable pub put_digits : ℕ → ℕ → P → Option P
  put_digits zero v p = some p
  put_digits (suc n) v p =
      uart_putc uartfr uartdr patience (hex (bit_and (v / 2 ^ (4 * n)) 0xF)) p >>= put_digits n v

  unfoldable pub log_put_hex32 : ℕ → P → Option P
  log_put_hex32 v p = puts "0x" p >>= put_digits 8 v

  unfoldable pub log_line : String → P → Option P
  log_line msg p = do p ← puts msg p; puts "\n" p

  unfoldable pub log_mmio_write : String → ℕ → ℕ → P → Option P
  log_mmio_write reg offset value p = do
    p ← puts "[mmio] WRITE " p
    p ← puts reg p
    p ← puts " @+" p
    p ← log_put_hex32 offset p
    p ← puts " = " p
    p ← log_put_hex32 value p
    puts "\n" p

  unfoldable pub log_mmio_read : String → ℕ → ℕ → P → Option P
  log_mmio_read reg offset value p = do
    p ← puts "[mmio] READ  " p
    p ← puts reg p
    p ← puts " @+" p
    p ← log_put_hex32 offset p
    p ← puts " -> " p
    p ← log_put_hex32 value p
    puts "\n" p

  unfoldable pub report_set : String → ℕ → ℕ → P → Option P
  report_set label polls v p = do
    p ← puts "[poll] " p
    p ← puts label p
    p ← puts " set after " p
    p ← log_put_hex32 polls p
    p ← puts " reads, INTR=" p
    p ← log_put_hex32 v p
    puts "\n" p

  unfoldable pub report_waiting : ℕ → ℕ → P → Option P
  report_waiting polls v p =
      if polls % 200000 == 0
      then (do
        p ← puts "[poll] still waiting (" p
        p ← log_put_hex32 polls p
        p ← puts " reads, INTR=" p
        p ← log_put_hex32 v p
        puts ")\n" p)
      else some p

  -- The platform, and a read of the volatile register `*reg`.
  module _ {W : Type 0} (reg : W → Option (ℕ × W)) where
    -- After the last round the register is read once more, in the middle of the message.
    unfoldable pub report_timeout : String → ℕ → P × W → Option (P × W)
    report_timeout label polls (p, w) = do
      p ← puts "[poll] TIMEOUT " p
      p ← puts label p
      p ← puts " after " p
      p ← log_put_hex32 polls p
      p ← puts " reads, INTR=" p
      x ← reg w
      p ← log_put_hex32 x.0 p
      p ← puts "\n" p
      some (p, x.1)

    -- The loop, with `spins` rounds to go, after `polls` polls. The result is whether the code
    -- returns 0.
    unfoldable pub wait_loop : ℕ → String → ℕ → ℕ → P × W → Option (Bool × P × W)
    wait_loop mask label zero polls s = do s ← report_timeout label polls s; some (false, s.0, s.1)
    wait_loop mask label (suc spins) polls (p, w) = do
      let polls' = u32 (polls + 1)
      x ← reg w
      elim (has_any x.0 mask) [
        | true ↦ (do p ← report_set label polls' x.0 p; some (true, p, x.1))
        | false ↦ (do p ← report_waiting polls' x.0 p; wait_loop mask label spins polls' (p, x.1))
      ]

    unfoldable pub log_wait_bit : ℕ → ℕ → String → P × W → Option (Bool × P × W)
    log_wait_bit mask spins label (p, w) = do
      p ← puts "[poll] waiting for " p
      p ← puts label p
      p ← puts " (mask " p
      p ← log_put_hex32 mask p
      p ← puts ")...\n" p
      wait_loop mask label spins 0 (p, w)
