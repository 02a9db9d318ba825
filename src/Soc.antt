-- ===== src/Soc.antt =====
-- Soc/cortexm_pl.h with the memory map of include/soc_memory_map.h: the platform's wiring.
pub mod Map
pub mod Safety
pub mod Irq
pub mod HostMemory
pub mod Reach
pub mod Clocked
pub mod Octets
use systemc_model.Base.{if◌then◌else◌, ℕ, ◌-◌, ◌^◌, bit_or, ◌≡◌, refl, Bool, true, Option, some}
use systemc_model.Base.{List, [], ◌∷◌}
use systemc_model.Tlm.{Transport}
use systemc_model.Interconnect.Decoder
use systemc_model.Interconnect.Decoder.{Decoder, Region, tlm_decoder, map_slave, sink}
use systemc_model.Bridges.AhbApb
use systemc_model.Peripherals.Sram
use systemc_model.Peripherals.Sram.{Sram}
use systemc_model.Peripherals.Gpio
use systemc_model.Peripherals.Gpio.{Gpio}
use systemc_model.Peripherals.Uart
use systemc_model.Peripherals.Uart.{Uart}
use systemc_model.Peripherals.SysCtrl
use systemc_model.Peripherals.SysCtrl.{SysCtrl}
use systemc_model.Peripherals.Wdt
use systemc_model.Peripherals.Wdt.{Wdt}
use mathlib.Core.Option

abbrev pub pl_slot_size : ℕ
pl_slot_size = 0x1000

abbrev pub pl_timer_offset : ℕ
pl_timer_offset = 0x00000

abbrev pub pl_sram_offset : ℕ
pl_sram_offset = 0x08000

abbrev pub pl_apb_offset : ℕ
pl_apb_offset = 0x10000

abbrev pub pl_apb_window_size : ℕ
pl_apb_window_size = 0x4000

abbrev pub pl_gpio_offset : ℕ
pl_gpio_offset = 0x10000

abbrev pub pl_uart_offset : ℕ
pl_uart_offset = 0x11000

abbrev pub pl_sysctrl_offset : ℕ
pl_sysctrl_offset = 0x12000

abbrev pub pl_wdt_offset : ℕ
pl_wdt_offset = 0x13000

abbrev pub pl_sram_bytes : ℕ
pl_sram_bytes = 0x1000

-- The calls of `map_slave` on a decoder, in order; `none` is a failed assertion.
unfoldable pub map_all : List (ℕ × ℕ × ℕ) → Decoder → Option Decoder
map_all [] d = some d
map_all ((idx, base, size) ∷ rest) d = Option.bind (map_slave idx base size d) (map_all rest)

abbrev pub ahb_slaves : List (ℕ × ℕ × ℕ)
ahb_slaves =
    (0, pl_timer_offset, pl_slot_size)
    ∷ (1, pl_sram_offset, pl_sram_bytes)
    ∷ (2, pl_apb_offset, pl_apb_window_size)
    ∷ []

abbrev pub apb_slaves : List (ℕ × ℕ × ℕ)
apb_slaves =
    (0, pl_gpio_offset - pl_apb_offset, pl_slot_size)
    ∷ (1, pl_uart_offset - pl_apb_offset, pl_slot_size)
    ∷ (2, pl_sysctrl_offset - pl_apb_offset, pl_slot_size)
    ∷ (3, pl_wdt_offset - pl_apb_offset, pl_slot_size)
    ∷ []

abbrev slave : ℕ → ℕ → Region
slave base size = record { base = base; size = size; used = true }

-- What the constructor leaves in `ahb` and `apb`.
abbrev pub ahb : Decoder
ahb = record {
  regions = slave 0x0 0x1000 ∷ slave 0x8000 0x1000 ∷ slave 0x10000 0x4000 ∷ Decoder.unused ∷ [];
  cycle = 10;
}

abbrev pub apb : Decoder
apb = record {
  regions = slave 0x0 0x1000 ∷ slave 0x1000 0x1000 ∷ slave 0x2000 0x1000 ∷ slave 0x3000 0x1000 ∷ [];
  cycle = 0;
}

-- The mapping calls succeed and leave these tables.
pub maps_succeed :
    (map_all ahb_slaves (record tlm_decoder { cycle = 10 }) ≡ some ahb)
    × (map_all apb_slaves (record tlm_decoder { cycle = 0 }) ≡ some apb)
unfolding map_all map_slave Option.bind
maps_succeed = (refl, refl)

-- The targets of the platform. `T` is the state behind the pin bridge of the timer.
pub record Soc (T : Type 0) : Type 0 where
  pub timer : T
  pub sram : Sram
  pub gpio : Gpio
  pub uart : Uart
  pub sysctrl : SysCtrl
  pub wdt : Wdt

module _ {T : Type 0} (timer_bridge : Transport T) where
  unfoldable pub on_timer : Transport (Soc T)
  on_timer s t = let (x, u) = timer_bridge s.timer t in (record s { timer = x }, u)

  unfoldable pub on_sram : Transport (Soc T)
  on_sram s t = let (x, u) = Sram.b_transport s.sram t in (record s { sram = x }, u)

  unfoldable pub on_gpio : Transport (Soc T)
  on_gpio s t = let (x, u) = Gpio.b_transport s.gpio t in (record s { gpio = x }, u)

  unfoldable pub on_uart : Transport (Soc T)
  on_uart s t = let (x, u) = Uart.b_transport s.uart t in (record s { uart = x }, u)

  unfoldable pub on_sysctrl : Transport (Soc T)
  on_sysctrl s t = let (x, u) = SysCtrl.b_transport s.sysctrl t in (record s { sysctrl = x }, u)

  unfoldable pub on_wdt : Transport (Soc T)
  on_wdt s t = let (x, u) = Wdt.b_transport s.wdt t in (record s { wdt = x }, u)

  unfoldable pub apb_transport : Transport (Soc T)
  apb_transport = Decoder.b_transport on_gpio on_uart on_sysctrl on_wdt apb

  -- What stands behind `ahb.cpu_socket`.
  unfoldable pub b_transport : Transport (Soc T)
  b_transport = Decoder.b_transport on_timer on_sram (AhbApb.b_transport apb_transport 20) sink ahb

-- `pack_irqs`, over the levels of the five lines.
unfoldable pub pack_irqs : Bool → Bool → Bool → Bool → Bool → ℕ
pack_irqs intr1 intr2 uart gpio wdt =
    let b0 = if intr1 then bit_or 0 (2 ^ 0) else 0 in
    let b1 = if intr2 then bit_or b0 (2 ^ 1) else b0 in
    let b2 = if uart then bit_or b1 (2 ^ 2) else b1 in
    let b3 = if gpio then bit_or b2 (2 ^ 3) else b2 in if wdt then bit_or b3 (2 ^ 4) else b3
