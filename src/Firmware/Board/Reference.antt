-- ===== src/Firmware/Board/Reference.antt =====
-- A board with nothing on it whose registers depend on the passing of time, and what a board has to
-- do in passing time to be like it.
use systemc_model.Base.{◌==◌, if◌then◌else◌, ℕ, ◌-◌, ◌^◌, ◌≡◌, refl, Bool, true, false, ◌&&◌}
use systemc_model.Base.{Option, none, some}
use systemc_model.Base.Bits.{has_any}
use systemc_model.Tlm.{Transport}
use systemc_model.Peripherals.Wdt.{Wdt}
use systemc_model.Soc.{Soc}
use systemc_model.Soc.Clocked.{settled_gpio, settled_uart}
use systemc_model.Soc.Map.{Place, sram, gpio, uart, sysctrl, place_of}
use systemc_model.Firmware.Program.{Bus}
use systemc_model.Firmware.CortexM.{pl_base, nvic_iser0, pl_irq_uart}
use systemc_model.Firmware.Board.{Nvic, Board, in_window, fetch, modify}

-- What passing time does to the four blocks, and bit 2 of the interrupt word, while the timer and the
-- watchdog are as `Steady` says. Passing time keeps them so.
pub record IsTimed {T : Type 0} (Steady : T → Wdt → Type 0) (wait : ℕ → Soc T → Soc T)
    (irq_bits : Soc T → ℕ) : Type 0 where
  pub sram : (d : ℕ) (s : Soc T) → Steady s.timer s.wdt → (wait d s).sram ≡ s.sram
  pub gpio : (d : ℕ) (s : Soc T) → Steady s.timer s.wdt → (wait d s).gpio ≡ settled_gpio s.gpio
  pub uart : (d : ℕ) (s : Soc T) → Steady s.timer s.wdt → (wait d s).uart ≡ settled_uart s.uart
  pub sysctrl : (d : ℕ) (s : Soc T) → Steady s.timer s.wdt → (wait d s).sysctrl ≡ s.sysctrl
  pub line : (s : Soc T) → has_any (irq_bits s) (2 ^ pl_irq_uart) ≡ s.uart.irq
  pub keeps : (d : ℕ) (s : Soc T) → Steady s.timer s.wdt → Steady (wait d s).timer (wait d s).wdt

abbrev pub is_known : Place → Bool
is_known sram = true
is_known gpio = true
is_known uart = true
is_known sysctrl = true
is_known _ = false

abbrev pub quiet_timer : Transport (Unit {0})
quiet_timer s t = (s, t)

abbrev pub settle : ℕ → Soc (Unit {0}) → Soc (Unit {0})
settle d s = record s { gpio = settled_gpio s.gpio; uart = settled_uart s.uart }

abbrev pub uart_line : Soc (Unit {0}) → ℕ
uart_line s = if s.uart.irq then 2 ^ pl_irq_uart else 0

abbrev pub Always : Unit {0} → Wdt → Type 0
Always x w = Unit

pub settle-IsTimed : IsTimed Always settle uart_line
settle-IsTimed = record {
  sram = λ d s h. refl;
  gpio = λ d s h. refl;
  uart = λ d s h. refl;
  sysctrl = λ d s h. refl;
  line = λ s. elim s.uart.irq as (λ b. has_any (if b then 4 else 0) 4 ≡ b) [
    | true ↦ refl
    | false ↦ refl
  ];
  keeps = λ d s h. tt;
}

-- The controller with the one interrupt that the firmware enables.
abbrev pub uart_nvic : Nvic Bool
uart_nvic = record { set_enable = λ v n. true; fires = λ n l. n && has_any l (2 ^ pl_irq_uart) }

abbrev pub Reference : Type 0
Reference = Board (Unit {0}) Bool

abbrev pub known_place : Option (Place × ℕ) → Bool
known_place none = false
known_place (some (p, _)) = is_known p

abbrev pub is_answered : ℕ → Bool
is_answered a = in_window a && known_place (place_of (a - pl_base))

-- An access elsewhere is a fault.
abbrev pub reference : Bus Reference
reference = record {
  fetch = λ a b.
      if is_answered a then fetch quiet_timer settle uart_line (λ s. s) uart_nvic a b else none;
  modify = λ a v b.
      if a == nvic_iser0
      then (if v == 2 ^ pl_irq_uart then some (record b { nvic = true }) else none)
      else if is_answered a
      then modify quiet_timer settle uart_line (λ s. s) uart_nvic a v b
      else none;
  pending = λ b. b.nvic && has_any b.lines (2 ^ pl_irq_uart);
  idle = λ b. none;
}
