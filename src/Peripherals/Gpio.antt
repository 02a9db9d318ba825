-- ===== src/Peripherals/Gpio.antt =====
-- peripherals/gpio_apb.h: the general-purpose pins.
pub mod Laws
pub mod Edges
pub mod Reach
use systemc_model.Base.{◌==◌, if◌then◌else◌, ℕ, zero, suc, ◌+◌, ◌^◌, bit_and, bit_or, bit_xor}
use systemc_model.Base.{Bool, true, false, not, xor, ◌&&◌, none, some}
use systemc_model.Base.Bits.{u32, not_word, has_any}
use systemc_model.Tlm.{Command, Transport, tlm_unpack_u32, tlm_pack_u32, finish, command_error}

pub record Gpio : Type 0 where
  pub dir : ℕ
  pub out : ℕ
  pub inten : ℕ
  pub inttype : ℕ
  pub intpol : ℕ
  pub intstat : ℕ
  pub irq_ev : Bool
  pub irq : Bool

abbrev pub gpio_id_val : ℕ
gpio_id_val = 0x4750494F

abbrev pub gpio_apb : Gpio
gpio_apb = record {
  dir = 0;
  out = 0;
  inten = 0;
  inttype = 0;
  intpol = 0;
  intstat = 0;
  irq_ev = false;
  irq = false;
}

abbrev pub pin_state : Gpio → ℕ
pin_state s = bit_and s.out s.dir

unfoldable pub drive_irq : Gpio → Gpio
drive_irq s = record s { irq_ev = false; irq = has_any s.intstat s.inten }

unfoldable pub on_reset : Bool → Gpio → Gpio
on_reset reset s =
    if reset
    then record s {
      dir = 0;
      out = 0;
      inten = 0;
      inttype = 0;
      intpol = 0;
      intstat = 0;
      irq_ev = true;
    }
    else s

-- Equality of two `bool`s.
abbrev pub same : Bool → Bool → Bool
same a b = not (xor a b)

-- One round of the loop of `note_edges`: whether the pin of the mask `m` becomes pending.
unfoldable pub is_noted : Gpio → ℕ → ℕ → ℕ → Bool
is_noted s changed new_pins m =
    if not (has_any s.inten m)
    then false
    else if has_any s.inttype m
    then has_any changed m && same (has_any new_pins m) (has_any s.intpol m)
    else same (has_any new_pins m) (has_any s.intpol m)

-- The loop, with `left` rounds to go from bit `b` on.
unfoldable pub note_loop : Gpio → ℕ → ℕ → ℕ → ℕ → ℕ → ℕ
note_loop s changed new_pins zero b pend = pend
note_loop s changed new_pins (suc left) b pend =
    note_loop s changed new_pins left (b + 1)
      (if is_noted s changed new_pins (2 ^ b) then bit_or pend (2 ^ b) else pend)

unfoldable pub note_edges : ℕ → ℕ → Gpio → Gpio
note_edges old_pins new_pins s =
    let changed = bit_xor old_pins new_pins in
    record s { intstat = bit_or s.intstat (note_loop s changed new_pins 32 0 0); irq_ev = true }

unfoldable pub read_register : Gpio → ℕ → ℕ
read_register s off =
    if off == 0x00
    then pin_state s
    else if off == 0x04
    then s.dir
    else if off == 0x10
    then s.inten
    else if off == 0x14
    then s.inttype
    else if off == 0x18
    then s.intpol
    else if off == 0x1C
    then s.intstat
    else if off == 0x24
    then gpio_id_val
    else 0

-- The `switch` of a write, before the edges are noted.
unfoldable pub write_switch : Gpio → ℕ → ℕ → Gpio
write_switch s off v =
    if off == 0x00
    then record s { out = v }
    else if off == 0x04
    then record s { dir = v }
    else if off == 0x08
    then record s { out = bit_or s.out v }
    else if off == 0x0C
    then record s { out = bit_and s.out (not_word v) }
    else if off == 0x10
    then record s { inten = v }
    else if off == 0x14
    then record s { inttype = v }
    else if off == 0x18
    then record s { intpol = v }
    else if off == 0x20
    then record s { intstat = bit_and s.intstat (not_word v) }
    else s

unfoldable pub write_register : Gpio → ℕ → ℕ → Gpio
write_register s off v =
    let old = pin_state s in let u = write_switch s off v in note_edges old (pin_state u) u

unfoldable pub b_transport : Transport Gpio
b_transport s t =
    let off = u32 t.address in
    elim t.command [
      | Command.read ↦
          let (good, u) = tlm_pack_u32 t (read_register s off) in
          if good then (s, finish 20 u) else (s, u)
      | Command.write ↦
          let (value, u) = tlm_unpack_u32 t in
          elim value [ none ↦ (s, u) | some v ↦ (write_register s off v, finish 20 u) ]
      | Command.ignore ↦ (s, record t { response = command_error })
    ]
