-- ===== src/Peripherals/Wdt.antt =====
-- peripherals/wdt_apb.h: the watchdog.
pub mod Laws
pub mod Count
pub mod Reach
use systemc_model.Base.{◌==◌, if◌then◌else◌, ℕ, ◌-◌, bit_and, Bool, true, false, not, ◌&&◌}
use systemc_model.Base.{◌||◌, none, some}
use systemc_model.Base.Bits.{u32, has_any}
use systemc_model.Tlm.{Command, Transport, tlm_unpack_u32, tlm_pack_u32, finish, command_error}

-- The registers, the pending notification of `irq_ev_`, and the two output lines.
pub record Wdt : Type 0 where
  pub load : ℕ
  pub value : ℕ
  pub ctrl : ℕ
  pub ris : ℕ
  pub locked : Bool
  pub irq_ev : Bool
  pub irq : Bool
  pub rst_req : Bool

abbrev pub wdt_ctrl_inten : ℕ
wdt_ctrl_inten = 1

abbrev pub wdt_ctrl_resen : ℕ
wdt_ctrl_resen = 2

abbrev pub wdt_unlock : ℕ
wdt_unlock = 0x1ACCE551

-- The constructor; the lines are signals, which start low.
abbrev pub wdt_apb : Wdt
wdt_apb = record {
  load = 0xFFFF;
  value = 0xFFFF;
  ctrl = 0;
  ris = 0;
  locked = true;
  irq_ev = false;
  irq = false;
  rst_req = false;
}

-- `drive` is what `irq_ev_` wakes: running it uses the notification up.
unfoldable pub drive : Wdt → Wdt
drive s = record s {
  irq_ev = false;
  irq = has_any s.ris (bit_and s.ctrl wdt_ctrl_inten);
  rst_req = not (s.ris == 0) && has_any s.ctrl wdt_ctrl_resen;
}

unfoldable pub on_reset : Bool → Wdt → Wdt
on_reset reset s =
    if reset
    then record s { load = 0xFFFF; value = 0xFFFF; ctrl = 0; ris = 0; locked = true; irq_ev = true }
    else s

-- A rising edge of `pclk`, with the level of `reset`.
unfoldable pub tick : Bool → Wdt → Wdt
tick reset s =
    if reset || not (has_any s.ctrl wdt_ctrl_inten)
    then s
    else if s.value == 0
    then record s { ris = 1; value = s.load; irq_ev = true }
    else record s { value = s.value - 1 }

abbrev pub writable : Wdt → Bool
writable s = not s.locked

unfoldable pub read_register : Wdt → ℕ → ℕ
read_register s off =
    if off == 0x00
    then s.load
    else if off == 0x04
    then s.value
    else if off == 0x08
    then s.ctrl
    else if off == 0x10
    then s.ris
    else if off == 0x14
    then bit_and s.ris (bit_and s.ctrl wdt_ctrl_inten)
    else if off == 0xC00
    then (if s.locked then 1 else 0)
    else 0

-- The inner `switch`, for a register other than LOCK.
unfoldable pub write_unlocked : Wdt → ℕ → ℕ → Wdt
write_unlocked s off v =
    if off == 0x00
    then record s { load = v; value = v }
    else if off == 0x08
    then record s { ctrl = bit_and v 3 }
    else if off == 0x0C
    then record s { ris = 0; value = s.load }
    else s

unfoldable pub write_register : Wdt → ℕ → ℕ → Wdt
unfolding write_unlocked
write_register s off v =
    if off == 0xC00
    then record s { locked = not (v == wdt_unlock) }
    else if writable s
    then (let u = write_unlocked s off v in record u { irq_ev = true })
    else s

unfoldable pub b_transport : Transport Wdt
b_transport s t =
    let off = u32 t.address in
    elim t.command [
      | Command.read ↦
          let (good, u) = tlm_pack_u32 t (read_register s off) in
          if good then (s, finish 20 u) else (s, u)
      | Command.write ↦
          let (value, u) = tlm_unpack_u32 t in
          elim value [ none ↦ (s, u) | some v ↦ (write_register s off v, finish 20 u) ]
      | Command.ignore ↦ (s, record t { response = command_error })
    ]
