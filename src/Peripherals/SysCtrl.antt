-- ===== src/Peripherals/SysCtrl.antt =====
-- peripherals/sysctrl_apb.h: the system control block.
pub mod Laws
use systemc_model.Base.{◌==◌, if◌then◌else◌, ℕ, Bool, true, false, none, some}
use systemc_model.Base.Bits.{u32}
use systemc_model.Tlm.{Command, Transport, tlm_unpack_u32, tlm_pack_u32, finish, command_error}

-- The registers of `SysCtrlApb`; the two frequencies are the constructor's arguments.
pub record SysCtrl : Type 0 where
  pub sys_hz : ℕ
  pub pclk_hz : ℕ
  pub scratch : ℕ
  pub reset_released : Bool
  pub wdt_latched : Bool

abbrev pub magic_v : ℕ
magic_v = 0x534F4332

abbrev pub ver_v : ℕ
ver_v = 0x00020000

abbrev pub sys_ctrl : ℕ → ℕ → SysCtrl
sys_ctrl sys_clk_hz pclk_clk_hz = record {
  sys_hz = sys_clk_hz;
  pclk_hz = pclk_clk_hz;
  scratch = 0;
  reset_released = false;
  wdt_latched = false;
}

-- The two methods run when their line changes, and read its level.
unfoldable pub on_reset : Bool → SysCtrl → SysCtrl
on_reset reset s =
    if reset
    then record s { scratch = 0; reset_released = false; wdt_latched = false }
    else record s { reset_released = true }

unfoldable pub on_wdt : Bool → SysCtrl → SysCtrl
on_wdt wdt_rst s = if wdt_rst then record s { wdt_latched = true } else s

abbrev flag : Bool → ℕ
flag b = if b then 1 else 0

-- The `switch` of a read.
unfoldable pub read_register : SysCtrl → ℕ → ℕ
read_register s off =
    if off == 0x00
    then magic_v
    else if off == 0x04
    then ver_v
    else if off == 0x08
    then s.scratch
    else if off == 0x0C
    then s.sys_hz
    else if off == 0x10
    then s.pclk_hz
    else if off == 0x14
    then flag s.reset_released
    else if off == 0x18
    then flag s.wdt_latched
    else 0

unfoldable pub write_register : SysCtrl → ℕ → ℕ → SysCtrl
write_register s off value =
    if off == 0x08
    then record s { scratch = value }
    else if off == 0x18
    then record s { wdt_latched = false }
    else s

unfoldable pub b_transport : Transport SysCtrl
b_transport s t =
    let off = u32 t.address in
    elim t.command [
      | Command.read ↦
          let (good, u) = tlm_pack_u32 t (read_register s off) in
          if good then (s, finish 10 u) else (s, u)
      | Command.write ↦
          let (value, u) = tlm_unpack_u32 t in
          elim value [ none ↦ (s, u) | some v ↦ (write_register s off v, finish 10 u) ]
      | Command.ignore ↦ (s, record t { response = command_error })
    ]
