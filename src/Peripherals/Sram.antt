-- ===== src/Peripherals/Sram.antt =====
-- peripherals/sram_ahb.h: the AHB memory.
pub mod Laws
pub mod Words
pub mod Refine
use systemc_model.Base.{ltb, ◌==◌, if◌then◌else◌, length, replicate, ℕ, ◌+◌, Bool, false, not}
use systemc_model.Base.{◌||◌, List}
use systemc_model.Base.Bits.{u32, has_any}
use systemc_model.Tlm.{Command, Transport, memcpy, finish, address_error, command_error}

-- `overrun` is no field of the code: it records that a copy ran past the vector, which C++ leaves
-- undefined. `memcpy` then reads 0 and drops what it would write there.
pub record Sram : Type 0 where
  pub mem : List ℕ
  pub overrun : Bool

-- `PL_SRAM_BYTES` of include/soc_memory_map.h
abbrev pub pl_sram_bytes : ℕ
pl_sram_bytes = 0x1000

abbrev pub sram_ahb : ℕ → Sram
sram_ahb bytes = record { mem = replicate bytes 0; overrun = false }

unfoldable pub on_reset : Bool → Sram → Sram
on_reset reset s = if reset then record s { mem = replicate (length s.mem) 0 } else s

-- The guard: the sum is one of `uint32_t`, and wraps.
unfoldable pub refuses : Sram → ℕ → ℕ → Bool
refuses s addr len = not (len == 4) || has_any addr 3 || ltb (length s.mem) (u32 (addr + len))

abbrev pub is_past : Sram → ℕ → Bool
is_past s addr = s.overrun || ltb (length s.mem) (addr + 4)

unfoldable pub b_transport : Transport Sram
unfolding refuses
b_transport s t =
    let addr = u32 t.address in
    if refuses s addr t.data_length
    then (s, record t { response = address_error })
    else elim t.command [
      | Command.read ↦ (
        record s { overrun = is_past s addr },
        finish 10 (record t { bytes = memcpy 4 t.bytes 0 s.mem addr }),
      )
      | Command.write ↦
          (record { mem = memcpy 4 s.mem addr t.bytes 0; overrun = is_past s addr }, finish 10 t)
      | Command.ignore ↦ (s, record t { response = command_error })
    ]
