-- ===== src/Firmware/Board.antt =====
-- The board that the Cortex-M firmware runs on: the processor of processor/systemc_soc.c, its window
-- of bridges/remote_mmio.c, the server of transactor/cosim_server.cpp, and Soc/cortexm_pl.h.
pub mod Reference
pub mod Laws
pub mod Follow
pub mod Clocked
pub mod PinTimer
pub mod CortexA
use systemc_model.Base.{ltb, leb, ◌==◌, if◌then◌else◌, ℕ, ◌+◌, ◌-◌, Bool, ◌&&◌, Option, none}
use systemc_model.Base.{some}
use systemc_model.Tlm.{Transport}
use systemc_model.Protocol.{CosimRequest, CosimResponse}
use systemc_model.Bridges.RemoteMmio.Access.{good}
use systemc_model.Transactor.Server.{handle}
use systemc_model.Soc.{Soc, b_transport}
use systemc_model.Soc.HostMemory.{read_request, write_request}
use systemc_model.Firmware.Program.{Bus}
use systemc_model.Firmware.CortexM.{pl_base, nvic_iser0}

-- The interrupt controller of the processor: a write of ISER0, and whether an enabled interrupt is
-- asked for at the levels of the lines.
pub record Nvic (N : Type 0) : Type 0 where
  pub set_enable : ℕ → N → N
  pub fires : N → ℕ → Bool

-- `lines` are the levels that the last response gave.
pub record Board (T N : Type 0) : Type 0 where
  pub soc : Soc T
  pub nvic : N
  pub lines : ℕ

-- `SYSTEMC_PL_WINDOW_SIZE` of include/soc_memory_map.h
abbrev pub pl_window_size : ℕ
pl_window_size = 0x100000

abbrev pub in_window : ℕ → Bool
in_window a = leb pl_base a && ltb a (pl_base + pl_window_size)

module _ {T N : Type 0} (bridge : Transport T) (wait : ℕ → Soc T → Soc T) (irq_bits : Soc T → ℕ)
    (idle : Soc T → Soc T) (nvic : Nvic N) where
  abbrev pub serve : CosimRequest → Soc T → Soc T × Bool × CosimResponse
  serve req s = handle (b_transport bridge) wait irq_bits req s

  -- What the device does with a response: a good one gives its word and the levels.
  abbrev pub taken : Board T N → Soc T × Bool × CosimResponse → ℕ × Board T N
  taken b (s, _, resp) =
      if good resp
      then (resp.data', record { soc = s; nvic = b.nvic; lines = resp.irq_bits })
      else (0, record { soc = s; nvic = b.nvic; lines = b.lines })

  -- An access to the window, at an offset of it, with the word that it gives.
  abbrev pub answer_read : ℕ → Board T N → ℕ × Board T N
  answer_read off b = taken b (serve (read_request off) b.soc)

  abbrev pub answer_write : ℕ → ℕ → Board T N → ℕ × Board T N
  answer_write off v b = taken b (serve (write_request off v) b.soc)

  unfoldable pub fetch : ℕ → Board T N → Option (ℕ × Board T N)
  fetch a b = if in_window a then some (answer_read (a - pl_base) b) else none

  unfoldable pub modify : ℕ → ℕ → Board T N → Option (Board T N)
  modify a v b =
      if a == nvic_iser0
      then some (record b { nvic = nvic.set_enable v b.nvic })
      else if in_window a
      then some (answer_write (a - pl_base) v b).1
      else none

  unfoldable pub pending : Board T N → Bool
  pending b = nvic.fires b.nvic b.lines

  abbrev pub board_bus : Bus (Board T N)
  board_bus = record {
    fetch = fetch;
    modify = modify;
    pending = pending;
    idle = λ b. some (record b { soc = idle b.soc });
  }
