-- ===== src/Machines/Memory.antt =====
-- The guest's memory map on both boards.
use systemc_model.Base.{ℕ, zero, suc, ◌+◌, ◌≤◌, ◌<◌, ◌≡◌, refl, ap, ◌∙◌, ◌⊎◌, inl, inr, Bool}
use systemc_model.Base.{true, false, none, some, List, [], ◌∷◌, ◌++◌, arith}
use systemc_model.Machines.Calls.{
  Device, remote_mmio, a9mpcore, pl011, l2x0, Area, flash, machine_ram, registers, Call,
  MachineState, Mapping, Separate, mappings, mappings-append, window,
}
use systemc_model.Machines.SystemcSoc.{systemc_soc_init, flash_size, bridge_size}
use systemc_model.Machines.SystemcPs.{
  create_cpu, create_cpus, connect_cpus, ps_init_cpus, ps_calls, systemc_ps_init, ps_pl_size,
  ps_a9_periph_base, ps_ddr_base, ps_uart0_base, ps_pl_base,
}
use systemc_model.Bridges.RemoteMmio.{remote_mmio_realize}
use mathlib.Core.List.{append_assoc}
use native.Mathlib.Decide.{dec_lt}

-- The size of an area, with what QEMU's own devices take.
abbrev pub area_size : MachineState → ℕ → (Device → ℕ) → Area → ℕ
area_size m bridge own flash = flash_size
area_size m bridge own machine_ram = m.ram_size
area_size m bridge own (registers remote_mmio) = bridge
area_size m bridge own (registers d) = own d

-- On the Cortex-M3 board the flash, a memory of at most 512 MiB and the bridge's window lie apart,
-- and the window is the one that the platform decodes.
pub soc_map :
    (m : MachineState) (own : Device → ℕ)
    → m.ram_size ≤ 0x20000000
    → (window (systemc_soc_init m) ≡ some bridge_size)
      × Separate (mappings (area_size m bridge_size own) (systemc_soc_init m))
unfolding mappings window systemc_soc_init remote_mmio_realize
soc_map m own h = (refl, ground arith)

module _ (size : Area → ℕ) where
  create_cpus-unmapped :
      (has_el2 : Bool) (left n : ℕ) → mappings size (create_cpus has_el2 left n) ≡ []
  unfolding mappings create_cpus create_cpu
  create_cpus-unmapped has_el2 zero n = refl
  create_cpus-unmapped true (suc left) n = create_cpus-unmapped true left (n + 1)
  create_cpus-unmapped false (suc left) n = create_cpus-unmapped false left (n + 1)

  connect_cpus-unmapped : (cpus left n : ℕ) → mappings size (connect_cpus cpus left n) ≡ []
  unfolding mappings connect_cpus
  connect_cpus-unmapped cpus zero n = refl
  connect_cpus-unmapped cpus (suc left) n = connect_cpus-unmapped cpus left (n + 1)

  ps_init_cpus-mappings :
      (has_el2 : Bool) (m : MachineState)
      → mappings size (ps_init_cpus has_el2 m)
        ≡ record {
          base = ps_a9_periph_base;
          size = size (registers a9mpcore);
          area = registers a9mpcore;
        }
          ∷ record {
            base = ps_a9_periph_base + 0xa000;
            size = size (registers l2x0);
            area = registers l2x0;
          }
          ∷ []
  unfolding ps_init_cpus mappings
  ps_init_cpus-mappings has_el2 m =
      simp (mappings-append, create_cpus-unmapped, connect_cpus-unmapped) (refl)

create_cpus-window :
    (has_el2 : Bool) (left n : ℕ) (cs : List Call)
    → window (create_cpus has_el2 left n ++ cs) ≡ window cs
unfolding create_cpus create_cpu window
create_cpus-window has_el2 zero n cs = refl
create_cpus-window true (suc left) n cs = create_cpus-window true left (n + 1) cs
create_cpus-window false (suc left) n cs = create_cpus-window false left (n + 1) cs

connect_cpus-window :
    (cpus left n : ℕ) (cs : List Call) → window (connect_cpus cpus left n ++ cs) ≡ window cs
unfolding connect_cpus window
connect_cpus-window cpus zero n cs = refl
connect_cpus-window cpus (suc left) n cs = connect_cpus-window cpus left (n + 1) cs

ps_init_cpus-window :
    (has_el2 : Bool) (m : MachineState) (cs : List Call)
    → window (ps_init_cpus has_el2 m ++ cs) ≡ window cs
unfolding ps_init_cpus window
ps_init_cpus-window has_el2 m cs = simp (append_assoc, create_cpus-window, connect_cpus-window)

ps_calls-window :
    (has_el2 : Bool) (m : MachineState) → window (ps_calls has_el2 m) ≡ some ps_pl_size
unfolding ps_calls window remote_mmio_realize
ps_calls-window has_el2 m = ps_init_cpus-window has_el2 m _

abbrev at : (Area → ℕ) → ℕ → Area → Mapping
at size base area = record { base = base; size = size area; area = area }

ps_calls-mappings :
    (size : Area → ℕ) (has_el2 : Bool) (m : MachineState)
    → mappings size (ps_calls has_el2 m)
      ≡ at size ps_ddr_base machine_ram
        ∷ at size ps_a9_periph_base (registers a9mpcore)
        ∷ at size (ps_a9_periph_base + 0xa000) (registers l2x0)
        ∷ at size ps_uart0_base (registers pl011)
        ∷ at size ps_pl_base (registers remote_mmio)
        ∷ []
unfolding ps_calls mappings
ps_calls-mappings size has_el2 m =
    ap (λ ms. at size ps_ddr_base machine_ram ∷ ms)
      (mappings-append size (ps_init_cpus has_el2 m) _
        ∙ ap
            (λ ms.
              ms
              ++ at size ps_uart0_base (registers pl011)
                ∷ at size ps_pl_base (registers remote_mmio)
                ∷ [])
            (ps_init_cpus-mappings size has_el2 m))

-- The Cortex-A9 board is built exactly for a memory of at most 1 GiB, and then the memory, the
-- processors' private block, the cache controller, the serial port and the bridge's window lie
-- apart, if QEMU's three devices take no more than the room left for them, and the window has the
-- size that the platform decodes.
pub ps_map :
    (has_el2 : Bool) (m : MachineState) (own : Device → ℕ)
    → own a9mpcore ≤ 0xa000
    → own l2x0 ≤ 0x1000
    → own pl011 ≤ 0x1000
    → ((0x40000000 < m.ram_size) × (systemc_ps_init has_el2 m ≡ none))
      ⊎ ((m.ram_size ≤ 0x40000000)
          × (calls : List Call) × (systemc_ps_init has_el2 m ≡ some calls)
          × (window calls ≡ some ps_pl_size)
          × Separate (mappings (area_size m ps_pl_size own) calls))
unfolding systemc_ps_init
ps_map has_el2 m own a b c = elim (dec_lt 0x40000000 m.ram_size) [
  | yes big ↦ inl (big, ground arith)
  | no fits ↦ inr (
    omega arith,
    ps_calls has_el2 m,
    ground arith,
    ps_calls-window has_el2 m,
    rw (ps_calls-mappings (area_size m ps_pl_size own) has_el2 m) (ground arith),
  )
]
