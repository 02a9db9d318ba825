-- ===== src/Machines/SystemcSoc.antt =====
-- processor/systemc_soc.c: the board of the Cortex-M3.
use systemc_model.Base.{ℕ, ◌*◌, Option, List, [], ◌∷◌}
use Prim.Native.String.{String}
use systemc_model.Machines.Calls.{
  armv7m, remote_mmio, flash, machine_ram, pin, Call, init_rom, add_subregion, clock_set_hz,
  qdev_new, set_uint, set_string, connect_clock, link_memory, realize, mmio_map, connect_irq,
  load_kernel, MachineState, socket_path,
}

abbrev pub flash_size : ℕ
flash_size = 512 * 1024

abbrev pub sram_size : ℕ
sram_size = 128 * 1024

abbrev pub bridge_base : ℕ
bridge_base = 0x40000000

abbrev pub bridge_size : ℕ
bridge_size = 0x00100000

abbrev pub hclk_frq : ℕ
hclk_frq = 100000000

unfoldable pub systemc_soc_init : MachineState → List Call
systemc_soc_init machine =
    init_rom flash flash_size
    ∷ add_subregion 0x00000000 flash
    ∷ add_subregion 0x20000000 machine_ram
    ∷ clock_set_hz hclk_frq
    ∷ qdev_new armv7m
    ∷ set_uint armv7m "num-irq" 64
    ∷ set_string armv7m "cpu-type" machine.cpu_type
    ∷ connect_clock armv7m
    ∷ link_memory armv7m
    ∷ realize armv7m
    ∷ qdev_new remote_mmio
    ∷ set_string remote_mmio "socket" (socket_path machine.socket_env)
    ∷ set_uint remote_mmio "size" bridge_size
    ∷ realize remote_mmio
    ∷ mmio_map remote_mmio bridge_base
    ∷ connect_irq remote_mmio 0 armv7m (pin 0)
    ∷ connect_irq remote_mmio 1 armv7m (pin 1)
    ∷ connect_irq remote_mmio 2 armv7m (pin 2)
    ∷ connect_irq remote_mmio 3 armv7m (pin 3)
    ∷ connect_irq remote_mmio 4 armv7m (pin 4)
    ∷ load_kernel 0 flash_size
    ∷ []

-- `systemc_soc_machine_init`
unfoldable pub systemc_soc_machine_init : Option String → MachineState
systemc_soc_machine_init env = record {
  cpu_type = "cortex-m3-arm-cpu";
  cpus = 1;
  ram_size = sram_size;
  socket_env = env;
}
