-- ===== src/Machines/SystemcPs.antt =====
-- processor/systemc_ps.c: the board of the Cortex-A9.
use systemc_model.Base.{ltb, if◌then◌else◌, ℕ, zero, suc, ◌+◌, ◌*◌, Bool, false, Option, none}
use systemc_model.Base.{some, List, [], ◌∷◌, ◌++◌}
use Prim.Native.String.{String}
use systemc_model.Machines.Calls.{
  remote_mmio, a9mpcore, l2x0, arm_cpu, machine_ram, pin, irq, fiq, virq, vfiq, Call, add_subregion,
  qdev_new, set_uint, set_string, set_bool, realize, mmio_map, connect_irq, create_pl011,
  create_varargs, load_kernel, MachineState, socket_path,
}

abbrev pub ps_gic_ext_irqs : ℕ
ps_gic_ext_irqs = 64

-- `GIC_INTERNAL` of hw/intc/arm_gic_common.h
abbrev pub gic_internal : ℕ
gic_internal = 32

abbrev pub ps_ddr_size_default : ℕ
ps_ddr_size_default = 256 * 1024 * 1024

abbrev pub ps_ddr_base : ℕ
ps_ddr_base = 0x60000000

abbrev pub ps_a9_periph_base : ℕ
ps_a9_periph_base = 0x1e000000

abbrev pub ps_uart0_base : ℕ
ps_uart0_base = 0x10009000

abbrev pub ps_pl_base : ℕ
ps_pl_base = 0xF0000000

abbrev pub ps_pl_size : ℕ
ps_pl_size = 0x00100000

-- One processor of the first loop; `has_el2` is whether the processor has that property.
unfoldable pub create_cpu : Bool → ℕ → List Call
create_cpu has_el2 n =
    qdev_new (arm_cpu n)
      ∷ set_bool (arm_cpu n) "has_el3" false
      ∷ (if has_el2 then set_bool (arm_cpu n) "has_el2" false ∷ [] else [])
    ++ set_uint (arm_cpu n) "reset-cbar" ps_a9_periph_base ∷ realize (arm_cpu n) ∷ []

-- The loop from `n` on, with `left` processors to go.
unfoldable pub create_cpus : Bool → ℕ → ℕ → List Call
create_cpus has_el2 zero n = []
create_cpus has_el2 (suc left) n = create_cpu has_el2 n ++ create_cpus has_el2 left (n + 1)

-- The last loop: the outputs of the interrupt controller, by kind and then by processor.
unfoldable pub connect_cpus : ℕ → ℕ → ℕ → List Call
connect_cpus cpus zero n = []
connect_cpus cpus (suc left) n =
    connect_irq a9mpcore n (arm_cpu n) irq
    ∷ connect_irq a9mpcore (n + cpus) (arm_cpu n) fiq
    ∷ connect_irq a9mpcore (n + 2 * cpus) (arm_cpu n) virq
    ∷ connect_irq a9mpcore (n + 3 * cpus) (arm_cpu n) vfiq
    ∷ connect_cpus cpus left (n + 1)

-- `pic[n]` is the input `pin n` of the controller.
unfoldable pub ps_init_cpus : Bool → MachineState → List Call
ps_init_cpus has_el2 machine =
    create_cpus has_el2 machine.cpus 0
    ++ (qdev_new a9mpcore
        ∷ set_uint a9mpcore "num-cpu" machine.cpus
        ∷ set_uint a9mpcore "num-irq" (ps_gic_ext_irqs + gic_internal)
        ∷ realize a9mpcore
        ∷ mmio_map a9mpcore ps_a9_periph_base
        ∷ connect_cpus machine.cpus machine.cpus 0)
    ++ create_varargs l2x0 (ps_a9_periph_base + 0xa000) ∷ []

-- What follows the check of the memory's size.
unfoldable pub ps_calls : Bool → MachineState → List Call
ps_calls has_el2 machine =
    (add_subregion ps_ddr_base machine_ram ∷ ps_init_cpus has_el2 machine)
    ++ create_pl011 ps_uart0_base a9mpcore (pin 5)
      ∷ qdev_new remote_mmio
      ∷ set_string remote_mmio "socket" (socket_path machine.socket_env)
      ∷ set_uint remote_mmio "size" ps_pl_size
      ∷ realize remote_mmio
      ∷ mmio_map remote_mmio ps_pl_base
      ∷ connect_irq remote_mmio 0 a9mpcore (pin 32)
      ∷ connect_irq remote_mmio 1 a9mpcore (pin 33)
      ∷ load_kernel ps_ddr_base machine.ram_size
      ∷ []

-- `none` is `exit(1)`.
unfoldable pub systemc_ps_init : Bool → MachineState → Option (List Call)
systemc_ps_init has_el2 machine =
    if ltb 0x40000000 machine.ram_size then none else some (ps_calls has_el2 machine)

-- `systemc_ps_machine_init`; the command line may ask for other values, of at most four processors.
unfoldable pub systemc_ps_machine_init : Option String → MachineState
systemc_ps_machine_init env = record {
  cpu_type = "cortex-a9-arm-cpu";
  cpus = 1;
  ram_size = ps_ddr_size_default;
  socket_env = env;
}
